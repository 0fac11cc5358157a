-- ===== src/Fs/Files/Writing.antt =====
-- file_write() as a whole.
use linux.Base.{
  ℕ, zero, suc, ◌+◌, ◌-◌, ◌*◌, ◌/◌, ◌≡◌, ◌≢◌, ◌⊎◌, ◌≤◌, ◌<◌, refl, sym, ap, subst, ◌∙◌, inl, inr,
  Bool, true, some, List, [], ◌∷◌, ◌==◌, length, take, drop, Bool-cases, arith,
}
use linux.Fs.Bitmap.{Super}
use linux.Fs.Inodes.{Slot}
use linux.Fs.Files.Defs.{
  Volume, block_size, zone_for_write, put_chunk, write_round, write_loop, file_write, file_read,
}
use linux.Fs.Files.Reading.{left, file_read-contents}
use linux.Fs.Files.Held.{held, IsValid, Fits}
use linux.Fs.Files.Grow.{Written, nothing-Written, top}
use linux.Fs.Files.Direct.{Placed, PlacedBy, NoneLeft}
use linux.Fs.Files.Chain.{then-Written, made_then-Written, as_written, length-drop}
use linux.Fs.Files.Listed.{zone_for_write-Placed}
use linux.Fs.Files.Fill.{filled-Written}

module _ (sb : Super) where
  abbrev WrittenBy : Volume → Slot → ℕ → List ℕ → ℕ × Volume × Slot → Type 0
  WrittenBy v o pos src (r, v', o') = Written sb v o pos src r v' o'

  -- Where the write does not need the indirect block, or the inode has one.
  abbrev pub Indirect : Volume → Slot → ℕ → Type 0
  Indirect v o end = (end ≤ 7 * block_size) ⊎ (held v o 519 ≢ 0)

  module _ (fits : Fits sb) where
    put_chunk-Written :
        (v : Volume) (o : Slot) (pos : ℕ) (src : List ℕ) (t : ℕ × Volume × Slot)
        → pos + length src ≤ top
        → 1 ≤ length src
        → Placed sb v o pos src (pos / block_size) t.0 t.1 t.2
        → WrittenBy v o pos src (put_chunk pos src t)
    put_chunk-Written v o pos src (b, v1, o1) low some_byte placed = elim (Bool-cases (b == 0)) [
      | inl e ↦ rw e placed.written
      | inr e ↦ elim (Bool-cases (v1.maps.readable b)) [
        | inr bad ↦ rw (e, bad) placed.written
        | inl fine ↦
            let there : b ≢ 0 = ground arith in
            let filled_volume =
              filled-Written sb v1 o1 pos src b placed.written.valid (omega arith) (placed.at there)
                (placed.found there) there fine some_byte in
            rw (e, fine)
              (made_then-Written sb v v1 _ o o1 _ pos _ src low placed.written filled_volume)
      ]
    ]

    zone_Placed :
        (v : Volume) (o : Slot) (pos : ℕ) (src : List ℕ)
        → IsValid sb v o
        → pos + length src ≤ top
        → 1 ≤ length src
        → Indirect v o (pos + length src)
        → PlacedBy sb v o pos src
            (pos / block_size)
            (zone_for_write (some sb) (pos / block_size) v o)
    zone_Placed v o pos src valid low some_byte way =
        zone_for_write-Placed sb pos src fits v o (pos / block_size) valid (omega arith) (go way)
      where
        go : Indirect v o (pos + length src) → (pos / block_size < 7) ⊎ (held v o 519 ≢ 0)
        go (inl h) = inl (omega arith)
        go (inr h) = inr h

    write_round-Written :
        (v : Volume) (o : Slot) (pos : ℕ) (src : List ℕ)
        → IsValid sb v o
        → pos + length src ≤ top
        → 1 ≤ length src
        → Indirect v o (pos + length src)
        → WrittenBy v o pos src (write_round (some sb) pos src v o)
    unfolding write_round
    write_round-Written v o pos src valid low some_byte way =
        put_chunk-Written v o pos src (zone_for_write (some sb) (pos / block_size) v o) low
          some_byte (zone_Placed v o pos src valid low some_byte way)

    rest-Indirect :
        (v v1 : Volume) (o o1 : Slot) (pos size : ℕ) (src : List ℕ)
        → Written sb v o pos src size v1 o1
        → Indirect v o (pos + length src)
        → Indirect v1 o1 (pos + size + length (drop size src))
    rest-Indirect v v1 o o1 pos size src one (inl h) =
        inl (omega (arith, one.count, length-drop size src))
    rest-Indirect v v1 o o1 pos size src one (inr h) =
        inr (λ e. h (sym (one.kept 519 (omega arith) h) ∙ e))

    write_loop-Written :
        (n : ℕ) (v : Volume) (o : Slot) (pos : ℕ) (src : List ℕ)
        → IsValid sb v o
        → pos + length src ≤ top
        → Indirect v o (pos + length src)
        → WrittenBy v o pos src (write_loop n (some sb) pos src v o)
    unfolding write_loop
    write_loop-Written zero v o pos src valid low way = nothing-Written sb pos src v o valid
    write_loop-Written (suc n) v o pos [] valid low way = nothing-Written sb pos [] v o valid
    write_loop-Written (suc n) v o pos (c ∷ cs) valid low way =
        let (size, v1, o1) = write_round (some sb) pos (c ∷ cs) v o in
        let one = write_round-Written v o pos (c ∷ cs) valid low (omega arith) way in
        let rest_fits : pos + size + length (drop size (c ∷ cs)) ≤ top =
          omega (arith, one.count, length-drop size (c ∷ cs)) in
        elim (Bool-cases (size == 0)) [
          | inl e ↦ rw e (subst (λ r. Written sb v o pos (c ∷ cs) r v1 o1) (ground arith) one)
          | inr e ↦ rw e (
              then-Written sb v v1 _ o o1 _ pos size _ (c ∷ cs) low one (
                write_loop-Written n v1 o1 (pos + size) (drop size (c ∷ cs)) one.valid rest_fits
                  (rest-Indirect v v1 o o1 pos size (c ∷ cs) one way)))
        ]

    -- On a device whose first data zone is not 0 and whose zone map names only zones that fit an
    -- unsigned short, of an inode whose blocks are in use and each there once: a write that ends
    -- within 519 blocks and, if it reaches past the direct zones, finds an indirect block, puts the first of the bytes, as many as it returns, at
    -- the position. The other bytes of the zones that the file had stay, as do the zones; the size
    -- grows to the end of what was written; a block in use that is not the file's keeps its bytes
    -- and is not taken; the blocks of the inode are still in use and each there once.
    pub file_write-Written :
        (v : Volume) (o : Slot) (pos : ℕ) (src : List ℕ)
        → IsValid sb v o
        → pos + length src ≤ top
        → Indirect v o (pos + length src)
        → WrittenBy v o pos src (file_write (some sb) pos src v o)
    unfolding file_write
    file_write-Written v o pos src = write_loop-Written (length src) v o pos src

    -- On a device whose first data zone is not 0 and whose zone map names only zones that fit an
    -- unsigned short, of an inode whose blocks are in use and each there once: file_read() from the
    -- position of a write that ends within 519 blocks and, if it reaches past the direct zones,
    -- finds an indirect block, gives back the bytes that were written.
    pub file_read-file_write :
        (v : Volume) (o : Slot) (pos : ℕ) (src : List ℕ)
        → IsValid sb v o
        → pos + length src ≤ top
        → Indirect v o (pos + length src)
        → let (r, v', o') = file_write (some sb) pos src v o in file_read v' o' pos r ≡ take r src
    file_read-file_write v o pos src valid low way =
        let (r, v', o') = file_write (some sb) pos src v o in
        let w = file_write-Written v o pos src valid low way in
        let all : left o' pos r ≡ r = (let g = w.size in ground arith) in
        rw (file_read-contents v' o' pos r, all) (as_written v' o' pos r src w.inside w.count)

    put_chunk_stops :
        (v : Volume) (o : Slot) (pos : ℕ) (src : List ℕ) (t : ℕ × Volume × Slot)
        → 1 ≤ length src
        → ((x : ℕ) → v.maps.readable x ≡ true)
        → Placed sb v o pos src (pos / block_size) t.0 t.1 t.2
        → (put_chunk pos src t).0 ≡ 0
        → NoneLeft sb (put_chunk pos src t).1
    put_chunk_stops v o pos src (b, v1, o1) some_byte fine placed = elim (Bool-cases (b == 0)) [
      | inl e ↦ rw e (λ k. placed.stop fine (ground arith))
      | inr e ↦
          let reads : v1.maps.readable b ≡ true =
            ap (λ (f : ℕ → Bool). f b) placed.written.reads ∙ fine b in
          rw (e, reads) (λ k. absurd (ground arith))
    ]

    write_loop_stops :
        (n : ℕ) (v : Volume) (o : Slot) (pos : ℕ) (src : List ℕ)
        → length src ≤ n
        → IsValid sb v o
        → pos + length src ≤ top
        → Indirect v o (pos + length src)
        → ((x : ℕ) → v.maps.readable x ≡ true)
        → ((write_loop n (some sb) pos src v o).0 ≡ length src)
          ⊎ NoneLeft sb (write_loop n (some sb) pos src v o).1
    unfolding write_loop write_round
    write_loop_stops zero v o pos src enough valid low way fine = inl (omega arith)
    write_loop_stops (suc n) v o pos [] enough valid low way fine = inl refl
    write_loop_stops (suc n) v o pos (c ∷ cs) enough valid low way fine =
        let (size, v1, o1) = write_round (some sb) pos (c ∷ cs) v o in
        let one = write_round-Written v o pos (c ∷ cs) valid low (omega arith) way in
        elim (Bool-cases (size == 0)) [
          | inl e ↦ rw e (
              inr (
                put_chunk_stops v o pos (c ∷ cs) (zone_for_write (some sb) (pos / block_size) v o)
                  (omega arith) fine (zone_Placed v o pos (c ∷ cs) valid low (omega arith) way)
                  (ground arith)))
          | inr e ↦
              let rest_fits : pos + size + length (drop size (c ∷ cs)) ≤ top =
                omega (arith, one.count, length-drop size (c ∷ cs)) in
              let some_size : 1 ≤ size = ground arith in
              rw e (
                go size (length-drop size (c ∷ cs)) one.count (
                  write_loop_stops n v1 o1 (pos + size) (drop size (c ∷ cs))
                    (omega (arith, length-drop size (c ∷ cs))) one.valid rest_fits
                    (rest-Indirect v v1 o o1 pos size (c ∷ cs) one way)
                    (λ x. ap (λ (f : ℕ → Bool). f x) one.reads ∙ fine x)))
        ]
      where
        go :
            {P : Type 0} {r : ℕ} (size : ℕ)
            → length (drop size (c ∷ cs)) ≡ length (c ∷ cs) - size
            → size ≤ length (c ∷ cs)
            → (r ≡ length (drop size (c ∷ cs))) ⊎ P
            → (size + r ≡ length (c ∷ cs)) ⊎ P
        go size e h (inl k) = inl (omega arith)
        go size e h (inr p) = inr p

    -- On a device whose first data zone is not 0 and whose zone map names only zones that fit an
    -- unsigned short, and whose blocks can all be read, of an inode whose blocks are in use and each
    -- there once: a write that ends within 519 blocks and, if it reaches past the direct zones,
    -- finds an indirect block, writes all the bytes, or there is no free zone left.
    pub file_write_all :
        (v : Volume) (o : Slot) (pos : ℕ) (src : List ℕ)
        → IsValid sb v o
        → pos + length src ≤ top
        → Indirect v o (pos + length src)
        → ((x : ℕ) → v.maps.readable x ≡ true)
        → ((file_write (some sb) pos src v o).0 ≡ length src)
          ⊎ NoneLeft sb (file_write (some sb) pos src v o).1
    unfolding file_write
    file_write_all v o pos src = write_loop_stops (length src) v o pos src (omega arith)
