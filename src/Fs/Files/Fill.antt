-- ===== src/Fs/Files/Fill.antt =====
-- Bytes put into a block of an inode.
use linux.Base.{
  ℕ, zero, suc, ◌+◌, ◌-◌, ◌/◌, ◌%◌, ◌≡◌, ◌≢◌, ◌⊎◌, ◌≤◌, ◌<◌, refl, sym, ap, subst, ◌∙◌, inl, inr,
  true, false, some, List, [], ◌∷◌, ltb, ◌==◌, update, update_self, update_ne, length, get_or, take,
  Bool-cases, arith,
}
use native.Mathlib.Decide.{ℕ_discrete}
use linux.Fs.Bitmap.{Super}
use linux.Fs.Bitmap.Zones.{InUse}
use linux.Fs.Inodes.{Slot}
use linux.Fs.Files.Defs.{Volume, Block, block_size, capped, zone_of, write_bytes, grown}
use linux.Fs.Files.Reading.{byte_at, byte_of}
use linux.Fs.Files.Held.{held, reached, zone_of-held, IsValid, byte_at_same}
use linux.Fs.Files.Grow.{Written, top}

write_bytes_out :
    (b : Block) (i : ℕ) (cs : List ℕ) (x : ℕ)
    → (x < i) ⊎ (i + length cs ≤ x)
    → write_bytes b i cs x ≡ b x
unfolding write_bytes
write_bytes_out b i [] x h = refl
write_bytes_out b i (c ∷ cs) x (inl h) =
    write_bytes_out (update b i c) (suc i) cs x (inl (omega arith))
    ∙ update_ne b i x c (λ e. absurd (omega (arith, e)))
write_bytes_out b i (c ∷ cs) x (inr h) =
    write_bytes_out (update b i c) (suc i) cs x (inr (omega arith))
    ∙ update_ne b i x c (λ e. absurd (omega (arith, e)))

write_bytes_in :
    (b : Block) (i : ℕ) (cs : List ℕ) (j : ℕ)
    → j < length cs
    → write_bytes b i cs (i + j) ≡ get_or cs j 0
unfolding write_bytes
write_bytes_in b i [] j h = absurd (omega arith)
write_bytes_in b i (c ∷ cs) zero h =
    let e : i + 0 ≡ i = omega arith in
    rw e (write_bytes_out (update b i c) (suc i) cs i (inl (omega arith)) ∙ update_self b i c)
write_bytes_in b i (c ∷ cs) (suc j) h =
    let e : i + suc j ≡ suc i + j = omega arith in
    rw e (write_bytes_in (update b i c) (suc i) cs j (omega arith))

pub length-take : (n : ℕ) (xs : List ℕ) → n ≤ length xs → length (take n xs) ≡ n
length-take zero xs h = refl
length-take (suc n) [] h = absurd (omega arith)
length-take (suc n) (x ∷ xs) h = ap suc (length-take n xs (omega arith))

pub get_or-take : (n j : ℕ) (xs : List ℕ) → j < n → get_or (take n xs) j 0 ≡ get_or xs j 0
get_or-take zero j xs h = absurd (omega arith)
get_or-take (suc n) j [] h = refl
get_or-take (suc n) zero (x ∷ xs) h = refl
get_or-take (suc n) (suc j) (x ∷ xs) h = get_or-take n j xs (omega arith)

held_same :
    (v v' : Volume) (o o' : Slot) (y : ℕ)
    → o'.body.zones ≡ o.body.zones
    → (held v o 519 ≢ 0 → v'.blocks (held v o 519) ≡ v.blocks (held v o 519))
    → held v' o' y ≡ held v o y
unfolding held
held_same v v' o o' y zones same = elim (ℕ_discrete (get_or o.body.zones 7 0) 0) [
  | yes e ↦ rw (zones, e) refl
  | no d ↦ rw (zones, same d) refl
]

abbrev filled_volume : Volume → ℕ → ℕ → List ℕ → Volume
filled_volume v b offset cs = record v {
  blocks = update v.blocks b (write_bytes (v.blocks b) offset cs);
}

module _ (sb : Super) (v : Volume) (o : Slot) (pos : ℕ) (src : List ℕ) (b : ℕ)
    (valid : IsValid sb v o) (in_range : pos < top) (at : held v o (pos / block_size) ≡ b)
    (found : reached v o (pos / block_size) ≡ true) (there : b ≢ 0)
    (fine : v.maps.readable b ≡ true) (some_byte : 1 ≤ length src) where
  abbrev size : ℕ
  size = capped (block_size - pos % block_size) (length src)

  abbrev after : Volume
  after = filled_volume v b (pos % block_size) (take size src)

  abbrev bigger : Slot
  bigger = grown (pos + size) o

  bigger_zones : bigger.body.zones ≡ o.body.zones
  bigger_zones = elim (Bool-cases (ltb o.body.size (pos + size))) [
    | inl e ↦ rw e refl
    | inr e ↦ rw e refl
  ]

  pub same_held : (y : ℕ) → held after bigger y ≡ held v o y
  same_held y = held_same v after o bigger y bigger_zones (λ ind.
      update_ne v.blocks b (held v o 519)
        (write_bytes (v.blocks b) (pos % block_size) (take size src))
        (λ e.
          let k =
            valid.distinct 519 (pos / block_size) (omega arith) (omega arith) ind (sym (at ∙ e)) in
          absurd (omega (arith, k))))

  size_lem : (1 ≤ size) × (size ≤ length src) × (pos % block_size + size ≤ block_size)
  size_lem = ground arith

  bytes_in : (i : ℕ) → i < size → after.blocks b (pos % block_size + i) ≡ get_or src i 0
  bytes_in i h =
      ap (λ (f : Block). f (pos % block_size + i))
        (update_self v.blocks b (write_bytes (v.blocks b) (pos % block_size) (take size src)))
      ∙ write_bytes_in (v.blocks b) (pos % block_size) (take size src) i
          (subst (λ n. i < n) (sym (length-take size src size_lem.1)) h)
      ∙ get_or-take size i src h

  -- A byte of another zone, or outside of those that were written.
  bytes_out :
      (p : ℕ)
      → p < top
      → (p < pos) ⊎ (pos + size ≤ p)
      → held v o (p / block_size) ≢ 0
      → after.blocks (held v o (p / block_size)) (p % block_size)
        ≡ v.blocks (held v o (p / block_size)) (p % block_size)
  bytes_out p low where_at nz = elim (ℕ_discrete (p / block_size) (pos / block_size)) [
    | yes e ↦
        let own : held v o (p / block_size) ≡ b = ap (λ k. held v o k) e ∙ at in
        rw
          (
            own,
            update_self v.blocks b (write_bytes (v.blocks b) (pos % block_size) (take size src)),
          )
          (write_bytes_out (v.blocks b) (pos % block_size) (take size src) (p % block_size) (
            subst
              (λ n. (p % block_size < pos % block_size) ⊎ (pos % block_size + n ≤ p % block_size))
              (sym (length-take size src size_lem.1)) (apart where_at e)))
    | no d ↦
        ap (λ (f : Block). f (p % block_size))
          (update_ne v.blocks b (held v o (p / block_size))
            (write_bytes (v.blocks b) (pos % block_size) (take size src))
            (λ e.
              let k =
                valid.distinct (p / block_size) (pos / block_size) (omega arith) (omega arith) nz
                  (sym e ∙ sym at) in
              d k))
  ]
    where
      apart :
          (p < pos) ⊎ (pos + size ≤ p)
          → p / block_size ≡ pos / block_size
          → (p % block_size < pos % block_size) ⊎ (pos % block_size + size ≤ p % block_size)
      apart (inl h) e = inl (omega arith)
      apart (inr h) e = inr (omega arith)

  byte_inside : (i : ℕ) → i < size → byte_at after bigger (pos + i) ≡ some (get_or src i 0)
  byte_inside i h =
      let z : (pos + i) / block_size ≡ pos / block_size = omega (arith, size_lem) in
      let k : (pos + i) % block_size ≡ pos % block_size + i = omega (arith, size_lem) in
      let last = same_held 519 in
      let reach : reached after bigger (pos / block_size) ≡ true = rw last found in
      let zone : zone_of after bigger ((pos + i) / block_size) ≡ some b =
        rw
          (
            z,
            zone_of-held after bigger (pos / block_size) (omega arith),
            reach,
            same_held (pos / block_size),
            at,
          )
          refl in
      let given : b == 0 ≡ false = ground (arith, there) in
      byte_of after bigger (pos + i) (some b) zone ∙ rw (given, fine, k, bytes_in i h) refl

  pub filled-Written : Written sb v o pos src size after bigger
  filled-Written = record {
    count = size_lem.1;
    valid = record {
      long = subst (λ n. 8 ≤ n) (sym (ap (λ (l : List ℕ). length l) bigger_zones)) valid.long;
      in_use =
          (λ z h. subst (λ x. x ≢ 0 → InUse sb v.maps x) (sym (same_held z)) (valid.in_use z h));
      distinct = (λ y z hy hz nz e.
          valid.distinct y z hy hz (λ k. nz (same_held y ∙ k))
            (sym (same_held y) ∙ e ∙ same_held z));
    };
    reads = refl;
    kept = (λ z h nz. same_held z);
    there = (λ i h e.
        let z : (pos + i) / block_size ≡ pos / block_size = omega (arith, size_lem) in
        there (
          sym at ∙ sym (same_held (pos / block_size)) ∙ sym (ap (λ k. held after bigger k) z) ∙ e));
    inside = byte_inside;
    outside = (λ p low where_at nz.
        byte_at_same v after o bigger p (omega arith) nz (λ z h k. same_held z) refl
          (bytes_out p low where_at nz));
    spared = (λ x u apart. (
      update_ne v.blocks b x (write_bytes (v.blocks b) (pos % block_size) (take size src))
          (λ e. apart (pos / block_size) (omega arith) (at ∙ e)),
      u,
      (λ z h e. apart z h (sym (same_held z) ∙ e)),
    ));
    size = (let g = size_lem in ground arith);
  }
