-- ===== src/Fs/Files/Chain.antt =====
-- Writes one after the other.
use linux.Base.{
  ℕ, zero, suc, ◌+◌, ◌-◌, ◌/◌, ◌≡◌, ◌≢◌, ◌⊎◌, ◌≤◌, ◌<◌, refl, sym, ap, subst, ◌∙◌, inl, inr, some,
  List, [], ◌∷◌, ltb, length, get_or, take, drop, Bool-cases, arith,
}
use linux.Fs.Bitmap.{Super}
use linux.Fs.Inodes.{Slot}
use linux.Fs.Files.Defs.{Volume, block_size}
use linux.Fs.Files.Reading.{byte_at, contents}
use linux.Fs.Files.Held.{nr_held, held}
use linux.Fs.Files.Grow.{Written, top}

pub length-drop : (n : ℕ) (xs : List ℕ) → length (drop n xs) ≡ length xs - n
length-drop zero xs = omega arith
length-drop (suc n) [] = omega arith
length-drop (suc n) (x ∷ xs) = omega (arith, length-drop n xs)

get_or-drop : (n i : ℕ) (xs : List ℕ) → n ≤ i → get_or (drop n xs) (i - n) 0 ≡ get_or xs i 0
get_or-drop zero i xs h = let e : i - 0 ≡ i = omega arith in rw e refl
get_or-drop (suc n) i [] h = refl
get_or-drop (suc n) zero (x ∷ xs) h = absurd (omega arith)
get_or-drop (suc n) (suc i) (x ∷ xs) h =
    let e : suc i - suc n ≡ i - n = omega arith in rw e (get_or-drop n i xs (omega arith))

pub as_written :
    (v : Volume) (o : Slot) (pos r : ℕ) (src : List ℕ)
    → ((i : ℕ) → i < r → byte_at v o (pos + i) ≡ some (get_or src i 0))
    → r ≤ length src
    → contents v o pos r ≡ take r src
unfolding contents
as_written v o pos zero src h low = refl
as_written v o pos (suc r) [] h low = absurd (omega arith)
as_written v o pos (suc r) (c ∷ cs) h low =
    let e : byte_at v o pos ≡ some c =
      subst (λ p. byte_at v o p ≡ some c) (omega arith) (h 0 (omega arith)) in
    rw e (
      ap (λ (l : List ℕ). c ∷ l)
        (as_written v o (suc pos) r cs
          (λ i low_i.
            subst (λ p. byte_at v o p ≡ some (get_or cs i 0)) (omega arith)
              (h (suc i) (omega arith)))
          (omega arith)))

module _ (sb : Super) where
  -- A write, and then one that goes on where it stopped.
  pub then-Written :
      (v v1 v2 : Volume) (o o1 o2 : Slot) (pos r1 r2 : ℕ) (src : List ℕ)
      → pos + length src ≤ top
      → Written sb v o pos src r1 v1 o1
      → Written sb v1 o1 (pos + r1) (drop r1 src) r2 v2 o2
      → Written sb v o pos src (r1 + r2) v2 o2
  then-Written v v1 v2 o o1 o2 pos r1 r2 src fits a b = record {
    count = total;
    valid = b.valid;
    reads = b.reads ∙ a.reads;
    kept = (λ z h nz. b.kept z h (still z h nz) ∙ a.kept z h nz);
    there = (λ i h. elim (Bool-cases (ltb i r1)) [
      | inl early ↦ (λ e.
          let g : i < r1 = ground arith in
          let z = (pos + i) / block_size in
          a.there i g (sym (b.kept z (omega (arith, total)) (a.there i g)) ∙ e))
      | inr late ↦
          let at : pos + r1 + (i - r1) ≡ pos + i = ground arith in
          subst (λ p. held v2 o2 (p / block_size) ≢ 0) at (b.there (i - r1) (ground arith))
    ]);
    inside = (λ i h. elim (Bool-cases (ltb i r1)) [
      | inl early ↦
          let g : i < r1 = ground arith in
          b.outside (pos + i) (omega (arith, total)) (inl (omega arith)) (a.there i g)
          ∙ a.inside i g
      | inr late ↦
          let g : r1 ≤ i = ground arith in
          let at : pos + r1 + (i - r1) ≡ pos + i = omega arith in
          subst (λ p. byte_at v2 o2 p ≡ some (get_or (drop r1 src) (i - r1) 0)) at
            (b.inside (i - r1) (omega arith))
          ∙ ap some (get_or-drop r1 i src g)
    ]);
    outside = (λ p low where_at nz.
        b.outside p low (beyond p where_at) (still (p / block_size) (omega arith) nz)
        ∙ a.outside p low (earlier p where_at) nz);
    spared = (λ x u apart.
        let (same, u', apart') = a.spared x u apart in
        let (same', u'', apart'') = b.spared x u' apart' in (same' ∙ same, u'', apart''));
    size = (let g = a.size in let k = b.size in ground arith);
  }
    where
      total : r1 + r2 ≤ length src
      total = omega (arith, a.count, b.count, length-drop r1 src)

      still : (z : ℕ) → z < nr_held → held v o z ≢ 0 → held v1 o1 z ≢ 0
      still z h nz e = nz (sym (a.kept z h nz) ∙ e)

      beyond : (p : ℕ) → (p < pos) ⊎ (pos + (r1 + r2) ≤ p) → (p < pos + r1) ⊎ (pos + r1 + r2 ≤ p)
      beyond p (inl h) = inl (omega arith)
      beyond p (inr h) = inr (omega arith)

      earlier : (p : ℕ) → (p < pos) ⊎ (pos + (r1 + r2) ≤ p) → (p < pos) ⊎ (pos + r1 ≤ p)
      earlier p (inl h) = inl h
      earlier p (inr h) = inr (omega arith)

  -- A zone made, and then a write into it.
  pub made_then-Written :
      (v v1 v2 : Volume) (o o1 o2 : Slot) (pos r : ℕ) (src : List ℕ)
      → pos + length src ≤ top
      → Written sb v o pos src 0 v1 o1
      → Written sb v1 o1 pos src r v2 o2
      → Written sb v o pos src r v2 o2
  made_then-Written v v1 v2 o o1 o2 pos r src fits a b =
      let at : pos ≡ pos + 0 = omega arith in
      let sum : 0 + r ≡ r = omega arith in
      subst (λ n. Written sb v o pos src n v2 o2) sum
        (then-Written v v1 v2 o o1 o2 pos 0 r src fits a
          (subst (λ p. Written sb v1 o1 p src r v2 o2) at b))
