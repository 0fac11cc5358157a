-- ===== src/Fs/Bitmap/Scan.antt =====
-- The scan of a map finds its first clear bit.
use linux.Base.{
  ℕ, zero, suc, ◌+◌, ◌*◌, ◌/◌, ◌≡◌, ◌≢◌, ◌≤◌, ◌<◌, subst, inl, inr, true, false, Option, none, some,
  ltb, Bool-cases, arith,
}
use native.Mathlib.Decide.{ℕ_discrete}
use linux.Fs.Bitmap.Defs.{Maps, Bits, block_bits, first_clear, or_else, scan_map}

-- The first clear bit from `k`, below `top`.
pub record IsFirst (bits : Bits) (k top : ℕ) (r : ℕ) : Type 0 where
  pub low : k ≤ r
  pub high : r < top
  pub is_clear : bits r ≡ false
  pub all_before : (l : ℕ) → k ≤ l → l < r → bits l ≡ true

abbrev pub AllSet : Bits → ℕ → ℕ → Type 0
AllSet bits k top = (l : ℕ) → k ≤ l → l < top → bits l ≡ true

abbrev pub Found : Bits → ℕ → ℕ → Option ℕ → Type 0
Found bits k top none = AllSet bits k top
Found bits k top (some r) = IsFirst bits k top r

pub first_clear-Found : (n k : ℕ) (bits : Bits) → Found bits k (k + n) (first_clear n k bits)
unfolding first_clear
first_clear-Found zero k bits = (λ l a b. absurd (omega arith))
first_clear-Found (suc n) k bits = elim (Bool-cases (bits k)) [
  | inl used ↦
      rw used (shifted_by_one (first_clear n (suc k) bits) used (first_clear-Found n (suc k) bits))
  | inr free ↦ rw free (record {
    low = omega arith;
    high = omega arith;
    is_clear = free;
    all_before = (λ l a b. absurd (omega arith));
  })
]
  where
    shifted_by_one :
        (r : Option ℕ)
        → bits k ≡ true
        → Found bits (suc k) (suc k + n) r
        → Found bits k (k + suc n) r
    shifted_by_one none used h = (λ l a b. elim (ℕ_discrete k l) [
      | yes e ↦ subst (λ i. bits i ≡ true) e used
      | no d ↦ h l (omega arith) (omega arith)
    ])
    shifted_by_one (some r) used h = record {
      low = (let g = h.low in omega arith);
      high = (let g = h.high in omega arith);
      is_clear = h.is_clear;
      all_before = (λ l a b. elim (ℕ_discrete k l) [
        | yes e ↦ subst (λ i. bits i ≡ true) e used
        | no d ↦ h.all_before l (omega arith) b
      ]);
    }

-- The disk block of a map that holds bit `k` can be read.
abbrev pub InReadable : Maps → ℕ → ℕ → Type 0
InReadable m base k = m.readable (base + k / block_bits) ≡ true

-- The first clear bit in the readable blocks of a map from bit `k`, below `top`.
pub record IsFree (m : Maps) (base : ℕ) (bits : Bits) (k top : ℕ) (r : ℕ) : Type 0 where
  pub low : k ≤ r
  pub high : r < top
  pub readable : InReadable m base r
  pub is_clear : bits r ≡ false
  pub all_before : (l : ℕ) → k ≤ l → l < r → InReadable m base l → bits l ≡ true

abbrev pub FreeOrFull : Maps → ℕ → Bits → ℕ → ℕ → Option ℕ → Type 0
FreeOrFull m base bits k top none = (l : ℕ) → k ≤ l → l < top → InReadable m base l → bits l ≡ true
FreeOrFull m base bits k top (some r) = IsFree m base bits k top r

in_block : (i l : ℕ) → i * block_bits ≤ l → l < i * block_bits + block_bits → l / block_bits ≡ i
in_block i l a b = omega arith

module _ (base : ℕ) (m : Maps) (bits : Bits) where
  -- What the scan of the later blocks says, behind a block that says nothing.
  past :
      (n i : ℕ) (r : Option ℕ)
      → ((l : ℕ)
          → i * block_bits ≤ l
          → l < i * block_bits + block_bits
          → InReadable m base l
          → bits l ≡ true)
      → FreeOrFull m base bits (suc i * block_bits) ((suc i + n) * block_bits) r
      → FreeOrFull m base bits (i * block_bits) ((i + suc n) * block_bits) r
  past n i none full h = (λ l a b readable.
      elim (Bool-cases (ltb l (i * block_bits + block_bits))) [
        | inl e ↦ full l a (ground arith) readable
        | inr e ↦ h l (ground arith) (omega arith) readable
      ])
  past n i (some r) full h = record {
    low = (let g = h.low in omega arith);
    high = (let g = h.high in omega arith);
    readable = h.readable;
    is_clear = h.is_clear;
    all_before = (λ l a b readable. elim (Bool-cases (ltb l (i * block_bits + block_bits))) [
      | inl e ↦ full l a (ground arith) readable
      | inr e ↦ h.all_before l (ground arith) b readable
    ]);
  }

  here :
      (n i : ℕ) (o rest : Option ℕ)
      → m.readable (base + i) ≡ true
      → Found bits (i * block_bits) (i * block_bits + block_bits) o
      → FreeOrFull m base bits (suc i * block_bits) ((suc i + n) * block_bits) rest
      → FreeOrFull m base bits (i * block_bits) ((i + suc n) * block_bits) (or_else o rest)
  here n i none rest e full h = past n i rest (λ l a b readable. full l a b) h
  here n i (some r) rest e first h = record {
    low = first.low;
    high = (let g = first.high in omega arith);
    readable = (let q = in_block i r first.low first.high in rw q e);
    is_clear = first.is_clear;
    all_before = (λ l a b readable. first.all_before l a b);
  }

  pub scan_map-FreeOrFull :
      (n i : ℕ)
      → FreeOrFull m base bits (i * block_bits) ((i + n) * block_bits) (scan_map n i base m bits)
  unfolding scan_map
  scan_map-FreeOrFull zero i = (λ l a b readable. absurd (omega arith))
  scan_map-FreeOrFull (suc n) i = elim (Bool-cases (m.readable (base + i))) [
    | inl e ↦ rw e (
        here n i (first_clear block_bits (i * block_bits) bits) (scan_map n (suc i) base m bits) e
          (first_clear-Found block_bits (i * block_bits) bits) (scan_map-FreeOrFull n (suc i)))
    | inr e ↦ rw e (
        past n i (scan_map n (suc i) base m bits)
          (λ l a b readable. absurd (unread i l a b e readable)) (scan_map-FreeOrFull n (suc i)))
  ]
    where
      unread :
          (i l : ℕ)
          → i * block_bits ≤ l
          → l < i * block_bits + block_bits
          → m.readable (base + i) ≡ false
          → m.readable (base + l / block_bits) ≢ true
      unread i l a b e h =
          let q = in_block i l a b in
          let g : m.readable (base + i) ≡ true = subst (λ j. m.readable (base + j) ≡ true) q h in cc
