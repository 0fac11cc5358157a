-- ===== src/Kernel/Format/Numbers.antt =====
-- The characters of a number stand for it, and there are few of them.
use native.Mathlib.Nat.{div-add-mod', mod-lt, div-lt_iff_lt-mul}
use Prim.Native.Nat.pow
use linux.Base.{
  ℕ, zero, suc, ◌+◌, ◌-◌, ◌*◌, ◌/◌, ◌%◌, ◌^◌, ◌≡◌, ◌<◌, ◌≤◌, ◌⊎◌, refl, sym, ap, subst, ◌∙◌, inl,
  inr, false, List, [], ◌∷◌, ltb, ◌==◌, if◌then◌else◌, length, Bool-cases, ==_iff, arith,
}
use linux.Kernel.Format.Defs.{digit_char, digits, num_to_str}

-- The digit that a character stands for, `0` to `9` and `a` to `f`.
abbrev pub digit_value : ℕ → ℕ
digit_value c = if ltb c 58 then c - 48 else c - 87

-- The number that characters stand for behind those that stand for `n`.
unfoldable pub read_digits : ℕ → ℕ → List ℕ → ℕ
read_digits base n [] = n
read_digits base n (c ∷ cs) = read_digits base (n * base + digit_value c) cs

digit_value-char : (d : ℕ) → d < 16 → digit_value (digit_char d) ≡ d
digit_value-char d h = ground arith

-- Each digit that is written divides what is left by the base.
div_shrinks : (n base k : ℕ) → 2 ≤ base → n < k * base → n / base < k
div_shrinks n base k b h = (div-lt_iff_lt-mul (omega arith)).1 h

module _ (base : ℕ) (small : base ≤ 16) (large : 2 ≤ base) where
  next_power : (n fuel : ℕ) → n < base ^ suc fuel → n / base < base ^ fuel
  next_power n fuel h =
      div_shrinks n base (base ^ fuel) large (subst (λ k. n < k) (pow.suc base fuel) h)

  none_left : (n : ℕ) → n < base ^ 0 → n ≡ 0
  none_left n h = let g : n < 1 = subst (λ k. n < k) (pow.zero base) h in omega arith

  -- The digit that is written last, behind what the others stand for, gives the number.
  last_digit : (n : ℕ) → n / base * base + digit_value (digit_char (n % base)) ≡ n
  last_digit n =
      let l : n % base < base = mod-lt n (omega arith) in
      rw (digit_value-char (n % base) (omega arith)) (div-add-mod' n base)

  read-digits :
      (fuel n : ℕ) (buf : List ℕ)
      → n < base ^ fuel
      → read_digits base 0 (digits fuel n base buf) ≡ read_digits base n buf
  unfolding digits read_digits
  read-digits zero n buf h = let z : n ≡ 0 = none_left n h in rw z refl
  read-digits (suc fuel) n buf h = elim (Bool-cases (n == 0)) [
    | inl e ↦ let z : n ≡ 0 = (==_iff n 0).0 e in rw z refl
    | inr e ↦
        let rest =
          read-digits fuel (n / base) (digit_char (n % base) ∷ buf) (next_power n fuel h) in
        rw e (rest ∙ ap (λ m. read_digits base m buf) (last_digit n))
  ]

  length-digits :
      (k fuel n : ℕ) (buf : List ℕ)
      → n < base ^ k
      → k ≤ fuel
      → length (digits fuel n base buf) ≤ k + length buf
  unfolding digits
  length-digits k zero n buf h f = omega arith
  length-digits zero (suc fuel) n buf h f = let z : n ≡ 0 = none_left n h in rw z (omega arith)
  length-digits (suc k) (suc fuel) n buf h f = elim (Bool-cases (n == 0)) [
    | inl e ↦ rw e (omega arith)
    | inr e ↦
        let rest =
          length-digits k fuel (n / base) (digit_char (n % base) ∷ buf) (next_power n k h)
            (omega arith) in
        rw e (omega arith)
  ]

digits_grow : (fuel n base : ℕ) (buf : List ℕ) → length buf ≤ length (digits fuel n base buf)
unfolding digits
digits_grow zero n base buf = omega arith
digits_grow (suc fuel) n base buf = elim (Bool-cases (n == 0)) [
  | inl e ↦ rw e (omega arith)
  | inr e ↦
      rw e (let h = digits_grow fuel (n / base) base (digit_char (n % base) ∷ buf) in omega arith)
]

some_digit : (fuel n base : ℕ) → n == 0 ≡ false → 1 ≤ length (digits (suc fuel) n base [])
unfolding digits
some_digit fuel n base e = rw e (digits_grow fuel (n / base) base (digit_char (n % base) ∷ []))

-- The bases of the conversions: 8, 10 and 16.
abbrev pub Base : ℕ → Type 0
Base base = (base ≡ 8) ⊎ (base ≡ 10) ⊎ (base ≡ 16)

Base-bounds : (base : ℕ) → Base base → (base ≤ 16) × (2 ≤ base)
Base-bounds base ok = (ground arith, ground arith)

in_power : (num base : ℕ) → num < 2 ^ 32 → Base base → (num < base ^ 11) × (num < base ^ 32)
in_power num base h (inl e) =
    subst (λ b. (num < b ^ 11) × (num < b ^ 32)) (sym e) (omega arith, omega arith)
in_power num base h (inr (inl e)) =
    subst (λ b. (num < b ^ 11) × (num < b ^ 32)) (sym e) (omega arith, omega arith)
in_power num base h (inr (inr e)) =
    subst (λ b. (num < b ^ 11) × (num < b ^ 32)) (sym e) (omega arith, omega arith)

-- The characters that num_to_str() writes for a word in one of the bases stand for the word, and
-- there are 1 to 11 of them, so buf[32] holds them.
pub num_to_str_lem :
    (num base : ℕ)
    → num < 2 ^ 32
    → Base base
    → (read_digits base 0 (num_to_str num base) ≡ num)
      × (1 ≤ length (num_to_str num base))
      × (length (num_to_str num base) ≤ 11)
unfolding num_to_str read_digits
num_to_str_lem num base word ok =
    let (small, large) = Base-bounds base ok in
    let (p, q) = in_power num base word ok in
    elim (Bool-cases (num == 0)) [
      | inl e ↦ let z : num ≡ 0 = (==_iff num 0).0 e in rw z (omega arith, omega arith, omega arith)
      | inr e ↦ rw e (
        read-digits base small large 32 num [] q,
        some_digit 31 num base e,
        (let h = length-digits base small large 11 32 num [] p (omega arith) in omega arith),
      )
    ]
