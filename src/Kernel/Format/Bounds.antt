-- ===== src/Kernel/Format/Bounds.antt =====
-- vsprintf() ends, and stays inside its buffer.
use linux.Base.{
  ℕ, zero, suc, ◌+◌, ◌-◌, ◌*◌, ◌%◌, ◌^◌, ◌≢◌, ◌≤◌, subst, inl, inr, Bool, true, false, ◌&&◌, ◌||◌,
  Option, none, some, List, [], ◌∷◌, ◌++◌, ltb, leb, ◌==◌, if◌then◌else◌, length, take,
  length-append, Bool-cases, Option-cases, arith,
}
use linux.Kernel.Format.Defs.{
  buffer_size, emit, Spec, write_num, flags, decimal, precision, modifier, read_spec, adjusted, Arg,
  word, text, Printed, written, undefined, out_of_fuel, write_signed, write_text, write_word,
  convert, takes_word, Left, behind, conversion_at, conversion, plain_spec, format, vsprintf,
}

-- The text fits the buffer.
abbrev pub InBuffer : List ℕ → Type 0
InBuffer out = length out ≤ buffer_size

take-length : (n : ℕ) (cs : List ℕ) → length (take n cs) ≤ n
take-length zero cs = omega arith
take-length (suc n) [] = omega arith
take-length (suc n) (c ∷ cs) = let h = take-length n cs in omega arith

emit-InBuffer : (out cs : List ℕ) → InBuffer out → InBuffer (emit out cs)
unfolding emit
emit-InBuffer out cs h =
    let a = length-append out (take (buffer_size - length out) cs) in
    let b = take-length (buffer_size - length out) cs in omega arith

-- A choice of two texts that fit fits.
if-InBuffer : (b : Bool) (x y : List ℕ) → InBuffer x → InBuffer y → InBuffer (if b then x else y)
if-InBuffer true x y h g = h
if-InBuffer false x y h g = g

write_num-InBuffer :
    (out : List ℕ) (num base : ℕ) (s : Spec) → InBuffer out → InBuffer (write_num out num base s)
unfolding write_num
write_num-InBuffer out num base s h =
    if-InBuffer s.left _ _ (emit-InBuffer _ _ (emit-InBuffer out _ h))
      (emit-InBuffer _ _ (emit-InBuffer out _ h))

write_signed-InBuffer :
    (out : List ℕ) (num : ℕ) (s : Spec) → InBuffer out → InBuffer (write_signed out num s)
unfolding write_signed
write_signed-InBuffer out num s h =
    if-InBuffer (ltb num (2 ^ 31)) _ _ (write_num-InBuffer out num 10 s h) (
      write_num-InBuffer (emit out (45 ∷ [])) ((2 ^ 32 - num) % 2 ^ 32) 10 s
        (emit-InBuffer out (45 ∷ []) h))

write_text-InBuffer : (out p : List ℕ) (s : Spec) → InBuffer out → InBuffer (write_text out p s)
unfolding write_text
write_text-InBuffer out p s h =
    if-InBuffer s.left _ _ (emit-InBuffer _ _ (emit-InBuffer out _ h))
      (emit-InBuffer _ _ (emit-InBuffer out _ h))

write_word-InBuffer :
    (c : ℕ) (out : List ℕ) (num : ℕ) (s : Spec) → InBuffer out → InBuffer (write_word c out num s)
unfolding write_word
write_word-InBuffer c out num s h =
    if-InBuffer ((c == 100) || (c == 105)) _ _ (write_signed-InBuffer out num s h) (
      if-InBuffer (c == 117) _ _ (write_num-InBuffer out num 10 s h) (
        if-InBuffer ((c == 120) || (c == 88)) _ _ (write_num-InBuffer out num 16 s h) (
          if-InBuffer (c == 111) _ _ (write_num-InBuffer out num 8 s h) (
            if-InBuffer (c == 112) _ _
              (write_num-InBuffer (emit out (48 ∷ 120 ∷ [])) num 16 plain_spec
                (emit-InBuffer out (48 ∷ 120 ∷ []) h))
              (emit-InBuffer out (num % 256 ∷ []) h)))))

flags-length : (left zero_pad : Bool) (cs : List ℕ) → length (flags left zero_pad cs).2 ≤ length cs
unfolding flags
flags-length left zero_pad [] = omega arith
flags-length left zero_pad (c ∷ cs) =
    let a = flags-length true zero_pad cs in
    let b = flags-length left true cs in
    let d = flags-length left zero_pad cs in
    elim (Bool-cases (c == 45)) [
      | inl e ↦ rw e (omega arith)
      | inr e ↦ elim (Bool-cases (c == 48)) [
        | inl e' ↦ rw (e, e') (omega arith)
        | inr e' ↦ elim (Bool-cases ((c == 43) || (c == 35) || (c == 32))) [
          | inl e'' ↦ rw (e, e', e'') (omega arith)
          | inr e'' ↦ rw (e, e', e'') (omega arith)
        ]
      ]
    ]

decimal-length : (n : ℕ) (cs : List ℕ) → length (decimal n cs).1 ≤ length cs
unfolding decimal
decimal-length n [] = omega arith
decimal-length n (c ∷ cs) = elim (Bool-cases (leb 48 c && leb c 57)) [
  | inl e ↦ rw e (let h = decimal-length (n * 10 + (c - 48)) cs in omega arith)
  | inr e ↦ rw e (omega arith)
]

precision-length : (cs : List ℕ) → length (precision cs).1 ≤ length cs
unfolding precision
precision-length [] = omega arith
precision-length (c ∷ cs) = elim (Bool-cases (c == 46)) [
  | inl e ↦ rw e (let h = decimal-length 0 cs in omega arith)
  | inr e ↦ rw e (omega arith)
]

modifier-length : (cs : List ℕ) → length (modifier cs) ≤ length cs
unfolding modifier
modifier-length [] = omega arith
modifier-length (c ∷ cs) = elim (Bool-cases (c == 108)) [
  | inl e ↦ rw e (omega arith)
  | inr e ↦ rw e (omega arith)
]

read_spec-length : (cs : List ℕ) → length (read_spec cs).1 ≤ length cs
unfolding read_spec
read_spec-length cs =
    let fmt1 = (flags false false cs).2 in
    let fmt2 = (decimal 0 fmt1).1 in
    let fmt3 = (precision fmt2).1 in
    let a = flags-length false false cs in
    let b = decimal-length 0 fmt1 in
    let c = precision-length fmt2 in let d = modifier-length fmt3 in omega arith

-- What a conversion leaves fits.
abbrev Converted : Option (List ℕ × List Arg) → Type 0
Converted none = Unit {0}
Converted (some (out, args)) = InBuffer out

if-Converted :
    (b : Bool) (x y : Option (List ℕ × List Arg))
    → Converted x
    → Converted y
    → Converted (if b then x else y)
if-Converted true x y h g = h
if-Converted false x y h g = g

convert-InBuffer :
    (c : ℕ) (s : Spec) (out : List ℕ) (args : List Arg)
    → InBuffer out
    → Converted (convert c s out args)
unfolding convert
convert-InBuffer c s out (word num ∷ args) h =
    if-Converted (takes_word c) _ _ (write_word-InBuffer c out num s h)
      (if-Converted (c == 115) none _ tt (emit-InBuffer out (37 ∷ c ∷ []) h))
convert-InBuffer c s out (text p ∷ args) h = if-Converted (takes_word c) none _ tt (
    if-Converted (c == 115) _ _ (write_text-InBuffer out p s h) (emit-InBuffer out (37 ∷ c ∷ []) h))
convert-InBuffer c s out [] h =
    if-Converted (takes_word c || c == 115) none _ tt (emit-InBuffer out (37 ∷ c ∷ []) h)

-- What is left behind a conversion fits, and its format is no longer.
abbrev LeftFits : ℕ → Option Left → Type 0
LeftFits n none = Unit {0}
LeftFits n (some l) = (length l.fmt ≤ n) × InBuffer l.out

conversion-LeftFits :
    (fmt out : List ℕ) (args : List Arg)
    → InBuffer out
    → LeftFits (length fmt) (conversion fmt out args)
unfolding conversion
conversion-LeftFits fmt out args h = at (read_spec fmt).0 (read_spec fmt).1 (read_spec-length fmt)
  where
    after :
        (ds : List ℕ) (r : Option (List ℕ × List Arg))
        → Converted r
        → length ds ≤ length fmt
        → LeftFits (length fmt) (behind ds r)
    after ds none k g = tt
    after ds (some (out', args')) k g = (g, k)

    at :
        (s : Spec) (rest : List ℕ)
        → length rest ≤ length fmt
        → LeftFits (length fmt) (conversion_at s rest out args)
    at s [] g = tt
    at s (d ∷ ds) g =
        after ds (convert d (adjusted d s) out args) (convert-InBuffer d (adjusted d s) out args h)
          (omega arith)

-- How many characters have been written, where the behaviour is defined.
abbrev pub written_length : Printed → ℕ
written_length (written out) = length out
written_length undefined = 0
written_length out_of_fuel = 0

abbrev Sound : Printed → Type 0
Sound r = (r ≢ out_of_fuel) × (written_length r ≤ buffer_size)

format-lem :
    (fuel : ℕ) (fmt : List ℕ) (args : List Arg) (out : List ℕ)
    → length fmt ≤ fuel
    → InBuffer out
    → Sound (format fuel fmt args out)
unfolding format
format-lem fuel [] args out enough h = ((λ e. cc), h)
format-lem zero (c ∷ cs) args out enough h = absurd (omega arith)
format-lem (suc fuel) (c ∷ cs) args out enough h =
    elim (Bool-cases (leb buffer_size (length out))) [
      | inl full ↦ rw full ((λ e. cc), h)
      | inr room ↦ elim (Bool-cases (c == 37)) [
        | inr plain ↦
            let l = length-append out (c ∷ []) in
            let short : suc (length out) ≤ buffer_size = ground arith in
            rw (room, plain) (format-lem fuel cs args (out ++ c ∷ []) (omega arith) (omega arith))
        | inl percent ↦ elim (Option-cases (conversion cs out args)) [
          | inl bad ↦ rw (room, percent, bad) ((λ e. cc), omega arith)
          | inr (l, e) ↦
              let fits : LeftFits (length cs) (some l) =
                subst (λ r. LeftFits (length cs) r) e (conversion-LeftFits cs out args h) in
              rw (room, percent, e)
                (format-lem fuel l.fmt l.args l.out (omega (arith, fits.0)) fits.1)
        ]
      ]
    ]

-- vsprintf() ends for every format and arguments, and where it is defined it writes at most 1023
-- characters, so that the end of the string stays inside a buffer of 1024.
pub vsprintf_lem :
    (fmt : List ℕ) (args : List Arg)
    → (vsprintf fmt args ≢ out_of_fuel) × (written_length (vsprintf fmt args) ≤ buffer_size)
unfolding vsprintf
vsprintf_lem fmt args = format-lem (length fmt) fmt args [] (omega arith) (omega arith)
