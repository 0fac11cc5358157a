-- ===== src/Kernel/Format/Message.antt =====
-- A message with a number in it.
use linux.Base.{
  ℕ, zero, suc, ◌+◌, ◌-◌, ◌^◌, ◌≡◌, ◌<◌, ◌≤◌, refl, sym, ap, ◌∙◌, inl, inr, false, some, List, [],
  ◌∷◌, ◌++◌, leb, ◌==◌, length, take, length-append, arith,
}
use linux.Kernel.Format.Defs.{
  buffer_size, emit, plain_spec, write_num, num_to_str, flags, decimal, precision, modifier,
  read_spec, Arg, word, written, write_word, convert, conversion, format, vsprintf,
}
use linux.Kernel.Format.Numbers.{num_to_str_lem}

-- No character is `%`.
abbrev pub Literal : List ℕ → Type 0
Literal [] = Unit {0}
Literal (c ∷ cs) = (c == 37 ≡ false) × Literal cs

append_nil : (xs : List ℕ) → xs ++ [] ≡ xs
append_nil [] = refl
append_nil (x ∷ xs) = ap (λ r. x ∷ r) (append_nil xs)

append_assoc : (xs ys zs : List ℕ) → (xs ++ ys) ++ zs ≡ xs ++ (ys ++ zs)
append_assoc [] ys zs = refl
append_assoc (x ∷ xs) ys zs = ap (λ r. x ∷ r) (append_assoc xs ys zs)

take_all : (n : ℕ) (xs : List ℕ) → length xs ≤ n → take n xs ≡ xs
take_all zero [] h = refl
take_all zero (x ∷ xs) h = absurd (omega arith)
take_all (suc n) [] h = refl
take_all (suc n) (x ∷ xs) h = ap (λ r. x ∷ r) (take_all n xs (omega arith))

emit_all : (out cs : List ℕ) → length out + length cs ≤ buffer_size → emit out cs ≡ out ++ cs
unfolding emit
emit_all out cs h = ap (λ r. out ++ r) (take_all (buffer_size - length out) cs (omega arith))

format-Literal :
    (pre rest : List ℕ) (fuel fuel' : ℕ) (args : List Arg) (out : List ℕ)
    → fuel' ≡ length pre + fuel
    → Literal pre
    → length out + length pre ≤ buffer_size
    → format fuel' (pre ++ rest) args out ≡ format fuel rest args (out ++ pre)
unfolding format
format-Literal [] rest fuel fuel' args out e plain h =
    let same : fuel' ≡ fuel = omega arith in
    ap (λ f. format f rest args out) same ∙ ap (λ o. format fuel rest args o) (sym (append_nil out))
format-Literal (c ∷ cs) rest fuel zero args out e (plain, literal) h = absurd (omega arith)
format-Literal (c ∷ cs) rest fuel (suc fuel') args out e (plain, literal) h =
    let room : leb buffer_size (length out) ≡ false = ground arith in
    let l = length-append out (c ∷ []) in
    let tail =
      format-Literal cs rest fuel fuel' args (out ++ c ∷ []) (omega arith) literal (omega arith) in
    rw (room, plain) (tail ∙ ap (λ o. format fuel rest args o) (append_assoc out (c ∷ []) cs))

-- `%u` writes the digits.
convert-unsigned :
    (out : List ℕ) (num : ℕ) (args : List Arg)
    → length out + length (num_to_str num 10) ≤ buffer_size
    → convert 117 plain_spec out (word num ∷ args) ≡ some (out ++ num_to_str num 10, args)
unfolding convert write_word write_num
convert-unsigned out num args h =
    let digits_out = emit_all out (num_to_str num 10) h in
    let nothing : emit out [] ≡ out = emit_all out [] (omega arith) ∙ append_nil out in
    let no_pad : 0 - length (num_to_str num 10) ≡ 0 = omega arith in
    rw (no_pad, nothing, digits_out) refl

unsigned_step :
    (post : List ℕ) (num fuel : ℕ) (out : List ℕ)
    → length out < buffer_size
    → length out + length (num_to_str num 10) ≤ buffer_size
    → format (suc fuel) (37 ∷ 117 ∷ post) (word num ∷ []) out
      ≡ format fuel post [] (out ++ num_to_str num 10)
unfolding format conversion read_spec flags decimal precision modifier
unsigned_step post num fuel out h g =
    let room : leb buffer_size (length out) ≡ false = ground arith in
    rw (room, convert-unsigned out num [] g) refl

Literal-end :
    (post : List ℕ) (fuel : ℕ) (args : List Arg) (out : List ℕ)
    → Literal post
    → length post ≤ fuel
    → length out + length post ≤ buffer_size
    → format fuel post args out ≡ written (out ++ post)
unfolding format
Literal-end post fuel args out plain enough h =
    let all = format-Literal post [] (fuel - length post) fuel args out (omega arith) plain h in
    ap (λ p. format fuel p args out) (sym (append_nil post)) ∙ all

-- A message with one `%u` between two texts without `%` is written as the texts and the digits of
-- the argument, as long as it fits the buffer with room for 11 digits.
pub vsprintf_number :
    (pre post : List ℕ) (num : ℕ)
    → Literal pre
    → Literal post
    → num < 2 ^ 32
    → length pre + 11 + length post < buffer_size
    → vsprintf (pre ++ 37 ∷ 117 ∷ post) (word num ∷ []) ≡ written (pre ++ num_to_str num 10 ++ post)
unfolding vsprintf
vsprintf_number pre post num plain plain' small h =
    let digits_out = num_to_str num 10 in
    let (value, some_digit, few) = num_to_str_lem num 10 small (inr (inl refl)) in
    let l = length-append pre (37 ∷ 117 ∷ post) in
    let l' = length-append pre digits_out in
    let fuel : ℕ = suc (length post) in
    let start =
      format-Literal pre (37 ∷ 117 ∷ post) (suc fuel) (length (pre ++ 37 ∷ 117 ∷ post))
        (word num ∷ []) [] (omega arith) plain (omega arith) in
    let middle : format (suc fuel) (37 ∷ 117 ∷ post) (word num ∷ []) pre
        ≡ format fuel post [] (pre ++ digits_out) =
      unsigned_step post num fuel pre (omega arith) (omega arith) in
    let end : format fuel post [] (pre ++ digits_out) ≡ written ((pre ++ digits_out) ++ post) =
      Literal-end post fuel [] (pre ++ digits_out) plain' (omega arith) (omega arith) in
    start ∙ middle ∙ end
