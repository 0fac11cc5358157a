-- ===== src/Kernel/Format/Defs.antt =====
-- Strings are lists of characters without the end, a word is below 2 ^ 32. The buffer holds 1023
-- characters and the end.
use linux.Base.{
  ℕ, zero, suc, ◌+◌, ◌-◌, ◌*◌, ◌/◌, ◌%◌, ◌^◌, Bool, true, false, ◌&&◌, ◌||◌, Option, none, some,
  List, [], ◌∷◌, ◌++◌, ltb, leb, ◌==◌, if◌then◌else◌, length, take, replicate,
}

-- digits[]
abbrev pub digit_char : ℕ → ℕ
digit_char d = if ltb d 10 then 48 + d else 87 + d

-- The loop while (num) of num_to_str(): the digits come last first, and are copied to str backwards,
-- so each goes before those that are there.
unfoldable pub digits : ℕ → ℕ → ℕ → List ℕ → List ℕ
digits zero num base buf = buf
digits (suc fuel) num base buf =
    let rest = digits fuel (num / base) base (digit_char (num % base) ∷ buf) in
    if num == 0 then buf else rest

-- buf[] holds 32 digits.
unfoldable pub num_to_str : ℕ → ℕ → List ℕ
num_to_str num base = if num == 0 then 48 ∷ [] else digits 32 num base []

abbrev pub buffer_size : ℕ
buffer_size = 1023

-- *str++ = c while str < end
unfoldable pub emit : List ℕ → List ℕ → List ℕ
emit out cs = out ++ take (buffer_size - length out) cs

-- The flags, width and precision of a conversion.
pub record Spec : Type 0 where
  pub left : Bool
  pub zero_pad : Bool
  pub width : ℕ
  pub prec : Option ℕ

abbrev pub plain_spec : Spec
plain_spec = record { left = false; zero_pad = false; width = 0; prec = none }

unfoldable pub write_num : List ℕ → ℕ → ℕ → Spec → List ℕ
unfolding num_to_str emit
write_num out num base s =
    let tmp = num_to_str num base in
    let pad = s.width - length tmp in
    if s.left
    then emit (emit out tmp) (replicate pad 32)
    else emit (emit out (replicate pad (if s.zero_pad then 48 else 32))) tmp

-- The flags: `-` is 45, `0` is 48, `+`, `#` and the space are skipped.
unfoldable pub flags : Bool → Bool → List ℕ → Bool × Bool × List ℕ
flags left zero_pad [] = (left, zero_pad, [])
flags left zero_pad (c ∷ cs) =
    if c == 45
    then flags true zero_pad cs
    else if c == 48
    then flags left true cs
    else if (c == 43) || (c == 35) || (c == 32)
    then flags left zero_pad cs
    else (left, zero_pad, c ∷ cs)

unfoldable pub decimal : ℕ → List ℕ → ℕ × List ℕ
decimal n [] = (n, [])
decimal n (c ∷ cs) = if leb 48 c && leb c 57 then decimal (n * 10 + (c - 48)) cs else (n, c ∷ cs)

-- A precision behind `.`, which is 46.
unfoldable pub precision : List ℕ → Option ℕ × List ℕ
unfolding decimal
precision [] = (none, [])
precision (c ∷ cs) =
    let (n, rest) = decimal 0 cs in if c == 46 then (some n, rest) else (none, c ∷ cs)

-- The modifier `l` is skipped.
unfoldable pub modifier : List ℕ → List ℕ
modifier [] = []
modifier (c ∷ cs) = if c == 108 then cs else c ∷ cs

-- What stands behind `%` up to the conversion character.
unfoldable pub read_spec : List ℕ → Spec × List ℕ
unfolding flags decimal precision modifier
read_spec fmt =
    let (left, zero_pad, fmt1) = flags false false fmt in
    let (width, fmt2) = decimal 0 fmt1 in
    let (prec, fmt3) = precision fmt2 in
    (record { left = left; zero_pad = zero_pad; width = width; prec = prec }, modifier fmt3)

-- A precision on a number is a field width with zeros; `s` is 115, `c` is 99.
abbrev pub number_spec : Option ℕ → Spec → Spec
number_spec none s = s
number_spec (some prec) s =
    if ltb 0 prec
    then record s { zero_pad = true; width = (if ltb s.width prec then prec else s.width) }
    else s

abbrev pub adjusted : ℕ → Spec → Spec
adjusted c s = if (c == 115) || (c == 99) then s else number_spec s.prec s

-- An argument: a word, or a string.
pub data Arg : Type 0 where
  word : ℕ → Arg
  text : List ℕ → Arg

-- A call ends with what it has written, or has no defined behaviour: an argument is missing or of
-- the other kind, or the format ends in a conversion, and then what stands behind its end is read.
-- `out_of_fuel` does not stand for anything in the code.
pub data Printed : Type 0 where
  written : List ℕ → Printed
  undefined out_of_fuel : Printed

-- A negative number is written as its sign and its absolute value.
unfoldable pub write_signed : List ℕ → ℕ → Spec → List ℕ
unfolding write_num emit
write_signed out num s =
    if ltb num (2 ^ 31)
    then write_num out num 10 s
    else write_num (emit out (45 ∷ [])) ((2 ^ 32 - num) % 2 ^ 32) 10 s

abbrev pub cut : Option ℕ → List ℕ → List ℕ
cut none p = p
cut (some n) p = take n p

unfoldable pub write_text : List ℕ → List ℕ → Spec → List ℕ
unfolding emit
write_text out p s =
    let shown = cut s.prec p in
    let pad = replicate (s.width - length shown) 32 in
    if s.left then emit (emit out shown) pad else emit (emit out pad) shown

-- The number conversions: `x` is 120, `X` 88, `o` 111, `p` 112, `d` 100, `i` 105, `u` 117.
unfoldable pub write_word : ℕ → List ℕ → ℕ → Spec → List ℕ
unfolding write_signed write_num emit
write_word c out num s =
    if (c == 100) || (c == 105)
    then write_signed out num s
    else if c == 117
    then write_num out num 10 s
    else if (c == 120) || (c == 88)
    then write_num out num 16 s
    else if c == 111
    then write_num out num 8 s
    else if c == 112
    then write_num (emit out (48 ∷ 120 ∷ [])) num 16 (plain_spec)
    else emit out (num % 256 ∷ [])

abbrev pub takes_word : ℕ → Bool
takes_word c =
    (c == 100)
    || (c == 105)
    || (c == 117)
    || (c == 120)
    || (c == 88)
    || (c == 111)
    || (c == 112)
    || (c == 99)

-- One conversion: what has been written, and the arguments left.
unfoldable pub convert : ℕ → Spec → List ℕ → List Arg → Option (List ℕ × List Arg)
convert c s out (word num ∷ args) =
    if takes_word c
    then some (write_word c out num s, args)
    else if c == 115
    then none
    else some (emit out (37 ∷ c ∷ []), word num ∷ args)
convert c s out (text p ∷ args) =
    if takes_word c
    then none
    else if c == 115
    then some (write_text out p s, args)
    else some (emit out (37 ∷ c ∷ []), text p ∷ args)
convert c s out [] = if takes_word c || c == 115 then none else some (emit out (37 ∷ c ∷ []), [])

-- What a conversion leaves: the format behind it, the text, the arguments.
pub record Left : Type 0 where
  pub fmt : List ℕ
  pub out : List ℕ
  pub args : List Arg

abbrev pub behind : List ℕ → Option (List ℕ × List Arg) → Option Left
behind fmt none = none
behind fmt (some (out, args)) = some (record { fmt = fmt; out = out; args = args })

abbrev pub conversion_at : Spec → List ℕ → List ℕ → List Arg → Option Left
conversion_at s [] out args = none
conversion_at s (c ∷ cs) out args = behind cs (convert c (adjusted c s) out args)

-- What follows `%`.
unfoldable pub conversion : List ℕ → List ℕ → List Arg → Option Left
conversion fmt out args = let (s, rest) = read_spec fmt in conversion_at s rest out args

-- The loop of vsprintf(); `%` is 37.
unfoldable pub format : ℕ → List ℕ → List Arg → List ℕ → Printed
format fuel [] args out = written out
format zero (c ∷ cs) args out = out_of_fuel
format (suc fuel) (c ∷ cs) args out =
    let plain = format fuel cs args (out ++ c ∷ []) in
    let converted : Printed = elim (conversion cs out args) [
      | none ↦ undefined
      | some l ↦ format fuel l.fmt l.args l.out
    ] in
    if leb buffer_size (length out) then written out else if c == 37 then converted else plain

unfoldable pub vsprintf : List ℕ → List Arg → Printed
vsprintf fmt args = format (length fmt) fmt args []
