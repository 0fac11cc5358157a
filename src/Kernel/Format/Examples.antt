-- ===== src/Kernel/Format/Examples.antt =====
-- Concrete messages.
use linux.Base.{◌^◌, ◌-◌, ◌≡◌, ◌≢◌, ◌≤◌, refl, inr, [], ◌∷◌, length, arith}
use linux.Kernel.Format.Defs.{
  buffer_size, emit, write_num, num_to_str, digits, flags, decimal, precision, modifier, read_spec,
  word, text, written, undefined, out_of_fuel, write_signed, write_text, write_word, convert,
  conversion, format, vsprintf,
}
use linux.Kernel.Format.Numbers.{read_digits, num_to_str_lem}
use linux.Kernel.Format.Bounds.{written_length, vsprintf_lem}

num_to_str_lem_example :
    (read_digits 16 0 (num_to_str 48879 16) ≡ 48879)
    × (1 ≤ length (num_to_str 48879 16))
    × (length (num_to_str 48879 16) ≤ 11)
num_to_str_lem_example = num_to_str_lem 48879 16 (omega arith) (inr (inr refl))

-- beef
in_hex : num_to_str 48879 16 ≡ 98 ∷ 101 ∷ 101 ∷ 102 ∷ []
unfolding num_to_str digits
in_hex = refl

vsprintf_lem_example :
    (vsprintf (37 ∷ 100 ∷ []) (word 7 ∷ []) ≢ out_of_fuel)
    × (written_length (vsprintf (37 ∷ 100 ∷ []) (word 7 ∷ [])) ≤ buffer_size)
vsprintf_lem_example = vsprintf_lem (37 ∷ 100 ∷ []) (word 7 ∷ [])

-- %05d of -42: the sign, and five digits.
negative_padded :
    vsprintf (37 ∷ 48 ∷ 53 ∷ 100 ∷ []) (word (2 ^ 32 - 42) ∷ [])
    ≡ written (45 ∷ 48 ∷ 48 ∷ 48 ∷ 52 ∷ 50 ∷ [])
unfolding vsprintf format conversion read_spec flags decimal precision modifier convert write_word
    write_signed write_num num_to_str digits emit
negative_padded = refl

-- %-3s| of `a`
left_text :
    vsprintf (37 ∷ 45 ∷ 51 ∷ 115 ∷ 124 ∷ []) (text (97 ∷ []) ∷ [])
    ≡ written (97 ∷ 32 ∷ 32 ∷ 124 ∷ [])
unfolding vsprintf format conversion read_spec flags decimal precision modifier convert write_text
    emit
left_text = refl

-- %% is written as it stands.
percents : vsprintf (37 ∷ 37 ∷ []) [] ≡ written (37 ∷ 37 ∷ [])
unfolding vsprintf format conversion read_spec flags decimal precision modifier convert emit
percents = refl

-- A format that ends in a conversion without its character.
open_end : vsprintf (97 ∷ 37 ∷ []) [] ≡ undefined
unfolding vsprintf format conversion read_spec flags decimal precision modifier
open_end = refl
