-- ===== src/Base/Words.antt =====
-- A machine word as the set of its bits: bit `k` of `w` is `w k`. Only bits below the word's width
-- are read. `1 << k`, `|`, `&` and `~` act bit by bit.
use Prim.Native.Nat.{ℕ, zero, suc, ◌<◌}
use mathlib.Core.Path.{◌≡◌, refl}
use mathlib.Core.Bool.{Bool, true, false, not, ◌&&◌, ◌||◌}
use native.Mathlib.Omega.{arith}
use linux.Base.Tests.{◌==◌}

abbrev pub Word : Type 0
Word = ℕ → Bool

abbrev pub no_bits : Word
no_bits k = false

-- 1 << k
abbrev pub bit : ℕ → Word
bit k j = k == j

infixl 64 ◌|||◌
infixl 66 ◌&&&◌
abbrev pub ◌|||◌ : Word → Word → Word
◌|||◌ a b j = a j || b j

abbrev pub ◌&&&◌ : Word → Word → Word
◌&&&◌ a b j = a j && b j

abbrev pub complement : Word → Word
complement a j = not (a j)

-- Is one of the lowest `n` bits set? `word != 0` is `any_bit 32 word`.
unfoldable pub any_bit : ℕ → Word → Bool
any_bit zero w = false
any_bit (suc n) w = w n || any_bit n w

pub any_bit_intro : (n k : ℕ) (w : Word) → k < n → w k ≡ true → any_bit n w ≡ true
unfolding any_bit
any_bit_intro zero k w h e = absurd (omega arith)
any_bit_intro (suc n) k w h e = ground (arith, any_bit_intro n k w)

pub any_bit_none : (n k : ℕ) (w : Word) → k < n → any_bit n w ≡ false → w k ≡ false
unfolding any_bit
any_bit_none zero k w h e = absurd (omega arith)
any_bit_none (suc n) k w h e = ground (arith, any_bit_none n k w)

pub any_bit_clear : (n : ℕ) (w : Word) → ((k : ℕ) → w k ≡ false) → any_bit n w ≡ false
unfolding any_bit
any_bit_clear zero w h = refl
any_bit_clear (suc n) w h = rw (h n, any_bit_clear n w h) refl
