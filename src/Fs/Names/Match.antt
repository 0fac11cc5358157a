-- ===== src/Fs/Names/Match.antt =====
-- When a directory entry matches a name.
use linux.Base.{
  ℕ, zero, suc, ◌≡◌, ◌≢◌, refl, sym, ◌∙◌, inl, inr, Bool, true, false, List, [], ◌∷◌, ◌==◌,
  if◌then◌else◌, get_or, take, drop, Bool-cases, ==_iff,
}
use linux.Fs.Names.Defs.{name_eq, padded, name_size}

-- No byte of the name is the one that ends a string.
abbrev pub ZeroFree : List ℕ → Type 0
ZeroFree [] = Unit {0}
ZeroFree (c ∷ cs) = (c ≢ 0) × ZeroFree cs

-- Only the first bytes of a name count.
name_eq-take :
    (room : ℕ) (de_name name name' : List ℕ)
    → take room name ≡ take room name'
    → name_eq room de_name name ≡ name_eq room de_name name'
unfolding name_eq
name_eq-take zero de_name name name' e = refl
name_eq-take (suc room) de_name [] [] e = refl
name_eq-take (suc room) de_name [] (c ∷ cs) e = absurd (cc)
name_eq-take (suc room) de_name (c ∷ cs) [] e = absurd (cc)
name_eq-take (suc room) de_name (c ∷ cs) (d ∷ ds) e =
    let h : c ≡ d = cc in
    let t : take room cs ≡ take room ds = cc in
    rw (h, name_eq-take room (drop 1 de_name) cs ds t) refl

tested : (d c : ℕ) (r : Bool) → (if d == c then r else false) ≡ true → (d ≡ c) × (r ≡ true)
tested d c r e = elim (Bool-cases (d == c)) [
  | inl b ↦ ((==_iff d c).0 b, sym (rw b refl) ∙ e)
  | inr b ↦ absurd (cc)
]

head_zero :
    (de_name : List ℕ) (c : ℕ) (r : Bool)
    → c ≢ 0
    → (if get_or de_name 0 0 == c then r else false) ≡ true
    → (get_or de_name 0 0 == 0) ≢ true
head_zero de_name c r z e e' =
    z (sym (tested (get_or de_name 0 0) c r e).0 ∙ (==_iff (get_or de_name 0 0) 0).0 e')

-- Names that the same entry matches agree in the bytes that count.
pub both_match :
    (room : ℕ) (de_name name name' : List ℕ)
    → ZeroFree name
    → ZeroFree name'
    → name_eq room de_name name ≡ true
    → name_eq room de_name name' ≡ true
    → take room name' ≡ take room name
unfolding name_eq
both_match zero de_name name name' z z' e e' = refl
both_match (suc room) de_name [] [] z z' e e' = refl
both_match (suc room) de_name (d ∷ ds) [] z z' e e' =
    absurd (head_zero de_name d (name_eq room (drop 1 de_name) ds) z.0 e e')
both_match (suc room) de_name [] (c ∷ cs) z z' e e' =
    absurd (head_zero de_name c (name_eq room (drop 1 de_name) cs) z'.0 e' e)
both_match (suc room) de_name (d ∷ ds) (c ∷ cs) z z' e e' =
    let (hd, td) = tested (get_or de_name 0 0) d (name_eq room (drop 1 de_name) ds) e in
    let (hc, tc) = tested (get_or de_name 0 0) c (name_eq room (drop 1 de_name) cs) e' in
    let t = both_match room (drop 1 de_name) ds cs z.1 z'.1 td tc in cc

padded_self : (room : ℕ) (name : List ℕ) → name_eq room (padded room name) name ≡ true
unfolding name_eq padded
padded_self zero name = refl
padded_self (suc room) [] = refl
padded_self (suc room) (c ∷ cs) =
    let b : c == c ≡ true = (==_iff c c).1 refl in rw b (padded_self room cs)

taken_self : (room : ℕ) (name : List ℕ) → name_eq room (take room name) name ≡ true
unfolding name_eq
taken_self zero name = refl
taken_self (suc room) [] = refl
taken_self (suc room) (c ∷ cs) =
    let b : c == c ≡ true = (==_iff c c).1 refl in rw b (taken_self room cs)

-- A name that matches what was stored for `name` matches the same entries as `name`.
pub match_cong :
    (de_name name name' : List ℕ)
    → ZeroFree name
    → ZeroFree name'
    → name_eq name_size (padded name_size name) name' ≡ true
    → name_eq name_size de_name name' ≡ name_eq name_size de_name name
match_cong de_name name name' z z' e =
    name_eq-take name_size de_name name' name
      (both_match name_size (padded name_size name) name name' z z' (padded_self name_size name) e)

-- The same for what the directory cache stores, the first 14 bytes.
pub match_cached :
    (de_name name name' : List ℕ)
    → ZeroFree name
    → ZeroFree name'
    → name_eq name_size (take name_size name) name' ≡ true
    → name_eq name_size de_name name' ≡ name_eq name_size de_name name
match_cached de_name name name' z z' e =
    name_eq-take name_size de_name name' name
      (both_match name_size (take name_size name) name name' z z' (taken_self name_size name) e)

-- What was stored for a name matches it.
pub match_self : (name : List ℕ) → name_eq name_size (padded name_size name) name ≡ true
match_self name = padded_self name_size name

-- What the directory cache stores for a name matches it.
pub cached_self : (name : List ℕ) → name_eq name_size (take name_size name) name ≡ true
cached_self name = taken_self name_size name

-- Of two names that the same entry matches, one matches what is stored for the other.
pub match_both :
    (de_name name name' : List ℕ)
    → ZeroFree name
    → ZeroFree name'
    → name_eq name_size de_name name ≡ true
    → name_eq name_size de_name name' ≡ true
    → name_eq name_size (padded name_size name) name' ≡ true
match_both de_name name name' z z' e e' =
    name_eq-take name_size (padded name_size name) name' name
      (both_match name_size de_name name name' z z' e e')
    ∙ match_self name
