-- ===== src/Fs/Names/Split.antt =====
-- What split_path() makes of a path.
use linux.Base.{ℕ, ◌≡◌, refl, false, none, some, List, [], ◌∷◌, ◌++◌, ◌==◌, if◌then◌else◌}
use linux.Fs.Names.Defs.{slash, last_slash, fits, split_path}

-- No character of the name is a slash.
abbrev pub SlashFree : List ℕ → Type 0
SlashFree [] = Unit {0}
SlashFree (c ∷ cs) = (c == slash ≡ false) × SlashFree cs

last_slash_plain : (name : List ℕ) → SlashFree name → last_slash name ≡ none
unfolding last_slash
last_slash_plain [] free = refl
last_slash_plain (c ∷ cs) (plain, free) = rw (last_slash_plain cs free, plain) refl

last_slash-append :
    (dir name : List ℕ) → SlashFree name → last_slash (dir ++ slash ∷ name) ≡ some (dir, name)
unfolding last_slash
last_slash-append [] name free = rw (last_slash_plain name free) refl
last_slash-append (c ∷ cs) name free = rw (last_slash-append cs name free) refl

-- A bare name that fits splits into no directory and itself; `/` and a name into `/` and the name;
-- any other directory path, a slash and a name into the two, whatever the directory path is. A name
-- fits if it has 1 to 14 characters, none of them a slash; where it does not, the split fails.
pub split_path-append :
    (dir name : List ℕ)
    → SlashFree name
    → (split_path name ≡ (if fits name then some ([], name) else none))
      × (split_path (slash ∷ name) ≡ (if fits name then some (slash ∷ [], name) else none))
      × ((c : ℕ)
          → split_path (c ∷ dir ++ slash ∷ name)
            ≡ (if fits name then some (c ∷ dir, name) else none))
unfolding split_path
split_path-append dir name free = (
  bare name free,
  (let e : last_slash (slash ∷ name) ≡ some ([], name) = last_slash-append [] name free in
      rw e refl),
  (λ c.
      let e : last_slash (c ∷ dir ++ slash ∷ name) ≡ some (c ∷ dir, name) =
        last_slash-append (c ∷ dir) name free in
      rw e refl),
)
  where
    bare :
        (name : List ℕ)
        → SlashFree name
        → split_path name ≡ (if fits name then some ([], name) else none)
    bare [] free = refl
    bare (c ∷ cs) free = rw (last_slash_plain (c ∷ cs) free) refl
