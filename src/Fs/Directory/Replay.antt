-- ===== src/Fs/Directory/Replay.antt =====
-- A directory as a function from names to inodes, under any sequence of successful calls.
use linux.Base.{
  ℕ, ◌≡◌, refl, sym, ap, ◌∙◌, inl, inr, Bool, true, false, Option, none, some, List, [], ◌∷◌, ◌==◌,
  if◌then◌else◌, ltb, leb, ◌&&◌, ◌≢◌, length, Bool-cases, Option-cases, arith,
}
use linux.Fs.Names.{name_size}
use linux.Fs.Names.Match.{ZeroFree, match_cong}
use linux.Fs.Directory.Defs.{
  Entry, Entries, find, prepend, keep, place, dir_add_entry, dir_remove_entry,
}
use linux.Fs.Directory.Live.{
  Tidy, added, find-Placed, Placed-Tidy, place-Placed, find_cong, none-some, prepend-none,
}
use linux.Fs.Directory.Removal.{
  stored, dir_remove_entry_refused, find-Removed, Removed-Tidy, remove-Removed,
}

-- A change to a directory, on a device that has room for another entry.
pub data Change : Type 0 where
  add : List ℕ → ℕ → Change
  remove : List ℕ → Change

-- The callers of dir_add_entry() look the name up first.
abbrev fresh : Option ℕ → Option Entries → Option Entries
fresh none after = after
fresh (some i) after = none

-- The directory after a change; a change that is refused leaves it as it is.
unfoldable pub change : Change → Entries → Entries
unfolding find dir_add_entry dir_remove_entry
change (add name ino) es = keep es (fresh (find es name) (dir_add_entry name ino true es))
change (remove name) es = keep es (dir_remove_entry name es)

unfoldable pub changes : List Change → Entries → Entries
unfolding change
changes [] es = es
changes (c ∷ cs) es = changes cs (change c es)

abbrev pub Lookup : Type 0
Lookup = List ℕ → Option ℕ

-- One name is given a value; names count by their first 14 bytes.
abbrev pub bind : List ℕ → Option ℕ → Lookup → Lookup
bind name v f m = if stored name m then v else f m

abbrev pub absent : Option ℕ → Bool
absent none = true
absent (some i) = false

-- The same changes, on a function.
unfoldable pub replay : List Change → Lookup → Lookup
replay [] f = f
replay (add name ino ∷ cs) f =
    replay cs (if leb (length name) name_size && absent (f name) then bind name (some ino) f else f)
replay (remove name ∷ cs) f = replay cs (bind name none f)

abbrev pub Proper : List Change → Type 0
Proper [] = Unit {0}
Proper (add name ino ∷ cs) = ZeroFree name × (ino == 0 ≡ false) × Proper cs
Proper (remove name ∷ cs) = ZeroFree name × Proper cs

-- The directory and the function give every name the same inode.
abbrev pub Agree : Entries → Lookup → Type 0
Agree es f = (m : List ℕ) → ZeroFree m → find es m ≡ f m

place_room : (new : Entry) (es : Entries) → place new true es ≢ none
unfolding place
place_room new [] h = none-some (sym h)
place_room new (none ∷ es) h = place_room new es (prepend-none none (place new true es) h)
place_room new (some de ∷ es) h = elim (Bool-cases (de.inode == 0)) [
  | inl dead ↦
      let eq : place new true (some de ∷ es) ≡ some (some new ∷ es) = rw dead refl in
      none-some (sym h ∙ eq)
  | inr live ↦
      let eq : place new true (some de ∷ es) ≡ prepend (some de) (place new true es) =
        rw live refl in
      place_room new es (prepend-none (some de) (place new true es) (sym eq ∙ h))
]

module _ (name : List ℕ) (es : Entries) (z : ZeroFree name) (tidy : Tidy es) where
  add_step :
      (ino : ℕ)
      → ino == 0 ≡ false
      → find es name ≡ none
      → leb (length name) name_size ≡ true
      → Tidy (change (add name ino) es)
        × Agree (change (add name ino) es) (bind name (some ino) (find es))
  unfolding change dir_add_entry
  add_step ino live gone short =
      let new = added name z ino live in
      let eq : dir_add_entry name ino true es ≡ place new true es =
        rw (fits_14 (length name) short) refl in
      elim (Option-cases (place new true es)) [
        | inl e ↦ absurd (place_room new es e)
        | inr (es', e) ↦
            let step = place-Placed new true es es' e in
            rw (gone, eq, e)
              (
                Placed-Tidy name z ino live step tidy gone,
                (λ m z'. find-Placed name z ino live m step tidy gone z'),
              )
      ]
    where
      fits_14 : (n : ℕ) → leb n name_size ≡ true → ltb name_size n ≡ false
      fits_14 n h = ground arith

  add_refused :
      (ino : ℕ)
      → leb (length name) name_size && absent (find es name) ≡ false
      → change (add name ino) es ≡ es
  unfolding change dir_add_entry
  add_refused ino h = elim (Option-cases (find es name)) [
    | inl gone ↦ rw (gone, too_long (length name) (find es name) gone h) refl
    | inr (i, e) ↦ rw e refl
  ]
    where
      too_long :
          (n : ℕ) (o : Option ℕ)
          → o ≡ none
          → leb n name_size && absent o ≡ false
          → ltb name_size n ≡ true
      too_long n none e h = ground arith
      too_long n (some i) e h = absurd (none-some (sym e))

  remove_step :
      Tidy (change (remove name) es) × Agree (change (remove name) es) (bind name none (find es))
  unfolding change
  remove_step = elim (Option-cases (dir_remove_entry name es)) [
    | inl e ↦
        let gone : find es name ≡ none = (dir_remove_entry_refused name z es tidy).0 e in
        rw e (tidy, (λ m z'. unfound_alike m z' gone))
    | inr (es', e) ↦
        let step = remove-Removed name es es' e in
        rw e (Removed-Tidy name z step tidy, (λ m z'. find-Removed name z m step z'))
  ]
    where
      unfound_alike :
          (m : List ℕ) → ZeroFree m → find es name ≡ none → find es m ≡ bind name none (find es) m
      unfound_alike m z' gone = elim (Bool-cases (stored name m)) [
        | inl e ↦ rw e (find_cong es m name (λ de. match_cong de.name name m z z' e) ∙ gone)
        | inr e ↦ rw e refl
      ]

pub bind-Agree :
    (name : List ℕ) (v : Option ℕ) (es es' : Entries) (f : Lookup)
    → Agree es f
    → Agree es' (bind name v (find es))
    → Agree es' (bind name v f)
bind-Agree name v es es' f agree after m z =
    after m z ∙ ap (λ o. if stored name m then v else o) (agree m z)

-- Any sequence of changes to a tidy directory, on a device with room, leaves it tidy, and what a
-- search then finds is what the changes give on the function that the search was: a name that is
-- added where it was not found, and fits, gets its inode, a name that is removed is not found, and
-- every other name keeps its inode. Names are without a zero byte, inodes not 0.
pub changes_refine :
    (cs : List Change) (es : Entries) (f : Lookup)
    → Proper cs
    → Tidy es
    → Agree es f
    → Tidy (changes cs es) × Agree (changes cs es) (replay cs f)
unfolding changes replay
changes_refine [] es f proper tidy agree = (tidy, agree)
changes_refine (remove name ∷ cs) es f (z, proper) tidy agree =
    let (tidy', after) = remove_step name es z tidy in
    changes_refine cs (change (remove name) es) (bind name none f) proper tidy'
      (bind-Agree name none es (change (remove name) es) f agree after)
changes_refine (add name ino ∷ cs) es f (z, live, proper) tidy agree =
    elim (Bool-cases (leb (length name) name_size && absent (f name))) [
      | inl e ↦
          let (short, gone) = both (length name) (f name) e in
          let (tidy', after) = add_step name es z tidy ino live (agree name z ∙ gone) short in
          rw e (
            changes_refine cs (change (add name ino) es) (bind name (some ino) f) proper tidy'
              (bind-Agree name (some ino) es (change (add name ino) es) f agree after))
      | inr e ↦
          let stays = add_refused name es z tidy ino (rw (agree name z) e) in
          rw (e, stays) (changes_refine cs es f proper tidy agree)
    ]
  where
    both :
        (n : ℕ) (o : Option ℕ)
        → leb n name_size && absent o ≡ true
        → (leb n name_size ≡ true) × (o ≡ none)
    both n none e = (ground arith, refl)
    both n (some i) e = absurd (ground arith)
