-- ===== src/Fs/Directory/Live.antt =====
-- What a search of a directory finds after an entry is added.
use linux.Base.{
  ℕ, ◌≡◌, ◌≢◌, refl, sym, subst, ◌∙◌, inl, inr, Bool, true, false, Option, none, some, List, [],
  ◌∷◌, ◌==◌, if◌then◌else◌, Bool-cases,
}
use linux.Fs.Names.{name_size, padded}
use linux.Fs.Names.Match.{ZeroFree, match_cong}
use linux.Fs.Directory.Defs.{Entry, Entries, has_name, find, prepend, place}

-- No entry stands behind one of the same name in which a search would find it.
abbrev pub Tidy : Entries → Type 0
Tidy [] = Unit {0}
Tidy (none ∷ es) = Tidy es
Tidy (some de ∷ es) =
    ((name : List ℕ) → ZeroFree name → has_name de name ≡ true → find es name ≡ none) × Tidy es

pub find_miss :
    (de : Entry) (es : Entries) (name : List ℕ)
    → has_name de name ≡ false
    → find (some de ∷ es) name ≡ find es name
unfolding find
find_miss de es name e = rw e refl

pub find_hit :
    (de : Entry) (es : Entries) (name : List ℕ)
    → has_name de name ≡ true
    → de.inode == 0 ≡ false
    → find (some de ∷ es) name ≡ some de.inode
unfolding find
find_hit de es name e live = rw (e, live) refl

pub find_dead :
    (de : Entry) (es : Entries) (name : List ℕ)
    → has_name de name ≡ true
    → de.inode == 0 ≡ true
    → find (some de ∷ es) name ≡ none
unfolding find
find_dead de es name e dead = rw (e, dead) refl

-- A live entry in a directory in which the name is not found has another name.
pub unfound :
    (de : Entry) (es : Entries) (name : List ℕ)
    → de.inode == 0 ≡ false
    → find (some de ∷ es) name ≡ none
    → (has_name de name ≡ false) × (find es name ≡ none)
unfound de es name live h = elim (Bool-cases (has_name de name)) [
  | inl e ↦ absurd (some_none (sym (find_hit de es name e live) ∙ h))
  | inr e ↦ (e, sym (find_miss de es name e) ∙ h)
]
  where
    some_none : {i : ℕ} → Option.some i ≢ none
    some_none h = cc

-- In a tidy directory what is behind an entry that is not in use is what the search finds there.
pub find_behind :
    (de : Entry) (es : Entries) (name : List ℕ)
    → Tidy (some de ∷ es)
    → ZeroFree name
    → de.inode == 0 ≡ true
    → find (some de ∷ es) name ≡ find es name
find_behind de es name tidy z dead = elim (Bool-cases (has_name de name)) [
  | inl e ↦ find_dead de es name e dead ∙ sym (tidy.0 name z e)
  | inr e ↦ find_miss de es name e
]

-- How dir_add_entry() changes a directory, entry by entry.
pub data Placed (new : Entry) : Entries → Entries → Type 0 where
  appended : Placed new [] (some new ∷ [])
  reused :
      (de : Entry) (es : Entries) → de.inode == 0 ≡ true → Placed new (some de ∷ es) (some new ∷ es)
  skipped : (es es' : Entries) → Placed new es es' → Placed new (none ∷ es) (none ∷ es')
  passed :
      (de : Entry) (es es' : Entries)
      → de.inode == 0 ≡ false
      → Placed new es es'
      → Placed new (some de ∷ es) (some de ∷ es')

pub some_inj : {A : Type 0} {x y : A} → Option.some x ≡ some y → x ≡ y
some_inj h = cc

pub none-some : {A : Type 0} {x : A} → none ≢ Option.some x
none-some h = cc

pub prepend-some :
    (de : Option Entry) (r : Option Entries) (es' : Entries)
    → prepend de r ≡ some es'
    → (es : Entries) × (r ≡ some es) × (de ∷ es ≡ es')
prepend-some de none es' h = absurd (none-some h)
prepend-some de (some es) es' h = (es, refl, some_inj h)

pub prepend-none : (de : Option Entry) (r : Option Entries) → prepend de r ≡ none → r ≡ none
prepend-none de none h = refl
prepend-none de (some es) h = absurd (none-some (sym h))

pub place-Placed :
    (new : Entry) (room : Bool) (es es' : Entries)
    → place new room es ≡ some es'
    → Placed new es es'
unfolding place
place-Placed new true [] es' h = subst (λ es'. Placed new [] es') (some_inj h) appended
place-Placed new false [] es' h = absurd (none-some h)
place-Placed new room (none ∷ es) es' h =
    let (x, e, eq) = prepend-some none (place new room es) es' h in
    subst (λ es'. Placed new (none ∷ es) es') eq (skipped es x (place-Placed new room es x e))
place-Placed new room (some de ∷ es) es' h = elim (Bool-cases (de.inode == 0)) [
  | inl dead ↦
      let eq : place new room (some de ∷ es) ≡ some (some new ∷ es) = rw dead refl in
      subst (λ es'. Placed new (some de ∷ es) es') (some_inj (sym eq ∙ h)) (reused de es dead)
  | inr live ↦
      let eq : place new room (some de ∷ es) ≡ prepend (some de) (place new room es) =
        rw live refl in
      let (x, e, tail) = prepend-some (some de) (place new room es) es' (sym eq ∙ h) in
      subst (λ es'. Placed new (some de ∷ es) es') tail
        (passed de es x live (place-Placed new room es x e))
]

-- Names that match the same entries are found alike.
pub find_cong :
    (es : Entries) (m name : List ℕ)
    → ((de : Entry) → has_name de m ≡ has_name de name)
    → find es m ≡ find es name
unfolding find
find_cong [] m name same = refl
find_cong (none ∷ es) m name same = find_cong es m name same
find_cong (some de ∷ es) m name same = rw (same de, find_cong es m name same) refl

pub true-false : true ≢ false
true-false h = cc

module _ (name : List ℕ) (zero_free : ZeroFree name) (ino : ℕ) (live : ino == 0 ≡ false) where
  abbrev pub added : Entry
  added = record { inode = ino; name = padded name_size name }

  find-added :
      (es : Entries) (m : List ℕ)
      → find (some added ∷ es) m ≡ (if has_name added m then some ino else find es m)
  unfolding find
  find-added es m = rw live refl

  -- A name that the new entry matches matches the same entries as `name`.
  same_names :
      (de : Entry) (m : List ℕ)
      → ZeroFree m
      → has_name added m ≡ true
      → has_name de m ≡ has_name de name
  same_names de m z e = match_cong de.name name m zero_free z e

  -- The search finds the new entry under its name, and everything else as before.
  pub find-Placed :
      {es es' : Entries} (m : List ℕ)
      → Placed added es es'
      → Tidy es
      → find es name ≡ none
      → ZeroFree m
      → find es' m ≡ (if has_name added m then some ino else find es m)
  unfolding find
  find-Placed m appended tidy absent z = find-added [] m
  find-Placed m (reused de es dead) tidy absent z =
      rw (find_behind de es m tidy z dead) (find-added es m)
  find-Placed m (skipped es es' step) tidy absent z = find-Placed m step tidy absent z
  find-Placed m (passed de es es' alive step) tidy absent z =
      let (other, gone) = unfound de es name alive absent in
      let rest = find-Placed m step tidy.1 gone z in
      elim (Bool-cases (has_name added m)) [
        | inl e ↦
            let miss = same_names de m z e ∙ other in
            let new : find es' m ≡ some ino = rest ∙ rw e refl in
            rw (e, find_miss de es' m miss) new
        | inr e ↦
            let old : find es' m ≡ find es m = rest ∙ rw e refl in
            elim (Bool-cases (has_name de m)) [
              | inl hit ↦ rw (e, find_hit de es' m hit alive, find_hit de es m hit alive) refl
              | inr miss ↦ rw (e, find_miss de es' m miss, find_miss de es m miss) old
            ]
      ]

  pub Placed-Tidy :
      {es es' : Entries} → Placed added es es' → Tidy es → find es name ≡ none → Tidy es'
  unfolding find
  Placed-Tidy appended tidy absent = ((λ m z e. refl), tt)
  Placed-Tidy (reused de es dead) tidy absent = (
    (λ m z e.
        find_cong es m name (λ de. same_names de m z e)
        ∙ sym (find_behind de es name tidy zero_free dead)
        ∙ absent),
    tidy.1,
  )
  Placed-Tidy (skipped es es' step) tidy absent = Placed-Tidy step tidy absent
  Placed-Tidy (passed de es es' alive step) tidy absent =
      let (other, gone) = unfound de es name alive absent in
      (
        (λ m z e. elim (Bool-cases (has_name added m)) [
          | inl hit ↦ absurd (true-false (sym e ∙ same_names de m z hit ∙ other))
          | inr miss ↦ find-Placed m step tidy.1 gone z ∙ rw miss (tidy.0 m z e)
        ]),
        Placed-Tidy step tidy.1 gone,
      )
