-- ===== src/Fs/Directory/Rename.antt =====
-- What a directory holds after sys_rename().
use linux.Base.{
  ℕ, ◌≡◌, ◌≢◌, ◌⊎◌, refl, sym, ◌∙◌, inl, inr, ◌+◌, ◌%◌, Bool, true, false, Option, none, some, List,
  [], ◌∷◌, ◌==◌, if◌then◌else◌, ltb, ◌≤◌, length, Bool-cases, Option-cases, ==_iff, arith,
}
use linux.Fs.Names.{name_size, padded}
use linux.Fs.Names.Match.{ZeroFree, match_cong}
use linux.Fs.Directory.Defs.{
  Entry, Entries, Dir, find, prepend, prepend, place, dir_add_entry, dir_remove_entry, rename,
  rename_file, move_file, taken_by_other, has_name,
}
use linux.Fs.Directory.Live.{
  Tidy, added, find-Placed, Placed-Tidy, place-Placed, find_cong, find_hit, find_dead, find_miss,
  none-some, some_inj, prepend-none,
}
use linux.Fs.Directory.Removal.{
  stored, Removed, here, skipped, passed, find-Removed, Removed-Tidy, remove-Removed,
  dir_remove_entry_refused,
}
use linux.Fs.Directory.Replay.{bind, Agree, bind-Agree}

-- A search never gives inode 0.
pub find_live : (es : Entries) (name : List ℕ) (i : ℕ) → find es name ≡ some i → i == 0 ≡ false
unfolding find
find_live [] name i h = absurd (none-some h)
find_live (none ∷ es) name i h = find_live es name i h
find_live (some de ∷ es) name i h = elim (Bool-cases (has_name de name)) [
  | inl hit ↦ elim (Bool-cases (de.inode == 0)) [
    | inl dead ↦ absurd (none-some (sym (find_dead de es name hit dead) ∙ h))
    | inr live ↦ rw (sym (some_inj (sym (find_hit de es name hit live) ∙ h))) live
  ]
  | inr miss ↦ find_live es name i (sym (find_miss de es name miss) ∙ h)
]

-- The entry that a removal clears has room for another one.
place_cleared :
    {name : List ℕ} {es es' : Entries} (new : Entry) (room : Bool)
    → Removed name es es'
    → place new room es' ≢ none
unfolding place
place_cleared new room (here de es live hit) h = none-some (sym h)
place_cleared new room (skipped es es' step) h =
    place_cleared new room step (prepend-none none (place new room es') h)
place_cleared new room (passed de es es' stays step) h = elim (Bool-cases (de.inode == 0)) [
  | inl dead ↦
      let eq : place new room (some de ∷ es') ≡ some (some new ∷ es') = rw dead refl in
      none-some (sym h ∙ eq)
  | inr live ↦
      let eq : place new room (some de ∷ es') ≡ prepend (some de) (place new room es') =
        rw live refl in
      place_cleared new room step (prepend-none (some de) (place new room es') (sym eq ∙ h))
]

-- What an addition does that succeeds.
pub add_result :
    (name : List ℕ) (ino : ℕ) (room : Bool) (es es' : Entries)
    → ZeroFree name
    → ino == 0 ≡ false
    → Tidy es
    → find es name ≡ none
    → dir_add_entry name ino room es ≡ some es'
    → Tidy es' × Agree es' (bind name (some ino) (find es))
unfolding dir_add_entry
add_result name ino room es es' z live tidy gone h =
    elim (Bool-cases (ltb name_size (length name))) [
      | inl long ↦
          let eq : dir_add_entry name ino room es ≡ none = rw long refl in
          absurd (none-some (sym eq ∙ h))
      | inr short ↦
          let eq : dir_add_entry name ino room es ≡ place (added name z ino live) room es =
            rw short refl in
          let step = place-Placed (added name z ino live) room es es' (sym eq ∙ h) in
          (
            Placed-Tidy name z ino live step tidy gone,
            (λ m z'. find-Placed name z ino live m step tidy gone z'),
          )
    ]

added_anyway :
    {name : List ℕ} {es : Entries} (es' : Entries) (newbase : List ℕ) (i : ℕ) (room : Bool)
    → length newbase ≤ name_size
    → Removed name es es'
    → dir_add_entry newbase i room es' ≢ none
unfolding dir_add_entry
added_anyway es' newbase i room short step h =
    let new : Entry = record { inode = i; name = padded name_size newbase } in
    let fits : ltb name_size (length newbase) ≡ false = ground arith in
    let eq : dir_add_entry newbase i room es' ≡ place new room es' = rw fits refl in
    place_cleared new room step (sym eq ∙ h)

module _ (oldbase newbase : List ℕ) (z : ZeroFree oldbase) (z' : ZeroFree newbase)
    (short : length newbase ≤ name_size) (room : Bool) where
  -- Renaming inside a tidy directory, which the task may write, to a name that is not found or is the
  -- same: it fails and changes nothing if iget() does not give the inode, and else succeeds, whether
  -- or not the directory could grow: the new name gets the inode, the old name is not found any more
  -- unless it is the same, every other name keeps its inode, and the directory stays tidy. Both
  -- names are without a zero byte, and the new one has at most 14.
  pub rename_lem :
      (es : Entries) (i : ℕ)
      → Tidy es
      → find es oldbase ≡ some i
      → (find es newbase ≡ none) ⊎ (stored oldbase newbase ≡ true)
      → ((rename oldbase newbase true room es).0 ≡ true)
        × Tidy (rename oldbase newbase true room es).1
        × Agree
            (rename oldbase newbase true room es).1
            (bind newbase (some i) (bind oldbase none (find es)))
        × (rename oldbase newbase false room es ≡ (false, es))
  unfolding rename rename_file
  rename_lem es i tidy found free =
      let live = find_live es oldbase i found in
      elim (Option-cases (dir_remove_entry oldbase es)) [
        | inl e ↦
            absurd (none-some (sym ((dir_remove_entry_refused oldbase z es tidy).0 e) ∙ found))
        | inr (es', e) ↦
            let step = remove-Removed oldbase es es' e in
            let tidy' = Removed-Tidy oldbase z step tidy in
            let agree : Agree es' (bind oldbase none (find es)) =
              (λ m zm. find-Removed oldbase z m step zm) in
            let gone : find es' newbase ≡ none = agree newbase z' ∙ unbound es free in
            elim (Option-cases (dir_add_entry newbase i room es')) [
              | inl e' ↦ absurd (added_anyway es' newbase i room short step e')
              | inr (es'', e') ↦
                  let (tidy'', after) = add_result newbase i room es' es'' z' live tidy' gone e' in
                  rw (found, not_taken es i found free, e, e')
                    (
                      refl,
                      tidy'',
                      bind-Agree newbase (some i) es' es'' (bind oldbase none (find es)) agree
                          after,
                      refl,
                    )
            ]
      ]
    where
      unbound :
          (es : Entries)
          → (find es newbase ≡ none) ⊎ (stored oldbase newbase ≡ true)
          → bind oldbase none (find es) newbase ≡ none
      unbound es (inl e) = chosen (stored oldbase newbase) (find es newbase) e
        where
          chosen : (b : Bool) (o : Option ℕ) → o ≡ none → (if b then none else o) ≡ none
          chosen true o e = refl
          chosen false o e = e
      unbound es (inr e) = rw e refl

      not_taken :
          (es : Entries) (i : ℕ)
          → find es oldbase ≡ some i
          → (find es newbase ≡ none) ⊎ (stored oldbase newbase ≡ true)
          → taken_by_other (find es newbase) i ≡ false
      not_taken es i found (inl e) = rw e refl
      not_taken es i found (inr e) =
          let alike : find es newbase ≡ find es oldbase =
            find_cong es newbase oldbase (λ de. match_cong de.name oldbase newbase z z' e) in
          let same : i == i ≡ true = (==_iff i i).1 refl in rw (alike, found, same) refl

  -- A file with inode `i` moves between two tidy directories, to a name that the new one does not
  -- find. Either nothing changes and the call fails, or it succeeds: the new directory has the new
  -- name with this inode, the old one has lost the old name, all other names keep their inodes, both
  -- stay tidy, and one link count goes down by one and the other up. Both names are without a zero
  -- byte, and the new one has at most 14.
  pub move_file_lem :
      (old new : Dir) (i : ℕ)
      → Tidy old.entries
      → Tidy new.entries
      → find old.entries oldbase ≡ some i
      → find new.entries newbase ≡ none
      → (move_file oldbase newbase i room old new ≡ (false, old, new))
        ⊎ ((old' : Dir) × (new' : Dir) × (move_file oldbase newbase i room old new
              ≡ (true, old', new'))
            × Tidy old'.entries
            × Tidy new'.entries
            × Agree old'.entries (bind oldbase none (find old.entries))
            × Agree new'.entries (bind newbase (some i) (find new.entries))
            × (old'.nlinks ≡ (old.nlinks + 255) % 256)
            × (new'.nlinks ≡ (new.nlinks + 1) % 256))
  unfolding move_file
  move_file_lem old new i tidy tidy' found gone =
      let live = find_live old.entries oldbase i found in
      elim (Option-cases (dir_add_entry newbase i room new.entries)) [
        | inl e ↦ inl (rw (gone, e) refl)
        | inr (es, e) ↦ elim (Option-cases (dir_remove_entry oldbase old.entries)) [
          | inl e' ↦
              absurd (
                none-some
                  (sym ((dir_remove_entry_refused oldbase z old.entries tidy).0 e') ∙ found))
          | inr (es', e') ↦
              let step = remove-Removed oldbase old.entries es' e' in
              let (after, agree) = add_result newbase i room new.entries es z' live tidy' gone e in
              inr (
                record { entries = es'; nlinks = (old.nlinks + 255) % 256 },
                record { entries = es; nlinks = (new.nlinks + 1) % 256 },
                (rw (gone, e, e') refl),
                Removed-Tidy oldbase z step tidy,
                after,
                (λ m zm. find-Removed oldbase z m step zm),
                agree,
                refl,
                refl,
              )
        ]
      ]
