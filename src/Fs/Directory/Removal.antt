-- ===== src/Fs/Directory/Removal.antt =====
-- What a search of a directory finds after an entry is removed.
use linux.Base.{
  ℕ, ◌≡◌, ◌≢◌, refl, sym, subst, ◌∙◌, inl, inr, Bool, true, false, not, ◌&&◌, Option, none, some,
  List, [], ◌∷◌, ◌==◌, if◌then◌else◌, Bool-cases, Option-cases, ◌↔◌,
}
use linux.Fs.Names.{name_size, name_eq, padded}
use linux.Fs.Names.Match.{ZeroFree, match_cong, match_both}
use linux.Fs.Directory.Defs.{Entry, Entries, has_name, find, prepend, dir_remove_entry}
use linux.Fs.Directory.Live.{
  Tidy, find_miss, find_hit, find_dead, prepend-some, prepend-none, some_inj, none-some, true-false,
}

abbrev pub cleared : Entry → Entry
cleared de = record de { inode = 0 }

abbrev pub goes : List ℕ → Entry → Bool
goes name de = not (de.inode == 0) && has_name de name

-- How dir_remove_entry() changes a directory, entry by entry.
pub data Removed (name : List ℕ) : Entries → Entries → Type 0 where
  here :
      (de : Entry) (es : Entries)
      → de.inode == 0 ≡ false
      → has_name de name ≡ true
      → Removed name (some de ∷ es) (some (cleared de) ∷ es)
  skipped : (es es' : Entries) → Removed name es es' → Removed name (none ∷ es) (none ∷ es')
  passed :
      (de : Entry) (es es' : Entries)
      → goes name de ≡ false
      → Removed name es es'
      → Removed name (some de ∷ es) (some de ∷ es')

goes_parts :
    (name : List ℕ) (de : Entry)
    → goes name de ≡ true
    → (de.inode == 0 ≡ false) × (has_name de name ≡ true)
goes_parts name de e = parts (de.inode == 0) (has_name de name) e
  where
    parts : (a b : Bool) → not a && b ≡ true → (a ≡ false) × (b ≡ true)
    parts true b e = absurd (true-false (sym e))
    parts false b e = (refl, e)

pub remove-Removed :
    (name : List ℕ) (es es' : Entries) → dir_remove_entry name es ≡ some es' → Removed name es es'
unfolding dir_remove_entry
remove-Removed name [] es' h = absurd (none-some h)
remove-Removed name (none ∷ es) es' h =
    let (x, e, eq) = prepend-some none (dir_remove_entry name es) es' h in
    subst (λ es'. Removed name (none ∷ es) es') eq (skipped es x (remove-Removed name es x e))
remove-Removed name (some de ∷ es) es' h = elim (Bool-cases (goes name de)) [
  | inl gone ↦
      let eq : dir_remove_entry name (some de ∷ es) ≡ some (some (cleared de) ∷ es) =
        rw gone refl in
      let (live, hit) = goes_parts name de gone in
      subst (λ es'. Removed name (some de ∷ es) es') (some_inj (sym eq ∙ h)) (here de es live hit)
  | inr stays ↦
      let eq : dir_remove_entry name (some de ∷ es) ≡ prepend (some de) (dir_remove_entry name es) =
        rw stays refl in
      let (x, e, tail) = prepend-some (some de) (dir_remove_entry name es) es' (sym eq ∙ h) in
      subst (λ es'. Removed name (some de ∷ es) es') tail
        (passed de es x stays (remove-Removed name es x e))
]

-- The entry is of that name.
abbrev pub stored : List ℕ → List ℕ → Bool
stored name m = name_eq name_size (padded name_size name) m

module _ (name : List ℕ) (zero_free : ZeroFree name) where
  pub find-Removed :
      {es es' : Entries} (m : List ℕ)
      → Removed name es es'
      → ZeroFree m
      → find es' m ≡ (if stored name m then none else find es m)
  unfolding find
  find-Removed m (here de es live hit) z = elim (Bool-cases (stored name m)) [
    | inl e ↦
        let hit' : has_name de m ≡ true = match_cong de.name name m zero_free z e ∙ hit in
        rw e (find_dead (cleared de) es m hit' refl)
    | inr e ↦ elim (Bool-cases (has_name de m)) [
      | inl hit' ↦ absurd (true-false (sym (match_both de.name name m zero_free z hit hit') ∙ e))
      | inr miss ↦ rw e (find_miss (cleared de) es m miss ∙ sym (find_miss de es m miss))
    ]
  ]
  find-Removed m (skipped es es' step) z = find-Removed m step z
  find-Removed m (passed de es es' stays step) z =
      let rest = find-Removed m step z in
      elim (Bool-cases (has_name de m)) [
        | inl hit ↦ elim (Bool-cases (de.inode == 0)) [
          | inl dead ↦
              rw (find_dead de es' m hit dead, find_dead de es m hit dead)
                (sym (same (stored name m) none refl))
          | inr live ↦
              rw
                (find_hit de es' m hit live, find_hit de es m hit live, other de m z live hit stays)
                refl
        ]
        | inr miss ↦ rw (find_miss de es' m miss, find_miss de es m miss) rest
      ]
    where
      same : (b : Bool) (o : Option ℕ) → o ≡ none → (if b then none else o) ≡ none
      same true o e = refl
      same false o e = e

      other :
          (de : Entry) (m : List ℕ)
          → ZeroFree m
          → de.inode == 0 ≡ false
          → has_name de m ≡ true
          → goes name de ≡ false
          → stored name m ≡ false
      other de m z live hit stays = elim (Bool-cases (stored name m)) [
        | inl e ↦
            let hit' : has_name de name ≡ true =
              sym (match_cong de.name name m zero_free z e) ∙ hit in
            absurd (true-false (sym (rw (live, hit') refl) ∙ stays))
        | inr e ↦ e
      ]

  pub Removed-Tidy : {es es' : Entries} → Removed name es es' → Tidy es → Tidy es'
  unfolding find
  Removed-Tidy (here de es live hit) tidy = tidy
  Removed-Tidy (skipped es es' step) tidy = Removed-Tidy step tidy
  Removed-Tidy (passed de es es' stays step) tidy = (
    (λ m z e. find-Removed m step z ∙ chosen (stored name m) (find es m) (tidy.0 m z e)),
    Removed-Tidy step tidy.1,
  )
    where
      chosen : (b : Bool) (o : Option ℕ) → o ≡ none → (if b then none else o) ≡ none
      chosen true o e = refl
      chosen false o e = e

  pub remove_absent :
      (es : Entries) → dir_remove_entry name es ≡ none → Tidy es → find es name ≡ none
  unfolding dir_remove_entry find
  remove_absent [] h tidy = refl
  remove_absent (none ∷ es) h tidy =
      remove_absent es (prepend-none none (dir_remove_entry name es) h) tidy
  remove_absent (some de ∷ es) h tidy = elim (Bool-cases (goes name de)) [
    | inl gone ↦
        let eq : dir_remove_entry name (some de ∷ es) ≡ some (some (cleared de) ∷ es) =
          rw gone refl in
        absurd (none-some (sym h ∙ eq))
    | inr stays ↦
        let eq : dir_remove_entry name (some de ∷ es)
            ≡ prepend (some de) (dir_remove_entry name es) =
          rw stays refl in
        let rest =
          remove_absent es (prepend-none (some de) (dir_remove_entry name es) (sym eq ∙ h))
            tidy.1 in
        elim (Bool-cases (has_name de name)) [
          | inl hit ↦ elim (Bool-cases (de.inode == 0)) [
            | inl dead ↦ find_dead de es name hit dead
            | inr live ↦ absurd (true-false (sym (rw (live, hit) refl) ∙ stays))
          ]
          | inr miss ↦ find_miss de es name miss ∙ rest
        ]
  ]

  remove_found : {es es' : Entries} → Removed name es es' → Tidy es → find es name ≢ none
  unfolding find
  remove_found (here de es live hit) tidy h = none-some (sym h ∙ find_hit de es name hit live)
  remove_found (skipped es es' step) tidy h = remove_found step tidy h
  remove_found (passed de es es' stays step) tidy h = elim (Bool-cases (has_name de name)) [
    | inl hit ↦ remove_found step tidy.1 (tidy.0 name zero_free hit)
    | inr miss ↦ remove_found step tidy.1 (sym (find_miss de es name miss) ∙ h)
  ]

  -- dir_remove_entry() of a tidy directory fails exactly when the name is not found.
  pub dir_remove_entry_refused :
      (es : Entries) → Tidy es → (dir_remove_entry name es ≡ none) ↔ (find es name ≡ none)
  dir_remove_entry_refused es tidy = (
    (λ h. remove_absent es h tidy),
    (λ h. elim (Option-cases (dir_remove_entry name es)) [
      | inl e ↦ e
      | inr (es', e) ↦ absurd (remove_found (remove-Removed name es es' e) tidy h)
    ]),
  )
