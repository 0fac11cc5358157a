-- ===== src/Fs/Dcache/Coherence.antt =====
-- The cache agrees with the directories.
use linux.Base.{
  ℕ, zero, suc, ◌≡◌, refl, sym, ◌∙◌, inl, inr, Bool, true, false, not, ◌&&◌, Option, none, some,
  List, [], ◌∷◌, ◌==◌, if◌then◌else◌, set, take, Bool-cases, Option-cases, ==_iff,
}
use linux.Fs.Names.{name_size, name_eq}
use linux.Fs.Names.Match.{ZeroFree, match_cached}
use linux.Fs.Directory.{find}
use linux.Fs.Directory.Live.{find_cong, true-false}
use linux.Fs.Dcache.Defs.{
  DcacheEntry, Cache, Tree, matches, dcache_invalidate, dcache_lookup, dcache_store, slot_of,
  store_at, find_entry,
}

-- What a valid entry says of every name that it matches is what the search of the directory finds.
abbrev pub Honest : Tree → DcacheEntry → Type 0
Honest t e =
    e.valid ≡ true
    → (name : List ℕ) → ZeroFree name
    → name_eq name_size e.name name ≡ true
    → find (t.dirs e.dev e.dir_ino) name ≡ some e.target_ino

abbrev pub Coherent : Tree → Cache → Type 0
Coherent t [] = Unit {0}
Coherent t (e ∷ es) = Honest t e × Coherent t es

-- An emptied cache agrees with any directories.
pub dcache_invalidate-Coherent : (t : Tree) (cache : Cache) → Coherent t (dcache_invalidate cache)
unfolding dcache_invalidate
dcache_invalidate-Coherent t [] = tt
dcache_invalidate-Coherent t (e ∷ es) =
    ((λ h. absurd (true-false (sym h))), dcache_invalidate-Coherent t es)

set-Coherent :
    (t : Tree) (cache : Cache) (i : ℕ) (e : DcacheEntry)
    → Coherent t cache
    → Honest t e
    → Coherent t (set cache i e)
set-Coherent t [] i e c h = tt
set-Coherent t (x ∷ xs) zero e c h = (h, c.1)
set-Coherent t (x ∷ xs) (suc i) e c h = (c.0, set-Coherent t xs i e c.1 h)

pub dcache_store-Coherent :
    (t : Tree) (dev dir_ino : ℕ) (name : List ℕ) (ino : ℕ) (cache : Cache)
    → Coherent t cache
    → ZeroFree name
    → find (t.dirs dev dir_ino) name ≡ some ino
    → Coherent t (dcache_store dev dir_ino name ino cache)
unfolding dcache_store
dcache_store-Coherent t dev dir_ino name ino cache c z found =
    let e : DcacheEntry = record {
      dev = dev;
      dir_ino = dir_ino;
      target_ino = ino;
      name = take name_size name;
      valid = true;
    } in
    let honest : Honest t e = (λ v m z' h.
      find_cong (t.dirs dev dir_ino) m name (λ de. match_cached de.name name m z z' h) ∙ found) in
    at (slot_of (matches dev dir_ino name) cache) e
      (store_at (slot_of (λ e. not e.valid) cache) e cache (set (dcache_invalidate cache) 0 e))
      honest
      (at (slot_of (λ e. not e.valid) cache) e (set (dcache_invalidate cache) 0 e) honest
        (set-Coherent t (dcache_invalidate cache) 0 e (dcache_invalidate-Coherent t cache) honest))
  where
    at :
        (slot : Option ℕ) (e : DcacheEntry) (otherwise : Cache)
        → Honest t e
        → Coherent t otherwise
        → Coherent t (store_at slot e cache otherwise)
    at none e otherwise h o = o
    at (some i) e otherwise h o = set-Coherent t cache i e c h

pub dcache_lookup_lem :
    (t : Tree) (dev dir_ino : ℕ) (name : List ℕ) (ino : ℕ) (cache : Cache)
    → Coherent t cache
    → ZeroFree name
    → dcache_lookup dev dir_ino name cache ≡ some ino
    → find (t.dirs dev dir_ino) name ≡ some ino
unfolding dcache_lookup
dcache_lookup_lem t dev dir_ino name ino [] c z h = absurd (cc)
dcache_lookup_lem t dev dir_ino name ino (e ∷ es) c z h =
    elim (Bool-cases (matches dev dir_ino name e)) [
      | inl hit ↦
          let (v, d, i, n) =
            parts e.valid (e.dev == dev) (e.dir_ino == dir_ino) (name_eq name_size e.name name)
              hit in
          let eq : dcache_lookup dev dir_ino name (e ∷ es) ≡ some e.target_ino = rw hit refl in
          rw (sym ((==_iff e.dev dev).0 d), sym ((==_iff e.dir_ino dir_ino).0 i)) (c.0 v name z n)
          ∙ sym eq
          ∙ h
      | inr miss ↦
          let eq : dcache_lookup dev dir_ino name (e ∷ es) ≡ dcache_lookup dev dir_ino name es =
            rw miss refl in
          dcache_lookup_lem t dev dir_ino name ino es c.1 z (sym eq ∙ h)
    ]
  where
    parts :
        (a b c d : Bool)
        → a && b && c && d ≡ true
        → (a ≡ true) × (b ≡ true) × (c ≡ true) × (d ≡ true)
    parts true true true true h = (refl, refl, refl, refl)
    parts true true true false h = absurd (true-false (sym h))
    parts true true false d h = absurd (true-false (sym h))
    parts true false c d h = absurd (true-false (sym h))
    parts false b c d h = absurd (true-false (sym h))

-- find_entry() answers what a search of the directory without the cache would, and the cache still
-- agrees with the directories.
pub find_entry_lem :
    (t : Tree) (dev dir_ino : ℕ) (name : List ℕ) (cache : Cache)
    → Coherent t cache
    → ZeroFree name
    → ((find_entry t dev dir_ino name cache).0
        ≡ (if t.directory dev dir_ino then find (t.dirs dev dir_ino) name else none))
      × Coherent t (find_entry t dev dir_ino name cache).1
unfolding find_entry
find_entry_lem t dev dir_ino name cache c z = elim (Bool-cases (t.directory dev dir_ino)) [
  | inr e ↦ rw e (refl, c)
  | inl e ↦ elim (Option-cases (dcache_lookup dev dir_ino name cache)) [
    | inr (ino, hit) ↦ rw (e, hit) (sym (dcache_lookup_lem t dev dir_ino name ino cache c z hit), c)
    | inl miss ↦ elim (Option-cases (find (t.dirs dev dir_ino) name)) [
      | inl gone ↦ rw (e, miss, gone) (refl, c)
      | inr (ino, found) ↦
          rw (e, miss, found) (refl, dcache_store-Coherent t dev dir_ino name ino cache c z found)
    ]
  ]
]
