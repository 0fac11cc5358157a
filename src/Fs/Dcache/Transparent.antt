-- ===== src/Fs/Dcache/Transparent.antt =====
-- No sequence of searches and changes can tell whether there is a cache.
use linux.Base.{
  ℕ, ◌≡◌, refl, subst, inl, inr, Bool, Option, none, List, [], ◌∷◌, ltb, if◌then◌else◌, length,
  Bool-cases, Option-cases,
}
use linux.Fs.Names.{name_size}
use linux.Fs.Names.Match.{ZeroFree}
use linux.Fs.Directory.{find, dir_remove_entry}
use linux.Fs.Dcache.Defs.{
  Cache, Tree, find_entry, add_to, remove_from, add_cached, remove_cached, dcache_invalidate,
}
use linux.Fs.Dcache.Coherence.{Coherent, find_entry_lem, dcache_invalidate-Coherent}

-- What the system does with directories: device, directory, name.
pub data Call : Type 0 where
  search : ℕ → ℕ → List ℕ → Call
  add : ℕ → ℕ → List ℕ → ℕ → Bool → Call
  remove : ℕ → ℕ → List ℕ → Call

-- The answers of the searches, with the cache.
unfoldable pub answers : List Call → Tree → Cache → List (Option ℕ)
unfolding find_entry add_cached remove_cached
answers [] t cache = []
answers (search dev dir_ino name ∷ cs) t cache =
    let (answer, cache') = find_entry t dev dir_ino name cache in answer ∷ answers cs t cache'
answers (add dev dir_ino name ino room ∷ cs) t cache =
    let (t', cache') = add_cached t dev dir_ino name ino room cache in answers cs t' cache'
answers (remove dev dir_ino name ∷ cs) t cache =
    let (t', cache') = remove_cached t dev dir_ino name cache in answers cs t' cache'

-- The same without it: every search reads the directory.
unfoldable pub uncached_answers : List Call → Tree → List (Option ℕ)
unfolding find add_to remove_from
uncached_answers [] t = []
uncached_answers (search dev dir_ino name ∷ cs) t =
    (if t.directory dev dir_ino then find (t.dirs dev dir_ino) name else none)
    ∷ uncached_answers cs t
uncached_answers (add dev dir_ino name ino room ∷ cs) t =
    uncached_answers cs (add_to t dev dir_ino name ino room)
uncached_answers (remove dev dir_ino name ∷ cs) t =
    uncached_answers cs (remove_from t dev dir_ino name)

abbrev pub Looks : List Call → Type 0
Looks [] = Unit {0}
Looks (search dev dir_ino name ∷ cs) = ZeroFree name × Looks cs
Looks (c ∷ cs) = Looks cs

add_cached-Coherent :
    (t : Tree) (dev dir_ino : ℕ) (name : List ℕ) (ino : ℕ) (room : Bool) (cache : Cache)
    → Coherent t cache
    → Coherent (add_to t dev dir_ino name ino room) (add_cached t dev dir_ino name ino room cache).1
unfolding add_cached add_to
add_cached-Coherent t dev dir_ino name ino room cache c =
    elim (Bool-cases (ltb name_size (length name))) [
      | inl e ↦ rw e c
      | inr e ↦
          let t' = add_to t dev dir_ino name ino room in
          let emptied : dcache_invalidate cache ≡ (add_cached t dev dir_ino name ino room cache).1 =
            rw e refl in
          subst (λ c. Coherent t' c) emptied (dcache_invalidate-Coherent t' cache)
    ]

remove_cached-Coherent :
    (t : Tree) (dev dir_ino : ℕ) (name : List ℕ) (cache : Cache)
    → Coherent t cache
    → Coherent (remove_from t dev dir_ino name) (remove_cached t dev dir_ino name cache).1
unfolding remove_cached remove_from
remove_cached-Coherent t dev dir_ino name cache c =
    elim (Option-cases (dir_remove_entry name (t.dirs dev dir_ino))) [
      | inl e ↦ rw e c
      | inr (es, e) ↦
          let t' = remove_from t dev dir_ino name in
          let emptied : dcache_invalidate cache ≡ (remove_cached t dev dir_ino name cache).1 =
            rw e refl in
          subst (λ c. Coherent t' c) emptied (dcache_invalidate-Coherent t' cache)
    ]

-- From a cache that agrees with the directories, every sequence of searches and changes gets the
-- answers that it would get if every search read the directory. Names are without a zero byte.
pub answers_lem :
    (cs : List Call) (t : Tree) (cache : Cache)
    → Coherent t cache
    → Looks cs
    → answers cs t cache ≡ uncached_answers cs t
unfolding answers uncached_answers
answers_lem [] t cache c looks = refl
answers_lem (search dev dir_ino name ∷ cs) t cache c (z, looks) =
    let (same, c') = find_entry_lem t dev dir_ino name cache c z in
    let rest = answers_lem cs t (find_entry t dev dir_ino name cache).1 c' looks in
    rw (same, rest) refl
answers_lem (add dev dir_ino name ino room ∷ cs) t cache c looks =
    answers_lem cs (add_to t dev dir_ino name ino room)
      (add_cached t dev dir_ino name ino room cache).1
      (add_cached-Coherent t dev dir_ino name ino room cache c) looks
answers_lem (remove dev dir_ino name ∷ cs) t cache c looks =
    answers_lem cs (remove_from t dev dir_ino name) (remove_cached t dev dir_ino name cache).1
      (remove_cached-Coherent t dev dir_ino name cache c) looks
