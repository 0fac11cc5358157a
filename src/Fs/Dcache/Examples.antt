-- ===== src/Fs/Dcache/Examples.antt =====
-- Concrete searches with the directory cache.
use linux.Base.{ℕ, ◌≡◌, refl, true, false, none, some, List, [], ◌∷◌, ◌==◌, arith, if◌then◌else◌}
use linux.Fs.Names.{padded, name_eq}
use linux.Fs.Names.Match.{ZeroFree}
use linux.Fs.Directory.{find, dir_add_entry, dir_remove_entry, place}
use linux.Fs.Dcache.Defs.{
  DcacheEntry, Cache, Tree, find_entry, dcache_lookup, dcache_store, dcache_invalidate, slot_of,
  add_to, remove_from, add_cached, remove_cached,
}
use linux.Fs.Dcache.Coherence.{Coherent, find_entry_lem}
use linux.Fs.Dcache.Transparent.{Call, search, add, remove, answers, uncached_answers, answers_lem}

abbrev a : List ℕ
a = 97 ∷ []

a-ZeroFree : ZeroFree a
a-ZeroFree = ((λ e. omega (arith, e)), tt)

-- One directory, inode 1 of device 769, with one file.
abbrev tree : Tree
tree = record {
  directory = (λ dev dir_ino. dir_ino == 1);
  dirs = (λ dev dir_ino. some (record { inode = 5; name = padded 14 a }) ∷ []);
}

abbrev unused_entry : DcacheEntry
unused_entry = record { dev = 0; dir_ino = 0; target_ino = 0; name = []; valid = false }

abbrev cold : Cache
cold = unused_entry ∷ unused_entry ∷ []

cold-Coherent : Coherent tree cold
cold-Coherent = ((λ h. absurd (cc)), ((λ h. absurd (cc)), tt))

find_entry_lem_example :
    ((find_entry tree 769 1 a cold).0
      ≡ (if tree.directory 769 1 then find (tree.dirs 769 1) a else none))
    × Coherent tree (find_entry tree 769 1 a cold).1
find_entry_lem_example = find_entry_lem tree 769 1 a cold cold-Coherent a-ZeroFree

-- The file is found, removed, not found, added again as another one and found.
abbrev run : List Call
run =
    search 769 1 a
    ∷ search 769 1 a
    ∷ remove 769 1 a
    ∷ search 769 1 a
    ∷ add 769 1 a 6 true
    ∷ search 769 1 a
    ∷ []

answers_lem_example : answers run tree cold ≡ uncached_answers run tree
answers_lem_example =
    answers_lem run tree cold cold-Coherent
      (a-ZeroFree, (a-ZeroFree, (a-ZeroFree, (a-ZeroFree, tt))))

run-answers : answers run tree cold ≡ some 5 ∷ some 5 ∷ none ∷ some 6 ∷ []
unfolding answers find_entry dcache_lookup dcache_store dcache_invalidate slot_of add_cached
    remove_cached add_to remove_from find dir_add_entry dir_remove_entry place name_eq padded
run-answers = refl
