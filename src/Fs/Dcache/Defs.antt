-- ===== src/Fs/Dcache/Defs.antt =====
-- The cache as the list of its 64 entries.
use linux.Base.{
  ℕ, suc, Bool, true, false, not, ◌&&◌, Option, none, some, List, [], ◌∷◌, ltb, ◌==◌, if◌then◌else◌,
  length, take, set,
}
use linux.Fs.Names.{name_size, name_eq}
use linux.Fs.Directory.{Entries, find, keep, dir_add_entry, dir_remove_entry}

-- struct dcache_entry; the name up to its zero byte.
pub record DcacheEntry : Type 0 where
  pub dev : ℕ
  pub dir_ino : ℕ
  pub target_ino : ℕ
  pub name : List ℕ
  pub valid : Bool

abbrev pub Cache : Type 0
Cache = List DcacheEntry

abbrev pub expired : DcacheEntry → DcacheEntry
expired e = record e { valid = false }

unfoldable pub dcache_invalidate : Cache → Cache
dcache_invalidate [] = []
dcache_invalidate (e ∷ es) = expired e ∷ dcache_invalidate es

abbrev pub matches : ℕ → ℕ → List ℕ → DcacheEntry → Bool
matches dev dir_ino name e =
    e.valid && (e.dev == dev) && (e.dir_ino == dir_ino) && name_eq name_size e.name name

unfoldable pub dcache_lookup : ℕ → ℕ → List ℕ → Cache → Option ℕ
dcache_lookup dev dir_ino name [] = none
dcache_lookup dev dir_ino name (e ∷ es) =
    if matches dev dir_ino name e then some e.target_ino else dcache_lookup dev dir_ino name es

abbrev pub later : Option ℕ → Option ℕ
later none = none
later (some i) = some (suc i)

-- The loops of dcache_store(): the first slot that passes a test.
unfoldable pub slot_of : (DcacheEntry → Bool) → Cache → Option ℕ
slot_of test [] = none
slot_of test (e ∷ es) = if test e then some 0 else later (slot_of test es)

abbrev pub store_at : Option ℕ → DcacheEntry → Cache → Cache → Cache
store_at none e cache otherwise = otherwise
store_at (some slot) e cache otherwise = set cache slot e

-- dcache_store(): the slot of that name, else a slot without a valid entry, else slot 0 of a cache
-- that is emptied.
unfoldable pub dcache_store : ℕ → ℕ → List ℕ → ℕ → Cache → Cache
unfolding slot_of dcache_invalidate
dcache_store dev dir_ino name ino cache =
    let e : DcacheEntry = record {
      dev = dev;
      dir_ino = dir_ino;
      target_ino = ino;
      name = take name_size name;
      valid = true;
    } in
    store_at (slot_of (matches dev dir_ino name) cache) e cache
      (store_at (slot_of (λ e. not e.valid) cache) e cache (set (dcache_invalidate cache) 0 e))

-- Every directory by device and inode number, and whether an inode is one.
pub record Tree : Type 0 where
  pub directory : ℕ → ℕ → Bool
  pub dirs : ℕ → ℕ → Entries

abbrev pub scanned : ℕ → ℕ → List ℕ → Cache → Option ℕ → Option ℕ × Cache
scanned dev dir_ino name cache none = (none, cache)
scanned dev dir_ino name cache (some ino) = (some ino, dcache_store dev dir_ino name ino cache)

abbrev pub cached : Option ℕ → Cache → Option ℕ × Cache → Option ℕ × Cache
cached none cache miss = miss
cached (some ino) cache miss = (some ino, cache)

-- find_entry(): the inode number or `none` for -1, and the cache.
unfoldable pub find_entry : Tree → ℕ → ℕ → List ℕ → Cache → Option ℕ × Cache
unfolding dcache_lookup dcache_store find
find_entry t dev dir_ino name cache =
    if t.directory dev dir_ino
    then cached (dcache_lookup dev dir_ino name cache) cache
        (scanned dev dir_ino name cache (find (t.dirs dev dir_ino) name))
    else (none, cache)

abbrev pub with_dir : Tree → ℕ → ℕ → Entries → Tree
with_dir t dev dir_ino es = record t {
  dirs = (λ d i. if (d == dev) && (i == dir_ino) then es else t.dirs d i);
}

-- The directories after dir_add_entry() and after dir_remove_entry().
unfoldable pub add_to : Tree → ℕ → ℕ → List ℕ → ℕ → Bool → Tree
unfolding dir_add_entry
add_to t dev dir_ino name ino room =
    let es = t.dirs dev dir_ino in
    if ltb name_size (length name)
    then t
    else with_dir t dev dir_ino (keep es (dir_add_entry name ino room es))

abbrev pub with_removed : Tree → ℕ → ℕ → Option Entries → Tree
with_removed t dev dir_ino none = t
with_removed t dev dir_ino (some es) = with_dir t dev dir_ino es

unfoldable pub remove_from : Tree → ℕ → ℕ → List ℕ → Tree
unfolding dir_remove_entry
remove_from t dev dir_ino name =
    with_removed t dev dir_ino (dir_remove_entry name (t.dirs dev dir_ino))

-- dir_add_entry() empties the cache unless it refuses the name.
unfoldable pub add_cached : Tree → ℕ → ℕ → List ℕ → ℕ → Bool → Cache → Tree × Cache
unfolding add_to dcache_invalidate
add_cached t dev dir_ino name ino room cache = (
  add_to t dev dir_ino name ino room,
  (if ltb name_size (length name) then cache else dcache_invalidate cache),
)

abbrev pub after_removal : Option Entries → Cache → Cache
after_removal none cache = cache
after_removal (some es) cache = dcache_invalidate cache

-- dir_remove_entry() empties it when it has removed an entry.
unfoldable pub remove_cached : Tree → ℕ → ℕ → List ℕ → Cache → Tree × Cache
unfolding remove_from dir_remove_entry dcache_invalidate
remove_cached t dev dir_ino name cache = (
  remove_from t dev dir_ino name,
  after_removal (dir_remove_entry name (t.dirs dev dir_ino)) cache,
)
