-- ===== src/Fs/Directory/Defs.antt =====
-- A directory as the list of its i_size / 16 entries. An entry that next_entry() cannot read is
-- `none`: its zone is missing, or the block cannot be read.
use linux.Base.{
  ℕ, ◌+◌, ◌%◌, Bool, true, false, not, ◌&&◌, Option, none, some, List, [], ◌∷◌, ltb, ◌==◌,
  if◌then◌else◌, length, drop,
}
use linux.Fs.Names.{name_size, name_eq, padded}

-- struct minix_dir_entry
pub record Entry : Type 0 where
  pub inode : ℕ
  pub name : List ℕ

abbrev pub Entries : Type 0
Entries = List (Option Entry)

abbrev pub has_name : Entry → List ℕ → Bool
has_name de name = name_eq name_size de.name name

-- The loop of find_entry(): the first readable entry of that name decides.
unfoldable pub find : Entries → List ℕ → Option ℕ
find [] name = none
find (none ∷ es) name = find es name
find (some de ∷ es) name =
    if has_name de name then (if de.inode == 0 then none else some de.inode) else find es name

abbrev pub prepend : Option Entry → Option Entries → Option Entries
prepend de none = none
prepend de (some es) = some (de ∷ es)

-- The two loops of dir_add_entry(): the first readable entry without an inode is used again, or one
-- is appended. `room` is whether ensure_dir_block() and next_entry() give the appended one.
unfoldable pub place : Entry → Bool → Entries → Option Entries
place new room [] = if room then some (some new ∷ []) else none
place new room (none ∷ es) = prepend none (place new room es)
place new room (some de ∷ es) =
    let rest = place new room es in
    if de.inode == 0 then some (some new ∷ es) else prepend (some de) rest

-- dir_add_entry(); `none` is -1.
unfoldable pub dir_add_entry : List ℕ → ℕ → Bool → Entries → Option Entries
unfolding place
dir_add_entry name ino room es =
    if ltb name_size (length name)
    then none
    else place (record { inode = ino; name = padded name_size name }) room es

-- dir_remove_entry(); `none` is -1.
unfoldable pub dir_remove_entry : List ℕ → Entries → Option Entries
dir_remove_entry name [] = none
dir_remove_entry name (none ∷ es) = prepend none (dir_remove_entry name es)
dir_remove_entry name (some de ∷ es) =
    let rest = dir_remove_entry name es in
    if not (de.inode == 0) && has_name de name
    then some (some (record de { inode = 0 }) ∷ es)
    else prepend (some de) rest

unfoldable pub unused : Entries → Bool
unused [] = true
unused (none ∷ es) = unused es
unused (some de ∷ es) = de.inode == 0 && unused es

-- dir_is_empty(): the loop starts behind `.` and `..`.
unfoldable pub dir_is_empty : Entries → Bool
unfolding unused
dir_is_empty es = unused (drop 2 es)

abbrev pub added_ok : Option Entries → Bool
added_ok none = false
added_ok (some es) = true

abbrev pub keep : Entries → Option Entries → Entries
keep es none = es
keep es (some es') = es'

-- Is the new name found with another inode? Then sys_rename() refuses.
abbrev pub taken_by_other : Option ℕ → ℕ → Bool
taken_by_other none i = false
taken_by_other (some j) i = not (j == i)

-- sys_rename() inside one directory, whose file has inode `i`: the entry is removed, then added.
unfoldable pub rename_file : List ℕ → List ℕ → ℕ → Bool → Entries → Bool × Entries
unfolding find dir_add_entry dir_remove_entry
rename_file oldbase newbase i room es =
    if taken_by_other (find es newbase) i then (false, es) else elim (dir_remove_entry oldbase es) [
      | none ↦ (false, es)
      | some es' ↦ let after = dir_add_entry newbase i room es' in (added_ok after, keep es' after)
    ]

abbrev pub if_found : Option ℕ → (ℕ → Bool × Entries) → Entries → Bool × Entries
if_found none go es = (false, es)
if_found (some i) go es = go i

-- Whether it returned 0, and the directory, which the task may write. `loads` is whether iget() gives
-- the inode that the old name has.
unfoldable pub rename : List ℕ → List ℕ → Bool → Bool → Entries → Bool × Entries
unfolding find rename_file
rename oldbase newbase loads room es =
    if_found (find es oldbase)
      (λ i. if loads then rename_file oldbase newbase i room es else (false, es)) es

-- What sys_rename() changes of a directory: i_nlinks is one byte.
pub record Dir : Type 0 where
  pub entries : Entries
  pub nlinks : ℕ

-- The same between two directories: the entry is added to the new one, then removed from the old
-- one, and the link counts of the two directories change, whatever the entry names.
unfoldable pub move_file : List ℕ → List ℕ → ℕ → Bool → Dir → Dir → Bool × Dir × Dir
unfolding find dir_add_entry dir_remove_entry
move_file oldbase newbase i room old new =
    if taken_by_other (find new.entries newbase) i
    then (false, old, new)
    else elim (dir_add_entry newbase i room new.entries) [
      | none ↦ (false, old, new)
      | some es ↦ elim (dir_remove_entry oldbase old.entries) [
        | none ↦ (false, old, record new { entries = es })
        | some es' ↦ (
          true,
          record { entries = es'; nlinks = (old.nlinks + 255) % 256 },
          record { entries = es; nlinks = (new.nlinks + 1) % 256 },
        )
      ]
    ]
