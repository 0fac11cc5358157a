-- ===== src/Fs/Calls/Unlink.antt =====
-- The calls that remove an entry of a directory, or make another one for an inode.
use linux.Base.{
  ℕ, Bool, true, false, not, ◌&&◌, ◌||◌, Option, none, some, List, ◌∷◌, ◌==◌, if◌then◌else◌, length,
  get_or,
}
use linux.Kernel.Task.{Task}
use linux.Fs.Names.{split_path}
use linux.Fs.Directory.{Entries, find, dir_add_entry, dir_remove_entry, dir_is_empty}
use linux.Fs.Permission.{Inode}
use linux.Fs.Namei.{Node, is_dir, is_dot}
use linux.Fs.Calls.Defs.{CallState, Answer, set_node, free_node, take_node, iput, fail, at_path}
use linux.Fs.Calls.Entries.{fewer_links, in_parent, more_links, nothing}

-- name is "." or ".."
abbrev pub is_dots : List ℕ → Bool
is_dots name =
    is_dot name || ((length name == 2) && (get_or name 0 0 == 46) && (get_or name 1 0 == 46))

-- iput(inode); iput(dir)
abbrev pub fail_both : ℕ → ℕ → CallState → Answer
fail_both ino nr w = fail nr (iput ino w)

abbrev pub empty_node : ℕ → Inode → CallState → CallState
empty_node ino o w = if o.nlinks == 0 then record w { emptied = ino ∷ w.emptied } else w

abbrev pub removed_file : ℕ → Node → ℕ → Node → CallState → Option Entries → Answer
removed_file ino n nr dir w none = fail_both ino nr w
removed_file ino n nr dir w (some es) = (
  true,
  iput nr (
      iput ino (
        empty_node ino (fewer_links (n.inode)) (
          set_node ino (record n { inode = fewer_links (n.inode) })
            (set_node nr (record dir { entries = es }) w)))),
)

abbrev pub unlink_inode : List ℕ → ℕ → Node → ℕ → Node → CallState → Answer
unlink_inode name ino n nr dir w =
    if is_dir n
    then fail_both ino nr w
    else removed_file ino n nr dir w (dir_remove_entry name dir.entries)

-- The inode of the entry, which iget() loads or not.
abbrev pub entry_inode :
    (List ℕ → ℕ → Node → ℕ → Node → CallState → Answer) → List ℕ → ℕ → Node → CallState → Answer
entry_inode body name nr dir w = elim (find dir.entries name) [
  | none ↦ fail nr w
  | some ino ↦ elim (w.nodes ino) [
    | none ↦ fail nr w
    | some n ↦ body name ino n nr dir (take_node ino w)
  ]
]

-- The names "." and ".." are refused before the directory is looked up.
abbrev pub unless_dots : Option (List ℕ × List ℕ) → CallState → Answer → Answer
unless_dots none w go = go
unless_dots (some (dirpath, name)) w go = if is_dots name then (false, w) else go

unfoldable pub sys_unlink : Task → List ℕ → CallState → Answer
sys_unlink t path w =
    unless_dots (split_path path) w (in_parent t path nothing (entry_inode unlink_inode) w)

-- free_dir_zones() belongs to the bitmaps.
abbrev pub removed_dir : ℕ → Node → ℕ → Node → CallState → Option Entries → Answer
removed_dir ino n nr dir w none = fail_both ino nr w
removed_dir ino n nr dir w (some es) = (
  true,
  iput nr (
      iput ino (
        free_node ino (
          set_node ino (record n { inode = record (n.inode) { nlinks = 0 } })
            (set_node nr (record { inode = fewer_links (dir.inode); entries = es }) w)))),
)

abbrev pub rmdir_inode : List ℕ → ℕ → Node → ℕ → Node → CallState → Answer
rmdir_inode name ino n nr dir w =
    if not (is_dir n)
    then fail_both ino nr w
    else if not (dir_is_empty n.entries)
    then fail_both ino nr w
    else removed_dir ino n nr dir w (dir_remove_entry name dir.entries)

unfoldable pub sys_rmdir : Task → List ℕ → CallState → Answer
sys_rmdir t path w =
    unless_dots (split_path path) w (in_parent t path nothing (entry_inode rmdir_inode) w)

-- oldinode->i_nlinks++; iput(oldinode); iput(dir)
abbrev pub added_link : ℕ → Node → ℕ → Node → CallState → Option Entries → Answer
added_link old n nr dir w none = fail nr (iput old w)
added_link old n nr dir w (some es) = (
  true,
  iput nr (
      iput old (
        set_node old (record n { inode = more_links (n.inode) })
          (set_node nr (record dir { entries = es }) w))),
)

abbrev pub link_at : ℕ → Node → Bool → List ℕ → ℕ → Node → CallState → Answer
link_at old n room name nr dir w = elim (find dir.entries name) [
  | some ino ↦ fail nr (iput old w)
  | none ↦ added_link old n nr dir w (dir_add_entry name old room dir.entries)
]

abbrev pub link_inode : Task → List ℕ → Bool → ℕ → Node → CallState → Answer
link_inode t newpath room old n w =
    if is_dir n then fail old w else in_parent t newpath (iput old) (link_at old n room) w

unfoldable pub sys_link : Task → List ℕ → List ℕ → Bool → CallState → Answer
sys_link t oldpath newpath room w =
    at_path t oldpath w (λ w'. (false, w')) (link_inode t newpath room)
