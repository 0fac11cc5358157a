-- ===== src/Fs/Names/Defs.antt =====
-- A character string is the list of its bytes, without the byte that ends it.
use linux.Base.{
  ℕ, zero, suc, Bool, true, false, not, ◌&&◌, Option, none, some, List, [], ◌∷◌, leb, ◌==◌,
  if◌then◌else◌, length, get_or, drop,
}

abbrev pub name_size : ℕ
name_size = 14

-- name_eq(): `room` is how many of the 14 bytes of de_name are left. At the end of the 14 bytes the
-- names are equal, whatever is left of `name`.
unfoldable pub name_eq : ℕ → List ℕ → List ℕ → Bool
name_eq zero de_name name = true
name_eq (suc room) de_name [] = get_or de_name 0 0 == 0
name_eq (suc room) de_name (c ∷ cs) =
    if get_or de_name 0 0 == c then name_eq room (drop 1 de_name) cs else false

-- What dir_add_entry() stores: (k < namelen) ? name[k] : 0 for 14 values of k.
unfoldable pub padded : ℕ → List ℕ → List ℕ
padded zero name = []
padded (suc room) [] = 0 ∷ padded room []
padded (suc room) (c ∷ cs) = c ∷ padded room cs

abbrev pub slash : ℕ
slash = 47

-- while (*p == '/') p++
unfoldable pub skip_slashes : List ℕ → List ℕ
skip_slashes [] = []
skip_slashes (c ∷ cs) = if c == slash then skip_slashes cs else c ∷ cs

-- while (*p && *p != '/' && namelen < 15): the name, and what follows it; `room` is 15 - namelen.
unfoldable pub read_name : ℕ → List ℕ → List ℕ × List ℕ
read_name zero p = ([], p)
read_name (suc room) [] = ([], [])
read_name (suc room) (c ∷ cs) =
    let (name, rest) = read_name room cs in if c == slash then ([], c ∷ cs) else (c ∷ name, rest)

-- One round of namei()'s loop reads a component and skips the slashes behind it.
unfoldable pub component : List ℕ → List ℕ × List ℕ
unfolding read_name skip_slashes
component p = let (name, rest) = read_name 15 p in (name, skip_slashes rest)

-- strrchr(path, '/'): what stands before the last slash and behind it.
unfoldable pub last_slash : List ℕ → Option (List ℕ × List ℕ)
last_slash [] = none
last_slash (c ∷ cs) = elim (last_slash cs) [
  | some (before, behind) ↦ some (c ∷ before, behind)
  | none ↦ if c == slash then some ([], cs) else none
]

abbrev pub fits : List ℕ → Bool
fits name = not (length name == 0) && leb (length name) name_size

-- strcpy(dirpath, "/") for a slash at the start, else what stands before the slash.
abbrev pub dir_part : List ℕ → List ℕ
dir_part [] = slash ∷ []
dir_part (c ∷ cs) = c ∷ cs

abbrev pub split_at : List ℕ → Option (List ℕ × List ℕ) → Option (List ℕ × List ℕ)
split_at path none = if fits path then some ([], path) else none
split_at path (some (before, behind)) = if fits behind then some (dir_part before, behind) else none

-- split_path(): dirpath and name, or `none` for -1. The copy to dirpath is not bounded.
unfoldable pub split_path : List ℕ → Option (List ℕ × List ℕ)
split_path [] = none
split_path (c ∷ cs) = split_at (c ∷ cs) (last_slash (c ∷ cs))
