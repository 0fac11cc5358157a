-- ===== src/Fs/Directory/Examples.antt =====
-- Concrete directories and runs of their calls.
use linux.Base.{ℕ, ◌≡◌, refl, subst, inl, true, false, none, some, List, [], ◌∷◌, arith}
use linux.Fs.Names.{name_eq, padded}
use linux.Fs.Names.Match.{ZeroFree}
use linux.Fs.Directory.Defs.{
  Entries, Dir, find, place, dir_add_entry, dir_remove_entry, rename, rename_file, move_file,
  dir_is_empty, unused,
}
use linux.Fs.Directory.Live.{Tidy}
use linux.Fs.Directory.Replay.{
  Change, add, remove, Proper, Agree, change, changes, replay, bind, changes_refine,
}
use linux.Fs.Directory.Rename.{rename_lem}

-- The names `a`, `b` and `c`.
abbrev a : List ℕ
a = 97 ∷ []

abbrev b : List ℕ
b = 98 ∷ []

abbrev c : List ℕ
c = 99 ∷ []

abbrev run : List Change
run = add a 5 ∷ add b 6 ∷ remove a ∷ add c 7 ∷ []

a-ZeroFree : ZeroFree a
a-ZeroFree = ((λ e. omega (arith, e)), tt)

b-ZeroFree : ZeroFree b
b-ZeroFree = ((λ e. omega (arith, e)), tt)

c-ZeroFree : ZeroFree c
c-ZeroFree = ((λ e. omega (arith, e)), tt)

run-Proper : Proper run
run-Proper = (a-ZeroFree, refl, (b-ZeroFree, refl, (a-ZeroFree, (c-ZeroFree, refl, tt))))

changes_refine_example : Tidy (changes run []) × Agree (changes run []) (replay run (find []))
changes_refine_example = changes_refine run [] (find []) run-Proper tt (λ m z. refl)

-- The slot of `a` is used again for `c`.
abbrev two : Entries
two =
    some (record { inode = 7; name = padded 14 c })
    ∷ some (record { inode = 6; name = padded 14 b })
    ∷ []

run-two : changes run [] ≡ two
unfolding changes change find dir_add_entry dir_remove_entry place name_eq padded
run-two = refl

two-Tidy : Tidy two
two-Tidy = subst (λ es. Tidy es) run-two changes_refine_example.0

two-b : find two b ≡ some 6
unfolding find name_eq padded
two-b = refl

two-a : find two a ≡ none
unfolding find name_eq padded
two-a = refl

rename_lem_example :
    ((rename b a true false two).0 ≡ true)
    × Tidy (rename b a true false two).1
    × Agree (rename b a true false two).1 (bind a (some 6) (bind b none (find two)))
    × (rename b a false false two ≡ (false, two))
rename_lem_example =
    rename_lem b a b-ZeroFree a-ZeroFree (omega arith) false two 6 two-Tidy two-b (inl two-a)

abbrev two_dir : Dir
two_dir = record { entries = two; nlinks = 2 }

abbrev one_dir : Dir
one_dir = record { entries = []; nlinks = 2 }

unfound_a : find [] a ≡ none
unfolding find
unfound_a = refl

-- Two names of one file, one renamed to the other: the name then stands in the directory twice.
abbrev linked : Entries
linked =
    some (record { inode = 5; name = padded 14 a })
    ∷ some (record { inode = 5; name = padded 14 b })
    ∷ []

renamed_onto_link : rename a b true true linked ≡ (
  true,
  some (record { inode = 5; name = padded 14 b })
      ∷ some (record { inode = 5; name = padded 14 b })
      ∷ [],
)
unfolding rename rename_file find dir_add_entry dir_remove_entry place name_eq padded
renamed_onto_link = refl

-- Then unlinking it once clears one entry, and the other one is not found any more.
hidden_link :
    ((dir_remove_entry b (rename a b true true linked).1)
      ≡ some (
          some (record { inode = 0; name = padded 14 b })
          ∷ some (record { inode = 5; name = padded 14 b })
          ∷ []))
    × (find
          (some (record { inode = 0; name = padded 14 b })
            ∷ some (record { inode = 5; name = padded 14 b })
            ∷ [])
          b
        ≡ none)
unfolding rename rename_file find dir_add_entry dir_remove_entry place name_eq padded
hidden_link = (refl, refl)

-- Two files moved out of a directory with its first two links leave it without a link.
unlinked_dir :
    (move_file b a 6 true
      (move_file c c 7 true two_dir one_dir).1
      (move_file c c 7 true two_dir one_dir).2).1.nlinks
    ≡ 0
unfolding move_file find dir_add_entry dir_remove_entry place name_eq padded
unlinked_dir = refl

-- A directory of `.` and `..` with a cleared entry is empty.
emptied :
    dir_is_empty (
      some (record { inode = 3; name = padded 14 (46 ∷ []) })
      ∷ some (record { inode = 1; name = padded 14 (46 ∷ 46 ∷ []) })
      ∷ some (record { inode = 0; name = padded 14 b })
      ∷ [])
    ≡ true
unfolding dir_is_empty unused
emptied = refl
