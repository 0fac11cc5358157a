-- ===== src/Fs/Calls/Examples.antt =====
-- Calls in a small tree.
use linux.Base.{
  ℕ, ◌≡◌, refl, true, false, none, some, List, [], ◌∷◌, ◌++◌, Word, bit, any_bit, no_bits, ◌|||◌,
  arith,
}
use linux.Fs.Names.{slash, name_eq, padded, component, read_name, skip_slashes}
use linux.Fs.Directory.{find}
use linux.Fs.Permission.{permission, same_bits, class_shift}
use linux.Fs.Namei.{found, namei, start, walk}
use linux.Fs.Namei.Samples.{user, file, disk, idle, a, b}
use linux.Fs.Calls.Defs.{CallState, at_path, iput}
use linux.Fs.Calls.Open.{sys_open}
use linux.Fs.Calls.Checks.{Opens, sys_open-Opens, sys_open_unchecked}
use linux.Fs.Calls.Runs.{chdir, unlink, mknod, link, access, Call, run, Owned, run-Owned}

abbrev fresh_world : CallState
fresh_world = record {
  nodes = disk;
  counts = idle;
  root = none;
  pwd = none;
  freed = [];
  emptied = [];
  files = [];
}

abbrev path : List ℕ
path = slash ∷ a ++ slash ∷ b

abbrev some_calls : List Call
some_calls =
    chdir (slash ∷ a)
    ∷ unlink b
    ∷ mknod b no_bits (some 9) true
    ∷ link path (slash ∷ b) true
    ∷ access path (bit 2)
    ∷ []

idle_world : Owned idle fresh_world
idle_world k = omega arith

run-Owned_example : Owned idle (run user some_calls fresh_world)
run-Owned_example = run-Owned user idle some_calls fresh_world (λ k. omega arith) idle_world

sys_open-Opens_example :
    Opens user (bit 1) [] (sys_open user path (bit 1) no_bits none true true fresh_world)
sys_open-Opens_example = sys_open-Opens user path (bit 1) no_bits none true true fresh_world

-- The file that nobody may read or write is there.
file_found : (namei user disk none none path idle).0 ≡ found 4
unfolding namei start walk component read_name skip_slashes find name_eq padded permission same_bits
    class_shift
file_found = refl

abbrev both_bits : Word
both_bits = bit 0 ||| bit 1

sys_open_unchecked_example :
    ((sys_open user path both_bits no_bits none true true fresh_world).0 ≡ true)
    × ((sys_open user path both_bits no_bits none true true fresh_world).1.files
        ≡ (4, both_bits) ∷ [])
sys_open_unchecked_example =
    sys_open_unchecked user path both_bits no_bits none true fresh_world 4 file refl refl refl
      file_found refl

-- To read or write it is refused.
refused_alone : (sys_open user path (bit 1) no_bits none true true fresh_world).0 ≡ false
unfolding any_bit sys_open at_path iput namei start walk component read_name skip_slashes find
    name_eq padded permission same_bits class_shift
refused_alone = refl
