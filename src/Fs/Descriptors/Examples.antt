-- ===== src/Fs/Descriptors/Examples.antt =====
-- A task with the console on descriptors 0 to 2 and a file on 3.
use linux.Base.{ℕ, ◌+◌, ◌≡◌, refl, ◌&&◌, none, some, [], ◌∷◌, arith, ◌==◌, if◌then◌else◌, ltb}
use linux.Fs.Descriptors.Defs.{Descriptors, nr_open, sys_close}
use linux.Fs.Descriptors.Counts.{refs, Counted, sys_close_lem}

abbrev task : Descriptors
task = record {
  filp = (λ fd. if ltb fd 3 then some 0 else if fd == 3 then some 5 else none);
  file_table = (λ f. record {
    f_count =
        refs nr_open (λ fd. if ltb fd 3 then some 0 else if fd == 3 then some 5 else none) f
        + (if f == 0 then 6 else 0);
    has_inode = f == 5;
  });
  released = [];
}

-- Two other tasks have the console on three descriptors each.
abbrev elsewhere : ℕ → ℕ
elsewhere f = if f == 0 then 6 else 0

task-Counted : Counted elsewhere task
task-Counted = record { counts = λ f. refl; small = λ f. ground arith }

sys_close_lem_example :
    (s' : Descriptors) × (sys_close 3 task ≡ some s')
    × Counted elsewhere s'
    × (s'.filp 3 ≡ none)
    × (s'.released ≡ (
        if (task.file_table 5).f_count == 1 && (task.file_table 5).has_inode
        then 5 ∷ task.released
        else task.released))
sys_close_lem_example = sys_close_lem elsewhere 3 5 task task-Counted refl
