-- ===== src/Kernel/Fork/Shares.antt =====
-- What a fork does to the references.
use linux.Base.{
  ℕ, zero, suc, ◌+◌, ◌%◌, ◌^◌, ◌≡◌, ◌≢◌, refl, sym, ap, subst, inl, inr, Bool, true, false, not,
  ◌&&◌, Option, none, some, List, ◌∷◌, ◌==◌, if◌then◌else◌, update, update_self, Bool-cases, arith,
}
use native.Mathlib.Decide.{ℕ_discrete}
use linux.Fs.Descriptors.{nr_open}
use linux.Fs.Descriptors.Counts.{names, refs}
use linux.Kernel.Fork.Defs.{
  Process, World, is_free, Space, no_dir, not_copied, copied, hold_inode, drop_inode, hold_file,
  hold_files, share, give_up, address_space, fork_into, with_pg_dir,
}

hold_file_lem :
    (o : Option ℕ) (counts : ℕ → ℕ) (f : ℕ)
    → hold_file o counts f % 2 ^ 16 ≡ (counts f + names o f) % 2 ^ 16
hold_file_lem none counts f = omega arith
hold_file_lem (some g) counts f = elim (ℕ_discrete g f) [
  | yes e ↦
      subst (λ k. hold_file (some g) counts k % 2 ^ 16 ≡ (counts k + names (some g) k) % 2 ^ 16) e
        (ground arith)
  | no d ↦ ground arith
]

-- Every file gets a reference for each descriptor that names it.
pub hold_files_lem :
    (n : ℕ) (filp : ℕ → Option ℕ) (counts : ℕ → ℕ) (f : ℕ)
    → hold_files n filp counts f % 2 ^ 16 ≡ (counts f + refs n filp f) % 2 ^ 16
unfolding hold_files refs
hold_files_lem zero filp counts f = omega arith
hold_files_lem (suc n) filp counts f =
    let a = hold_file_lem (filp n) (hold_files n filp counts) f in
    let b = hold_files_lem n filp counts f in omega (arith, a, b)

hold_inode_lem :
    (o : Option ℕ) (counts : ℕ → ℕ) (k : ℕ)
    → hold_inode o counts k % 256 ≡ (counts k + names o k) % 256
hold_inode_lem none counts k = omega arith
hold_inode_lem (some g) counts k = elim (ℕ_discrete g k) [
  | yes e ↦
      subst (λ k. hold_inode (some g) counts k % 256 ≡ (counts k + names (some g) k) % 256) e
        (ground arith)
  | no d ↦ ground arith
]

drop_inode_lem :
    (o : Option ℕ) (counts : ℕ → ℕ) (k : ℕ)
    → (drop_inode o counts k + names o k) % 256 ≡ counts k % 256
drop_inode_lem none counts k = omega arith
drop_inode_lem (some g) counts k = elim (ℕ_discrete g k) [
  | yes e ↦
      subst (λ k. (drop_inode (some g) counts k + names (some g) k) % 256 ≡ counts k % 256) e
        (ground arith)
  | no d ↦ ground arith
]

-- How many of the three inodes of a task are inode `k`.
abbrev pub inode_refs : Process → ℕ → ℕ
inode_refs p k = names p.pwd k + names p.root k + names p.exe_inode k

abbrev pub succeeded : Option ℕ → Bool
succeeded none = false
succeeded (some pid) = true

-- What a fork of `p` leaves: the counts of files and of inodes, and the slot.
abbrev pub Leaves : Process → World → ℕ → Option ℕ × World → Type 0
Leaves p w nr r =
    ((f : ℕ) → r.1.f_count f % 2 ^ 16 ≡ (w.f_count f + refs nr_open p.filp f) % 2 ^ 16)
    × ((k : ℕ)
        → r.1.i_count k % 256
          ≡ (w.i_count k + (if succeeded r.0 then inode_refs p k else names p.exe_inode k)) % 256)
    × (succeeded r.0 ≡ not (is_free (r.1.table nr)))

module _ (p : Process) (w : World) (me nr page : ℕ) where
  held_inodes : (k : ℕ) → (share me nr p w).1.i_count k % 256 ≡ (w.i_count k + inode_refs p k) % 256
  unfolding share
  held_inodes k =
      let a = hold_inode_lem p.pwd w.i_count k in
      let b = hold_inode_lem p.root (hold_inode p.pwd w.i_count) k in
      let c = hold_inode_lem p.exe_inode (hold_inode p.root (hold_inode p.pwd w.i_count)) k in
      omega (arith, a, b, c)

  kept_inodes :
      (k : ℕ)
      → drop_inode p.root (drop_inode p.pwd (share me nr p w).1.i_count) k % 256
        ≡ (w.i_count k + names p.exe_inode k) % 256
  kept_inodes k =
      let counts = (share me nr p w).1.i_count in
      let a = drop_inode_lem p.pwd counts k in
      let b = drop_inode_lem p.root (drop_inode p.pwd counts) k in
      let c = held_inodes k in omega (arith, a, b, c)

  held_files :
      (f : ℕ)
      → (share me nr p w).1.f_count f % 2 ^ 16 ≡ (w.f_count f + refs nr_open p.filp f) % 2 ^ 16
  unfolding share
  held_files f = hold_files_lem nr_open p.filp w.f_count f

  gave_up :
      (dir : ℕ) (dirs : List ℕ)
      → Leaves p w nr (
        none,
        give_up page nr
            (record (share me nr p w).0 { pg_dir = dir })
            (record (share me nr p w).1 { freed_dirs = dirs }),
      )
  unfolding share give_up
  gave_up dir dirs = (
    held_files,
    kept_inodes,
    sym (
        ap (λ (o : Option Process). not (is_free o))
          (update_self (update w.table nr (some (share me nr p w).0)) nr none)),
  )

  went_on :
      (dir : ℕ)
      → Leaves p w nr (some nr, with_pg_dir nr dir (share me nr p w).0 (share me nr p w).1)
  unfolding share
  went_on dir = (
    held_files,
    held_inodes,
    sym (
        ap (λ (o : Option Process). not (is_free o))
          (update_self (update w.table nr (some (share me nr p w).0)) nr
            (some (record (share me nr p w).0 { pg_dir = dir })))),
  )

  -- From the copy of the parent on, a fork leaves each open file with one more reference for each
  -- descriptor of the parent that names it, whether it succeeds or fails. If it succeeds, it leaves
  -- each inode with one more reference for each of pwd, root and exe_inode that is it, and the slot
  -- taken; if it fails, only the one for exe_inode, and the slot free.
  pub fork_into_lem :
      (fits ring3 : Bool) (space : Space)
      → Leaves p w nr (fork_into fits ring3 space page me nr p w)
  unfolding fork_into address_space share
  fork_into_lem false ring3 space = gave_up p.pg_dir w.freed_dirs
  fork_into_lem true ring3 no_dir = elim (Bool-cases (not (p.pg_dir == 0) && ring3)) [
    | inl e ↦ rw e (gave_up 0 w.freed_dirs)
    | inr e ↦ rw e (went_on 0)
  ]
  fork_into_lem true ring3 (not_copied dir) = elim (Bool-cases (not (p.pg_dir == 0) && ring3)) [
    | inl e ↦ rw e (gave_up 0 (dir ∷ w.freed_dirs))
    | inr e ↦ rw e (went_on 0)
  ]
  fork_into_lem true ring3 (copied dir) = elim (Bool-cases (not (p.pg_dir == 0) && ring3)) [
    | inl e ↦ rw e (went_on dir)
    | inr e ↦ rw e (went_on 0)
  ]

  -- A fork that fails because the kernel stack of the parent does not fit the child's page frees the
  -- page directory of the parent, which goes on running in it.
  pub fork_frees_parent :
      (ring3 : Bool) (space : Space)
      → p.pg_dir ≢ 0
      → (fork_into false ring3 space page me nr p w).1.freed_dirs ≡ p.pg_dir ∷ w.freed_dirs
  unfolding fork_into share give_up
  fork_frees_parent ring3 space live =
      let e : p.pg_dir == 0 ≡ false = ground (arith, live) in rw e refl
