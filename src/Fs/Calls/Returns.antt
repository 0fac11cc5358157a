-- ===== src/Fs/Calls/Returns.antt =====
-- Every call but sys_chdir() and sys_chroot() gives back what it takes.
use linux.Base.{
  ℕ, ◌+◌, ◌≡◌, refl, ap, ◌∙◌, inl, inr, Bool, true, ◌||◌, Option, none, some, List, ◌==◌, Word,
  Bool-cases, Option-cases, arith,
}
use linux.Kernel.Task.{Task}
use linux.Fs.Directory.{Entries, find, dir_add_entry}
use linux.Fs.Permission.{permission, suser}
use linux.Fs.Namei.{Node, Counts}
use linux.Fs.Calls.Defs.{
  CallState, Answer, iput, fail, take_node, may_write, owns, chmod_node, sys_chmod, chown_node,
  sys_chown, access_node, sys_access, utime_node, sys_utime, sys_stat, null_fails,
}
use linux.Fs.Calls.Entries.{in_parent, new_node, made_entry, mknod_at, sys_mknod, nothing}
use linux.Fs.Calls.Balance.{
  own, both, none_of, Bytes, Gives, iput-Gives, twice-Gives, taken-Gives, Bytes-taken,
  at_path-Gives, in_parent-Gives,
}

pub same-Gives :
    (w w' : CallState)
    → w'.counts ≡ w.counts
    → w'.pwd ≡ w.pwd
    → w'.root ≡ w.root
    → Bytes w
    → Gives none_of w w'
same-Gives w w' e p r h = record {
  counts = (λ k. let b = h k in let q = ap (λ (f : Counts). f k) e in omega arith);
  same_pwd = p;
  same_root = r;
}

-- One inode given back, from a state with the same counts.
pub once-Gives :
    (nr : ℕ) (d : ℕ → ℕ) (w w0 : CallState)
    → w0.counts ≡ w.counts
    → w0.pwd ≡ w.pwd
    → w0.root ≡ w.root
    → ((k : ℕ) → d k ≡ own nr k)
    → Bytes w
    → Gives d w (iput nr w0)
once-Gives nr d w w0 e p r same h =
    let g =
      iput-Gives nr w0
        (λ k. let q = h k in let c = ap (λ (f : Counts). f k) e in let o = same k in omega arith) in
    record {
      counts = (λ k.
          let c = g.counts k in
          let q = ap (λ (f : Counts). f k) e in let o = same k in omega arith);
      same_pwd = g.same_pwd ∙ p;
      same_root = g.same_root ∙ r;
    }

only : (nr k : ℕ) → both (own nr) none_of k ≡ own nr k
only nr k = omega arith

-- What a body that gives back its one inode needs.
abbrev pub One : ℕ → CallState → Answer → Type 0
One nr w r = Gives (both (own nr) none_of) w r.1

pub fail-One : (nr : ℕ) (w : CallState) → Bytes w → One nr w (fail nr w)
fail-One nr w h = once-Gives nr (both (own nr) none_of) w w refl refl refl (only nr) h

null-One : (w : CallState) → Bytes w → Gives none_of w (null_fails w).1
null-One w h = same-Gives w w refl refl refl h

module _ (t : Task) (path : List ℕ) (w : CallState) (bytes : Bytes w) where
  pub sys_chmod-Gives : (mode : Word) → Gives none_of w (sys_chmod t path mode w).1
  unfolding sys_chmod
  sys_chmod-Gives mode =
      at_path-Gives t path none_of w null_fails (chmod_node t mode) null-One
        (λ nr n w' h. elim (Bool-cases (owns t n)) [
          | inl e ↦ rw e (once-Gives nr (both (own nr) none_of) w' _ refl refl refl (only nr) h)
          | inr e ↦ rw e (fail-One nr w' h)
        ])
        bytes

  pub sys_chown-Gives : (uid gid : ℕ) → Gives none_of w (sys_chown t path uid gid w).1
  unfolding sys_chown
  sys_chown-Gives uid gid =
      at_path-Gives t path none_of w null_fails (chown_node t uid gid) null-One
        (λ nr n w' h. elim (Bool-cases (suser t)) [
          | inl e ↦ rw e (once-Gives nr (both (own nr) none_of) w' _ refl refl refl (only nr) h)
          | inr e ↦ rw e (fail-One nr w' h)
        ])
        bytes

  pub sys_access-Gives : (mode : Word) → Gives none_of w (sys_access t path mode w).1
  unfolding sys_access
  sys_access-Gives mode =
      at_path-Gives t path none_of w null_fails (access_node t mode) null-One
        (λ nr n w' h. fail-One nr w' h) bytes

  pub sys_utime-Gives : Gives none_of w (sys_utime t path w).1
  unfolding sys_utime
  sys_utime-Gives =
      at_path-Gives t path none_of w null_fails (utime_node t) null-One
        (λ nr n w' h.
          elim (Bool-cases ((t.euid == n.inode.uid) || permission t n.inode may_write)) [
            | inl e ↦ rw e (fail-One nr w' h)
            | inr e ↦ rw e (fail-One nr w' h)
          ])
        bytes

  pub sys_stat-Gives : Gives none_of w (sys_stat t path w).1
  unfolding sys_stat
  sys_stat-Gives =
      at_path-Gives t path none_of w null_fails (λ nr n w'. (true, iput nr w')) null-One
        (λ nr n w' h. fail-One nr w' h) bytes

-- A directory and an inode given back, where the inode was taken in the call.
pub pair-One :
    (a b nr ino : ℕ) (w w0 : CallState)
    → ((k : ℕ) → own a k + own b k ≡ own ino k + own nr k)
    → w0.counts ≡ (take_node ino w).counts
    → w0.pwd ≡ w.pwd
    → w0.root ≡ w.root
    → Bytes w
    → Gives (both (own nr) none_of) w (iput a (iput b w0))
pair-One a b nr ino w w0 same e p r h =
    let has : Bytes (take_node ino w) = Bytes-taken ino w h in
    let g = twice-Gives a b (take_node ino w) w0 e p r has in
    taken-Gives ino (both (own nr) none_of) w (iput a (iput b w0)) h (record {
      counts = (λ k. let c = g.counts k in let s = same k in omega arith);
      same_pwd = g.same_pwd;
      same_root = g.same_root;
    })

pub inode_first : (nr ino k : ℕ) → own nr k + own ino k ≡ own ino k + own nr k
inode_first nr ino k = omega arith

pub dir_first : (nr ino k : ℕ) → own ino k + own nr k ≡ own ino k + own nr k
dir_first nr ino k = refl

module _ (t : Task) (path : List ℕ) (w : CallState) (bytes : Bytes w) where
  abbrev pub ForAll : Type 0
  ForAll = List ℕ → ℕ → Node → CallState → Answer

  pub dir_call :
      (body : ForAll)
      → ((name : List ℕ) (nr : ℕ) (dir : Node) (w' : CallState)
          → Bytes w'
          → One nr w' (body name nr dir w'))
      → Gives none_of w (in_parent t path nothing body w).1
  dir_call body bodies =
      in_parent-Gives t path none_of nothing body (λ w' h. same-Gives w' w' refl refl refl h) bodies
        w bytes

  made_entry-One :
      (mode : Word) (ino nr : ℕ) (dir : Node) (w' : CallState) (r : Option Entries)
      → Bytes w'
      → One nr w' (made_entry t mode ino nr dir (new_node ino (dir.inode.dev) w') r)
  made_entry-One mode ino nr dir w' none h =
      pair-One nr ino nr ino w' _ (inode_first nr ino) refl refl refl h
  made_entry-One mode ino nr dir w' (some es) h =
      pair-One ino nr nr ino w' _ (dir_first nr ino) refl refl refl h

  pub sys_mknod-Gives :
      (mode : Word) (fresh : Option ℕ) (room : Bool)
      → Gives none_of w (sys_mknod t path mode fresh room w).1
  unfolding sys_mknod
  sys_mknod-Gives mode fresh room = dir_call (mknod_at t mode fresh room) (λ name nr dir w' h.
      elim (Option-cases (find dir.entries name)) [
        | inr (ino, e) ↦ rw (mknod_at, e) (fail-One nr w' h)
        | inl e ↦ elim (Option-cases fresh) [
          | inl f ↦ rw (mknod_at, e, f) (fail-One nr w' h)
          | inr (ino, f) ↦
              rw (mknod_at, e, f)
                (made_entry-One mode ino nr dir w' (dir_add_entry name ino room dir.entries) h)
        ]
      ])
