-- ===== src/Fs/Calls/Runs.antt =====
-- Sequences of calls of one task.
use linux.Base.{
  ℕ, ◌+◌, ◌%◌, ◌≡◌, ◌≤◌, ◌<◌, refl, ap, inl, inr, Bool, Option, none, some, List, [], ◌∷◌, Word,
  Bool-cases, arith,
}
use linux.Kernel.Task.{Task}
use linux.Fs.Permission.{permission}
use linux.Fs.Namei.{Counts, is_dir, may_exec}
use linux.Fs.Calls.Defs.{
  CallState, Answer, iput, null_fails, drop_old, chdir_node, sys_chdir, chroot_node, sys_chroot,
  sys_chmod, sys_chown, sys_access, sys_utime, sys_stat,
}
use linux.Fs.Calls.Entries.{sys_mknod, sys_mkdir}
use linux.Fs.Calls.Unlink.{sys_unlink, sys_rmdir, sys_link}
use linux.Fs.Calls.Balance.{own, none_of, Bytes, Gives, iput-Gives, at_path_cases}
use linux.Fs.Calls.Returns.{
  sys_chmod-Gives, sys_chown-Gives, sys_access-Gives, sys_utime-Gives, sys_stat-Gives,
  sys_mknod-Gives,
}
use linux.Fs.Calls.Removals.{sys_mkdir-Gives, sys_unlink-Gives, sys_rmdir-Gives, sys_link-Gives}

-- The calls, with what new_inode(), new_block() and the growth of the directory give in each.
pub data Call : Type 0 where
  chmod : List ℕ → Word → Call
  chown : List ℕ → ℕ → ℕ → Call
  access : List ℕ → Word → Call
  utime stat chdir chroot unlink rmdir : List ℕ → Call
  mknod : List ℕ → Word → Option ℕ → Bool → Call
  mkdir : List ℕ → Word → Option ℕ → Bool → Bool → Call
  link : List ℕ → List ℕ → Bool → Call

unfoldable pub perform : Task → Call → CallState → Answer
perform t (chmod p mode) w = sys_chmod t p mode w
perform t (chown p uid gid) w = sys_chown t p uid gid w
perform t (access p mode) w = sys_access t p mode w
perform t (utime p) w = sys_utime t p w
perform t (stat p) w = sys_stat t p w
perform t (chdir p) w = sys_chdir t p w
perform t (chroot p) w = sys_chroot t p w
perform t (unlink p) w = sys_unlink t p w
perform t (rmdir p) w = sys_rmdir t p w
perform t (mknod p mode fresh room) w = sys_mknod t p mode fresh room w
perform t (mkdir p mode fresh zone room) w = sys_mkdir t p mode fresh zone room w
perform t (link p q room) w = sys_link t p q room w

unfoldable pub run : Task → List Call → CallState → CallState
run t [] w = w
run t (c ∷ cs) w = run t cs (perform t c w).1

abbrev pub refs : Option ℕ → ℕ → ℕ
refs none k = 0
refs (some nr) k = own nr k

-- Each inode has one reference for each of pwd and root that is it, and those of `others`.
abbrev pub Owned : (ℕ → ℕ) → CallState → Type 0
Owned others w = (k : ℕ) → w.counts k ≡ others k + refs w.pwd k + refs w.root k

-- The others have at most 250 references to an inode: with those of the task and the at most three
-- that a call takes for a while, i_count never exceeds 255.
abbrev pub Few : (ℕ → ℕ) → Type 0
Few others = (k : ℕ) → others k ≤ 250

refs-le : (o : Option ℕ) (k : ℕ) → refs o k ≤ 1
refs-le none k = omega arith
refs-le (some nr) k = ground arith

Owned-Bytes : (others : ℕ → ℕ) (w : CallState) → Few others → Owned others w → Bytes w
Owned-Bytes others w few h k =
    let e = h k in
    let b = few k in let p = refs-le w.pwd k in let r = refs-le w.root k in omega arith

Gives-Owned :
    (others : ℕ → ℕ) (w w' : CallState) → Owned others w → Gives none_of w w' → Owned others w'
Gives-Owned others w w' h g k =
    let c = g.counts k in
    let e = h k in
    let p = ap (λ o. refs o k) g.same_pwd in let r = ap (λ o. refs o k) g.same_root in omega arith

module _ (t : Task) (path : List ℕ) (others : ℕ → ℕ) (w : CallState) (few : Few others)
    (h : Owned others w) where
  bytes : Bytes w
  bytes = Owned-Bytes others w few h

  same_counts :
      (counts : Counts)
      → ((k : ℕ) → w.counts k < 256 → counts k ≡ w.counts k)
      → Owned others (record w { counts = counts })
  same_counts counts e k = let c = e k (bytes k) in let g = h k in omega arith

  given_back :
      (nr : ℕ) (counts : Counts)
      → ((k : ℕ) → w.counts k < 256 → counts k ≡ (w.counts k + own nr k) % 256)
      → Owned others (iput nr (record w { counts = counts }))
  given_back nr counts e =
      let w' : CallState = record w { counts = counts } in
      let g = iput-Gives nr w' (λ k. let c = e k (bytes k) in omega arith) in
      (λ k.
        let c = e k (bytes k) in
        let c' = g.counts k in
        let b = bytes k in
        let q = h k in
        let p = ap (λ o. refs o k) g.same_pwd in
        let r = ap (λ o. refs o k) g.same_root in omega arith)

  -- The old inode goes, the new one stays.
  old_dropped :
      (old : Option ℕ) (nr : ℕ) (counts : Counts)
      → ((k : ℕ) → w.counts k < 256 → counts k ≡ (w.counts k + own nr k) % 256)
      → (k : ℕ)
      → ((drop_old old (record w { counts = counts })).counts k + refs old k) % 256
          ≡ (w.counts k + own nr k) % 256
        × ((drop_old old (record w { counts = counts })).counts k < 256)
  old_dropped none nr counts e k = let c = e k (bytes k) in omega arith
  old_dropped (some o) nr counts e k =
      let w' : CallState = record w { counts = counts } in
      let g = iput-Gives o w' (λ j. let c = e j (bytes j) in omega arith) in
      let c = g.counts k in let c' = e k (bytes k) in omega arith

  same_root_after :
      (old : Option ℕ) (w' : CallState)
      → Bytes w'
      → ((drop_old old w').root ≡ w'.root) × ((drop_old old w').pwd ≡ w'.pwd)
  same_root_after none w' has = (refl, refl)
  same_root_after (some o) w' has = let g = iput-Gives o w' has in (g.same_root, g.same_pwd)

  sys_chdir-Owned : Owned others (sys_chdir t path w).1
  unfolding sys_chdir
  sys_chdir-Owned =
      at_path_cases t path w null_fails (chdir_node t) (λ r. Owned others r.1) same_counts
        (λ nr n counts here e. elim (Bool-cases (is_dir n)) [
          | inr d ↦ rw d (given_back nr counts e)
          | inl d ↦ elim (Bool-cases (permission t n.inode may_exec)) [
            | inr p ↦ rw (d, p) (given_back nr counts e)
            | inl p ↦
                let w' : CallState = record w { counts = counts } in
                let kept = same_root_after w.pwd w' (λ k. let c = e k (bytes k) in omega arith) in
                rw (d, p)
                  (λ k.
                    let c = old_dropped w.pwd nr counts e k in
                    let b = few k in
                    let p = refs-le w.root k in
                    let n = refs-le (some nr) k in
                    let o = refs-le w.pwd k in
                    let g = h k in let r = ap (λ o. refs o k) kept.0 in omega arith)
          ]
        ])
        given_back

  sys_chroot-Owned : Owned others (sys_chroot t path w).1
  unfolding sys_chroot
  sys_chroot-Owned =
      at_path_cases t path w null_fails chroot_node (λ r. Owned others r.1) same_counts
        (λ nr n counts here e. elim (Bool-cases (is_dir n)) [
          | inr d ↦ rw d (given_back nr counts e)
          | inl d ↦
              let w' : CallState = record w { counts = counts } in
              let kept = same_root_after w.root w' (λ k. let c = e k (bytes k) in omega arith) in
              rw d (λ k.
                let c = old_dropped w.root nr counts e k in
                let b = few k in
                let p = refs-le w.pwd k in
                let n = refs-le (some nr) k in
                let o = refs-le w.root k in
                let g = h k in let r = ap (λ o. refs o k) kept.1 in omega arith)
        ])
        given_back

perform-Owned :
    (t : Task) (others : ℕ → ℕ) (c : Call) (w : CallState)
    → Few others
    → Owned others w
    → Owned others (perform t c w).1
unfolding perform
perform-Owned t others (chmod p mode) w few h =
    Gives-Owned others w _ h (sys_chmod-Gives t p w (Owned-Bytes others w few h) mode)
perform-Owned t others (chown p uid gid) w few h =
    Gives-Owned others w _ h (sys_chown-Gives t p w (Owned-Bytes others w few h) uid gid)
perform-Owned t others (access p mode) w few h =
    Gives-Owned others w _ h (sys_access-Gives t p w (Owned-Bytes others w few h) mode)
perform-Owned t others (utime p) w few h =
    Gives-Owned others w _ h (sys_utime-Gives t p w (Owned-Bytes others w few h))
perform-Owned t others (stat p) w few h =
    Gives-Owned others w _ h (sys_stat-Gives t p w (Owned-Bytes others w few h))
perform-Owned t others (chdir p) w few h = sys_chdir-Owned t p others w few h
perform-Owned t others (chroot p) w few h = sys_chroot-Owned t p others w few h
perform-Owned t others (unlink p) w few h =
    Gives-Owned others w _ h (sys_unlink-Gives t p w (Owned-Bytes others w few h))
perform-Owned t others (rmdir p) w few h =
    Gives-Owned others w _ h (sys_rmdir-Gives t p w (Owned-Bytes others w few h))
perform-Owned t others (mknod p mode fresh room) w few h =
    Gives-Owned others w _ h (sys_mknod-Gives t p w (Owned-Bytes others w few h) mode fresh room)
perform-Owned t others (mkdir p mode fresh zone room) w few h =
    Gives-Owned others w _ h
      (sys_mkdir-Gives t p w (Owned-Bytes others w few h) mode fresh zone room)
perform-Owned t others (link p q room) w few h =
    Gives-Owned others w _ h (sys_link-Gives t p w (Owned-Bytes others w few h) q room)

-- Whatever calls of these a task makes, and whether they succeed or fail: every inode keeps one
-- reference for each of pwd and root that is it, and those that others hold, if these are at most
-- 250 for each inode, as i_count is a byte.
pub run-Owned :
    (t : Task) (others : ℕ → ℕ) (cs : List Call) (w : CallState)
    → Few others
    → Owned others w
    → Owned others (run t cs w)
unfolding run
run-Owned t others [] w few h = h
run-Owned t others (c ∷ cs) w few h =
    run-Owned t others cs (perform t c w).1 few (perform-Owned t others c w few h)
