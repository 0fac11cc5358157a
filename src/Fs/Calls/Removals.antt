-- ===== src/Fs/Calls/Removals.antt =====
-- The same for the calls that make and remove directories, links and files.
use linux.Base.{
  ℕ, ◌≡◌, refl, inl, inr, Bool, false, Option, none, some, List, ◌==◌, Word, Bool-cases,
  Option-cases, arith,
}
use linux.Kernel.Task.{Task}
use linux.Fs.Names.{split_path}
use linux.Fs.Directory.{Entries, find, dir_add_entry, dir_remove_entry, dir_is_empty}
use linux.Fs.Namei.{Node, is_dir}
use linux.Fs.Calls.Defs.{CallState, Answer, iput, take_node, set_node}
use linux.Fs.Calls.Entries.{
  in_parent, new_node, made_dir, mkdir_at, sys_mkdir, new_dir, fewer_links, nothing,
}
use linux.Fs.Calls.Unlink.{
  is_dots, fail_both, removed_file, unlink_inode, entry_inode, unless_dots, sys_unlink, removed_dir,
  rmdir_inode, sys_rmdir, link_at, link_inode, sys_link,
}
use linux.Fs.Calls.Balance.{
  own, both, none_of, Bytes, Gives, twice-Gives, at_path-Gives, in_parent-Gives,
}
use linux.Fs.Calls.Returns.{
  same-Gives, once-Gives, One, fail-One, pair-One, inode_first, dir_first, dir_call,
}

made_dir-One :
    (ino nr : ℕ) (n dir : Node) (w : CallState) (r : Option Entries)
    → Bytes w
    → One nr w (made_dir ino nr dir (set_node ino n (new_node ino (dir.inode.dev) w)) r)
made_dir-One ino nr n dir w none h =
    pair-One nr ino nr ino w _ (inode_first nr ino) refl refl refl h
made_dir-One ino nr n dir w (some es) h =
    pair-One ino nr nr ino w _ (dir_first nr ino) refl refl refl h

fail_both-One :
    (ino nr : ℕ) (w : CallState) → Bytes w → One nr w (fail_both ino nr (take_node ino w))
fail_both-One ino nr w h = pair-One nr ino nr ino w _ (inode_first nr ino) refl refl refl h

removed_file-One :
    (ino : ℕ) (n : Node) (nr : ℕ) (dir : Node) (w : CallState) (r : Option Entries)
    → Bytes w
    → One nr w (removed_file ino n nr dir (take_node ino w) r)
removed_file-One ino n nr dir w none h = fail_both-One ino nr w h
removed_file-One ino n nr dir w (some es) h =
    elim (Bool-cases ((fewer_links (n.inode)).nlinks == 0)) [
      | inl e ↦ rw e (pair-One nr ino nr ino w _ (inode_first nr ino) refl refl refl h)
      | inr e ↦ rw e (pair-One nr ino nr ino w _ (inode_first nr ino) refl refl refl h)
    ]

removed_dir-One :
    (ino : ℕ) (n : Node) (nr : ℕ) (dir : Node) (w : CallState) (r : Option Entries)
    → Bytes w
    → One nr w (removed_dir ino n nr dir (take_node ino w) r)
removed_dir-One ino n nr dir w none h = fail_both-One ino nr w h
removed_dir-One ino n nr dir w (some es) h =
    pair-One nr ino nr ino w _ (inode_first nr ino) refl refl refl h

module _ (t : Task) (path : List ℕ) (w : CallState) (bytes : Bytes w) where
  pub sys_mkdir-Gives :
      (mode : Word) (fresh : Option ℕ) (zone room : Bool)
      → Gives none_of w (sys_mkdir t path mode fresh zone room w).1
  unfolding sys_mkdir
  sys_mkdir-Gives mode fresh zone room =
      dir_call t path w bytes (mkdir_at t mode fresh zone room) (λ name nr dir w' h.
        elim (Option-cases (find dir.entries name)) [
          | inr (ino, e) ↦ rw (mkdir_at, e) (fail-One nr w' h)
          | inl e ↦ elim (Option-cases fresh) [
            | inl f ↦ rw (mkdir_at, e, f) (fail-One nr w' h)
            | inr (ino, f) ↦ elim (Bool-cases zone) [
              | inr z ↦
                  rw (mkdir_at, e, f, z)
                    (pair-One nr ino nr ino w' _ (inode_first nr ino) refl refl refl h)
              | inl z ↦
                  rw (mkdir_at, e, f, z)
                    (made_dir-One ino nr (new_dir t mode ino nr dir) dir w'
                      (dir_add_entry name ino room dir.entries) h)
            ]
          ]
        ])

  entry_call :
      (body : List ℕ → ℕ → Node → ℕ → Node → CallState → Answer)
      → ((name : List ℕ) (ino : ℕ) (n : Node) (nr : ℕ) (dir : Node) (w' : CallState)
          → Bytes w'
          → One nr w' (body name ino n nr dir (take_node ino w')))
      → Gives none_of w
          (unless_dots (split_path path) w (in_parent t path nothing (entry_inode body) w)).1
  entry_call body bodies = go (split_path path)
    where
      whole : Gives none_of w (in_parent t path nothing (entry_inode body) w).1
      whole = dir_call t path w bytes (entry_inode body) (λ name nr dir w' h.
          elim (Option-cases (find dir.entries name)) [
            | inl e ↦ rw (entry_inode, e) (fail-One nr w' h)
            | inr (ino, e) ↦ elim (Option-cases (w'.nodes ino)) [
              | inl f ↦ rw (entry_inode, e, f) (fail-One nr w' h)
              | inr (n, f) ↦ rw (entry_inode, e, f) (bodies name ino n nr dir w' h)
            ]
          ])

      go :
          (parts : Option (List ℕ × List ℕ))
          → Gives none_of w (unless_dots parts w (in_parent t path nothing (entry_inode body) w)).1
      go none = whole
      go (some (dirpath, name)) = elim (Bool-cases (is_dots name)) [
        | inl e ↦ rw e (same-Gives w w refl refl refl bytes)
        | inr e ↦ rw e whole
      ]

  pub sys_unlink-Gives : Gives none_of w (sys_unlink t path w).1
  unfolding sys_unlink
  sys_unlink-Gives = entry_call unlink_inode (λ name ino n nr dir w' h.
      elim (Bool-cases (is_dir n)) [
        | inl e ↦ rw (unlink_inode, e) (fail_both-One ino nr w' h)
        | inr e ↦
            rw (unlink_inode, e)
              (removed_file-One ino n nr dir w' (dir_remove_entry name dir.entries) h)
      ])

  pub sys_rmdir-Gives : Gives none_of w (sys_rmdir t path w).1
  unfolding sys_rmdir
  sys_rmdir-Gives = entry_call rmdir_inode (λ name ino n nr dir w' h. elim (Bool-cases (is_dir n)) [
    | inr e ↦ rw (rmdir_inode, e) (fail_both-One ino nr w' h)
    | inl e ↦ elim (Bool-cases (dir_is_empty n.entries)) [
      | inr f ↦ rw (rmdir_inode, e, f) (fail_both-One ino nr w' h)
      | inl f ↦
          rw (rmdir_inode, e, f)
            (removed_dir-One ino n nr dir w' (dir_remove_entry name dir.entries) h)
    ]
  ])

  pub sys_link-Gives :
      (newpath : List ℕ) (room : Bool) → Gives none_of w (sys_link t path newpath room w).1
  unfolding sys_link
  sys_link-Gives newpath room =
      at_path-Gives t path none_of w (λ w'. (false, w')) (link_inode t newpath room)
        (λ w' h. same-Gives w' w' refl refl refl h)
        (λ old n w' h. elim (Bool-cases (is_dir n)) [
          | inl e ↦ rw (link_inode, e) (fail-One old w' h)
          | inr e ↦
              rw (link_inode, e)
                (in_parent-Gives t newpath (both (own old) none_of) (iput old) (link_at old n room)
                  (λ w1 g. once-Gives old (both (own old) none_of) w1 w1 refl refl refl (one old) g)
                  (λ name nr dir w1 g. at_new old n room name nr dir w1 g) w' h)
        ])
        bytes
    where
      one : (nr k : ℕ) → both (own nr) none_of k ≡ own nr k
      one nr k = omega arith

      regroup :
          (nr old : ℕ) (w1 w2 : CallState)
          → Gives (both (own nr) (own old)) w1 w2
          → Gives (both (own nr) (both (own old) none_of)) w1 w2
      regroup nr old w1 w2 g = record {
        counts = (λ k. let c = g.counts k in omega arith);
        same_pwd = g.same_pwd;
        same_root = g.same_root;
      }

      at_new :
          (old : ℕ) (n : Node) (room : Bool) (name : List ℕ) (nr : ℕ) (dir : Node) (w1 : CallState)
          → Bytes w1
          → Gives (both (own nr) (both (own old) none_of)) w1 (link_at old n room name nr dir w1).1
      at_new old n room name nr dir w1 g = elim (Option-cases (find dir.entries name)) [
        | inr (ino, e) ↦
            rw (link_at, e) (regroup nr old w1 _ (twice-Gives nr old w1 w1 refl refl refl g))
        | inl e ↦ elim (Option-cases (dir_add_entry name old room dir.entries)) [
          | inl f ↦
              rw (link_at, e, f) (regroup nr old w1 _ (twice-Gives nr old w1 w1 refl refl refl g))
          | inr (es, f) ↦
              rw (link_at, e, f) (regroup nr old w1 _ (twice-Gives nr old w1 _ refl refl refl g))
        ]
      ]
