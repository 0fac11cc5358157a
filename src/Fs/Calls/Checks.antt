-- ===== src/Fs/Calls/Checks.antt =====
-- What sys_open() has asked permission() for.
use linux.Base.{
  ℕ, ◌≡◌, ◌⊎◌, ◌≤◌, ◌<◌, refl, ap, subst, ◌∙◌, inl, inr, Bool, true, false, not, ◌&&◌, Option, none,
  some, List, ◌∷◌, ◌==◌, if◌then◌else◌, Word, bit, update_self, any_bit, any_bit_intro,
  any_bit_clear, Bool-cases, Option-cases, arith,
}
use linux.Kernel.Task.{Task}
use linux.Fs.Names.{split_path}
use linux.Fs.Directory.{Entries, find, dir_add_entry}
use linux.Fs.Permission.{Inode, permission, permission_lem, Granted, Granted-bit}
use linux.Fs.Namei.{Node, found, namei, is_dir, put}
use linux.Fs.Calls.Defs.{
  links_of, free_node, CallState, Answer, set_node, take_node, iput, at_inode, at_path, may_write,
}
use linux.Fs.Calls.Entries.{in_parent, at_parts, writable_dir, nothing, new_node}
use linux.Fs.Calls.Balance.{at_path_cases}
use linux.Fs.Calls.Open.{
  o_creat, o_trunc, reads_only, asks_writing, open_mask, open_checked, new_file, created, create_at,
  not_found, sys_open,
}

-- Root, or the bit of the class that holds for the task
abbrev pub Allowed : Task → Inode → ℕ → Type 0
Allowed t inode b = (t.euid ≡ 0) ⊎ Granted t inode (bit b)

-- Reading, writing and emptying are allowed, where the flags ask for them.
abbrev pub Checked : Task → Word → Inode → Type 0
Checked t flag inode =
    (reads_only flag ≡ true → Allowed t inode 2)
    × (asks_writing flag ≡ true → Allowed t inode 1)
    × (flag o_trunc ≡ true → Allowed t inode 1)

-- No file is opened, or one of an inode `nr`, whose mode as it stands was checked.
abbrev pub Opens : Task → Word → List (ℕ × Word) → Answer → Type 0
Opens t flag files r =
    ((r.0 ≡ false) × (r.1.files ≡ files))
    ⊎ ((nr : ℕ) × (n : Node) × (r.0 ≡ true)
        × (r.1.files ≡ (nr, flag) ∷ files)
        × (r.1.nodes nr ≡ some n)
        × Checked t flag n.inode)

iput-files : (nr : ℕ) (w : CallState) → (iput nr w).files ≡ w.files
unfolding iput
iput-files nr w = elim (Bool-cases ((put w.counts nr nr == 0) && links_of (w.nodes nr) == 0)) [
  | inl e ↦ rw e refl
  | inr e ↦ rw e refl
]

iput-nodes : (nr : ℕ) (w : CallState) → (iput nr w).nodes ≡ w.nodes
unfolding iput
iput-nodes nr w = elim (Bool-cases ((put w.counts nr nr == 0) && links_of (w.nodes nr) == 0)) [
  | inl e ↦ rw e refl
  | inr e ↦ rw e refl
]

asked :
    (t : Task) (inode : Inode) (mask : Word) (b : ℕ)
    → b < 3
    → ((k : ℕ) → 3 ≤ k → mask k ≡ false)
    → mask b ≡ true
    → any_bit 32 mask && not (permission t inode mask) ≡ false
    → Allowed t inode b
asked t inode mask b low narrow set passed =
    let some_bit = any_bit_intro 32 b mask (omega arith) set in
    let granted : permission t inode mask ≡ true = ground arith in
    elim ((permission_lem t inode mask narrow).0 granted).1 [
      | inl root ↦ inl root
      | inr all ↦ inr (Granted-bit t inode mask b set all)
    ]

open_mask_narrow : (flag : Word) (k : ℕ) → 3 ≤ k → open_mask flag k ≡ false
open_mask_narrow flag k h = ground arith

pub open_checked-Opens :
    (t : Task) (flag : Word) (slot : Bool) (nr : ℕ) (n : Node) (w : CallState)
    → w.nodes nr ≡ some n
    → Opens t flag w.files (open_checked t flag slot nr n w)
open_checked-Opens t flag slot nr n w at =
    elim (Bool-cases (any_bit 32 (open_mask flag) && not (permission t n.inode (open_mask flag)))) [
      | inl e ↦ rw e (inl (refl, iput-files nr w))
      | inr e ↦ elim (Bool-cases slot) [
        | inr s ↦ rw (e, s) (inl (refl, iput-files nr w))
        | inl s ↦
            rw (e, s)
              (inr (
                nr,
                n,
                refl,
                refl,
                truncated_at (flag o_trunc && not (is_dir n)),
                (
                  (λ r.
                      asked t n.inode (open_mask flag) 2 (omega arith) (open_mask_narrow flag)
                        (ground arith) e),
                  (λ r.
                      asked t n.inode (open_mask flag) 1 (omega arith) (open_mask_narrow flag)
                        (ground arith) e),
                  (λ r.
                      asked t n.inode (open_mask flag) 1 (omega arith) (open_mask_narrow flag)
                        (ground arith) e),
                ),
              ))
      ]
    ]
  where
    truncated_at :
        (b : Bool) → (if b then record w { emptied = nr ∷ w.emptied } else w).nodes nr ≡ some n
    truncated_at true = at
    truncated_at false = at

refused :
    (t : Task) (flag : Word) (files : List (ℕ × Word)) (w : CallState)
    → w.files ≡ files
    → Opens t flag files (false, w)
refused t flag files w e = inl (refl, e)

checked_later :
    (t : Task) (flag : Word) (slot : Bool) (nr : ℕ) (n : Node) (w : CallState)
    (files : List (ℕ × Word))
    → w.files ≡ files
    → w.nodes nr ≡ some n
    → Opens t flag files (open_checked t flag slot nr n w)
checked_later t flag slot nr n w files e at =
    subst (λ l. Opens t flag l (open_checked t flag slot nr n w)) e
      (open_checked-Opens t flag slot nr n w at)

module _ (t : Task) (path : List ℕ) (flag mode : Word) (fresh : Option ℕ) (room slot : Bool) where
  create_at-Opens :
      (name : List ℕ) (nr : ℕ) (dir : Node) (w : CallState)
      → Opens t flag w.files (create_at t flag mode fresh room slot name nr dir w)
  create_at-Opens name nr dir w = elim (Option-cases (find dir.entries name)) [
    | inr (ino, e) ↦ elim (Option-cases (w.nodes ino)) [
      | inl f ↦ rw (create_at, e, f) (refused t flag w.files (iput nr w) (iput-files nr w))
      | inr (n, f) ↦
          rw (create_at, e, f)
            (checked_later t flag slot ino n (iput nr (take_node ino w)) w.files
              (iput-files nr (take_node ino w))
              (ap (λ g. g ino) (iput-nodes nr (take_node ino w)) ∙ f))
    ]
    | inl e ↦ elim (Option-cases fresh) [
      | inl f ↦ rw (create_at, e, f) (refused t flag w.files (iput nr w) (iput-files nr w))
      | inr (ino, f) ↦ rw (create_at, e, f) (made ino (dir_add_entry name ino room dir.entries))
    ]
  ]
    where
      made :
          (ino : ℕ) (r : Option Entries)
          → Opens t flag w.files
              (created t flag mode slot ino nr dir (new_node ino (dir.inode.dev) w) r)
      made ino none =
          let w1 = set_node ino (new_file t mode dir) (new_node ino (dir.inode.dev) w) in
          refused t flag w.files (iput nr (iput ino (free_node ino w1)))
            (iput-files nr (iput ino (free_node ino w1)) ∙ iput-files ino (free_node ino w1))
      made ino (some es) =
          let n = new_file t mode dir in
          let w1 =
            set_node ino n
              (set_node nr (record dir { entries = es }) (new_node ino (dir.inode.dev) w)) in
          checked_later t flag slot ino n (iput nr w1) w.files (iput-files nr w1) (
            ap (λ g. g ino) (iput-nodes nr w1)
            ∙ update_self
                (set_node nr (record dir { entries = es }) (new_node ino (dir.inode.dev) w)).nodes
                ino (some n))

  not_found-Opens :
      (w : CallState) → Opens t flag w.files (not_found t path flag mode fresh room slot w)
  unfolding in_parent
  not_found-Opens w = elim (Bool-cases (flag o_creat)) [
    | inr e ↦ rw e (refused t flag w.files w refl)
    | inl e ↦ rw e (go (split_path path))
  ]
    where
      body : List ℕ → ℕ → Node → CallState → Answer
      body = create_at t flag mode fresh room slot

      in_dir :
          (name : List ℕ) (nr : ℕ) (dir : Node) (w1 : CallState)
          → Opens t flag w1.files (writable_dir t nothing (body name) nr dir w1)
      in_dir name nr dir w1 = elim (Bool-cases (is_dir dir)) [
        | inr d ↦ rw d (refused t flag w1.files (iput nr w1) (iput-files nr w1))
        | inl d ↦ elim (Bool-cases (permission t dir.inode may_write)) [
          | inr p ↦ rw (d, p) (refused t flag w1.files (iput nr w1) (iput-files nr w1))
          | inl p ↦ rw (d, p) (create_at-Opens name nr dir w1)
        ]
      ]

      go :
          (parts : Option (List ℕ × List ℕ))
          → Opens t flag w.files (at_parts t nothing body w parts)
      go none = refused t flag w.files w refl
      go (some (dirpath, name)) =
          at_path_cases t dirpath w (λ w'. (false, w')) (writable_dir t nothing (body name))
            (λ r. Opens t flag w.files r)
            (λ counts e. refused t flag w.files (record w { counts = counts }) refl)
            (λ nr n counts here e. in_dir name nr n (record w { counts = counts }))
            (λ nr counts e.
              refused t flag w.files (iput nr (record w { counts = counts }))
                (iput-files nr (record w { counts = counts })))

  -- sys_open() opens no file, or one of an inode of which the task may read the contents if it asks
  -- for reading alone, and write them if it asks for writing alone, for both or for O_TRUNC: it is
  -- root, or the bit is set in the mode that this inode has, in the class of the task.
  pub sys_open-Opens :
      (w : CallState) → Opens t flag w.files (sys_open t path flag mode fresh room slot w)
  unfolding sys_open
  sys_open-Opens w =
      at_path_cases t path w (not_found t path flag mode fresh room slot) (open_checked t flag slot)
        (λ r. Opens t flag w.files r) (λ counts e. not_found-Opens (record w { counts = counts }))
        (λ nr n counts here e.
          open_checked-Opens t flag slot nr n (record w { counts = counts }) here)
        (λ nr counts e.
          subst
            (λ l.
              Opens t flag l (
                not_found t path flag mode fresh room slot
                  (iput nr (record w { counts = counts }))))
            (iput-files nr (record w { counts = counts }))
            (not_found-Opens (iput nr (record w { counts = counts }))))

-- With both bits of the access mode set and no O_TRUNC, nothing is checked: every file that namei()
-- finds is opened, if file_table[] has room.
pub sys_open_unchecked :
    (t : Task) (path : List ℕ) (flag mode : Word) (fresh : Option ℕ) (room : Bool) (w : CallState)
    (nr : ℕ) (n : Node)
    → flag 0 ≡ true
    → flag 1 ≡ true
    → flag o_trunc ≡ false
    → (namei t w.nodes w.root w.pwd path w.counts).0 ≡ found nr
    → w.nodes nr ≡ some n
    → ((sys_open t path flag mode fresh room true w).0 ≡ true)
      × ((sys_open t path flag mode fresh room true w).1.files ≡ (nr, flag) ∷ w.files)
unfolding sys_open at_path
sys_open_unchecked t path flag mode fresh room w nr n f0 f1 f9 e k =
    let none_asked : any_bit 32 (open_mask flag) ≡ false =
      any_bit_clear 32 (open_mask flag) (λ j. rw (f0, f1, f9) refl) in
    rw (e, at_inode, k, none_asked) (refl, refl)
