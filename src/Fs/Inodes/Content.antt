-- ===== src/Fs/Inodes/Content.antt =====
-- No change to an inode is lost when its slot is used again.
use linux.Base.{
  ℕ, zero, suc, ◌+◌, ◌≡◌, ◌≢◌, ◌⊎◌, ◌≤◌, ◌<◌, refl, sym, ap, subst, ◌∙◌, inl, inr, Bool, true,
  false, Option, none, some, Bool-cases, arith,
}
use native.Mathlib.Decide.{ℕ_discrete}
use linux.Fs.Inodes.Defs.{nr_inode, Body, Slot, Inodes, first_slot, is_inode}

-- What the system holds for an inode: the slot that has it, else the disk.
abbrev pub body_in : Option ℕ → ℕ → ℕ → Inodes → Body
body_in none dev nr s = s.disk dev nr
body_in (some i) dev nr s = (s.table i).body

abbrev pub content : Inodes → ℕ → ℕ → Body
content s dev nr = body_in (first_slot nr_inode 0 (is_inode dev nr) s.table) dev nr s

-- No two slots have the same inode, and a slot without changes has what the disk has.
pub record IsValid (s : Inodes) : Type 0 where
  pub single :
      (i j dev nr : ℕ)
      → i < nr_inode
      → j < nr_inode
      → dev ≢ 0
      → is_inode dev nr (s.table i) ≡ true
      → is_inode dev nr (s.table j) ≡ true
      → i ≡ j
  pub synced :
      (i : ℕ)
      → i < nr_inode
      → (s.table i).dev ≢ 0
      → (s.table i).dirt ≡ false
      → (s.table i).body ≡ s.disk (s.table i).dev (s.table i).num

-- The first slot that passes, or that none does.
abbrev pub Picked : (Slot → Bool) → (ℕ → Slot) → ℕ → ℕ → Option ℕ → Type 0
Picked test table k top none = (l : ℕ) → k ≤ l → l < top → test (table l) ≡ false
Picked test table k top (some i) = (i < top) × (test (table i) ≡ true)

pub first_slot-Picked :
    (n k : ℕ) (test : Slot → Bool) (table : ℕ → Slot)
    → Picked test table k (k + n) (first_slot n k test table)
unfolding first_slot
first_slot-Picked zero k test table = (λ l a b. absurd (omega arith))
first_slot-Picked (suc n) k test table = elim (Bool-cases (test (table k))) [
  | inl hit ↦ rw hit (omega arith, hit)
  | inr miss ↦ rw miss (
      shifted_by_one (first_slot n (suc k) test table) miss
        (first_slot-Picked n (suc k) test table))
]
  where
    shifted_by_one :
        (r : Option ℕ)
        → test (table k) ≡ false
        → Picked test table (suc k) (suc k + n) r
        → Picked test table k (k + suc n) r
    shifted_by_one none miss h = (λ l a b. elim (ℕ_discrete k l) [
      | yes e ↦ subst (λ i. test (table i) ≡ false) e miss
      | no d ↦ h l (omega arith) (omega arith)
    ])
    shifted_by_one (some i) miss h = ((let g = h.0 in omega arith), h.1)

pub picked :
    (test : Slot → Bool) (table : ℕ → Slot)
    → Picked test table 0 nr_inode (first_slot nr_inode 0 test table)
picked test table = first_slot-Picked nr_inode 0 test table

pub true-false : {b : Bool} → b ≡ true → b ≢ false
true-false e h = let bad : true ≡ false = sym e ∙ h in clash bad
  where
    clash : true ≢ false
    clash h = cc

-- Where a slot has the inode, the content is the slot's.
pub content-slot :
    (s : Inodes) (i dev nr : ℕ)
    → IsValid s
    → i < nr_inode
    → dev ≢ 0
    → is_inode dev nr (s.table i) ≡ true
    → content s dev nr ≡ (s.table i).body
content-slot s i dev nr v h d e =
    go (first_slot nr_inode 0 (is_inode dev nr) s.table) (picked (is_inode dev nr) s.table)
  where
    go :
        (r : Option ℕ)
        → Picked (is_inode dev nr) s.table 0 nr_inode r
        → body_in r dev nr s ≡ (s.table i).body
    go none p = absurd (true-false e (p i (omega arith) h))
    go (some j) p = ap (λ k. (s.table k).body) (v.single j i dev nr p.0 h d p.1 e)

abbrev pub Nowhere : ℕ → ℕ → (ℕ → Slot) → Type 0
Nowhere dev nr table = (i : ℕ) → i < nr_inode → is_inode dev nr (table i) ≡ false

-- Where no slot has it, the content is the disk's.
pub content-disk :
    (s : Inodes) (dev nr : ℕ) → Nowhere dev nr s.table → content s dev nr ≡ s.disk dev nr
content-disk s dev nr none_has =
    go (first_slot nr_inode 0 (is_inode dev nr) s.table) (picked (is_inode dev nr) s.table)
  where
    go :
        (r : Option ℕ)
        → Picked (is_inode dev nr) s.table 0 nr_inode r
        → body_in r dev nr s ≡ s.disk dev nr
    go none p = refl
    go (some j) p = absurd (true-false p.1 (none_has j p.0))

pub somewhere :
    (dev nr : ℕ) (table : ℕ → Slot)
    → ((i : ℕ) × (i < nr_inode) × (is_inode dev nr (table i) ≡ true)) ⊎ Nowhere dev nr table
somewhere dev nr table =
    go (first_slot nr_inode 0 (is_inode dev nr) table) (picked (is_inode dev nr) table)
  where
    go :
        (r : Option ℕ)
        → Picked (is_inode dev nr) table 0 nr_inode r
        → ((i : ℕ) × (i < nr_inode) × (is_inode dev nr (table i) ≡ true)) ⊎ Nowhere dev nr table
    go none p = inr (λ i h. p i (omega arith) h)
    go (some i) p = inl (i, p.0, p.1)

pub is_inode_parts :
    (dev nr : ℕ) (o : Slot) → is_inode dev nr o ≡ true → (o.dev ≡ dev) × (o.num ≡ nr)
is_inode_parts dev nr o e = (ground arith, ground arith)

pub is_inode_self : (o : Slot) → is_inode o.dev o.num o ≡ true
is_inode_self o = ground arith
