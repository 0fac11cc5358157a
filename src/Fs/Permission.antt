-- ===== src/Fs/Permission.antt =====
-- permission() of fs/namei.c, and what it grants.
use linux.Base.{
  ℕ, ◌≡◌, ◌≢◌, ◌↔◌, ◌⊎◌, ◌<◌, ◌≤◌, ◌+◌, refl, sym, ◌∙◌, inl, inr, zero, suc, Bool, true, false, not,
  ◌&&◌, ◌==◌, ltb, if◌then◌else◌, Word, bit, ◌&&&◌, Bool-cases, ==_iff, arith, subst,
}
use native.Mathlib.Decide.{ℕ_discrete}
use linux.Kernel.Task.{Task}

-- The fields of struct m_inode that decide.
pub record Inode : Type 0 where
  pub mode : Word
  pub uid : ℕ
  pub gid : ℕ
  pub dev : ℕ
  pub nlinks : ℕ

-- w >> n
abbrev pub shifted : ℕ → Word → Word
shifted n w k = w (k + n)

-- 7
abbrev pub low_three : Word
low_three k = ltb k 3

-- Are the lowest `n` bits the same?
unfoldable pub same_bits : ℕ → Word → Word → Bool
same_bits zero a b = true
same_bits (suc n) a b = same_bits n a b && (if a n then b n else not (b n))

abbrev pub suser : Task → Bool
suser t = t.euid == 0

-- How far `mode` is shifted.
unfoldable pub class_shift : Task → Inode → ℕ
class_shift t inode = if t.euid == inode.uid then 6 else if t.egid == inode.gid then 3 else 0

unfoldable pub permission : Task → Inode → Word → Bool
unfolding class_shift same_bits
permission t inode mask =
    if not (inode.dev == 0) && inode.nlinks == 0
    then false
    else if same_bits 32 (shifted (class_shift t inode) inode.mode &&& mask &&& low_three) mask
    then true
    else suser t

same_bits_iff : (n : ℕ) (a b : Word) → (same_bits n a b ≡ true) ↔ ((k : ℕ) → k < n → a k ≡ b k)
unfolding same_bits
same_bits_iff zero a b = ((λ e k h. absurd (omega arith)), (λ h. refl))
same_bits_iff (suc n) a b = (
  (λ e k h.
      let (rest, last) = both (same_bits n a b) (a n) (b n) e in
      elim (ℕ_discrete k n) [
        | yes same ↦ rw same last
        | no other ↦ (same_bits_iff n a b).0 rest k (omega arith)
      ]),
  (λ h.
      let rest = (same_bits_iff n a b).1 (λ k l. h k (omega arith)) in
      rw (rest, h n (omega arith)) (agree (b n))),
)
  where
    both : (r x y : Bool) → r && (if x then y else not y) ≡ true → (r ≡ true) × (x ≡ y)
    both true true true e = (refl, refl)
    both true false false e = (refl, refl)
    both true true false e = absurd (cc)
    both true false true e = absurd (cc)
    both false x y e = absurd (cc)

    agree : (y : Bool) → (if y then y else not y) ≡ true
    agree true = refl
    agree false = refl

-- Every bit of the mask is set in the bits of the mode from bit `low` on.
abbrev pub SetFrom : ℕ → Inode → Word → Type 0
SetFrom low inode mask = (k : ℕ) → mask k ≡ true → inode.mode (k + low) ≡ true

-- The owner has the bits from 6 on, another member of the group those from 3 on, and all others
-- those from 0 on.
abbrev pub Granted : Task → Inode → Word → Type 0
Granted t inode mask =
    ((t.euid ≡ inode.uid) × SetFrom 6 inode mask)
    ⊎ ((t.euid ≢ inode.uid) × (t.egid ≡ inode.gid) × SetFrom 3 inode mask)
    ⊎ ((t.euid ≢ inode.uid) × (t.egid ≢ inode.gid) × SetFrom 0 inode mask)

-- What is granted for a mask is granted for each bit of it.
pub Granted-bit :
    (t : Task) (inode : Inode) (mask : Word) (b : ℕ)
    → mask b ≡ true
    → Granted t inode mask
    → Granted t inode (bit b)
Granted-bit t inode mask b set g = elim g [
  | inl (u, h) ↦ inl (u, narrow 6 h)
  | inr r ↦ elim r [
    | inl (u, k, h) ↦ inr (inl (u, k, narrow 3 h))
    | inr (u, k, h) ↦ inr (inr (u, k, narrow 0 h))
  ]
]
  where
    narrow : (low : ℕ) → SetFrom low inode mask → SetFrom low inode (bit b)
    narrow low h k e =
        let same : b ≡ k = ground arith in subst (λ j. inode.mode (j + low) ≡ true) same (h b set)

-- The shift that the code computes is that of the class.
class_shift_iff :
    (t : Task) (inode : Inode) (mask : Word)
    → SetFrom (class_shift t inode) inode mask ↔ Granted t inode mask
unfolding class_shift
class_shift_iff t inode mask = elim (ℕ_discrete t.euid inode.uid) [
  | yes u ↦
      let own : t.euid == inode.uid ≡ true = (==_iff t.euid inode.uid).1 u in
      rw own (
        (λ h. inl (u, h)),
        (λ g. elim g [
          | inl (_, h) ↦ h
          | inr (inl (d, _, _)) ↦ absurd (d u)
          | inr (inr (d, _, _)) ↦ absurd (d u)
        ]),
      )
  | no d ↦
      let other : t.euid == inode.uid ≡ false = ground arith in
      elim (ℕ_discrete t.egid inode.gid) [
        | yes k ↦
            let member : t.egid == inode.gid ≡ true = (==_iff t.egid inode.gid).1 k in
            rw (other, member)
              (
                (λ h. inr (inl (d, k, h))),
                (λ g. elim g [
                  | inl (u, _) ↦ absurd (d u)
                  | inr (inl (_, _, h)) ↦ h
                  | inr (inr (_, e, _)) ↦ absurd (e k)
                ]),
              )
        | no e ↦
            let stranger : t.egid == inode.gid ≡ false = ground arith in
            rw (other, stranger)
              (
                (λ h. inr (inr (d, e, h))),
                (λ g. elim g [
                  | inl (u, _) ↦ absurd (d u)
                  | inr (inl (_, k, _)) ↦ absurd (e k)
                  | inr (inr (_, _, h)) ↦ h
                ]),
              )
      ]
]

granted_iff :
    (mode mask : Word)
    → ((k : ℕ) → 3 ≤ k → mask k ≡ false)
    → (same_bits 32 (mode &&& mask &&& low_three) mask ≡ true)
      ↔ ((k : ℕ) → mask k ≡ true → mode k ≡ true)
granted_iff mode mask narrow = (
  (λ e k set. elim (Bool-cases (ltb k 3)) [
    | inl in_class ↦
        let same = (same_bits_iff 32 (mode &&& mask &&& low_three) mask).0 e k (ground arith) in
        first (mode k) (mask k) (ltb k 3) (same ∙ set)
    | inr above ↦ absurd (cc_false (sym set ∙ narrow k (ground arith)))
  ]),
  (λ h. (same_bits_iff 32 (mode &&& mask &&& low_three) mask).1 (λ k l. elim (Bool-cases (mask k)) [
    | inl set ↦ elim (Bool-cases (ltb k 3)) [
      | inl in_class ↦ rw (set, h k set, in_class) refl
      | inr above ↦ absurd (cc_false (sym set ∙ narrow k (ground arith)))
    ]
    | inr clear ↦ rw clear (last (mode k) (ltb k 3))
  ])),
)
  where
    first : (a b c : Bool) → a && b && c ≡ true → a ≡ true
    first true b c e = refl
    first false b c e = absurd (cc)

    last : (a c : Bool) → a && false && c ≡ false
    last true c = refl
    last false c = refl

    cc_false : true ≢ false
    cc_false h = cc

decided :
    (u s r : Bool)
    → ((if u then false else if s then true else r) ≡ true)
      ↔ ((u ≡ false) × ((r ≡ true) ⊎ (s ≡ true)))
decided true s r = ((λ e. absurd (cc)), (λ h. absurd (cc)))
decided false true r = ((λ e. (refl, inr refl)), (λ h. refl))
decided false false true = ((λ e. (refl, inl refl)), (λ h. refl))
decided false false false = ((λ e. absurd (cc)), (λ h. elim h.1 [ inl e ↦ e | inr e ↦ e ]))

linked_iff : (dev links : ℕ) → (not (dev == 0) && links == 0 ≡ false) ↔ ((dev ≡ 0) ⊎ (links ≢ 0))
linked_iff dev links = (
  (λ e. elim (ℕ_discrete dev 0) [
    | yes zero_dev ↦ inl zero_dev
    | no other ↦ inr (λ h. ground arith)
  ]),
  (λ h. ground arith),
)

-- For a mask of bits below 3, permission() is granted exactly if the inode is not unlinked (it has a
-- link, or no device, as a pipe has none) and either the effective user is root or all bits of the
-- mask are set in one class of the mode: in bits 6 to 8 if the effective user owns the inode, else
-- in bits 3 to 5 if the effective group is that of the inode, else in bits 0 to 2.
pub permission_lem :
    (t : Task) (inode : Inode) (mask : Word)
    → ((k : ℕ) → 3 ≤ k → mask k ≡ false)
    → (permission t inode mask ≡ true)
      ↔ (((inode.dev ≡ 0) ⊎ (inode.nlinks ≢ 0)) × ((t.euid ≡ 0) ⊎ Granted t inode mask))
unfolding permission
permission_lem t inode mask narrow =
    let shown = shifted (class_shift t inode) inode.mode in
    let mine = granted_iff shown mask narrow in
    let split =
      decided (not (inode.dev == 0) && inode.nlinks == 0)
        (same_bits 32 (shown &&& mask &&& low_three) mask) (suser t) in
    (
      (λ e.
          let (linked, right) = split.0 e in
          (
            (linked_iff inode.dev inode.nlinks).0 linked,
            elim right [
              | inl root ↦ inl ((==_iff t.euid 0).0 root)
              | inr bits ↦ inr ((class_shift_iff t inode mask).0 (mine.0 bits))
            ],
          )),
      (λ h. split.1 ((linked_iff inode.dev inode.nlinks).1 h.0, choose h.1)),
    )
  where
    choose :
        (t.euid ≡ 0) ⊎ Granted t inode mask
        → (suser t ≡ true)
          ⊎ (same_bits 32 (shifted (class_shift t inode) inode.mode &&& mask &&& low_three) mask
              ≡ true)
    choose (inl root) = inl ((==_iff t.euid 0).1 root)
    choose (inr g) = inr (
        (granted_iff (shifted (class_shift t inode) inode.mode) mask narrow).1
          ((class_shift_iff t inode mask).1 g))
