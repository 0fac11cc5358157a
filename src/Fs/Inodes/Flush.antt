-- ===== src/Fs/Inodes/Flush.antt =====
-- What write_inode() leaves of a table.
use linux.Base.{
  ℕ, ◌≡◌, ◌≢◌, ◌<◌, refl, sym, ap, subst, inl, inr, Bool, true, false, not, ◌||◌, ◌&&◌, ◌==◌,
  update_self, Bool-cases, ==_iff, arith,
}
use linux.Fs.Inodes.Defs.{nr_inode, Body, Slot, Inodes, is_inode, put_body, write_inode}
use linux.Fs.Inodes.Content.{IsValid, true-false}
use linux.Fs.Inodes.Relabel.{
  Writable, SameContent, relabelled-IsValid, content-relabelled, key_stays,
}

put_body_self : (dev nr : ℕ) (b : Body) (disk : ℕ → ℕ → Body) → put_body dev nr b disk dev nr ≡ b
put_body_self dev nr b disk =
    let e : dev == dev ≡ true = (==_iff dev dev).1 refl in
    let e' : nr == nr ≡ true = (==_iff nr nr).1 refl in rw (e, e') refl

put_body_other :
    (o : Slot) (d n : ℕ) (disk : ℕ → ℕ → Body)
    → is_inode d n o ≡ false
    → put_body o.dev o.num o.body disk d n ≡ disk d n
put_body_other o d n disk e = elim (Bool-cases ((d == o.dev) && (n == o.num))) [
  | inl hit ↦ absurd (true-false (turned o.dev o.num d n hit) e)
  | inr miss ↦ rw miss refl
]
  where
    turned : (a b d n : ℕ) → (d == a) && (n == b) ≡ true → (a == d) && (b == n) ≡ true
    turned a b d n h = ground arith

-- What write_inode() of slot `i` leaves: the slot's inode is on the disk, and nothing else changes.
pub record Flushed (s : Inodes) (i : ℕ) (s' : Inodes) : Type 0 where
  pub valid : IsValid s'
  pub same : SameContent s s'
  pub kept : (s'.table i).dev ≢ 0 → (s'.table i).body ≡ s'.disk (s'.table i).dev (s'.table i).num
  pub keys : (d n j : ℕ) → is_inode d n (s'.table j) ≡ is_inode d n (s.table j)
  pub others : (d n : ℕ) → is_inode d n (s.table i) ≡ false → s'.disk d n ≡ s.disk d n
  pub count : (s'.table i).count ≡ (s.table i).count
  pub readable : s'.readable ≡ s.readable

pub write_inode_lem :
    (s : Inodes) (i : ℕ) → IsValid s → Writable s → i < nr_inode → Flushed s i (write_inode i s)
unfolding write_inode
write_inode_lem s i v writable h =
    let o = s.table i in
    elim (Bool-cases ((o.dev == 0) || not o.dirt || not (s.readable o.dev o.num))) [
      | inl skip ↦ rw skip (record {
        valid = v;
        same = (λ d n nz. refl);
        kept = (λ nz. elim (Bool-cases o.dirt) [
          | inr clean ↦ v.synced i h nz clean
          | inl dirty ↦
              absurd
                (skipped o.dev o.dirt (s.readable o.dev o.num) nz dirty (writable i h dirty) skip)
        ]);
        keys = (λ d n j. refl);
        others = (λ d n e. refl);
        count = refl;
        readable = refl;
      })
      | inr go ↦
          let w : Slot = record o { dirt = false } in
          let disk = put_body o.dev o.num o.body s.disk in
          let stored : o.body ≡ disk o.dev o.num = sym (put_body_self o.dev o.num o.body s.disk) in
          let elsewhere : (d n : ℕ) → is_inode d n o ≡ false → disk d n ≡ s.disk d n =
            (λ d n e. put_body_other o d n s.disk e) in
          let self = update_self s.table i w in
          rw go (record {
            valid =
                relabelled-IsValid s i w disk v h (λ d n. refl) refl (λ nz clean. stored) elsewhere;
            same =
                content-relabelled s i w disk v h (λ d n. refl) refl (λ nz clean. stored) elsewhere;
            kept = (λ nz. subst (λ (x : Slot). x.body ≡ disk x.dev x.num) (sym self) stored);
            keys = key_stays s i w disk v h (λ d n. refl) refl (λ nz clean. stored) elsewhere;
            others = elsewhere;
            count = ap (λ (x : Slot). x.count) self;
            readable = refl;
          })
    ]
  where
    rest :
        (z dirt readable : Bool)
        → z ≢ true
        → dirt ≡ true
        → readable ≡ true
        → z || not dirt || not readable ≢ true
    rest true dirt readable nz d r e = nz refl
    rest false true true nz d r e = cc
    rest false false readable nz d r e = cc
    rest false true false nz d r e = cc

    skipped :
        (dev : ℕ) (dirt readable : Bool)
        → dev ≢ 0
        → dirt ≡ true
        → readable ≡ true
        → (dev == 0) || not dirt || not readable ≢ true
    skipped dev dirt readable nz d r e =
        rest (dev == 0) dirt readable (λ x. nz ((==_iff dev 0).0 x)) d r e
