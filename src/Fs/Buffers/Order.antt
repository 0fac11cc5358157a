-- ===== src/Fs/Buffers/Order.antt =====
-- Which buffer getblk() takes next.
use linux.Base.{
  ℕ, ◌≡◌, ◌≢◌, refl, sym, ap, subst, ◌∙◌, inl, inr, true, false, some, List, [], ◌∷◌, ◌++◌, ◌==◌,
  Bool-cases, arith,
}
use native.Mathlib.Decide.{ℕ_discrete}
use linux.Fs.Bitmap.Truncate.{In}
use linux.Fs.Inodes.Content.{true-false}
use linux.Fs.Buffers.Defs.{
  Buffer, BufferCache, is_block, is_unused, one_fewer, first_in, without, moved_first, brelse,
  getblk,
}
use linux.Fs.Buffers.Cached.{IsValid, lookup, Nowhere}
use linux.Fs.Buffers.Ring.{brelse-Released}

head_of : (i : ℕ) (is : List ℕ) → In i is → (js : List ℕ) × (moved_first i is ≡ i ∷ js)
unfolding moved_first
head_of i [] h = absurd h
head_of i (f ∷ fs) h = elim (Bool-cases (i == f)) [
  | inl e ↦ (fs, rw e (let k : f ≡ i = ground arith in ap (λ a. a ∷ fs) k))
  | inr e ↦ (without i fs ++ (f ∷ []), rw e refl)
]

first_unused :
    (buf : ℕ → Buffer) (i : ℕ) (js : List ℕ)
    → is_unused (buf i) ≡ true
    → first_in is_unused buf (i ∷ js) ≡ some i
unfolding first_in
first_unused buf i js e = rw e refl

released_ring :
    (s : BufferCache) (i : ℕ) → (s.buf i).count ≡ 1 → (brelse i s).free ≡ moved_first i s.free
unfolding brelse
released_ring s i one = let e : (one_fewer (s.buf i)).count == 0 ≡ true = ground arith in rw e refl

-- The buffer whose last reference brelse() has just given back is the one that getblk() takes for
-- the next block that is not in the cache.
pub getblk-brelse :
    (dev : ℕ)
    → dev ≢ 0
    → (s : BufferCache) (i n : ℕ) → IsValid dev s
    → In i s.free
    → (s.buf i).count ≡ 1
    → Nowhere dev n s
    → (getblk dev n (brelse i s)).0 ≡ some i
unfolding getblk
getblk-brelse dev there s i n v in_ring one nowhere =
    let s' = brelse i s in
    let low = v.ring i in_ring in
    let r = brelse-Released dev there s i v low in
    let (js, ring) = head_of i s.free in_ring in
    let unused : is_unused (s'.buf i) ≡ true = rw (r.own) (ground arith) in
    let next : first_in is_unused s'.buf s'.free ≡ some i =
      ap (λ l. first_in is_unused s'.buf l) (released_ring s i one ∙ ring)
      ∙ first_unused s'.buf i js unused in
    elim (lookup dev there s' r.valid n) [
      | inl (e, _) ↦ rw (e, next) refl
      | inr (j, e, low', hit) ↦
          absurd (true-false hit (absent j (nowhere j low') (r.others j) r.own))
    ]
  where
    absent :
        (j : ℕ)
        → is_block dev n (s.buf j) ≡ false
        → (i ≢ j → (brelse i s).buf j ≡ s.buf j)
        → (brelse i s).buf i ≡ one_fewer (s.buf i)
        → is_block dev n ((brelse i s).buf j) ≡ false
    absent j miss others own = elim (ℕ_discrete i j) [
      | no d ↦ rw (others d) miss
      | yes e ↦
          subst (λ k. is_block dev n ((brelse i s).buf k) ≡ false) e
            (rw own (subst (λ k. is_block dev n (s.buf k) ≡ false) (sym e) miss))
    ]
