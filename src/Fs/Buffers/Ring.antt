-- ===== src/Fs/Buffers/Ring.antt =====
-- brelse() gives a buffer back, and the order of the ring says nothing of the blocks.
use linux.Base.{
  ℕ, ◌≡◌, ◌≢◌, ◌⊎◌, ◌<◌, refl, subst, ◌∙◌, inl, inr, true, false, Option, none, some, List, [], ◌∷◌,
  ◌++◌, ◌==◌, update_self, update_ne, Bool-cases,
}
use native.Mathlib.Decide.{ℕ_discrete}
use linux.Fs.Bitmap.Truncate.{In}
use linux.Fs.Buffers.Defs.{
  nr_buffers, Buffer, BufferCache, chain_index, first_in, put_buffer, is_block, one_fewer, without,
  moved_first, brelse,
}
use linux.Fs.Buffers.Cached.{IsValid, bytes_in, content}
use linux.Fs.Buffers.Change.{changed-IsValid, content-changed}
use linux.Fs.Buffers.Chains.{without-In, In-without}
use linux.Fs.Buffers.Getblk.{SameContent}

append-In : (j : ℕ) (xs ys : List ℕ) → In j (xs ++ ys) → In j xs ⊎ In j ys
append-In j [] ys h = inr h
append-In j (x ∷ xs) ys (inl e) = inl (inl e)
append-In j (x ∷ xs) ys (inr h) = elim (append-In j xs ys h) [ inl k ↦ inl (inr k) | inr k ↦ inr k ]

In-append_right : (j : ℕ) (xs ys : List ℕ) → In j ys → In j (xs ++ ys)
In-append_right j [] ys h = h
In-append_right j (x ∷ xs) ys h = inr (In-append_right j xs ys h)

In-append_left : (j : ℕ) (xs ys : List ℕ) → In j xs → In j (xs ++ ys)
In-append_left j [] ys h = absurd h
In-append_left j (x ∷ xs) ys (inl e) = inl e
In-append_left j (x ∷ xs) ys (inr h) = inr (In-append_left j xs ys h)

-- The ring keeps its members.
pub In-moved_first : (i j : ℕ) (is : List ℕ) → In j is → In j (moved_first i is)
unfolding moved_first
In-moved_first i j [] h = absurd h
In-moved_first i j (f ∷ fs) h = elim (Bool-cases (i == f)) [
  | inl e ↦ rw e h
  | inr e ↦ rw e (elim (ℕ_discrete i j) [ yes k ↦ inl k | no d ↦ inr (go d h) ])
]
  where
    go : i ≢ j → (f ≡ j) ⊎ In j fs → In j (without i fs ++ (f ∷ []))
    go d (inl k) = In-append_right j (without i fs) (f ∷ []) (inl k)
    go d (inr k) = In-append_left j (without i fs) (f ∷ []) (In-without i j fs d k)

moved_first-In : (i j : ℕ) (is : List ℕ) → In j (moved_first i is) → (i ≡ j) ⊎ In j is
unfolding moved_first
moved_first-In i j [] = (λ h. absurd h)
moved_first-In i j (f ∷ fs) = elim (Bool-cases (i == f)) [
  | inl e ↦ rw e (λ h. inr h)
  | inr e ↦ rw e go
]
  where
    go : (i ≡ j) ⊎ In j (without i fs ++ (f ∷ [])) → (i ≡ j) ⊎ In j (f ∷ fs)
    go (inl k) = inl k
    go (inr h) = elim (append-In j (without i fs) (f ∷ []) h) [
      | inl k ↦ inr (inr (without-In i j fs k))
      | inr (inl k) ↦ inr (inl k)
      | inr (inr k) ↦ absurd k
    ]

module _ (dev : ℕ) (there : dev ≢ 0) where
  pub reringed-IsValid :
      (s : BufferCache) (free : List ℕ)
      → IsValid dev s
      → ((j : ℕ) → In j free → j < nr_buffers)
      → IsValid dev (record s { free = free })
  reringed-IsValid s free v h = record {
    ring = h;
    chained = v.chained;
    found = v.found;
    single = v.single;
    one_dev = v.one_dev;
    unused_clean = v.unused_clean;
    dirty_fresh = v.dirty_fresh;
    synced = v.synced;
  }

  pub content-reringed :
      (s : BufferCache) (free : List ℕ) (n : ℕ)
      → content dev (record s { free = free }) n ≡ content dev s n
  unfolding content
  content-reringed s free n = go (first_in (is_block dev n) s.buf (s.chain (chain_index dev n)))
    where
      go : (r : Option ℕ) → bytes_in r n (record s { free = free }) ≡ bytes_in r n s
      go none = refl
      go (some i) = refl

  -- What brelse() leaves: a reference less, and the ring in another order.
  pub record Released (s : BufferCache) (i : ℕ) (s' : BufferCache) : Type 0 where
    pub valid : IsValid dev s'
    pub same : SameContent dev s s'
    pub own : s'.buf i ≡ one_fewer (s.buf i)
    pub others : (j : ℕ) → i ≢ j → s'.buf j ≡ s.buf j
    pub members : (j : ℕ) → In j s.free → In j s'.free
    pub same_disk : s'.disk ≡ s.disk

  pub brelse-Released :
      (s : BufferCache) (i : ℕ) → IsValid dev s → i < nr_buffers → Released s i (brelse i s)
  unfolding brelse
  brelse-Released s i v low = elim (Bool-cases (w.count == 0)) [
    | inr more ↦ rw more (record {
      valid = valid1;
      same = same1;
      own = update_self s.buf i w;
      others = (λ j d. update_ne s.buf i j w d);
      members = (λ j h. h);
      same_disk = refl;
    })
    | inl last ↦ rw last (record {
      valid = reringed-IsValid s1 (moved_first i s.free) valid1 (λ j h.
          elim (moved_first-In i j s.free h) [
            | inl e ↦ subst (λ k. k < nr_buffers) e low
            | inr k ↦ v.ring j k
          ]);
      same = (λ n. content-reringed s1 (moved_first i s.free) n ∙ same1 n);
      own = update_self s.buf i w;
      others = (λ j d. update_ne s.buf i j w d);
      members = (λ j h. In-moved_first i j s.free h);
      same_disk = refl;
    })
  ]
    where
      w : Buffer
      w = one_fewer (s.buf i)

      s1 : BufferCache
      s1 = put_buffer i w s

      synced : w.dev ≢ 0 → w.uptodate ≡ true → w.dirt ≡ false → w.bytes ≡ s.disk.blocks w.num
      synced a b c = v.synced i low a b c

      valid1 : IsValid dev s1
      valid1 =
          changed-IsValid dev there s i w s.disk.blocks v low refl refl (λ m e. refl)
            (v.dirty_fresh i low) synced (v.unused_clean i low)

      same1 : SameContent dev s s1
      same1 =
          content-changed dev there s i w s.disk.blocks v low refl refl (λ m e. refl)
            (v.dirty_fresh i low) synced (v.unused_clean i low) (λ m hit. refl)
