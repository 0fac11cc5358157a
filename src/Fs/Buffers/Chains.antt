-- ===== src/Fs/Buffers/Chains.antt =====
-- The hash chains when a buffer moves from one to another.
use linux.Base.{
  ℕ, ◌≡◌, ◌≢◌, ◌⊎◌, refl, sym, subst, inl, inr, false, List, [], ◌∷◌, ◌==◌, update, update_self,
  each, Bool-cases, arith,
}
use linux.Fs.Bitmap.Truncate.{In}
use linux.Fs.Buffers.Defs.{BufferCache, chain_index, without, rechained}

pub In-without : (i j : ℕ) (js : List ℕ) → i ≢ j → In j js → In j (without i js)
unfolding without
In-without i j [] d h = absurd h
In-without i j (k ∷ ks) d (inl e) = let t : i == k ≡ false = ground (arith, d, e) in rw t (inl e)
In-without i j (k ∷ ks) d (inr h) = elim (Bool-cases (i == k)) [
  | inl t ↦ rw t (In-without i j ks d h)
  | inr t ↦ rw t (inr (In-without i j ks d h))
]

pub without-In : (i j : ℕ) (js : List ℕ) → In j (without i js) → In j js
unfolding without
without-In i j [] = (λ h. absurd h)
without-In i j (k ∷ ks) = elim (Bool-cases (i == k)) [
  | inl t ↦ rw t (λ h. inr (without-In i j ks h))
  | inr t ↦ rw t (go (without-In i j ks))
]
  where
    go : (In j (without i ks) → In j ks) → (k ≡ j) ⊎ In j (without i ks) → (k ≡ j) ⊎ In j ks
    go f (inl e) = inl e
    go f (inr h) = inr (f h)

module _ (dev n : ℕ) (i : ℕ) (s : BufferCache) where
  unchained : ℕ → List ℕ
  unchained =
      update s.chain (chain_index (s.buf i).dev (s.buf i).num)
        (without i (s.chain (chain_index (s.buf i).dev (s.buf i).num)))

  In-unchained : (h j : ℕ) → i ≢ j → In j (s.chain h) → In j (unchained h)
  unfolding unchained
  In-unchained h j d =
      each (λ h x. In j (s.chain h) → In j x) s.chain (chain_index (s.buf i).dev (s.buf i).num)
        (without i (s.chain (chain_index (s.buf i).dev (s.buf i).num)))
        (In-without i j (s.chain (chain_index (s.buf i).dev (s.buf i).num)) d) (λ h other k. k) h

  unchained-In : (h j : ℕ) → In j (unchained h) → In j (s.chain h)
  unfolding unchained
  unchained-In h j =
      each (λ h x. In j x → In j (s.chain h)) s.chain (chain_index (s.buf i).dev (s.buf i).num)
        (without i (s.chain (chain_index (s.buf i).dev (s.buf i).num)))
        (without-In i j (s.chain (chain_index (s.buf i).dev (s.buf i).num))) (λ h other k. k) h

  pub In-rechained : (h j : ℕ) → i ≢ j → In j (s.chain h) → In j (rechained dev n i s h)
  unfolding unchained
  In-rechained h j d there =
      each (λ h x. In j (unchained h) → In j x) unchained (chain_index dev n)
        (i ∷ unchained (chain_index dev n)) (λ k. inr k) (λ h other k. k) h
        (In-unchained h j d there)

  pub rechained-In : (h j : ℕ) → In j (rechained dev n i s h) → (i ≡ j) ⊎ In j (s.chain h)
  unfolding unchained
  rechained-In h j =
      each (λ h x. In j x → (i ≡ j) ⊎ In j (s.chain h)) unchained (chain_index dev n)
        (i ∷ unchained (chain_index dev n)) (λ k. go k) (λ h other k. inr (unchained-In h j k)) h
    where
      go :
          (i ≡ j) ⊎ In j (unchained (chain_index dev n))
          → (i ≡ j) ⊎ In j (s.chain (chain_index dev n))
      go (inl e) = inl e
      go (inr k) = inr (unchained-In (chain_index dev n) j k)

  pub at_head : In i (rechained dev n i s (chain_index dev n))
  unfolding unchained
  at_head =
      subst (λ x. In i x)
        (sym (update_self unchained (chain_index dev n) (i ∷ unchained (chain_index dev n))))
        (inl refl)
