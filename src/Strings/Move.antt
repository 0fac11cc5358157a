-- ===== src/Strings/Move.antt =====
-- What the block functions leave in memory.
use linux.Base.{
  ℕ, zero, suc, ◌+◌, ◌≤◌, ◌<◌, ◌≡◌, ◌≢◌, refl, sym, subst, ◌∙◌, ◌⊎◌, inl, inr, true, false, some,
  arith, ltb, ◌==◌, update, update_self, update_ne, Bool-cases,
}
use native.Mathlib.Decide.{ℕ_discrete}
use linux.Strings.Defs.{
  Bytes, memcpy, copy_back, memmove, strlen, isupper, islower, tolower, toupper,
}

memcpy_out : (n d s a : ℕ) (m : Bytes) → (a < d) ⊎ (d + n ≤ a) → memcpy n d s m a ≡ m a
unfolding memcpy
memcpy_out zero d s a m h = refl
memcpy_out (suc n) d s a m h =
    memcpy_out n (d + 1) (s + 1) a (update m d (m s)) (omega arith)
    ∙ update_ne m d a (m s) (λ e. absurd (omega (arith, e)))

-- Forward copying is right if the target does not start inside the source.
memcpy_in : (n d s j : ℕ) (m : Bytes) → d ≤ s → j < n → memcpy n d s m (d + j) ≡ m (s + j)
unfolding memcpy
memcpy_in zero d s j m h l = absurd (omega arith)
memcpy_in (suc n) d s zero m h l =
    let a : d + zero ≡ d = omega arith in
    let b : s + zero ≡ s = omega arith in
    rw (a, b)
      (memcpy_out n (d + 1) (s + 1) d (update m d (m s)) (inl (omega arith))
        ∙ update_self m d (m s))
memcpy_in (suc n) d s (suc j) m h l =
    let a : d + suc j ≡ d + 1 + j = omega arith in
    let b : s + suc j ≡ s + 1 + j = omega arith in
    rw (a, b)
      (memcpy_in n (d + 1) (s + 1) j (update m d (m s)) (omega arith) (omega arith)
        ∙ update_ne m d (s + 1 + j) (m s) (λ e. absurd (omega (arith, e))))

copy_back_out : (n d s a : ℕ) (m : Bytes) → (a < d) ⊎ (d + n ≤ a) → copy_back n d s m a ≡ m a
unfolding copy_back
copy_back_out zero d s a m h = refl
copy_back_out (suc n) d s a m h =
    copy_back_out n d s a (update m (d + n) (m (s + n))) (omega arith)
    ∙ update_ne m (d + n) a (m (s + n)) (λ e. absurd (omega (arith, e)))

copy_back_in : (n d s j : ℕ) (m : Bytes) → s ≤ d → j < n → copy_back n d s m (d + j) ≡ m (s + j)
unfolding copy_back
copy_back_in zero d s j m h l = absurd (omega arith)
copy_back_in (suc n) d s j m h l = elim (ℕ_discrete j n) [
  | yes e ↦ rw e (
      copy_back_out n d s (d + n) (update m (d + n) (m (s + n))) (inr (omega arith))
      ∙ update_self m (d + n) (m (s + n)))
  | no q ↦
      copy_back_in n d s j (update m (d + n) (m (s + n))) h (omega arith)
      ∙ update_ne m (d + n) (s + j) (m (s + n)) (λ e. absurd (omega (arith, e, q)))
]

-- memmove() copies a block as it was before the call, however source and target overlap, and changes
-- no byte outside the target.
pub memmove_lem :
    (d s n : ℕ) (m : Bytes)
    → ((j : ℕ) → j < n → memmove d s n m (d + j) ≡ m (s + j))
      × ((a : ℕ) → (a < d) ⊎ (d + n ≤ a) → memmove d s n m a ≡ m a)
unfolding memmove
memmove_lem d s n m = elim (Bool-cases (ltb d s)) [
  | inl b ↦ rw b (λ j l. memcpy_in n d s j m (ground arith) l, λ a h. memcpy_out n d s a m h)
  | inr b ↦ rw b (λ j l. copy_back_in n d s j m (ground arith) l, λ a h. copy_back_out n d s a m h)
]

-- strlen() of a string whose first zero byte is at offset `k` is `k`, on fuel above `k`.
pub strlen_lem :
    (fuel k s : ℕ) (m : Bytes)
    → k < fuel
    → m (s + k) ≡ 0
    → ((j : ℕ) → j < k → m (s + j) ≢ 0)
    → strlen fuel s m ≡ some k
unfolding strlen
strlen_lem zero k s m l z h = absurd (omega arith)
strlen_lem (suc fuel) zero s m l z h =
    let a : s + zero ≡ s = omega arith in
    let b : (m s == 0) ≡ true = ground (arith, subst (λ x. m x ≡ 0) a z) in rw b refl
strlen_lem (suc fuel) (suc k) s m l z h =
    let a : s + suc k ≡ s + 1 + k = omega arith in
    let r = strlen_lem fuel k (s + 1) m (omega arith) (subst (λ x. m x ≡ 0) a z) (λ j q e.
      let b : s + 1 + j ≡ s + suc j = omega arith in
      h (suc j) (omega arith) (subst (λ x. m x ≡ 0) b e)) in
    let c : s + 0 ≡ s = omega arith in
    let d : m s ≢ 0 = λ e. h 0 (omega arith) (subst (λ x. m x ≡ 0) (sym c) e) in
    let b : (m s == 0) ≡ false = ground arith in
    let n : k + 1 ≡ suc k = omega arith in rw (b, r, n) refl

-- Upper case and back.
pub toupper-tolower : (c : ℕ) → isupper c ≡ true → toupper (tolower c) ≡ c
unfolding isupper islower tolower toupper
toupper-tolower c h = ground arith
