-- ===== src/Base/Tables.antt =====
-- Functions from numbers as tables: one entry replaced.
use Prim.Native.Nat.{ℕ}
use mathlib.Core.Path.{◌≡◌, sym, subst}
use native.Mathlib.Decide.{ℕ_discrete}
use mathlib.Core.Logic.{◌≢◌}
use native.Mathlib.Omega.{arith}
use linux.Base.Tests.{◌==◌, if◌then◌else◌}

module _ {ℓ} {A : Type ℓ} where
  abbrev pub update : (ℕ → A) → ℕ → A → ℕ → A
  update f p v q = if p == q then v else f q

  pub update_self : (f : ℕ → A) (p : ℕ) (v : A) → update f p v p ≡ v
  update_self f p v = ground arith

  pub update_ne : (f : ℕ → A) (p q : ℕ) (v : A) → p ≢ q → update f p v q ≡ f q
  update_ne f p q v h = ground arith

  -- What holds of the new entry and of the other ones holds of all.
  pub each :
      (Q : ℕ → A → Type 0) (f : ℕ → A) (p : ℕ) (v : A)
      → Q p v
      → ((q : ℕ) → p ≢ q → Q q (f q))
      → (q : ℕ) → Q q (update f p v q)
  each Q f p v new old q = elim (ℕ_discrete p q) [
    | yes e ↦ subst (λ k. Q k (update f p v k)) e (subst (λ x. Q p x) (sym (update_self f p v)) new)
    | no d ↦ subst (λ x. Q q x) (sym (update_ne f p q v d)) (old q d)
  ]
