-- ===== src/Kernel/Sched/Reap.antt =====
-- The zombies that schedule() reaps by itself.
use linux.Base.{
  ℕ, zero, suc, ◌+◌, ◌≤◌, ◌<◌, ◌≡◌, ◌≢◌, refl, sym, ◌∙◌, ◌⊎◌, inl, inr, Option, none, some, arith,
  subst, true, not, ◌&&◌, ◌==◌, Bool-cases, ◌∷◌,
}
use native.Mathlib.Decide.{ℕ_discrete}
use linux.Kernel.Task.{Task, Sys, nr_tasks, is_zombie}
use linux.Kernel.Sched.Defs.{unawaited, reap_slot, reap_zombies}

-- A slot is left alone, or it held a zombie other than the current task and is now empty.
abbrev pub Spared : Sys → Sys → ℕ → Type 0
Spared s s' j =
    (s'.task j ≡ s.task j)
    ⊎ ((z : Task) × (s.task j ≡ some z)
        × (is_zombie z.state ≡ true)
        × (j ≢ s.current)
        × (s'.task j ≡ none))

current-reap_slot : (i : ℕ) (o : Option Task) (s : Sys) → (reap_slot i o s).current ≡ s.current
unfolding reap_slot
current-reap_slot i none s = refl
current-reap_slot i (some z) s = ground arith

reap_slot-Spared :
    (i : ℕ) (o : Option Task) (s : Sys) (j : ℕ) → s.task i ≡ o → Spared s (reap_slot i o s) j
unfolding reap_slot
reap_slot-Spared i none s j e = inl refl
reap_slot-Spared i (some z) s j e =
    elim (Bool-cases (not (i == s.current) && is_zombie z.state && unawaited (s.task z.parent))) [
      | inl b ↦ rw b (elim (ℕ_discrete i j) [
        | yes h ↦
            inr (z, subst (λ k. s.task k ≡ some z) h e, ground arith, ground arith, ground arith)
        | no h ↦ inl (ground arith)
      ])
      | inr b ↦ rw b (inl refl)
    ]

Spared-trans :
    (s s' s'' : Sys) (j : ℕ)
    → s'.current ≡ s.current
    → Spared s s' j
    → Spared s' s'' j
    → Spared s s'' j
Spared-trans s s' s'' j c (inl e) (inl f) = inl (f ∙ e)
Spared-trans s s' s'' j c (inl e) (inr (z, h, d, m, f)) = inr (z, sym e ∙ h, d, rw (sym c) m, f)
Spared-trans s s' s'' j c (inr (z, h, d, m, f)) (inl e) = inr (z, h, d, m, e ∙ f)
Spared-trans s s' s'' j c (inr (z, h, d, m, f)) (inr (y, k, _, _, g)) = cc

-- schedule() empties a slot only if it holds a zombie, and never the slot of the current task.
pub reap_zombies-Spared : (n i : ℕ) (s : Sys) (j : ℕ) → Spared s (reap_zombies n i s) j
unfolding reap_zombies
reap_zombies-Spared zero i s j = inl refl
reap_zombies-Spared (suc n) i s j =
    Spared-trans s (reap_slot i (s.task i) s) (reap_zombies n (i + 1) (reap_slot i (s.task i) s)) j
      (current-reap_slot i (s.task i) s) (reap_slot-Spared i (s.task i) s j refl)
      (reap_zombies-Spared n (i + 1) (reap_slot i (s.task i) s) j)

reap_slot_ne :
    (i : ℕ) (o : Option Task) (s : Sys) (j : ℕ) → i ≢ j → (reap_slot i o s).task j ≡ s.task j
unfolding reap_slot
reap_slot_ne i none s j h = refl
reap_slot_ne i (some z) s j h = ground arith

unawaited-reap_slot :
    (i : ℕ) (o : Option Task) (s : Sys) (p : ℕ)
    → unawaited (s.task p) ≡ true
    → unawaited ((reap_slot i o s).task p) ≡ true
unfolding reap_slot
unawaited-reap_slot i none s p h = h
unawaited-reap_slot i (some z) s p h =
    elim (Bool-cases (not (i == s.current) && is_zombie z.state && unawaited (s.task z.parent))) [
      | inl b ↦ rw b (elim (Bool-cases (i == p)) [ inl e ↦ rw e refl | inr e ↦ rw e h ])
      | inr b ↦ rw b h
    ]

reap_slot_self :
    (i : ℕ) (z : Task) (s : Sys)
    → is_zombie z.state ≡ true
    → i ≢ s.current
    → unawaited (s.task z.parent) ≡ true
    → ((reap_slot i (some z) s).task i ≡ none) × ((reap_slot i (some z) s).freed ≡ z.page ∷ s.freed)
unfolding reap_slot
reap_slot_self i z s d m u = rw (d, u) (ground arith)

none_stays : (n i : ℕ) (s : Sys) (j : ℕ) → s.task j ≡ none → (reap_zombies n i s).task j ≡ none
none_stays n i s j h = go (reap_zombies-Spared n i s j)
  where
    go : Spared s (reap_zombies n i s) j → (reap_zombies n i s).task j ≡ none
    go (inl e) = e ∙ h
    go (inr (z, e, _, _, _)) = cc

-- A zombie that is not the current task, and whose parent is gone or ignores SIGCHLD, is reaped.
pub reap_zombies_removes :
    (n i : ℕ) (s : Sys) (j : ℕ) (z : Task)
    → i ≤ j
    → j < i + n
    → s.task j ≡ some z
    → is_zombie z.state ≡ true
    → j ≢ s.current
    → unawaited (s.task z.parent) ≡ true
    → (reap_zombies n i s).task j ≡ none
unfolding reap_zombies
reap_zombies_removes zero i s j z l u h d m p = absurd (omega arith)
reap_zombies_removes (suc n) i s j z l u h d m p = elim (ℕ_discrete i j) [
  | yes e ↦ none_stays n (i + 1) (reap_slot i (s.task i) s) j (
      subst (λ k. (reap_slot k (s.task k) s).task j ≡ none) (sym e)
        (rw h (reap_slot_self j z s d m p).0))
  | no e ↦
      reap_zombies_removes n (i + 1) (reap_slot i (s.task i) s) j z (omega arith) (omega arith)
        (reap_slot_ne i (s.task i) s j e ∙ h) d (rw (current-reap_slot i (s.task i) s) m)
        (unawaited-reap_slot i (s.task i) s z.parent p)
]

-- What schedule() does to the table before it chooses: every unawaited zombie but the current task
-- goes, and a slot whose task is no zombie, or is the current one, keeps it.
pub reap_lem :
    (s : Sys) (j : ℕ)
    → Spared s (reap_zombies nr_tasks 0 s) j
      × ((z : Task)
          → j < nr_tasks
          → s.task j ≡ some z
          → is_zombie z.state ≡ true
          → j ≢ s.current
          → unawaited (s.task z.parent) ≡ true
          → (reap_zombies nr_tasks 0 s).task j ≡ none)
reap_lem s j = (
  reap_zombies-Spared nr_tasks 0 s j,
  λ z u h d m p. reap_zombies_removes nr_tasks 0 s j z (omega arith) (omega arith) h d m p,
)
