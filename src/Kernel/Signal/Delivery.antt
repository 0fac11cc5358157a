-- ===== src/Kernel/Signal/Delivery.antt =====
-- Which signal do_signal() acts on, and how.
use linux.Base.{
  ℕ, zero, suc, ◌+◌, ◌-◌, ◌*◌, ◌&&◌, ◌||◌, ltb, if◌then◌else◌, Word, ap, ◌≤◌, ◌<◌, ◌≡◌, ◌≢◌, refl,
  ◌∙◌, ◌⊎◌, inl, inr, Bool, true, false, arith, ◌==◌, Bool-cases, any_bit, any_bit_intro, subst,
}
use linux.Kernel.Task.{Task, sig_dfl, sig_ign, sigstop, sigcont}
use linux.Kernel.Signal.Defs.{Signals, sig_restore_suspend_mask}
use linux.Kernel.Signal.Deliver.{
  resumed, entered, exits, next, consume, fatal, run_handler, act_on, deliver_round, deliver_from,
  do_signal, frame_fits, frame_of, reset_handler, mask_for_handler, user_stack_floor,
  user_stack_top,
}

-- Signal `k` is left for later: it is not pending, or it is blocked and no job control signal.
abbrev pub Deferred : Task → Signals → ℕ → Type 0
Deferred t g k = (t.signal k ≡ false) ⊎ ((g.blocked t.pid k ≡ true) × (k ≢ sigstop) × (k ≢ sigcont))

Deferred-round :
    (k : ℕ) (user : Bool) (esp : ℕ) (t : Task) (g : Signals)
    → Deferred t g k
    → deliver_round k user esp t g ≡ next t
unfolding deliver_round
Deferred-round k user esp t g (inl e) = rw e refl
Deferred-round k user esp t g (inr (b, s, c)) = elim (Bool-cases (t.signal k)) [
  | inl p ↦
      let es : k == sigstop ≡ false = ground arith in
      let ec : k == sigcont ≡ false = ground arith in rw (p, es, ec, b) refl
  | inr p ↦ rw p refl
]

-- Rounds over deferred signals change nothing.
skip-Deferred :
    (m n lo : ℕ) (user : Bool) (esp : ℕ) (t : Task) (g : Signals)
    → ((k : ℕ) → lo ≤ k → k < lo + m → Deferred t g k)
    → deliver_from (m + n) lo user esp t g ≡ deliver_from n (lo + m) user esp t g
unfolding deliver_from
skip-Deferred zero n lo user esp t g h =
    let a : zero + n ≡ n = omega arith in let b : lo + zero ≡ lo = omega arith in rw (a, b) refl
skip-Deferred (suc m) n lo user esp t g h =
    let a : suc m + n ≡ suc (m + n) = omega arith in
    let b : lo + suc m ≡ lo + 1 + m = omega arith in
    rw (a, b, deliver_from, Deferred-round lo user esp t g (h lo (omega arith) (omega arith)))
      (skip-Deferred m n (lo + 1) user esp t g (λ k p q. h k (omega arith) (omega arith)))

-- If every pending signal is blocked, job control apart, do_signal() consumes none, leaves the task
-- as it is and only completes a sigsuspend().
pub do_signal_masked :
    (user : Bool) (esp : ℕ) (t : Task) (g : Signals)
    → ((k : ℕ) → 1 ≤ k → k < 32 → Deferred t g k)
    → do_signal user esp t g ≡ resumed t (sig_restore_suspend_mask t.pid g)
unfolding do_signal deliver_from
do_signal_masked user esp t g h = elim (Bool-cases (any_bit 32 t.signal)) [
  | inl e ↦ rw e (skip-Deferred 31 0 1 user esp t g (λ k p q. h k p (omega arith)))
  | inr e ↦ rw e refl
]

-- The first signal that is not deferred gets its round; the rest of the loop follows if the round
-- does not end the delivery.
first_round :
    (sig n : ℕ) (user : Bool) (esp : ℕ) (t : Task) (g : Signals)
    → 1 ≤ sig
    → sig + n ≡ 31
    → t.signal sig ≡ true
    → ((k : ℕ) → 1 ≤ k → k < sig → Deferred t g k)
    → do_signal user esp t g ≡ deliver_from (suc n) sig user esp t g
unfolding do_signal
first_round sig n user esp t g l e p h =
    let m : (sig - 1) + suc n ≡ 31 = omega arith in
    let q : 1 + (sig - 1) ≡ sig = omega arith in
    rw (any_bit_intro 32 sig t.signal (omega arith) p) (
      subst (λ (r : ℕ). deliver_from r 1 user esp t g ≡ deliver_from (suc n) sig user esp t g) m
        (subst
          (λ (r : ℕ).
            deliver_from ((sig - 1) + suc n) 1 user esp t g ≡ deliver_from (suc n) r user esp t g)
          q (skip-Deferred (sig - 1) (suc n) 1 user esp t g (λ k a b. h k a (omega arith)))))

acted_round :
    (sig : ℕ) (user : Bool) (esp : ℕ) (t : Task) (g : Signals)
    → t.signal sig ≡ true
    → sig ≢ sigstop
    → sig ≢ sigcont
    → g.blocked t.pid sig ≡ false
    → deliver_round sig user esp t g ≡ act_on sig user esp t g
unfolding deliver_round
acted_round sig user esp t g p s c b =
    let es : sig == sigstop ≡ false = ground arith in
    let ec : sig == sigcont ≡ false = ground arith in rw (p, es, ec, b) refl

-- SIGINT, SIGQUIT, SIGKILL, SIGSEGV, SIGPIPE and SIGALRM
abbrev pub IsFatal : ℕ → Type 0
IsFatal sig = (sig ≡ 2) ⊎ (sig ≡ 3) ⊎ (sig ≡ 9) ⊎ (sig ≡ 11) ⊎ (sig ≡ 13) ⊎ (sig ≡ 14)

IsFatal-fatal : (sig : ℕ) → IsFatal sig → fatal sig ≡ true
IsFatal-fatal sig h = ground arith

-- The mask that a sigsuspend() in progress gives back, else the one in force.
abbrev pub mask_before : ℕ → Signals → Word
mask_before pid g = if g.suspend_pending pid then g.suspend_mask pid else g.blocked pid

-- What the task and the masks are when the handler of signal `sig` starts: the signal is no longer
-- pending, the disposition is reset unless it is that of SIGCHLD or came from sigaction(), the mask
-- is saved, and the signal and those of its sa_mask are added to it.
pub record Handled (sig : ℕ) (t : Task) (g : Signals) (t' : Task) (g' : Signals) : Type 0 where
  pub taken : t'.signal sig ≡ false
  pub others : (k : ℕ) → k ≢ sig → t'.signal k ≡ t.signal k
  pub disposition :
      t'.handlers sig ≡ (if sig == 17 || g.sa t.pid sig then t.handlers sig else sig_dfl)
  pub other_handlers : (k : ℕ) → k ≢ sig → t'.handlers k ≡ t.handlers k
  pub is_saved : g'.handler_mask_saved t.pid ≡ true
  pub saved : (k : ℕ) → g'.handler_mask t.pid k ≡ mask_before t.pid g k
  pub blocks :
      (k : ℕ)
      → g'.blocked t.pid k ≡ (
          mask_before t.pid g k
          || k == sig
          || (ltb 0 sig && ltb sig 18 && g.sa_mask (t.pid * 18 + sig) k))

consumed-Handled :
    (sig : ℕ) (t : Task) (g : Signals)
    → Handled sig t g (reset_handler sig g (consume sig t)) (mask_for_handler t.pid sig g)
unfolding mask_for_handler
consumed-Handled sig t g = record {
  taken = ground arith;
  others = (λ k d. ground arith);
  disposition = ground arith;
  other_handlers = (λ k d. ground arith);
  is_saved = ground arith;
  saved = (λ k. ground arith);
  blocks = (λ k. ground arith);
}

inside_stack :
    (esp : ℕ) → user_stack_floor + 96 ≤ esp → esp ≤ user_stack_top → frame_fits esp ≡ true
unfolding frame_fits
inside_stack esp low high = ground arith

-- The lowest signal that is pending and not blocked is delivered first. With the default
-- disposition of SIGINT, SIGQUIT, SIGKILL, SIGSEGV, SIGPIPE or SIGALRM the task exits with 128 + sig, whatever mode it came from. With a
-- handler, on a return to user mode with 96 bytes left in the user stack, the handler is entered
-- 96 bytes below the stack pointer: the signal is no longer pending, every other signal stays as it
-- was, the disposition is reset unless it is that of SIGCHLD or came from sigaction(), and the mask
-- in force (that from before a sigsuspend(), where there is one) is saved and then also blocks the
-- signal and those of its sa_mask.
pub do_signal_first :
    (sig : ℕ) (user : Bool) (esp : ℕ) (t : Task) (g : Signals)
    → 1 ≤ sig
    → sig < 32
    → t.signal sig ≡ true
    → sig ≢ sigstop
    → sig ≢ sigcont
    → g.blocked t.pid sig ≡ false
    → ((k : ℕ) → 1 ≤ k → k < sig → Deferred t g k)
    → (t.handlers sig ≡ sig_dfl → IsFatal sig → do_signal user esp t g ≡ exits (128 + sig))
      × (t.handlers sig ≢ sig_dfl
          → t.handlers sig ≢ sig_ign
          → user ≡ true
          → user_stack_floor + 96 ≤ esp
          → esp ≤ user_stack_top
          → (t' : Task) × (g' : Signals) × (do_signal user esp t g
              ≡ entered sig (t.handlers sig) (esp - 96) t' g')
            × Handled sig t g t' g')
unfolding deliver_from act_on run_handler
do_signal_first sig user esp t g l u p s c b h = (dies, handles)
  where
    start : do_signal user esp t g ≡ deliver_from (suc (31 - sig)) sig user esp t g
    start = first_round sig (31 - sig) user esp t g l (omega arith) p h

    dies : t.handlers sig ≡ sig_dfl → IsFatal sig → do_signal user esp t g ≡ exits (128 + sig)
    dies d f =
        start
        ∙ rw (deliver_from, acted_round sig user esp t g p s c b, act_on, d, IsFatal-fatal sig f)
            refl

    handles :
        t.handlers sig ≢ sig_dfl
        → t.handlers sig ≢ sig_ign
        → user ≡ true
        → user_stack_floor + 96 ≤ esp
        → esp ≤ user_stack_top
        → (t' : Task) × (g' : Signals) × (do_signal user esp t g
            ≡ entered sig (t.handlers sig) (esp - 96) t' g')
          × Handled sig t g t' g'
    handles d i w low high =
        let f = inside_stack esp low high in
        let ed : t.handlers sig == sig_dfl ≡ false = ground arith in
        let ei : t.handlers sig == sig_ign ≡ false = ground arith in
        let at : frame_of esp ≡ esp - 96 = omega arith in
        (
          reset_handler sig g (consume sig t),
          mask_for_handler t.pid sig g,
          start
              ∙ rw
                  (
                    deliver_from,
                    acted_round sig user esp t g p s c b,
                    act_on,
                    ei,
                    ed,
                    w,
                    run_handler,
                    f,
                  )
                  (ap
                    (λ a.
                      entered sig (t.handlers sig) a (reset_handler sig g (consume sig t))
                        (mask_for_handler t.pid sig g))
                    at),
          consumed-Handled sig t g,
        )
