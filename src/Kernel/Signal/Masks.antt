-- ===== src/Kernel/Signal/Masks.antt =====
-- Who can put SIGKILL into a signal mask, and how the deferred restores work.
use linux.Base.{
  ℕ, ◌<◌, ◌≡◌, ◌≢◌, ap, ◌∙◌, inl, inr, Bool, true, false, Option, none, some, arith, update,
  update_self, Word, bit, ◌|||◌, lt→ltb, Option-cases,
}
use linux.Kernel.Task.{Task, sig_dfl, sig_ign, sigkill}
use linux.Kernel.Signal.Defs.{
  Signals, Action, acceptable, sys_sigaction, sys_sigprocmask, combine_masks, sigsuspend_enter,
  sigsuspend_leave, sig_restore_suspend_mask, sigreturn_restore_mask, sig_sa_max, short_mask,
  sig_action_mask, install,
}
use linux.Kernel.Signal.Deliver.{mask_for_handler}
use linux.Kernel.Signal.Dispositions.{sigaction_accepts, install-handler}

-- No mask of the task holds SIGKILL: the one in force, and the two that a restore would install.
pub record KillOpen (pid : ℕ) (g : Signals) : Type 0 where
  pub in_force : g.blocked pid sigkill ≡ false
  pub suspended : g.suspend_mask pid sigkill ≡ false
  pub saved : g.handler_mask pid sigkill ≡ false

sigprocmask-KillOpen :
    (pid : ℕ) (g : Signals) (how : ℕ) (set : Option Word)
    → KillOpen pid g
    → KillOpen pid (sys_sigprocmask how set pid g).2
unfolding sys_sigprocmask
sigprocmask-KillOpen pid g how none v = v
sigprocmask-KillOpen pid g how (some arg) v =
    elim (Option-cases (combine_masks how (g.blocked pid) arg)) [
      | inl e ↦ rw (e, sys_sigprocmask) v
      | inr (m, e) ↦ rw (e, sys_sigprocmask) (ground arith)
    ]

suspend_enter-KillOpen :
    (pid : ℕ) (g : Signals) (set : Option Word)
    → KillOpen pid g
    → KillOpen pid (sigsuspend_enter set pid g)
unfolding sigsuspend_enter
suspend_enter-KillOpen pid g none v = ground arith
suspend_enter-KillOpen pid g (some m) v = ground arith

suspend_leave-KillOpen :
    (pid : ℕ) (g : Signals) (old : Word)
    → KillOpen pid g
    → old sigkill ≡ false
    → KillOpen pid (sigsuspend_leave old pid g)
unfolding sigsuspend_leave
suspend_leave-KillOpen pid g old v h = ground (arith, v.in_force, v.suspended, v.saved, h)

restore-KillOpen :
    (pid : ℕ) (g : Signals) → KillOpen pid g → KillOpen pid (sig_restore_suspend_mask pid g)
unfolding sig_restore_suspend_mask
restore-KillOpen pid g v = ground (arith, v.in_force, v.suspended, v.saved)

return-KillOpen :
    (pid : ℕ) (g : Signals) → KillOpen pid g → KillOpen pid (sigreturn_restore_mask pid g)
unfolding sigreturn_restore_mask
return-KillOpen pid g v = ground (arith, v.in_force, v.suspended, v.saved)

-- sys_sigprocmask(), both ends of sys_sigsuspend() and both deferred restores never let SIGKILL
-- into a mask of the calling task, whatever set the user passes.
pub masks-KillOpen :
    (pid : ℕ) (g : Signals)
    → KillOpen pid g
    → ((how : ℕ) (set : Option Word) → KillOpen pid (sys_sigprocmask how set pid g).2)
      × ((set : Option Word) → KillOpen pid (sigsuspend_enter set pid g))
      × ((old : Word) → old sigkill ≡ false → KillOpen pid (sigsuspend_leave old pid g))
      × KillOpen pid (sig_restore_suspend_mask pid g)
      × KillOpen pid (sigreturn_restore_mask pid g)
masks-KillOpen pid g v = (
  λ how set. sigprocmask-KillOpen pid g how set v,
  λ set. suspend_enter-KillOpen pid g set v,
  λ old h. suspend_leave-KillOpen pid g old v h,
  restore-KillOpen pid g v,
  return-KillOpen pid g v,
)

-- The mask during a handler is the caller's with the signal itself and the action's mask added,
-- and sigreturn puts the caller's mask back: the one that a sigsuspend() in progress had saved, if
-- there was one.
pub handler_mask_lem :
    (pid sig : ℕ) (g : Signals)
    → let g' = mask_for_handler pid sig g in
      let caller = (sig_restore_suspend_mask pid g).blocked pid in
      (g'.blocked pid
        ≡ caller ||| (bit sig ||| sig_action_mask pid sig (sig_restore_suspend_mask pid g)))
      × ((sigreturn_restore_mask pid g').blocked pid ≡ caller)
unfolding mask_for_handler sigreturn_restore_mask
handler_mask_lem pid sig g =
    let r = sig_restore_suspend_mask pid g in
    let m = r.blocked pid ||| (bit sig ||| sig_action_mask pid sig r) in
    (
      update_self r.blocked pid m,
      rw (update_self r.handler_mask_saved pid true) (
          update_self (update r.blocked pid m) pid (update r.handler_mask pid (r.blocked pid) pid)
          ∙ update_self r.handler_mask pid (r.blocked pid)),
    )

-- The mask that a sigsuspend() replaced is in force again once the restore has run.
pub sigsuspend_restores :
    (pid : ℕ) (set : Option Word) (g : Signals)
    → let old = g.blocked pid in
      (sig_restore_suspend_mask pid (sigsuspend_leave old pid (sigsuspend_enter set pid g))).blocked
        pid
      ≡ old
unfolding sig_restore_suspend_mask sigsuspend_leave
sigsuspend_restores pid set g =
    let g' = sigsuspend_enter set pid g in
    rw (update_self g'.suspend_pending pid true) (
      update_self g'.blocked pid (update g'.suspend_mask pid (g.blocked pid) pid)
      ∙ update_self g'.suspend_mask pid (g.blocked pid))

sa_mask-restore : (pid : ℕ) (g : Signals) → (sig_restore_suspend_mask pid g).sa_mask ≡ g.sa_mask
unfolding sig_restore_suspend_mask
sa_mask-restore pid g = ground arith

action_mask-installed :
    (pid sig : ℕ) (a : Action) (g : Signals)
    → 0 < sig
    → sig < sig_sa_max
    → a.handler ≢ sig_dfl
    → a.handler ≢ sig_ign
    → sig_action_mask pid sig (sig_restore_suspend_mask pid (install pid sig a g))
      ≡ short_mask a.mask
unfolding sig_action_mask
action_mask-installed pid sig a g z l d i =
    rw (lt→ltb 0 sig z, lt→ltb sig sig_sa_max l, sa_mask-restore pid (install pid sig a g))
      (install-handler pid sig a g l d i).0

-- The exception: a handler installed by sys_sigaction() with SIGKILL in its mask runs with SIGKILL
-- blocked, whatever the masks were before.
pub sigaction_blocks_kill :
    (sig : ℕ) (a : Action) (want : Bool) (t : Task) (g : Signals)
    → 0 < sig
    → sig < sig_sa_max
    → sig ≢ sigkill
    → acceptable a.handler ≡ true
    → a.handler ≢ sig_dfl
    → a.handler ≢ sig_ign
    → a.mask sigkill ≡ true
    → (mask_for_handler t.pid sig (sys_sigaction sig (some a) want t g).signals).blocked t.pid
        sigkill
      ≡ true
sigaction_blocks_kill sig a want t g z l k c d i m =
    let r = sigaction_accepts sig a want t g (ground arith) c in
    let w = handler_mask_lem t.pid sig (install t.pid sig a g) in
    let q = action_mask-installed t.pid sig a g z l d i in
    rw (r.2) (ap (λ (u : Word). u sigkill) w.0 ∙ rw q (ground arith))
