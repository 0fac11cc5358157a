-- ===== src/Kernel/Signal/Dispositions.antt =====
-- What sys_signal() and sys_sigaction() can make of a task's dispositions.
use linux.Base.{
  ℕ, ◌+◌, ◌<◌, ◌≡◌, ◌≢◌, refl, ◌∙◌, ◌⊎◌, inl, inr, Bool, true, false, not, ◌||◌, Option, none, some,
  arith, ◌==◌, update, update_self, update_ne, no_bits, Bool-cases, lt→ltb,
}
use linux.Kernel.Task.{Task, sig_dfl, sig_ign, sigkill}
use linux.Kernel.Signal.Defs.{
  Signals, Action, acceptable, bad_signal, sys_signal, sys_sigaction, install, short_mask, sa_slot,
  sig_sa_max,
}

-- Every disposition is SIG_DFL, SIG_IGN or an address in the program image, and SIGKILL's is
-- SIG_DFL.
pub record HandlersOk (t : Task) : Type 0 where
  pub in_image : (sig : ℕ) → acceptable (t.handlers sig) ≡ true
  pub kill_default : t.handlers sigkill ≡ sig_dfl

update-HandlersOk :
    (t : Task) (sig h : ℕ)
    → HandlersOk t
    → bad_signal sig ≡ false
    → acceptable h ≡ true
    → HandlersOk (record t { handlers = update t.handlers sig h })
update-HandlersOk t sig h v b a = record {
  in_image = λ k. elim (Bool-cases (sig == k)) [ inl e ↦ rw e a | inr e ↦ rw e (v.in_image k) ];
  kill_default = ground (arith, v.kill_default);
}

-- Is the call refused: no signal number, SIGKILL, or a handler outside the program image?
abbrev pub Refused : ℕ → ℕ → Type 0
Refused sig h = bad_signal sig || not (acceptable h) ≡ true

-- sys_signal() returns -1 exactly when the call is refused. Otherwise it returns the old
-- disposition and changes that of `sig` alone, and valid dispositions stay valid.
pub sys_signal_lem :
    (sig h : ℕ) (t : Task)
    → HandlersOk t
    → (Refused sig h × (sys_signal sig h t ≡ none))
      ⊎ ((t' : Task) × (sys_signal sig h t ≡ some (t.handlers sig, t'))
          × (t'.handlers sig ≡ h)
          × ((k : ℕ) → sig ≢ k → t'.handlers k ≡ t.handlers k)
          × HandlersOk t')
unfolding sys_signal
sys_signal_lem sig h t v = elim (Bool-cases (bad_signal sig || not (acceptable h))) [
  | inl b ↦ inl (b, rw b refl)
  | inr b ↦ inr (
    record t { handlers = update t.handlers sig h },
    rw b refl,
    update_self t.handlers sig h,
    λ k d. update_ne t.handlers sig k h d,
    update-HandlersOk t sig h v (ground arith) (ground arith),
  )
]

-- Whatever sys_sigaction() is called with, valid dispositions stay valid.
pub sys_sigaction-HandlersOk :
    (sig : ℕ) (act : Option Action) (want : Bool) (t : Task) (g : Signals)
    → HandlersOk t
    → HandlersOk (sys_sigaction sig act want t g).task
unfolding sys_sigaction
sys_sigaction-HandlersOk sig none want t g v = elim (Bool-cases (bad_signal sig)) [
  | inl b ↦ rw b v
  | inr b ↦ rw b v
]
sys_sigaction-HandlersOk sig (some a) want t g v = elim (Bool-cases (bad_signal sig)) [
  | inl b ↦ rw b v
  | inr b ↦ rw b (elim (Bool-cases (acceptable a.handler)) [
    | inl c ↦ rw c (update-HandlersOk t sig a.handler v b c)
    | inr c ↦ rw c v
  ])
]

-- An accepted call stores the handler and goes on to `install`.
pub sigaction_accepts :
    (sig : ℕ) (a : Action) (want : Bool) (t : Task) (g : Signals)
    → bad_signal sig ≡ false
    → acceptable a.handler ≡ true
    → let r = sys_sigaction sig (some a) want t g in
      (r.accepted ≡ true)
      × (r.task ≡ record t { handlers = update t.handlers sig a.handler })
      × (r.signals ≡ install t.pid sig a g)
unfolding sys_sigaction
sigaction_accepts sig a want t g b c = rw (b, c) (refl, refl, refl)

sigaction_queries :
    (sig : ℕ) (t : Task) (g : Signals)
    → bad_signal sig ≡ false
    → sig < sig_sa_max
    → 0 < sig
    → (sys_sigaction sig none true t g).old
      ≡ some (record {
        handler = t.handlers sig;
        mask = g.sa_mask (sa_slot t.pid sig);
        restart = g.sa t.pid sig;
      })
unfolding sys_sigaction
sigaction_queries sig t g b l z = rw (b, lt→ltb 0 sig z, lt→ltb sig sig_sa_max l) refl

pub install-handler :
    (pid sig : ℕ) (a : Action) (g : Signals)
    → sig < sig_sa_max
    → a.handler ≢ sig_dfl
    → a.handler ≢ sig_ign
    → ((install pid sig a g).sa_mask (sa_slot pid sig) ≡ short_mask a.mask)
      × ((install pid sig a g).sa pid sig ≡ true)
unfolding install
install-handler pid sig a g l d i =
    let e : a.handler == sig_dfl || a.handler == sig_ign ≡ false = ground arith in
    rw (e, lt→ltb sig sig_sa_max l)
      (update_self g.sa_mask (sa_slot pid sig) (short_mask a.mask), ground arith)

install-none :
    (pid sig slot : ℕ) (a : Action) (g : Signals)
    → sa_slot pid sig ≡ slot
    → (a.handler ≡ sig_dfl) ⊎ (a.handler ≡ sig_ign)
    → (install pid sig a g).sa_mask slot ≡ no_bits
unfolding install
install-none pid sig slot a g q h =
    let e : a.handler == sig_dfl || a.handler == sig_ign ≡ true = ground arith in
    rw (e, q) (update_self g.sa_mask slot no_bits)

-- The old action that a later query returns after a handler in the image was installed for a
-- signal below SIG_SA_MAX: the handler, the restart bit, and the mask cut to 16 bits.
pub sigaction_query :
    (sig : ℕ) (a : Action) (t : Task) (g : Signals)
    → bad_signal sig ≡ false
    → sig < sig_sa_max
    → acceptable a.handler ≡ true
    → a.handler ≢ sig_dfl
    → a.handler ≢ sig_ign
    → let r = sys_sigaction sig (some a) false t g in
      (r.accepted ≡ true)
      × ((sys_sigaction sig none true r.task r.signals).old
          ≡ some (record { handler = a.handler; mask = short_mask a.mask; restart = true }))
sigaction_query sig a t g b l c d i =
    let r = sigaction_accepts sig a false t g b c in
    let h = install-handler t.pid sig a g l d i in
    (
      r.0,
      rw (r.1, r.2)
          (sigaction_queries sig (record t { handlers = update t.handlers sig a.handler })
              (install t.pid sig a g) b l (ground arith)
            ∙ rw (h.0, h.1, update_self t.handlers sig a.handler) refl),
    )

-- Resetting a signal from 18 to 31 to SIG_DFL or SIG_IGN stores beyond the row of its task: it
-- clears the mask that the next pid's handler for signal `k` was installed with.
pub sigaction_overruns :
    (k : ℕ) (a : Action) (want : Bool) (t : Task) (g : Signals)
    → k < 14
    → (a.handler ≡ sig_dfl) ⊎ (a.handler ≡ sig_ign)
    → (sys_sigaction (sig_sa_max + k) (some a) want t g).signals.sa_mask (sa_slot (t.pid + 1) k)
      ≡ no_bits
sigaction_overruns k a want t g l h =
    let r = sigaction_accepts (sig_sa_max + k) a want t g (ground arith) (ground arith) in
    rw (r.2) (install-none t.pid (sig_sa_max + k) (sa_slot (t.pid + 1) k) a g (omega arith) h)
