-- ===== src/Kernel/Signal/Defs.antt =====
-- Dispositions and masks: sys_signal(), sys_sigaction(), sys_sigprocmask(), sys_sigsuspend() and
-- the two deferred restores. A negative signal number is refused as 0 is, so numbers are natural.
use linux.Base.{
  ℕ, ◌+◌, ◌*◌, Bool, true, false, not, ◌&&◌, ◌||◌, Option, none, some, ltb, leb, ◌==◌,
  if◌then◌else◌, update, Word, no_bits, bit, ◌|||◌, ◌&&&◌, complement, any_bit,
}
use linux.Kernel.Task.{Task, sig_dfl, sig_ign, sigkill}

-- The arrays beside task[], indexed by pid. `sa_mask` is the flat array behind
-- sig_sa_mask[NR_TASKS][SIG_SA_MAX].
pub record Signals : Type 0 where
  pub blocked : ℕ → Word
  pub sa : ℕ → Word
  pub sa_mask : ℕ → Word
  pub suspend_mask : ℕ → Word
  pub suspend_pending : ℕ → Bool
  pub handler_mask : ℕ → Word
  pub handler_mask_saved : ℕ → Bool

abbrev pub sig_sa_max : ℕ
sig_sa_max = 18

-- where sig_sa_mask[pid][sig] lies
abbrev pub sa_slot : ℕ → ℕ → ℕ
sa_slot pid sig = pid * sig_sa_max + sig

unfoldable pub sig_restore_suspend_mask : ℕ → Signals → Signals
sig_restore_suspend_mask pid g =
    if g.suspend_pending pid
    then record g {
      suspend_pending = update g.suspend_pending pid false;
      blocked = update g.blocked pid (g.suspend_mask pid);
    }
    else g

unfoldable pub sigreturn_restore_mask : ℕ → Signals → Signals
sigreturn_restore_mask pid g =
    if g.handler_mask_saved pid
    then record g {
      handler_mask_saved = update g.handler_mask_saved pid false;
      blocked = update g.blocked pid (g.handler_mask pid);
    }
    else g

unfoldable pub sig_action_mask : ℕ → ℕ → Signals → Word
sig_action_mask pid sig g =
    if ltb 0 sig && ltb sig sig_sa_max then g.sa_mask (sa_slot pid sig) else no_bits

abbrev pub user_prog_start : ℕ
user_prog_start = 0x08000000

abbrev pub user_prog_end : ℕ
user_prog_end = 0x08100000

-- SIG_DFL, SIG_IGN or an address in the program image
abbrev pub acceptable : ℕ → Bool
acceptable h = h == sig_dfl || h == sig_ign || leb user_prog_start h && ltb h user_prog_end

abbrev pub bad_signal : ℕ → Bool
bad_signal sig = ltb sig 1 || leb 32 sig || sig == sigkill

-- `none` is -1; otherwise the old disposition and the task with the new one.
unfoldable pub sys_signal : ℕ → ℕ → Task → Option (ℕ × Task)
sys_signal sig handler t =
    if bad_signal sig || not (acceptable handler)
    then none
    else some (t.handlers sig, record t { handlers = update t.handlers sig handler })

-- What the user passes as `act`, and what is written to `oldact` (SA_RESTART as a Boolean).
pub record Action : Type 0 where
  pub handler : ℕ
  pub mask : Word

pub record OldAction : Type 0 where
  pub handler : ℕ
  pub mask : Word
  pub restart : Bool

-- (unsigned short)(mask & 0x1FFFF)
abbrev pub short_mask : Word → Word
short_mask m k = m k && ltb k 17 && ltb k 16

-- The arrays after a handler, or no handler, was installed for (pid, sig). Only the second store
-- to sig_sa_mask is guarded by SIG_SA_MAX.
unfoldable pub install : ℕ → ℕ → Action → Signals → Signals
install pid sig act g =
    if act.handler == sig_dfl || act.handler == sig_ign
    then record g {
      sa = update g.sa pid (g.sa pid &&& complement (bit sig));
      sa_mask = update g.sa_mask (sa_slot pid sig) no_bits;
    }
    else record g {
      sa = update g.sa pid (g.sa pid ||| bit sig);
      sa_mask =
          if ltb sig sig_sa_max
          then update g.sa_mask (sa_slot pid sig) (short_mask act.mask)
          else g.sa_mask;
    }

pub record SigactionResult : Type 0 where
  pub accepted : Bool
  pub old : Option OldAction
  pub task : Task
  pub signals : Signals

abbrev pub old_action : Task → ℕ → Signals → OldAction
unfolding sig_action_mask
old_action t sig g = record {
  handler = t.handlers sig;
  mask = sig_action_mask t.pid sig g;
  restart = g.sa t.pid sig;
}

-- `want_old` is oldact != NULL; `act` is none for NULL. `accepted` is a result of 0.
unfoldable pub sys_sigaction : ℕ → Option Action → Bool → Task → Signals → SigactionResult
unfolding sig_action_mask
sys_sigaction sig act want_old t g =
    if bad_signal sig
    then record { accepted = false; old = none; task = t; signals = g }
    else let old : Option OldAction = if want_old then some (old_action t sig g) else none in
      elim act [
        | none ↦ record { accepted = true; old = old; task = t; signals = g }
        | some a ↦
            if not (acceptable a.handler)
            then record { accepted = false; old = old; task = t; signals = g }
            else record {
              accepted = true;
              old = old;
              task = record t { handlers = update t.handlers sig a.handler };
              signals = install t.pid sig a g;
            }
      ]

-- The new mask for `how` (SIG_BLOCK 1, SIG_UNBLOCK 2, SIG_SETMASK 3); any other is an error.
unfoldable pub combine_masks : ℕ → Word → Word → Option Word
combine_masks how old arg =
    if how == 1
    then some (old ||| arg)
    else if how == 2
    then some (old &&& complement arg)
    else if how == 3
    then some arg
    else none

-- Returns 0 or -1 (a Boolean) with the mask that was in force, which goes to oldset.
unfoldable pub sys_sigprocmask : ℕ → Option Word → ℕ → Signals → Bool × Word × Signals
unfolding combine_masks
sys_sigprocmask how none pid g = (true, g.blocked pid, g)
sys_sigprocmask how (some arg) pid g = elim (combine_masks how (g.blocked pid) arg) [
  | none ↦ (false, g.blocked pid, g)
  | some mask ↦ (
    true,
    g.blocked pid,
    record g { blocked = update g.blocked pid (mask &&& complement (bit sigkill)) },
  )
]

-- current->signal & ~mask, the test of sys_pause() and sys_sigsuspend()
unfoldable pub awake : Word → Word → Bool
awake signal mask = any_bit 32 (signal &&& complement mask)

-- sys_sigsuspend() up to its wait: the temporary mask is installed.
unfoldable pub sigsuspend_enter : Option Word → ℕ → Signals → Signals
sigsuspend_enter none pid g = record g { blocked = update g.blocked pid no_bits }
sigsuspend_enter (some mask) pid g = record g {
  blocked = update g.blocked pid (mask &&& complement (bit sigkill));
}

-- and after the wait: the old mask is recorded for do_signal() to restore.
unfoldable pub sigsuspend_leave : Word → ℕ → Signals → Signals
sigsuspend_leave old pid g = record g {
  suspend_mask = update g.suspend_mask pid old;
  suspend_pending = update g.suspend_pending pid true;
}
