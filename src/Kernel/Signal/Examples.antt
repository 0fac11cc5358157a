-- ===== src/Kernel/Signal/Examples.antt =====
-- A task with a handler, for the signal code of kernel/process.c and kernel/sys.c.
use linux.Base.{
  ℕ, ◌+◌, ◌-◌, ◌≤◌, ◌≡◌, ◌≢◌, inl, refl, true, false, none, some, Option, arith, Word, no_bits, bit,
  ◌|||◌, ◌==◌, if◌then◌else◌,
}
use linux.Kernel.Task.{Task, TaskState, TaskTable, sig_dfl, sig_ign, sigkill}
use linux.Kernel.Signal.Defs.{
  Signals, Action, sys_sigprocmask, sigsuspend_enter, sigsuspend_leave, sig_restore_suspend_mask,
  sigreturn_restore_mask,
}
use linux.Kernel.Signal.Deliver.{do_signal, exits, entered, user_stack_floor, user_stack_top}
use linux.Kernel.Signal.Dispositions.{HandlersOk}
use linux.Kernel.Signal.Masks.{KillOpen, masks-KillOpen}
use linux.Kernel.Signal.Delivery.{IsFatal, Handled, do_signal_first}

-- A task that handles SIGINT and has it pending.
abbrev catcher : Task
catcher = record {
  state = TaskState.interruptible;
  counter = 3;
  priority = 15;
  signal = bit 2;
  exit_code = 0;
  handlers = (λ i. if i == 2 then 0x08000100 else 0);
  uid = 0;
  euid = 0;
  suid = 0;
  gid = 0;
  egid = 0;
  sgid = 0;
  alarm = 0;
  umask = 18;
  pid = 1;
  parent = 0;
  pgrp = 4;
  session = 1;
  leader = false;
  page = 0x200000;
}

abbrev open_signals : Signals
open_signals = record {
  blocked = (λ p. no_bits);
  sa = (λ p. no_bits);
  sa_mask = (λ i. no_bits);
  suspend_mask = (λ p. no_bits);
  suspend_pending = (λ p. false);
  handler_mask = (λ p. no_bits);
  handler_mask_saved = (λ p. false);
}

-- The same with SIGINT blocked, and in the middle of a sigsuspend().
abbrev masked_signals : Signals
masked_signals = record open_signals {
  blocked = (λ p. bit 2);
  suspend_mask = (λ p. bit 3);
  suspend_pending = (λ p. true);
}

-- An action for signal 10 whose mask holds SIGKILL and SIGCHLD.
abbrev greedy : Action
greedy = record { handler = 0x08000200; mask = bit 9 ||| bit 17 }

abbrev ignoring : Action
ignoring = record { handler = sig_ign; mask = no_bits }

abbrev table : TaskTable
table i = if i == 1 then some catcher else none

catcher-HandlersOk : HandlersOk catcher
catcher-HandlersOk = record { in_image = λ sig. ground arith; kill_default = refl }

open_signals-KillOpen : KillOpen 1 open_signals
open_signals-KillOpen = record { in_force = refl; suspended = refl; saved = refl }

masks-KillOpen_example :
    ((how : ℕ) (set : Option Word) → KillOpen 1 (sys_sigprocmask how set 1 open_signals).2)
    × ((set : Option Word) → KillOpen 1 (sigsuspend_enter set 1 open_signals))
    × ((old : Word) → old sigkill ≡ false → KillOpen 1 (sigsuspend_leave old 1 open_signals))
    × KillOpen 1 (sig_restore_suspend_mask 1 open_signals)
    × KillOpen 1 (sigreturn_restore_mask 1 open_signals)
masks-KillOpen_example = masks-KillOpen 1 open_signals open_signals-KillOpen

do_signal_first_example :
    (catcher.handlers 2 ≡ sig_dfl
      → IsFatal 2
      → do_signal true 0x08380000 catcher open_signals ≡ exits (128 + 2))
    × (catcher.handlers 2 ≢ sig_dfl
        → catcher.handlers 2 ≢ sig_ign
        → true ≡ true
        → user_stack_floor + 96 ≤ 0x08380000
        → 0x08380000 ≤ user_stack_top
        → (t' : Task) × (g' : Signals) × (do_signal true 0x08380000 catcher open_signals
            ≡ entered 2 (catcher.handlers 2) (0x08380000 - 96) t' g')
          × Handled 2 catcher open_signals t' g')
do_signal_first_example =
    do_signal_first 2 true 0x08380000 catcher open_signals (omega arith) (omega arith) refl
      (λ e. absurd (omega arith)) (λ e. absurd (omega arith)) refl (λ k p q. inl (ground arith))
