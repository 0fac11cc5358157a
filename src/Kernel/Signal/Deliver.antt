-- ===== src/Kernel/Signal/Deliver.antt =====
-- do_signal() and deliver_signal(): signal delivery on the way back to user mode.
use linux.Base.{
  ℕ, zero, suc, ◌+◌, ◌-◌, ◌%◌, ◌^◌, Bool, true, not, ◌&&◌, ◌||◌, ltb, leb, ◌==◌, if◌then◌else◌,
  update, bit, ◌|||◌, ◌&&&◌, complement, any_bit,
}
use linux.Kernel.Task.{
  Task, TaskState, sig_dfl, sig_ign, sigkill, sigpipe, sigalrm, sigchld, sigcont, sigstop,
  is_stopped,
}
use linux.Kernel.Signal.Defs.{Signals, sig_restore_suspend_mask, sig_action_mask}

abbrev pub user_stack_floor : ℕ
user_stack_floor = 0x08300000

abbrev pub user_stack_top : ℕ
user_stack_top = 0x083FF000

-- esp - 4 - SIGFRAME_BYTES on 32 bits
abbrev pub frame_of : ℕ → ℕ
frame_of esp = (esp + 2 ^ 32 - 96) % 2 ^ 32

-- (long)a < (long)b for a bit pattern `a` and a positive constant `b`
abbrev pub lt_signed : ℕ → ℕ → Bool
lt_signed a b = leb (2 ^ 31) a || ltb a b

-- Does deliver_signal() build a frame for this esp? The last test is (long)user_esp > TOP.
unfoldable pub frame_fits : ℕ → Bool
frame_fits esp =
    not (lt_signed esp user_stack_floor)
    && not (ltb esp (2 ^ 31) && ltb user_stack_top esp)
    && not (lt_signed (frame_of esp) user_stack_floor)

-- How do_signal() ends. `entered` carries the signal, the handler and the new user esp, `refused`
-- is a handler whose frame did not fit, `exits` the argument of sys_exit(), `stops` the signal
-- from which the loop goes on once the task runs again.
pub data Outcome : Type 0 where
  resumed : Task → Signals → Outcome
  entered : ℕ → ℕ → ℕ → Task → Signals → Outcome
  refused : ℕ → Task → Signals → Outcome
  exits : ℕ → Outcome
  stops : ℕ → Task → Signals → Outcome

-- The signals whose default action ends the task.
abbrev pub fatal : ℕ → Bool
fatal sig = sig == 2 || sig == 3 || sig == sigkill || sig == 11 || sig == sigpipe || sig == sigalrm

abbrev pub consume : ℕ → Task → Task
consume sig t = record t { signal = t.signal &&& complement (bit sig) }

-- A handler is about to run: the one-shot reset, the deferred restore, then the handler's mask.
abbrev pub reset_handler : ℕ → Signals → Task → Task
reset_handler sig g t =
    if not (sig == sigchld) && not (g.sa t.pid sig)
    then record t { handlers = update t.handlers sig sig_dfl }
    else t

unfoldable pub mask_for_handler : ℕ → ℕ → Signals → Signals
unfolding sig_restore_suspend_mask sig_action_mask
mask_for_handler pid sig g =
    let g' = sig_restore_suspend_mask pid g in
    record g' {
      handler_mask = update g'.handler_mask pid (g'.blocked pid);
      handler_mask_saved = update g'.handler_mask_saved pid true;
      blocked = update g'.blocked pid (g'.blocked pid ||| (bit sig ||| sig_action_mask pid sig g'));
    }

unfoldable pub run_handler : ℕ → ℕ → Task → Signals → Outcome
unfolding frame_fits mask_for_handler
run_handler sig esp t g =
    if frame_fits esp
    then entered sig (t.handlers sig) (frame_of esp) (reset_handler sig g t)
        (mask_for_handler t.pid sig g)
    else refused sig (reset_handler sig g t) (mask_for_handler t.pid sig g)

-- What one round of the loop does with signal `sig`: go on with a changed task, or end.
pub data Round : Type 0 where
  next : Task → Round
  done : Outcome → Round

unfoldable pub act_on : ℕ → Bool → ℕ → Task → Signals → Round
unfolding run_handler
act_on sig from_user esp t g =
    let c = consume sig t in
    if t.handlers sig == sig_ign
    then next c
    else if not (t.handlers sig == sig_dfl) && from_user
    then done (run_handler sig esp c g)
    else if fatal sig
    then done (exits (128 + sig))
    else next c

unfoldable pub deliver_round : ℕ → Bool → ℕ → Task → Signals → Round
unfolding act_on
deliver_round sig from_user esp t g =
    if not (t.signal sig)
    then next t
    else if sig == sigstop
    then done (stops (sig + 1) (record (consume sig t) { state = TaskState.stopped }) g)
    else if sig == sigcont
    then next (record (consume sig t) {
      state = if is_stopped t.state then TaskState.running else t.state;
    })
    else if g.blocked t.pid sig
    then next t
    else act_on sig from_user esp t g

-- for (sig = ...; sig < 32; sig++): `n` rounds are left, the next is for `sig`.
unfoldable pub deliver_from : ℕ → ℕ → Bool → ℕ → Task → Signals → Outcome
unfolding deliver_round sig_restore_suspend_mask
deliver_from zero sig from_user esp t g = resumed t (sig_restore_suspend_mask t.pid g)
deliver_from (suc n) sig from_user esp t g = elim (deliver_round sig from_user esp t g) [
  | next t' ↦ deliver_from n (sig + 1) from_user esp t' g
  | done o ↦ o
]

-- `from_user` is cpl == 3 and `esp` the user stack pointer, both from the saved frame.
unfoldable pub do_signal : Bool → ℕ → Task → Signals → Outcome
unfolding deliver_from
do_signal from_user esp t g =
    if any_bit 32 t.signal
    then deliver_from 31 1 from_user esp t g
    else resumed t (sig_restore_suspend_mask t.pid g)
