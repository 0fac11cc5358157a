-- ===== src/Fs/Pipe/Defs.antt =====
-- The pipe inode's fields, the queue of waiters as its head, and the two transfers. A call that
-- reaches the schedule() of sleep_on() ends in `asleep` with what is left to do; it is called again
-- when it wakes.
use linux.Base.{
  ℕ, zero, suc, ◌+◌, ◌-◌, ◌%◌, ◌^◌, Bool, true, false, not, Option, none, some, List, [], ◌∷◌, ◌==◌,
  if◌then◌else◌, get_or, set, update, Word, bit, ◌|||◌,
}
use linux.Kernel.Task.{TaskState, sigpipe}

abbrev pub page_size : ℕ
page_size = 4096

-- PIPE_HEAD and PIPE_TAIL are i_zone[0] and i_zone[1]; `page` is the page at i_size; `state` is
-- every task's state, `signal` every task's pending signals, `current` the calling task.
pub record Pipe : Type 0 where
  pub page : List ℕ
  pub head : ℕ
  pub tail : ℕ
  pub count : ℕ
  pub wait : Option ℕ
  pub state : ℕ → TaskState
  pub signal : ℕ → Word
  pub current : ℕ

-- (head - tail) & (PAGE_SIZE - 1), in 32-bit arithmetic
abbrev pub pipe_size : Pipe → ℕ
pipe_size p = (p.head + 2 ^ 32 - p.tail) % 2 ^ 32 % page_size

abbrev pub pipe_empty : Pipe → Bool
pipe_empty p = p.head == p.tail

abbrev pub pipe_full : Pipe → Bool
pipe_full p = pipe_size p == page_size - 1

-- (x + 1) & (PAGE_SIZE - 1)
abbrev pub inc_pipe : ℕ → ℕ
inc_pipe x = (x + 1) % page_size

-- wake_up(&inode->i_wait)
abbrev pub wake_head : Option ℕ → (ℕ → TaskState) → ℕ → TaskState
wake_head none state = state
wake_head (some w) state = update state w TaskState.running

unfoldable pub wake_up : Pipe → Pipe
wake_up p = record p { wait = none; state = wake_head p.wait p.state }

-- sleep_on(&inode->i_wait) up to its schedule(). The head that it keeps is null here, since every
-- call comes right after a wake_up(), so nothing is left to do when it goes on.
unfoldable pub sleep_on : Pipe → Pipe
sleep_on p = record p {
  wait = some p.current;
  state = update p.state p.current TaskState.uninterruptible;
}

-- How a call ends: it returns, or sleeps. A read that sleeps starts again; a write that sleeps has
-- the listed bytes left, and has written the given number; `refused` is a result of -1.
pub data Read : Type 0 where
  returned : List ℕ → Pipe → Read
  asleep : Pipe → Read

pub data Write : Type 0 where
  wrote : ℕ → Pipe → Write
  refused : Pipe → Write
  broken : ℕ → Pipe → Write
  asleep : List ℕ → ℕ → Pipe → Write

-- One byte out: put_fs_byte(page[tail]), then INC_PIPE(tail).
unfoldable pub take_byte : Pipe → ℕ × Pipe
take_byte p = (get_or p.page p.tail 0, record p { tail = inc_pipe p.tail })

-- while (count > 0 && !PIPE_EMPTY): the bytes read and the pipe after them
unfoldable pub drain : ℕ → Pipe → List ℕ × Pipe
unfolding take_byte
drain zero p = ([], p)
drain (suc count) p =
    let (b, p') = take_byte p in
    let (bs, p'') = drain count p' in if pipe_empty p then ([], p) else (b ∷ bs, p'')

unfoldable pub read_pipe : ℕ → Pipe → Read
unfolding drain wake_up sleep_on
read_pipe count p =
    if pipe_empty p
    then (if not (p.count == 2) then returned [] (wake_up p) else asleep (sleep_on (wake_up p)))
    else let (bs, p') = drain count p in returned bs (wake_up p')

-- current->signal |= 1 << (SIGPIPE - 1)
unfoldable pub raise_sigpipe : Pipe → Pipe
raise_sigpipe p = record p {
  signal = update p.signal p.current (p.signal p.current ||| bit (sigpipe - 1));
}

-- One byte in: page[head] = get_fs_byte(), INC_PIPE(head), and the reader is woken.
unfoldable pub put_byte : ℕ → Pipe → Pipe
unfolding wake_up
put_byte b p = wake_up (record p { page = set p.page p.head b; head = inc_pipe p.head })

-- while (count-- > 0) over the user's bytes, `done` of them written so far. On a full pipe the
-- inner loop wakes the other end and either sleeps or, with the reader gone, gives up.
unfoldable pub fill : List ℕ → ℕ → Pipe → Write
unfolding put_byte wake_up raise_sigpipe sleep_on
fill [] done p = wrote done (wake_up p)
fill (b ∷ bs) done p = elim (pipe_full p) [
  | true ↦
      if not (p.count == 2)
      then broken done (raise_sigpipe (wake_up p))
      else asleep (b ∷ bs) done (sleep_on (wake_up p))
  | false ↦ fill bs (done + 1) (put_byte b p)
]

-- write_pipe() from its entry
unfoldable pub write_pipe : List ℕ → Pipe → Write
unfolding fill wake_up raise_sigpipe
write_pipe buf p =
    let q = wake_up p in if not (q.count == 2) then refused (raise_sigpipe q) else fill buf 0 q
