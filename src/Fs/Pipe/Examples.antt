-- ===== src/Fs/Pipe/Examples.antt =====
-- Concrete runs of fs/pipe.c.
use linux.Base.{ℕ, List, [], ◌∷◌, none, arith, replicate, length-replicate, no_bits}
use linux.Kernel.Task.{TaskState}
use linux.Fs.Pipe.Defs.{Pipe}
use linux.Fs.Pipe.Queue.{IsValid}
use linux.Fs.Pipe.Schedule.{Call, reads, writes, Moves, run, run-Moves}

-- An empty pipe with both ends open, and one with the bytes 7 and 8 that goes round the page's end.
abbrev empty_pipe : Pipe
empty_pipe = record {
  page = replicate 4096 0;
  head = 0;
  tail = 0;
  count = 2;
  wait = none;
  state = (λ i. TaskState.running);
  signal = (λ i. no_bits);
  current = 3;
}

abbrev round_pipe : Pipe
round_pipe = record empty_pipe { head = 1; tail = 4095 }

abbrev widowed_pipe : Pipe
widowed_pipe = record empty_pipe { count = 1 }

empty_pipe-IsValid : IsValid empty_pipe
empty_pipe-IsValid = record {
  whole = length-replicate {A = ℕ} 4096 0;
  head_in = omega arith;
  tail_in = omega arith;
}

round_pipe-IsValid : IsValid round_pipe
round_pipe-IsValid = record {
  whole = length-replicate {A = ℕ} 4096 0;
  head_in = omega arith;
  tail_in = omega arith;
}

abbrev some_calls : List Call
some_calls = writes 3 (5 ∷ 6 ∷ []) ∷ reads 4 1 ∷ writes 3 (7 ∷ []) ∷ reads 4 9 ∷ []

run-Moves_example : Moves round_pipe (run some_calls round_pipe)
run-Moves_example = run-Moves some_calls round_pipe round_pipe-IsValid
