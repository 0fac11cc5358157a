-- ===== src/Fs/Pipe/Schedule.antt =====
-- Readers and writers in any order, and what a writer sees when the reader is gone.
use mathlib.Core.List.{append-nil, append_assoc}
use linux.Base.{
  ℕ, ◌-◌, ◌≡◌, ◌≢◌, refl, sym, ap, ◌∙◌, inl, inr, List, [], ◌∷◌, ◌++◌, arith, length, take, true,
  false, ◌==◌, Bool-cases,
}
use linux.Kernel.Task.{sigpipe}
use linux.Fs.Pipe.Defs.{
  Pipe, Read, Write, returned, wrote, refused, broken, pipe_empty, wake_up, sleep_on, read_pipe,
  fill, write_pipe, raise_sigpipe,
}
use linux.Fs.Pipe.Queue.{IsValid, contents, contents-wake_up, wake_up-IsValid}
use linux.Fs.Pipe.Transfer.{read_pipe_lem, Sent, fill_lem}

-- The calls that reach a pipe, each with the task that makes it: a read of at most so many bytes,
-- a write, and the wake-up of a writer that slept with the listed bytes left.
pub data Call : Type 0 where
  reads : ℕ → ℕ → Call
  writes resumes : ℕ → List ℕ → Call

-- What a call took out of the pipe, what it put in, and the pipe after it.
pub record Effect : Type 0 where
  pub out : List ℕ
  pub in_ : List ℕ
  pub after : Pipe

after_read : Read → Effect
after_read (returned bs q) = record { out = bs; in_ = []; after = q }
after_read (Read.asleep q) = record { out = []; in_ = []; after = q }

-- The accepted bytes are the first ones of the user's buffer, by the count that the call reports.
after_write : List ℕ → Write → Effect
after_write bs (wrote n q) = record { out = []; in_ = take n bs; after = q }
after_write bs (refused q) = record { out = []; in_ = []; after = q }
after_write bs (broken n q) = record { out = []; in_ = take n bs; after = q }
after_write bs (Write.asleep rest n q) = record { out = []; in_ = take n bs; after = q }

-- The pipe with `who` as the calling task.
abbrev pub called_by : ℕ → Pipe → Pipe
called_by who p = record p { current = who }

pub effect : Call → Pipe → Effect
effect (reads who n) p = after_read (read_pipe n (called_by who p))
effect (writes who bs) p = after_write bs (write_pipe bs (called_by who p))
effect (resumes who bs) p = after_write bs (fill bs 0 (called_by who p))

pub run : List Call → Pipe → Effect
run [] p = record { out = []; in_ = []; after = p }
run (c ∷ cs) p =
    let e = effect c p in
    let r = run cs e.after in record { out = e.out ++ r.out; in_ = e.in_ ++ r.in_; after = r.after }

take-length : (xs ys : List ℕ) → take (length xs) (xs ++ ys) ≡ xs
take-length [] ys = refl
take-length (x ∷ xs) ys = ap (λ r. x ∷ r) (take-length xs ys)

-- A call's effect on the queue: what it takes out comes from the front, what it puts in goes behind.
abbrev pub Moves : Pipe → Effect → Type 0
Moves p e = (contents p ++ e.in_ ≡ e.out ++ contents e.after) × IsValid e.after

sent_all : (bs : List ℕ) (n : ℕ) → n ≡ length bs → take n bs ≡ bs
sent_all bs n h = rw h (ap (take (length bs)) (sym (append-nil bs)) ∙ take-length bs [])

sent_part : (bs s r : List ℕ) (n : ℕ) → bs ≡ s ++ r → n ≡ length s → take n bs ≡ s
sent_part bs s r n e h = rw (h, e) (take-length s r)

write-Moves : (p : Pipe) (bs : List ℕ) (w : Write) → Sent p bs 0 w → Moves p (after_write bs w)
unfolding after_write
write-Moves p bs (wrote n q) (h, k, v) = (rw (sent_all bs n (omega arith)) (sym k), v)
write-Moves p bs (refused q) h = absurd h
write-Moves p bs (broken n q) (s, r, h, k, l, v, _, _) =
    (rw (sent_part bs s r n h (omega arith)) (sym l), v)
write-Moves p bs (Write.asleep r n q) (s, h, k, l, v, _, _) =
    (rw (sent_part bs s r n h (omega arith)) (sym l), v)

write_pipe-refused :
    (bs : List ℕ) (p : Pipe) → p.count ≢ 2 → write_pipe bs p ≡ refused (raise_sigpipe (wake_up p))
unfolding write_pipe wake_up
write_pipe-refused bs p c = let e : p.count == 2 ≡ false = ground arith in rw e refl

write_pipe-fills : (bs : List ℕ) (p : Pipe) → p.count ≡ 2 → write_pipe bs p ≡ fill bs 0 (wake_up p)
unfolding write_pipe wake_up
write_pipe-fills bs p c = let e : p.count == 2 ≡ true = ground arith in rw e refl

Moves-wake_up : (p : Pipe) (e : Effect) → Moves (wake_up p) e → Moves p e
Moves-wake_up p e h = (ap (λ x. x ++ e.in_) (sym (contents-wake_up p)) ∙ h.0, h.1)

sleep_on-IsValid : (p : Pipe) → IsValid p → IsValid (sleep_on p)
unfolding sleep_on
sleep_on-IsValid p v = record { whole = v.whole; head_in = v.head_in; tail_in = v.tail_in }

called_by-IsValid : (who : ℕ) (p : Pipe) → IsValid p → IsValid (called_by who p)
called_by-IsValid who p v = record { whole = v.whole; head_in = v.head_in; tail_in = v.tail_in }

write_pipe-Moves : (bs : List ℕ) (p : Pipe) → IsValid p → Moves p (after_write bs (write_pipe bs p))
unfolding after_write raise_sigpipe wake_up
write_pipe-Moves bs p v = elim (Bool-cases (p.count == 2)) [
  | inl c ↦ rw (write_pipe-fills bs p (ground arith)) (
      Moves-wake_up p (after_write bs (fill bs 0 (wake_up p))) (
        write-Moves (wake_up p) bs (fill bs 0 (wake_up p))
          (fill_lem bs 0 (wake_up p) (wake_up-IsValid p v))))
  | inr c ↦ rw (write_pipe-refused bs p (ground arith)) (
    append-nil (contents p),
    record { whole = v.whole; head_in = v.head_in; tail_in = v.tail_in },
  )
]

read_pipe-Moves : (n : ℕ) (p : Pipe) → IsValid p → Moves p (after_read (read_pipe n p))
unfolding after_read wake_up sleep_on
read_pipe-Moves n p v = elim (Bool-cases (pipe_empty p)) [
  | inr e ↦ let r = (read_pipe_lem n p v).0 e in rw (r.2) (append-nil (contents p) ∙ r.3, r.5)
  | inl e ↦ elim (Bool-cases (p.count == 2)) [
    | inl c ↦
        rw ((read_pipe_lem n p v).2 e (ground arith))
          (append-nil (contents p), sleep_on-IsValid (wake_up p) (wake_up-IsValid p v))
    | inr c ↦
        rw ((read_pipe_lem n p v).1 e (ground arith)) (append-nil (contents p), wake_up-IsValid p v)
  ]
]

-- One call moves bytes through the queue.
effect-Moves : (c : Call) (p : Pipe) → IsValid p → Moves p (effect c p)
unfolding effect
effect-Moves (resumes who bs) p v =
    let u = called_by-IsValid who p v in
    write-Moves (called_by who p) bs (fill bs 0 (called_by who p))
      (fill_lem bs 0 (called_by who p) u)
effect-Moves (writes who bs) p v = write_pipe-Moves bs (called_by who p) (called_by-IsValid who p v)
effect-Moves (reads who n) p v = read_pipe-Moves n (called_by who p) (called_by-IsValid who p v)

-- Whatever calls of whatever tasks reach a valid pipe, and in whatever order, the bytes come out in the order in which
-- they went in, none lost and none twice: what was in the pipe and then what was accepted is what
-- was read and then what is in the pipe. The pipe stays valid.
pub run-Moves : (cs : List Call) (p : Pipe) → IsValid p → Moves p (run cs p)
unfolding run
run-Moves [] p v = (append-nil (contents p), v)
run-Moves (c ∷ cs) p v =
    let e = effect c p in
    let m = effect-Moves c p v in
    let r = run-Moves cs e.after m.1 in
    (
      sym (append_assoc (contents p) e.in_ (run cs e.after).in_)
          ∙ ap (λ x. x ++ (run cs e.after).in_) m.0
          ∙ append_assoc e.out (contents e.after) (run cs e.after).in_
          ∙ ap (λ x. e.out ++ x) r.0
          ∙ sym (append_assoc e.out (run cs e.after).out (contents (run cs e.after).after)),
      r.1,
    )

-- A write to a pipe whose reader is gone accepts nothing and leaves the contents. The bit that it
-- sets among the caller's pending signals is SIGPIPE - 1, and the bit of SIGPIPE stays as it was.
pub write_closed :
    (bs : List ℕ) (p : Pipe)
    → p.count ≢ 2
    → (q : Pipe) × (write_pipe bs p ≡ refused q)
      × (contents q ≡ contents p)
      × (q.signal p.current (sigpipe - 1) ≡ true)
      × (q.signal p.current sigpipe ≡ p.signal p.current sigpipe)
unfolding raise_sigpipe wake_up
write_closed bs p c =
    (raise_sigpipe (wake_up p), write_pipe-refused bs p c, refl, ground arith, ground arith)
