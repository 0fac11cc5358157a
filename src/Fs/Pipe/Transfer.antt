-- ===== src/Fs/Pipe/Transfer.antt =====
-- What read_pipe() and write_pipe() do with the bytes in the pipe, on every branch.
use mathlib.Core.List.{append-nil, append_assoc}
use linux.Base.{
  ℕ, zero, suc, ◌+◌, ◌≡◌, ◌≢◌, refl, sym, ap, ◌∙◌, inl, inr, List, [], ◌∷◌, ◌++◌, arith, length,
  min, true, false, ◌==◌, Bool-cases,
}
use linux.Fs.Pipe.Defs.{
  Pipe, Read, Write, returned, wrote, refused, broken, pipe_size, pipe_empty, pipe_full, take_byte,
  put_byte, wake_up, sleep_on, drain, read_pipe, fill, raise_sigpipe,
}
use linux.Fs.Pipe.Queue.{
  IsValid, contents, length-contents, contents-wake_up, wake_up-IsValid, take_byte_lem,
  put_byte_lem,
}

-- The drained bytes are the oldest ones, in order, and as many as were asked for and are there.
pub drain_lem :
    (count : ℕ) (p : Pipe)
    → IsValid p
    → let (bs, q) = drain count p in
      (contents p ≡ bs ++ contents q)
      × IsValid q
      × (length bs ≡ min count (pipe_size p))
      × (q.count ≡ p.count)
unfolding drain
drain_lem zero p v = (refl, v, omega arith, refl)
drain_lem (suc n) p v = elim (Bool-cases (pipe_empty p)) [
  | inl e ↦ let h : p.head ≡ p.tail = ground arith in rw e (refl, v, omega arith, refl)
  | inr e ↦
      let t = take_byte_lem p v e in
      let r = drain_lem n (take_byte p).1 t.1 in
      let l : pipe_size p ≡ suc (pipe_size (take_byte p).1) =
        omega (arith, ap length t.0, length-contents p, length-contents (take_byte p).1) in
      rw e (t.0 ∙ ap (λ x. (take_byte p).0 ∷ x) r.0, r.1, omega (arith, r.2), r.3 ∙ t.2)
]

-- read_pipe(): from a pipe that holds bytes it returns at once with the oldest ones, in order, as
-- many as were asked for and are there. From an empty pipe it returns no byte if the other end is
-- closed, and else sleeps. The bytes that are not returned stay in the pipe.
pub read_pipe_lem :
    (count : ℕ) (p : Pipe)
    → IsValid p
    → (pipe_empty p ≡ false
        → (bs : List ℕ) × (q : Pipe) × (read_pipe count p ≡ returned bs q)
          × (contents p ≡ bs ++ contents q)
          × (length bs ≡ min count (length (contents p)))
          × IsValid q)
      × (pipe_empty p ≡ true → p.count ≢ 2 → read_pipe count p ≡ returned [] (wake_up p))
      × (pipe_empty p ≡ true → p.count ≡ 2 → read_pipe count p ≡ Read.asleep (sleep_on (wake_up p)))
unfolding read_pipe
read_pipe_lem count p v = (
  λ e.
      let d = drain_lem count p v in
      (
        (drain count p).0,
        wake_up (drain count p).1,
        rw e refl,
        d.0,
        d.2 ∙ ap (min count) (sym (length-contents p)),
        wake_up-IsValid (drain count p).1 d.1,
      ),
  λ e c. let b : p.count == 2 ≡ false = ground arith in rw (e, b) refl,
  λ e c. let b : p.count == 2 ≡ true = ground arith in rw (e, b) refl,
)

-- What a write of `bs` has done when it ends, `done` bytes having been written before.
abbrev pub Sent : Pipe → List ℕ → ℕ → Write → Type 0
Sent p bs done (wrote n q) = (n ≡ done + length bs) × (contents q ≡ contents p ++ bs) × IsValid q
Sent p bs done (refused q) = ⊥
Sent p bs done (broken n q) =
    (sent : List ℕ) × (rest : List ℕ) × (bs ≡ sent ++ rest)
    × (n ≡ done + length sent)
    × (contents q ≡ contents p ++ sent)
    × IsValid q
    × (pipe_full q ≡ true)
    × (p.count ≢ 2)
Sent p bs done (Write.asleep rest n q) =
    (sent : List ℕ) × (bs ≡ sent ++ rest)
    × (n ≡ done + length sent)
    × (contents q ≡ contents p ++ sent)
    × IsValid q
    × (pipe_full q ≡ true)
    × (p.count ≡ 2)

-- A byte more in front of what was sent.
Sent-cons :
    (b : ℕ) (bs : List ℕ) (done : ℕ) (p p' : Pipe) (w : Write)
    → contents p' ≡ contents p ++ (b ∷ [])
    → p'.count ≡ p.count
    → Sent p' bs (done + 1) w
    → Sent p (b ∷ bs) done w
Sent-cons b bs done p p' (wrote n q) e c (h, k, v) =
    (omega arith, k ∙ ap (λ x. x ++ bs) e ∙ append_assoc (contents p) (b ∷ []) bs, v)
Sent-cons b bs done p p' (refused q) e c h = h
Sent-cons b bs done p p' (broken n q) e c (s, r, h, k, l, v, f, m) = (
  b ∷ s,
  r,
  ap (λ x. b ∷ x) h,
  omega arith,
  l ∙ ap (λ x. x ++ s) e ∙ append_assoc (contents p) (b ∷ []) s,
  v,
  f,
  rw (sym c) m,
)
Sent-cons b bs done p p' (Write.asleep r n q) e c (s, h, k, l, v, f, m) = (
  b ∷ s,
  ap (λ x. b ∷ x) h,
  omega arith,
  l ∙ ap (λ x. x ++ s) e ∙ append_assoc (contents p) (b ∷ []) s,
  v,
  f,
  sym c ∙ m,
)

raise_sigpipe_keeps :
    (p : Pipe) → IsValid p → (contents (raise_sigpipe p) ≡ contents p) × IsValid (raise_sigpipe p)
unfolding raise_sigpipe
raise_sigpipe_keeps p v =
    (refl, record { whole = v.whole; head_in = v.head_in; tail_in = v.tail_in })

full-wake_up : (p : Pipe) → pipe_full (wake_up p) ≡ pipe_full p
unfolding wake_up
full-wake_up p = refl

full-raise_sigpipe : (p : Pipe) → pipe_full (raise_sigpipe p) ≡ pipe_full p
unfolding raise_sigpipe
full-raise_sigpipe p = refl

contents-sleep_on : (p : Pipe) → contents (sleep_on p) ≡ contents p
unfolding sleep_on
contents-sleep_on p = refl

full-sleep_on : (p : Pipe) → pipe_full (sleep_on p) ≡ pipe_full p
unfolding sleep_on
full-sleep_on p = refl

sleep_on-keeps : (p : Pipe) → IsValid p → IsValid (sleep_on p)
unfolding sleep_on
sleep_on-keeps p v = record { whole = v.whole; head_in = v.head_in; tail_in = v.tail_in }

-- The loop of write_pipe() appends a prefix of the user's bytes: all of them if it returns
-- normally, otherwise as many as fill the pipe. It sleeps if there still is a reader, and gives up
-- if there is none.
pub fill_lem : (bs : List ℕ) (done : ℕ) (p : Pipe) → IsValid p → Sent p bs done (fill bs done p)
unfolding fill
fill_lem [] done p v =
    (omega arith, contents-wake_up p ∙ sym (append-nil (contents p)), wake_up-IsValid p v)
fill_lem (b ∷ bs) done p v = elim (Bool-cases (pipe_full p)) [
  | inr e ↦
      let t = put_byte_lem b p v e in
      rw (e, fill)
        (Sent-cons b bs done p (put_byte b p) _ t.0 t.2 (fill_lem bs (done + 1) (put_byte b p) t.1))
  | inl e ↦ elim (Bool-cases (p.count == 2)) [
    | inl c ↦
        rw (e, fill, c)
          (
            [],
            refl,
            omega arith,
            contents-sleep_on (wake_up p) ∙ contents-wake_up p ∙ sym (append-nil (contents p)),
            sleep_on-keeps (wake_up p) (wake_up-IsValid p v),
            full-sleep_on (wake_up p) ∙ full-wake_up p ∙ e,
            ground arith,
          )
    | inr c ↦
        let k = raise_sigpipe_keeps (wake_up p) (wake_up-IsValid p v) in
        rw (e, fill, c)
          (
            [],
            b ∷ bs,
            refl,
            omega arith,
            k.0 ∙ contents-wake_up p ∙ sym (append-nil (contents p)),
            k.1,
            full-raise_sigpipe (wake_up p) ∙ full-wake_up p ∙ e,
            ground arith,
          )
  ]
]
