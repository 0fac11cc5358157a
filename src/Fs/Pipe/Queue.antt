-- ===== src/Fs/Pipe/Queue.antt =====
-- A pipe holds a queue of at most PAGE_SIZE - 1 bytes; one byte in and one byte out.
use linux.Base.{
  ℕ, zero, suc, ◌+◌, ◌-◌, ◌%◌, ◌<◌, ◌≡◌, ◌≢◌, refl, ap, ◌∙◌, List, [], ◌∷◌, ◌++◌, arith, length,
  get_or, set, length-set, get_or-set_self, get_or-set_ne, false,
}
use linux.Fs.Pipe.Defs.{
  Pipe, page_size, pipe_size, pipe_empty, pipe_full, inc_pipe, take_byte, put_byte, wake_up,
}

-- The offsets lie in the page, and the page is a whole one.
pub record IsValid (p : Pipe) : Type 0 where
  pub whole : length p.page ≡ page_size
  pub head_in : p.head < page_size
  pub tail_in : p.tail < page_size

-- The `n` bytes of a page from offset `t` on, going round at its end.
pub window : List ℕ → ℕ → ℕ → List ℕ
window page t zero = []
window page t (suc n) = get_or page t 0 ∷ window page ((t + 1) % page_size) n

-- The bytes in the pipe, the oldest first.
abbrev pub contents : Pipe → List ℕ
contents p = window p.page p.tail (pipe_size p)

length-window : (page : List ℕ) (t n : ℕ) → length (window page t n) ≡ n
unfolding window
length-window page t zero = refl
length-window page t (suc n) = ap suc (length-window page ((t + 1) % page_size) n)

pub length-contents : (p : Pipe) → length (contents p) ≡ pipe_size p
length-contents p = length-window p.page p.tail (pipe_size p)

-- A store just past a window extends it.
window-set :
    (page : List ℕ) (b n t i : ℕ)
    → length page ≡ page_size
    → t < page_size
    → n < page_size
    → i ≡ (t + n) % page_size
    → window (set page i b) t (suc n) ≡ window page t n ++ (b ∷ [])
unfolding window
window-set page b zero t i w h k e =
    let q : i ≡ t = omega arith in
    rw q (ap (λ x. x ∷ []) (get_or-set_self page t b 0 (omega arith)))
window-set page b (suc n) t i w h k e =
    let d : i ≢ t = omega arith in
    rw (get_or-set_ne page i t b 0 d) (
      ap (λ r. get_or page t 0 ∷ r)
        (window-set page b n ((t + 1) % page_size) i w (omega arith) (omega arith) (omega arith)))

pub contents-wake_up : (p : Pipe) → contents (wake_up p) ≡ contents p
unfolding wake_up
contents-wake_up p = refl

pub wake_up-IsValid : (p : Pipe) → IsValid p → IsValid (wake_up p)
unfolding wake_up
wake_up-IsValid p v = record { whole = v.whole; head_in = v.head_in; tail_in = v.tail_in }

-- Taking a byte from a pipe that is not empty takes the oldest.
pub take_byte_lem :
    (p : Pipe)
    → IsValid p
    → pipe_empty p ≡ false
    → let (b, q) = take_byte p in (contents p ≡ b ∷ contents q) × IsValid q × (q.count ≡ p.count)
unfolding take_byte window
take_byte_lem p v e =
    let d : p.head ≢ p.tail = ground arith in
    let n : pipe_size p ≡ suc (pipe_size (record p { tail = inc_pipe p.tail })) =
      omega (arith, v.head_in, v.tail_in) in
    (rw n refl, record { whole = v.whole; head_in = v.head_in; tail_in = omega arith }, refl)

-- Putting a byte into a pipe that is not full appends it.
pub put_byte_lem :
    (b : ℕ) (p : Pipe)
    → IsValid p
    → pipe_full p ≡ false
    → (contents (put_byte b p) ≡ contents p ++ (b ∷ []))
      × IsValid (put_byte b p)
      × ((put_byte b p).count ≡ p.count)
unfolding put_byte wake_up
put_byte_lem b p v e =
    let f : pipe_size p ≢ page_size - 1 = ground arith in
    let n : pipe_size (put_byte b p) ≡ suc (pipe_size p) = omega (arith, v.head_in, v.tail_in) in
    (
      rw n (
          window-set p.page b (pipe_size p) p.tail p.head v.whole v.tail_in (omega arith)
            (omega (arith, v.head_in, v.tail_in))),
      record {
        whole = length-set p.page p.head b ∙ v.whole;
        head_in = omega arith;
        tail_in = v.tail_in;
      },
      refl,
    )
