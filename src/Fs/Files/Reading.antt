-- ===== src/Fs/Files/Reading.antt =====
-- file_read() against a reading of one byte after another, by the zones that the code finds.
use linux.Base.{
  ℕ, zero, suc, ◌+◌, ◌-◌, ◌/◌, ◌%◌, ◌≡◌, ◌≤◌, ◌<◌, refl, sym, ap, subst, ◌∙◌, inl, inr, ◌||◌,
  Option, none, some, List, [], ◌∷◌, ◌++◌, leb, ◌==◌, if◌then◌else◌, replicate, Bool-cases, arith,
}
use linux.Fs.Inodes.{Slot}
use linux.Fs.Files.Defs.{
  Volume, Block, block_size, zone_of, capped, read_size, bytes_of, deliver, read_loop, file_read,
}

abbrev pub byte_in : Volume → ℕ → Option ℕ → Option ℕ
byte_in v offset none = none
byte_in v offset (some block) =
    if block == 0
    then some 0
    else if v.maps.readable block
    then some (v.blocks block offset)
    else none

-- The byte of a file at a position, 0 in a hole; `none` where it cannot be read.
unfoldable pub byte_at : Volume → Slot → ℕ → Option ℕ
byte_at v o p = byte_in v (p % block_size) (zone_of v o (p / block_size))

abbrev pub cons_or_stop : Option ℕ → List ℕ → List ℕ
cons_or_stop none rest = []
cons_or_stop (some c) rest = c ∷ rest

-- The bytes from a position, up to the first that cannot be read.
unfoldable pub contents : Volume → Slot → ℕ → ℕ → List ℕ
contents v o p zero = []
contents v o p (suc n) = cons_or_stop (byte_at v o p) (contents v o (suc p) n)

-- Bytes that are those of a block.
run_of :
    (v : Volume) (o : Slot) (b : Block) (n p i m : ℕ)
    → ((j : ℕ) → j < n → byte_at v o (p + j) ≡ some (b (i + j)))
    → contents v o p (n + m) ≡ bytes_of b i n ++ contents v o (p + n) m
unfolding contents bytes_of
run_of v o b zero p i m h =
    let e : p + 0 ≡ p = omega arith in let e' : 0 + m ≡ m = omega arith in rw (e, e') refl
run_of v o b (suc n) p i m h =
    let e : byte_at v o p ≡ some (b i) =
      subst (λ q. byte_at v o q ≡ some (b i)) (omega arith)
        (subst (λ q. byte_at v o (p + 0) ≡ some (b q)) (omega arith) (h 0 (omega arith))) in
    let rest = run_of v o b n (suc p) (suc i) m (λ j below.
      subst (λ q. byte_at v o q ≡ some (b (suc i + j))) (omega arith)
        (subst (λ q. byte_at v o (p + suc j) ≡ some (b q)) (omega arith)
          (h (suc j) (omega arith)))) in
    let q : suc p + n ≡ p + suc n = omega arith in
    let k : suc n + m ≡ suc (n + m) = omega arith in rw (k, contents, e, rest, q) refl

zero_bytes : (n i : ℕ) → bytes_of (λ _. 0) i n ≡ replicate n 0
unfolding bytes_of
zero_bytes zero i = refl
zero_bytes (suc n) i = ap (λ r. 0 ∷ r) (zero_bytes n (suc i))

byte_there :
    (v : Volume) (o : Slot) (n p j : ℕ) (r : Option ℕ)
    → p % block_size + n ≤ block_size
    → zone_of v o (p / block_size) ≡ r
    → j < n
    → byte_at v o (p + j) ≡ byte_in v (p % block_size + j) r
unfolding byte_at
byte_there v o n p j r fits e below =
    let q : (p + j) / block_size ≡ p / block_size = omega arith in
    let k : (p + j) % block_size ≡ p % block_size + j = omega arith in rw (q, k, e) refl

stops : (v : Volume) (o : Slot) (p k : ℕ) → byte_at v o p ≡ none → 1 ≤ k → contents v o p k ≡ []
unfolding contents
stops v o p zero e h = absurd (omega arith)
stops v o p (suc k) e h = rw e refl

pub byte_of :
    (v : Volume) (o : Slot) (p : ℕ) (r : Option ℕ)
    → zone_of v o (p / block_size) ≡ r
    → byte_at v o p ≡ byte_in v (p % block_size) r
unfolding byte_at
byte_of v o p r e = rw e refl

-- One round hands over what a reading byte after byte gives.
chunk :
    (v : Volume) (o : Slot) (n p m : ℕ)
    → p % block_size + n ≤ block_size
    → 1 ≤ n
    → contents v o p (n + m)
      ≡ deliver v (p % block_size) n (contents v o (p + n) m) (zone_of v o (p / block_size))
chunk v o n p m fits one = go (zone_of v o (p / block_size)) refl
  where
    go :
        (r : Option ℕ)
        → zone_of v o (p / block_size) ≡ r
        → contents v o p (n + m) ≡ deliver v (p % block_size) n (contents v o (p + n) m) r
    go none e = stops v o p (n + m) (byte_of v o p none e) (omega arith)
    go (some block) e = elim (Bool-cases (block == 0)) [
      | inl hole ↦ rw hole (
          run_of v o (λ _. 0) n p (p % block_size) m
            (λ j below. byte_there v o n p j (some block) fits e below ∙ rw hole refl)
          ∙ ap (λ r. r ++ contents v o (p + n) m) (zero_bytes n (p % block_size)))
      | inr there ↦ elim (Bool-cases (v.maps.readable block)) [
        | inl fine ↦
            rw (there, fine)
              (run_of v o (v.blocks block) n p (p % block_size) m
                (λ j below. byte_there v o n p j (some block) fits e below ∙ rw (there, fine) refl))
        | inr bad ↦
            rw (there, bad)
              (stops v o p (n + m) (byte_of v o p (some block) e ∙ rw (there, bad) refl)
                (omega arith))
      ]
    ]

abbrev pub left : Slot → ℕ → ℕ → ℕ
left o pos count = capped count (o.body.size - pos)

read_loop_lem :
    (n : ℕ) (v : Volume) (o : Slot) (pos count : ℕ)
    → count ≤ n
    → read_loop n v o pos count ≡ contents v o pos (left o pos count)
unfolding read_loop contents
read_loop_lem zero v o pos count enough =
    let e : left o pos count ≡ 0 = ground arith in rw (e, contents) refl
read_loop_lem (suc n) v o pos count enough =
    elim (Bool-cases ((count == 0) || leb o.body.size pos)) [
      | inl done ↦ let e : left o pos count ≡ 0 = ground arith in rw (done, e, contents) refl
      | inr more ↦
          let size = read_size o pos count in
          let some_byte : 1 ≤ size = ground arith in
          let fits : pos % block_size + size ≤ block_size = ground arith in
          let all : left o pos count ≡ size + left o (pos + size) (count - size) = ground arith in
          rw (more, all, read_loop_lem n v o (pos + size) (count - size) (omega arith))
            (sym (chunk v o size pos (left o (pos + size) (count - size)) fits some_byte))
    ]

-- file_read() gives the bytes that a reading of one byte after another gives, from the position, as
-- many as are asked for and the file has: in a hole zeros, and none from the first block on that
-- cannot be read.
pub file_read-contents :
    (v : Volume) (o : Slot) (pos count : ℕ)
    → file_read v o pos count ≡ contents v o pos (left o pos count)
unfolding file_read
file_read-contents v o pos count = read_loop_lem count v o pos count (omega arith)
