-- ===== src/Fs/Files/Reference.antt =====
-- file_read() against a reading of one byte after another along the list of a file's zones.
use linux.Base.{
  ℕ, zero, suc, ◌+◌, ◌-◌, ◌*◌, ◌/◌, ◌%◌, ◌^◌, ◌≡◌, ◌≤◌, ◌<◌, ◌⊎◌, refl, sym, subst, true, false,
  ◌∙◌, ap, inl, inr, Option, none, some, List, [], ◌∷◌, ◌++◌, ltb, ◌==◌, if◌then◌else◌, get_or,
  Bool-cases, arith,
}
use mathlib.Core.List.{append-nil}
use linux.Fs.Inodes.{Slot}
use linux.Fs.Files.Defs.{Volume, Block, block_size, zone_of, file_read}
use linux.Fs.Files.Reading.{byte_in, byte_at, cons_or_stop, contents, left, file_read-contents}

-- f i, f (i + 1) and so on, `n` of them.
unfoldable pub table_from {ℓ} : {A : Type ℓ} → ℕ → ℕ → (ℕ → A) → List A
table_from zero i f = []
table_from (suc n) i f = f i ∷ table_from n (suc i) f

-- A block as 512 numbers of 16 bits, the low byte first.
abbrev pub shorts : Block → List (Option ℕ)
shorts b = table_from 512 0 (λ k. some (b (2 * k) + 256 * b (2 * k + 1)))

-- The zones that the indirect block lists: none can be read if it cannot, and all are holes if
-- there is none.
unfoldable pub indirect_zones : Volume → ℕ → List (Option ℕ)
indirect_zones v ind =
    if ind == 0
    then table_from 512 0 (λ _. some 0)
    else if v.maps.readable ind
    then shorts (v.blocks ind)
    else table_from 512 0 (λ _. none)

-- The 519 zones of a file: seven direct ones, then those that the indirect block lists.
unfoldable pub file_zones : Volume → Slot → List (Option ℕ)
unfolding indirect_zones
file_zones v o =
    table_from 7 0 (λ k. some (get_or o.body.zones k 0))
    ++ indirect_zones v (get_or o.body.zones 7 0)

-- The bytes of a file from a position, up to the first that cannot be read; a hole has zeros.
unfoldable pub file_bytes : Volume → Slot → ℕ → ℕ → List ℕ
file_bytes v o p zero = []
file_bytes v o p (suc n) =
    cons_or_stop (byte_in v (p % block_size) (get_or (file_zones v o) (p / block_size) none))
      (file_bytes v o (suc p) n)

get_or-table_from {ℓ} :
    {A : Type ℓ} (n i k : ℕ) (f : ℕ → A) (rest : List A) (d : A)
    → k < n
    → get_or (table_from n i f ++ rest) k d ≡ f (i + k)
unfolding table_from
get_or-table_from zero i k f rest d h = absurd (omega arith)
get_or-table_from (suc n) i zero f rest d h = ap f (omega arith)
get_or-table_from (suc n) i (suc k) f rest d h =
    get_or-table_from n (suc i) k f rest d (omega arith) ∙ ap f (omega arith)

get_or-behind {ℓ} :
    {A : Type ℓ} (n i k : ℕ) (f : ℕ → A) (rest : List A) (d : A)
    → get_or (table_from n i f ++ rest) (n + k) d ≡ get_or rest k d
unfolding table_from
get_or-behind zero i k f rest d = ap (λ j. get_or rest j d) (omega arith)
get_or-behind (suc n) i k f rest d =
    let e : suc n + k ≡ suc (n + k) = omega arith in rw e (get_or-behind n (suc i) k f rest d)

get_or-table {ℓ} :
    {A : Type ℓ} (n k : ℕ) (f : ℕ → A) (d : A) → k < n → get_or (table_from n 0 f) k d ≡ f k
get_or-table n k f d h =
    ap (λ l. get_or l k d) (sym (append-nil (table_from n 0 f)))
    ∙ get_or-table_from n 0 k f [] d h
    ∙ ap f (omega arith)

indirect_zones-zone_of :
    (v : Volume) (o : Slot) (k : ℕ)
    → k < 512
    → get_or (indirect_zones v (get_or o.body.zones 7 0)) k none ≡ zone_of v o (7 + k)
unfolding indirect_zones zone_of
indirect_zones-zone_of v o k h =
    let ind = get_or o.body.zones 7 0 in
    let far : ltb (7 + k) 7 ≡ false = ground arith in
    let back : 7 + k - 7 ≡ k = omega arith in
    elim (Bool-cases (ind == 0)) [
      | inl e ↦ rw (e, far) (get_or-table 512 k (λ _. some 0) none h)
      | inr e ↦ elim (Bool-cases (v.maps.readable ind)) [
        | inr bad ↦ rw (e, far, bad) (get_or-table 512 k (λ _. none) none h)
        | inl fine ↦
            rw (e, far, fine, back)
              (get_or-table 512 k
                  (λ j. some (v.blocks ind (2 * j) + 256 * v.blocks ind (2 * j + 1))) none h
                ∙ ap some (omega arith))
      ]
    ]

-- The code's zone of a block is the one that stands in the list.
file_zones-zone_of :
    (v : Volume) (o : Slot) (z : ℕ) → z < 519 → get_or (file_zones v o) z none ≡ zone_of v o z
unfolding file_zones zone_of
file_zones-zone_of v o z h = elim (Bool-cases (ltb z 7)) [
  | inl near ↦
      let low : z < 7 = ground arith in
      get_or-table_from 7 0 z (λ k. some (get_or o.body.zones k 0)) _ none low ∙ direct z low
  | inr far ↦
      let k = z - 7 in
      let e : z ≡ 7 + k = ground arith in
      subst (λ y. get_or (file_zones v o) y none ≡ zone_of v o y) (sym e)
        (get_or-behind 7 0 k (λ j. some (get_or o.body.zones j 0))
            (indirect_zones v (get_or o.body.zones 7 0)) none
          ∙ indirect_zones-zone_of v o k (omega arith))
]
  where
    direct : (z : ℕ) → z < 7 → some (get_or o.body.zones (0 + z) 0) ≡ zone_of v o z
    direct z low =
        let e : ltb z 7 ≡ true = ground arith in let e' : 0 + z ≡ z = omega arith in rw (e, e') refl

contents-file_bytes :
    (v : Volume) (o : Slot) (p n : ℕ)
    → p + n ≤ 519 * block_size
    → contents v o p n ≡ file_bytes v o p n
unfolding contents file_bytes byte_at
contents-file_bytes v o p zero h = refl
contents-file_bytes v o p (suc n) h =
    let z = file_zones-zone_of v o (p / block_size) (omega arith) in
    rw (z, contents-file_bytes v o (suc p) n (omega arith)) (at p)
  where
    at :
        (p : ℕ)
        → cons_or_stop (byte_at v o p) (file_bytes v o (suc p) n)
          ≡ cons_or_stop
              (byte_in v (p % block_size) (zone_of v o (p / block_size)))
              (file_bytes v o (suc p) n)
    at p = refl

-- file_read() of a file of at most 519 blocks, which is what seven direct zones and one indirect
-- block hold, with a position and a count below 2^31: it gives the bytes that a reading of one byte
-- after another along the list of its zones gives, from the position, as many as are asked for and
-- the file has: in a hole zeros, and none from the first block on that cannot be read.
pub file_read_lem :
    (v : Volume) (o : Slot) (pos count : ℕ)
    → o.body.size ≤ 519 * block_size
    → pos < 2 ^ 31
    → count < 2 ^ 31
    → file_read v o pos count
      ≡ file_bytes v o pos (if ltb (o.body.size - pos) count then o.body.size - pos else count)
unfolding contents file_bytes
file_read_lem v o pos count small low short =
    file_read-contents v o pos count ∙ go (Bool-cases (ltb pos o.body.size))
  where
    n : ℕ
    n = left o pos count

    go :
        (ltb pos o.body.size ≡ true) ⊎ (ltb pos o.body.size ≡ false)
        → contents v o pos n ≡ file_bytes v o pos n
    go (inl within) = contents-file_bytes v o pos n (ground arith)
    go (inr past) = let e : left o pos count ≡ 0 = ground arith in rw e refl
