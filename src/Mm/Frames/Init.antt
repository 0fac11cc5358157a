-- ===== src/Mm/Frames/Init.antt =====
-- mem_init(): which frames the map starts with.
use linux.Base.{
  ℕ, zero, suc, ◌+◌, ◌-◌, ◌*◌, ◌/◌, ◌≤◌, ◌<◌, ◌≡◌, ◌≢◌, refl, ◌∙◌, ◌⊎◌, inl, inr, List, arith, ltb,
  ◌==◌, if◌then◌else◌, length, get_or, set, replicate, length-set, length-replicate,
  get_or-set_self, get_or-set_ne, get_or_past, Bool-cases,
}
use mathlib.Core.Path.{subst}
use native.Mathlib.Decide.{ℕ_discrete}
use linux.Mm.State.{page_size, low_mem, used, map_nr}

abbrev pub kernel_tables_end : ℕ
kernel_tables_end = 0x105000

abbrev pub ktables : ℕ
ktables = (kernel_tables_end - low_mem + page_size - 1) / page_size

-- for (j = first; ...; j++) mem_map[j] = USED, `n` rounds; a store past the map is not made.
unfoldable pub reserve : ℕ → ℕ → List ℕ → List ℕ
reserve zero j cs = cs
reserve (suc n) j cs = reserve n (j + 1) (set cs j used)

-- The last loop skips a frame that is not free.
unfoldable pub reserve_free : ℕ → ℕ → List ℕ → List ℕ
reserve_free zero j cs = cs
reserve_free (suc n) j cs =
    reserve_free n (j + 1) (if get_or cs j 0 == 0 then set cs j used else cs)

abbrev pub max_map_nr : ℕ → ℕ
max_map_nr end_mem = (end_mem - low_mem) / page_size

-- where mem_map[] itself lies: 4 bytes for each frame, at the top
abbrev pub map_start : ℕ → ℕ
map_start end_mem = end_mem - max_map_nr end_mem * 4

abbrev pub map_first : ℕ → ℕ
map_first end_mem = map_nr (map_start end_mem / page_size * page_size)

abbrev pub map_last : ℕ → ℕ
map_last end_mem = map_nr (map_start end_mem + max_map_nr end_mem * 4 - 1)

abbrev pub zeros : ℕ → List ℕ
zeros n = replicate n 0

-- The counts that mem_init(start_mem, end_mem) leaves, for an end of memory above low_mem.
unfoldable pub mem_init : ℕ → ℕ → List ℕ
unfolding reserve reserve_free
mem_init start_mem end_mem =
    let zeroed = zeros (max_map_nr end_mem) in
    let tables = reserve ktables 0 zeroed in
    let itself = reserve (map_last end_mem + 1 - map_first end_mem) (map_first end_mem) tables in
    if ltb (low_mem + ktables * page_size) start_mem
    then reserve_free (map_nr (start_mem - 1) + 1 - ktables) ktables itself
    else itself

length-reserve : (n j : ℕ) (cs : List ℕ) → length (reserve n j cs) ≡ length cs
unfolding reserve
length-reserve zero j cs = refl
length-reserve (suc n) j cs = length-reserve n (j + 1) (set cs j used) ∙ length-set cs j used

-- Outside its range the loop changes nothing.
reserve_out :
    (n j i : ℕ) (cs : List ℕ) → (i < j) ⊎ (j + n ≤ i) → get_or (reserve n j cs) i 0 ≡ get_or cs i 0
unfolding reserve
reserve_out zero j i cs h = refl
reserve_out (suc n) j i cs h =
    let d : j ≢ i = λ e. omega (arith, e) in
    reserve_out n (j + 1) i (set cs j used) (omega arith) ∙ get_or-set_ne cs j i used 0 d

reserve_in :
    (n j i : ℕ) (cs : List ℕ)
    → j ≤ i
    → i < j + n
    → i < length cs
    → get_or (reserve n j cs) i 0 ≡ used
unfolding reserve
reserve_in zero j i cs a b l = absurd (omega arith)
reserve_in (suc n) j i cs a b l = elim (ℕ_discrete j i) [
  | yes e ↦
      reserve_out n (j + 1) i (set cs j used) (omega arith) ∙ rw e (get_or-set_self cs i used 0 l)
  | no d ↦
      reserve_in n (j + 1) i (set cs j used) (omega arith) (omega arith)
        (omega (arith, length-set cs j used))
]

reserve_keeps :
    (n j i : ℕ) (cs : List ℕ) → get_or cs i 0 ≡ used → get_or (reserve n j cs) i 0 ≡ used
unfolding reserve
reserve_keeps zero j i cs h = h
reserve_keeps (suc n) j i cs h = reserve_keeps n (j + 1) i (set cs j used) (elim (ℕ_discrete j i) [
  | yes e ↦ rw e (get_or-set_self cs i used 0 (inside cs i h))
  | no d ↦ get_or-set_ne cs j i used 0 d ∙ h
])
  where
    inside : (cs : List ℕ) (i : ℕ) → get_or cs i 0 ≡ used → i < length cs
    inside cs i h = elim (Bool-cases (ltb i (length cs))) [
      | inl b ↦ ground arith
      | inr b ↦
          let z : get_or cs i 0 ≡ 0 = get_or_past cs i 0 (ground arith) in
          absurd (omega (arith, z, h))
    ]

reserve_free_out :
    (n j i : ℕ) (cs : List ℕ)
    → (i < j) ⊎ (j + n ≤ i)
    → get_or (reserve_free n j cs) i 0 ≡ get_or cs i 0
unfolding reserve_free
reserve_free_out zero j i cs h = refl
reserve_free_out (suc n) j i cs h =
    let d : j ≢ i = λ e. omega (arith, e) in
    elim (Bool-cases (get_or cs j 0 == 0)) [
      | inl b ↦ rw b (
          reserve_free_out n (j + 1) i (set cs j used) (omega arith)
          ∙ get_or-set_ne cs j i used 0 d)
      | inr b ↦ rw b (reserve_free_out n (j + 1) i cs (omega arith))
    ]

reserve_free_keeps :
    (n j i : ℕ) (cs : List ℕ) → get_or cs i 0 ≡ used → get_or (reserve_free n j cs) i 0 ≡ used
unfolding reserve_free
reserve_free_keeps zero j i cs h = h
reserve_free_keeps (suc n) j i cs h = elim (Bool-cases (get_or cs j 0 == 0)) [
  | inr b ↦ rw b (reserve_free_keeps n (j + 1) i cs h)
  | inl b ↦
      let z : get_or cs j 0 ≡ 0 = ground arith in
      let d : j ≢ i = λ e. clash cs j i h z e in
      rw b (reserve_free_keeps n (j + 1) i (set cs j used) (get_or-set_ne cs j i used 0 d ∙ h))
]
  where
    clash : (cs : List ℕ) (j i : ℕ) → get_or cs i 0 ≡ used → get_or cs j 0 ≡ 0 → j ≡ i → ⊥
    clash cs j i h z e =
        let q : get_or cs i 0 ≡ 0 = subst (λ k. get_or cs k 0 ≡ 0) e z in
        absurd (omega (arith, q, h))

get_or-zeroed : (n i : ℕ) → get_or (zeros n) i 0 ≡ 0
get_or-zeroed zero i = refl
get_or-zeroed (suc n) zero = refl
get_or-zeroed (suc n) (suc i) = get_or-zeroed n i

-- The map before the last loop.
two_ranges :
    (a first n i : ℕ) (cs : List ℕ)
    → i < length cs
    → (i < a) ⊎ ((first ≤ i) × (i < first + n))
    → get_or (reserve n first (reserve a 0 cs)) i 0 ≡ used
two_ranges a first n i cs l (inl h) =
    reserve_keeps n first i (reserve a 0 cs) (reserve_in a 0 i cs (omega arith) (omega arith) l)
two_ranges a first n i cs l (inr (p, q)) =
    reserve_in n first i (reserve a 0 cs) p q (omega (arith, length-reserve a 0 cs))

-- mem_init() reserves the frames of the kernel's page tables and those of mem_map[] itself, at the
-- top of memory. A frame between them is free if it lies beyond the end of the kernel image.
pub mem_init_lem :
    (start_mem end_mem i : ℕ)
    → low_mem ≤ end_mem
    → i < max_map_nr end_mem
    → ((i < ktables) ⊎ (map_first end_mem ≤ i) → get_or (mem_init start_mem end_mem) i 0 ≡ used)
      × (ktables ≤ i
          → i < map_first end_mem
          → (start_mem ≤ low_mem + ktables * page_size) ⊎ (map_nr (start_mem - 1) < i)
          → get_or (mem_init start_mem end_mem) i 0 ≡ 0)
unfolding mem_init
mem_init_lem start_mem end_mem i h l = (
  λ o.
      let u =
        two_ranges ktables (map_first end_mem) (map_last end_mem + 1 - map_first end_mem) i
          (zeros (max_map_nr end_mem)) size (covered o) in
      elim (Bool-cases (ltb (low_mem + ktables * page_size) start_mem)) [
        | inl b ↦ rw b (reserve_free_keeps (map_nr (start_mem - 1) + 1 - ktables) ktables i _ u)
        | inr b ↦ rw b u
      ],
  λ a b o.
      let n = map_last end_mem + 1 - map_first end_mem in
      let cs = zeros (max_map_nr end_mem) in
      let z : get_or (reserve n (map_first end_mem) (reserve ktables 0 cs)) i 0 ≡ 0 =
        reserve_out n (map_first end_mem) i (reserve ktables 0 cs) (inl b)
        ∙ reserve_out ktables 0 i cs (inr a)
        ∙ get_or-zeroed (max_map_nr end_mem) i in
      elim (Bool-cases (ltb (low_mem + ktables * page_size) start_mem)) [
        | inl c ↦
            let beyond : map_nr (start_mem - 1) < i = ground arith in
            rw c (
              reserve_free_out (map_nr (start_mem - 1) + 1 - ktables) ktables i _
                (inr (omega arith))
              ∙ z)
        | inr c ↦ rw c z
      ],
)
  where
    size : i < length (zeros (max_map_nr end_mem))
    size = omega (arith, length-replicate {A = ℕ} (max_map_nr end_mem) 0)

    last : i < map_last end_mem + 1
    last = omega arith

    covered :
        (i < ktables) ⊎ (map_first end_mem ≤ i)
        → (i < ktables)
          ⊎ ((map_first end_mem ≤ i)
              × (i < map_first end_mem + (map_last end_mem + 1 - map_first end_mem)))
    covered (inl o) = inl o
    covered (inr o) = inr (o, omega (arith, last))
