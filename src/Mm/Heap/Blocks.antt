-- ===== src/Mm/Heap/Blocks.antt =====
-- Where the blocks of malloc() lie.
use linux.Base.{
  ℕ, ◌+◌, ◌%◌, ◌≡◌, ◌≤◌, ◌<◌, ◌^◌, refl, inl, inr, Option, none, some, List, [], ◌∷◌, ltb,
  Bool-cases, arith,
}
use linux.Mm.Heap.Defs.{kernel_heap_start, kernel_heap_end, rounded, begun, malloc, mallocs}

-- Below this no sum of malloc() wraps.
abbrev pub size_limit : ℕ
size_limit = 4294705144

-- What calls give from the address `e` on: each block is behind the one before it, starts at a
-- multiple of 8, wastes less than 8 bytes and ends within the heap; a call fails only if less than
-- the size and 8 bytes are left.
pub Laid : ℕ → List (ℕ × Option ℕ) → Type 0
Laid e [] = e ≤ kernel_heap_end
Laid e ((size, none) ∷ rs) = (kernel_heap_end < e + size + 8) × Laid e rs
Laid e ((size, some a) ∷ rs) =
    (e ≤ a) × (a % 8 ≡ 0) × ((e' : ℕ) × (a + size ≤ e') × (e' < a + size + 8) × Laid e' rs)

-- Each size is small enough.
unfoldable pub Small : List ℕ → Type 0
Small [] = Unit
Small (size ∷ sizes) = (size ≤ size_limit) × Small sizes

begun_on : (e : ℕ) → kernel_heap_start ≤ e → begun e ≡ e
begun_on e low = ground arith

mallocs-Laid_from :
    (sizes : List ℕ) (e : ℕ)
    → Small sizes
    → kernel_heap_start ≤ e
    → e ≤ kernel_heap_end
    → e % 8 ≡ 0
    → Laid e (mallocs sizes e)
unfolding mallocs malloc Laid Small
mallocs-Laid_from [] e small low high whole = high
mallocs-Laid_from (size ∷ sizes) e (small, others) low high whole =
    elim (Bool-cases (ltb kernel_heap_end ((e + rounded size) % 2 ^ 32))) [
      | inl full ↦
          rw (begun_on e low, full) (ground arith, mallocs-Laid_from sizes e others low high whole)
      | inr fits ↦
          let e' : ℕ = (e + rounded size) % 2 ^ 32 in
          rw (begun_on e low, fits)
            (
              omega arith,
              whole,
              (
                e',
                omega arith,
                omega arith,
                mallocs-Laid_from sizes e' others (omega arith) (ground arith) (omega arith),
              ),
            )
    ]

-- The blocks that calls of malloc() with sizes of at most 4294705144 bytes give, from the first call
-- on: they are disjoint and inside the heap, each starts at a multiple of 8 and wastes less than 8
-- bytes; a call gives NULL only if less than 8 bytes more than its size are left.
pub mallocs-Laid : (sizes : List ℕ) → Small sizes → Laid kernel_heap_start (mallocs sizes 0)
unfolding mallocs malloc
mallocs-Laid [] small =
    mallocs-Laid_from [] kernel_heap_start small (omega arith) (omega arith) refl
mallocs-Laid (size ∷ sizes) small =
    mallocs-Laid_from (size ∷ sizes) kernel_heap_start small (omega arith) (omega arith) refl
