-- ===== src/Mm/Heap/Examples.antt =====
-- Calls of malloc().
use linux.Base.{ℕ, ◌≡◌, refl, none, some, List, [], ◌∷◌, arith}
use linux.Mm.Heap.Defs.{kernel_heap_start, malloc, mallocs}
use linux.Mm.Heap.Blocks.{Small, Laid, mallocs-Laid}

abbrev sizes : List ℕ
sizes = 5 ∷ 65000 ∷ 600 ∷ 16 ∷ []

sizes-Small : Small sizes
unfolding Small
sizes-Small = (omega arith, (omega arith, (omega arith, (omega arith, tt))))

mallocs-Laid_example : Laid kernel_heap_start (mallocs sizes 0)
mallocs-Laid_example = mallocs-Laid sizes sizes-Small

-- The third does not fit, the fourth does.
third_refused :
    mallocs sizes 0 ≡ (5, some 196608) ∷ (65000, some 196616) ∷ (600, none) ∷ (16, some 261616) ∷ []
unfolding mallocs malloc
third_refused = refl

-- A size of almost 2 ^ 32 wraps: the call succeeds and the heap ends below its start.
huge_wraps : malloc 4294967280 0 ≡ (some 196608, 196592)
unfolding malloc
huge_wraps = refl
