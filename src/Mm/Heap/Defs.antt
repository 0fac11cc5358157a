-- ===== src/Mm/Heap/Defs.antt =====
-- malloc() of lib/malloc.c with the bounds of include/linux/memmap.h. free() does nothing. The state
-- is the static heap_end.
use linux.Base.{
  ℕ, ◌+◌, ◌*◌, ◌/◌, ◌%◌, ◌^◌, Option, none, some, List, [], ◌∷◌, ltb, ◌==◌, if◌then◌else◌,
}

-- KERNEL_HEAP_START and KERNEL_HEAP_END
abbrev pub kernel_heap_start : ℕ
kernel_heap_start = 3 * 2 ^ 16

abbrev pub kernel_heap_end : ℕ
kernel_heap_end = 4 * 2 ^ 16

-- (size + 7) & ~7
abbrev pub rounded : ℕ → ℕ
rounded size = (size + 7) % 2 ^ 32 / 8 * 8

-- Before the first call heap_end is 0.
abbrev pub begun : ℕ → ℕ
begun heap_end = if heap_end == 0 then kernel_heap_start else heap_end

-- The address, `none` for NULL, and the new heap_end
unfoldable pub malloc : ℕ → ℕ → Option ℕ × ℕ
malloc size heap_end =
    if ltb kernel_heap_end ((begun heap_end + rounded size) % 2 ^ 32)
    then (none, begun heap_end)
    else (some (begun heap_end), (begun heap_end + rounded size) % 2 ^ 32)

-- A sequence of calls, each with its size and what it gives.
unfoldable pub mallocs : List ℕ → ℕ → List (ℕ × Option ℕ)
mallocs [] heap_end = []
mallocs (size ∷ sizes) heap_end = let (r, e) = malloc size heap_end in (size, r) ∷ mallocs sizes e
