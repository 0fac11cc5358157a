-- ===== src/Mm/Space/Window.antt =====
-- The addresses that a user may touch.
use linux.Base.{ℕ, ◌+◌, ◌^◌, ◌≤◌, ◌<◌, ◌≡◌, ◌⊎◌, ◌↔◌, true, arith}
use linux.Mm.Space.Defs.{
  user_addr_ok, window_base, prog_end, heap_end, stack_floor, stack_top, window_top,
}

-- The range from `lo` to below `hi` lies in one of the four regions.
abbrev pub InRegion : ℕ → ℕ → Type 0
InRegion lo hi =
    ((window_base ≤ lo) × (hi ≤ prog_end))
    ⊎ ((prog_end ≤ lo) × (hi ≤ heap_end))
    ⊎ ((stack_floor ≤ lo) × (hi ≤ stack_top))
    ⊎ ((stack_top ≤ lo) × (hi ≤ window_top))

-- user_addr_ok() of a 32-bit address and length accepts exactly the ranges that lie in one of the
-- program, heap, stack and argument regions, also where the 32-bit sum wraps.
pub user_addr_ok_lem :
    (addr len : ℕ)
    → addr < 2 ^ 32
    → len < 2 ^ 32
    → (user_addr_ok addr len ≡ true) ↔ InRegion addr (addr + len)
unfolding user_addr_ok
user_addr_ok_lem addr len a b = (λ h. ground arith, λ h. ground arith)
