-- ===== src/Mm/Space/Alloc.antt =====
-- get_free_page(): one scan, then up to 32 rounds of reclaiming and scanning again.
use linux.Base.{ℕ, zero, suc, true, false, none, some}
use linux.Mm.State.{Mm}
use linux.Mm.Frames.{grab}
use linux.Mm.Swap.{Disk}
use linux.Mm.Reclaim.{try_to_free_page}

abbrev pub reclaim_rounds : ℕ
reclaim_rounds = 32

module _ (d : Disk) where
  -- `k` rounds are left; address 0 is failure.
  unfoldable pub reclaim_loop : ℕ → Mm → ℕ × Mm
  reclaim_loop zero s = (0, s)
  reclaim_loop (suc k) s =
      let (ok, s') = try_to_free_page d s in
      elim ok [ false ↦ (0, s') | true ↦ elim (grab s') [ some r ↦ r | none ↦ reclaim_loop k s' ] ]

  unfoldable pub get_free_page : Mm → ℕ × Mm
  unfolding reclaim_loop
  get_free_page s = elim (grab s) [ some r ↦ r | none ↦ reclaim_loop reclaim_rounds s ]
