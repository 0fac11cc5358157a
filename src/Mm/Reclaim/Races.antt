-- ===== src/Mm/Reclaim/Races.antt =====
-- What the reclaimer does when the world changed while the disk was written, and what is lost when
-- it drops a COW mapping.
use linux.Base.{
  ℕ, ◌<◌, ◌≡◌, ◌≢◌, refl, ◌⊎◌, inl, inr, Bool, true, false, not, ◌||◌, Option, none, some, arith,
  length, update_self, Bool-cases, get_or-set_self,
}
use linux.Mm.State.{Mm, MmTask, Pte, Table, no_pte, pt_get, pt_set, with_entry, frame_count}
use linux.Mm.Frames.{free_page}
use linux.Mm.Swap.{swap_free_slot}
use linux.Mm.Reclaim.Defs.{going, gave_up, Fallback, same_bit, same_pte, same_task, swapped_out}
use linux.Mm.Reclaim.Scan.{drop_mapping, conclude}

same_bit_eq : (b c : Bool) → same_bit b c ≡ true → b ≡ c
same_bit_eq true true e = refl
same_bit_eq true false e = cc
same_bit_eq false true e = cc
same_bit_eq false false e = refl

same_bit_refl : (b : Bool) → same_bit b b ≡ true
same_bit_refl true = refl
same_bit_refl false = refl

-- The comparison of two entries decides their equality.
pub same_pte_eq : (p q : Pte) → same_pte p q ≡ true → p ≡ q
unfolding same_pte
same_pte_eq p q e = ground (
  arith,
  same_bit_eq p.present q.present,
  same_bit_eq p.rw q.rw,
  same_bit_eq p.user q.user,
  same_bit_eq p.accessed q.accessed,
  same_bit_eq p.dirty q.dirty,
  same_bit_eq p.cow q.cow,
  same_bit_eq p.swapped q.swapped,
)

-- The entry lies in a table that the directory has.
abbrev pub InTable : Mm → ℕ → ℕ → Type 0
InTable s dir i = (table : Table) × (s.dirs dir ≡ some table) × (i < length table.entries)

pub pt_get-pt_set :
    (s : Mm) (dir i : ℕ) (pte : Pte) → InTable s dir i → pt_get (pt_set s dir i pte) dir i ≡ pte
pt_get-pt_set s dir i pte (table, e, l) =
    rw (update_self s.dirs dir (with_entry (s.dirs dir) i pte), e)
      (get_or-set_self table.entries i pte no_pte l)

pub free_page_keeps :
    (addr : ℕ) (s : Mm)
    → ((free_page addr s).dirs ≡ s.dirs)
      × ((free_page addr s).swap_dev ≡ s.swap_dev)
      × ((free_page addr s).swap_map ≡ s.swap_map)
      × ((free_page addr s).ram ≡ s.ram)
unfolding free_page
free_page_keeps addr s = (ground arith, ground arith, ground arith, ground arith)

swap_free_slot_keeps :
    (slot : ℕ) (s : Mm)
    → ((swap_free_slot slot s).mem_map ≡ s.mem_map) × ((swap_free_slot slot s).dirs ≡ s.dirs)
unfolding swap_free_slot
swap_free_slot_keeps slot s = (ground arith, ground arith)

-- If the entry is not what it was before the page was written to the disk, or the slot of the task
-- table holds no task any more, the reclaimer gives up: no frame is released, no entry changes, and
-- the swap slot is given back.
pub swap_race :
    (n idx : ℕ) (t : MmTask) (i : ℕ) (pte : Pte) (fb : Option Fallback) (slot : ℕ) (s : Mm)
    → (pt_get s t.pg_dir i ≢ pte) ⊎ (s.task idx ≡ none)
    → (s' : Mm) × (swapped_out n idx t i pte fb (some slot, s) ≡ gave_up s')
      × (s' ≡ swap_free_slot slot s)
      × (s'.mem_map ≡ s.mem_map)
      × (s'.dirs ≡ s.dirs)
unfolding swapped_out
swap_race n idx t i pte fb slot s h = (
  swap_free_slot slot s,
  rw changed refl,
  refl,
  (swap_free_slot_keeps slot s).0,
  (swap_free_slot_keeps slot s).1,
)
  where
    changed : not (same_task (s.task idx) t) || not (same_pte (pt_get s t.pg_dir i) pte) ≡ true
    changed = elim h [
      | inr e ↦ rw e refl
      | inl d ↦ elim (Bool-cases (same_pte (pt_get s t.pg_dir i) pte)) [
        | inl q ↦ absurd (d (same_pte_eq (pt_get s t.pg_dir i) pte q))
        | inr q ↦ rw q (ground arith)
      ]
    ]

-- When nothing better is found, the scan empties the first COW entry that it met and reports
-- success. The frame's count keeps the reference that the entry was, and the entry names neither a
-- frame nor a slot any more.
pub drop_lem :
    (f : Fallback) (s : Mm)
    → InTable s f.dir f.index
    → (s' : Mm) × (conclude (going s (some f)) ≡ (true, s'))
      × (pt_get s' f.dir f.index ≡ no_pte)
      × ((i : ℕ) → frame_count s' i ≡ frame_count s i)
      × (s'.swap_map ≡ s.swap_map)
unfolding conclude drop_mapping
drop_lem f s t = (drop_mapping f s, refl, pt_get-pt_set s f.dir f.index no_pte t, λ i. refl, refl)
