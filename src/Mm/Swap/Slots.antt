-- ===== src/Mm/Swap/Slots.antt =====
-- A slot belongs to one page at a time, and a page comes back as it went out.
use linux.Base.{
  ℕ, ◌+◌, ◌-◌, ◌/◌, ◌<◌, ◌≡◌, ◌≢◌, refl, ◌∙◌, ◌⊎◌, inl, inr, true, false, Option, none, some, arith,
  leb, length, get_or, set, update, update_self, update_ne, get_or-set_self, subst,
}
use linux.Mm.State.{Mm, page_size}
use linux.Mm.Frames.{find_free}
use linux.Mm.Frames.Counts.{Found, find_free-Found, count_free-set}
use linux.Mm.Swap.Defs.{
  Disk, IsQuiet, swap_lba, swap_start_lba, swap_slot_sectors, nr_swap_slots, swap_alloc_slot,
  swap_written, swap_read, swap_out_page, swap_in_page, swap_slots_free,
}

-- A slot that swap_alloc_slot() returns was free and is the first free one; it is now in use, no
-- other slot changed, and one slot less is free. It fails exactly when no slot is free.
pub swap_alloc_slot_lem :
    (s : Mm)
    → ((swap_alloc_slot s ≡ none) × (swap_slots_free s ≡ 0))
      ⊎ ((slot : ℕ) × (s' : Mm) × (swap_alloc_slot s ≡ some (slot, s'))
          × (slot < length s.swap_map)
          × (get_or s.swap_map slot 0 ≡ 0)
          × (s' ≡ record s { swap_map = set s.swap_map slot 1 })
          × (swap_slots_free s' + 1 ≡ swap_slots_free s))
unfolding swap_alloc_slot swap_slots_free
swap_alloc_slot_lem s = go (find_free s.swap_map 0) refl (find_free-Found s.swap_map 0)
  where
    go :
        (r : Option ℕ)
        → find_free s.swap_map 0 ≡ r
        → Found s.swap_map 0 (find_free s.swap_map 0)
        → ((swap_alloc_slot s ≡ none) × (swap_slots_free s ≡ 0))
          ⊎ ((slot : ℕ) × (s' : Mm) × (swap_alloc_slot s ≡ some (slot, s'))
              × (slot < length s.swap_map)
              × (get_or s.swap_map slot 0 ≡ 0)
              × (s' ≡ record s { swap_map = set s.swap_map slot 1 })
              × (swap_slots_free s' + 1 ≡ swap_slots_free s))
    go none e f =
        let g : Found s.swap_map 0 none = subst (Found s.swap_map 0) e f in
        inl (rw (e, swap_alloc_slot) refl, g.0)
    go (some k) e f =
        let g : Found s.swap_map 0 (some k) = subst (Found s.swap_map 0) e f in
        let q : k ≡ g.0 = omega (arith, g.1) in
        let l : k < length s.swap_map = omega (arith, g.2) in
        let z : get_or s.swap_map k 0 ≡ 0 = rw q g.3 in
        inr (
          k,
          record s { swap_map = set s.swap_map k 1 },
          rw (e, swap_alloc_slot) refl,
          l,
          z,
          refl,
          count_free-set s.swap_map k 1 l z (λ e. absurd (omega arith)),
        )

lba_slot : (slot : ℕ) → (swap_lba slot - swap_start_lba) / swap_slot_sectors ≡ slot
lba_slot slot = omega arith

-- The state after a page went out to `slot`, and after it came back to `pa'`.
abbrev pub written_out : ℕ → ℕ → Mm → Mm
written_out slot pa s = record s {
  swap_map = set s.swap_map slot 1;
  swap_dev = update s.swap_dev slot (s.ram (pa / page_size));
  nr_swapouts = s.nr_swapouts + 1;
}

abbrev pub read_back : ℕ → ℕ → Mm → Mm
read_back slot pa s = record s {
  ram = update s.ram (pa / page_size) (s.swap_dev slot);
  nr_swapins = s.nr_swapins + 1;
}

pub swap_out_quiet :
    (d : Disk) (s : Mm) (pa slot : ℕ)
    → IsQuiet d
    → swap_alloc_slot s ≡ some (slot, record s { swap_map = set s.swap_map slot 1 })
    → swap_out_page d pa s ≡ (some slot, written_out slot pa s)
unfolding swap_out_page swap_written
swap_out_quiet d s pa slot q e =
    rw
      (
        e,
        swap_out_page,
        q.writes (swap_lba slot) pa (record s { swap_map = set s.swap_map slot 1 }),
        lba_slot slot,
      )
      refl

pub swap_out_none :
    (d : Disk) (pa : ℕ) (s : Mm) → swap_alloc_slot s ≡ none → swap_out_page d pa s ≡ (none, s)
unfolding swap_out_page
swap_out_none d pa s e = rw (e, swap_out_page) refl

pub swap_in_quiet :
    (d : Disk) (s : Mm) (pa slot : ℕ)
    → IsQuiet d
    → slot < nr_swap_slots
    → swap_in_page d slot pa s ≡ (true, read_back slot pa s)
unfolding swap_in_page swap_read
swap_in_quiet d s pa slot q h =
    let b : leb nr_swap_slots slot ≡ false = ground arith in
    rw (b, q.reads (swap_lba slot) pa s, lba_slot slot) refl

-- On a quiet disk swap_out_page() finds a slot whenever one is free, and a page that goes out comes
-- back unchanged, into whatever frame swap_in_page() puts it. The slot was free before and is in use
-- until it is freed, and no other slot's contents change.
pub swap_roundtrip :
    (d : Disk) (s : Mm) (pa pa' : ℕ)
    → IsQuiet d
    → length s.swap_map ≡ nr_swap_slots
    → swap_slots_free s ≢ 0
    → (slot : ℕ) × (s' : Mm) × (s'' : Mm) × (swap_out_page d pa s ≡ (some slot, s'))
      × (swap_in_page d slot pa' s' ≡ (true, s''))
      × (s''.ram (pa' / page_size) ≡ s.ram (pa / page_size))
      × (get_or s.swap_map slot 0 ≡ 0)
      × (get_or s''.swap_map slot 0 ≡ 1)
      × ((k : ℕ) → slot ≢ k → s''.swap_dev k ≡ s.swap_dev k)
swap_roundtrip d s pa pa' q w n = elim (swap_alloc_slot_lem s) [
  | inl (_, z) ↦ absurd (n z)
  | inr (slot, t, e, l, z, k, _) ↦
      let s' = written_out slot pa s in
      (
        slot,
        s',
        read_back slot pa' s',
        swap_out_quiet d s pa slot q (rw k at e),
        swap_in_quiet d s' pa' slot q (omega arith),
        update_self s'.ram (pa' / page_size) (s'.swap_dev slot)
            ∙ update_self s.swap_dev slot (s.ram (pa / page_size)),
        z,
        get_or-set_self s.swap_map slot 1 0 l,
        λ k d. update_ne s.swap_dev slot k (s.ram (pa / page_size)) d,
      )
]
