-- ===== src/Mm/Reclaim/Contents.antt =====
-- What the page was that the visit of an entry reclaims on a quiet disk.
use linux.Base.{
  ℕ, zero, suc, ◌+◌, ◌*◌, ◌/◌, ◌≡◌, ◌≤◌, ◌<◌, refl, ap, ◌∙◌, ◌⊎◌, inl, inr, true, false, not, ◌&&◌,
  ◌||◌, Option, none, some, arith, List, [], ◌∷◌, ltb, leb, ◌==◌, get_or, update_self, Bool-cases,
  get_or-set_self,
}
use linux.Mm.State.{
  Mm, MmTask, Pte, Region, no_pte, swap_pte, frame_address, page_size, pt_get, pt_set,
}
use linux.Mm.Swap.{Disk, IsQuiet, swap_out_page}
use linux.Mm.Swap.Slots.{swap_out_quiet, swap_out_none, swap_alloc_slot_lem, written_out}
use linux.Mm.Reclaim.Defs.{
  Visit, going, reclaimed, gave_up, Fallback, evict, same_pte, same_task, swapped_out, visit,
  page_is_zero, is_clean_text, in_clean_region, all_zero, user_base,
}
use linux.Mm.Reclaim.Races.{InTable, pt_get-pt_set, free_page_keeps}

-- The address lies in a region that is not writable.
abbrev pub InReadOnly : List Region → ℕ → Type 0
InReadOnly [] va = ⊥
InReadOnly (r ∷ rs) va =
    ((r.va ≤ va) × (va < r.va + r.memsz) × (r.writable ≡ false)) ⊎ InReadOnly rs va

in_clean_region-InReadOnly :
    (rs : List Region) (va : ℕ) → in_clean_region rs va ≡ true → InReadOnly rs va
unfolding in_clean_region
in_clean_region-InReadOnly [] va e = absurd (cc)
in_clean_region-InReadOnly (r ∷ rs) va e =
    elim (Bool-cases (ltb va r.va || leb (r.va + r.memsz) va)) [
      | inl out ↦ inr (in_clean_region-InReadOnly rs va (rw out at e))
      | inr within ↦
          let shut : not r.writable ≡ true = rw within at e in
          inl (ground arith, ground arith, ground arith)
    ]

all_zero_at : (ws : List ℕ) (k : ℕ) → all_zero ws ≡ true → get_or ws k 0 ≡ 0
unfolding all_zero
all_zero_at [] k e = refl
all_zero_at (w ∷ ws) zero e = ground arith
all_zero_at (w ∷ ws) (suc k) e = all_zero_at ws k (ground arith)

-- What a page at address `va` was that is not kept in core: every word of it was zero, or it lies in
-- a region of the executable that is not writable, or the entry names the swap slot, free before,
-- that now holds it.
abbrev pub Kept : MmTask → ℕ → Mm → Mm → Type 0
Kept t i s s' =
    let pte = pt_get s t.pg_dir i in
    (((k : ℕ) → get_or (s.ram (frame_address pte / page_size)) k 0 ≡ 0)
      × (pt_get s' t.pg_dir i ≡ no_pte))
    ⊎ ((t.has_exe ≡ true)
        × InReadOnly t.regions (user_base + i * page_size)
        × (pt_get s' t.pg_dir i ≡ no_pte))
    ⊎ ((slot : ℕ) × (pt_get s' t.pg_dir i ≡ swap_pte slot)
        × (s'.swap_dev slot ≡ s.ram (frame_address pte / page_size))
        × (get_or s.swap_map slot 0 ≡ 0)
        × (get_or s'.swap_map slot 0 ≡ 1))

zero_page :
    (pa : ℕ) (s : Mm) → page_is_zero pa s ≡ true → (k : ℕ) → get_or (s.ram (pa / page_size)) k 0 ≡ 0
unfolding page_is_zero
zero_page pa s e k = all_zero_at (s.ram (pa / page_size)) k e

text_page :
    (t : MmTask) (va : ℕ) → is_clean_text t va ≡ true → (t.has_exe ≡ true) × InReadOnly t.regions va
unfolding is_clean_text
text_page t va e = (ground arith, in_clean_region-InReadOnly t.regions va (ground arith))

-- The ways in which a visit may end.
abbrev pub Safe : ℕ → MmTask → ℕ → Mm → Visit → Type 0
Safe round t i s (going s' fb) = Unit {0}
Safe round t i s (gave_up s') = Unit {0}
Safe round t i s (reclaimed s') =
    let pte = pt_get s t.pg_dir i in
    (pte.present ≡ true)
    × (pte.user ≡ true)
    × (pte.cow ≡ false)
    × (round ≡ 0 → pte.accessed ≡ false)
    × Kept t i s s'

pub evict_lem :
    (dir i n : ℕ) (pte : Pte) (pa : ℕ) (s : Mm)
    → InTable s dir i
    → (pt_get (evict dir i n pte pa s) dir i ≡ pte)
      × ((evict dir i n pte pa s).swap_dev ≡ s.swap_dev)
      × ((evict dir i n pte pa s).swap_map ≡ s.swap_map)
unfolding evict
evict_lem dir i n pte pa s t =
    let k = free_page_keeps pa (pt_set s dir i pte) in
    (rw (k.0) (pt_get-pt_set s dir i pte t), k.1, k.2)

module _ (d : Disk) (q : IsQuiet d) (round pass n idx : ℕ) (t : MmTask) (i : ℕ) (s : Mm) where
  -- The swap branch: the slot that was taken now holds the page.
  swapped-Safe :
      (fb : Option Fallback)
      → InTable s t.pg_dir i
      → (pt_get s t.pg_dir i).present ≡ true
      → (pt_get s t.pg_dir i).user ≡ true
      → (pt_get s t.pg_dir i).cow ≡ false
      → (round ≡ 0 → (pt_get s t.pg_dir i).accessed ≡ false)
      → Safe round t i s (
          swapped_out n idx t i
            (pt_get s t.pg_dir i)
            fb
            (swap_out_page d (frame_address (pt_get s t.pg_dir i)) s))
  unfolding swapped_out
  swapped-Safe fb tab p u c a = elim (swap_alloc_slot_lem s) [
    | inl (e, _) ↦ rw (swap_out_none d (frame_address (pt_get s t.pg_dir i)) s e) tt
    | inr (slot, s', e, l, z, k, _) ↦
        let pte = pt_get s t.pg_dir i in
        let pa = frame_address pte in
        let w = written_out slot pa s in
        let v = evict_lem t.pg_dir i n (swap_pte slot) pa w tab in
        rw (swap_out_quiet d s pa slot q (rw k at e))
          (elim (Bool-cases
            (not (same_task (w.task idx) t) || not (same_pte (pt_get w t.pg_dir i) pte))) [
              | inl b ↦ rw b tt
              | inr b ↦ rw b (
                p,
                u,
                c,
                a,
                inr (
                    inr (
                      slot,
                      v.0,
                      ap (λ (f : ℕ → List ℕ). f slot) v.1
                          ∙ update_self s.swap_dev slot (s.ram (pa / page_size)),
                      z,
                      ap (λ (m : List ℕ). get_or m slot 0) v.2
                          ∙ get_or-set_self s.swap_map slot 1 0 l,
                    )),
              )
            ])
  ]

  -- The tests after the reference bit.
  fresh-Safe :
      (fb : Option Fallback)
      → InTable s t.pg_dir i
      → not (pt_get s t.pg_dir i).present || not (pt_get s t.pg_dir i).user ≡ false
      → round == 0 && (pt_get s t.pg_dir i).accessed ≡ false
      → Safe round t i s (visit d round pass n idx t i s fb)
  unfolding visit
  fresh-Safe fb tab pu a =
      let pte = pt_get s t.pg_dir i in
      let pa = frame_address pte in
      let present : pte.present ≡ true = ground arith in
      let user : pte.user ≡ true = ground arith in
      let idle : round ≡ 0 → pte.accessed ≡ false = λ e. ground (arith, e) in
      let v = evict_lem t.pg_dir i n no_pte pa s tab in
      rw (pu, a)
        (elim (Bool-cases (pass == 0 && not pte.cow && page_is_zero pa s)) [
          | inl b ↦
              rw b (present, user, ground arith, idle, inl (zero_page pa s (ground arith), v.0))
          | inr b ↦
              rw b
                (elim (Bool-cases
                  (pass == 1 && not pte.cow && is_clean_text t (user_base + i * page_size))) [
                    | inl c ↦ rw c (
                      present,
                      user,
                      ground arith,
                      idle,
                      inr (
                          inl (
                            (text_page t (user_base + i * page_size) (ground arith)).0,
                            (text_page t (user_base + i * page_size) (ground arith)).1,
                            v.0,
                          )),
                    )
                    | inr c ↦ rw c (elim (Bool-cases (pass == 2 && not pte.cow)) [
                      | inl e ↦ rw e (swapped-Safe fb tab present user (ground arith) idle)
                      | inr e ↦ rw e (elim (Bool-cases pte.cow) [
                        | inl f ↦ rw f (over_fallback fb)
                        | inr f ↦ rw f tt
                      ])
                    ])
                  ])
        ])
    where
      over_fallback :
          (g : Option Fallback)
          → Safe round t i s (elim g [
            | none ↦ going s (some (record { dir = t.pg_dir; index = i }))
            | some f ↦ going s (some f)
          ])
      over_fallback none = tt
      over_fallback (some f) = tt

  -- On a quiet disk, a visit that reclaims a page reclaims a present user page that is no COW share,
  -- and in the first round none that was accessed. Either every word of the page was zero, and the
  -- entry is empty now; or the task has an executable and the page lies in a region of it that is
  -- not writable, and the entry is empty now; or the entry names a swap slot, free before, that
  -- holds the contents now.
  pub visit-Safe :
      (fb : Option Fallback)
      → InTable s t.pg_dir i
      → Safe round t i s (visit d round pass n idx t i s fb)
  unfolding visit
  visit-Safe fb tab =
      let pte = pt_get s t.pg_dir i in
      elim (Bool-cases (not pte.present || not pte.user)) [
        | inl b ↦ rw (b, visit) tt
        | inr b ↦ elim (Bool-cases (round == 0 && pte.accessed)) [
          | inl c ↦ rw (b, visit, c) tt
          | inr c ↦ fresh-Safe fb tab b c
        ]
      ]
