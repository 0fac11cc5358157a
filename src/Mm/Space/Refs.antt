-- ===== src/Mm/Space/Refs.antt =====
-- How many entries of a table name a frame, and what one shared entry changes.
use linux.Base.{
  ℕ, zero, suc, ◌+◌, ◌≤◌, ◌<◌, ◌≡◌, ◌≢◌, refl, ap, ◌∙◌, true, false, ◌&&◌, Option, none, some,
  arith, ◌==◌, if◌then◌else◌, length, set, update_self, update_ne, get_or-set_self, get_or-set_ne,
  length-set, lt→ltb, ==_iff,
}
use native.Mathlib.Decide.{ℕ_discrete}
use linux.Mm.State.{
  Mm, Pte, Table, no_pte, frame_address, nr_ptes, pt_get, pt_set, entry_of, with_entry, map_nr,
  frame_count, used,
}
use linux.Mm.Space.Copy.{add_reference}

-- 1 if a present entry names the frame with index `m` of mem_map[].
abbrev pub refers : Pte → ℕ → ℕ
refers pte m = if pte.present && map_nr (frame_address pte) == m then 1 else 0

-- The references to frame `m` from the `n` entries from `i` on.
unfoldable pub refs : (ℕ → Pte) → ℕ → ℕ → ℕ → ℕ
refs get i zero m = 0
refs get i (suc n) m = refers (get i) m + refs get (i + 1) n m

pub refs_agree :
    (get get' : ℕ → Pte) (i n m : ℕ)
    → ((j : ℕ) → i ≤ j → j < i + n → get j ≡ get' j)
    → refs get i n m ≡ refs get' i n m
unfolding refs
refs_agree get get' i zero m h = refl
refs_agree get get' i (suc n) m h =
    let rest = refs_agree get get' (i + 1) n m (λ j a b. h j (omega arith) (omega arith)) in
    rw (h i (omega arith) (omega arith), rest) refl

-- A directory with a whole table.
abbrev pub Whole : Mm → ℕ → Type 0
Whole s dir = (t : Table) × (s.dirs dir ≡ some t) × (length t.entries ≡ nr_ptes)

pub pt_set-Whole :
    (s : Mm) (dir dir' i : ℕ) (pte : Pte) → Whole s dir' → Whole (pt_set s dir i pte) dir'
pt_set-Whole s dir dir' i pte (t, e, l) = elim (ℕ_discrete dir dir') [
  | yes q ↦ (
    record t { entries = set t.entries i pte },
    rw q (
        update_self s.dirs dir' (with_entry (s.dirs dir') i pte)
        ∙ ap (λ (o : Option Table). with_entry o i pte) e),
    length-set t.entries i pte ∙ l,
  )
  | no q ↦ (t, update_ne s.dirs dir dir' (with_entry (s.dirs dir) i pte) q ∙ e, l)
]

pub pt_get-set_self :
    (s : Mm) (dir i : ℕ) (pte : Pte)
    → Whole s dir
    → i < nr_ptes
    → pt_get (pt_set s dir i pte) dir i ≡ pte
pt_get-set_self s dir i pte (t, e, l) h =
    rw (update_self s.dirs dir (with_entry (s.dirs dir) i pte), e)
      (get_or-set_self t.entries i pte no_pte (omega arith))

pub pt_get-set_dir :
    (s : Mm) (dir dir' i j : ℕ) (pte : Pte)
    → dir ≢ dir'
    → pt_get (pt_set s dir i pte) dir' j ≡ pt_get s dir' j
pt_get-set_dir s dir dir' i j pte h =
    ap (λ (o : Option Table). entry_of o j)
      (update_ne s.dirs dir dir' (with_entry (s.dirs dir) i pte) h)

entry_of-with_entry :
    (o : Option Table) (i j : ℕ) (pte : Pte)
    → i ≢ j
    → entry_of (with_entry o i pte) j ≡ entry_of o j
entry_of-with_entry none i j pte h = refl
entry_of-with_entry (some t) i j pte h = get_or-set_ne t.entries i j pte no_pte h

pub pt_get-set_ne :
    (s : Mm) (dir dir' i j : ℕ) (pte : Pte)
    → i ≢ j
    → pt_get (pt_set s dir i pte) dir' j ≡ pt_get s dir' j
pt_get-set_ne s dir dir' i j pte h = elim (ℕ_discrete dir dir') [
  | yes q ↦ rw q (
      ap (λ (o : Option Table). entry_of o j)
        (update_self s.dirs dir' (with_entry (s.dirs dir') i pte))
      ∙ entry_of-with_entry (s.dirs dir') i j pte h)
  | no q ↦ pt_get-set_dir s dir dir' i j pte q
]

-- The frame that the entry names is in the map.
abbrev pub InMap : Mm → Pte → Type 0
InMap s pte = pte.present ≡ true → map_nr (frame_address pte) < length s.mem_map

pub add_reference_lem :
    (i m : ℕ) (s : Mm)
    → i < length s.mem_map
    → frame_count s i < used
    → frame_count (add_reference i s) m ≡ frame_count s m + (if i == m then 1 else 0)
unfolding add_reference
add_reference_lem i m s l u = rw (lt→ltb (frame_count s i) used u) (elim (ℕ_discrete i m) [
  | yes e ↦ rw ((==_iff i m).1 e, ← e) (get_or-set_self s.mem_map i (frame_count s i + 1) 0 l)
  | no e ↦
      let b : i == m ≡ false = ground arith in
      rw b (get_or-set_ne s.mem_map i m (frame_count s i + 1) 0 e ∙ omega arith)
])
