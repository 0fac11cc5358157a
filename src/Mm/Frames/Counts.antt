-- ===== src/Mm/Frames/Counts.antt =====
-- What the scan finds, and how reference counts move.
use linux.Base.{
  ℕ, zero, suc, ◌+◌, ◌-◌, ◌*◌, ◌/◌, ◌≤◌, ◌<◌, ◌≡◌, ◌≢◌, refl, ◌⊎◌, inl, inr, true, false, Option,
  none, some, List, [], ◌∷◌, arith, ◌==◌, length, get_or, set, get_or-set_self, get_or-set_ne,
  update_self, subst,
}
use native.Mathlib.Decide.{ℕ_discrete}
use linux.Mm.State.{Mm, page_size, low_mem, used, map_nr, frame_count}
use linux.Mm.Frames.Defs.{
  find_free, take_frame, grab, unfreeable, free_page, count_free, count_free_pages, zero_page,
}

-- What a scan of a list of counts finds.
abbrev pub Found : List ℕ → ℕ → Option ℕ → Type 0
Found cs i none = (count_free cs ≡ 0) × ((j : ℕ) → j < length cs → get_or cs j 0 ≢ 0)
Found cs i (some k) =
    (j : ℕ) × (k ≡ i + j)
    × (j < length cs)
    × (get_or cs j 0 ≡ 0)
    × ((l : ℕ) → l < j → get_or cs l 0 ≢ 0)

pub find_free-Found : (cs : List ℕ) (i : ℕ) → Found cs i (find_free cs i)
unfolding find_free count_free
find_free-Found [] i = (refl, λ j h. absurd (omega arith))
find_free-Found (c ∷ cs) i = elim (ℕ_discrete c 0) [
  | yes e ↦ rw e (0, omega arith, omega arith, refl, λ l h. absurd (omega arith))
  | no d ↦
      let b : c == 0 ≡ false = ground arith in
      rw b (further c cs i d b (find_free cs (i + 1)) (find_free-Found cs (i + 1)))
]
  where
    further :
        (c : ℕ) (cs : List ℕ) (i : ℕ)
        → c ≢ 0
        → c == 0 ≡ false
        → (r : Option ℕ) → Found cs (i + 1) r
        → Found (c ∷ cs) i r
    further c cs i d b none (h, k) = (rw b (omega (arith, h)), nonzero)
      where
        nonzero : (j : ℕ) → j < suc (length cs) → get_or (c ∷ cs) j 0 ≢ 0
        nonzero zero l = d
        nonzero (suc j) l = k j (omega arith)
    further c cs i d b (some n) (j, e, l, z, f) = (suc j, omega arith, omega arith, z, earlier)
      where
        earlier : (l : ℕ) → l < suc j → get_or (c ∷ cs) l 0 ≢ 0
        earlier zero l = d
        earlier (suc m) l = f m (omega arith)

-- A store that turns a free frame into a used one leaves one free frame less.
pub count_free-set :
    (cs : List ℕ) (i v : ℕ)
    → i < length cs
    → get_or cs i 0 ≡ 0
    → v ≢ 0
    → count_free (set cs i v) + 1 ≡ count_free cs
unfolding count_free
count_free-set [] i v h z d = absurd (omega arith)
count_free-set (c ∷ cs) zero v h z d = ground arith
count_free-set (c ∷ cs) (suc i) v h z d = omega (arith, count_free-set cs i v (omega arith) z d)

-- The frame `i` as get_free_page() hands it out.
pub record Handed (i : ℕ) (s : Mm) (addr : ℕ) (s' : Mm) : Type 0 where
  pub was_free : frame_count s i ≡ 0
  pub in_map : i < length s.mem_map
  pub address : addr ≡ low_mem + i * page_size
  pub counted : frame_count s' i ≡ 1
  pub others : (j : ℕ) → i ≢ j → frame_count s' j ≡ frame_count s j
  pub zeroed : s'.ram (addr / page_size) ≡ zero_page
  pub one_less : count_free_pages s' + 1 ≡ count_free_pages s

take_frame-Handed :
    (i : ℕ) (s : Mm)
    → i < length s.mem_map
    → frame_count s i ≡ 0
    → Handed i s (take_frame i s).0 (take_frame i s).1
unfolding take_frame count_free_pages
take_frame-Handed i s h z = record {
  was_free = z;
  in_map = h;
  address = refl;
  counted = get_or-set_self s.mem_map i 1 0 h;
  others = λ j d. get_or-set_ne s.mem_map i j 1 0 d;
  zeroed = update_self s.ram ((low_mem + i * page_size) / page_size) zero_page;
  one_less = count_free-set s.mem_map i 1 h z (λ e. absurd (omega arith));
}

-- The scan fails exactly when no frame is free. Otherwise it hands out the first free frame, zeroed
-- and with one reference, and changes no other frame's count.
pub grab_lem :
    (s : Mm)
    → ((grab s ≡ none) × (count_free_pages s ≡ 0))
      ⊎ ((i : ℕ) × (grab s ≡ some (take_frame i s))
          × Handed i s (take_frame i s).0 (take_frame i s).1
          × ((j : ℕ) → j < i → frame_count s j ≢ 0))
unfolding grab count_free_pages
grab_lem s = go (find_free s.mem_map 0) refl (find_free-Found s.mem_map 0)
  where
    go :
        (r : Option ℕ)
        → find_free s.mem_map 0 ≡ r
        → Found s.mem_map 0 (find_free s.mem_map 0)
        → ((grab s ≡ none) × (count_free_pages s ≡ 0))
          ⊎ ((i : ℕ) × (grab s ≡ some (take_frame i s))
              × Handed i s (take_frame i s).0 (take_frame i s).1
              × ((j : ℕ) → j < i → frame_count s j ≢ 0))
    go none e f =
        let g : Found s.mem_map 0 none = subst (Found s.mem_map 0) e f in
        inl (rw (e, grab) refl, g.0)
    go (some k) e f =
        let g : Found s.mem_map 0 (some k) = subst (Found s.mem_map 0) e f in
        let q : k ≡ g.0 = omega (arith, g.1) in
        inr (
          k,
          rw (e, grab) refl,
          take_frame-Handed k s (omega (arith, g.2)) (rw q g.3),
          λ j l. g.4 j (omega arith),
        )

-- The frames that free_page() may touch: in the map, neither free nor reserved.
pub record Freeable (i : ℕ) (s : Mm) : Type 0 where
  pub in_map : i < length s.mem_map
  pub below_end : low_mem + i * page_size < s.memory_end
  pub held : 0 < frame_count s i
  pub unreserved : frame_count s i < used

map_nr_frame : (i : ℕ) → map_nr (low_mem + i * page_size) ≡ i
map_nr_frame i = omega arith

-- free_page() of a frame that is held and not reserved drops one reference, and nothing else.
pub free_page_lem :
    (i : ℕ) (s : Mm)
    → Freeable i s
    → free_page (low_mem + i * page_size) s
      ≡ record s { mem_map = set s.mem_map i (frame_count s i - 1) }
unfolding free_page
free_page_lem i s f = rw (freeable, map_nr_frame i) refl
  where
    freeable : unfreeable (low_mem + i * page_size) s ≡ false
    freeable = rw (map_nr_frame i) (ground (arith, f.in_map, f.below_end, f.held, f.unreserved))

-- Of a free or a reserved frame it changes nothing.
pub free_page_refused :
    (i : ℕ) (s : Mm)
    → (frame_count s i ≡ 0) ⊎ (used ≤ frame_count s i)
    → free_page (low_mem + i * page_size) s ≡ s
unfolding free_page
free_page_refused i s h = rw refusal refl
  where
    refusal : unfreeable (low_mem + i * page_size) s ≡ true
    refusal = rw (map_nr_frame i) (ground (arith, h))
