-- ===== src/Mm/Frames/Defs.antt =====
-- Scanning and changing mem_map[].
use linux.Base.{
  ℕ, ◌+◌, ◌-◌, ◌*◌, ◌%◌, ◌/◌, Bool, not, ◌||◌, Option, none, some, List, [], ◌∷◌, ltb, leb, ◌==◌,
  if◌then◌else◌, length, set, replicate, update,
}
use linux.Mm.State.{Mm, page_size, low_mem, used, map_nr, frame_count}

-- for (i = 0; i < max_map_nr; i++) if (mem_map[i] == 0): the first free frame from index `i` on
unfoldable pub find_free : List ℕ → ℕ → Option ℕ
find_free [] i = none
find_free (c ∷ cs) i = if c == 0 then some i else find_free cs (i + 1)

unfoldable pub zero_page : List ℕ
zero_page = replicate 1024 0

-- mem_map[i] = 1 and the memset; the address is returned beside.
unfoldable pub take_frame : ℕ → Mm → ℕ × Mm
take_frame i s =
    let addr = low_mem + i * page_size in
    (
      addr,
      record s { mem_map = set s.mem_map i 1; ram = update s.ram (addr / page_size) zero_page },
    )

-- One scan of get_free_page().
unfoldable pub grab : Mm → Option (ℕ × Mm)
unfolding find_free take_frame
grab s = elim (find_free s.mem_map 0) [ none ↦ none | some i ↦ some (take_frame i s) ]

-- The early returns of free_page().
abbrev pub unfreeable : ℕ → Mm → Bool
unfreeable addr s =
    ltb addr low_mem
    || leb s.memory_end addr
    || not (addr % page_size == 0)
    || leb (length s.mem_map) (map_nr addr)
    || frame_count s (map_nr addr) == 0
    || leb used (frame_count s (map_nr addr))

unfoldable pub free_page : ℕ → Mm → Mm
free_page addr s =
    if unfreeable addr s
    then s
    else record s { mem_map = set s.mem_map (map_nr addr) (frame_count s (map_nr addr) - 1) }

unfoldable pub count_free : List ℕ → ℕ
count_free [] = 0
count_free (c ∷ cs) = (if c == 0 then 1 else 0) + count_free cs

unfoldable pub count_free_pages : Mm → ℕ
unfolding count_free
count_free_pages s = count_free s.mem_map
