-- ===== src/Mm/Space/Unshare.antt =====
-- A write fault on a COW page gives the writer a copy of its own.
use linux.Base.{
  ℕ, ◌+◌, ◌-◌, ◌*◌, ◌/◌, ◌<◌, ◌≡◌, ◌≢◌, refl, sym, ap, subst, ◌∙◌, Bool, true, false, not, ◌&&◌,
  ◌||◌, arith, ◌==◌, length, set, update, update_self, update_ne, length-set, get_or-set_self,
  get_or-set_ne,
}
use linux.Mm.State.{
  Mm, MmTask, Pte, user_pte, frame_address, page_size, low_mem, nr_ptes, pt_get, pt_set,
  frame_count,
}
use linux.Mm.Frames.{zero_page, take_frame, free_page, count_free_pages}
use linux.Mm.Frames.Counts.{Handed, Freeable, free_page_lem}
use linux.Mm.Swap.{Disk}
use linux.Mm.Space.Defs.{un_wp_page, pte_index, has_slot}
use linux.Mm.Space.Alloc.{get_free_page}
use linux.Mm.Space.Fault.{ReadExe, repaired, do_no_page, cow_done}
use linux.Mm.Space.Refs.{Whole, pt_get-set_self, pt_get-set_ne}
use linux.Mm.Space.Grant.{get_free_page-free, InWindow, has_slot-Whole, new_page}

-- The state after the frame `k` became the page's copy.
abbrev pub copied : ℕ → ℕ → ℕ → Pte → Mm → Mm
copied k dir i pte s =
    let s1 = (take_frame k s).1 in
    let s2 : Mm = record s1 {
      ram = update s1.ram (new_page k / page_size) (s1.ram (frame_address pte / page_size));
    } in
    pt_set s2 dir i (user_pte (new_page k))

un_wp_page-copied :
    (d : Disk) (dir va k : ℕ) (s : Mm)
    → dir ≢ 0
    → has_slot s dir va ≡ true
    → (pt_get s dir (pte_index va)).present ≡ true
    → get_free_page d s ≡ take_frame k s
    → un_wp_page d dir va s ≡ (
      true,
      free_page
          (frame_address (pt_get s dir (pte_index va)))
          (copied k dir (pte_index va) (pt_get s dir (pte_index va)) s),
    )
unfolding un_wp_page take_frame
un_wp_page-copied d dir va k s n h p e =
    let b : dir == 0 || not (has_slot s dir va) || not (pt_get s dir (pte_index va)).present
        ≡ false =
      ground (arith, n, h, p) in
    let z : new_page k == 0 ≡ false = ground arith in rw (b, e, z) refl

-- What a fault leaves of a COW page: the entry is private and writable, its frame holds what the
-- shared one holds, and the shared one has a reference less.
pub record Unshared (dir j i : ℕ) (s : Mm) (k : ℕ) (s' : Mm) : Type 0 where
  pub fresh : frame_count s k ≡ 0
  pub apart : k ≢ i
  pub entry : pt_get s' dir j ≡ user_pte (low_mem + k * page_size)
  pub others : (l : ℕ) → j ≢ l → pt_get s' dir l ≡ pt_get s dir l
  pub contents :
      s'.ram ((low_mem + k * page_size) / page_size) ≡ s.ram ((low_mem + i * page_size) / page_size)
  pub shared :
      s'.ram ((low_mem + i * page_size) / page_size) ≡ s.ram ((low_mem + i * page_size) / page_size)
  pub counted : frame_count s' k ≡ 1
  pub one_less : frame_count s' i + 1 ≡ frame_count s i

module _ (dir j i k : ℕ) (pte : Pte) (s : Mm) where
  abbrev made : Mm
  made = copied k dir j pte s

  abbrev settled : Mm
  settled = record made { mem_map = set made.mem_map i (frame_count made i - 1) }

  frames_apart : Handed k s (take_frame k s).0 (take_frame k s).1 → Freeable i s → k ≢ i
  frames_apart h f e =
      let z : frame_count s i ≡ 0 = subst (λ r. frame_count s r ≡ 0) e h.was_free in
      absurd (omega (arith, z, f.held))

  length-made : length made.mem_map ≡ length s.mem_map
  unfolding take_frame
  length-made = length-set s.mem_map k 1

  made-Freeable : Handed k s (take_frame k s).0 (take_frame k s).1 → Freeable i s → Freeable i made
  unfolding take_frame
  made-Freeable h f =
      let c : frame_count made i ≡ frame_count s i = h.others i (frames_apart h f) in
      record {
        in_map = omega (arith, length-made, f.in_map);
        below_end = f.below_end;
        held = omega (arith, c, f.held);
        unreserved = omega (arith, c, f.unreserved);
      }

  free_page-made :
      Handed k s (take_frame k s).0 (take_frame k s).1
      → Freeable i s
      → frame_address pte ≡ low_mem + i * page_size
      → free_page (frame_address pte) made ≡ settled
  free_page-made h f e =
      ap (λ (a : ℕ). free_page a made) e ∙ free_page_lem i made (made-Freeable h f)

  settled-Unshared :
      Handed k s (take_frame k s).0 (take_frame k s).1
      → Freeable i s
      → Whole s dir
      → j < nr_ptes
      → frame_address pte ≡ low_mem + i * page_size
      → Unshared dir j i s k settled
  unfolding take_frame
  settled-Unshared h f w l e =
      let d = frames_apart h f in
      let c : frame_count made i ≡ frame_count s i = h.others i d in
      let z = update s.ram (new_page k / page_size) zero_page in
      let n : new_page k / page_size ≢ (low_mem + i * page_size) / page_size =
        λ q. d (omega (arith, q)) in
      record {
        fresh = h.was_free;
        apart = d;
        entry = pt_get-set_self s dir j (user_pte (new_page k)) w l;
        others = λ m q. pt_get-set_ne s dir dir j m (user_pte (new_page k)) q;
        contents =
            update_self z (new_page k / page_size) (z (frame_address pte / page_size))
            ∙ ap (λ (a : ℕ). z (a / page_size)) e
            ∙ update_ne s.ram (new_page k / page_size) ((low_mem + i * page_size) / page_size)
                zero_page n;
        shared =
            update_ne z (new_page k / page_size) ((low_mem + i * page_size) / page_size)
              (z (frame_address pte / page_size)) n
            ∙ update_ne s.ram (new_page k / page_size) ((low_mem + i * page_size) / page_size)
                zero_page n;
        counted =
            get_or-set_ne made.mem_map i k (frame_count made i - 1) 0 (λ q. d (sym q)) ∙ h.counted;
        one_less =
            let r =
              get_or-set_self made.mem_map i (frame_count made i - 1) 0
                (made-Freeable h f).in_map in
            omega (arith, r, c, f.held);
      }

module _ (d : Disk) (file_read : ReadExe) where
  -- A write to a COW page of the window, whose frame is not reserved, while a frame is free: the fault
  -- is repaired. The entry then names a frame that was free, private and writable, with the contents
  -- of the shared one. That one keeps its contents and loses one reference, and no other entry
  -- of the table changes.
  pub do_no_page-cow :
      (t : MmTask) (address i : ℕ) (s : Mm)
      → t.pg_dir ≢ 0
      → InWindow address
      → Whole s t.pg_dir
      → (pt_get s t.pg_dir (pte_index address)).present ≡ true
      → (pt_get s t.pg_dir (pte_index address)).cow ≡ true
      → frame_address (pt_get s t.pg_dir (pte_index address)) ≡ low_mem + i * page_size
      → Freeable i s
      → count_free_pages s ≢ 0
      → (k : ℕ) × (s' : Mm) × (do_no_page d file_read true true t address s ≡ repaired s')
        × Unshared t.pg_dir (pte_index address) i s k s'
  unfolding do_no_page count_free_pages
  do_no_page-cow t address i s n w whole p c e f free =
      let u : Mm = record s { nr_page_faults = s.nr_page_faults + 1 } in
      let j = pte_index address in
      let pte = pt_get s t.pg_dir j in
      let fu : Freeable i u = record {
        in_map = f.in_map;
        below_end = f.below_end;
        held = f.held;
        unreserved = f.unreserved;
      } in
      let g = get_free_page-free d u free in
      let slot = has_slot-Whole u t.pg_dir address w whole in
      let b : not (t.pg_dir == 0) && has_slot u t.pg_dir address && pte.cow ≡ true =
        ground (arith, n, slot, c) in
      let m = un_wp_page-copied d t.pg_dir address g.0 u n slot p g.1 in
      let fr =
        ap {B = Bool × Mm} (λ (x : Mm). (true, x))
          (free_page-made t.pg_dir j i g.0 pte u g.2 fu e) in
      let r = settled-Unshared t.pg_dir j i g.0 pte u g.2 fu whole (omega arith) e in
      let done = settled t.pg_dir j i g.0 pte u in
      (
        g.0,
        record done { nr_cow_breaks = done.nr_cow_breaks + 1 },
        rw b (ap cow_done (m ∙ fr)),
        record {
          fresh = r.fresh;
          apart = r.apart;
          entry = r.entry;
          others = r.others;
          contents = r.contents;
          shared = r.shared;
          counted = r.counted;
          one_less = r.one_less;
        },
      )
