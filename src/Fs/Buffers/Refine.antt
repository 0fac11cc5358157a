-- ===== src/Fs/Buffers/Refine.antt =====
-- Calls on the cache give what they would give on an array of blocks.
use linux.Base.{ℕ, ◌≡◌, ◌≢◌, refl, ap, ◌∙◌, Option, some, List, [], ◌∷◌, arith}
use linux.Fs.Files.{Block}
use linux.Fs.Inodes.Content.{true-false}
use linux.Fs.Buffers.Defs.{
  BufferCache, put_buffer, brelse, Bread, waits, failed, ready, bread, dirtied,
}
use linux.Fs.Buffers.Cached.{IsValid, content}
use linux.Fs.Buffers.Ring.{brelse-Released}
use linux.Fs.Buffers.Bread.{ReadOutcome, bread_lem}
use linux.Fs.Buffers.Dirtied.{put_dirtied, same_counts, update_same, idle_again}
use linux.Fs.Buffers.Through.{with_inodes_cong, sync_dev-Through}
use linux.Fs.Buffers.Store.{
  Call, load_block, store_block, sync_blocks, loaded, stored, perform, answers, expected, next,
  array_answers, Works,
}

record Performed (dev : ℕ) (blocks : ℕ → Block) (c : Call) (r : Option Block × BufferCache)
    : Type 0 where
  valid : IsValid dev r.1
  works : Works r.1
  result : r.0 ≡ expected blocks c
  same : (m : ℕ) → content dev r.1 m ≡ next blocks c m

module _ (dev : ℕ) (there : dev ≢ 0) where
  load-Performed :
      (s : BufferCache) (blocks : ℕ → Block) (n : ℕ) (r : Bread × BufferCache)
      → Works s
      → ((m : ℕ) → content dev s m ≡ blocks m)
      → ReadOutcome dev s n r
      → Performed dev blocks (load_block n) (loaded r)
  load-Performed s blocks n (waits, s1) w same out =
      absurd (let busy = out.gives.1 w.spare w.in_ring in let idle = w.idle in ground arith)
  load-Performed s blocks n (failed, s1) w same out = absurd (true-false (w.reads n) out.gives)
  load-Performed s blocks n (ready i, s1) w same out =
      let r = brelse-Released dev there s1 i out.valid out.gives.0 in
      record {
        valid = r.valid;
        works = idle_again dev there s n i s1 s1 (brelse i s1) w out (λ j. refl) refl refl refl r;
        result = ap some (out.gives.3 ∙ same n);
        same = (λ m. r.same m ∙ out.same m ∙ same m);
      }

  store-Performed :
      (s : BufferCache) (blocks : ℕ → Block) (n : ℕ) (f : Block) (r : Bread × BufferCache)
      → Works s
      → ((m : ℕ) → content dev s m ≡ blocks m)
      → ReadOutcome dev s n r
      → Performed dev blocks (store_block n f) (stored f r)
  store-Performed s blocks n f (waits, s1) w same out =
      absurd (let busy = out.gives.1 w.spare w.in_ring in let idle = w.idle in ground arith)
  store-Performed s blocks n f (failed, s1) w same out = absurd (true-false (w.reads n) out.gives)
  store-Performed s blocks n f (ready i, s1) w same out =
      let (low, at, up, bytes, count, others) = out.gives in
      let s2 = put_buffer i (dirtied f (s1.buf i)) s1 in
      let (valid2, same2) = put_dirtied dev there s1 i n f out.valid low at up in
      let r = brelse-Released dev there s2 i valid2 low in
      record {
        valid = r.valid;
        works =
            idle_again dev there s n i s1 s2 (brelse i s2) w out (same_counts s1 i f) refl refl refl
              r;
        result = refl;
        same = (λ m. r.same m ∙ same2 m ∙ update_same n f (λ k. out.same k ∙ same k) m);
      }

  perform-Performed :
      (s : BufferCache) (blocks : ℕ → Block) (c : Call)
      → IsValid dev s
      → Works s
      → ((m : ℕ) → content dev s m ≡ blocks m)
      → Performed dev blocks c (perform dev c s)
  unfolding perform
  perform-Performed s blocks (load_block n) v w same =
      load-Performed s blocks n (bread dev n s) w same
        (bread_lem dev there s n v (λ i low dirty. w.writes (s.buf i).num))
  perform-Performed s blocks (store_block n f) v w same =
      store-Performed s blocks n f (bread dev n s) w same
        (bread_lem dev there s n v (λ i low dirty. w.writes (s.buf i).num))
  perform-Performed s blocks (sync_blocks xs) v w same =
      let r = sync_dev-Through dev there xs s v w in
      record {
        valid = r.valid;
        works = r.works;
        result = refl;
        same = (λ m. r.same m ∙ with_inodes_cong xs _ _ same m);
      }

  -- From a well-formed cache with an unused buffer, on a disk that can be read and written, every
  -- sequence of reads, writes and synchronisations of the one device, each with the changes that the
  -- inodes which are dirty then make to their blocks, gets the answers that it would
  -- get from an array of blocks, which starts with what the cache and the disk together hold.
  pub answers-array :
      (cs : List Call) (s : BufferCache) (blocks : ℕ → Block)
      → IsValid dev s
      → Works s
      → ((m : ℕ) → content dev s m ≡ blocks m)
      → answers dev cs s ≡ array_answers cs blocks
  unfolding answers array_answers
  answers-array [] s blocks v w same = refl
  answers-array (c ∷ cs) s blocks v w same =
      let p = perform-Performed s blocks c v w same in
      rw (p.result, answers-array cs (perform dev c s).1 (next blocks c) p.valid p.works p.same)
        refl
