-- ===== src/Fs/Buffers/Cached.antt =====
-- What the cache and the disk together hold of a block, and a cache that is well-formed.
use linux.Base.{
  ℕ, ◌≡◌, ◌≢◌, ◌⊎◌, ◌<◌, refl, sym, ap, subst, ◌∙◌, inl, inr, Bool, true, false, Option, none, some,
  List, [], ◌∷◌, if◌then◌else◌, Bool-cases, arith,
}
use linux.Fs.Bitmap.Truncate.{In}
use linux.Fs.Files.{Block}
use linux.Fs.Buffers.Defs.{nr_buffers, Buffer, BufferCache, chain_index, is_block, first_in}

abbrev pub bytes_in : Option ℕ → ℕ → BufferCache → Block
bytes_in none n s = s.disk.blocks n
bytes_in (some i) n s = if (s.buf i).uptodate then (s.buf i).bytes else s.disk.blocks n

-- The bytes of block `n` of device `dev`: those of its buffer, if it has one that is up to date,
-- else those of the disk.
unfoldable pub content : ℕ → BufferCache → ℕ → Block
content dev s n = bytes_in (first_in (is_block dev n) s.buf (s.chain (chain_index dev n))) n s

-- All blocks in the cache are of device `dev`, the one disk; each has one buffer, which its chain
-- finds; one without changes has what the disk has, and one with changes is up to date.
pub record IsValid (dev : ℕ) (s : BufferCache) : Type 0 where
  pub ring : (i : ℕ) → In i s.free → i < nr_buffers
  pub chained : (h i : ℕ) → In i (s.chain h) → i < nr_buffers
  pub found :
      (i : ℕ)
      → i < nr_buffers
      → (s.buf i).dev ≢ 0
      → In i (s.chain (chain_index (s.buf i).dev (s.buf i).num))
  pub single :
      (i j n : ℕ)
      → i < nr_buffers
      → j < nr_buffers
      → is_block dev n (s.buf i) ≡ true
      → is_block dev n (s.buf j) ≡ true
      → i ≡ j
  pub one_dev : (i : ℕ) → i < nr_buffers → ((s.buf i).dev ≡ 0) ⊎ ((s.buf i).dev ≡ dev)
  pub unused_clean : (i : ℕ) → i < nr_buffers → (s.buf i).dev ≡ 0 → (s.buf i).dirt ≡ false
  pub dirty_fresh : (i : ℕ) → i < nr_buffers → (s.buf i).dirt ≡ true → (s.buf i).uptodate ≡ true
  pub synced :
      (i : ℕ)
      → i < nr_buffers
      → (s.buf i).dev ≢ 0
      → (s.buf i).uptodate ≡ true
      → (s.buf i).dirt ≡ false
      → (s.buf i).bytes ≡ s.disk.blocks (s.buf i).num

-- The buffer that a list has first of those that pass, or that none does.
abbrev pub Picked : (Buffer → Bool) → (ℕ → Buffer) → List ℕ → Option ℕ → Type 0
Picked test buf is none = (i : ℕ) → In i is → test (buf i) ≡ false
Picked test buf is (some i) = In i is × (test (buf i) ≡ true)

pub first_in-Picked :
    (test : Buffer → Bool) (buf : ℕ → Buffer) (is : List ℕ)
    → Picked test buf is (first_in test buf is)
unfolding first_in
first_in-Picked test buf [] = (λ i there. absurd there)
first_in-Picked test buf (j ∷ js) = elim (Bool-cases (test (buf j))) [
  | inl hit ↦ rw hit (inl refl, hit)
  | inr miss ↦ rw miss (go (first_in test buf js) (first_in-Picked test buf js) miss)
]
  where
    go : (r : Option ℕ) → Picked test buf js r → test (buf j) ≡ false → Picked test buf (j ∷ js) r
    go none h miss = (λ i there. here i there)
      where
        here : (i : ℕ) → In i (j ∷ js) → test (buf i) ≡ false
        here i (inl e) = subst (λ k. test (buf k) ≡ false) e miss
        here i (inr there) = h i there
    go (some i) h miss = (inr h.0, h.1)

pub is_block_parts :
    (dev n : ℕ) (b : Buffer) → is_block dev n b ≡ true → (b.dev ≡ dev) × (b.num ≡ n)
is_block_parts dev n b e = (ground arith, ground arith)

pub is_block_of : (dev n : ℕ) (b : Buffer) → b.dev ≡ dev → b.num ≡ n → is_block dev n b ≡ true
is_block_of dev n b e e' = ground arith

abbrev pub Nowhere : ℕ → ℕ → BufferCache → Type 0
Nowhere dev n s = (i : ℕ) → i < nr_buffers → is_block dev n (s.buf i) ≡ false

module _ (dev : ℕ) (there : dev ≢ 0) (s : BufferCache) (valid : IsValid dev s) where
  -- The search of the chain finds the block, if a buffer has it.
  pub lookup :
      (n : ℕ)
      → ((first_in (is_block dev n) s.buf (s.chain (chain_index dev n)) ≡ none) × Nowhere dev n s)
        ⊎ ((i : ℕ) × (first_in (is_block dev n) s.buf (s.chain (chain_index dev n)) ≡ some i)
            × (i < nr_buffers)
            × (is_block dev n (s.buf i) ≡ true))
  lookup n =
      go (first_in (is_block dev n) s.buf (s.chain (chain_index dev n))) refl
        (first_in-Picked (is_block dev n) s.buf (s.chain (chain_index dev n)))
    where
      nowhere :
          ((i : ℕ) → In i (s.chain (chain_index dev n)) → is_block dev n (s.buf i) ≡ false)
          → Nowhere dev n s
      nowhere h i low = elim (Bool-cases (is_block dev n (s.buf i))) [
        | inr miss ↦ miss
        | inl hit ↦
            let (d, k) = is_block_parts dev n (s.buf i) hit in
            h i (
              subst (λ a. In i (s.chain (chain_index a n))) d
                (subst (λ a. In i (s.chain (chain_index (s.buf i).dev a))) k
                  (valid.found i low (λ e. there (sym d ∙ e)))))
      ]

      go :
          (r : Option ℕ)
          → first_in (is_block dev n) s.buf (s.chain (chain_index dev n)) ≡ r
          → Picked (is_block dev n) s.buf (s.chain (chain_index dev n)) r
          → ((first_in (is_block dev n) s.buf (s.chain (chain_index dev n)) ≡ none)
              × Nowhere dev n s)
            ⊎ ((i : ℕ) × (first_in (is_block dev n) s.buf (s.chain (chain_index dev n)) ≡ some i)
                × (i < nr_buffers)
                × (is_block dev n (s.buf i) ≡ true))
      go none e h = inl (e, nowhere h)
      go (some i) e (in_ring, hit) = inr (i, e, valid.chained (chain_index dev n) i in_ring, hit)

  pub content-buffer :
      (i n : ℕ)
      → i < nr_buffers
      → is_block dev n (s.buf i) ≡ true
      → content dev s n ≡ (if (s.buf i).uptodate then (s.buf i).bytes else s.disk.blocks n)
  unfolding content
  content-buffer i n low hit = elim (lookup n) [
    | inl (e, none_has) ↦ absurd (let bad = none_has i low in ground arith)
    | inr (j, e, low', hit') ↦ rw e (
        ap (λ k. if (s.buf k).uptodate then (s.buf k).bytes else s.disk.blocks n)
          (valid.single j i n low' low hit' hit))
  ]

  pub content-disk : (n : ℕ) → Nowhere dev n s → content dev s n ≡ s.disk.blocks n
  unfolding content
  content-disk n none_has = elim (lookup n) [
    | inl (e, _) ↦ rw e refl
    | inr (j, e, low, hit) ↦ absurd (let bad = none_has j low in ground arith)
  ]

  pub somewhere :
      (n : ℕ) → ((i : ℕ) × (i < nr_buffers) × (is_block dev n (s.buf i) ≡ true)) ⊎ Nowhere dev n s
  somewhere n = elim (lookup n) [
    | inl (e, none_has) ↦ inr none_has
    | inr (j, e, low, hit) ↦ inl (j, low, hit)
  ]
