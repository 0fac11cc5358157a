-- ===== src/Fs/Inodes/Relabel.antt =====
-- A slot that keeps its inode and its contents, and what the disk then has.
use linux.Base.{each, ℕ, ◌≡◌, ◌≢◌, ◌<◌, refl, sym, ◌∙◌, inl, inr, true, false, update, Bool-cases}
use linux.Fs.Inodes.Defs.{nr_inode, Body, Slot, Inodes, is_inode}
use linux.Fs.Inodes.Content.{IsValid, content, content-slot, content-disk, somewhere, is_inode_self}

-- Every slot with changes has an inode block that can be written.
abbrev pub Writable : Inodes → Type 0
Writable s =
    (i : ℕ)
    → i < nr_inode
    → (s.table i).dirt ≡ true
    → s.readable (s.table i).dev (s.table i).num ≡ true

-- The content of every inode of a device is the same in both.
abbrev pub SameContent : Inodes → Inodes → Type 0
SameContent s s' = (d n : ℕ) → d ≢ 0 → content s' d n ≡ content s d n

module _ (s : Inodes) (i : ℕ) (w : Slot) (disk : ℕ → ℕ → Body) (valid : IsValid s)
    (h : i < nr_inode) (same_key : (d n : ℕ) → is_inode d n w ≡ is_inode d n (s.table i))
    (same_body : w.body ≡ (s.table i).body)
    (on_disk : w.dev ≢ 0 → w.dirt ≡ false → w.body ≡ disk w.dev w.num)
    (others : (d n : ℕ) → is_inode d n (s.table i) ≡ false → disk d n ≡ s.disk d n) where
  abbrev pub relabelled : Inodes
  relabelled = record s { table = update s.table i w; disk = disk }

  pub key_stays : (d n j : ℕ) → is_inode d n (relabelled.table j) ≡ is_inode d n (s.table j)
  key_stays d n j =
      each (λ j x. is_inode d n x ≡ is_inode d n (s.table j)) s.table i w (same_key d n)
        (λ j other. refl) j

  body_stays : (j : ℕ) → (relabelled.table j).body ≡ (s.table j).body
  body_stays j = each (λ j x. x.body ≡ (s.table j).body) s.table i w same_body (λ j other. refl) j

  pub relabelled-IsValid : IsValid relabelled
  relabelled-IsValid = record {
    single = (λ j k d n hj hk nz a b.
        valid.single j k d n hj hk nz (sym (key_stays d n j) ∙ a) (sym (key_stays d n k) ∙ b));
    synced =
        each (λ j x. j < nr_inode → x.dev ≢ 0 → x.dirt ≡ false → x.body ≡ disk x.dev x.num) s.table
          i w (λ hi nz clean. on_disk nz clean)
          (λ j other hj nz clean.
            let o = s.table j in
            let apart : is_inode o.dev o.num (s.table i) ≡ false =
              elim (Bool-cases (is_inode o.dev o.num (s.table i))) [
                | inl e ↦ absurd (other (valid.single i j o.dev o.num h hj nz e (is_inode_self o)))
                | inr e ↦ e
              ] in
            valid.synced j hj nz clean ∙ sym (others o.dev o.num apart));
  }

  pub content-relabelled : SameContent s relabelled
  content-relabelled d n nz = elim (somewhere d n s.table) [
    | inl (j, hj, e) ↦
        content-slot relabelled j d n relabelled-IsValid hj nz (key_stays d n j ∙ e)
        ∙ body_stays j
        ∙ sym (content-slot s j d n valid hj nz e)
    | inr none_has ↦
        content-disk relabelled d n (λ j hj. key_stays d n j ∙ none_has j hj)
        ∙ others d n (none_has i h)
        ∙ sym (content-disk s d n none_has)
  ]
