-- ===== src/Fs/Inodes/Examples.antt =====
-- A table with one changed inode that nobody holds.
use linux.Base.{
  ℕ, ◌≡◌, ◌≢◌, refl, sym, ap, ◌∙◌, ◌⊎◌, inl, inr, Bool-cases, ==_iff, true, false, none, some, [],
  ltb, ◌==◌, if◌then◌else◌, arith,
}
use linux.Fs.Bitmap.{Super, free_inode, claim_inode, scan_map, first_clear}
use linux.Fs.Inodes.Defs.{
  Body, Slot, Inodes, Store, first_slot, is_inode, write_inode, load, iget, get_empty_inode, iput,
  new_inode, empty_body, sync_inodes, sync_slots,
}
use linux.Fs.Inodes.Content.{IsValid, content, is_inode_parts, true-false}
use linux.Fs.Inodes.Relabel.{Writable, SameContent}
use linux.Fs.Inodes.Iget.{Gives, iget_lem}

abbrev changed_body : Body
changed_body = record empty_body { size = 64 }

abbrev vacant : Slot
vacant = record { body = empty_body; dev = 0; num = 0; count = 0; dirt = false; pipe = false }

abbrev changed : Slot
changed = record { body = changed_body; dev = 769; num = 1; count = 0; dirt = true; pipe = false }

abbrev inodes : Inodes
inodes = record {
  table = (λ i. if i == 0 then changed else vacant);
  disk = (λ dev nr. empty_body);
  readable = (λ dev nr. ltb nr 9);
}

slots : (i : ℕ) → ((i ≡ 0) × (inodes.table i ≡ changed)) ⊎ (inodes.table i ≡ vacant)
slots i = elim (Bool-cases (i == 0)) [
  | inl e ↦ inl ((==_iff i 0).0 e, (rw e refl))
  | inr e ↦ inr (rw e refl)
]

only_first : (i dev nr : ℕ) → dev ≢ 0 → is_inode dev nr (inodes.table i) ≡ true → i ≡ 0
only_first i dev nr nz e = elim (slots i) [
  | inl (first, t) ↦ first
  | inr t ↦
      let own : is_inode dev nr vacant ≡ true = sym (ap (λ o. is_inode dev nr o) t) ∙ e in
      absurd (nz (sym (is_inode_parts dev nr vacant own).0))
]

inodes-IsValid : IsValid inodes
inodes-IsValid = record {
  single = (λ i j dev nr a b nz e e'. only_first i dev nr nz e ∙ sym (only_first j dev nr nz e'));
  synced = (λ i h nz clean. elim (slots i) [
    | inl (first, t) ↦ absurd (true-false (ap (λ (o : Slot). o.dirt) t) clean)
    | inr t ↦ ap (λ (o : Slot). o.body) t
  ]);
}

inodes-Writable : Writable inodes
inodes-Writable i h dirty = elim (slots i) [
  | inl (first, t) ↦ ap (λ (o : Slot). ltb o.num 9) t
  | inr t ↦ absurd (true-false dirty (ap (λ (o : Slot). o.dirt) t))
]

iget_lem_example :
    IsValid (iget 769 2 inodes).1
    × SameContent inodes (iget 769 2 inodes).1
    × Gives inodes (iget 769 2 inodes).1 769 2 (iget 769 2 inodes).0
iget_lem_example = iget_lem inodes 769 2 inodes-IsValid inodes-Writable (λ e. omega (arith, e))

-- The slot of the changed inode is taken, and the change is on the disk.
written_back : ((iget 769 2 inodes).0 ≡ some 0) × ((iget 769 2 inodes).1.disk 769 1 ≡ changed_body)
unfolding iget first_slot load write_inode
written_back = (refl, refl)

synced_disk : (sync_inodes 769 inodes).disk 769 1 ≡ changed_body
unfolding sync_inodes sync_slots write_inode
synced_disk = refl

-- get_empty_inode() takes the same slot and loses the change.
lost_change :
    ((get_empty_inode inodes).0 ≡ some 0)
    × (content inodes 769 1 ≡ changed_body)
    × (content (get_empty_inode inodes).1 769 1 ≡ empty_body)
unfolding get_empty_inode first_slot
lost_change = (refl, refl, refl)

abbrev super : Super
super = record { imap_blocks = 1; zmap_blocks = 1; firstdatazone = 5; nzones = 7 }

-- All inodes below 9 are in use, and the block of inode 9 cannot be read.
abbrev store : Store
store = record {
  inodes = inodes;
  maps = record { imap = (λ k. ltb k 8); zmap = (λ k. false); readable = (λ b. true) };
  freed = [];
}

-- new_inode() fails, and the bit of inode 9 stays set.
lost_inode :
    ((new_inode (some super) 769 store).0 ≡ none)
    × ((new_inode (some super) 769 store).1.maps.imap 8 ≡ true)
unfolding new_inode claim_inode scan_map first_clear iget first_slot load write_inode
lost_inode = (refl, refl)

-- An inode without links is freed with its last reference.
abbrev unlinked : Store
unlinked = record store {
  inodes = record inodes {
    table = (λ i. record changed { count = 1; body = record empty_body { nlinks = 0 } });
  };
}

freed_with_last : (iput (some super) 0 unlinked).maps.imap 0 ≡ false
unfolding iput free_inode
freed_with_last = refl
