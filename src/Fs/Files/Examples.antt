-- ===== src/Fs/Files/Examples.antt =====
-- Runs of the file operations.
use linux.Base.{
  ℕ, zero, suc, ◌%◌, ◌≡◌, ◌⊎◌, refl, inl, inr, true, false, some, List, [], ◌∷◌, ltb, ◌==◌, get_or,
  take, replicate, Bool-cases, arith,
}
use linux.Fs.Bitmap.{Super, scan_map, first_clear, new_block}
use linux.Fs.Inodes.{Slot}
use linux.Fs.Files.Defs.{
  Volume, zone_of, bytes_of, read_loop, file_read, direct_zone, listed_zone, zone_for_write,
  write_bytes, write_round, write_loop, file_write,
}
use linux.Fs.Files.Reference.{file_bytes, file_read_lem}
use linux.Fs.Files.Held.{held, IsValid, Fits}
use linux.Fs.Files.Grow.{Written}
use linux.Fs.Files.Direct.{NoneLeft}
use linux.Fs.Files.Writing.{file_write-Written, file_read-file_write, file_write_all}

abbrev small_super : Super
small_super = record { imap_blocks = 1; zmap_blocks = 1; firstdatazone = 10; nzones = 100 }

abbrev empty_volume : Volume
empty_volume = record {
  blocks = (λ b i. b % 256);
  maps = record { imap = (λ k. false); zmap = (λ k. false); readable = (λ b. true) };
}

abbrev file_of : ℕ → List ℕ → Slot
file_of size zones = record {
  body = record { mode = 0; uid = 0; size = size; mtime = 0; gid = 0; nlinks = 1; zones = zones };
  dev = 1;
  num = 5;
  count = 1;
  dirt = false;
  pipe = false;
}

abbrev empty_file : Slot
empty_file = file_of 0 (replicate 9 0)

-- A hole, and the end of the first block.
reads_hole :
    file_read empty_volume (file_of 1026 (0 ∷ 11 ∷ replicate 7 0)) 1022 9 ≡ 0 ∷ 0 ∷ 11 ∷ 11 ∷ []
unfolding file_read read_loop zone_of bytes_of
reads_hole = refl

-- Two blocks are made.
writes_two : (file_write (some small_super) 1023 (1 ∷ 2 ∷ []) empty_volume empty_file).0 ≡ 2
unfolding file_write write_loop write_round zone_for_write direct_zone new_block scan_map
    first_clear
writes_two = refl

-- A new indirect block keeps what the block held: its bytes are taken for the number of a block.
takes_stale_zone : (zone_for_write (some small_super) 7 empty_volume empty_file).0 ≡ 2570
unfolding zone_for_write direct_zone listed_zone new_block scan_map first_clear
takes_stale_zone = refl

-- A new block keeps what it held, where a hole gave zeros.
stale_bytes :
    let (r, v', o') =
      file_write (some small_super) 2 (1 ∷ []) empty_volume (file_of 5 (replicate 9 0)) in
    file_read v' o' 0 5 ≡ 10 ∷ 10 ∷ 1 ∷ 10 ∷ 10 ∷ []
unfolding file_read read_loop zone_of bytes_of file_write write_loop write_round write_bytes
    zone_for_write direct_zone new_block scan_map first_clear
stale_bytes = refl

no_zones : (z : ℕ) → held empty_volume empty_file z ≡ 0
unfolding held
no_zones z = elim (Bool-cases (ltb z 7)) [
  | inl low ↦ rw low (zero_bytes 9 z)
  | inr high ↦ elim (Bool-cases (z == 519)) [
    | inl last ↦ rw (high, last) refl
    | inr inner ↦ rw (high, inner) refl
  ]
]
  where
    zero_bytes : (n z : ℕ) → get_or {A = ℕ} (replicate n 0) z 0 ≡ 0
    zero_bytes zero z = refl
    zero_bytes (suc n) zero = refl
    zero_bytes (suc n) (suc z) = zero_bytes n z

empty_file-IsValid : IsValid small_super empty_volume empty_file
empty_file-IsValid = record {
  long = omega arith;
  in_use = (λ z h there. absurd (there (no_zones z)));
  distinct = (λ y z hy hz there e. absurd (there (no_zones y)));
}

small_super-Fits : Fits small_super
small_super-Fits = (omega arith, omega arith)

abbrev hello : List ℕ
hello = 104 ∷ 105 ∷ 33 ∷ []

file_read_lem_example :
    file_read empty_volume (file_of 1026 (0 ∷ 11 ∷ replicate 7 0)) 1022 9
    ≡ file_bytes empty_volume (file_of 1026 (0 ∷ 11 ∷ replicate 7 0)) 1022 4
file_read_lem_example =
    file_read_lem empty_volume (file_of 1026 (0 ∷ 11 ∷ replicate 7 0)) 1022 9 (omega arith)
      (omega arith) (omega arith)

file_write-Written_example :
    let (r, v', o') = file_write (some small_super) 1022 hello empty_volume empty_file in
    Written small_super empty_volume empty_file 1022 hello r v' o'
file_write-Written_example =
    file_write-Written small_super small_super-Fits empty_volume empty_file 1022 hello
      empty_file-IsValid (omega arith) (inl (omega arith))

file_read-file_write_example :
    let (r, v', o') = file_write (some small_super) 1022 hello empty_volume empty_file in
    file_read v' o' 1022 r ≡ take r hello
file_read-file_write_example =
    file_read-file_write small_super small_super-Fits empty_volume empty_file 1022 hello
      empty_file-IsValid (omega arith) (inl (omega arith))

file_write_all_example :
    ((file_write (some small_super) 1022 hello empty_volume empty_file).0 ≡ 3)
    ⊎ NoneLeft small_super (file_write (some small_super) 1022 hello empty_volume empty_file).1
file_write_all_example =
    file_write_all small_super small_super-Fits empty_volume empty_file 1022 hello
      empty_file-IsValid (omega arith) (inl (omega arith)) (λ x. refl)
