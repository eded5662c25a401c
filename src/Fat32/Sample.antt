-- ===== src/Fat32/Sample.antt =====
-- A small disk in the form of kernel/fat32.c: sector 1 is the FAT, cluster 2 the root directory with the file
-- `A.TXT` of 5 bytes, and cluster 3 that file.
use magnos.Base.{
  ℕ, zero, suc, ◌+◌, refl, ap, true, List, [], ◌∷◌, ◌++◌, some, none, arith, if◌then◌else◌, ◌==◌,
  text,
}
use magnos.Disk.{Sector, Disk}
use magnos.Fat32.{bpb_of, Fs, File, cluster_to_sector, get_next_cluster, fat_entry}
use magnos.Fat32.Chains.{Links, Holds}
use magnos.Fat32.Read.{At}
use magnos.Fat32.Dir.{DirEntry}
use magnos.Fat32.Dir.Scan.{sector_entries, DirectoryHas}

unfoldable pub bytes_at : List (ℕ × ℕ) → Sector
bytes_at [] i = 0
bytes_at ((a, v) ∷ bs) i = let rest = bytes_at bs i in if i == a then v else rest

unfoldable pub numbered : ℕ → List ℕ → List (ℕ × ℕ)
numbered i [] = []
numbered i (b ∷ bs) = (i, b) ∷ numbered (i + 1) bs

unfoldable pub fat : Sector
fat = bytes_at (numbered 8 (255 ∷ 255 ∷ 255 ∷ 15 ∷ 255 ∷ 255 ∷ 255 ∷ 15 ∷ []))

unfoldable pub root : Sector
root = bytes_at (numbered 0 (text "A       TXT ") ++ (26, 3) ∷ (28, 5) ∷ [])

abbrev pub contents : ℕ → ℕ
contents = bytes_at (numbered 0 (text "hello"))

unfoldable pub small_disk : Disk
small_disk drive lba =
    if lba == 1
    then some fat
    else if lba == 2
    then some root
    else if lba == 3
    then some contents
    else none

unfoldable pub small_fs : Fs
small_fs = record {
  drive = 0;
  bpb = record (bpb_of (λ i. 0)) { bytes_per_sector = 512; sectors_per_cluster = 1 };
  fat_start_sector = 1;
  data_start_sector = 2;
  root_dir_cluster = 2;
  initialized = true;
}

unfoldable pub small_file : File
small_file = record {
  first_cluster = 3;
  current_cluster = 3;
  size = 5;
  position = 0;
  attr = 32;
  valid = true;
}

pub file_Holds : Holds small_disk small_fs contents 3 0
unfolding small_disk small_fs cluster_to_sector
file_Holds zero h = (contents, refl, λ k lt. ap contents (omega arith))
file_Holds (suc j) h = absurd (omega arith)

pub small_file-At : At small_disk small_fs contents small_file 0 0 (3 ∷ [])
unfolding small_disk small_fs small_file get_next_cluster fat_entry fat bytes_at numbered
small_file-At = (refl, refl, (refl, omega arith, omega arith), (file_Holds, tt), omega arith)

abbrev pub root_entries : List DirEntry
root_entries = (sector_entries root 16 0 ++ []) ++ []

pub root_Links : Links small_disk small_fs 2 (2 ∷ [])
unfolding small_disk small_fs get_next_cluster fat_entry fat bytes_at numbered
root_Links = (refl, omega arith, omega arith)

pub root_has : DirectoryHas small_disk small_fs (2 ∷ []) root_entries
unfolding small_disk small_fs cluster_to_sector
root_has = (sector_entries root 16 0 ++ [], [], (root, [], refl, refl, refl), refl, refl)
