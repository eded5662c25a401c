-- ===== src/Fat32/Tests.antt =====
-- Runs of kernel/fat32.c on a small disk.
use magnos.Base.{
  replicate, ℕ, ◌+◌, ◌-◌, ◌%◌, ◌^◌, ◌≤◌, ◌<◌, ◌≡◌, refl, true, List, [], ◌∷◌, ◌++◌, some, arith,
  if◌then◌else◌, ◌==◌, length, take, text,
}
use magnos.Disk.{Sector, Disk}
use magnos.Fat32.{File, copied, read, clamp}
use magnos.Fat32.Name.{
  string_to_name, name_to_string, until_space, copy_name, copy_extension, extension,
}
use magnos.Fat32.Name.RoundTrip.{pad, string_to_name-name_to_string}
use magnos.Fat32.Read.{Reads, read-Reads}
use magnos.Fat32.Chains.{capacity}
use magnos.Fat32.Ends.{read-Ended}
use magnos.Fat32.Dir.{list_dir, open_file}
use magnos.Fat32.Dir.Listing.{listing, list_dir-listing}
use magnos.Fat32.Dir.Open.{find_file, open_file-find_file}
use magnos.Fat32.Sample.{
  bytes_at, numbered, contents, small_disk, small_fs, small_file, small_file-At, root_entries,
  root_Links, root_has,
}

read-Reads_example :
    Reads small_disk small_fs contents small_file 3
      (0 + capacity small_fs (3 ∷ []))
      (read 4 small_disk small_fs (some small_file) 3)
unfolding small_fs small_file
read-Reads_example =
    read-Reads 4 small_disk small_fs contents small_file 3 0 0 (3 ∷ []) (omega arith) refl refl
      small_file-At (omega arith) (omega arith) (omega arith) (omega arith)

list_dir-listing_example :
    list_dir 2 small_disk small_fs 5 ≡ some (take 5 (listing root_entries), true)
unfolding small_fs
list_dir-listing_example =
    list_dir-listing 2 small_disk small_fs 5 (2 ∷ []) root_entries (omega arith) refl (omega arith)
      root_Links root_has

open_file-find_file_example :
    open_file 2 small_disk small_fs (text "A.TXT")
    ≡ some (find_file (string_to_name (text "A.TXT")) root_entries)
unfolding small_fs
open_file-find_file_example =
    open_file-find_file 2 small_disk small_fs (text "A.TXT") (2 ∷ []) root_entries (omega arith)
      refl (refl, (refl, (refl, (refl, (refl, tt))))) root_Links root_has

string_to_name-name_to_string_example :
    string_to_name (name_to_string (pad 8 (text "A") ++ pad 3 (text "TXT")))
    ≡ pad 8 (text "A") ++ pad 3 (text "TXT")
string_to_name-name_to_string_example =
    string_to_name-name_to_string (text "A") (text "TXT") (omega arith) (omega arith) (refl, tt)
      (refl, tt) (refl, (refl, (refl, tt)))

-- A name with a space in it loses what follows the space, and the entry "." does not come back.
name_to_string-space : string_to_name (name_to_string (text "A B     TXT")) ≡ text "A       TXT"
unfolding string_to_name name_to_string until_space copy_name copy_extension extension
name_to_string-space = refl

name_to_string_self : string_to_name (name_to_string (text ".          ")) ≡ replicate 11 32
unfolding string_to_name name_to_string until_space copy_name copy_extension extension
name_to_string_self = refl

-- A request whose end wraps around 2 ^ 32 is not cut to the end of the file.
clamp-wraps : clamp (record small_file { position = 1 }) (2 ^ 32 - 1) ≡ 2 ^ 32 - 1
unfolding clamp small_file
clamp-wraps = refl

-- A disk on which the cluster 3 follows itself.
abbrev circle : Sector
circle = bytes_at (numbered 12 (3 ∷ []))

abbrev circle_disk : Disk
circle_disk drive lba = if lba == 1 then some circle else some contents

abbrev large_file : File
large_file = record {
  first_cluster = 3;
  current_cluster = 3;
  size = 2000;
  position = 0;
  attr = 32;
  valid = true;
}

large_clamp : clamp large_file 600 < 601
unfolding clamp
large_clamp = omega arith

read-Ended_example :
    (f' : File) × (bytes : List ℕ) × (read 601 circle_disk small_fs (some large_file) 600
      ≡ some (copied f' bytes))
    × (length bytes ≤ clamp large_file 600)
    × (f'.position ≡ (0 + length bytes) % 2 ^ 32)
unfolding small_fs
read-Ended_example =
    read-Ended 601 circle_disk small_fs large_file 600 refl refl (omega arith) (omega arith)
      large_clamp
