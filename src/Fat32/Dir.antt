-- ===== src/Fat32/Dir.antt =====
-- The root directory in kernel/fat32.c: `fat32_list_dir`, `fat32_open` (`open_file`) and `fat32_list_root`. The three functions walk
-- along the directory in the same way, which is written once: `step` is the body of their inner loop, `full` the
-- further test of `fat32_list_dir`, and `stop` an early return.
pub mod Scan
pub mod Listing
pub mod Open
pub mod Root
use magnos.Base.{
  ℕ, zero, suc, ◌+◌, ◌-◌, ◌*◌, ◌%◌, ◌^◌, ◌≡◌, Bool, true, false, not, ◌&&◌, ◌||◌, List, [], ◌∷◌,
  ◌++◌, Option, none, some, ltb, leb, ◌==◌, if◌then◌else◌, get_or, length, bit_clear, text, decimal,
}
use magnos.Vga
use magnos.Vga.{Vga}
use magnos.Disk.{Sector, Disk, word16, word32}
use magnos.Fat32.{Fs, File, cluster_eoc, cluster_to_sector, get_next_cluster, slice}
use magnos.Fat32.Name.{name_to_string, string_to_name, strncmp_equal}

-- `fat32_direntry_t`; the times and dates, which nothing reads, are left out.
pub record DirEntry : Type 0 where
  pub name : List ℕ
  pub attr : ℕ
  pub first_cluster_high : ℕ
  pub first_cluster_low : ℕ
  pub file_size : ℕ

-- The entry number `j` of a sector.
unfoldable pub entry_of : Sector → ℕ → DirEntry
entry_of s j = record {
  name = slice s (j * 32) 11;
  attr = s (j * 32 + 11);
  first_cluster_high = word16 s (j * 32 + 20);
  first_cluster_low = word16 s (j * 32 + 26);
  file_size = word32 s (j * 32 + 28);
}

-- `entry->name[0]`
abbrev pub first_byte : DirEntry → ℕ
first_byte e = get_or e.name 0 0

abbrev pub attr_long_name : ℕ
attr_long_name = 0x0F

abbrev pub is_volume : DirEntry → Bool
is_volume e = not (bit_clear e.attr 3)

abbrev pub is_directory : DirEntry → Bool
is_directory e = not (bit_clear e.attr 4)

-- A round of a loop goes on with a state, or the function returns.
pub data Step (S R : Type 0) : Type 0 where
  next : S → Step S R
  stop : R → Step S R

abbrev pub and_then : {S R : Type 0} → Step S R → (S → Step S R) → Step S R
and_then (next s) k = k s
and_then (stop r) k = stop r

abbrev pub result_of : {S R : Type 0} → Step S R → (S → Option R) → Option R
result_of (next s) k = k s
result_of (stop r) k = some r

module _ {S R : Type 0} (disk : Disk) (fs : Fs) (step : DirEntry → S → Step S R) (full : S → Bool)
    (fail finish : S → R) where
  -- The entries of a sector, `n` from number `j` on.
  pub scan_entries : Sector → ℕ → ℕ → S → Step S R
  scan_entries sector zero j s = next s
  scan_entries sector (suc n) j s =
      if full s
      then next s
      else and_then (step (entry_of sector j) s) (λ s'. scan_entries sector n (j + 1) s')

  scan_sector : Option Sector → S → Step S R
  scan_sector none s = stop (fail s)
  scan_sector (some sector) s = scan_entries sector 16 0 s

  -- The sectors of a cluster, `n` from number `i` on.
  pub scan_cluster : ℕ → ℕ → ℕ → S → Step S R
  scan_cluster sector zero i s = next s
  scan_cluster sector (suc n) i s =
      and_then (scan_sector (disk fs.drive ((sector + i) % 2 ^ 32)) s)
        (λ s'. scan_cluster sector n (i + 1) s')

  pub scan_chain : ℕ → ℕ → S → Option R
  scan_chain zero cluster s = none
  scan_chain (suc fuel) cluster s =
      if ltb cluster cluster_eoc && not (full s)
      then result_of (scan_cluster (cluster_to_sector fs cluster) fs.bpb.sectors_per_cluster 0 s)
          (λ s'. scan_chain fuel (get_next_cluster disk fs cluster) s')
      else some (finish s)

-- `fat32_dirinfo_t`
pub record DirInfo : Type 0 where
  pub name : List ℕ
  pub size : ℕ
  pub is_directory : Bool

unfoldable pub info_of : DirEntry → DirInfo
info_of e = record {
  name = name_to_string e.name;
  size = e.file_size;
  is_directory = is_directory e;
}

-- The body of the inner loop of `fat32_list_dir`: the entries filled in so far, and whether it returns their count.
pub list_dir_step : DirEntry → List DirInfo → Step (List DirInfo) (List DirInfo × Bool)
list_dir_step e entries =
    if first_byte e == 0
    then stop (entries, true)
    else if first_byte e == 0xE5
    then next entries
    else if e.attr == attr_long_name
    then next entries
    else if is_volume e
    then next entries
    else next (entries ++ info_of e ∷ [])

-- `fat32_list_dir` into a buffer that is not NULL: the entries filled in, and whether it returns their count or -1.
pub list_dir : ℕ → Disk → Fs → ℕ → Option (List DirInfo × Bool)
list_dir fuel disk fs max_entries =
    if not fs.initialized || max_entries == 0
    then some ([], false)
    else scan_chain disk fs list_dir_step (λ entries. leb max_entries (length entries))
        (λ entries. (entries, false)) (λ entries. (entries, true)) fuel fs.root_dir_cluster []

-- The file that an entry stands for.
unfoldable pub file_of : DirEntry → File
file_of e = record {
  first_cluster = e.first_cluster_high * 2 ^ 16 + e.first_cluster_low;
  current_cluster = e.first_cluster_high * 2 ^ 16 + e.first_cluster_low;
  size = e.file_size;
  position = 0;
  attr = e.attr;
  valid = true;
}

-- The body of the inner loop of `fat32_open`; NULL is `none`.
pub open_step : List ℕ → DirEntry → Unit {0} → Step (Unit {0}) (Option File)
open_step search_name e u =
    if first_byte e == 0
    then stop none
    else if first_byte e == 0xE5
    then next u
    else if e.attr == attr_long_name
    then next u
    else if strncmp_equal 11 e.name search_name
    then stop (some (file_of e))
    else next u

pub open_file : ℕ → Disk → Fs → List ℕ → Option (Option File)
open_file fuel disk fs filename =
    if not fs.initialized
    then some none
    else scan_chain disk fs (open_step (string_to_name filename)) (λ u. false) (λ u. none)
        (λ u. none) fuel fs.root_dir_cluster tt

-- The lines that `fat32_list_root` prints.
print_total : Vga → ℕ → Vga
print_total v count =
    Vga.puts (Vga.puts (Vga.puts v (text "\nTotal files: ")) (decimal count)) (text "\n")

print_entry : Vga → DirEntry → Vga
print_entry v e =
    let v1 = if is_directory e then Vga.puts v (text "[DIR]  ") else Vga.puts v (text "[FILE] ") in
    let v2 = Vga.puts (Vga.puts v1 (name_to_string e.name)) (text " (") in
    Vga.puts (Vga.puthex v2 e.file_size) (text " bytes)\n")

-- The body of its inner loop: the screen and the count; -1 is `none`.
pub list_root_step : DirEntry → Vga × ℕ → Step (Vga × ℕ) (Vga × Option ℕ)
list_root_step e (v, count) =
    if first_byte e == 0
    then stop (print_total v count, some count)
    else if first_byte e == 0xE5
    then next (v, count)
    else if e.attr == attr_long_name
    then next (v, count)
    else if is_volume e
    then next (v, count)
    else next (print_entry v e, count + 1)

pub list_root : ℕ → Disk → Fs → Vga → Option (Vga × Option ℕ)
list_root fuel disk fs v =
    if not fs.initialized
    then some (v, none)
    else let v1 = Vga.puts v (text "Files in root directory:\n") in
      let v2 = Vga.puts v1 (text "------------------------\n") in
      scan_chain disk fs list_root_step (λ s. false) (λ s. (s.0, none))
        (λ s. (print_total s.0 s.1, some s.1)) fuel fs.root_dir_cluster (v2, 0)
