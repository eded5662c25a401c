-- ===== src/Fat32.antt =====
-- kernel/fat32.c and kernel/fat32.h: the FAT32 file system on a disk that is a parameter. The sector buffer is not part
-- of the state, since each use of it follows a read that fills it. The walks along a chain of clusters take
-- fuel, and `none` means that it ran out. A file handle that is NULL is `none`.
pub mod Name
pub mod Dir
pub mod Chains
pub mod Read
pub mod Ends
pub mod Sample
mod Tests
use magnos.Base.{
  ℕ, zero, suc, ◌+◌, ◌-◌, ◌*◌, ◌/◌, ◌%◌, ◌^◌, min, Bool, true, false, not, ◌&&◌, ◌||◌, List, [],
  ◌∷◌, ◌++◌, Option, none, some, ltb, leb, ◌==◌, if◌then◌else◌,
}
use magnos.Disk.{Sector, Disk, word16, word32}

abbrev pub sector_size : ℕ
sector_size = 512

abbrev pub cluster_reserved : ℕ
cluster_reserved = 0x0FFFFFF0

abbrev pub cluster_eoc : ℕ
cluster_eoc = 0x0FFFFFF8

-- `FAT32_CLUSTER_MASK`: the mask of the low 28 bits is a remainder.
abbrev pub cluster_mod : ℕ
cluster_mod = 2 ^ 28

-- `fat32_bpb_t`
pub record Bpb : Type 0 where
  pub bytes_per_sector : ℕ
  pub sectors_per_cluster : ℕ
  pub reserved_sectors : ℕ
  pub num_fats : ℕ
  pub root_entry_count : ℕ
  pub total_sectors_16 : ℕ
  pub media_type : ℕ
  pub fat_size_16 : ℕ
  pub sectors_per_track : ℕ
  pub num_heads : ℕ
  pub hidden_sectors : ℕ
  pub total_sectors_32 : ℕ
  pub fat_size_32 : ℕ
  pub ext_flags : ℕ
  pub fs_version : ℕ
  pub root_cluster : ℕ
  pub fs_info : ℕ
  pub backup_boot_sector : ℕ

-- The fields of the packed structure at their offsets; the text fields, which nothing reads, are left out.
pub bpb_of : Sector → Bpb
bpb_of s = record {
  bytes_per_sector = word16 s 11;
  sectors_per_cluster = s 13;
  reserved_sectors = word16 s 14;
  num_fats = s 16;
  root_entry_count = word16 s 17;
  total_sectors_16 = word16 s 19;
  media_type = s 21;
  fat_size_16 = word16 s 22;
  sectors_per_track = word16 s 24;
  num_heads = word16 s 26;
  hidden_sectors = word32 s 28;
  total_sectors_32 = word32 s 32;
  fat_size_32 = word32 s 36;
  ext_flags = word16 s 40;
  fs_version = word16 s 42;
  root_cluster = word32 s 44;
  fs_info = word16 s 48;
  backup_boot_sector = word16 s 50;
}

-- `fat32_fs_t`
pub record Fs : Type 0 where
  pub drive : ℕ
  pub bpb : Bpb
  pub fat_start_sector : ℕ
  pub data_start_sector : ℕ
  pub root_dir_cluster : ℕ
  pub initialized : Bool

-- The checks of `fat32_init` behind the copy of the boot sector, and the values that it calculates. The second
-- component is whether it returns 0.
pub mount : Fs → Fs × Bool
mount fs =
    if not (fs.bpb.bytes_per_sector == 512)
    then (fs, false)
    else if not (fs.bpb.fat_size_16 == 0)
    then (fs, false)
    else (
      record fs {
        fat_start_sector = fs.bpb.reserved_sectors;
        data_start_sector =
            (fs.bpb.reserved_sectors + (fs.bpb.num_fats * fs.bpb.fat_size_32) % 2 ^ 32) % 2 ^ 32;
        root_dir_cluster = fs.bpb.root_cluster;
        initialized = true;
      },
      true,
    )

read_boot : Fs → Option Sector → Fs × Bool
read_boot fs none = (fs, false)
read_boot fs (some s) = mount (record fs { bpb = bpb_of s })

pub init : Disk → Fs → ℕ → Fs × Bool
init disk fs drive = read_boot (record fs { drive = drive; initialized = false }) (disk drive 0)

-- The entry of the FAT in its sector.
pub fat_entry : Option Sector → ℕ → ℕ
fat_entry none offset = cluster_eoc
fat_entry (some s) offset =
    let next = word32 s (offset * 4) % cluster_mod in
    if leb cluster_eoc next then cluster_eoc else next

-- `fat32_get_next_cluster`
pub get_next_cluster : Disk → Fs → ℕ → ℕ
get_next_cluster disk fs cluster =
    let fat_offset = (cluster * 4) % 2 ^ 32 in
    let fat_sector = (fs.fat_start_sector + fat_offset / sector_size) % 2 ^ 32 in
    if ltb cluster 2 || leb cluster_reserved cluster
    then cluster_eoc
    else fat_entry (disk fs.drive fat_sector) (fat_offset % sector_size / 4)

pub cluster_to_sector : Fs → ℕ → ℕ
cluster_to_sector fs cluster =
    if ltb cluster 2
    then 0
    else (fs.data_start_sector + ((cluster - 2) * fs.bpb.sectors_per_cluster) % 2 ^ 32) % 2 ^ 32

-- `fat32_file_t`
pub record File : Type 0 where
  pub first_cluster : ℕ
  pub current_cluster : ℕ
  pub size : ℕ
  pub position : ℕ
  pub attr : ℕ
  pub valid : Bool

-- The bytes from `off` on that `memcpy` copies out of the sector buffer.
unfoldable pub slice : Sector → ℕ → ℕ → List ℕ
slice s off zero = []
slice s off (suc n) = s off ∷ slice s (off + 1) n

abbrev pub cluster_size : Fs → ℕ
cluster_size fs = fs.bpb.sectors_per_cluster * sector_size

-- The bytes that one round of the loop copies: up to the end of the sector, of the cluster, and of the request.
pub chunk : Fs → File → ℕ → ℕ
chunk fs f n =
    let offset = f.position % cluster_size fs in
    let in_cluster = min (cluster_size fs - offset) n in
    min (sector_size - offset % sector_size) in_cluster

-- The position behind `k` more bytes, and the next cluster if it is the end of this one.
pub advance : Disk → Fs → File → ℕ → File
advance disk fs f k =
    let position : ℕ = (f.position + k) % 2 ^ 32 in
    let next = get_next_cluster disk fs f.current_cluster in
    record f {
      position = position;
      current_cluster = if position % cluster_size fs == 0 then next else f.current_cluster;
    }

-- The sector that holds the position.
pub sector_at : Fs → File → ℕ
sector_at fs f =
    (cluster_to_sector fs f.current_cluster + f.position % cluster_size fs / sector_size) % 2 ^ 32

pub prepend : List ℕ → Option (File × List ℕ) → Option (File × List ℕ)
prepend bytes none = none
prepend bytes (some (f, more)) = some (f, bytes ++ more)

-- The copy, or the early return if the sector cannot be read.
pub deliver : File → ℕ → ℕ → Option (File × List ℕ) → Option Sector → Option (File × List ℕ)
deliver f off k rest none = some (f, [])
deliver f off k rest (some s) = prepend (slice s off k) rest

-- The loop of `fat32_read`: the file behind it, and the bytes that it has copied to the buffer.
pub read_loop : ℕ → Disk → Fs → File → ℕ → Option (File × List ℕ)
read_loop zero disk fs f n = none
read_loop (suc fuel) disk fs f n =
    let k = chunk fs f n in
    let rest = read_loop fuel disk fs (advance disk fs f k) (n - k) in
    let off = f.position % cluster_size fs % sector_size in
    if ltb 0 n && ltb f.current_cluster cluster_eoc
    then deliver f off k rest (disk fs.drive (sector_at fs f))
    else some (f, [])

-- The request cut to the end of the file; the sum and the difference wrap.
pub clamp : File → ℕ → ℕ
clamp f size =
    if ltb f.size ((f.position + size) % 2 ^ 32)
    then (f.size + 2 ^ 32 - f.position) % 2 ^ 32
    else size

-- What `fat32_read` returns: -1, or the file with the bytes copied, whose number is the result.
pub data ReadResult : Type 0 where
  failed : ReadResult
  copied : File → List ℕ → ReadResult

pub read_result : Option (File × List ℕ) → Option ReadResult
read_result none = none
read_result (some (f, bytes)) = some (copied f bytes)

unfoldable pub read : ℕ → Disk → Fs → Option File → ℕ → Option ReadResult
read fuel disk fs none size = some failed
read fuel disk fs (some f) size =
    if not f.valid || not fs.initialized
    then some failed
    else read_result (read_loop fuel disk fs f (clamp f size))

pub close : Option File → Option File
close none = none
close (some f) = some (record f { valid = false })

-- The two values that `fat32_get_info` stores.
pub get_info : Fs → ℕ × ℕ
get_info fs = (fs.bpb.total_sectors_32, 0)
