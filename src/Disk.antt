-- ===== src/Disk.antt =====
-- The disk as the file system of kernel/fat32.c reads it: single sectors of 512 bytes, which `ide_read_sectors` gives
-- or fails to give. The result of a read depends on the drive and the sector number alone.
use magnos.Base.{ℕ, ◌+◌, ◌*◌, ◌^◌, Option}

-- The bytes of a sector by offset.
abbrev pub Sector : Type 0
Sector = ℕ → ℕ

abbrev pub Disk : Type 0
Disk = ℕ → ℕ → Option Sector

-- Little-endian words.
abbrev pub word16 : Sector → ℕ → ℕ
word16 s i = s i + s (i + 1) * 2 ^ 8

abbrev pub word32 : Sector → ℕ → ℕ
word32 s i = s i + s (i + 1) * 2 ^ 8 + s (i + 2) * 2 ^ 16 + s (i + 3) * 2 ^ 24
