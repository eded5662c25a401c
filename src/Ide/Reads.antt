-- ===== src/Ide/Reads.antt =====
-- The disk that kernel/fat32.c reads by `ide_read_sectors` of kernel/ide.c, one sector after the other.
use magnos.Base.{
  ℕ, ◌/◌, ◌%◌, ◌^◌, ◌<◌, Bool, List, [], ◌∷◌, ◌==◌, if◌then◌else◌, Option, some, none, get_or,
}
use magnos.Ports.{History, Device}
use magnos.Disk.{Sector, Disk}
use magnos.Ide.{read_sectors}
use magnos.Ide.Transfer.{stored}

-- The buffer of words by bytes, as the casts of `sector_buffer` read it.
pub bytes_of : List ℕ → Sector
bytes_of words i = let w = get_or words (i / 2) 0 in if i % 2 == 0 then w % 2 ^ 8 else w / 2 ^ 8

-- What a call for a single sector leaves in the buffer, if it returns 0.
abbrev pub result : History × List ℕ × Bool → History × Option Sector
result (h, ws, ok) = (h, if ok then some (bytes_of ws) else none)

abbrev pub next_result :
    History × Option Sector → (History → List (Option Sector)) → List (Option Sector)
next_result (h, s) more = s ∷ more h

-- Calls for single sectors one after the other, each by its drive and address.
pub read_all : Device → List (ℕ × ℕ) → History → List (Option Sector)
read_all device [] h = []
read_all device ((drive, lba) ∷ requests) h =
    next_result (result (read_sectors device drive lba 1 h)) (read_all device requests)

-- The disk with this content.
abbrev pub disk_of : (ℕ → ℕ → ℕ → ℕ) → Disk
disk_of content drive lba = some (bytes_of (stored content (drive / 16 % 2) lba 0 256))

abbrev pub Addressable : ℕ × ℕ → Type 0
Addressable (drive, lba) = (drive < 256) × (lba < 2 ^ 28)
