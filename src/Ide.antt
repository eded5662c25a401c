-- ===== src/Ide.antt =====
-- kernel/ide.c and kernel/ide.h: the driver of the disk, over the ports of a device. The results 0 and -1 are `true` and
-- `false`. The loops that wait run out of their 100000 rounds, as in C. A buffer is the list of the words in it.
pub mod Drive
pub mod Transfer
pub mod Sectors
pub mod Reads
mod Tests
use Prim.Native.Nat.{bit_and, bit_or}
use magnos.Base.{
  ℕ, zero, suc, ◌+◌, ◌-◌, ◌*◌, ◌/◌, ◌%◌, ◌^◌, Bool, true, false, not, ◌&&◌, List, [], ◌∷◌, ◌++◌,
  leb, ◌==◌, if◌then◌else◌, bit_clear, take, drop,
}
use magnos.Ports.{History, Device, outb, inb, byte_in, inw_buffer, outw_buffer}

abbrev pub primary_ctrl : ℕ
primary_ctrl = 0x3F6

abbrev pub data_port : ℕ
data_port = 0x1F0

abbrev pub sector_cnt_port : ℕ
sector_cnt_port = 0x1F2

abbrev pub lba_low_port : ℕ
lba_low_port = 0x1F3

abbrev pub lba_mid_port : ℕ
lba_mid_port = 0x1F4

abbrev pub lba_high_port : ℕ
lba_high_port = 0x1F5

abbrev pub drive_port : ℕ
drive_port = 0x1F6

-- IDE_REG_STATUS for reads, IDE_REG_COMMAND for writes.
abbrev pub status_port : ℕ
status_port = 0x1F7

abbrev pub cmd_read_sectors : ℕ
cmd_read_sectors = 0x20

abbrev pub cmd_write_sectors : ℕ
cmd_write_sectors = 0x30

abbrev pub cmd_identify : ℕ
cmd_identify = 0xEC

abbrev pub has_error : ℕ → Bool
has_error status = not (bit_clear status 0)

abbrev pub has_drq : ℕ → Bool
has_drq status = not (bit_clear status 3)

abbrev pub is_busy : ℕ → Bool
is_busy status = not (bit_clear status 7)

abbrev pub is_ready : ℕ → Bool
is_ready status = not (is_busy status) && not (bit_clear status 6)

abbrev pub timeout : ℕ
timeout = 100000

-- `(drive & 0x10) | 0xE0 | ((lba >> 24) & 0x0F)`
abbrev pub drive_select : ℕ → ℕ → ℕ
drive_select drive lba = bit_or (bit_or (bit_and drive 0x10) 0xE0) (lba / 2 ^ 24 % 16)

module _ (device : Device) where
  abbrev pub read_status : History → History
  read_status h = inb device status_port h

  abbrev pub status_at : History → ℕ
  status_at h = byte_in device h status_port

  -- The loops of `ide_wait_ready` and `ide_wait_drq`, with the rounds left.
  unfoldable pub wait_ready_loop : ℕ → History → History × Bool
  wait_ready_loop zero h = (h, false)
  wait_ready_loop (suc n) h = elim (is_ready (status_at h)) [
    | true ↦ (read_status h, true)
    | false ↦ wait_ready_loop n (read_status h)
  ]

  unfoldable pub wait_drq_loop : ℕ → History → History × Bool
  wait_drq_loop zero h = (h, false)
  wait_drq_loop (suc n) h = elim (has_drq (status_at h)) [
    | true ↦ (read_status h, true)
    | false ↦ elim (has_error (status_at h)) [
      | true ↦ (read_status h, false)
      | false ↦ wait_drq_loop n (read_status h)
    ]
  ]

  pub wait_ready : History → History × Bool
  wait_ready h = wait_ready_loop timeout h

  pub wait_drq : History → History × Bool
  wait_drq h = wait_drq_loop timeout h

  -- `ide_400ns_delay`
  abbrev pub delay : History → History
  delay h =
      inb device primary_ctrl
        (inb device primary_ctrl (inb device primary_ctrl (inb device primary_ctrl h)))

  -- The loop of `ide_init`: the rounds left when it ends, none if they are used up. The check behind it takes a drive
  -- that is ready only in the last round for one that is not.
  init_loop : ℕ → History → History × Bool
  init_loop zero h = (h, false)
  init_loop (suc n) h = elim (is_busy (status_at h)) [
    | true ↦ init_loop n (read_status h)
    | false ↦ (read_status h, not (n == 0))
  ]

  pub init : History → History × Bool
  init h =
      let h1 = delay (outb primary_ctrl 0x02 h) in
      let h2 = read_status h1 in
      if status_at h1 == 0xFF
      then (h2, false)
      else init_loop timeout (delay (outb drive_port 0xA0 h2))

  -- The drive, the number of sectors and the address of the first, and the command.
  abbrev pub command : ℕ → ℕ → ℕ → ℕ → History → History
  command cmd drive lba sector_count h = outb status_port cmd (
      outb lba_high_port (lba / 2 ^ 16) (
        outb lba_mid_port (lba / 2 ^ 8) (
          outb lba_low_port lba (
            outb sector_cnt_port sector_count
              (delay (outb drive_port (drive_select drive lba) h))))))

  abbrev pub append_words : List ℕ → History × List ℕ × Bool → History × List ℕ × Bool
  append_words ws (h, more, ok) = (h, ws ++ more, ok)

  abbrev pub read_sector : History → History × List ℕ
  read_sector h = inw_buffer device data_port 256 h

  -- The sectors, so many left, or the early return.
  unfoldable pub read_loop : ℕ → History → History × List ℕ × Bool
  read_loop zero h = (h, [], true)
  read_loop (suc n) h =
      let (h1, ok) = wait_drq h in
      let (h2, ws) = read_sector h1 in
      let rest = read_loop n h2 in if ok then append_words ws rest else (h1, [], false)

  -- The words that it has put into the buffer, and whether it returns 0.
  unfoldable pub read_sectors : ℕ → ℕ → ℕ → History → History × List ℕ × Bool
  read_sectors drive lba sector_count h =
      let (h1, ok) = wait_ready h in
      let rest = read_loop sector_count (command cmd_read_sectors drive lba sector_count h1) in
      if sector_count == 0 then (h, [], false) else if ok then rest else (h1, [], false)

  unfoldable pub write_loop : ℕ → List ℕ → History → History × Bool
  write_loop zero buffer h = wait_ready h
  write_loop (suc n) buffer h =
      let (h1, ok) = wait_drq h in
      let rest =
        write_loop n (drop 256 buffer) (delay (outw_buffer data_port (take 256 buffer) h1)) in
      if ok then rest else (h1, false)

  unfoldable pub write_sectors : ℕ → ℕ → ℕ → List ℕ → History → History × Bool
  write_sectors drive lba sector_count buffer h =
      let (h1, ok) = wait_ready h in
      let rest =
        write_loop sector_count buffer (command cmd_write_sectors drive lba sector_count h1) in
      if sector_count == 0 then (h, false) else if ok then rest else (h1, false)

  identify_words : History × Bool → History × List ℕ × Bool
  identify_words (h, true) = let (h', ws) = read_sector h in (h', ws, true)
  identify_words (h, false) = (h, [], false)

  identify : ℕ → History → History × List ℕ × Bool
  identify drive h =
      let (h1, ok) = wait_ready h in
      let h2 = outb status_port cmd_identify (delay (outb drive_port (bit_and drive 0x10) h1)) in
      let h3 = read_status h2 in
      if not ok
      then (h1, [], false)
      else if status_at h2 == 0
      then (h3, [], false)
      else identify_words (wait_drq h3)
