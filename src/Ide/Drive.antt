-- ===== src/Ide/Drive.antt =====
-- What kernel/ide.c relies on: how a disk of the ATA standard answers at its ports when it is read by PIO.
use magnos.Base.{
  ℕ, zero, suc, ◌+◌, ◌-◌, ◌*◌, ◌/◌, ◌%◌, ◌^◌, ◌<◌, ◌≡◌, Bool, true, false, ◌&&◌, [], ◌∷◌, ltb, ◌==◌,
  if◌then◌else◌,
}
use magnos.Ports.{Io, output, input, History, Device, word_in}
use magnos.Ide.{
  data_port, sector_cnt_port, lba_low_port, lba_mid_port, lba_high_port, drive_port, status_port,
  cmd_read_sectors, has_error, has_drq, is_ready, timeout, read_status, status_at,
}

-- The registers of the disk, and the transfer: `left` words are still to be read, `given` have been read, and the block
-- is open once the status has shown that its words can be read.
pub record Drive : Type 0 where
  pub select : ℕ
  pub count : ℕ
  pub low : ℕ
  pub mid : ℕ
  pub high : ℕ
  pub unit : ℕ
  pub start : ℕ
  pub given : ℕ
  pub left : ℕ
  pub block_open : Bool

-- The address in the registers.
abbrev pub address : Drive → ℕ
address d = d.select % 16 * 2 ^ 24 + d.high * 2 ^ 16 + d.mid * 2 ^ 8 + d.low

abbrev begin : Drive → Drive
begin d = record d {
  unit = d.select / 16 % 2;
  start = address d;
  given = 0;
  left = d.count * 256;
  block_open = false;
}

unfoldable pub step : Io → Drive → Drive
step (output port v) d =
    if port == sector_cnt_port
    then record d { count = v }
    else if port == lba_low_port
    then record d { low = v }
    else if port == lba_mid_port
    then record d { mid = v }
    else if port == lba_high_port
    then record d { high = v }
    else if port == drive_port
    then record d { select = v }
    else if port == status_port && v == cmd_read_sectors
    then begin d
    else d
step (input port v) d =
    if port == status_port
    then (if has_drq v && ltb 0 d.left then record d { block_open = true } else d)
    else if port == data_port && ltb 0 d.left
    then record d {
      given = d.given + 1;
      left = d.left - 1;
      block_open = if (d.given + 1) % 256 == 0 then false else d.block_open;
    }
    else d

unfoldable pub drive_of : History → Drive
drive_of [] = record {
  select = 0;
  count = 0;
  low = 0;
  mid = 0;
  high = 0;
  unit = 0;
  start = 0;
  given = 0;
  left = 0;
  block_open = false;
}
drive_of (e ∷ h) = step e (drive_of h)

-- The history behind so many reads of the status.
abbrev pub polls : Device → ℕ → History → History
polls device zero h = h
polls device (suc n) h = polls device n (read_status device h)

-- A disk that stores the words `content unit lba i`. Without a transfer it gets ready within the rounds that the driver
-- waits. In a transfer it gets the next block ready within them and without an error, and gives the words of an open
-- block in order.
pub record IsAta (device : Device) (content : ℕ → ℕ → ℕ → ℕ) : Type 0 where
  pub ready :
      (h : History)
      → (drive_of h).left ≡ 0
      → (n : ℕ) × (n < timeout) × (is_ready (status_at device (polls device n h)) ≡ true)
  pub requests :
      (h : History)
      → 0 < (drive_of h).left
      → (n : ℕ) × (n < timeout)
        × (has_drq (status_at device (polls device n h)) ≡ true)
        × ((k : ℕ) → k < n → has_error (status_at device (polls device k h)) ≡ false)
  pub words :
      (h : History)
      → 0 < (drive_of h).left
      → (drive_of h).block_open ≡ true
      → word_in device h data_port
        ≡ content
            (drive_of h).unit
            ((drive_of h).start + (drive_of h).given / 256)
            ((drive_of h).given % 256)
