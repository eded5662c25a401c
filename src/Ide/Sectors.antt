-- ===== src/Ide/Sectors.antt =====
-- `ide_read_sectors` of kernel/ide.c on a disk of the ATA standard, and the disk that kernel/fat32.c reads.
use Prim.Native.Nat.{bit_and, bit_or}
use magnos.Base.{
  ℕ, zero, suc, ◌+◌, ◌*◌, ◌/◌, ◌%◌, ◌^◌, ◌<◌, ◌≡◌, refl, sym, ◌∙◌, ap, Bool, true, false, ◌&&◌,
  List, ltb, ◌==◌, arith, holds_below, holds_below_at,
}
use magnos.Ports.{History, Device}
use magnos.Ide.{
  cmd_read_sectors, drive_select, wait_ready, wait_drq, command, append_words, read_sector,
  read_loop, read_sectors,
}
use magnos.Ide.Drive.{step, drive_of, IsAta}
use magnos.Ide.Transfer.{
  wait_ready-ready, wait_drq-open, Transfers, stored, stored-append, inw_buffer-stored,
}

-- The byte for the drive register, for all drives and upper bits of an address.
select_ok : ℕ → ℕ → Bool
select_ok drive l =
    let v = bit_or (bit_or (bit_and drive 0x10) 0xE0) l in
    v % 16 == l && (v / 16 % 2 == drive / 16 % 2 && ltb v 256)

select_table : holds_below 256 (λ drive. holds_below 16 (select_ok drive)) ≡ true
unfolding holds_below select_ok
select_table = refl

drive_select_lem :
    (drive lba : ℕ)
    → drive < 256
    → (drive_select drive lba % 2 ^ 8 % 16 ≡ lba / 2 ^ 24 % 16)
      × (drive_select drive lba % 2 ^ 8 / 16 % 2 ≡ drive / 16 % 2)
unfolding select_ok
drive_select_lem drive lba h =
    let ok =
      holds_below_at 16 (select_ok drive) (lba / 2 ^ 24 % 16)
        (holds_below_at 256 _ drive select_table h) (omega arith) in
    ground arith

module _ (device : Device) (content : ℕ → ℕ → ℕ → ℕ) (ata : IsAta device content) where
  -- The command begins a transfer of the sectors.
  command_lem :
      (drive lba n : ℕ) (h : History)
      → drive < 256
      → lba < 2 ^ 28
      → n < 256
      → Transfers
          (drive_of (command device cmd_read_sectors drive lba n h))
          (drive / 16 % 2)
          lba
          0
          (n * 256)
  unfolding drive_of step
  command_lem drive lba n h hd hl hn =
      let (low, unit) = drive_select_lem drive lba hd in (unit, omega arith, refl, omega arith)

  read_loop_go :
      (n : ℕ) (h h1 h2 : History) (ws : List ℕ)
      → wait_drq device h ≡ (h1, true)
      → read_sector device h1 ≡ (h2, ws)
      → read_loop device (suc n) h ≡ append_words device ws (read_loop device n h2)
  unfolding read_loop
  read_loop_go n h h1 h2 ws e e' = rw e (rw e' refl)

  read_loop-stored :
      (n : ℕ) (h : History) (unit start g : ℕ)
      → Transfers (drive_of h) unit start g (n * 256)
      → g % 256 ≡ 0
      → (h' : History) × (read_loop device n h ≡ (h', stored content unit start g (n * 256), true))
        × ((drive_of h').left ≡ 0)
  unfolding read_loop
  read_loop-stored zero h unit start g t whole = (h, refl, t.3)
  read_loop-stored (suc n) h unit start g (u, s, given, left) whole =
      let (h1, run, state) = wait_drq-open device content ata h (omega arith) in
      let (h2, run2, t2) =
        inw_buffer-stored device content ata 256 h1 unit start g (n * 256)
          (rw state (u, s, given, omega arith)) (omega arith) (λ more. rw state refl) in
      let (h3, run3, idle) = read_loop-stored n h2 unit start (g + 256) t2 (omega arith) in
      let sum : suc n * 256 ≡ 256 + n * 256 = omega arith in
      (
        h3,
        read_loop_go n h h1 h2 (stored content unit start g 256) run run2
            ∙ ap (append_words device (stored content unit start g 256)) run3
            ∙ ap (λ t. (h3, t, true))
                (sym (
                  ap (stored content unit start g) sum
                  ∙ stored-append content unit start g 256 (n * 256))),
        idle,
      )

  read_sectors_go :
      (drive lba n : ℕ) (h h1 : History)
      → 0 < n
      → wait_ready device h ≡ (h1, true)
      → read_sectors device drive lba n h
        ≡ read_loop device n (command device cmd_read_sectors drive lba n h1)
  unfolding read_sectors
  read_sectors_go drive lba n h h1 pos e =
      let some_sectors : n == 0 ≡ false = ground arith in rw some_sectors (rw e refl)

  -- `ide_read_sectors` of up to 255 sectors below 2 ^ 28 from a disk of the ATA standard that has no transfer open
  -- returns 0, with the words of these sectors in the buffer and no transfer open.
  pub read_sectors-stored :
      (drive lba n : ℕ) (h : History)
      → drive < 256
      → lba < 2 ^ 28
      → 0 < n
      → n < 256
      → (drive_of h).left ≡ 0
      → (h' : History) × (read_sectors device drive lba n h
          ≡ (h', stored content (drive / 16 % 2) lba 0 (n * 256), true))
        × ((drive_of h').left ≡ 0)
  read_sectors-stored drive lba n h hd hl pos hn idle =
      let (h1, run, state) = wait_ready-ready device content ata h idle in
      let (h2, run2, idle2) =
        read_loop-stored n (command device cmd_read_sectors drive lba n h1) (drive / 16 % 2) lba 0
          (command_lem drive lba n h1 hd hl hn) refl in
      (h2, read_sectors_go drive lba n h h1 pos run ∙ run2, idle2)
