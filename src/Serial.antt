-- ===== src/Serial.antt =====
-- kernel/serial.c and kernel/serial.h: the serial port, over the ports of a device. A loop that waits for the chip takes
-- fuel, a number of reads of the status, and `none` means that it is still waiting.
pub mod Lines
mod Tests
use magnos.Base.{
  ℕ, zero, suc, ◌+◌, ◌/◌, ◌%◌, ◌^◌, Bool, true, false, not, List, [], ◌∷◌, Option, none, some, ◌==◌,
  if◌then◌else◌, bit_clear,
}
use magnos.Ports.{History, Device, outb, inb, byte_in}

abbrev pub com1 : ℕ
com1 = 0x3F8

abbrev pub data_reg : ℕ
data_reg = 0

abbrev pub int_enable : ℕ
int_enable = 1

abbrev pub fifo_ctrl : ℕ
fifo_ctrl = 2

abbrev pub line_ctrl : ℕ
line_ctrl = 3

abbrev pub modem_ctrl : ℕ
modem_ctrl = 4

abbrev pub line_status : ℕ
line_status = 5

abbrev pub then_put : Option History → (History → Option History) → Option History
then_put none more = none
then_put (some h) more = more h

module _ (device : Device) (port : ℕ) where
  -- Whether it returns 0 and not 1.
  init : History → History × Bool
  init h =
      let h1 = outb (port + line_ctrl) 0x80 (outb (port + int_enable) 0x00 h) in
      let h2 = outb (port + int_enable) 0x00 (outb (port + data_reg) 0x03 h1) in
      let h3 = outb (port + fifo_ctrl) 0xC7 (outb (port + line_ctrl) 0x03 h2) in
      let h4 = outb (port + modem_ctrl) 0x1E (outb (port + modem_ctrl) 0x0B h3) in
      let h5 = outb (port + data_reg) 0xAE h4 in
      let h6 = inb device (port + data_reg) h5 in
      if byte_in device h5 (port + data_reg) == 0xAE
      then (outb (port + modem_ctrl) 0x0F h6, true)
      else (h6, false)

  -- `serial_is_transmit_empty` and `serial_received`; the read of the status is `read_line`.
  abbrev pub is_transmit_empty : History → Bool
  is_transmit_empty h = not (bit_clear (byte_in device h (port + line_status)) 5)

  abbrev pub received : History → Bool
  received h = not (bit_clear (byte_in device h (port + line_status)) 0)

  abbrev pub read_line : History → History
  read_line h = inb device (port + line_status) h

  unfoldable pub putchar : ℕ → ℕ → History → Option History
  putchar zero c h = none
  putchar (suc fuel) c h = elim (is_transmit_empty h) [
    | true ↦ some (outb (port + data_reg) c (read_line h))
    | false ↦ putchar fuel c (read_line h)
  ]

  unfoldable pub puts : ℕ → List ℕ → History → Option History
  puts fuel [] h = some h
  puts fuel (c ∷ cs) h =
      then_put (if c == 10 then putchar fuel 13 h else some h)
        (λ h1. then_put (putchar fuel c h1) (puts fuel cs))

  unfoldable pub getchar : ℕ → History → Option (History × ℕ)
  getchar zero h = none
  getchar (suc fuel) h = elim (received h) [
    | true ↦
        some (
          inb device (port + data_reg) (read_line h),
          byte_in device (read_line h) (port + data_reg),
        )
    | false ↦ getchar fuel (read_line h)
  ]
