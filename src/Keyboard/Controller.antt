-- ===== src/Keyboard/Controller.antt =====
-- `keyboard_init` of kernel/keyboard.c: the commands to the keyboard controller. The delay loop does nothing.
use magnos.Base.{ℕ, zero, suc, ◌+◌, ◌*◌, ◌/◌, Bool, true, false, not, bit_clear}
use magnos.Ports.{History, Device, outb, inb, byte_in}
use magnos.Keyboard.{Keyboard, reset}

abbrev pub kb_data_port : ℕ
kb_data_port = 0x60

abbrev pub kb_status_port : ℕ
kb_status_port = 0x64

abbrev pub kb_cmd_port : ℕ
kb_cmd_port = 0x64

-- KB_STATUS_INPUT_FULL and KB_STATUS_OUTPUT_FULL of the status at a point.
abbrev pub input_full : Device → History → Bool
input_full device h = not (bit_clear (byte_in device h kb_status_port) 1)

abbrev pub output_full : Device → History → Bool
output_full device h = not (bit_clear (byte_in device h kb_status_port) 0)

-- `config | 0x01`
abbrev pub with_interrupt : ℕ → ℕ
with_interrupt config = 2 * (config / 2) + 1

module _ (device : Device) where
  abbrev pub read_status : History → History
  read_status h = inb device kb_status_port h

  -- A loop that waits, with `timeout`; it reads the status once more when that is 0.
  unfoldable pub wait_while : (History → Bool) → ℕ → History → History
  wait_while test zero h = read_status h
  wait_while test (suc timeout) h =
      let rest = wait_while test timeout (read_status h) in
      elim (test h) [ true ↦ rest | false ↦ read_status h ]

  abbrev pub wait_to_write : History → History
  wait_to_write h = wait_while (input_full device) 10000 h

  abbrev pub wait_to_read : History → History
  wait_to_read h = wait_while (λ t. not (output_full device t)) 10000 h

  -- The loop that clears pending data.
  unfoldable pub drain : ℕ → History → History
  drain zero h = read_status h
  drain (suc timeout) h =
      let rest = drain timeout (inb device kb_data_port (read_status h)) in
      elim (output_full device h) [ true ↦ rest | false ↦ read_status h ]

  -- The ask for the configuration; it is the byte that is read at the end.
  abbrev pub ask_config : History → History
  ask_config h = wait_to_read (outb kb_cmd_port 0x20 (wait_to_write h))

  unfoldable pub configure : History → History
  configure h =
      let h1 = ask_config h in
      let config = byte_in device h1 kb_data_port in
      let h2 = outb kb_cmd_port 0x60 (wait_to_write (inb device kb_data_port h1)) in
      let h3 = outb kb_data_port (with_interrupt config) (wait_to_write h2) in
      drain 100 (outb kb_cmd_port 0xAE (wait_to_write h3))

  unfoldable pub init : Keyboard → History → Keyboard × History
  init k h = (reset k, configure h)
