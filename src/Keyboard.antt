-- ===== src/Keyboard.antt =====
-- kernel/keyboard.c: scancode translation with modifier state, and the ring buffer between the IRQ1
-- handler and `keyboard_getchar`. The `uint8_t` flags, which only hold 0 and 1, are Booleans. The byte
-- that `inb(KB_DATA_PORT)` delivers is the argument of `irq_handler`.
pub mod Tables
pub mod Key
pub mod Letters
pub mod Ring
pub mod Events
pub mod Controller
pub mod Chip
pub mod Handshake
mod Tests
use Key
use Tables.{scancode_to_ascii, scancode_to_ascii_shift}
use magnos.Base.{
  ℕ, ◌+◌, ◌%◌, Bool, true, false, not, ◌&&◌, ◌||◌, List, ltb, leb, ◌==◌, if◌then◌else◌, length,
  get_or, set, bit_clear, clear_bit,
}
use mathlib.Core.Bool.{xor}

-- The static variables.
pub record Keyboard : Type 0 where
  pub shift_pressed : Bool
  pub ctrl_pressed : Bool
  pub alt_pressed : Bool
  pub capslock_on : Bool
  pub kb_buffer : List ℕ
  pub kb_head : ℕ
  pub kb_tail : ℕ

abbrev pub kb_buffer_size : ℕ
kb_buffer_size = 256

-- `switch (released)`
release : Keyboard → ℕ → Keyboard
release k key =
    if key == Key.lshift
    then record k { shift_pressed = false }
    else if key == Key.rshift
    then record k { shift_pressed = false }
    else if key == Key.lctrl
    then record k { ctrl_pressed = false }
    else if key == Key.lalt
    then record k { alt_pressed = false }
    else k

-- The three ranges of letters.
abbrev pub is_letter_key : ℕ → Bool
is_letter_key s =
    (leb 0x10 s && leb s 0x19) || ((leb 0x1E s && leb s 0x26) || (leb 0x2C s && leb s 0x32))

-- `use_shift`
uses_shift : Keyboard → ℕ → Bool
uses_shift k s = if is_letter_key s then xor k.shift_pressed k.capslock_on else k.shift_pressed

pub unshifted : ℕ → ℕ
unshifted s = get_or scancode_to_ascii s 0

shifted : ℕ → ℕ
shifted s = get_or scancode_to_ascii_shift s 0

-- The lookup behind the `switch (scancode)`; the size of the table is tested first.
ascii : Keyboard → ℕ → ℕ
ascii k s =
    if ltb s (length scancode_to_ascii)
    then if uses_shift k s then shifted s else unshifted s
    else 0

press : Keyboard → ℕ → Keyboard × ℕ
press k s =
    if s == Key.lshift
    then (record k { shift_pressed = true }, 0)
    else if s == Key.rshift
    then (record k { shift_pressed = true }, 0)
    else if s == Key.lctrl
    then (record k { ctrl_pressed = true }, 0)
    else if s == Key.lalt
    then (record k { alt_pressed = true }, 0)
    else if s == Key.capslock
    then (record k { capslock_on = not k.capslock_on }, 0)
    else if s == Key.backspace
    then (k, 8)
    else if s == Key.escape
    then (k, 27)
    else (k, ascii k s)

-- Bit 7 of the scancode marks a release.
pub translate_scancode : Keyboard → ℕ → Keyboard × ℕ
translate_scancode k s = if bit_clear s 7 then press k s else (release k (clear_bit s 7), 0)

-- A character that the buffer has no room for is dropped.
enqueue : Keyboard → ℕ → Keyboard
enqueue k c =
    let next_head = (k.kb_head + 1) % kb_buffer_size in
    if next_head == k.kb_tail
    then k
    else record k { kb_buffer = set k.kb_buffer k.kb_head c; kb_head = next_head }

pub irq_handler : Keyboard → ℕ → Keyboard
irq_handler k scancode =
    let (k', c) = translate_scancode k scancode in if c == 0 then k' else enqueue k' c

-- The character, 0 if there is none, and the new state.
pub getchar : Keyboard → Keyboard × ℕ
getchar k =
    if k.kb_tail == k.kb_head
    then (k, 0)
    else (record k { kb_tail = (k.kb_tail + 1) % kb_buffer_size }, get_or k.kb_buffer k.kb_tail 0)

pub shift_pressed : Keyboard → Bool
shift_pressed k = k.shift_pressed

pub ctrl_pressed : Keyboard → Bool
ctrl_pressed k = k.ctrl_pressed

pub alt_pressed : Keyboard → Bool
alt_pressed k = k.alt_pressed

-- The state that `keyboard_init` leaves, once it has set up the controller.
pub reset : Keyboard → Keyboard
reset k = record k {
  shift_pressed = false;
  ctrl_pressed = false;
  alt_pressed = false;
  capslock_on = false;
  kb_head = 0;
  kb_tail = 0;
}
