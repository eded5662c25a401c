-- ===== src/Keyboard/Key.antt =====
-- The special keys of kernel/keyboard.h that `translate_scancode` treats by name.
use magnos.Base.{ℕ}

abbrev pub escape : ℕ
escape = 0x01

abbrev pub backspace : ℕ
backspace = 0x0E

abbrev pub lctrl : ℕ
lctrl = 0x1D

abbrev pub lshift : ℕ
lshift = 0x2A

abbrev pub rshift : ℕ
rshift = 0x36

abbrev pub lalt : ℕ
lalt = 0x38

abbrev pub capslock : ℕ
capslock = 0x3A
