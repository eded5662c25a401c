-- ===== src/Ports.antt =====
-- kernel/io.h: input and output by ports. The devices are hardware, a parameter: a device answers a read of a port by a
-- number that depends on all reads and writes before it. These are the history, the newest first.
use magnos.Base.{ℕ, zero, suc, ◌%◌, ◌^◌, List, [], ◌∷◌}

pub data Io : Type 0 where
  output : ℕ → ℕ → Io
  input : ℕ → ℕ → Io

abbrev pub History : Type 0
History = List Io

abbrev pub Device : Type 0
Device = History → ℕ → ℕ

abbrev pub outb : ℕ → ℕ → History → History
outb port val h = output port (val % 2 ^ 8) ∷ h

abbrev pub io_wait : History → History
io_wait h = outb 0x80 0 h

-- `rep outsw`: the words of the buffer.
unfoldable pub outw_buffer : ℕ → List ℕ → History → History
outw_buffer port [] h = h
outw_buffer port (w ∷ ws) h = outw_buffer port ws (output port (w % 2 ^ 16) ∷ h)

-- The byte, or the word, that a device gives at a port.
abbrev pub byte_in : Device → History → ℕ → ℕ
byte_in device h port = device h port % 2 ^ 8

abbrev pub word_in : Device → History → ℕ → ℕ
word_in device h port = device h port % 2 ^ 16

-- The history behind a read; the byte that is read is `byte_in`.
abbrev pub inb : Device → ℕ → History → History
inb device port h = input port (byte_in device h port) ∷ h

abbrev pub inw : Device → ℕ → History → History
inw device port h = input port (word_in device h port) ∷ h

abbrev pub with_word : ℕ → History × List ℕ → History × List ℕ
with_word w (h, ws) = (h, w ∷ ws)

-- `rep insw`: so many words.
unfoldable pub inw_buffer : Device → ℕ → ℕ → History → History × List ℕ
inw_buffer device port zero h = (h, [])
inw_buffer device port (suc count) h =
    with_word (word_in device h port) (inw_buffer device port count (inw device port h))
