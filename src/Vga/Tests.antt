-- ===== src/Vga/Tests.antt =====
-- The console at concrete screens.
use magnos.Base.{ℕ, ◌≡◌, List, [], ◌∷◌, arith, replicate, length-replicate, length}
use magnos.Vga.{Vga, putchar, puts, puthex}
use magnos.Vga.Putchar.{IsValid, IsSynced, Printed, putchar-Printed, puts-IsValid}
use magnos.Vga.Hex.{read_hex, puthex-read_hex}

-- The position is in the last cell of row 3.
abbrev screen : Vga
screen = record {
  buffer = replicate 2000 0;
  row = 3;
  column = 79;
  color = 7;
  cursor_low = 0;
  cursor_high = 0;
}

screen-IsValid : IsValid screen
screen-IsValid = record {
  size = length-replicate {A = ℕ} 2000 0;
  row_in = omega arith;
  column_in = omega arith;
}

putchar-Printed_example : Printed screen (putchar screen b'x') b'x' × IsSynced (putchar screen b'x')
putchar-Printed_example =
    putchar-Printed screen b'x' screen-IsValid (omega arith) (omega arith) (omega arith)
      (omega arith)

puts-IsValid_example : IsValid (puts screen (b'o' ∷ b'k' ∷ 10 ∷ []))
puts-IsValid_example = puts-IsValid (b'o' ∷ b'k' ∷ 10 ∷ []) screen screen-IsValid

puthex-read_hex_example :
    (ds : List ℕ) × (puthex screen 0xCAFE ≡ puts screen (b'0' ∷ b'x' ∷ ds))
    × (length ds ≡ 8)
    × (read_hex 0 ds ≡ 0xCAFE)
puthex-read_hex_example = puthex-read_hex screen 0xCAFE (omega arith)
