-- ===== src/Vga.antt =====
-- kernel/vga.c: the text console. `buffer` is the video memory at 0xB8000, 25 rows of 80 cells, and
-- `cursor_low` and `cursor_high` are the two cursor registers of the CRT controller, which
-- `vga_update_cursor` writes through ports 0x3D4 and 0x3D5. A string is the list of its codes.
pub mod Scroll
pub mod Putchar
pub mod Erase
pub mod Hex
mod Tests
use Prim.Native.Nat.{bit_or}
use magnos.Base.{
  ℕ, zero, suc, ◌+◌, ◌-◌, ◌*◌, ◌/◌, ◌%◌, ◌^◌, List, [], ◌∷◌, ltb, leb, ◌==◌, if◌then◌else◌, get_or,
  set, counted,
}

abbrev pub vga_width : ℕ
vga_width = 80

abbrev pub vga_height : ℕ
vga_height = 25

pub record Vga : Type 0 where
  pub buffer : List ℕ
  pub row : ℕ
  pub column : ℕ
  pub color : ℕ
  pub cursor_low : ℕ
  pub cursor_high : ℕ

pub entry_color : ℕ → ℕ → ℕ
entry_color fg bg = bit_or fg (bg * 2 ^ 4) % 2 ^ 8

pub entry : ℕ → ℕ → ℕ
entry c color = bit_or c (color * 2 ^ 8)

-- A space in the current colour.
abbrev pub blank : Vga → ℕ
blank v = entry b' ' v.color

update_cursor : Vga → Vga
update_cursor v =
    let pos : ℕ = (v.row * vga_width + v.column) % 2 ^ 16 in
    record v { cursor_low = pos % 2 ^ 8; cursor_high = (pos / 2 ^ 8) % 2 ^ 8 }

-- The loops over the cells of `vga_clear` and `vga_scroll`.
pub clear_cells : ℕ → List ℕ → List ℕ
clear_cells space buffer =
    counted vga_height 0 (λ y b. counted vga_width 0 (λ x b'. set b' (y * vga_width + x) space) b)
      buffer

pub clear : Vga → Vga
clear v = update_cursor (record v { buffer = clear_cells (blank v) v.buffer; row = 0; column = 0 })

move_lines_up : List ℕ → List ℕ
move_lines_up buffer =
    counted (vga_height - 1) 0
      (λ y b.
        counted vga_width 0
          (λ x b'. set b' (y * vga_width + x) (get_or b' ((y + 1) * vga_width + x) 0)) b)
      buffer

clear_last_line : ℕ → List ℕ → List ℕ
clear_last_line space buffer =
    counted vga_width 0 (λ x b. set b ((vga_height - 1) * vga_width + x) space) buffer

pub scroll : Vga → Vga
scroll v = record v {
  buffer = clear_last_line (blank v) (move_lines_up v.buffer);
  row = vga_height - 1;
}

-- `if (++vga_row >= VGA_HEIGHT) vga_scroll();`
next_row : Vga → Vga
next_row v =
    let v' : Vga = record v { row = v.row + 1 } in
    if leb vga_height (v.row + 1) then scroll v' else v'

newline : Vga → Vga
newline v = next_row (record v { column = 0 })

backspace : Vga → Vga
backspace v =
    if ltb 0 v.column
    then record v { column = v.column - 1 }
    else if ltb 0 v.row
    then record v { row = v.row - 1; column = vga_width - 1 }
    else v

-- `(vga_column + 4) & ~3`
tab : Vga → Vga
tab v =
    let column : ℕ = (v.column + 4) / 4 * 4 in
    if leb vga_width column
    then next_row (record v { column = 0 })
    else record v { column = column }

put_cell : Vga → ℕ → Vga
put_cell v c =
    let buffer = set v.buffer (v.row * vga_width + v.column) (entry c v.color) in
    if leb vga_width (v.column + 1)
    then next_row (record v { buffer = buffer; column = 0 })
    else record v { buffer = buffer; column = v.column + 1 }

pub putchar : Vga → ℕ → Vga
putchar v c = update_cursor (
    if c == 10
    then newline v
    else if c == 13
    then record v { column = 0 }
    else if c == 8
    then backspace v
    else if c == 9
    then tab v
    else put_cell v c)

pub puts : Vga → List ℕ → Vga
puts v [] = v
puts v (c ∷ str) = puts (putchar v c) str

pub set_color : Vga → ℕ → ℕ → Vga
set_color v fg bg = record v { color = entry_color fg bg }

-- `digits[d]`
pub hex_digit : ℕ → ℕ
hex_digit d =
    get_or
      (b'0' ∷ b'1' ∷ b'2' ∷ b'3' ∷ b'4' ∷ b'5' ∷ b'6' ∷ b'7' ∷ b'8' ∷ b'9' ∷ b'A' ∷ b'B' ∷ b'C'
        ∷ b'D' ∷ b'E' ∷ b'F' ∷ [])
      d 0

-- `for (int i = 28; i >= 0; i -= 4) vga_putchar(digits[(n >> i) & 0xF]);` with `k` digits left.
put_digits : ℕ → ℕ → Vga → Vga
put_digits n zero v = v
put_digits n (suc k) v = put_digits n k (putchar v (hex_digit (n / 2 ^ (4 * k) % 16)))

pub puthex : Vga → ℕ → Vga
puthex v n = put_digits n 8 (puts v (b'0' ∷ b'x' ∷ []))

-- `vga_init`, over what the video memory held.
pub init : Vga → Vga
init v = clear (record v { row = 0; column = 0; color = entry_color 7 0 })
