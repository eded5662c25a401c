-- ===== src/Vga/Putchar.antt =====
-- What `vga_putchar` does to the screen and to the cursor.
use magnos.Base.{
  ℕ, ◌+◌, ◌*◌, ◌/◌, ◌^◌, ◌<◌, ◌≡◌, ◌≢◌, refl, ◌∙◌, true, false, List, [], ◌∷◌, inl, inr, arith, ltb,
  leb, ◌==◌, if◌then◌else◌, Bool-cases, length, set, length-set, get_or-set,
}
use magnos.Vga.{
  Vga, vga_width, vga_height, blank, entry, next_row, newline, backspace, tab, put_cell, putchar,
  puts, update_cursor, clear,
}
use magnos.Vga.Scroll.{cells, cell, scroll_lem, clear_cells_lem}

-- The video memory has 2000 cells, and the position lies inside the screen.
pub record IsValid (v : Vga) : Type 0 where
  pub size : length v.buffer ≡ cells
  pub row_in : v.row < vga_height
  pub column_in : v.column < vga_width

-- The index of the cell at the position.
abbrev pub pos : Vga → ℕ
pos v = v.row * vga_width + v.column

-- The hardware cursor stands where the next character goes.
abbrev pub IsSynced : Vga → Type 0
IsSynced v = v.cursor_low + 2 ^ 8 * v.cursor_high ≡ pos v

update_cursor_lem : (v : Vga) → IsValid v → IsValid (update_cursor v) × IsSynced (update_cursor v)
unfolding update_cursor
update_cursor_lem v h = (
  record { size = h.size; row_in = h.row_in; column_in = h.column_in },
  omega (arith, h.row_in, h.column_in),
)

-- The next line: one row down, or on the last row a scroll.
record NextRow (v w : Vga) : Type 0 where
  valid : IsValid w
  row : w.row ≡ (if ltb v.row 24 then v.row + 1 else 24)
  column : w.column ≡ v.column
  color : w.color ≡ v.color
  at :
      (j : ℕ)
      → j < cells
      → cell w j ≡ (
          if ltb v.row 24 then cell v j else if ltb j 1920 then cell v (j + vga_width) else blank v)

next_row-NextRow : (v : Vga) → IsValid v → NextRow v (next_row v)
unfolding next_row
next_row-NextRow v h = elim (Bool-cases (leb vga_height (v.row + 1))) [
  | inl e ↦
      let v' : Vga = record v { row = v.row + 1 } in
      let (size, row, column, color, at) = scroll_lem v' h.size in
      let last : ltb v.row 24 ≡ false = ground arith in
      rw e record {
        valid = record {
          size = size;
          row_in = omega (arith, row);
          column_in = omega (arith, column, h.column_in);
        };
        row = rw last row;
        column = column;
        color = color;
        at = λ j hj. rw last (at j hj);
      }
  | inr e ↦
      let more : ltb v.row 24 ≡ true = ground arith in
      rw e record {
        valid = record { size = h.size; row_in = ground arith; column_in = h.column_in };
        row = rw more;
        column = refl;
        color = refl;
        at = λ j hj. rw more;
      }
]

newline-IsValid : (v : Vga) → IsValid v → IsValid (newline v)
unfolding newline
newline-IsValid v h =
    (next_row-NextRow (record v { column = 0 })
      (record { size = h.size; row_in = h.row_in; column_in = omega arith })).valid

backspace-IsValid : (v : Vga) → IsValid v → IsValid (backspace v)
unfolding backspace
backspace-IsValid v h = ground arith

tab-IsValid : (v : Vga) → IsValid v → IsValid (tab v)
unfolding tab
tab-IsValid v h = elim (Bool-cases (leb vga_width ((v.column + 4) / 4 * 4))) [
  | inl e ↦ rw e (
      (next_row-NextRow (record v { column = 0 })
        (record { size = h.size; row_in = h.row_in; column_in = omega arith })).valid)
  | inr e ↦ rw e record { size = h.size; row_in = h.row_in; column_in = ground arith }
]

-- A character in the cell at the position, and the position moved on.
pub record Printed (v w : Vga) (c : ℕ) : Type 0 where
  pub valid : IsValid w
  pub color : w.color ≡ v.color
  pub moved : pos w ≡ (if ltb (pos v + 1) cells then pos v + 1 else 1920)
  pub at :
      (j : ℕ)
      → j < cells
      → cell w j ≡ (
          if ltb (pos v + 1) cells
          then if j == pos v then entry c v.color else cell v j
          else if ltb j 1920
          then if j + vga_width == pos v then entry c v.color else cell v (j + vga_width)
          else blank v)

put_cell-Printed : (v : Vga) (c : ℕ) → IsValid v → Printed v (put_cell v c) c
unfolding put_cell
put_cell-Printed v c h =
    let b : List ℕ = set v.buffer (pos v) (entry c v.color) in
    let size : length b ≡ cells = length-set v.buffer (pos v) (entry c v.color) ∙ h.size in
    let at = λ (j : ℕ).
      get_or-set v.buffer (pos v) j (entry c v.color) 0
        (omega (arith, h.size, h.row_in, h.column_in)) in
    elim (Bool-cases (leb vga_width (v.column + 1))) [
      | inl e ↦
          let n =
            next_row-NextRow (record v { buffer = b; column = 0 })
              (record { size = size; row_in = h.row_in; column_in = omega arith }) in
          rw e record {
            valid = n.valid;
            color = n.color;
            moved = ground (arith, n.row, n.column, h.row_in, h.column_in);
            at = λ j hj. ground (arith, n.at j hj, at j, at (j + vga_width), h.row_in, h.column_in);
          }
      | inr e ↦ rw e record {
        valid = record { size = size; row_in = h.row_in; column_in = ground arith };
        color = refl;
        moved = ground (arith, h.row_in, h.column_in);
        at = λ j hj. ground (arith, at j, h.row_in, h.column_in);
      }
    ]

-- Whatever character is written, the position stays inside the screen, and afterwards the hardware
-- cursor stands at it.
pub putchar-IsValid : (v : Vga) (c : ℕ) → IsValid v → IsValid (putchar v c) × IsSynced (putchar v c)
unfolding putchar
putchar-IsValid v c h = update_cursor_lem _ (elim (Bool-cases (c == 10)) [
  | inl e ↦ rw e (newline-IsValid v h)
  | inr e ↦ rw e (elim (Bool-cases (c == 13)) [
    | inl e' ↦ rw e' record { size = h.size; row_in = h.row_in; column_in = omega arith }
    | inr e' ↦ rw e' (elim (Bool-cases (c == 8)) [
      | inl e'' ↦ rw e'' (backspace-IsValid v h)
      | inr e'' ↦ rw e'' (elim (Bool-cases (c == 9)) [
        | inl t ↦ rw t (tab-IsValid v h)
        | inr t ↦ rw t (put_cell-Printed v c h).valid
      ])
    ])
  ])
])

-- A character other than newline, carriage return, backspace and tab goes into the cell at the
-- position, in the current colour, and the position moves on by one cell; from the last cell of the
-- screen the lines move up by one, the last line becomes blank and the position is its start. No other
-- cell changes, and the hardware cursor follows.
pub putchar-Printed :
    (v : Vga) (c : ℕ)
    → IsValid v
    → c ≢ 10
    → c ≢ 13
    → c ≢ 8
    → c ≢ 9
    → Printed v (putchar v c) c × IsSynced (putchar v c)
unfolding putchar
putchar-Printed v c h n10 n13 n8 n9 =
    let a : (c == 10) ≡ false = ground arith in
    let b : (c == 13) ≡ false = ground arith in
    let d : (c == 8) ≡ false = ground arith in
    let e : (c == 9) ≡ false = ground arith in
    let p = put_cell-Printed v c h in
    rw (a, b, d, e)
      (
        unfold update_cursor in
            record {
              valid = record {
                size = p.valid.size;
                row_in = p.valid.row_in;
                column_in = p.valid.column_in;
              };
              color = p.color;
              moved = p.moved;
              at = p.at;
            },
        (update_cursor_lem _ p.valid).1,
      )

-- A string keeps the position inside the screen.
pub puts-IsValid : (str : List ℕ) (v : Vga) → IsValid v → IsValid (puts v str)
unfolding puts
puts-IsValid [] v h = h
puts-IsValid (c ∷ str) v h = puts-IsValid str (putchar v c) (putchar-IsValid v c h).0

-- `vga_clear` blanks every cell in the current colour and moves position and cursor to the start.
pub clear_lem :
    (v : Vga)
    → length v.buffer ≡ cells
    → IsValid (clear v)
      × IsSynced (clear v)
      × (pos (clear v) ≡ 0)
      × ((j : ℕ) → j < cells → cell (clear v) j ≡ blank v)
unfolding clear update_cursor
clear_lem v size =
    let (s, at) = clear_cells_lem (blank v) v.buffer size in
    (record { size = s; row_in = omega arith; column_in = omega arith }, refl, refl, at)
