-- ===== src/Vga/Erase.antt =====
-- The echo of a backspace, "\b \b", as the shells print it.
use magnos.Base.{
  ℕ, ◌+◌, ◌-◌, ◌<◌, ◌≡◌, ◌≢◌, ◌∙◌, ap, true, List, [], ◌∷◌, arith, ltb, ◌==◌, if◌then◌else◌, get_or,
}
use magnos.Vga.{Vga, blank, entry, backspace, putchar, puts, update_cursor}
use magnos.Vga.Scroll.{cells, cell}
use magnos.Vga.Putchar.{IsValid, pos, putchar-Printed, putchar-IsValid}

-- A backspace moves one cell back and changes no cell.
record SteppedBack (v w : Vga) : Type 0 where
  valid : IsValid w
  color : w.color ≡ v.color
  moved : pos w ≡ pos v - 1
  same : w.buffer ≡ v.buffer

backspace-SteppedBack : (v : Vga) → IsValid v → SteppedBack v (putchar v 8)
unfolding putchar backspace update_cursor
backspace-SteppedBack v h = record {
  valid = (putchar-IsValid v 8 h).0;
  color = ground arith;
  moved = ground (arith, h.row_in, h.column_in);
  same = ground arith;
}

-- After a character and the echo of a backspace the position is where it was, the character's cell is
-- blank in the current colour, and no other cell has changed. The character is none of newline,
-- carriage return, backspace and tab, and does not stand in the last cell of the screen.
pub puts_erase :
    (v : Vga) (c : ℕ)
    → IsValid v
    → c ≢ 10
    → c ≢ 13
    → c ≢ 8
    → c ≢ 9
    → pos v + 1 < cells
    → let w = puts v (c ∷ 8 ∷ b' ' ∷ 8 ∷ []) in
      IsValid w
      × (pos w ≡ pos v)
      × ((j : ℕ) → j < cells → cell w j ≡ (if j == pos v then blank v else cell v j))
unfolding puts
puts_erase v c h n10 n13 n8 n9 room =
    let p = (putchar-Printed v c h n10 n13 n8 n9).0 in
    let v1 = putchar v c in
    let b = backspace-SteppedBack v1 p.valid in
    let v2 = putchar v1 8 in
    let q =
      (putchar-Printed v2 b' ' b.valid (omega arith) (omega arith) (omega arith) (omega arith)).0 in
    let v3 = putchar v2 b' ' in
    let d = backspace-SteppedBack v3 q.valid in
    let fits : ltb (pos v + 1) cells ≡ true = ground arith in
    let at1 : pos v1 ≡ pos v + 1 = ground (arith, p.moved) in
    let at2 : pos v2 ≡ pos v = omega (arith, b.moved, at1) in
    let fits' : ltb (pos v2 + 1) cells ≡ true = ground (arith, at2) in
    let at3 : pos v3 ≡ pos v + 1 = ground (arith, q.moved, at2) in
    (
      d.valid,
      omega (arith, d.moved, at3),
      λ j hj.
          ap (λ (l : List ℕ). get_or l j 0) d.same
          ∙ q.at j hj
          ∙ ground (
            arith,
            at2,
            fits',
            ap (entry b' ') (b.color ∙ p.color),
            ap (λ (l : List ℕ). get_or l j 0) b.same,
            p.at j hj,
          ),
    )
