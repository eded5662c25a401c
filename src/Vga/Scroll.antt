-- ===== src/Vga/Scroll.antt =====
-- What the loops of `vga_clear` and `vga_scroll` leave in the video memory.
use magnos.Base.{
  ℕ, ◌+◌, ◌-◌, ◌*◌, ◌<◌, ◌≤◌, ◌≡◌, refl, ◌∙◌, List, arith, ltb, if◌then◌else◌, length, get_or, set,
  length-set, get_or-set, counted_inv,
}
use magnos.Vga.{
  Vga, vga_width, vga_height, blank, clear_cells, move_lines_up, clear_last_line, scroll,
}

abbrev pub cells : ℕ
cells = vga_height * vga_width

-- The first `k` cells have been overwritten by the cells one line below.
record Shifted (old : List ℕ) (k : ℕ) (b : List ℕ) : Type 0 where
  size : length b ≡ length old
  at : (j : ℕ) → get_or b j 0 ≡ (if ltb j k then get_or old (j + vga_width) 0 else get_or old j 0)

Shifted-step :
    (old b : List ℕ) (k src dst : ℕ)
    → dst ≡ k
    → src ≡ k + vga_width
    → k < length old
    → Shifted old k b
    → Shifted old (k + 1) (set b dst (get_or b src 0))
Shifted-step old b k src dst ed es h s =
    rw (ed, es)
      record {
        size = length-set b k (get_or b (k + vga_width) 0) ∙ s.size;
        at = λ j. ground (
          arith,
          get_or-set b k j (get_or b (k + vga_width) 0) 0 (omega (arith, s.size)),
          s.at j,
          s.at (k + vga_width),
        );
      }

move_lines_up-Shifted : (old : List ℕ) → length old ≡ cells → Shifted old 1920 (move_lines_up old)
unfolding move_lines_up
move_lines_up-Shifted old size =
    counted_inv (λ y b. Shifted old (y * vga_width) b) _ 24 0 24 old refl
      (λ y b le lt s.
        let e : (y + 1) * vga_width ≡ y * vga_width + 80 = omega arith in
        rw e (
          counted_inv (λ x b'. Shifted old (y * vga_width + x) b') _ 80 0 80 b refl
            (λ x b' le' lt' s'.
              let ek : y * vga_width + (x + 1) ≡ y * vga_width + x + 1 = omega arith in
              rw ek (
                Shifted-step old b' (y * vga_width + x) _ _ refl (omega arith) (omega (arith, size))
                  s'))
            (let ez : y * vga_width + 0 ≡ y * vga_width = omega arith in rw ez s)))
      (record { size = refl; at = λ j. ground arith })

-- The cells from `lo` to `hi` hold a space; the others are those of `old`.
record Blanked (old : List ℕ) (space lo hi : ℕ) (b : List ℕ) : Type 0 where
  size : length b ≡ length old
  at :
      (j : ℕ)
      → get_or b j 0
        ≡ (if ltb j lo then get_or old j 0 else if ltb j hi then space else get_or old j 0)

Blanked-step :
    (old b : List ℕ) (space lo k i : ℕ)
    → i ≡ k
    → lo ≤ k
    → k < length old
    → Blanked old space lo k b
    → Blanked old space lo (k + 1) (set b i space)
Blanked-step old b space lo k i e le lt s = rw e record {
  size = length-set b k space ∙ s.size;
  at = λ j. ground (arith, get_or-set b k j space 0 (omega (arith, s.size)), s.at j);
}

clear_last_line-Blanked :
    (space : ℕ) (old : List ℕ)
    → length old ≡ cells
    → Blanked old space 1920 2000 (clear_last_line space old)
unfolding clear_last_line
clear_last_line-Blanked space old size =
    counted_inv (λ x b. Blanked old space 1920 (1920 + x) b) _ 80 0 80 old refl
      (λ x b le lt s.
        let ek : 1920 + (x + 1) ≡ 1920 + x + 1 = omega arith in
        rw ek
          (Blanked-step old b space 1920 (1920 + x) _ refl (omega arith) (omega (arith, size)) s))
      (record { size = refl; at = λ j. ground arith })

clear_cells-Blanked :
    (space : ℕ) (old : List ℕ)
    → length old ≡ cells
    → Blanked old space 0 cells (clear_cells space old)
unfolding clear_cells
clear_cells-Blanked space old size =
    counted_inv (λ y b. Blanked old space 0 (y * vga_width) b) _ 25 0 25 old refl
      (λ y b le lt s.
        let e : (y + 1) * vga_width ≡ y * vga_width + 80 = omega arith in
        rw e (
          counted_inv (λ x b'. Blanked old space 0 (y * vga_width + x) b') _ 80 0 80 b refl
            (λ x b' le' lt' s'.
              let ek : y * vga_width + (x + 1) ≡ y * vga_width + x + 1 = omega arith in
              rw ek (
                Blanked-step old b' space 0 (y * vga_width + x) _ refl (omega arith)
                  (omega (arith, size)) s'))
            (let ez : y * vga_width + 0 ≡ y * vga_width = omega arith in rw ez s)))
      (record { size = refl; at = λ j. ground arith })

-- The screen as a function of the cell's index.
abbrev pub cell : Vga → ℕ → ℕ
cell v j = get_or v.buffer j 0

-- Scrolling moves each line up by one, blanks the last line and goes to it; column and colour stay.
pub scroll_lem :
    (v : Vga)
    → length v.buffer ≡ cells
    → (length (scroll v).buffer ≡ cells)
      × ((scroll v).row ≡ vga_height - 1)
      × ((scroll v).column ≡ v.column)
      × ((scroll v).color ≡ v.color)
      × ((j : ℕ)
          → j < cells
          → cell (scroll v) j ≡ (if ltb j 1920 then cell v (j + vga_width) else blank v))
unfolding scroll
scroll_lem v size =
    let up = move_lines_up-Shifted v.buffer size in
    let last = clear_last_line-Blanked (blank v) (move_lines_up v.buffer) (up.size ∙ size) in
    (last.size ∙ up.size ∙ size, refl, refl, refl, λ j hj. ground (arith, last.at j, up.at j))

pub clear_cells_lem :
    (space : ℕ) (b : List ℕ)
    → length b ≡ cells
    → (length (clear_cells space b) ≡ cells)
      × ((j : ℕ) → j < cells → get_or (clear_cells space b) j 0 ≡ space)
clear_cells_lem space b size =
    let c = clear_cells-Blanked space b size in (c.size ∙ size, λ j hj. ground (arith, c.at j))
