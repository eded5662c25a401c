-- ===== src/Pmm/Tests.antt =====
-- The page allocator at concrete bitmaps.
use magnos.Base.{
  ℕ, ◌+◌, ◌*◌, ◌/◌, ◌<◌, ◌≡◌, refl, true, false, not, ◌&&◌, ◌||◌, ltb, leb, ◌==◌, ◌∷◌, some, arith,
  replicate, Each, holds_below, holds_below_at, bit_clear, set_bit, clear_bit, find_from,
  count_from, IsFirst,
}
use magnos.Pmm.{
  Bitmap, total_pages, page_size, is_free, alloc, alloc_loop, first_clear, free, init, clear_low,
  clear_high, kend_page, bitmap_clear, get_free_count, count_loop,
}
use magnos.Pmm.Pages.{IsValid}
use magnos.Pmm.Alloc.{take_page, alloc-take_page, free_lem}
use magnos.Pmm.Init.{init-is_free}

-- Pages 0 to 2 are used, and all from page 8 on.
abbrev small : Bitmap
small = 7 ∷ replicate 511 255

abbrev booted : Bitmap
booted = init 0x127000

booted_count : get_free_count booted ≡ 201 + 3328
unfolding get_free_count count_loop count_from init clear_low clear_high kend_page bitmap_clear
    clear_bit bit_clear
booted_count = refl

booted-alloc : (alloc booted).1 ≡ 0x127000
unfolding alloc alloc_loop first_clear find_from set_bit init clear_low clear_high kend_page
    bitmap_clear clear_bit bit_clear
booted-alloc = refl

bytes_below : (n : ℕ) → Each (λ b. b < 256) (replicate n 255)
bytes_below ℕ.zero = tt
bytes_below (ℕ.suc n) = (omega arith, bytes_below n)

small-IsValid : IsValid small
small-IsValid = record { size = refl; bytes = (omega arith, bytes_below 511) }

small_table : holds_below 3 (λ j. not (is_free small j)) ≡ true
unfolding is_free bit_clear holds_below
small_table = refl

small_three : is_free small 3 ≡ true
unfolding is_free bit_clear
small_three = refl

small_used : (j : ℕ) → j < 3 → is_free small j ≡ false
small_used j h = ground (arith, holds_below_at 3 (λ j. not (is_free small j)) j small_table h)

small-IsFirst : IsFirst (is_free small) 0 total_pages (some 3)
small-IsFirst = (omega arith, omega arith, small_three, λ j le lt. small_used j lt)

alloc-take_page_example : alloc small ≡ take_page small (some 3)
alloc-take_page_example = alloc-take_page small (some 3) small-IsFirst

free_lem_example :
    IsValid (free small 0x3000)
    × (is_free (free small 0x3000) 3 ≡ (
        is_free small 3
        || ltb 0 (0x3000 / page_size)
          && ltb (0x3000 / page_size) total_pages
          && 3 == 0x3000 / page_size))
free_lem_example = free_lem 0x3000 3 small-IsValid (omega arith)

init-is_free_example :
    IsValid (init 0x127000)
    × ((q : ℕ)
        → q < total_pages
        → is_free (init 0x127000) q ≡ (
            leb 0x127000 (q * page_size)
              && ltb q (0x1F0000 / page_size)
              && not (leb (0xA0000 / page_size) q && leb q (0xFFFFF / page_size))
            || leb (0x300000 / page_size) q))
init-is_free_example = init-is_free 0x127000 (omega arith)
