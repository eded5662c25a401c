-- ===== src/Pmm.antt =====
-- kernel/pmm.c: the physical page allocator over a bitmap of 4096 bits, one `uint8_t` for eight
-- pages, a set bit for a used page. The static array `bitmap` is the state that each operation
-- takes and returns. `&_kernel_end`, which the linker script provides, is an argument of `init`.
pub mod Pages
pub mod Alloc
pub mod Count
pub mod Init
mod Tests
use magnos.Base.{
  ℕ, zero, suc, ◌+◌, ◌-◌, ◌*◌, ◌/◌, ◌%◌, ◌^◌, Bool, true, false, ◌&&◌, List, Option, none, some,
  ltb, leb, ◌==◌, if◌then◌else◌, length, get_or, set, replicate, bit_clear, set_bit, clear_bit,
  find_from, count_from,
}

abbrev pub page_size : ℕ
page_size = 4096

abbrev pub total_memory : ℕ
total_memory = 16 * 1024 * 1024

abbrev pub total_pages : ℕ
total_pages = total_memory / page_size

-- `sizeof(bitmap)`
abbrev pub bitmap_bytes : ℕ
bitmap_bytes = total_pages / 8

abbrev pub Bitmap : Type 0
Bitmap = List ℕ

abbrev pub byte_at : Bitmap → ℕ → ℕ
byte_at bitmap i = get_or bitmap i 0

-- BITMAP_SET, BITMAP_CLEAR, and the negation of BITMAP_TEST
pub bitmap_set : Bitmap → ℕ → Bitmap
bitmap_set bitmap p = set bitmap (p / 8) (set_bit (byte_at bitmap (p / 8)) (p % 8))

pub bitmap_clear : Bitmap → ℕ → Bitmap
bitmap_clear bitmap p = set bitmap (p / 8) (clear_bit (byte_at bitmap (p / 8)) (p % 8))

pub is_free : Bitmap → ℕ → Bool
is_free bitmap p = bit_clear (byte_at bitmap (p / 8)) (p % 8)

-- The two loops of `pmm_init`; `n` is the number of rounds left.
clear_low : ℕ → ℕ → Bitmap → Bitmap
clear_low zero p bitmap = bitmap
clear_low (suc n) p bitmap = clear_low n (p + 1) (
    if leb (0xA0000 / page_size) p && leb p (0xFFFFF / page_size)
    then bitmap
    else bitmap_clear bitmap p)

clear_high : ℕ → ℕ → Bitmap → Bitmap
clear_high zero p bitmap = bitmap
clear_high (suc n) p bitmap = clear_high n (p + 1) (bitmap_clear bitmap p)

-- `uint32_t` arithmetic: the sum wraps.
pub kend_page : ℕ → ℕ
kend_page kernel_end = ((kernel_end + page_size - 1) % 2 ^ 32) / page_size

pub init : ℕ → Bitmap
init kernel_end =
    let kend = kend_page kernel_end in
    clear_high (total_pages - 0x300000 / page_size) (0x300000 / page_size)
      (clear_low (0x1F0000 / page_size - kend) kend (replicate bitmap_bytes 0xFF))

-- The inner loop of `pmm_alloc`: the first clear bit of a byte.
unfoldable pub first_clear : ℕ → Option ℕ
first_clear byte = find_from (bit_clear byte) 8 0

-- The outer loop, from byte `i` with `n` rounds left. A byte 0xFF is skipped.
unfoldable pub alloc_loop : ℕ → ℕ → Bitmap → Bitmap × ℕ
alloc_loop zero i bitmap = (bitmap, 0)
alloc_loop (suc n) i bitmap =
    let rest = alloc_loop n (i + 1) bitmap in
    if byte_at bitmap i == 0xFF then rest else elim (first_clear (byte_at bitmap i)) [
      | none ↦ rest
      | some bit ↦ (set bitmap i (set_bit (byte_at bitmap i) bit), (i * 8 + bit) * page_size)
    ]

-- The new bitmap, and the address of the page, 0 if there is none.
unfoldable pub alloc : Bitmap → Bitmap × ℕ
alloc bitmap = alloc_loop bitmap_bytes 0 bitmap

pub free : Bitmap → ℕ → Bitmap
free bitmap addr =
    let page = addr / page_size in
    if ltb 0 page && ltb page total_pages then bitmap_clear bitmap page else bitmap

-- The outer loop of `pmm_get_free_count`; `count_from` is the inner one.
count_loop : ℕ → ℕ → Bitmap → ℕ → ℕ
count_loop zero i bitmap count = count
count_loop (suc n) i bitmap count =
    count_loop n (i + 1) bitmap (count_from (bit_clear (byte_at bitmap i)) 8 0 count)

pub get_free_count : Bitmap → ℕ
get_free_count bitmap = count_loop bitmap_bytes 0 bitmap 0

pub get_total_count : ℕ
get_total_count = total_pages
