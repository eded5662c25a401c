-- ===== src/Pmm/Init.antt =====
-- `pmm_init`: which pages are free after boot.
use magnos.Base.{
  ℕ, zero, suc, ◌+◌, ◌-◌, ◌*◌, ◌/◌, ◌%◌, ◌^◌, ◌<◌, ◌≤◌, ◌≡◌, refl, false, not, ◌&&◌, ◌||◌, ltb, leb,
  inl, inr, arith, Bool-cases, get_or, replicate, length-replicate, Each, full_byte,
}
use magnos.Pmm.{
  Bitmap, bitmap_bytes, total_pages, page_size, is_free, clear_low, clear_high, kend_page, init,
}
use magnos.Pmm.Pages.{IsValid, bitmap_clear-IsValid, is_free-bitmap_clear}

abbrev full : ℕ
full = 0xFF

Each-replicate : (n : ℕ) → Each (λ b. b < 256) (replicate n full)
Each-replicate zero = tt
Each-replicate (suc n) = (omega arith, Each-replicate n)

get_or-replicate : (n i : ℕ) → i < n → get_or (replicate n full) i 0 ≡ full
get_or-replicate zero i h = absurd (omega arith)
get_or-replicate (suc n) zero h = refl
get_or-replicate (suc n) (suc i) h = get_or-replicate n i (omega arith)

-- The two loops clear the pages of their range, the first one less the BIOS area.
clear_low_lem :
    (n p : ℕ) {bitmap : Bitmap}
    → IsValid bitmap
    → (0 < n → p + n ≤ total_pages)
    → IsValid (clear_low n p bitmap)
      × ((q : ℕ)
          → q < total_pages
          → is_free (clear_low n p bitmap) q
            ≡ (is_free bitmap q || (leb p q && ltb q (p + n)) && not (leb 0xA0 q && leb q 0xFF)))
unfolding clear_low
clear_low_lem zero p v h = (v, λ q hq. ground arith)
clear_low_lem (suc n) p {bitmap} v h =
    let h' : p + 1 + n ≤ total_pages = omega (arith, h (omega arith)) in
    elim (Bool-cases (leb 0xA0 p && leb p 0xFF)) [
      | inl e ↦
          let (v', eq) = clear_low_lem n (p + 1) v (λ _. h') in
          rw e (v', λ q hq. ground (arith, eq q hq))
      | inr e ↦
          let hp : p < total_pages = omega arith in
          let (v', eq) = clear_low_lem n (p + 1) (bitmap_clear-IsValid v p hp) (λ _. h') in
          rw e (v', λ q hq. ground (arith, eq q hq, is_free-bitmap_clear v p q hp hq))
    ]

clear_high_lem :
    (n p : ℕ) {bitmap : Bitmap}
    → IsValid bitmap
    → p + n ≤ total_pages
    → IsValid (clear_high n p bitmap)
      × ((q : ℕ)
          → q < total_pages
          → is_free (clear_high n p bitmap) q ≡ (is_free bitmap q || leb p q && ltb q (p + n)))
unfolding clear_high
clear_high_lem zero p v h = (v, λ q hq. ground arith)
clear_high_lem (suc n) p {bitmap} v h =
    let hp : p < total_pages = omega arith in
    let (v', eq) = clear_high_lem n (p + 1) (bitmap_clear-IsValid v p hp) (omega arith) in
    (v', λ q hq. ground (arith, eq q hq, is_free-bitmap_clear v p q hp hq))

start-IsValid : IsValid (replicate bitmap_bytes full)
start-IsValid = record {
  size = length-replicate bitmap_bytes full;
  bytes = Each-replicate bitmap_bytes;
}

start-used : (q : ℕ) → q < total_pages → is_free (replicate bitmap_bytes full) q ≡ false
unfolding is_free
start-used q h =
    rw (get_or-replicate bitmap_bytes (q / 8) (omega arith)) (full_byte (q % 8) (omega arith))

-- After `pmm_init` the bitmap is well formed, and a page is free exactly when it lies from the end of
-- the kernel (rounded up to a page) to 0x1F0000 and outside the BIOS area 0xA0000 to 0xFFFFF, or from
-- 0x300000 to 16 MB. The kernel ends below 4 GB less a page, so that rounding up does not wrap.
pub init-is_free :
    (kernel_end : ℕ)
    → kernel_end + page_size ≤ 2 ^ 32
    → IsValid (init kernel_end)
      × ((q : ℕ)
          → q < total_pages
          → is_free (init kernel_end) q ≡ (
              leb kernel_end (q * page_size)
                && ltb q (0x1F0000 / page_size)
                && not (leb (0xA0000 / page_size) q && leb q (0xFFFFF / page_size))
              || leb (0x300000 / page_size) q))
unfolding init kend_page
init-is_free kernel_end h =
    let kend : ℕ = ((kernel_end + page_size - 1) % 2 ^ 32) / page_size in
    let (v, low) =
      clear_low_lem (0x1F0000 / page_size - kend) kend start-IsValid (λ p. omega arith) in
    let (v', high) =
      clear_high_lem (total_pages - 0x300000 / page_size) (0x300000 / page_size) v (omega arith) in
    (v', λ q hq. ground (arith, high q hq, low q hq, start-used q hq))
