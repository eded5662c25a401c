-- ===== src/Pmm/Count.antt =====
-- `pmm_get_free_count` against the number of free pages, and how the other operations change it.
use magnos.Base.{
  if◌then◌else◌, ℕ, zero, suc, ◌+◌, ◌*◌, ◌/◌, ◌%◌, ◌<◌, ◌≤◌, ◌≡◌, ◌≢◌, refl, ap, true, false, not,
  ◌&&◌, ◌==◌, inl, inr, arith, Bool-cases, bit_clear, count_from, count_from-add, count_from-shift,
  count_from-remove, count_from-congr,
}
use magnos.Pmm.{
  Bitmap, bitmap_bytes, total_pages, page_size, byte_at, is_free, alloc, free, count_loop,
  get_free_count,
}
use magnos.Pmm.Pages.{IsValid}
use magnos.Pmm.Alloc.{alloc-Allocated, free_lem}

byte_count :
    (bitmap : Bitmap) (i acc : ℕ)
    → count_from (is_free bitmap) 8 (i * 8) acc ≡ count_from (bit_clear (byte_at bitmap i)) 8 0 acc
unfolding is_free
byte_count bitmap i acc =
    let e : i * 8 ≡ i * 8 + 0 = omega arith in
    rw e (count_from-shift (is_free bitmap) (bit_clear (byte_at bitmap i)) (i * 8) 8 0 acc here)
  where
    here : (j : ℕ) → 0 ≤ j → j < 0 + 8 → is_free bitmap (i * 8 + j) ≡ bit_clear (byte_at bitmap i) j
    here j le lt =
        let ed : (i * 8 + j) / 8 ≡ i = omega arith in
        let em : (i * 8 + j) % 8 ≡ j = omega arith in rw (ed, em)

count_loop-count_from :
    (n i : ℕ) (bitmap : Bitmap) (acc : ℕ)
    → count_loop n i bitmap acc ≡ count_from (is_free bitmap) (n * 8) (i * 8) acc
unfolding count_loop
count_loop-count_from zero i bitmap acc = unfold count_from in refl
count_loop-count_from (suc n) i bitmap acc =
    rw
      (
        count_from-add (is_free bitmap) 8 (n * 8) (i * 8) ((i + 1) * 8) (suc n * 8) acc
            (omega arith) (omega arith),
        byte_count bitmap i acc,
      )
      (count_loop-count_from n (i + 1) bitmap _)

-- `pmm_get_free_count` is the number of pages below 16 MB that are free.
pub get_free_count-count_from :
    (bitmap : Bitmap) → get_free_count bitmap ≡ count_from (is_free bitmap) total_pages 0 0
unfolding get_free_count
get_free_count-count_from bitmap = count_loop-count_from bitmap_bytes 0 bitmap 0

-- A successful `pmm_alloc` lowers the count of free pages by one.
pub get_free_count-alloc :
    {bitmap : Bitmap}
    → IsValid bitmap
    → (alloc bitmap).1 ≢ 0
    → get_free_count bitmap ≡ get_free_count (alloc bitmap).0 + 1
get_free_count-alloc {bitmap} v ne =
    let a = alloc-Allocated v ne in
    rw (get_free_count-count_from bitmap, get_free_count-count_from (alloc bitmap).0)
      (count_from-remove (is_free bitmap) (is_free (alloc bitmap).0) a.page total_pages 0
        (omega arith) a.page_in a.was_free (λ j le lt. a.others j lt))

-- `pmm_free` of a page in use raises the count by one; of a free page it leaves the count alone.
pub get_free_count-free :
    {bitmap : Bitmap} (addr : ℕ)
    → IsValid bitmap
    → 0 < addr / page_size
    → addr / page_size < total_pages
    → get_free_count (free bitmap addr)
      ≡ (if is_free bitmap (addr / page_size) then 0 else 1) + get_free_count bitmap
get_free_count-free {bitmap} addr v pos small =
    rw (get_free_count-count_from bitmap, get_free_count-count_from (free bitmap addr))
      (elim (Bool-cases (is_free bitmap (addr / page_size))) [
        | inl e ↦
            let kept : count_from (is_free (free bitmap addr)) total_pages 0 0
                ≡ count_from (is_free bitmap) total_pages 0 0 =
              count_from-congr (is_free bitmap) (is_free (free bitmap addr)) total_pages 0 0
                (keep e) in
            rw e (omega arith)
        | inr e ↦
            let raised : count_from (is_free (free bitmap addr)) total_pages 0 0
                ≡ count_from (is_free bitmap) total_pages 0 0 + 1 =
              count_from-remove (is_free (free bitmap addr)) (is_free bitmap) (addr / page_size)
                total_pages 0 (omega arith) small (freed e) (drop e) in
            rw e (omega arith)
      ])
  where
    same :
        (j : ℕ)
        → (j == addr / page_size) ≡ true
        → is_free bitmap j ≡ is_free bitmap (addr / page_size)
    same j q = let e : j ≡ addr / page_size = ground arith in ap (is_free bitmap) e

    keep :
        is_free bitmap (addr / page_size) ≡ true
        → (j : ℕ) → 0 ≤ j
        → j < total_pages
        → is_free (free bitmap addr) j ≡ is_free bitmap j
    keep e j le lt = elim (Bool-cases (j == addr / page_size)) [
      | inl q ↦ ground (arith, same j q, (free_lem addr j v lt).1)
      | inr q ↦ ground (arith, (free_lem addr j v lt).1)
    ]

    freed :
        is_free bitmap (addr / page_size) ≡ false
        → is_free (free bitmap addr) (addr / page_size) ≡ true
    freed e = ground (arith, (free_lem addr (addr / page_size) v small).1)

    drop :
        is_free bitmap (addr / page_size) ≡ false
        → (j : ℕ) → 0 ≤ j
        → j < total_pages
        → is_free bitmap j ≡ (is_free (free bitmap addr) j && not (j == addr / page_size))
    drop e j le lt = elim (Bool-cases (j == addr / page_size)) [
      | inl q ↦ ground (arith, same j q, (free_lem addr j v lt).1)
      | inr q ↦ ground (arith, (free_lem addr j v lt).1)
    ]
