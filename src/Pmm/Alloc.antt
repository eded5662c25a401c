-- ===== src/Pmm/Alloc.antt =====
-- `pmm_alloc` takes the first free page; `pmm_free` gives a page back.
use magnos.Base.{
  Option-cases, ◌↔◌, subst, ap, ◌∙◌, ◌≢◌, ltb, ◌||◌, ℕ, zero, suc, ◌+◌, ◌*◌, ◌/◌, ◌%◌, ◌<◌, ◌≤◌,
  ◌≡◌, refl, true, false, not, ◌&&◌, Option, none, some, inl, inr, ◌==◌, Bool-cases, arith,
  find_from, find_from-IsFirst, find_from-add, find_from-shift, IsFirst, full_byte, IsFirst-unique,
  bit_clear, set, set_bit,
}
use magnos.Pmm.{
  Bitmap, bitmap_bytes, total_pages, page_size, byte_at, bitmap_set, is_free, first_clear,
  alloc_loop, alloc, free,
}
use magnos.Pmm.Pages.{
  IsValid, bitmap_set-IsValid, bitmap_clear-IsValid, is_free-bitmap_set, is_free-bitmap_clear,
}

-- Taking the page that a search over all pages found, or none.
abbrev pub take_page : Bitmap → Option ℕ → Bitmap × ℕ
take_page bitmap none = (bitmap, 0)
take_page bitmap (some p) = (bitmap_set bitmap p, p * page_size)

-- The pages of byte `i`, searched one by one.
byte_search :
    (bitmap : Bitmap) (i : ℕ)
    → find_from (is_free bitmap) 8 (i * 8)
      ≡ elim (first_clear (byte_at bitmap i)) [ none ↦ none | some k ↦ some (i * 8 + k) ]
unfolding first_clear is_free
byte_search bitmap i =
    let e : i * 8 ≡ i * 8 + 0 = omega arith in
    rw e (find_from-shift (is_free bitmap) (bit_clear (byte_at bitmap i)) (i * 8) 8 0 here)
  where
    here : (j : ℕ) → 0 ≤ j → j < 0 + 8 → is_free bitmap (i * 8 + j) ≡ bit_clear (byte_at bitmap i) j
    here j le lt =
        let ed : (i * 8 + j) / 8 ≡ i = omega arith in
        let em : (i * 8 + j) % 8 ≡ j = omega arith in rw (ed, em)

-- A byte 0xFF, which the loop skips, has no free page.
first_clear-full : first_clear 255 ≡ none
unfolding first_clear
first_clear-full =
    IsFirst-unique (bit_clear 255) 0 8 _ none (find_from-IsFirst (bit_clear 255) 8 0 8 refl)
      (λ j le lt. full_byte j lt)

-- What is written to byte `i` is `BITMAP_SET` of the page found in it.
take_page-byte :
    (i : ℕ) (bitmap : Bitmap) (k : ℕ)
    → first_clear (byte_at bitmap i) ≡ some k
    → take_page bitmap (some (i * 8 + k))
      ≡ (set bitmap i (set_bit (byte_at bitmap i) k), (i * 8 + k) * page_size)
unfolding bitmap_set first_clear
take_page-byte i bitmap k e =
    let found : IsFirst (bit_clear (byte_at bitmap i)) 0 8 (some k) =
      subst (λ r. IsFirst (bit_clear (byte_at bitmap i)) 0 8 r) e
        (find_from-IsFirst (bit_clear (byte_at bitmap i)) 8 0 8 refl) in
    let ed : (i * 8 + k) / 8 ≡ i = omega arith in
    let em : (i * 8 + k) % 8 ≡ k = omega arith in rw (ed, em)

alloc_loop-take_page :
    (n i : ℕ) (bitmap : Bitmap)
    → alloc_loop n i bitmap ≡ take_page bitmap (find_from (is_free bitmap) (n * 8) (i * 8))
unfolding alloc_loop
alloc_loop-take_page zero i bitmap = unfold find_from in refl
alloc_loop-take_page (suc n) i bitmap =
    rw
      (
        find_from-add (is_free bitmap) 8 (n * 8) (i * 8) ((i + 1) * 8) (suc n * 8) (omega arith)
            (omega arith),
        byte_search bitmap i,
      )
      (elim (Bool-cases (byte_at bitmap i == 0xFF)) [
        | inl e ↦
            let full : byte_at bitmap i ≡ 255 = ground arith in
            ground
              (arith, alloc_loop-take_page n (i + 1) bitmap, first_clear-full, ap first_clear full)
        | inr e ↦ elim (Option-cases (first_clear (byte_at bitmap i))) [
          | inl e' ↦ ground (arith, alloc_loop-take_page n (i + 1) bitmap)
          | inr (k, e') ↦ ground (arith, take_page-byte i bitmap k e')
        ]
      ])

-- `pmm_alloc` marks the lowest free page as used and returns its address; without a free page it
-- returns 0 and changes nothing. Here `r` is that page, or none.
pub alloc-take_page :
    (bitmap : Bitmap) (r : Option ℕ)
    → IsFirst (is_free bitmap) 0 total_pages r
    → alloc bitmap ≡ take_page bitmap r
unfolding alloc
alloc-take_page bitmap r h =
    alloc_loop-take_page bitmap_bytes 0 bitmap
    ∙ ap (take_page bitmap) (
        IsFirst-unique (is_free bitmap) 0 total_pages _ r
          (find_from-IsFirst (is_free bitmap) total_pages 0 total_pages refl) h)

-- The first free page, for a proof that splits on it.
pub page-IsFirst : (bitmap : Bitmap) → (r : Option ℕ) × IsFirst (is_free bitmap) 0 total_pages r
page-IsFirst bitmap = (
  find_from (is_free bitmap) total_pages 0,
  find_from-IsFirst (is_free bitmap) total_pages 0 total_pages refl,
)

-- What a caller gets from `pmm_alloc`: a page-aligned address inside the memory, of a page that was free.
pub record Allocated (bitmap : Bitmap) (bitmap' : Bitmap) (addr : ℕ) : Type 0 where
  pub page : ℕ
  pub addr_eq : addr ≡ page * page_size
  pub page_in : page < total_pages
  pub was_free : is_free bitmap page ≡ true
  pub valid : IsValid bitmap'
  pub others : (q : ℕ) → q < total_pages → is_free bitmap' q ≡ (is_free bitmap q && not (q == page))

alloc-Allocated_of :
    {bitmap : Bitmap} (r : Option ℕ)
    → IsValid bitmap
    → IsFirst (is_free bitmap) 0 total_pages r
    → (take_page bitmap r).1 ≢ 0
    → Allocated bitmap (take_page bitmap r).0 (take_page bitmap r).1
alloc-Allocated_of none v h ne = absurd (ne refl)
alloc-Allocated_of (some p) v h ne = record {
  page = p;
  addr_eq = refl;
  page_in = h.1;
  was_free = h.2;
  valid = bitmap_set-IsValid v p h.1;
  others = λ q hq. is_free-bitmap_set v p q h.1 hq;
}

-- A nonzero result of `pmm_alloc` is the page-aligned address of a page below 16 MB that was free;
-- that page becomes used, every other page keeps its state, and the bitmap stays well formed.
pub alloc-Allocated :
    {bitmap : Bitmap}
    → IsValid bitmap
    → (alloc bitmap).1 ≢ 0
    → Allocated bitmap (alloc bitmap).0 (alloc bitmap).1
alloc-Allocated {bitmap} v =
    let (r, h) = page-IsFirst bitmap in rw (alloc-take_page bitmap r h) (alloc-Allocated_of r v h)

-- With page 0 in use, `pmm_alloc` returns 0 exactly when no page is free.
pub alloc-zero_iff :
    (bitmap : Bitmap)
    → is_free bitmap 0 ≡ false
    → ((alloc bitmap).1 ≡ 0) ↔ ((q : ℕ) → q < total_pages → is_free bitmap q ≡ false)
alloc-zero_iff bitmap used = go (page-IsFirst bitmap).0 (page-IsFirst bitmap).1
  where
    go :
        (r : Option ℕ)
        → IsFirst (is_free bitmap) 0 total_pages r
        → ((alloc bitmap).1 ≡ 0) ↔ ((q : ℕ) → q < total_pages → is_free bitmap q ≡ false)
    go none h = rw (alloc-take_page bitmap none h) (λ e. λ q hq. h q (omega arith) hq, λ all. refl)
    go (some p) h =
        rw (alloc-take_page bitmap (some p) h)
          (λ e. absurd (nonzero e), λ all. absurd (taken (all p h.1)))
      where
        nonzero : p * page_size ≡ 0 → ⊥
        nonzero e = let ep : p ≡ 0 = omega arith in ground (arith, h.2, ap (is_free bitmap) ep)

        taken : is_free bitmap p ≡ false → ⊥
        taken e = ground (arith, h.2)

-- `pmm_free` makes the page of the address free and keeps every other page as it is; an address of
-- page 0 or beyond 16 MB changes nothing. The bitmap stays well formed.
pub free_lem :
    {bitmap : Bitmap} (addr q : ℕ)
    → IsValid bitmap
    → q < total_pages
    → IsValid (free bitmap addr)
      × (is_free (free bitmap addr) q ≡ (
          is_free bitmap q
          || ltb 0 (addr / page_size)
            && ltb (addr / page_size) total_pages
            && q == addr / page_size))
unfolding free
free_lem {bitmap} addr q v hq =
    elim (Bool-cases (ltb 0 (addr / page_size) && ltb (addr / page_size) total_pages)) [
      | inl e ↦
          let hp : addr / page_size < total_pages = ground arith in
          rw e (
            bitmap_clear-IsValid v (addr / page_size) hp,
            ground (arith, is_free-bitmap_clear v (addr / page_size) q hp hq),
          )
      | inr e ↦ rw e (v, ground arith)
    ]

-- Freeing what `pmm_alloc` returned gives back the set of free pages from before the call.
pub free-alloc :
    {bitmap : Bitmap} (q : ℕ)
    → IsValid bitmap
    → is_free bitmap 0 ≡ false
    → (alloc bitmap).1 ≢ 0
    → q < total_pages
    → is_free (free (alloc bitmap).0 (alloc bitmap).1) q ≡ is_free bitmap q
free-alloc {bitmap} q v used ne hq =
    let a = alloc-Allocated v ne in
    let ep : (alloc bitmap).1 / page_size ≡ a.page = omega (arith, a.addr_eq) in
    elim (Bool-cases (q == a.page)) [
      | inl e ↦
          let eq : q ≡ a.page = ground arith in
          ground (
            arith,
            (free_lem (alloc bitmap).1 q a.valid hq).1,
            a.others q hq,
            a.was_free,
            ap (is_free bitmap) eq,
          )
      | inr e ↦ ground (arith, (free_lem (alloc bitmap).1 q a.valid hq).1, a.others q hq)
    ]
