-- ===== src/Paging/Identity.antt =====
-- The rounds of `paging_init` of kernel/paging.c: each adds a table that maps 4 MB to themselves.
use Prim.Native.Nat.{bit_or}
use magnos.Base.{
  ℕ, zero, suc, ◌+◌, ◌-◌, ◌*◌, ◌/◌, ◌%◌, ◌≤◌, ◌<◌, ◌≡◌, ◌≢◌, refl, sym, ◌∙◌, ap, ap₂, subst, true,
  false, not, ◌&&◌, ◌==◌, Bool-cases, inl, inr, arith, counted_inv, bit_or_low,
}
use magnos.Memory.{Memory, store, store_self, store_ne}
use magnos.Pmm
use magnos.Pmm.{Bitmap, page_size, is_free, total_pages}
use magnos.Pmm.Pages
use magnos.Pmm.Alloc.{Allocated}
use magnos.Paging.{
  Paging, slot, page_frame, is_present, zero_page, fill_table, identity_map_entries,
  present_writable,
}
use magnos.Paging.Tables.{dir_entry, frame_of, present_of, IsValid, SameDirectory-IsValid}
use magnos.Paging.NewTable.{
  zero_page_lem, IsFresh, with_table, with_table-IsValid, entry_value, dir_here, dir_other,
}

-- So many calls of `pmm_alloc` in a row give a page.
unfoldable pub Grants : ℕ → Bitmap → Type 0
Grants zero bitmap = Unit {0}
Grants (suc n) bitmap = ((Pmm.alloc bitmap).1 ≢ 0) × Grants n (Pmm.alloc bitmap).0

-- The entry number `j` of the table number `i`.
abbrev pub identity_entry : ℕ → ℕ → ℕ
identity_entry i j = (i * 1024 + j) * page_size + present_writable

identity_entry_lem :
    (i j : ℕ) → bit_or ((i * 1024 + j) * page_size) present_writable ≡ identity_entry i j
identity_entry_lem i j = bit_or_low 12 (i * 1024 + j) present_writable (omega arith)

fill_table_lem :
    (m : Memory) (pt n : ℕ)
    → ((j : ℕ) → j < 1024 → fill_table m pt n (slot pt j) ≡ identity_entry n j)
      × ((x : ℕ) → ((j : ℕ) → j < 1024 → x ≢ slot pt j) → fill_table m pt n x ≡ m x)
unfolding fill_table
fill_table_lem m pt n =
    let word : ℕ → ℕ = λ j. bit_or ((n * 1024 + j) * page_size) present_writable in
    counted_inv
      (λ k m'.
        ((j : ℕ) → j < k → m' (slot pt j) ≡ identity_entry n j)
        × ((x : ℕ) → ((j : ℕ) → j < 1024 → x ≢ slot pt j) → m' x ≡ m x))
      (λ j m'. store m' (slot pt j) (word j)) 1024 0 1024 m refl
      (λ k m' le lt h. (
        λ j hj. elim (Bool-cases (j == k)) [
          | inl e ↦
              let index : j ≡ k = ground arith in
              rw index (store_self m' (slot pt k) (word k) ∙ identity_entry_lem n k)
          | inr e ↦
              store_ne m' (slot pt k) (word k) (slot pt j) (ground arith) ∙ h.0 j (ground arith)
        ],
        λ x out. store_ne m' (slot pt k) (word k) x (out k lt) ∙ h.1 x out,
      ))
      (λ j hj. absurd (omega arith), λ x out. refl)

-- The first `k` tables are there and map their part of the memory to itself, no other is, and the pages of the directory
-- and of the tables are in use.
pub record Mapped (k : ℕ) (p : Paging) : Type 0 where
  pub bitmap : Pmm.Pages.IsValid p.bitmap
  pub room : Grants (identity_map_entries - k) p.bitmap
  pub valid : IsValid p
  pub directory_low : p.directory / page_size < total_pages
  pub directory_used : is_free p.bitmap (p.directory / page_size) ≡ false
  pub tables_low :
      (i : ℕ) → i < 1024 → present_of p i ≡ true → frame_of p i / page_size < total_pages
  pub tables_used :
      (i : ℕ)
      → i < 1024
      → present_of p i ≡ true
      → is_free p.bitmap (frame_of p i / page_size) ≡ false
  pub present : (i : ℕ) → i < k → present_of p i ≡ true
  pub absent : (i : ℕ) → i < 1024 → k ≤ i → present_of p i ≡ false
  pub entries : (i j : ℕ) → i < k → j < 1024 → p.memory (slot (frame_of p i) j) ≡ identity_entry i j

-- A page that is handed out.
module _ {bitmap bitmap' : Bitmap} {addr : ℕ} (a : Allocated bitmap bitmap' addr)
    (bound : addr ≢ 0) where
  other_page : (q : ℕ) → is_free bitmap (q / page_size) ≡ false → q ≢ addr
  other_page q used same =
      let index : q / page_size ≡ a.page = omega (arith, a.addr_eq, same) in
      let free : is_free bitmap (q / page_size) ≡ true = ap (is_free bitmap) index ∙ a.was_free in
      ground (arith, free, used)

  still_used :
      (q : ℕ)
      → q / page_size < total_pages
      → is_free bitmap (q / page_size) ≡ false
      → is_free bitmap' (q / page_size) ≡ false
  still_used q lt used =
      a.others (q / page_size) lt ∙ ap (λ b. b && not (q / page_size == a.page)) used

  pub now_used : is_free bitmap' (addr / page_size) ≡ false
  now_used =
      let index : addr / page_size ≡ a.page = omega (arith, a.addr_eq) in
      let here : (a.page == a.page) ≡ true = ground arith in
      ap (is_free bitmap') index ∙ a.others a.page a.page_in ∙ ground (arith, here, a.was_free)

-- A round of the loop.
module _ (k : ℕ) (p : Paging) (h : Mapped k p) (lt : k < identity_map_entries) (pt : ℕ)
    (bitmap' : Bitmap) (a : Allocated p.bitmap bitmap' pt) (nonzero : pt ≢ 0) where
  fresh : IsFresh p pt
  fresh = record {
    page = omega (arith, a.addr_eq);
    nonzero = omega arith;
    small = omega (arith, a.addr_eq, a.page_in);
    no_directory = λ same. other_page a nonzero p.directory h.directory_used (sym same);
    no_table = λ i hi there. other_page a nonzero (frame_of p i) (h.tables_used i hi there);
  }

  no_entry : present_of p k ≡ false
  no_entry = h.absent k (omega arith) (omega arith)

  -- The table is filled before its directory entry is written.
  abbrev pub filled : Memory
  filled = fill_table (zero_page p.memory pt) pt k

  abbrev pub next : Paging
  next = record p {
    memory = store filled (slot p.directory k) (bit_or pt present_writable);
    bitmap = bitmap';
  }

  filled_out : (x : ℕ) → ((j : ℕ) → j < 1024 → x ≢ slot pt j) → filled x ≡ p.memory x
  filled_out x out =
      (fill_table_lem (zero_page p.memory pt) pt k).1 x out ∙ (zero_page_lem p.memory pt).1 x out

  next_here : dir_entry next k ≡ pt + present_writable
  next_here =
      store_self filled (slot p.directory k) (bit_or pt present_writable)
      ∙ entry_value p bitmap' pt k h.valid fresh (omega arith) no_entry

  next_other : (i : ℕ) → i < 1024 → i ≢ k → dir_entry next i ≡ dir_entry p i
  next_other i hi ne =
      store_ne filled (slot p.directory k) (bit_or pt present_writable) (slot p.directory i)
        (omega arith)
      ∙ filled_out (slot p.directory i)
          (λ j hj. omega (arith, fresh.page, h.valid.aligned, fresh.no_directory))

  same_entry : (i : ℕ) → i < 1024 → dir_entry next i ≡ dir_entry (with_table p bitmap' pt k) i
  same_entry i hi = elim (Bool-cases (i == k)) [
    | inl e ↦
        let index : i ≡ k = ground arith in
        rw index (next_here ∙ sym (dir_here p bitmap' pt k h.valid fresh (omega arith) no_entry))
    | inr e ↦
        next_other i hi (ground arith)
        ∙ sym (dir_other p bitmap' pt k h.valid fresh (omega arith) no_entry i hi (ground arith))
  ]

  next-IsValid : IsValid next
  next-IsValid =
      let v : IsValid (with_table p bitmap' pt k) =
        with_table-IsValid p bitmap' pt k h.valid fresh (omega arith) no_entry in
      SameDirectory-IsValid (with_table p bitmap' pt k) next v (
        refl,
        λ i hi. (
          ap page_frame (same_entry i hi),
          ap is_present (same_entry i hi),
          rw (same_entry i hi) (v.words i hi),
        ),
      )

  frame_here : frame_of next k ≡ pt
  frame_here = ap page_frame next_here ∙ omega (arith, fresh.page, fresh.small)

  present_next : present_of next k ≡ true
  present_next =
      let odd : (pt + present_writable) % 2 ≡ 1 = omega (arith, fresh.page) in
      ap is_present next_here ∙ ap (λ b. not (b == 0)) odd

  -- A property of the present tables, of the new one and the others.
  each_table :
      (Q : ℕ → Type 0) (i : ℕ)
      → i < 1024
      → Q pt
      → (present_of p i ≡ true → Q (frame_of p i))
      → present_of next i ≡ true
      → Q (frame_of next i)
  each_table Q i hi here others there = elim (Bool-cases (i == k)) [
    | inl e ↦
        let index : i ≡ k = ground arith in
        subst Q (sym (ap (frame_of next) index ∙ frame_here)) here
    | inr e ↦
        let same = next_other i hi (ground arith) in
        subst Q (sym (ap page_frame same)) (others (sym (ap is_present same) ∙ there))
  ]

  next_entries :
      (i j : ℕ) → i < k + 1 → j < 1024 → next.memory (slot (frame_of next i) j) ≡ identity_entry i j
  next_entries i j hi hj = elim (Bool-cases (i == k)) [
    | inl e ↦
        let index : i ≡ k = ground arith in
        ap₂ (λ f n. next.memory (slot f j)) (ap (frame_of next) index ∙ frame_here) index
        ∙ store_ne filled (slot p.directory k) (bit_or pt present_writable) (slot pt j)
            (omega (arith, fresh.page, h.valid.aligned, fresh.no_directory))
        ∙ (fill_table_lem (zero_page p.memory pt) pt k).0 j hj
        ∙ ap (λ n. identity_entry n j) (sym index)
    | inr e ↦
        let there = h.present i (ground arith) in
        let apart = h.valid.apart i (omega arith) there in
        let unlike = fresh.no_table i (omega arith) there in
        ap (λ d. next.memory (slot (page_frame d) j)) (next_other i (omega arith) (ground arith))
        ∙ store_ne filled (slot p.directory k) (bit_or pt present_writable) (slot (frame_of p i) j)
            (omega (arith, h.valid.aligned, apart))
        ∙ filled_out (slot (frame_of p i) j) (λ n hn. omega (arith, fresh.page, unlike))
        ∙ h.entries i j (ground arith) hj
  ]

  pub next-Mapped : Grants (identity_map_entries - (k + 1)) bitmap' → Mapped (k + 1) next
  next-Mapped room = record {
    bitmap = a.valid;
    room = room;
    valid = next-IsValid;
    directory_low = h.directory_low;
    directory_used = still_used a nonzero p.directory h.directory_low h.directory_used;
    tables_low = λ i hi.
        each_table (λ f. f / page_size < total_pages) i hi (omega (arith, a.addr_eq, a.page_in))
          (h.tables_low i hi);
    tables_used = λ i hi.
        each_table (λ f. is_free bitmap' (f / page_size) ≡ false) i hi (now_used a nonzero)
          (λ there.
            still_used a nonzero (frame_of p i) (h.tables_low i hi there)
              (h.tables_used i hi there));
    present = λ i hi. elim (Bool-cases (i == k)) [
      | inl e ↦ let index : i ≡ k = ground arith in ap (present_of next) index ∙ present_next
      | inr e ↦
          ap is_present (next_other i (omega arith) (ground arith)) ∙ h.present i (ground arith)
    ];
    absent = λ i hi le. ap is_present (next_other i hi (omega arith)) ∙ h.absent i hi (omega arith);
    entries = next_entries;
  }
