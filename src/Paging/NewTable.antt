-- ===== src/Paging/NewTable.antt =====
-- `paging_map` of kernel/paging.c where the page table is new.
use Prim.Native.Nat.{bit_or}
use magnos.Base.{
  ℕ, ◌+◌, ◌*◌, ◌/◌, ◌%◌, ◌^◌, ◌<◌, ◌≡◌, ◌≢◌, refl, sym, ◌∙◌, ap, ap₂, subst, true, false, ◌==◌,
  Bool-cases, inl, inr, arith, counted_inv, bit_or_low,
}
use magnos.Memory.{Memory, store, store_self, store_ne}
use magnos.Pmm
use magnos.Pmm.{Bitmap}
use magnos.Paging.{
  Paging, slot, page_frame, pd_index, pt_index, is_present, zero_page, present_writable, get_phys,
  new_table,
}
use magnos.Paging.Tables.{
  dir_entry, frame_of, present_of, table_entry, IsValid, phys_of, get_phys_lem,
}
use magnos.Paging.Map.{phys_of-absent}

-- `zero_page`: the words of the page are 0, the others are as before.
pub zero_page_lem :
    (m : Memory) (page : ℕ)
    → ((i : ℕ) → i < 1024 → zero_page m page (slot page i) ≡ 0)
      × ((x : ℕ) → ((i : ℕ) → i < 1024 → x ≢ slot page i) → zero_page m page x ≡ m x)
unfolding zero_page
zero_page_lem m page =
    counted_inv
      (λ k m'.
        ((i : ℕ) → i < k → m' (slot page i) ≡ 0)
        × ((x : ℕ) → ((i : ℕ) → i < 1024 → x ≢ slot page i) → m' x ≡ m x))
      (λ i m'. store m' (slot page i) 0) 1024 0 1024 m refl
      (λ k m' le lt h. (
        λ i hi. elim (Bool-cases (i == k)) [
          | inl e ↦ let index : i ≡ k = ground arith in rw index (store_self m' (slot page k) 0)
          | inr e ↦ store_ne m' (slot page k) 0 (slot page i) (ground arith) ∙ h.0 i (ground arith)
        ],
        λ x out. store_ne m' (slot page k) 0 x (out k lt) ∙ h.1 x out,
      ))
      (λ i hi. absurd (omega arith), λ x out. refl)

-- A page that is neither the directory nor a table.
pub record IsFresh (p : Paging) (pt : ℕ) : Type 0 where
  pub page : pt % 2 ^ 12 ≡ 0
  pub nonzero : 0 < pt
  pub small : pt < 2 ^ 32
  pub no_directory : pt ≢ p.directory
  pub no_table : (i : ℕ) → i < 1024 → present_of p i ≡ true → frame_of p i ≢ pt

-- The word of the table at `frame` for an address.
abbrev table_word : Paging → ℕ → ℕ → ℕ
table_word p frame x = p.memory (slot frame (pt_index x))

-- The state with the new table in the directory entry `i`.
abbrev pub with_table : Paging → Bitmap → ℕ → ℕ → Paging
with_table p bitmap pt i = record p {
  memory = store (zero_page p.memory pt) (slot p.directory i) (bit_or pt present_writable);
  bitmap = bitmap;
}

module _ (p : Paging) (bitmap : Bitmap) (pt i : ℕ) (v : IsValid p) (f : IsFresh p pt)
    (hi : i < 1024) (e : present_of p i ≡ false) where
  pub entry_value : bit_or pt present_writable ≡ pt + present_writable
  entry_value =
      let whole : pt / 2 ^ 12 * 2 ^ 12 ≡ pt = omega (arith, f.page) in
      subst (λ t. bit_or t present_writable ≡ t + present_writable) whole
        (bit_or_low 12 (pt / 2 ^ 12) present_writable (omega arith))

  pub dir_here : dir_entry (with_table p bitmap pt i) i ≡ pt + present_writable
  dir_here =
      store_self (zero_page p.memory pt) (slot p.directory i) (bit_or pt present_writable)
      ∙ entry_value

  pub dir_other :
      (j : ℕ) → j < 1024 → j ≢ i → dir_entry (with_table p bitmap pt i) j ≡ dir_entry p j
  dir_other j hj ne =
      store_ne (zero_page p.memory pt) (slot p.directory i) (bit_or pt present_writable)
        (slot p.directory j) (omega arith)
      ∙ (zero_page_lem p.memory pt).1 (slot p.directory j)
          (λ k hk. omega (arith, f.page, v.aligned, f.no_directory))

  frame_here : frame_of (with_table p bitmap pt i) i ≡ pt
  frame_here = rw dir_here (omega (arith, f.page, f.small))

  pub present_here : present_of (with_table p bitmap pt i) i ≡ true
  present_here =
      let odd : (pt + present_writable) % 2 ≡ 1 = omega (arith, f.page) in rw dir_here (rw odd refl)

  -- The new table is a page of its own.
  pub with_table-IsValid : IsValid (with_table p bitmap pt i)
  with_table-IsValid = record {
    aligned = v.aligned;
    words = λ j hj. elim (Bool-cases (j == i)) [
      | inl same ↦
          let index : j ≡ i = ground arith in
          rw index (rw dir_here (omega (arith, f.page, f.small)))
      | inr other ↦ rw (dir_other j hj (ground arith)) (v.words j hj)
    ];
    apart = λ j hj there. elim (Bool-cases (j == i)) [
      | inl same ↦ let index : j ≡ i = ground arith in rw index (rw frame_here f.no_directory)
      | inr other ↦
          let d = dir_other j hj (ground arith) in
          rw d (v.apart j hj (sym (ap is_present d) ∙ there))
    ];
    distinct = λ j k hj hk tj tk ne. elim (Bool-cases (j == i)) [
      | inl same ↦
          let index : j ≡ i = ground arith in
          let d = dir_other k hk (ground arith) in
          let other = f.no_table k hk (sym (ap is_present d) ∙ tk) in
          rw index (rw frame_here (rw d (λ q. other (sym q))))
      | inr different ↦
          let d = dir_other j hj (ground arith) in
          let tj' : present_of p j ≡ true = sym (ap is_present d) ∙ tj in
          elim (Bool-cases (k == i)) [
            | inl same ↦
                let index : k ≡ i = ground arith in
                rw d (rw index (rw frame_here (f.no_table j hj tj')))
            | inr both ↦
                let d' = dir_other k hk (ground arith) in
                rw d (rw d' (v.distinct j k hj hk tj' (sym (ap is_present d') ∙ tk) ne))
          ]
    ];
  }

  -- Every entry of the new table is 0.
  table_here : (x : ℕ) → pd_index x ≡ i → table_entry (with_table p bitmap pt i) x ≡ 0
  table_here x index =
      ap (λ j. table_word (with_table p bitmap pt i) (frame_of (with_table p bitmap pt i) j) x)
        index
      ∙ ap (λ t. table_word (with_table p bitmap pt i) t x) frame_here
      ∙ store_ne (zero_page p.memory pt) (slot p.directory i) (bit_or pt present_writable)
          (slot pt (pt_index x)) (omega (arith, f.page, v.aligned, f.no_directory))
      ∙ (zero_page_lem p.memory pt).0 (pt_index x) (omega arith)

  table_other :
      (x : ℕ)
      → pd_index x ≢ i
      → present_of p (pd_index x) ≡ true
      → table_entry (with_table p bitmap pt i) x ≡ table_entry p x
  table_other x ne there =
      let no_table = f.no_table (pd_index x) (omega arith) there in
      let apart = v.apart (pd_index x) (omega arith) there in
      ap (λ d. table_word (with_table p bitmap pt i) (page_frame d) x)
        (dir_other (pd_index x) (omega arith) ne)
      ∙ store_ne (zero_page p.memory pt) (slot p.directory i) (bit_or pt present_writable)
          (slot (frame_of p (pd_index x)) (pt_index x)) (omega (arith, v.aligned))
      ∙ (zero_page_lem p.memory pt).1 (slot (frame_of p (pd_index x)) (pt_index x))
          (λ k hk. omega (arith, f.page))

  -- Nothing is mapped by it.
  pub get_phys-with_table : (x : ℕ) → get_phys (with_table p bitmap pt i) x ≡ get_phys p x
  get_phys-with_table x = elim (Bool-cases (pd_index x == i)) [
    | inl same ↦
        let index : pd_index x ≡ i = ground arith in
        get_phys_lem (with_table p bitmap pt i) x
        ∙ ap₂ (λ b t. phys_of b t x)
            (ap (present_of (with_table p bitmap pt i)) index ∙ present_here) (table_here x index)
        ∙ sym (
            get_phys_lem p x
            ∙ ap (λ b. phys_of b (table_entry p x) x) (ap (present_of p) index ∙ e))
    | inr other ↦
        let d = dir_other (pd_index x) (omega arith) (ground arith) in
        get_phys_lem (with_table p bitmap pt i) x
        ∙ ap (λ b. phys_of b (table_entry (with_table p bitmap pt i) x) x) (ap is_present d)
        ∙ elim (Bool-cases (present_of p (pd_index x))) [
          | inl there ↦
              ap (λ t. phys_of (present_of p (pd_index x)) t x) (table_other x (ground arith) there)
          | inr absent ↦
              phys_of-absent (present_of p (pd_index x)) (table_entry (with_table p bitmap pt i) x)
                (table_entry p x) x absent
        ]
        ∙ sym (get_phys_lem p x)
  ]

-- The table that `paging_map` makes is in the directory, and nothing is mapped by it.
pub new_table_lem :
    (p : Paging) (virt : ℕ)
    → (Pmm.alloc p.bitmap).1 ≢ 0
    → new_table p virt
      ≡ (with_table p (Pmm.alloc p.bitmap).0 (Pmm.alloc p.bitmap).1 (pd_index virt), true)
unfolding new_table
new_table_lem p virt ne =
    let some_page : (Pmm.alloc p.bitmap).1 == 0 ≡ false = ground arith in rw some_page refl
