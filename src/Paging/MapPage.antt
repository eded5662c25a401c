-- ===== src/Paging/MapPage.antt =====
-- `paging_map` of kernel/paging.c, whether the page table is there or new.
use magnos.Base.{
  ℕ, ◌+◌, ◌/◌, ◌%◌, ◌^◌, ◌<◌, ◌≡◌, ◌∙◌, ap, true, ◌==◌, if◌then◌else◌, Bool-cases, inl, inr, ◌⊎◌,
  arith,
}
use magnos.Pmm
use magnos.Pmm.{Bitmap}
use magnos.Paging.{Paging, page_frame, pd_index, get_phys, map_page}
use magnos.Paging.Tables.{present_of, IsValid, SameDirectory}
use magnos.Paging.Map.{mapped, map_in-mapped, map_in-IsValid, map_in-SameDirectory}
use magnos.Paging.NewTable.{
  IsFresh, with_table, new_table_lem, present_here, with_table-IsValid, get_phys-with_table,
}

-- `paging_map` of 32-bit addresses under well-formed tables, where the table for the page is there or the page allocator has a
-- fresh page for it: addresses in the page of `virt` stand for the same place in the frame of `phys`, and all other
-- addresses stand for what they stood for, with any flags.
pub get_phys-map_page :
    (p : Paging) (virt phys flags x : ℕ)
    → IsValid p
    → (present_of p (pd_index virt) ≡ true) ⊎ IsFresh p (Pmm.alloc p.bitmap).1
    → virt < 2 ^ 32
    → phys < 2 ^ 32
    → x < 2 ^ 32
    → get_phys (map_page p virt phys flags) x ≡ mapped p virt phys x
unfolding map_page
get_phys-map_page p virt phys flags x v c hv hp hx =
    elim (Bool-cases (present_of p (pd_index virt))) [
      | inl there ↦ rw there (map_in-mapped p virt phys flags x v there hv hp hx)
      | inr absent ↦ elim c [
        | inl there ↦ cc
        | inr fresh ↦
            let bitmap = (Pmm.alloc p.bitmap).0 in
            let pt = (Pmm.alloc p.bitmap).1 in
            let i = pd_index virt in
            let hi : pd_index virt < 1024 = omega arith in
            rw absent (
              rw (new_table_lem p virt (omega (arith, fresh.nonzero))) (
                map_in-mapped (with_table p bitmap pt i) virt phys flags x
                  (with_table-IsValid p bitmap pt i v fresh hi absent)
                  (present_here p bitmap pt i v fresh hi absent) hv hp hx
                ∙ ap (λ t. if x / 2 ^ 12 == virt / 2 ^ 12 then page_frame phys + x % 2 ^ 12 else t)
                    (get_phys-with_table p bitmap pt i v fresh hi absent x)))
      ]
    ]

-- `paging_map` keeps the tables well formed: the directory and the tables it points to stay distinct pages, where the
-- table for the page is there or the page allocator has a fresh page for it.
pub map_page-IsValid :
    (p : Paging) (virt phys flags : ℕ)
    → IsValid p
    → (present_of p (pd_index virt) ≡ true) ⊎ IsFresh p (Pmm.alloc p.bitmap).1
    → IsValid (map_page p virt phys flags)
unfolding map_page
map_page-IsValid p virt phys flags v c = elim (Bool-cases (present_of p (pd_index virt))) [
  | inl there ↦ rw there (map_in-IsValid p virt phys flags v there)
  | inr absent ↦ elim c [
    | inl there ↦ cc
    | inr fresh ↦
        let bitmap = (Pmm.alloc p.bitmap).0 in
        let pt = (Pmm.alloc p.bitmap).1 in
        let i = pd_index virt in
        let hi : pd_index virt < 1024 = omega arith in
        rw absent (
          rw (new_table_lem p virt (omega (arith, fresh.nonzero))) (
            map_in-IsValid (with_table p bitmap pt i) virt phys flags
              (with_table-IsValid p bitmap pt i v fresh hi absent)
              (present_here p bitmap pt i v fresh hi absent)))
  ]
]

-- `paging_map` leaves the directory as it is where the table for the page is there, up to the user bit.
pub map_page-SameDirectory :
    (p : Paging) (virt phys flags : ℕ)
    → IsValid p
    → present_of p (pd_index virt) ≡ true
    → SameDirectory p (map_page p virt phys flags)
unfolding map_page
map_page-SameDirectory p virt phys flags v there =
    rw there (map_in-SameDirectory p virt phys flags v there)
