-- ===== src/Paging/Map.antt =====
-- `paging_map`, `paging_unmap` and `paging_get_phys` of kernel/paging.c, one after the other.
use Prim.Native.Nat.{bit_or}
use magnos.Base.{
  ℕ, ◌+◌, ◌/◌, ◌%◌, ◌^◌, ◌<◌, ◌≡◌, ◌≢◌, refl, sym, ◌∙◌, ap, ap₂, Bool, true, false, ◌==◌,
  if◌then◌else◌, Bool-cases, inl, inr, ◌⊎◌, arith, bit_or_low,
}
use magnos.Paging.{
  Paging, page_frame, pd_index, pt_index, set_user, set_entry, get_phys, map_in, unmap,
}
use magnos.Paging.Tables.{
  present_of, table_entry, IsValid, SameDirectory, phys_of, get_phys_lem, SameDirectory-IsValid,
  SameDirectory-trans, store_table, store_table-SameDirectory, store_table_here, store_table_other,
}
use magnos.Paging.Entries.{entry_of, entry_present, entry_frame, set_user-Agrees}

-- What the addresses stand for behind the store of an entry into a table that is there.
pub phys_of-absent :
    (b : Bool) (entry entry' x : ℕ) → b ≡ false → phys_of b entry x ≡ phys_of b entry' x
phys_of-absent b entry entry' x e = rw e refl

page_cases :
    (x y : ℕ)
    → x < 2 ^ 32
    → y < 2 ^ 32
    → x / 2 ^ 12 ≢ y / 2 ^ 12
    → (pd_index x ≢ pd_index y) ⊎ (pt_index x ≢ pt_index y)
page_cases x y hx hy ne = elim (Bool-cases (pd_index x == pd_index y)) [
  | inl e ↦ inr (ground arith)
  | inr e ↦ inl (ground arith)
]

-- States that agree give the same addresses.
pub get_phys-agree :
    (p q : Paging) (x : ℕ)
    → SameDirectory p q
    → (present_of p (pd_index x) ≡ true → table_entry q x ≡ table_entry p x)
    → get_phys q x ≡ get_phys p x
get_phys-agree p q x (dir, same) tables =
    let present : present_of q (pd_index x) ≡ present_of p (pd_index x) =
      (same (pd_index x) (omega arith)).1 in
    get_phys_lem q x
    ∙ ap (λ b. phys_of b (table_entry q x) x) present
    ∙ elim (Bool-cases (present_of p (pd_index x))) [
      | inl there ↦ ap (λ t. phys_of (present_of p (pd_index x)) t x) (tables there)
      | inr absent ↦
          phys_of-absent (present_of p (pd_index x)) (table_entry q x) (table_entry p x) x absent
    ]
    ∙ sym (get_phys_lem p x)

store_other :
    (p : Paging) (virt x w : ℕ)
    → IsValid p
    → present_of p (pd_index virt) ≡ true
    → virt < 2 ^ 32
    → x < 2 ^ 32
    → x / 2 ^ 12 ≢ virt / 2 ^ 12
    → get_phys (store_table p (pd_index virt) (pt_index virt) w) x ≡ get_phys p x
store_other p virt x w v e hv hx ne =
    get_phys-agree p (store_table p (pd_index virt) (pt_index virt) w) x
      (store_table-SameDirectory p (pd_index virt) (pt_index virt) w v (omega arith) (omega arith)
        e)
      (λ there.
        store_table_other p (pd_index virt) (pt_index virt) w v (omega arith) (omega arith) e x
          there (page_cases x virt hx hv ne))

-- An address in the page of `virt`, behind the store of its entry.
store_here :
    (p : Paging) (virt x w : ℕ)
    → IsValid p
    → present_of p (pd_index virt) ≡ true
    → x / 2 ^ 12 ≡ virt / 2 ^ 12
    → get_phys (store_table p (pd_index virt) (pt_index virt) w) x ≡ phys_of true w x
store_here p virt x w v e same =
    let q : Paging = store_table p (pd_index virt) (pt_index virt) w in
    let directory =
      store_table-SameDirectory p (pd_index virt) (pt_index virt) w v (omega arith) (omega arith)
        e in
    let index : pd_index x ≡ pd_index virt = omega arith in
    let present : present_of q (pd_index x) ≡ true =
      (directory.1 (pd_index x) (omega arith)).1 ∙ ap (present_of p) index ∙ e in
    get_phys_lem q x
    ∙ ap₂ (λ b t. phys_of b t x) present
        (store_table_here p (pd_index virt) (pt_index virt) w v (omega arith) (omega arith) e x
          index (omega arith))

phys_of-entry :
    (phys flags x : ℕ) (h : phys < 2 ^ 32)
    → phys_of true (entry_of phys flags h) x ≡ page_frame phys + x % 2 ^ 12
phys_of-entry phys flags x h = rw (entry_present phys flags h) (
    rw (entry_frame phys flags h)
      (bit_or_low 12 (phys % 2 ^ 32 / 2 ^ 12) (x % 2 ^ 12) (omega arith)))

-- What an address stands for once `virt` is mapped to `phys`.
abbrev pub mapped : Paging → ℕ → ℕ → ℕ → ℕ
mapped p virt phys x =
    if x / 2 ^ 12 == virt / 2 ^ 12 then page_frame phys + x % 2 ^ 12 else get_phys p x

set_entry-mapped :
    (p : Paging) (virt phys flags x : ℕ)
    → IsValid p
    → present_of p (pd_index virt) ≡ true
    → virt < 2 ^ 32
    → phys < 2 ^ 32
    → x < 2 ^ 32
    → get_phys (set_entry p virt phys flags) x ≡ mapped p virt phys x
unfolding set_entry
set_entry-mapped p virt phys flags x v e hv hp hx =
    elim (Bool-cases (x / 2 ^ 12 == virt / 2 ^ 12)) [
      | inl same ↦ rw same (
          store_here p virt x (entry_of phys flags hp) v e (ground arith)
          ∙ phys_of-entry phys flags x hp)
      | inr other ↦
          rw other (store_other p virt x (entry_of phys flags hp) v e hv hx (ground arith))
    ]

-- `paging_map` where the table is there, and behind the new table.
pub map_in-mapped :
    (p : Paging) (virt phys flags x : ℕ)
    → IsValid p
    → present_of p (pd_index virt) ≡ true
    → virt < 2 ^ 32
    → phys < 2 ^ 32
    → x < 2 ^ 32
    → get_phys (map_in (p, true) virt phys flags) x ≡ mapped p virt phys x
unfolding map_in
map_in-mapped p virt phys flags x v e hv hp hx =
    let q : Paging = set_user p virt flags in
    let (directory, tables) = set_user-Agrees p virt flags v in
    let there : present_of q (pd_index virt) ≡ true =
      (directory.1 (pd_index virt) (omega arith)).1 ∙ e in
    set_entry-mapped q virt phys flags x (SameDirectory-IsValid p q v directory) there hv hp hx
    ∙ ap (λ t. if x / 2 ^ 12 == virt / 2 ^ 12 then page_frame phys + x % 2 ^ 12 else t)
        (get_phys-agree p q x directory (tables x))

-- The tables stay where they are.
pub map_in-SameDirectory :
    (p : Paging) (virt phys flags : ℕ)
    → IsValid p
    → present_of p (pd_index virt) ≡ true
    → SameDirectory p (map_in (p, true) virt phys flags)
unfolding map_in set_entry
map_in-SameDirectory p virt phys flags v e =
    let q : Paging = set_user p virt flags in
    let (directory, tables) = set_user-Agrees p virt flags v in
    let valid = SameDirectory-IsValid p q v directory in
    let there : present_of q (pd_index virt) ≡ true =
      (directory.1 (pd_index virt) (omega arith)).1 ∙ e in
    let word : ℕ = bit_or (bit_or (page_frame phys) (flags % 2 ^ 12)) 1 in
    SameDirectory-trans p q (store_table q (pd_index virt) (pt_index virt) word) directory (
      store_table-SameDirectory q (pd_index virt) (pt_index virt) word valid (omega arith)
        (omega arith) there)

pub map_in-IsValid :
    (p : Paging) (virt phys flags : ℕ)
    → IsValid p
    → present_of p (pd_index virt) ≡ true
    → IsValid (map_in (p, true) virt phys flags)
map_in-IsValid p virt phys flags v e =
    SameDirectory-IsValid p (map_in (p, true) virt phys flags) v
      (map_in-SameDirectory p virt phys flags v e)

-- `paging_unmap` of a 32-bit address under well-formed tables: addresses in the page stand for nothing any more (0), and all
-- other addresses stand for what they stood for, whether the table of the page is there or not.
pub get_phys-unmap :
    (p : Paging) (virt x : ℕ)
    → IsValid p
    → virt < 2 ^ 32
    → x < 2 ^ 32
    → get_phys (unmap p virt) x ≡ (if x / 2 ^ 12 == virt / 2 ^ 12 then 0 else get_phys p x)
unfolding unmap
get_phys-unmap p virt x v hv hx = elim (Bool-cases (present_of p (pd_index virt))) [
  | inl there ↦ rw there (elim (Bool-cases (x / 2 ^ 12 == virt / 2 ^ 12)) [
    | inl same ↦ rw same (store_here p virt x 0 v there (ground arith))
    | inr other ↦ rw other (store_other p virt x 0 v there hv hx (ground arith))
  ])
  | inr absent ↦ rw absent (elim (Bool-cases (x / 2 ^ 12 == virt / 2 ^ 12)) [
    | inl same ↦ rw same (
        let index : pd_index x ≡ pd_index virt = ground arith in
        get_phys_lem p x
        ∙ ap (λ b. phys_of b (table_entry p x) x) (ap (present_of p) index ∙ absent))
    | inr other ↦ rw other refl
  ])
]
