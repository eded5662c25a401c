-- ===== src/Paging/Init.antt =====
-- `paging_init` of kernel/paging.c: the identity mapping of the first 16 MB.
use Prim.Native.Nat.{bit_or}
use magnos.Base.{
  ℕ, suc, ◌+◌, ◌-◌, ◌*◌, ◌/◌, ◌%◌, ◌^◌, ◌≤◌, ◌<◌, ◌≡◌, refl, ◌∙◌, ap, ap₂, subst, true, false,
  arith, counted_inv, bit_or_low,
}
use magnos.Pmm
use magnos.Pmm.{Bitmap, page_size, is_free, total_pages}
use magnos.Pmm.Pages
use magnos.Pmm.Alloc.{alloc-Allocated}
use magnos.Paging.{
  Paging, slot, page_frame, pd_index, pt_index, is_present, zero_page, map_identity, init,
  identity_map_entries, get_phys,
}
use magnos.Paging.Tables.{table_entry, IsValid, phys_of, get_phys_lem}
use magnos.Paging.NewTable.{zero_page_lem}
use magnos.Paging.Identity.{Grants, identity_entry, Mapped, now_used, next-Mapped}

identity_lem : (v : ℕ) → v < 2 ^ 24 → phys_of true (identity_entry (pd_index v) (pt_index v)) v ≡ v
identity_lem v lt =
    let entry : identity_entry (pd_index v) (pt_index v) ≡ v / 2 ^ 12 * 2 ^ 12 + 3 = omega arith in
    let frame : page_frame (v / 2 ^ 12 * 2 ^ 12 + 3) ≡ v / 2 ^ 12 * 2 ^ 12 = omega arith in
    let odd : (v / 2 ^ 12 * 2 ^ 12 + 3) % 2 ≡ 1 = omega arith in
    ap (λ e. phys_of true e v) entry
    ∙ rw odd (
        ap (λ f. bit_or f (v % 2 ^ 12)) frame
        ∙ bit_or_low 12 (v / 2 ^ 12) (v % 2 ^ 12) (omega arith)
        ∙ omega arith)

map_identity-Mapped :
    (k : ℕ) (p : Paging) → k < identity_map_entries → Mapped k p → Mapped (k + 1) (map_identity k p)
unfolding map_identity Grants
map_identity-Mapped k p lt h =
    let one_more : identity_map_entries - k ≡ suc (identity_map_entries - (k + 1)) = omega arith in
    let room = subst (λ n. Grants n p.bitmap) one_more h.room in
    next-Mapped k p h lt (Pmm.alloc p.bitmap).1 (Pmm.alloc p.bitmap).0
      (alloc-Allocated h.bitmap room.0) room.0 room.1

-- The empty directory.
start-Mapped :
    (p : Paging)
    → Pmm.Pages.IsValid p.bitmap
    → Grants (suc identity_map_entries) p.bitmap
    → let r = Pmm.alloc p.bitmap in
      Mapped 0 (record { memory = zero_page p.memory r.1; bitmap = r.0; directory = r.1 })
unfolding Grants
start-Mapped p v (nonzero, room) =
    let d = (Pmm.alloc p.bitmap).1 in
    let a = alloc-Allocated v nonzero in
    let entry = (zero_page_lem p.memory d).0 in
    let empty : (i : ℕ) → i < 1024 → is_present (zero_page p.memory d (slot d i)) ≡ false =
      λ i hi. ap is_present (entry i hi) in
    record {
      bitmap = a.valid;
      room = room;
      valid = record {
        aligned = omega (arith, a.addr_eq);
        words = λ i hi. rw (entry i hi) (omega arith);
        apart = λ i hi there. absurd (cc (empty i hi, there));
        distinct = λ i j hi hj there. absurd (cc (empty i hi, there));
      };
      directory_low = omega (arith, a.addr_eq, a.page_in);
      directory_used = now_used a nonzero;
      tables_low = λ i hi there. absurd (cc (empty i hi, there));
      tables_used = λ i hi there. absurd (cc (empty i hi, there));
      present = λ i hi. absurd (omega arith);
      absent = λ i hi le. empty i hi;
      entries = λ i j hi. absurd (omega arith);
    }

init-Mapped :
    (p : Paging)
    → Pmm.Pages.IsValid p.bitmap
    → Grants 5 p.bitmap
    → Mapped identity_map_entries (init p)
unfolding init
init-Mapped p v room =
    counted_inv Mapped map_identity identity_map_entries 0 identity_map_entries _ refl
      (λ k q le lt h. map_identity-Mapped k q lt h) (start-Mapped p v room)

-- Where the page allocator, in a sound state, has the five pages: behind `paging_init` each address of the first 16 MB
-- stands for itself, each other address of 32 bits for nothing, and directory and tables are distinct pages.
pub get_phys-init :
    (p : Paging)
    → Pmm.Pages.IsValid p.bitmap
    → Grants 5 p.bitmap
    → ((v : ℕ) → v < 2 ^ 24 → get_phys (init p) v ≡ v)
      × ((v : ℕ) → 2 ^ 24 ≤ v → v < 2 ^ 32 → get_phys (init p) v ≡ 0)
      × IsValid (init p)
get_phys-init p valid room =
    let h = init-Mapped p valid room in
    (
      λ v lt.
          get_phys_lem (init p) v
          ∙ ap₂ (λ b e. phys_of b e v) (h.present (pd_index v) (omega arith))
              (h.entries (pd_index v) (pt_index v) (omega arith) (omega arith))
          ∙ identity_lem v lt,
      λ v le lt.
          get_phys_lem (init p) v
          ∙ ap (λ b. phys_of b (table_entry (init p) v) v)
              (h.absent (pd_index v) (omega arith) (omega arith)),
      h.valid,
    )
