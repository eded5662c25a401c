-- ===== src/Elf/User.antt =====
-- The pages that kernel/elf.c maps for a program.
use magnos.Base.{
  ℕ, ◌+◌, ◌*◌, ◌/◌, ◌%◌, ◌^◌, ◌≤◌, ◌<◌, ◌≡◌, refl, ◌∙◌, ap, true, false, ◌&&◌, Bool-cases, inl, inr,
  arith, ◌==◌, ltb, leb, if◌then◌else◌, counted_inv,
}
use magnos.Pmm.{page_size}
use magnos.Paging.{Paging, pd_index, page_frame, map_page, get_phys}
use magnos.Paging.Tables.{IsValid, present_of}
use magnos.Paging.MapPage.{get_phys-map_page, map_page-IsValid, map_page-SameDirectory}
use magnos.Elf.{user_flags, map_user}

-- The first `k` pages from 0x200000 on are mapped to themselves, and all else is as it was.
abbrev UserMapped : Paging → ℕ → Paging → Type 0
UserMapped p k q =
    IsValid q
    × (present_of q 0 ≡ true)
    × ((x : ℕ)
        → x < 2 ^ 32
        → get_phys q x
          ≡ (if leb 0x200000 x && ltb x (0x200000 + k * page_size) then x else get_phys p x))

one_more :
    (k x a b : ℕ)
    → x < 2 ^ 32
    → a ≡ (if leb 0x200000 x && ltb x (0x200000 + k * page_size) then x else b)
    → k ≤ 256
    → (if x / 2 ^ 12 == (0x200000 + k * page_size) / 2 ^ 12
        then page_frame (0x200000 + k * page_size) + x % 2 ^ 12
        else a)
      ≡ (if leb 0x200000 x && ltb x (0x200000 + (k + 1) * page_size) then x else b)
one_more k x a b h e le = elim (Bool-cases (x / 2 ^ 12 == (0x200000 + k * page_size) / 2 ^ 12)) [
  | inl same ↦
      let inside : (leb 0x200000 x && ltb x (0x200000 + (k + 1) * page_size)) ≡ true =
        ground arith in
      let page : x / 2 ^ 12 ≡ (0x200000 + k * page_size) / 2 ^ 12 = ground arith in
      rw same (rw inside (omega arith))
  | inr other ↦ rw other (
      e
      ∙ ap (λ t. if t then x else b)
          (elim (Bool-cases (leb 0x200000 x && ltb x (0x200000 + k * page_size))) [
            | inl here ↦
                let inside : (leb 0x200000 x && ltb x (0x200000 + (k + 1) * page_size)) ≡ true =
                  ground arith in
                rw here (rw inside refl)
            | inr none ↦
                let outside : (leb 0x200000 x && ltb x (0x200000 + (k + 1) * page_size)) ≡ false =
                  ground arith in
                rw none (rw outside refl)
          ]))
]

map_page-UserMapped :
    (p : Paging) (k : ℕ) (q : Paging)
    → k ≤ 256
    → UserMapped p k q
    → UserMapped p
        (k + 1)
        (map_page q (0x200000 + k * page_size) (0x200000 + k * page_size) user_flags)
map_page-UserMapped p k q le (v, there, same) =
    let virt : ℕ = 0x200000 + k * page_size in
    let index : pd_index virt ≡ 0 = omega arith in
    let table : present_of q (pd_index virt) ≡ true = ap (present_of q) index ∙ there in
    (
      map_page-IsValid q virt virt user_flags v (inl table),
      ((map_page-SameDirectory q virt virt user_flags v table).1 0 (omega arith)).1 ∙ there,
      λ x h.
          get_phys-map_page q virt virt user_flags x v (inl table) (omega arith) (omega arith) h
          ∙ one_more k x (get_phys q x) (get_phys p x) h (same x h) le,
    )

-- What a program finds under well-formed tables whose first table is there, as the identity map of the kernel has it:
-- the addresses from 0x200000 to the end of the user stack at 0x301000 stand for themselves, all others for what they
-- stood for.
pub get_phys-map_user :
    (p : Paging) (x : ℕ)
    → IsValid p
    → present_of p 0 ≡ true
    → x < 2 ^ 32
    → get_phys (map_user p) x ≡ (if leb 0x200000 x && ltb x 0x301000 then x else get_phys p x)
unfolding map_user
get_phys-map_user p x v there h =
    let nothing : (y : ℕ) → (leb 0x200000 y && ltb y (0x200000 + 0 * page_size)) ≡ false =
      λ y. ground arith in
    let program =
      counted_inv (UserMapped p)
        (λ i q. map_page q (0x200000 + i * page_size) (0x200000 + i * page_size) user_flags) 256 0
        256 p refl (λ k q lo hi. map_page-UserMapped p k q (omega arith))
        (v, there, λ y hy. rw (nothing y) refl) in
    (map_page-UserMapped p 256 _ (omega arith) program).2 x h
