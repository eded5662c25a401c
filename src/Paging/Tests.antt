-- ===== src/Paging/Tests.antt =====
-- Runs of the operations of kernel/paging.c on a small state: a directory without tables.
use magnos.Base.{
  ℕ, zero, suc, ◌<◌, ◌≤◌, ◌^◌, ◌≡◌, inr, arith, refl, find_from, bit_clear, set_bit, [], ◌∷◌,
  replicate, Each,
}
use magnos.Pmm.Pages
use magnos.Pmm
use magnos.Paging.Identity.{Grants}
use magnos.Paging.Init.{get_phys-init}
use magnos.Paging.{init, Paging, map_page, get_phys}
use magnos.Paging.Tables.{IsValid}
use magnos.Paging.NewTable.{IsFresh}
use magnos.Paging.MapPage.{get_phys-map_page}

-- Pages 0 and 10 are used, and page 10 is the directory.
abbrev no_tables : Paging
no_tables = record { memory = λ a. 0; bitmap = 1 ∷ 4 ∷ []; directory = 40960 }

no_tables-IsValid : IsValid no_tables
no_tables-IsValid = record {
  aligned = refl;
  words = λ i h. omega arith;
  apart = λ i h e. absurd (ground arith);
  distinct = λ i j hi hj ei. absurd (ground arith);
}

alloc-no_tables : (Pmm.alloc no_tables.bitmap).1 ≡ 4096
unfolding Pmm.alloc Pmm.alloc_loop Pmm.first_clear find_from bit_clear
alloc-no_tables = refl

no_tables-IsFresh : IsFresh no_tables (Pmm.alloc no_tables.bitmap).1
no_tables-IsFresh = rw alloc-no_tables (record {
  page = refl;
  nonzero = omega arith;
  small = omega arith;
  no_directory = omega arith;
  no_table = λ i h e. absurd (ground arith);
})

get_phys-map_page_example : get_phys (map_page no_tables 0x400000 0x5000 7) 0x400123 ≡ 0x5123
get_phys-map_page_example =
    get_phys-map_page no_tables 0x400000 0x5000 7 0x400123 no_tables-IsValid (inr no_tables-IsFresh)
      (omega arith) (omega arith) (omega arith)

-- Pages 1 to 7 are free, and the memory is not clear.
abbrev unset : Paging
unset = record { memory = λ a. 0xDEAD_BEEF; bitmap = 1 ∷ replicate 511 255; directory = 0 }

bytes_below : (n : ℕ) → Each (λ b. b < 256) (replicate n 255)
bytes_below zero = tt
bytes_below (suc n) = (omega arith, bytes_below n)

unset-IsValid : Pmm.Pages.IsValid unset.bitmap
unset-IsValid = record { size = refl; bytes = (omega arith, bytes_below 511) }

unset-Grants : Grants 5 unset.bitmap
unfolding Grants Pmm.alloc Pmm.alloc_loop Pmm.first_clear find_from bit_clear set_bit
unset-Grants = (omega arith, (omega arith, (omega arith, (omega arith, (omega arith, tt)))))

get_phys-init_example :
    ((v : ℕ) → v < 2 ^ 24 → get_phys (init unset) v ≡ v)
    × ((v : ℕ) → 2 ^ 24 ≤ v → v < 2 ^ 32 → get_phys (init unset) v ≡ 0)
    × IsValid (init unset)
get_phys-init_example = get_phys-init unset unset-IsValid unset-Grants
