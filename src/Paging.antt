-- ===== src/Paging.antt =====
-- kernel/paging.c: the page directory and the page tables, words of the memory. Under the identity mapping the
-- address of a table is its physical address. Loading CR3, setting the PG bit of CR0 and `invlpg` have no counterpart
-- in the state. A mask of ones is a remainder, and the mask of a frame cuts off the 12 low bits.
pub mod Tables
pub mod Entries
pub mod Map
pub mod NewTable
pub mod MapPage
pub mod Identity
pub mod Init
mod Tests
use Prim.Native.Nat.{bit_or}
use magnos.Base.{
  ℕ, zero, suc, ◌+◌, ◌*◌, ◌/◌, ◌%◌, ◌^◌, Bool, not, ltb, ◌==◌, if◌then◌else◌, counted,
}
use magnos.Memory.{Memory, store}
use magnos.Pmm
use magnos.Pmm.{Bitmap, page_size}

abbrev pub page_user : ℕ
page_user = 4

-- `PAGE_PRESENT | PAGE_WRITABLE`
abbrev pub present_writable : ℕ
present_writable = 3

-- PD_INDEX, PT_INDEX and PAGE_FRAME
abbrev pub pd_index : ℕ → ℕ
pd_index virt = virt / 2 ^ 22 % 2 ^ 10

abbrev pub pt_index : ℕ → ℕ
pt_index virt = virt / 2 ^ 12 % 2 ^ 10

abbrev pub page_frame : ℕ → ℕ
page_frame entry = entry % 2 ^ 32 / 2 ^ 12 * 2 ^ 12

-- `entry & PAGE_PRESENT` and `entry & PAGE_USER`
abbrev pub is_present : ℕ → Bool
is_present entry = not (entry % 2 == 0)

abbrev pub has_user : ℕ → Bool
has_user flags = not (flags / 4 % 2 == 0)

-- The static variable `kernel_page_directory` with the memory and the page bitmap.
pub record Paging : Type 0 where
  pub memory : Memory
  pub bitmap : Bitmap
  pub directory : ℕ

-- The word number `i` of the table at `page`.
abbrev pub slot : ℕ → ℕ → ℕ
slot page i = page + 4 * i

pub zero_page : Memory → ℕ → Memory
zero_page m page = counted 1024 0 (λ i m'. store m' (slot page i) 0) m

pub fill_table : Memory → ℕ → ℕ → Memory
fill_table m pt i =
    counted 1024 0
      (λ j m'. store m' (slot pt j) (bit_or ((i * 1024 + j) * page_size) present_writable)) m

-- A round of the loop of `paging_init`.
pub map_identity : ℕ → Paging → Paging
map_identity i p =
    let (bitmap, pt) = Pmm.alloc p.bitmap in
    let m = fill_table (zero_page p.memory pt) pt i in
    record p { memory = store m (slot p.directory i) (bit_or pt present_writable); bitmap = bitmap }

abbrev pub identity_map_entries : ℕ
identity_map_entries = 4

pub init : Paging → Paging
init p =
    let (bitmap, directory) = Pmm.alloc p.bitmap in
    counted identity_map_entries 0 map_identity
      (record { memory = zero_page p.memory directory; bitmap = bitmap; directory = directory })

abbrev pub pd_entry : Paging → ℕ → ℕ
pd_entry p virt = p.memory (slot p.directory (pd_index virt))

-- A new page table for the address; `paging_map` returns early if there is no page for it.
pub new_table : Paging → ℕ → Paging × Bool
new_table p virt =
    let (bitmap, pt) = Pmm.alloc p.bitmap in
    if pt == 0 then (record p { bitmap = bitmap }, Bool.false) else (
      record p {
        memory =
            store (zero_page p.memory pt) (slot p.directory (pd_index virt))
              (bit_or pt present_writable);
        bitmap = bitmap;
      },
      Bool.true,
    )

-- The entry itself, and the user bit of the directory entry before it.
pub set_user : Paging → ℕ → ℕ → Paging
set_user p virt flags =
    if has_user flags
    then record p {
      memory =
          store p.memory (slot p.directory (pd_index virt)) (bit_or (pd_entry p virt) page_user);
    }
    else p

pub set_entry : Paging → ℕ → ℕ → ℕ → Paging
set_entry p virt phys flags = record p {
  memory =
      store p.memory (slot (page_frame (pd_entry p virt)) (pt_index virt))
        (bit_or (bit_or (page_frame phys) (flags % 2 ^ 12)) 1);
}

pub map_in : Paging × Bool → ℕ → ℕ → ℕ → Paging
map_in (p, Bool.false) virt phys flags = p
map_in (p, Bool.true) virt phys flags = set_entry (set_user p virt flags) virt phys flags

-- `paging_map`
pub map_page : Paging → ℕ → ℕ → ℕ → Paging
map_page p virt phys flags =
    map_in (if is_present (pd_entry p virt) then (p, Bool.true) else new_table p virt) virt phys
      flags

pub unmap : Paging → ℕ → Paging
unmap p virt = if not (is_present (pd_entry p virt)) then p else record p {
  memory = store p.memory (slot (page_frame (pd_entry p virt)) (pt_index virt)) 0;
}

pub get_phys : Paging → ℕ → ℕ
get_phys p virt =
    let entry = p.memory (slot (page_frame (pd_entry p virt)) (pt_index virt)) in
    if not (is_present (pd_entry p virt))
    then 0
    else if not (is_present entry)
    then 0
    else bit_or (page_frame entry) (virt % 2 ^ 12)
