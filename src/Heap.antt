-- ===== src/Heap.antt =====
-- kernel/heap.c: the kernel heap, a list of free blocks in order of address. Block headers live in the
-- memory: for a block at `b` the words at `b`, `b + 4` and `b + 8` are its size, `is_free` and `next`.
-- A walk along the list takes fuel, and `none` means that it ran out; the theorems give the fuel that
-- is enough. A pointer is an address, 0 for NULL.
pub mod Chain
pub mod Insert
pub mod Coalesce
pub mod Split
pub mod Search
pub mod Malloc
pub mod Fit
pub mod Free
pub mod Recycle
pub mod Stats
mod Tests
use magnos.Base.{
  ℕ, zero, suc, ◌+◌, ◌-◌, ◌*◌, ◌/◌, ◌%◌, ◌^◌, ◌≤◌, Bool, not, ◌&&◌, ◌||◌, Option, none, some, ltb,
  leb, ◌==◌, if◌then◌else◌,
}
use magnos.Memory.{Memory, store}
use magnos.Pmm
use magnos.Pmm.{Bitmap, page_size}

abbrev pub header_size : ℕ
header_size = 16

abbrev pub min_alloc : ℕ
min_alloc = 16

abbrev pub align : ℕ
align = 16

abbrev pub initial_pages : ℕ
initial_pages = 16

-- The fields of `block_header_t` in memory.
abbrev pub size_of : Memory → ℕ → ℕ
size_of m b = m b

abbrev pub free_of : Memory → ℕ → ℕ
free_of m b = m (b + 4)

abbrev pub next_of : Memory → ℕ → ℕ
next_of m b = m (b + 8)

abbrev pub set_size : Memory → ℕ → ℕ → Memory
set_size m b v = store m b v

abbrev pub set_free : Memory → ℕ → ℕ → Memory
set_free m b v = store m (b + 4) v

abbrev pub set_next : Memory → ℕ → ℕ → Memory
set_next m b v = store m (b + 8) v

-- The memory with the head of the list.
pub record Blocks : Type 0 where
  pub memory : Memory
  pub free_list : ℕ

-- The loop of `list_insert` and the two writes behind it.
pub insert_walk : ℕ → Memory → ℕ → ℕ → Option Memory
insert_walk zero m cur block = none
insert_walk (suc fuel) m cur block =
    let rest = insert_walk fuel m (next_of m cur) block in
    if not (next_of m cur == 0) && ltb (next_of m cur) block
    then rest
    else some (set_next (set_next m block (next_of m cur)) cur block)

pub list_insert : ℕ → Blocks → ℕ → Option Blocks
list_insert fuel s block =
    let m = set_free s.memory block 1 in
    if s.free_list == 0 || ltb block s.free_list
    then some (record { memory = set_next m block s.free_list; free_list = block })
    else elim (insert_walk fuel m s.free_list block) [
      | none ↦ none
      | some m' ↦ some (record { memory = m'; free_list = s.free_list })
    ]

pub coalesce_forward : Memory → ℕ → Memory
coalesce_forward m block =
    let next = next_of m block in
    let end : ℕ = (block + header_size + size_of m block) % 2 ^ 32 in
    if next == 0
    then m
    else if end == next && not (free_of m next == 0)
    then set_next (set_size m block ((size_of m block + header_size + size_of m next) % 2 ^ 32))
        block (next_of m next)
    else m

-- The pass over the list in `heap_add_page` and `kfree`.
pub coalesce_walk : ℕ → Memory → ℕ → Option Memory
coalesce_walk zero m cur = none
coalesce_walk (suc fuel) m cur =
    let m' = coalesce_forward m cur in
    let rest = coalesce_walk fuel m' (next_of m' cur) in if cur == 0 then some m else rest

with_memory : Blocks → Option Memory → Option Blocks
with_memory s none = none
with_memory s (some m) = some (record s { memory = m })

coalesce_list : ℕ → Option Blocks → Option Blocks
coalesce_list fuel none = none
coalesce_list fuel (some s) = with_memory s (coalesce_walk fuel s.memory s.free_list)

-- The common end of `heap_add_page` and `kfree`.
pub insert_and_coalesce : ℕ → Blocks → ℕ → Option Blocks
insert_and_coalesce fuel s block = coalesce_list fuel (list_insert fuel s block)

pub kfree : ℕ → Blocks → ℕ → Option Blocks
kfree fuel s ptr = if ptr == 0 then some s else insert_and_coalesce fuel s (ptr - header_size)

-- The split of a block that is large enough for another one.
pub split : Memory → ℕ → ℕ → Memory
split m cur size =
    let new_block : ℕ = (cur + header_size + size) % 2 ^ 32 in
    let m1 = set_size m new_block (size_of m cur - size - header_size) in
    let m2 = set_free m1 new_block 1 in
    let m3 = set_next m2 new_block (next_of m2 cur) in set_size (set_next m3 cur new_block) cur size

pub split_if : Memory → ℕ → ℕ → Memory
split_if m cur size =
    if leb ((size + header_size + min_alloc) % 2 ^ 32) (size_of m cur) then split m cur size else m

-- The block leaves the list.
pub unlink : Memory → ℕ → ℕ → ℕ → Blocks
unlink m free_list prev cur =
    let m1 = set_free m cur 0 in
    if not (prev == 0)
    then record {
      memory = set_next (set_next m1 prev (next_of m1 cur)) cur 0;
      free_list = free_list;
    }
    else record { memory = set_next m1 cur 0; free_list = next_of m1 cur }

-- The first-fit search of `kmalloc`: out of fuel, or no block, or the new list with the block found.
pub search : ℕ → Memory → ℕ → ℕ → ℕ → ℕ → Option (Option (Blocks × ℕ))
search zero m free_list prev cur size = none
search (suc fuel) m free_list prev cur size =
    let rest = search fuel m free_list cur (next_of m cur) size in
    if cur == 0
    then some none
    else if not (free_of m cur == 0) && leb size (size_of m cur)
    then some (some (unlink (split_if m cur size) free_list prev cur, cur + header_size))
    else rest

-- `kmalloc` rounds the size up to the alignment; the sum wraps.
pub round_size : ℕ → ℕ
round_size size =
    let rounded : ℕ = ((size + align - 1) % 2 ^ 32) / 16 * 16 in
    if ltb rounded min_alloc then min_alloc else rounded

-- The static variables, with the memory and the page bitmap.
pub record Heap : Type 0 where
  pub blocks : Blocks
  pub heap_pages : ℕ
  pub bitmap : Bitmap

-- The header that `heap_add_page` writes.
pub page_header : Memory → ℕ → Memory
page_header m page = set_next (set_free (set_size m page (page_size - header_size)) page 1) page 0

-- The heap with the page in its list.
page_added : Heap → Bitmap → ℕ → Option Blocks → Option (Heap × ℕ)
page_added h bitmap page none = none
page_added h bitmap page (some b) =
    some (record { blocks = b; heap_pages = (h.heap_pages + 1) % 2 ^ 32; bitmap = bitmap }, page)

-- The heap and the new block, 0 if there is no page.
pub heap_add_page : ℕ → Heap → Option (Heap × ℕ)
heap_add_page fuel h =
    let (bitmap, page) = Pmm.alloc h.bitmap in
    let formatted = record h.blocks { memory = page_header h.blocks.memory page } in
    if page == 0
    then some (record h { bitmap = bitmap }, 0)
    else page_added h bitmap page (insert_and_coalesce fuel formatted page)

-- `heap_init`: the result of each call is ignored.
add_pages : ℕ → ℕ → Option (Heap × ℕ) → Option Heap
add_pages fuel n none = none
add_pages fuel zero (some (h, _)) = some h
add_pages fuel (suc n) (some (h, _)) = add_pages fuel n (heap_add_page fuel h)

pub init : ℕ → Heap → Option Heap
init fuel h = add_pages fuel initial_pages (some (h, 0))

-- The loop of `kmalloc` that grows the heap: the result of the last call, and whether each had a page.
pub grow : ℕ → ℕ → Option (Heap × ℕ) → Option (Heap × Bool)
grow fuel n none = none
grow fuel zero (some (h, block)) = some (h, not (block == 0))
grow fuel (suc n) (some (h, block)) =
    let rest = grow fuel n (heap_add_page fuel h) in
    if block == 0 then some (h, Bool.false) else rest

pub search_list : ℕ → Heap → ℕ → Option (Option (Blocks × ℕ))
search_list fuel h size = search fuel h.blocks.memory h.blocks.free_list 0 h.blocks.free_list size

pages_needed : ℕ → ℕ
pages_needed size = ((size + header_size + page_size - 1) % 2 ^ 32) / page_size

-- The end of the second search.
found_again : Heap → Option (Option (Blocks × ℕ)) → Option (Heap × ℕ)
found_again h none = none
found_again h (some none) = some (h, 0)
found_again h (some (some (b, ptr))) = some (record h { blocks = b }, ptr)

-- The second search, unless a page was missing.
retry : ℕ → ℕ → Option (Heap × Bool) → Option (Heap × ℕ)
retry fuel size none = none
retry fuel size (some (h, Bool.false)) = some (h, 0)
retry fuel size (some (h, Bool.true)) = found_again h (search_list fuel h size)

-- `kmalloc` behind the first search; the growth starts with a pointer that is not NULL.
pub found : ℕ → Heap → ℕ → Option (Option (Blocks × ℕ)) → Option (Heap × ℕ)
found fuel h size none = none
found fuel h size (some none) = retry fuel size (grow fuel (pages_needed size) (some (h, 1)))
found fuel h size (some (some (b, ptr))) = some (record h { blocks = b }, ptr)

pub malloc_rounded : ℕ → Heap → ℕ → Option (Heap × ℕ)
malloc_rounded fuel h size = found fuel h size (search_list fuel h size)

pub kmalloc : ℕ → Heap → ℕ → Option (Heap × ℕ)
kmalloc fuel h size = if size == 0 then some (h, 0) else malloc_rounded fuel h (round_size size)

-- `heap_stats_t`
pub record HeapStats : Type 0 where
  pub total_bytes : ℕ
  pub free_bytes : ℕ
  pub used_bytes : ℕ
  pub num_free_blocks : ℕ
  pub num_pages : ℕ

-- The loop of `heap_get_stats`, with the sum of the sizes and the number of blocks.
pub stats_walk : ℕ → Memory → ℕ → ℕ → ℕ → Option (ℕ × ℕ)
stats_walk zero m cur bytes blocks = none
stats_walk (suc fuel) m cur bytes blocks =
    let rest =
      stats_walk fuel m (next_of m cur)
        (if free_of m cur == 0 then bytes else (bytes + size_of m cur) % 2 ^ 32)
        (if free_of m cur == 0 then blocks else (blocks + 1) % 2 ^ 32) in
    if cur == 0 then some (bytes, blocks) else rest

stats_of : ℕ → Option (ℕ × ℕ) → Option HeapStats
stats_of pages none = none
stats_of pages (some (bytes, blocks)) = some (record {
  total_bytes = (pages * page_size) % 2 ^ 32;
  free_bytes = bytes;
  used_bytes = ((pages * page_size) % 2 ^ 32 + 2 ^ 32 - bytes) % 2 ^ 32;
  num_free_blocks = blocks;
  num_pages = pages;
})

pub get_stats : ℕ → Heap → Option HeapStats
get_stats fuel h = stats_of h.heap_pages (stats_walk fuel h.blocks.memory h.blocks.free_list 0 0)
