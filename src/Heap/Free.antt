-- ===== src/Heap/Free.antt =====
-- Proofs on `kfree` and `heap_add_page` of kernel/heap.c.
use magnos.Base.{
  ℕ, suc, ◌+◌, ◌-◌, ◌≤◌, ◌<◌, ◌≡◌, refl, ◌∙◌, ap, List, [], ◌∷◌, inl, inr, arith, false, ltb,
  Bool-cases, length, Option, some, ◌==◌, ◌^◌, ◌%◌,
}
use magnos.Memory.{Memory, store_self, store_two}
use magnos.Pmm
use magnos.Pmm.{Bitmap, page_size}
use magnos.Heap.{
  header_size, align, round_size, size_of, set_size, set_free, Blocks, Heap, list_insert,
  coalesce_walk, insert_and_coalesce, coalesce_list, with_memory, page_added, kfree, heap_add_page,
  page_header,
}
use magnos.Heap.Chain.{
  footprint, Block, Chain, Laid, Outside, Chain-store, insert, insert-Laid_le, insert-Outside,
}
use magnos.Heap.Insert.{list_insert_lem}
use magnos.Heap.Coalesce.{coalesce_pass, coalesce_pass-Laid, coalesce_walk-Walked}

length-insert : (b : Block) (bs : List Block) → length (insert b bs) ≡ suc (length bs)
unfolding insert
length-insert b [] = refl
length-insert b (c ∷ bs) = elim (Bool-cases (ltb c.0 b.0)) [
  | inl e ↦ rw e (ap suc (length-insert b bs))
  | inr e ↦ rw e refl
]

pub footprint-insert :
    (a n : ℕ) (bs : List Block) → footprint (insert (a, n) bs) ≡ footprint bs + header_size + n
unfolding insert footprint
footprint-insert a n [] = omega arith
footprint-insert a n ((b, k) ∷ bs) = elim (Bool-cases (ltb b a)) [
  | inl e ↦ rw e (omega (arith, footprint-insert a n bs))
  | inr e ↦ rw e (omega arith)
]

-- Merging blocks loses no memory: the blocks of a pass take the bytes that the blocks before it took.
pub footprint-coalesce_pass : (bs : List Block) → footprint (coalesce_pass bs) ≡ footprint bs
unfolding footprint coalesce_pass
footprint-coalesce_pass [] = refl
footprint-coalesce_pass ((a, n) ∷ []) = refl
footprint-coalesce_pass ((a, n) ∷ (b, k) ∷ bs) = elim (Bool-cases (a + header_size + n == b)) [
  | inl e ↦ rw e (omega (arith, footprint-coalesce_pass bs))
  | inr e ↦ rw e (omega (arith, footprint-coalesce_pass ((b, k) ∷ bs)))
]

-- What a call leaves: the free list stands for `bs`, in order and apart, and nothing is written outside `ws`.
abbrev pub Leaves : ℕ → Option Blocks → Blocks → List Block → List Block → Type 0
Leaves lo result s bs ws =
    (s' : Blocks) × (result ≡ some s')
    × Chain s'.memory s'.free_list bs
    × Laid lo bs
    × ((x : ℕ) → Outside x ws → s'.memory x ≡ s.memory x)

insert_and_coalesce_run :
    (fuel : ℕ) (s s' : Blocks) (block : ℕ) (m : Memory)
    → list_insert fuel s block ≡ some s'
    → coalesce_walk fuel s'.memory s'.free_list ≡ some m
    → insert_and_coalesce fuel s block ≡ some (record s' { memory = m })
unfolding insert_and_coalesce coalesce_list with_memory
insert_and_coalesce_run fuel s s' block m e e' = rw e (rw e' refl)

pub insert_and_coalesce-Leaves :
    (fuel : ℕ) (s : Blocks) (lo b k : ℕ) (bs : List Block)
    → suc (length bs) < fuel
    → 0 < lo
    → Chain s.memory s.free_list bs
    → Laid lo (insert (b, k) bs)
    → size_of s.memory b ≡ k
    → Leaves lo
        (insert_and_coalesce fuel s b)
        s
        (coalesce_pass (insert (b, k) bs))
        (insert (b, k) bs)
insert_and_coalesce-Leaves fuel s lo b k bs h pos c l sb =
    let (s', run, (chain, same)) = list_insert_lem fuel s lo b k bs (omega arith) pos c l sb in
    let (m', run', (chain', same')) =
      coalesce_walk-Walked fuel s'.memory lo s'.free_list (insert (b, k) bs)
        (rw (length-insert (b, k) bs) h) pos chain l in
    (
      record s' { memory = m' },
      insert_and_coalesce_run fuel s s' b m' run run',
      chain',
      coalesce_pass-Laid lo (insert (b, k) bs) l,
      λ x o. same' x o ∙ same x o,
    )

-- `kfree` of the pointer to a block between the free blocks, with fuel for the blocks, ends. The free list is then
-- one pass over the list with the block at its place, in order of address and without overlap, and no byte outside
-- the free blocks has changed.
pub kfree-Leaves :
    (fuel : ℕ) (s : Blocks) (lo b k : ℕ) (bs : List Block)
    → suc (length bs) < fuel
    → 0 < lo
    → Chain s.memory s.free_list bs
    → Laid lo (insert (b, k) bs)
    → size_of s.memory b ≡ k
    → Leaves lo
        (kfree fuel s (b + header_size))
        s
        (coalesce_pass (insert (b, k) bs))
        (insert (b, k) bs)
unfolding kfree
kfree-Leaves fuel s lo b k bs h pos c l sb =
    let nonnull : (b + header_size == 0) ≡ false = ground arith in
    let at : b + header_size - header_size ≡ b = omega arith in
    rw nonnull (rw at (insert_and_coalesce-Leaves fuel s lo b k bs h pos c l sb))

-- The list stands for free blocks that take `bytes` bytes, headers included.
abbrev pub HasFree : Blocks → ℕ → Type 0
HasFree s bytes = (bs : List Block) × Chain s.memory s.free_list bs × (footprint bs ≡ bytes)

-- `kfree` of the pointer to a block of `k` bytes between the free blocks, with fuel for the blocks, ends, and the
-- free blocks of the list that it leaves take exactly the bytes of the free blocks before and those of the block with
-- its header: merging neither loses nor invents memory.
pub kfree-HasFree :
    (fuel : ℕ) (s : Blocks) (lo b k : ℕ) (bs : List Block)
    → suc (length bs) < fuel
    → 0 < lo
    → Chain s.memory s.free_list bs
    → Laid lo (insert (b, k) bs)
    → size_of s.memory b ≡ k
    → (s' : Blocks) × (kfree fuel s (b + header_size) ≡ some s')
      × HasFree s' (footprint bs + header_size + k)
kfree-HasFree fuel s lo b k bs h pos c l sb =
    let (s', run, chain, laid, same) = kfree-Leaves fuel s lo b k bs h pos c l sb in
    (
      s',
      run,
      (
        coalesce_pass (insert (b, k) bs),
        chain,
        footprint-coalesce_pass (insert (b, k) bs) ∙ footprint-insert b k bs,
      ),
    )

kfree-null : (fuel : ℕ) (s : Blocks) → kfree fuel s 0 ≡ some s
unfolding kfree
kfree-null fuel s = refl

-- The size that `kmalloc` works with: a multiple of 16 that is at least the size asked for and less than 16 above it,
-- for sizes up to 2 ^ 32 - 16.
pub round_size_lem :
    (size : ℕ)
    → 0 < size
    → size ≤ 2 ^ 32 - align
    → (size ≤ round_size size) × (round_size size < size + align) × (round_size size % align ≡ 0)
unfolding round_size
round_size_lem size pos h = (ground arith, ground arith, ground arith)

-- A chain survives the header that is written into a new page.
page_header-Chain :
    (m : Memory) (lo page p : ℕ) (bs : List Block)
    → Laid lo (insert (page, page_size - header_size) bs)
    → Chain m p bs
    → Chain (page_header m page) p bs
unfolding page_header
page_header-Chain m lo page p bs l c =
    let out : (y : ℕ) → page ≤ y → y < page + header_size → Outside y bs =
      λ y h h'. insert-Outside lo page (page_size - header_size) y bs l h (omega arith) in
    let m1 : Memory = set_size m page (page_size - header_size) in
    Chain-store (set_free m1 page 1) (page + 8) 0 p bs (out (page + 8) (omega arith) (omega arith))
      (Chain-store m1 (page + 4) 1 p bs (out (page + 4) (omega arith) (omega arith)) (
        Chain-store m page (page_size - header_size) p bs (out page (omega arith) (omega arith)) c))

page_header_size :
    (m : Memory) (page : ℕ) → size_of (page_header m page) page ≡ page_size - header_size
unfolding page_header
page_header_size m page =
    store_two (set_size m page (page_size - header_size)) (page + 4) 1 (page + 8) 0 page
      (omega arith) (omega arith)
    ∙ store_self m page (page_size - header_size)

heap_add_page_run :
    (fuel : ℕ) (h : Heap) (bitmap : Bitmap) (page : ℕ) (s : Blocks)
    → Pmm.alloc h.bitmap ≡ (bitmap, page)
    → 0 < page
    → insert_and_coalesce fuel (record h.blocks { memory = page_header h.blocks.memory page }) page
      ≡ some s
    → heap_add_page fuel h
      ≡ some
          (record { blocks = s; heap_pages = (h.heap_pages + 1) % 2 ^ 32; bitmap = bitmap }, page)
unfolding heap_add_page page_added
heap_add_page_run fuel h bitmap page s e pos run =
    let nonzero : (page == 0) ≡ false = ground arith in rw e (rw nonzero (rw run refl))

-- What a call of `heap_add_page` that has a page leaves: the free list of `bs` with the page.
abbrev pub Grows : ℕ → ℕ → Heap → Bitmap → ℕ → List Block → Type 0
Grows fuel lo h bitmap page bs =
    (h' : Heap) × (heap_add_page fuel h ≡ some (h', page))
    × Chain h'.blocks.memory h'.blocks.free_list
        (coalesce_pass (insert (page, page_size - header_size) bs))
    × Laid lo (coalesce_pass (insert (page, page_size - header_size) bs))
    × (h'.heap_pages ≡ (h.heap_pages + 1) % 2 ^ 32)
    × (h'.bitmap ≡ bitmap)

-- `heap_add_page`, where the page allocator has a page that lies between the free blocks, puts the page into the
-- free list as one block of the page less its header and merges; the list stays in order and without overlap, the
-- count of pages grows by one, and the bitmap is the one of the page allocator.
pub heap_add_page-Grows :
    (fuel : ℕ) (h : Heap) (bitmap : Bitmap) (lo page : ℕ) (bs : List Block)
    → suc (length bs) < fuel
    → 0 < lo
    → Chain h.blocks.memory h.blocks.free_list bs
    → Pmm.alloc h.bitmap ≡ (bitmap, page)
    → Laid lo (insert (page, page_size - header_size) bs)
    → Grows fuel lo h bitmap page bs
heap_add_page-Grows fuel h bitmap lo page bs f pos c e l =
    let s : Blocks = record h.blocks { memory = page_header h.blocks.memory page } in
    let (s', run, chain, laid, same) =
      insert_and_coalesce-Leaves fuel s lo page (page_size - header_size) bs f pos
        (page_header-Chain h.blocks.memory lo page h.blocks.free_list bs l c) l
        (page_header_size h.blocks.memory page) in
    let le = insert-Laid_le lo page (page_size - header_size) bs l in
    (
      record { blocks = s'; heap_pages = (h.heap_pages + 1) % 2 ^ 32; bitmap = bitmap },
      heap_add_page_run fuel h bitmap page s' e (omega arith) run,
      chain,
      laid,
      refl,
      refl,
    )
