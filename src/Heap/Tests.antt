-- ===== src/Heap/Tests.antt =====
-- Witnesses and runs on concrete heaps for the proofs on kernel/heap.c.
use magnos.Base.{
  some, ◌%◌, ℕ, ◌≡◌, refl, List, [], ◌∷◌, ◌-◌, ◌<◌, ◌^◌, replicate, arith, if◌then◌else◌, ◌==◌, ◌≤◌,
}
use magnos.Memory.{Memory}
use magnos.Pmm.{Bitmap}
use magnos.Heap.{Blocks, Heap, kfree, kmalloc, round_size, align}
use magnos.Heap.Chain.{footprint, Block, Chain, Laid, insert}
use magnos.Heap.Coalesce.{coalesce_pass}
use magnos.Heap.Split.{taken, remainder}
use magnos.Heap.Search.{keep, first_fit}
use magnos.Heap.Fit.{Mallocs, kmalloc-Mallocs}
use magnos.Heap.Recycle.{kfree-kmalloc}
use magnos.Heap.Free.{Leaves, kfree-Leaves, HasFree, round_size_lem}

-- Two free blocks of 32 bytes at 4096 and 4192, and the header of a block in use at 4144 between them.
header_words : List (ℕ × ℕ)
header_words =
    (4096, 32)
    ∷ (4100, 1)
    ∷ (4104, 4192)
    ∷ (4192, 32)
    ∷ (4196, 1)
    ∷ (4200, 0)
    ∷ (4144, 32)
    ∷ (4148, 0)
    ∷ (4152, 0)
    ∷ []

lookup : List (ℕ × ℕ) → Memory
lookup [] x = 0
lookup ((a, v) ∷ ws) x = let rest = lookup ws x in if x == a then v else rest

abbrev two_free : Blocks
two_free = record { memory = lookup header_words; free_list = 4096 }

abbrev two_blocks : List Block
two_blocks = (4096, 32) ∷ (4192, 32) ∷ []

two_free-Chain : Chain two_free.memory two_free.free_list two_blocks
unfolding lookup header_words
two_free-Chain = (refl, refl, refl, (refl, refl, refl, refl))

two_free-Laid : Laid 4096 (insert (4144, 32) two_blocks)
unfolding insert
two_free-Laid = (omega arith, (omega arith, (omega arith, omega arith)))

kfree-Leaves_example :
    Leaves 4096
      (kfree 4 two_free 4160)
      two_free
      (coalesce_pass (insert (4144, 32) two_blocks))
      (insert (4144, 32) two_blocks)
unfolding lookup header_words
kfree-Leaves_example =
    kfree-Leaves 4 two_free 4096 4144 32 two_blocks (omega arith) (omega arith) two_free-Chain
      two_free-Laid refl

-- A block that is freed between two free ones joins the first, and the pass then leaves the third apart, although it
-- begins where the joined block ends.
coalesce_pass-misses : coalesce_pass (insert (4144, 32) two_blocks) ≡ (4096, 80) ∷ (4192, 32) ∷ []
unfolding insert coalesce_pass
coalesce_pass-misses = refl

-- The pages from 3 to 7 are free.
abbrev five_free : Bitmap
five_free = 7 ∷ replicate 511 255

abbrev small_heap : Heap
small_heap = record { blocks = two_free; heap_pages = 1; bitmap = five_free }

two_blocks-Laid : Laid 4096 two_blocks
two_blocks-Laid = (omega arith, (omega arith, omega arith))

-- The whole first block: 17 bytes are rounded up to 32.
first_fit-two : first_fit (round_size 17) two_blocks ≡ some ((4096, 32), (4192, 32) ∷ [])
unfolding first_fit keep taken remainder round_size
first_fit-two = refl

kmalloc-Mallocs_example :
    Mallocs 4096
      (round_size 17)
      small_heap
      4096
      32
      two_blocks
      ((4192, 32) ∷ [])
      (kmalloc 4 small_heap 17)
kmalloc-Mallocs_example =
    kmalloc-Mallocs 4 small_heap 4096 17 4096 32 two_blocks ((4192, 32) ∷ []) (omega arith)
      (omega arith) (omega arith) two_free-Chain two_blocks-Laid first_fit-two

kfree-kmalloc_example :
    (h' : Heap) × (s : Blocks) × (kmalloc 4 small_heap 17 ≡ some (h', 4112))
    × (kfree 4 h'.blocks 4112 ≡ some s)
    × HasFree s (footprint two_blocks)
kfree-kmalloc_example =
    kfree-kmalloc 4 small_heap 4096 17 4096 32 two_blocks ((4192, 32) ∷ []) (omega arith)
      (omega arith) (omega arith) (omega arith) two_free-Chain two_blocks-Laid first_fit-two

round_size_lem_example :
    (100 ≤ round_size 100) × (round_size 100 < 116) × (round_size 100 % align ≡ 0)
round_size_lem_example = round_size_lem 100 (omega arith) (omega arith)

-- The sum that rounds a size up wraps: a call for almost 4 GB takes 16 bytes.
round_size-wraps : round_size (2 ^ 32 - 1) ≡ 16
unfolding round_size
round_size-wraps = refl
