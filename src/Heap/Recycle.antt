-- ===== src/Heap/Recycle.antt =====
-- `kfree` of kernel/heap.c after `kmalloc`.
use magnos.Base.{ℕ, suc, ◌+◌, ◌<◌, ◌≡◌, List, some, length, subst}
use magnos.Heap.{header_size, Blocks, Heap, kmalloc, kfree, round_size}
use magnos.Heap.Chain.{Block, Chain, Laid, footprint}
use magnos.Heap.Search.{first_fit}
use magnos.Heap.Fit.{kmalloc-Mallocs}
use magnos.Heap.Free.{HasFree, kfree-HasFree}

-- Where first fit picks a block from a free list in order and without overlap, with fuel for the blocks before and
-- after: `kmalloc` returns a pointer, and `kfree` of that pointer gives back every byte, so that the free blocks take
-- as many bytes as they did at first.
pub kfree-kmalloc :
    (fuel : ℕ) (h : Heap) (lo size a k : ℕ) (bs rest : List Block)
    → length bs < fuel
    → suc (length rest) < fuel
    → 0 < lo
    → 0 < size
    → Chain h.blocks.memory h.blocks.free_list bs
    → Laid lo bs
    → first_fit (round_size size) bs ≡ some ((a, k), rest)
    → (h' : Heap) × (s : Blocks) × (kmalloc fuel h size ≡ some (h', a + header_size))
      × (kfree fuel h'.blocks (a + header_size) ≡ some s)
      × HasFree s (footprint bs)
kfree-kmalloc fuel h lo size a k bs rest f f' pos pos' c l e =
    let (h', run, chain, sz, fr, le, bytes, laid, same) =
      kmalloc-Mallocs fuel h lo size a k bs rest f pos pos' c l e in
    let (s, freed, has) = kfree-HasFree fuel h'.blocks lo a k rest f' pos chain laid sz in
    (h', s, run, freed, subst (HasFree s) bytes has)
