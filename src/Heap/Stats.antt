-- ===== src/Heap/Stats.antt =====
-- Proofs on `heap_get_stats` of kernel/heap.c.
use magnos.Base.{
  ℕ, zero, suc, ◌+◌, ◌-◌, ◌*◌, ◌^◌, ◌%◌, ◌≤◌, ◌<◌, ◌≡◌, refl, ◌∙◌, ap, ap₂, List, [], ◌∷◌, arith,
  false, length, some, ◌==◌,
}
use magnos.Memory.{Memory}
use magnos.Pmm.{page_size}
use magnos.Heap.{header_size, size_of, free_of, next_of, Heap, stats_walk, stats_of, get_stats}
use magnos.Heap.Chain.{Block, Chain, Laid, footprint, memory_end}

-- The bytes of the blocks without their headers.
unfoldable pub payload : List Block → ℕ
payload [] = 0
payload ((a, n) ∷ bs) = n + payload bs

Laid-footprint : (lo : ℕ) (bs : List Block) → Laid lo bs → lo + footprint bs ≤ memory_end
unfolding footprint
Laid-footprint lo [] l = omega arith
Laid-footprint lo ((a, n) ∷ bs) l = omega (arith, Laid-footprint (a + header_size + n) bs l.1)

payload-footprint : (bs : List Block) → payload bs + header_size * length bs ≡ footprint bs
unfolding payload footprint
payload-footprint [] = refl
payload-footprint ((a, n) ∷ bs) = omega (arith, payload-footprint bs)

stats_walk_step :
    (fuel : ℕ) (m : Memory) (cur bytes blocks n : ℕ)
    → 0 < cur
    → size_of m cur ≡ n
    → free_of m cur ≡ 1
    → bytes + n < 2 ^ 32
    → blocks + 1 < 2 ^ 32
    → stats_walk (suc fuel) m cur bytes blocks
      ≡ stats_walk fuel m (next_of m cur) (bytes + n) (blocks + 1)
unfolding stats_walk
stats_walk_step fuel m cur bytes blocks n pos sz fr h h' =
    let nonzero : (cur == 0) ≡ false = ground arith in
    let sum : (bytes + n) % 2 ^ 32 ≡ bytes + n = omega arith in
    let count : (blocks + 1) % 2 ^ 32 ≡ blocks + 1 = omega arith in
    rw nonzero (rw fr (rw sz (rw sum (rw count refl))))

stats_walk_end :
    (fuel : ℕ) (m : Memory) (cur bytes blocks : ℕ)
    → cur ≡ 0
    → stats_walk (suc fuel) m cur bytes blocks ≡ some (bytes, blocks)
unfolding stats_walk
stats_walk_end fuel m cur bytes blocks e = rw e refl

stats_walk_lem :
    (fuel : ℕ) (m : Memory) (lo p bytes blocks : ℕ) (bs : List Block)
    → length bs < fuel
    → 0 < lo
    → Chain m p bs
    → Laid lo bs
    → bytes + footprint bs < 2 ^ 32
    → blocks + footprint bs < 2 ^ 32
    → stats_walk fuel m p bytes blocks ≡ some (bytes + payload bs, blocks + length bs)
unfolding payload footprint
stats_walk_lem zero m lo p bytes blocks bs h pos c l hb hk = absurd (omega arith)
stats_walk_lem (suc fuel) m lo p bytes blocks [] h pos c l hb hk =
    stats_walk_end fuel m p bytes blocks c ∙ ap₂ (λ s t. some (s, t)) (omega arith) (omega arith)
stats_walk_lem (suc fuel) m lo p bytes blocks ((a, n) ∷ bs) h pos c l hb hk =
    ap (λ q. stats_walk (suc fuel) m q bytes blocks) c.0
    ∙ stats_walk_step fuel m a bytes blocks n (omega arith) c.1 c.2 (omega arith) (omega arith)
    ∙ stats_walk_lem fuel m (a + header_size + n) (next_of m a) (bytes + n) (blocks + 1) bs
        (omega arith) (omega arith) c.3 l.1 (omega arith) (omega arith)
    ∙ ap₂ (λ s t. some (s, t)) (omega arith) (omega arith)

-- `heap_get_stats` of a heap whose free list stands for blocks in order and without overlap, with fuel for the
-- blocks, where the pages take less than 4 GB and hold the free bytes: it reports the bytes of the pages, the bytes of
-- the free blocks without their headers, the difference of the two as used, the number of free blocks and the number
-- of pages.
pub get_stats_lem :
    (fuel : ℕ) (h : Heap) (lo : ℕ) (bs : List Block)
    → length bs < fuel
    → 0 < lo
    → Chain h.blocks.memory h.blocks.free_list bs
    → Laid lo bs
    → h.heap_pages * page_size < 2 ^ 32
    → payload bs ≤ h.heap_pages * page_size
    → get_stats fuel h
      ≡ some (record {
        total_bytes = h.heap_pages * page_size;
        free_bytes = payload bs;
        used_bytes = h.heap_pages * page_size - payload bs;
        num_free_blocks = length bs;
        num_pages = h.heap_pages;
      })
unfolding get_stats stats_of
get_stats_lem fuel h lo bs f pos c l small fits =
    let pages = h.heap_pages in
    let end = Laid-footprint lo bs l in
    let walk =
      stats_walk_lem fuel h.blocks.memory lo h.blocks.free_list 0 0 bs f pos c l (omega arith)
        (omega arith) in
    let total : (pages * page_size) % 2 ^ 32 ≡ pages * page_size = omega arith in
    let used : (pages * page_size + 2 ^ 32 - payload bs) % 2 ^ 32 ≡ pages * page_size - payload bs =
      omega arith in
    let bytes : 0 + payload bs ≡ payload bs = omega arith in
    let blocks : 0 + length bs ≡ length bs = omega arith in
    rw walk (rw total (rw bytes (rw blocks (rw used refl))))
