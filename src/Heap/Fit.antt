-- ===== src/Heap/Fit.antt =====
-- Proofs on `kmalloc` of kernel/heap.c where the free list has a block that is large enough.
use magnos.Base.{
  ℕ, ◌+◌, ◌≤◌, ◌<◌, ◌≡◌, refl, sym, subst, List, [], ◌∷◌, inl, inr, arith, false, leb, Bool-cases,
  length, Option, none, some, ◌==◌,
}
use magnos.Heap.{
  header_size, min_alloc, size_of, free_of, Blocks, Heap, search, search_list, malloc_rounded,
  found, kmalloc, round_size,
}
use magnos.Heap.Chain.{
  Block, Chain, Laid, Outside, insert, insert_nil, insert_here, insert_before, insert-Laid_le,
  footprint,
}
use magnos.Heap.Split.{taken, remainder, remainder-Laid}
use magnos.Heap.Search.{keep, first_fit}
use magnos.Heap.Malloc.{Fits, search-Fits}

insert_first : (lo a k : ℕ) (bs : List Block) → a < lo → Laid lo bs → insert (a, k) bs ≡ (a, k) ∷ bs
insert_first lo a k [] h l = insert_nil (a, k)
insert_first lo a k ((b, n) ∷ bs) h l = insert_here b n a k bs (ground arith)

-- The block picked is large enough, it and the rest take the bytes of the list, and it can go back between them.
abbrev pub Picks : ℕ → ℕ → List Block → Option (Block × List Block) → Type 0
Picks lo size bs none = Unit {0}
Picks lo size bs (some ((a, k), rest)) =
    (size ≤ k) × (footprint rest + header_size + k ≡ footprint bs) × Laid lo (insert (a, k) rest)

taken-footprint :
    (a n size : ℕ) (bs : List Block)
    → size ≤ n
    → (size ≤ taken n size)
      × (footprint (remainder a n size bs) + header_size + taken n size
          ≡ footprint bs + header_size + n)
unfolding taken remainder footprint
taken-footprint a n size bs h = elim (Bool-cases (leb (size + header_size + min_alloc) n)) [
  | inl e ↦ rw e (omega arith, ground arith)
  | inr e ↦ rw e (h, refl)
]

Picks-keep :
    (lo size a n : ℕ) (bs : List Block) (fit : Option (Block × List Block))
    → lo ≤ a
    → Picks (a + header_size + n) size bs fit
    → Picks lo size ((a, n) ∷ bs) (keep (a, n) fit)
unfolding keep footprint
Picks-keep lo size a n bs none h p = _
Picks-keep lo size a n bs (some ((b, k), rest)) h (le, fp, l) =
    let before = insert-Laid_le (a + header_size + n) b k rest l in
    (le, omega arith, subst (Laid lo) (sym (insert_before a n b k rest (ground arith))) (h, l))

first_fit-Picks :
    (lo size : ℕ) (bs : List Block) → Laid lo bs → Picks lo size bs (first_fit size bs)
unfolding first_fit footprint
first_fit-Picks lo size [] l = _
first_fit-Picks lo size ((a, n) ∷ bs) (h, l) = elim (Bool-cases (leb size n)) [
  | inl e ↦
      let le : size ≤ n = ground arith in
      let laid = remainder-Laid a n size bs l le in
      rw e (
        (taken-footprint a n size bs le).0,
        omega (arith, (taken-footprint a n size bs le).1),
        subst (Laid lo)
            (sym (
              insert_first (a + header_size + taken n size) a (taken n size) (remainder a n size bs)
                (omega arith) laid))
            (h, laid),
      )
  | inr e ↦ rw e (
      Picks-keep lo size a n bs (first_fit size bs) h
        (first_fit-Picks (a + header_size + n) size bs l))
]

kmalloc-found :
    (fuel : ℕ) (h : Heap) (size ptr : ℕ) (s : Blocks)
    → 0 < size
    → search_list fuel h (round_size size) ≡ some (some (s, ptr))
    → kmalloc fuel h size ≡ some (record h { blocks = s }, ptr)
unfolding kmalloc malloc_rounded found
kmalloc-found fuel h size ptr s pos e =
    let nonzero : (size == 0) ≡ false = ground arith in rw nonzero (rw e refl)

-- What a call of `kmalloc` returns: a pointer behind the header of a block of `k` bytes, taken out of the list and
-- marked as in use; `size` bytes fit in it, the free list loses its bytes, and the block can go back between the free ones.
abbrev pub Mallocs : ℕ → ℕ → Heap → ℕ → ℕ → List Block → List Block → Option (Heap × ℕ) → Type 0
Mallocs lo size h a k bs rest result =
    (h' : Heap) × (result ≡ some (h', a + header_size))
    × Chain h'.blocks.memory h'.blocks.free_list rest
    × (size_of h'.blocks.memory a ≡ k)
    × (free_of h'.blocks.memory a ≡ 0)
    × (size ≤ k)
    × (footprint rest + header_size + k ≡ footprint bs)
    × Laid lo (insert (a, k) rest)
    × ((x : ℕ) → Outside x bs → h'.blocks.memory x ≡ h.blocks.memory x)

-- `kmalloc` of `size` bytes, where the free list is in order and without overlap and first fit picks from it the
-- block at `a` with `k` bytes and leaves `rest`, and where there is fuel for the blocks: it returns the pointer behind
-- the header of that block, which is marked as in use and can hold the rounded size; the free list is then `rest`,
-- which takes exactly the bytes that the block does not take; the block does not overlap it; and no byte outside
-- the blocks that were free has changed.
pub kmalloc-Mallocs :
    (fuel : ℕ) (h : Heap) (lo size a k : ℕ) (bs rest : List Block)
    → length bs < fuel
    → 0 < lo
    → 0 < size
    → Chain h.blocks.memory h.blocks.free_list bs
    → Laid lo bs
    → first_fit (round_size size) bs ≡ some ((a, k), rest)
    → Mallocs lo (round_size size) h a k bs rest (kmalloc fuel h size)
unfolding search_list
kmalloc-Mallocs fuel h lo size a k bs rest f pos pos' c l e =
    let fit =
      subst
        (Fits h.blocks bs
          (search fuel h.blocks.memory h.blocks.free_list 0 h.blocks.free_list (round_size size)))
        e (search-Fits fuel h.blocks lo (round_size size) bs f pos c l) in
    let (s', run, chain, sz, fr, same) = fit in
    let (le, bytes, laid) =
      subst (Picks lo (round_size size) bs) e (first_fit-Picks lo (round_size size) bs l) in
    (
      record h { blocks = s' },
      kmalloc-found fuel h size (a + header_size) s' pos' run,
      chain,
      sz,
      fr,
      le,
      bytes,
      laid,
      same,
    )
