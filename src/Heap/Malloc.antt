-- ===== src/Heap/Malloc.antt =====
-- Proofs on `kmalloc` of kernel/heap.c: it takes the first block that is large enough.
use magnos.Base.{
  ℕ, zero, suc, ◌+◌, ◌≤◌, ◌<◌, ◌≡◌, ◌≢◌, refl, sym, ◌∙◌, ap, subst, List, [], ◌∷◌, inl, inr, arith,
  true, leb, Bool-cases, length, Option, none, some,
}
use magnos.Memory.{Memory, store_self, store_ne, store_two}
use magnos.Heap.{header_size, size_of, free_of, next_of, set_free, Blocks, split_if, search}
use magnos.Heap.Chain.{Block, Chain, Laid, Outside, Laid-Outside, Chain-frame}
use magnos.Heap.Split.{taken, remainder, remainder-Laid, split_if-Parted}
use magnos.Heap.Search.{
  keep, first_fit, first_fit-nil, first_fit-here, first_fit-later, search-null, search-here,
  search-later, Behind, Behind-here, unlinked_head, unlink-head,
}

-- The search goes past a block that is too small.
Behind-keep :
    (fl : ℕ) (m : Memory) (q j c i : ℕ) (bs : List Block) (result : Option (Option (Blocks × ℕ)))
    (fit : Option (Block × List Block))
    → Chain m q ((q, j) ∷ (c, i) ∷ bs)
    → q + header_size + j ≤ c
    → Laid (c + header_size + i) bs
    → Behind fl m c i bs result fit
    → Behind fl m q j ((c, i) ∷ bs) result (keep (c, i) fit)
unfolding keep
Behind-keep fl m q j c i bs result none ch le l b = b
Behind-keep fl m q j c i bs result (some ((a, k), rest)) (pq, sz, fr, c1) le l
      (m', run, chain, sa, fa, same) =
    let keeps : (x : ℕ) → x < c → m' x ≡ m x =
      λ x h. same x (omega arith) (Laid-Outside (c + header_size + i) x bs l (omega arith)) in
    (
      m',
      run,
      (
        refl,
        keeps q (omega arith) ∙ sz,
        keeps (q + 4) (omega arith) ∙ fr,
        rw (keeps (q + 8) (omega arith)) (c1.0, chain.1, chain.2, chain.3),
      ),
      sa,
      fa,
      λ x h o. same x (ground arith) o.1,
    )

-- The search behind a block finds what first fit finds.
search-Behind :
    (fuel : ℕ) (m : Memory) (fl q j size : ℕ) (bs : List Block)
    → length bs < fuel
    → 0 < q
    → Chain m q ((q, j) ∷ bs)
    → Laid (q + header_size + j) bs
    → Behind fl m q j bs (search fuel m fl q (next_of m q) size) (first_fit size bs)
search-Behind zero m fl q j size bs h pos c l = absurd (omega arith)
search-Behind (suc fuel) m fl q j size [] h pos c l =
    subst (Behind fl m q j [] (search (suc fuel) m fl q (next_of m q) size))
      (sym (first_fit-nil size)) (search-null fuel m fl q (next_of m q) size c.3)
search-Behind (suc fuel) m fl q j size ((a, n) ∷ bs) h pos (pq, sz, fr, c) (la, l) =
    rw c.0 (elim (Bool-cases (leb size n)) [
      | inl e ↦
          rw (first_fit-here a n size bs e)
            (Behind-here fuel m fl q j a n size bs pos (pq, sz, fr, c) (la, l) e)
      | inr e ↦ rw (first_fit-later a n size bs e) (
          rw (search-later fuel m fl q a size n (omega arith) c.1 e) (
            Behind-keep fl m q j a n bs (search fuel m fl a (next_of m a) size) (first_fit size bs)
              (pq, sz, fr, c) la l
              (search-Behind fuel m fl a n size bs (omega arith) (omega arith) (refl, c.1, c.2, c.3)
                l)))
    ])

-- What the search from the head of the list finds.
abbrev pub Fits :
    Blocks → List Block → Option (Option (Blocks × ℕ)) → Option (Block × List Block) → Type 0
Fits s bs result none = result ≡ some none
Fits s bs result (some ((a, k), rest)) =
    (s' : Blocks) × (result ≡ some (some (s', a + header_size)))
    × Chain s'.memory s'.free_list rest
    × (size_of s'.memory a ≡ k)
    × (free_of s'.memory a ≡ 0)
    × ((x : ℕ) → Outside x bs → s'.memory x ≡ s.memory x)

-- The head of the list is the block.
Fits-head :
    (fuel : ℕ) (s : Blocks) (a n size : ℕ) (bs : List Block)
    → 0 < a
    → Chain s.memory a ((a, n) ∷ bs)
    → Laid (a + header_size + n) bs
    → leb size n ≡ true
    → Fits s
        ((a, n) ∷ bs)
        (search (suc fuel) s.memory a 0 a size)
        (some ((a, taken n size), remainder a n size bs))
Fits-head fuel s a n size bs pos (pa, sz, fr, c) l e =
    let (chain, same) = split_if-Parted s.memory a n size bs (refl, sz, fr, c) l (ground arith) in
    let m1 : Memory = split_if s.memory a size in
    let m' : Memory = unlinked_head m1 a in
    let as_before : (x : ℕ) → x ≢ a + 4 → x ≢ a + 8 → m' x ≡ m1 x =
      λ x h h'. store_two m1 (a + 4) 0 (a + 8) 0 x h h' in
    (
      record { memory = m'; free_list = next_of m1 a },
      search-here fuel s.memory a 0 a size n pos sz fr e
          ∙ ap (λ b. some (some (b, a + header_size))) (unlink-head m1 a a),
      Chain-frame m1 m' (a + header_size + taken n size) (next_of m1 a) (remainder a n size bs)
          (remainder-Laid a n size bs l (ground arith))
          (λ x h. as_before x (omega arith) (omega arith)) chain.3,
      as_before a (omega arith) (omega arith) ∙ chain.1,
      store_ne (set_free m1 a 0) (a + 8) 0 (a + 4) (omega arith) ∙ store_self m1 (a + 4) 0,
      λ x o. as_before x (ground arith) (ground arith) ∙ same x o,
    )

-- The head of the list is too small.
Fits-Behind :
    (s : Blocks) (c i : ℕ) (bs : List Block) (result : Option (Option (Blocks × ℕ)))
    (fit : Option (Block × List Block))
    → s.free_list ≡ c
    → Behind s.free_list s.memory c i bs result fit
    → Fits s ((c, i) ∷ bs) result (keep (c, i) fit)
unfolding keep
Fits-Behind s c i bs result none e b = b
Fits-Behind s c i bs result (some ((a, k), rest)) e (m', run, chain, sa, fa, same) = (
  record { memory = m'; free_list = s.free_list },
  run,
  (e, chain.1, chain.2, chain.3),
  sa,
  fa,
  λ x o. same x (ground arith) o.1,
)

pub search-Fits :
    (fuel : ℕ) (s : Blocks) (lo size : ℕ) (bs : List Block)
    → length bs < fuel
    → 0 < lo
    → Chain s.memory s.free_list bs
    → Laid lo bs
    → Fits s bs (search fuel s.memory s.free_list 0 s.free_list size) (first_fit size bs)
search-Fits zero s lo size bs h pos c l = absurd (omega arith)
search-Fits (suc fuel) s lo size [] h pos c l =
    subst (Fits s [] (search (suc fuel) s.memory s.free_list 0 s.free_list size))
      (sym (first_fit-nil size)) (search-null fuel s.memory s.free_list 0 s.free_list size c)
search-Fits (suc fuel) s lo size ((a, n) ∷ bs) h pos c l = elim (Bool-cases (leb size n)) [
  | inl e ↦
      rw (first_fit-here a n size bs e)
        (rw c.0 (Fits-head fuel s a n size bs (omega arith) (refl, c.1, c.2, c.3) l.1 e))
  | inr e ↦
      let m = s.memory in
      let fl = s.free_list in
      let step : search (suc fuel) m fl 0 fl size ≡ search fuel m fl a (next_of m a) size =
        ap (λ t. search (suc fuel) m fl 0 t size) c.0
        ∙ search-later fuel m fl 0 a size n (omega arith) c.1 e in
      rw (first_fit-later a n size bs e) (
        Fits-Behind s a n bs (search (suc fuel) m fl 0 fl size) (first_fit size bs) c.0 (
          subst (λ r. Behind fl m a n bs r (first_fit size bs)) (sym step)
            (search-Behind fuel m fl a n size bs (omega arith) (omega arith) (refl, c.1, c.2, c.3)
              l.1)))
]
