-- ===== src/Heap/Insert.antt =====
-- Proofs on `list_insert` of kernel/heap.c: the list gains the block at its place.
use magnos.Base.{
  ℕ, zero, suc, ◌+◌, ◌≤◌, ◌<◌, ◌≡◌, ◌≢◌, refl, ◌∙◌, ap, subst, List, [], ◌∷◌, inl, inr, arith, true,
  false, ltb, Bool-cases, length, some, not, ◌&&◌, ◌||◌, ◌==◌,
}
use magnos.Memory.{Memory, store_self, store_ne, store_two}
use magnos.Heap.{
  header_size, size_of, free_of, next_of, set_free, set_next, Blocks, insert_walk, list_insert,
}
use magnos.Heap.Chain.{
  Block, Chain, Laid, Outside, Laid-Outside, Chain-frame, Chain-store, insert, insert_nil,
  insert_before, insert_here, insert-Laid_le, insert-Outside, Outside-insert,
}

-- The two writes behind the loop.
link :
    (m : Memory) (a n b k : ℕ) (bs : List Block)
    → Chain m a ((a, n) ∷ bs)
    → a + header_size + n ≤ b
    → Laid (b + header_size + k) bs
    → size_of m b ≡ k
    → free_of m b ≡ 1
    → Chain (set_next (set_next m b (next_of m a)) a b) a ((a, n) ∷ (b, k) ∷ bs)
link m a n b k bs (pa, sz, fr, c) le l sb fb =
    let m' : Memory = set_next (set_next m b (next_of m a)) a b in
    let same : (z : ℕ) → z ≢ b + 8 → z ≢ a + 8 → m' z ≡ m z =
      λ z h h'. store_two m (b + 8) (next_of m a) (a + 8) b z h h' in
    let next_b : m' (b + 8) ≡ next_of m a =
      store_ne (set_next m b (next_of m a)) (a + 8) b (b + 8) (omega arith)
      ∙ store_self m (b + 8) (next_of m a) in
    (
      refl,
      same a (omega arith) (omega arith) ∙ sz,
      same (a + 4) (omega arith) (omega arith) ∙ fr,
      (
        store_self (set_next m b (next_of m a)) (a + 8) b,
        same b (omega arith) (omega arith) ∙ sb,
        same (b + 4) (omega arith) (omega arith) ∙ fb,
        rw next_b (
            Chain-frame m m' (b + header_size + k) (next_of m a) bs l
              (λ x h. same x (omega arith) (omega arith)) c),
      ),
    )

-- The result of an insertion into the chain from `a`: it contains the block, and only the header of the block and
-- that of a block of the list have changed.
abbrev pub Inserted : Memory → Memory → ℕ → ℕ → ℕ → ℕ → List Block → Type 0
Inserted m m' a n b k bs =
    Chain m' a ((a, n) ∷ insert (b, k) bs)
    × ((x : ℕ) → x ≢ a + 8 → Outside x (insert (b, k) bs) → m' x ≡ m x)

insert_walk-stop :
    (fuel : ℕ) (m : Memory) (cur b : ℕ)
    → (not (next_of m cur == 0) && ltb (next_of m cur) b) ≡ false
    → insert_walk (suc fuel) m cur b ≡ some (set_next (set_next m b (next_of m cur)) cur b)
unfolding insert_walk
insert_walk-stop fuel m cur b e = rw e refl

insert_walk-go :
    (fuel : ℕ) (m : Memory) (cur b : ℕ)
    → (not (next_of m cur == 0) && ltb (next_of m cur) b) ≡ true
    → insert_walk (suc fuel) m cur b ≡ insert_walk fuel m (next_of m cur) b
unfolding insert_walk
insert_walk-go fuel m cur b e = rw e refl

-- The insertion behind `a`, before `bs`.
Inserted-link :
    (fuel : ℕ) (m : Memory) (a n b k : ℕ) (bs : List Block)
    → Chain m a ((a, n) ∷ bs)
    → a + header_size + n ≤ b
    → Laid (b + header_size + k) bs
    → insert (b, k) bs ≡ (b, k) ∷ bs
    → size_of m b ≡ k
    → free_of m b ≡ 1
    → (not (next_of m a == 0) && ltb (next_of m a) b) ≡ false
    → (m' : Memory) × (insert_walk (suc fuel) m a b ≡ some m') × Inserted m m' a n b k bs
Inserted-link fuel m a n b k bs c le l here sb fb stop = (
  set_next (set_next m b (next_of m a)) a b,
  insert_walk-stop fuel m a b stop,
  rw here (
    link m a n b k bs c le l sb fb,
    λ x h o. store_two m (b + 8) (next_of m a) (a + 8) b x (ground arith) h,
  ),
)

-- The loop finds the place of the block, with fuel for each block behind the current one.
insert_walk_lem :
    (fuel : ℕ) (m : Memory) (a n b k : ℕ) (bs : List Block)
    → length bs < fuel
    → Chain m a ((a, n) ∷ bs)
    → Laid (a + header_size + n) (insert (b, k) bs)
    → size_of m b ≡ k
    → free_of m b ≡ 1
    → (m' : Memory) × (insert_walk fuel m a b ≡ some m') × Inserted m m' a n b k bs
insert_walk_lem zero m a n b k bs h c l sb fb = absurd (omega arith)
insert_walk_lem (suc fuel) m a n b k [] h c l sb fb =
    Inserted-link fuel m a n b k [] c (insert-Laid_le (a + header_size + n) b k [] l)
      (subst (Laid (a + header_size + n)) (insert_nil (b, k)) l).1 (insert_nil (b, k)) sb fb
      (rw c.3 refl)
insert_walk_lem (suc fuel) m a n b k ((d, j) ∷ bs) h (pa, sz, fr, c) l sb fb =
    elim (Bool-cases (ltb d b)) [
      | inl e ↦
          let l' = subst (Laid (a + header_size + n)) (insert_before d j b k bs e) l in
          let (m', run, (chain, same)) =
            insert_walk_lem fuel m d j b k bs (omega arith) (refl, c.1, c.2, c.3) l'.1 sb fb in
          let keeps : (x : ℕ) → x < d → m' x ≡ m x = λ x lt.
            same x (omega arith)
              (Laid-Outside (d + header_size + j) x (insert (b, k) bs) l'.1 (omega arith)) in
          (
            m',
            insert_walk-go fuel m a b (rw c.0 (ground arith))
                ∙ ap (λ p. insert_walk fuel m p b) c.0
                ∙ run,
            rw (insert_before d j b k bs e) (
              (
                refl,
                keeps a (omega arith) ∙ sz,
                keeps (a + 4) (omega arith) ∙ fr,
                rw (keeps (a + 8) (omega arith)) (c.0, chain.1, chain.2, chain.3),
              ),
              λ x ne o. same x (ground arith) o.1,
            ),
          )
      | inr e ↦
          let l' = subst (Laid (a + header_size + n)) (insert_here d j b k bs e) l in
          Inserted-link fuel m a n b k ((d, j) ∷ bs) (pa, sz, fr, c) l'.0 l'.1
            (insert_here d j b k bs e) sb fb (rw c.0 (ground arith))
    ]

list_insert-head :
    (fuel : ℕ) (s : Blocks) (block : ℕ)
    → (s.free_list == 0 || ltb block s.free_list) ≡ true
    → list_insert fuel s block
      ≡ some (record {
        memory = set_next (set_free s.memory block 1) block s.free_list;
        free_list = block;
      })
unfolding list_insert
list_insert-head fuel s block e = rw e refl

list_insert-walk :
    (fuel : ℕ) (s : Blocks) (block : ℕ) (m' : Memory)
    → (s.free_list == 0 || ltb block s.free_list) ≡ false
    → insert_walk fuel (set_free s.memory block 1) s.free_list block ≡ some m'
    → list_insert fuel s block ≡ some (record { memory = m'; free_list = s.free_list })
unfolding list_insert
list_insert-walk fuel s block m' e run = rw e (rw run refl)

-- What `list_insert` leaves: the list with the block, and the rest of the memory.
abbrev pub Extended : Blocks → Blocks → List Block → Type 0
Extended s s' bs =
    Chain s'.memory s'.free_list bs × ((x : ℕ) → Outside x bs → s'.memory x ≡ s.memory x)

-- The block becomes the head of the list.
Extended-head :
    (fuel : ℕ) (s : Blocks) (b k : ℕ) (bs : List Block)
    → Chain s.memory s.free_list bs
    → Laid (b + header_size + k) bs
    → size_of s.memory b ≡ k
    → (s.free_list == 0 || ltb b s.free_list) ≡ true
    → (s' : Blocks) × (list_insert fuel s b ≡ some s') × Extended s s' ((b, k) ∷ bs)
Extended-head fuel s b k bs c l sb e =
    let m1 : Memory = set_free s.memory b 1 in
    let m' : Memory = set_next m1 b s.free_list in
    let same : (z : ℕ) → z ≢ b + 4 → z ≢ b + 8 → m' z ≡ s.memory z =
      λ z h h'. store_two s.memory (b + 4) 1 (b + 8) s.free_list z h h' in
    (
      record { memory = m'; free_list = b },
      list_insert-head fuel s b e,
      (
        (
          refl,
          same b (omega arith) (omega arith) ∙ sb,
          store_ne m1 (b + 8) s.free_list (b + 4) (omega arith) ∙ store_self s.memory (b + 4) 1,
          rw (store_self m1 (b + 8) s.free_list) (
              Chain-frame s.memory m' (b + header_size + k) s.free_list bs l
                (λ x h. same x (omega arith) (omega arith)) c),
        ),
        λ x o. same x (ground arith) (ground arith),
      ),
    )

-- The insertion of a block that keeps the blocks in order, with fuel for each block of the list.
pub list_insert_lem :
    (fuel : ℕ) (s : Blocks) (lo b k : ℕ) (bs : List Block)
    → length bs ≤ fuel
    → 0 < lo
    → Chain s.memory s.free_list bs
    → Laid lo (insert (b, k) bs)
    → size_of s.memory b ≡ k
    → (s' : Blocks) × (list_insert fuel s b ≡ some s') × Extended s s' (insert (b, k) bs)
list_insert_lem fuel s lo b k [] h pos c l sb =
    rw (insert_nil (b, k))
      (Extended-head fuel s b k [] c (subst (Laid lo) (insert_nil (b, k)) l).1 sb (ground arith))
list_insert_lem fuel s lo b k ((a, n) ∷ bs) h pos c l sb = elim (Bool-cases (ltb a b)) [
  | inl e ↦
      let l' = subst (Laid lo) (insert_before a n b k bs e) l in
      let m1 : Memory = set_free s.memory b 1 in
      let le = insert-Laid_le (a + header_size + n) b k bs l'.1 in
      let c1 =
        Chain-store s.memory (b + 4) 1 s.free_list ((a, n) ∷ bs)
          (insert-Outside lo b k (b + 4) ((a, n) ∷ bs) l (omega arith) (omega arith)) c in
      let (m', run, (chain, same)) =
        insert_walk_lem fuel m1 a n b k bs (omega arith) (refl, c1.1, c1.2, c1.3) l'.1
          (store_ne s.memory (b + 4) 1 b (omega arith) ∙ sb) (store_self s.memory (b + 4) 1) in
      (
        record { memory = m'; free_list = s.free_list },
        list_insert-walk fuel s b m' (rw c.0 (ground arith))
            (ap (λ p. insert_walk fuel m1 p b) c.0 ∙ run),
        rw (insert_before a n b k bs e) (
          (c.0, chain.1, chain.2, chain.3),
          λ x o.
              same x (ground arith) o.1
              ∙ store_ne s.memory (b + 4) 1 x (ground (arith, Outside-insert x b k bs o.1)),
        ),
      )
  | inr e ↦
      let l' = subst (Laid lo) (insert_here a n b k bs e) l in
      rw (insert_here a n b k bs e)
        (Extended-head fuel s b k ((a, n) ∷ bs) c l'.1 sb (rw c.0 (ground arith)))
]
