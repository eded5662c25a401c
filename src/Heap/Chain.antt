-- ===== src/Heap/Chain.antt =====
-- What the memory of the heap stands for: a list of free blocks, each an address and a size.
use magnos.Base.{
  ℕ, ◌+◌, ◌*◌, ◌≤◌, ◌<◌, ◌≡◌, refl, ◌∙◌, List, [], ◌∷◌, ◌⊎◌, arith, true, false, ltb, inl, inr,
  subst, Bool-cases, if◌then◌else◌,
}
use magnos.Memory.{Memory, store, store_ne}
use magnos.Heap.{header_size, size_of, free_of, next_of}

abbrev pub Block : Type 0
Block = ℕ × ℕ

-- From `p` the `next` words lead through the headers of `bs` to NULL.
abbrev pub Chain : Memory → ℕ → List Block → Type 0
Chain m p [] = p ≡ 0
Chain m p ((a, n) ∷ bs) = (p ≡ a) × (size_of m a ≡ n) × (free_of m a ≡ 1) × Chain m (next_of m a) bs

-- The end of the memory that the page allocator hands out.
abbrev pub memory_end : ℕ
memory_end = 16 * 1024 * 1024

-- The blocks lie one behind the other from `lo` on, header and contents, without overlap.
abbrev pub Laid : ℕ → List Block → Type 0
Laid lo [] = lo ≤ memory_end
Laid lo ((a, n) ∷ bs) = (lo ≤ a) × Laid (a + header_size + n) bs

-- The address lies outside the header and the contents of each block.
abbrev pub Outside : ℕ → List Block → Type 0
Outside x [] = Unit {0}
Outside x ((a, n) ∷ bs) = ((x < a) ⊎ (a + header_size + n ≤ x)) × Outside x bs

pub Laid-le : (lo : ℕ) (bs : List Block) → Laid lo bs → lo ≤ memory_end
Laid-le lo [] l = l
Laid-le lo ((a, n) ∷ bs) l = omega (arith, Laid-le (a + header_size + n) bs l.1)

pub Laid-lower : (lo lo' : ℕ) (bs : List Block) → lo' ≤ lo → Laid lo bs → Laid lo' bs
Laid-lower lo lo' [] h l = omega arith
Laid-lower lo lo' ((a, n) ∷ bs) h l = (omega arith, l.1)

-- A chain survives a change below its blocks.
pub Chain-frame :
    (m m' : Memory) (lo p : ℕ) (bs : List Block)
    → Laid lo bs
    → ((x : ℕ) → lo ≤ x → m' x ≡ m x)
    → Chain m p bs
    → Chain m' p bs
Chain-frame m m' lo p [] l same c = c
Chain-frame m m' lo p ((a, n) ∷ bs) (la, l) same (pa, sz, fr, c) = (
  pa,
  same a la ∙ sz,
  same (a + 4) (omega arith) ∙ fr,
  rw (same (a + 8) (omega arith))
      (Chain-frame m m' (a + header_size + n) (next_of m a) bs l (λ x h. same x (omega arith)) c),
)

-- The block put at its place in the order of addresses.
unfoldable pub insert : Block → List Block → List Block
insert b [] = b ∷ []
insert b (c ∷ bs) = if ltb c.0 b.0 then c ∷ insert b bs else b ∷ c ∷ bs

pub Laid-Outside : (lo x : ℕ) (bs : List Block) → Laid lo bs → x < lo → Outside x bs
Laid-Outside lo x [] l h = _
Laid-Outside lo x ((a, n) ∷ bs) (la, l) h =
    (inl (omega arith), Laid-Outside (a + header_size + n) x bs l (omega arith))

-- A chain survives a store outside its blocks.
pub Chain-store :
    (m : Memory) (y v p : ℕ) (bs : List Block)
    → Outside y bs
    → Chain m p bs
    → Chain (store m y v) p bs
Chain-store m y v p [] o c = c
Chain-store m y v p ((a, n) ∷ bs) (oa, o) (pa, sz, fr, c) = (
  pa,
  store_ne m y v a (ground arith) ∙ sz,
  store_ne m y v (a + 4) (ground arith) ∙ fr,
  rw (store_ne m y v (a + 8) (ground arith)) (Chain-store m y v (next_of m a) bs o c),
)

pub insert_nil : (b : Block) → insert b [] ≡ b ∷ []
unfolding insert
insert_nil b = refl

pub insert_before :
    (a n b k : ℕ) (bs : List Block)
    → ltb a b ≡ true
    → insert (b, k) ((a, n) ∷ bs) ≡ (a, n) ∷ insert (b, k) bs
unfolding insert
insert_before a n b k bs e = rw e refl

pub insert_here :
    (a n b k : ℕ) (bs : List Block)
    → ltb a b ≡ false
    → insert (b, k) ((a, n) ∷ bs) ≡ (b, k) ∷ (a, n) ∷ bs
unfolding insert
insert_here a n b k bs e = rw e refl

-- Where an insertion keeps the blocks in order, the block begins behind the lower bound.
pub insert-Laid_le : (lo b k : ℕ) (bs : List Block) → Laid lo (insert (b, k) bs) → lo ≤ b
unfolding insert
insert-Laid_le lo b k [] l = l.0
insert-Laid_le lo b k ((a, n) ∷ bs) l = elim (Bool-cases (ltb a b)) [
  | inl e ↦
      let l' = subst (Laid lo) (insert_before a n b k bs e) l in
      ground (arith, insert-Laid_le (a + header_size + n) b k bs l'.1)
  | inr e ↦ (subst (Laid lo) (insert_here a n b k bs e) l).0
]

-- An address inside an inserted block lies outside the others.
pub insert-Outside :
    (lo b k y : ℕ) (bs : List Block)
    → Laid lo (insert (b, k) bs)
    → b ≤ y
    → y < b + header_size + k
    → Outside y bs
insert-Outside lo b k y [] l h h' = _
insert-Outside lo b k y ((a, n) ∷ bs) l h h' = elim (Bool-cases (ltb a b)) [
  | inl e ↦
      let l' = subst (Laid lo) (insert_before a n b k bs e) l in
      let le = insert-Laid_le (a + header_size + n) b k bs l'.1 in
      (inr (omega arith), insert-Outside (a + header_size + n) b k y bs l'.1 h h')
  | inr e ↦
      let l' = subst (Laid lo) (insert_here a n b k bs e) l in
      let l2 = l'.1.0 in
      (inl (omega arith), Laid-Outside (a + header_size + n) y bs l'.1.1 (omega arith))
]

-- The address of an outside place of an insertion is outside the inserted block and the others.
pub Outside-insert :
    (x b k : ℕ) (bs : List Block)
    → Outside x (insert (b, k) bs)
    → ((x < b) ⊎ (b + header_size + k ≤ x)) × Outside x bs
unfolding insert
Outside-insert x b k [] o = o
Outside-insert x b k ((a, n) ∷ bs) o = elim (Bool-cases (ltb a b)) [
  | inl e ↦
      let o' = subst (Outside x) (insert_before a n b k bs e) o in
      ((Outside-insert x b k bs o'.1).0, (o'.0, (Outside-insert x b k bs o'.1).1))
  | inr e ↦ subst (Outside x) (insert_here a n b k bs e) o
]

-- The bytes that the blocks take, headers included.
unfoldable pub footprint : List Block → ℕ
footprint [] = 0
footprint ((a, n) ∷ bs) = header_size + n + footprint bs
