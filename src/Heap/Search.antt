-- ===== src/Heap/Search.antt =====
-- Proofs on the search of `kmalloc` of kernel/heap.c against first fit on a list of blocks.
use magnos.Base.{
  ℕ, suc, ◌+◌, ◌<◌, ◌≡◌, ◌≢◌, refl, ◌∙◌, ap, List, [], ◌∷◌, inl, arith, true, false, leb,
  if◌then◌else◌, Option, none, some, ◌==◌,
}
use magnos.Memory.{Memory, store_self, store_ne, store_two}
use magnos.Heap.{
  header_size, size_of, free_of, next_of, set_free, set_next, Blocks, split_if, unlink, search,
}
use magnos.Heap.Chain.{Block, Chain, Laid, Outside, Laid-Outside, Chain-frame}
use magnos.Heap.Split.{taken, remainder, remainder-Laid, split_if-Parted}

-- First fit: the block found and the blocks that stay.
unfoldable pub keep : Block → Option (Block × List Block) → Option (Block × List Block)
keep b none = none
keep b (some (c, bs)) = some (c, b ∷ bs)

unfoldable pub first_fit : ℕ → List Block → Option (Block × List Block)
first_fit size [] = none
first_fit size ((a, n) ∷ bs) =
    let rest = keep (a, n) (first_fit size bs) in
    if leb size n then some ((a, taken n size), remainder a n size bs) else rest

pub first_fit-nil : (size : ℕ) → first_fit size [] ≡ none
unfolding first_fit
first_fit-nil size = refl

pub first_fit-here :
    (a n size : ℕ) (bs : List Block)
    → leb size n ≡ true
    → first_fit size ((a, n) ∷ bs) ≡ some ((a, taken n size), remainder a n size bs)
unfolding first_fit
first_fit-here a n size bs e = rw e refl

pub first_fit-later :
    (a n size : ℕ) (bs : List Block)
    → leb size n ≡ false
    → first_fit size ((a, n) ∷ bs) ≡ keep (a, n) (first_fit size bs)
unfolding first_fit
first_fit-later a n size bs e = rw e refl

pub search-null :
    (fuel : ℕ) (m : Memory) (fl prev cur size : ℕ)
    → cur ≡ 0
    → search (suc fuel) m fl prev cur size ≡ some none
unfolding search
search-null fuel m fl prev cur size e = rw e refl

pub search-here :
    (fuel : ℕ) (m : Memory) (fl prev cur size n : ℕ)
    → 0 < cur
    → size_of m cur ≡ n
    → free_of m cur ≡ 1
    → leb size n ≡ true
    → search (suc fuel) m fl prev cur size
      ≡ some (some (unlink (split_if m cur size) fl prev cur, cur + header_size))
unfolding search
search-here fuel m fl prev cur size n pos sz fr e =
    let nonzero : (cur == 0) ≡ false = ground arith in rw nonzero (rw sz (rw fr (rw e refl)))

pub search-later :
    (fuel : ℕ) (m : Memory) (fl prev cur size n : ℕ)
    → 0 < cur
    → size_of m cur ≡ n
    → leb size n ≡ false
    → search (suc fuel) m fl prev cur size ≡ search fuel m fl cur (next_of m cur) size
unfolding search
search-later fuel m fl prev cur size n pos sz e =
    let nonzero : (cur == 0) ≡ false = ground arith in rw nonzero (rw sz (rw e (ground arith)))

-- The memory behind `unlink` of `cur` behind `q`, and at the head of the list.
abbrev unlinked : Memory → ℕ → ℕ → Memory
unlinked m q cur = set_next (set_next (set_free m cur 0) q (next_of m cur)) cur 0

abbrev pub unlinked_head : Memory → ℕ → Memory
unlinked_head m cur = set_next (set_free m cur 0) cur 0

unlink-behind :
    (m : Memory) (fl q cur : ℕ)
    → 0 < q
    → unlink m fl q cur ≡ record { memory = unlinked m q cur; free_list = fl }
unfolding unlink
unlink-behind m fl q cur pos =
    let nonzero : (q == 0) ≡ false = ground arith in
    rw nonzero (rw (store_ne m (cur + 4) 0 (cur + 8) (omega arith)) refl)

pub unlink-head :
    (m : Memory) (fl cur : ℕ)
    → unlink m fl 0 cur ≡ record { memory = unlinked_head m cur; free_list = next_of m cur }
unfolding unlink
unlink-head m fl cur = rw (store_ne m (cur + 4) 0 (cur + 8) (omega arith)) refl

unlinked_same :
    (m : Memory) (q cur x : ℕ) → x ≢ cur + 4 → x ≢ q + 8 → x ≢ cur + 8 → unlinked m q cur x ≡ m x
unlinked_same m q cur x h1 h2 h3 =
    store_ne (set_next (set_free m cur 0) q (next_of m cur)) (cur + 8) 0 x h3
    ∙ store_two m (cur + 4) 0 (q + 8) (next_of m cur) x h1 h2

unlinked_next : (m : Memory) (q cur : ℕ) → q ≢ cur → unlinked m q cur (q + 8) ≡ next_of m cur
unlinked_next m q cur h =
    store_ne (set_next (set_free m cur 0) q (next_of m cur)) (cur + 8) 0 (q + 8) (ground arith)
    ∙ store_self (set_free m cur 0) (q + 8) (next_of m cur)

unlinked_free : (m : Memory) (q cur : ℕ) → cur + 4 ≢ q + 8 → unlinked m q cur (cur + 4) ≡ 0
unlinked_free m q cur h =
    store_two (set_free m cur 0) (q + 8) (next_of m cur) (cur + 8) 0 (cur + 4) h (omega arith)
    ∙ store_self m (cur + 4) 0

-- What the search behind the block at `q` of `j` bytes finds: nothing, or a block of `k` bytes that is taken out of
-- the list, marked as in use.
abbrev pub Behind :
    ℕ
    → Memory
    → ℕ
    → ℕ
    → List Block
    → Option (Option (Blocks × ℕ))
    → Option (Block × List Block)
    → Type 0
Behind fl m q j bs result none = result ≡ some none
Behind fl m q j bs result (some ((a, k), rest)) =
    (m' : Memory) × (result ≡ some (some (record { memory = m'; free_list = fl }, a + header_size)))
    × Chain m' q ((q, j) ∷ rest)
    × (size_of m' a ≡ k)
    × (free_of m' a ≡ 0)
    × ((x : ℕ) → x ≢ q + 8 → Outside x bs → m' x ≡ m x)

-- The block behind `q` is the one.
pub Behind-here :
    (fuel : ℕ) (m : Memory) (fl q j a n size : ℕ) (bs : List Block)
    → 0 < q
    → Chain m q ((q, j) ∷ (a, n) ∷ bs)
    → Laid (q + header_size + j) ((a, n) ∷ bs)
    → leb size n ≡ true
    → Behind fl m q j
        ((a, n) ∷ bs)
        (search (suc fuel) m fl q a size)
        (some ((a, taken n size), remainder a n size bs))
Behind-here fuel m fl q j a n size bs pos (pq, sz, fr, c) (la, l) e =
    let (chain, same) = split_if-Parted m a n size bs (refl, c.1, c.2, c.3) l (ground arith) in
    let m1 : Memory = split_if m a size in
    let m' : Memory = unlinked m1 q a in
    let below : (x : ℕ) → x < a → m1 x ≡ m x =
      λ x h. same x (inl h, Laid-Outside (a + header_size + n) x bs l (omega arith)) in
    (
      m',
      search-here fuel m fl q a size n (omega arith) c.1 c.2 e
          ∙ ap (λ b. some (some (b, a + header_size))) (unlink-behind m1 fl q a pos),
      (
        refl,
        unlinked_same m1 q a q (omega arith) (omega arith) (omega arith)
            ∙ below q (omega arith)
            ∙ sz,
        unlinked_same m1 q a (q + 4) (omega arith) (omega arith) (omega arith)
            ∙ below (q + 4) (omega arith)
            ∙ fr,
        rw (unlinked_next m1 q a (omega arith)) (
            Chain-frame m1 m' (a + header_size + taken n size) (next_of m1 a)
              (remainder a n size bs) (remainder-Laid a n size bs l (ground arith))
              (λ x h. unlinked_same m1 q a x (omega arith) (omega arith) (omega arith)) chain.3),
      ),
      unlinked_same m1 q a a (omega arith) (omega arith) (omega arith) ∙ chain.1,
      unlinked_free m1 q a (omega arith),
      λ x h o. unlinked_same m1 q a x (ground arith) h (ground arith) ∙ same x o,
    )
