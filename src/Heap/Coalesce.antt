-- ===== src/Heap/Coalesce.antt =====
-- Proofs on `coalesce_forward` of kernel/heap.c and on the pass over the list that calls it.
use magnos.Base.{
  ℕ, zero, suc, ◌+◌, ◌≤◌, ◌<◌, ◌≡◌, ◌≢◌, refl, sym, ◌∙◌, ap, subst, List, [], ◌∷◌, inl, inr, arith,
  true, false, if◌then◌else◌, Bool-cases, length, some, ◌==◌, ◌^◌, ◌%◌,
}
use magnos.Memory.{Memory, store_self, store_ne, store_two}
use magnos.Heap.{
  header_size, size_of, free_of, next_of, set_size, set_next, coalesce_forward, coalesce_walk,
}
use magnos.Heap.Chain.{
  Block, Chain, Laid, Laid-le, Laid-lower, Outside, Laid-Outside, Chain-frame, memory_end,
}

-- What one pass makes of the list: a block takes in the next one if it ends where that begins, and the pass goes on
-- with the block after the one that was taken in.
unfoldable pub coalesce_pass : List Block → List Block
coalesce_pass [] = []
coalesce_pass ((a, n) ∷ []) = (a, n) ∷ []
coalesce_pass ((a, n) ∷ (b, k) ∷ bs) =
    let merged = coalesce_pass bs in
    let apart = coalesce_pass ((b, k) ∷ bs) in
    if a + header_size + n == b then (a, n + header_size + k) ∷ merged else (a, n) ∷ apart

pub coalesce_pass-merge :
    (a n b k : ℕ) (bs : List Block)
    → (a + header_size + n == b) ≡ true
    → coalesce_pass ((a, n) ∷ (b, k) ∷ bs) ≡ (a, n + header_size + k) ∷ coalesce_pass bs
unfolding coalesce_pass
coalesce_pass-merge a n b k bs e = rw e refl

pub coalesce_pass-apart :
    (a n b k : ℕ) (bs : List Block)
    → (a + header_size + n == b) ≡ false
    → coalesce_pass ((a, n) ∷ (b, k) ∷ bs) ≡ (a, n) ∷ coalesce_pass ((b, k) ∷ bs)
unfolding coalesce_pass
coalesce_pass-apart a n b k bs e = rw e refl

-- A pass keeps the blocks in order and apart.
pub coalesce_pass-Laid : (lo : ℕ) (bs : List Block) → Laid lo bs → Laid lo (coalesce_pass bs)
unfolding coalesce_pass
coalesce_pass-Laid lo [] l = l
coalesce_pass-Laid lo ((a, n) ∷ []) l = l
coalesce_pass-Laid lo ((a, n) ∷ (b, k) ∷ bs) (la, (lb, l)) =
    elim (Bool-cases (a + header_size + n == b)) [
      | inl e ↦ rw e (
        la,
        coalesce_pass-Laid (a + header_size + (n + header_size + k)) bs (
            Laid-lower (b + header_size + k) (a + header_size + (n + header_size + k)) bs
              (ground arith) l),
      )
      | inr e ↦ rw e (la, coalesce_pass-Laid (a + header_size + n) ((b, k) ∷ bs) (lb, l))
    ]

coalesce_forward-last : (m : Memory) (a : ℕ) → next_of m a ≡ 0 → coalesce_forward m a ≡ m
unfolding coalesce_forward
coalesce_forward-last m a e = rw e refl

coalesce_forward-apart :
    (m : Memory) (a n b : ℕ)
    → next_of m a ≡ b
    → size_of m a ≡ n
    → a + header_size + n ≤ memory_end
    → (a + header_size + n == b) ≡ false
    → coalesce_forward m a ≡ m
unfolding coalesce_forward
coalesce_forward-apart m a n b nx sz h e =
    let small : (a + header_size + n) % 2 ^ 32 ≡ a + header_size + n = omega arith in
    rw nx (rw sz (rw small (rw e (ground arith))))

coalesce_forward-merge :
    (m : Memory) (a n b k : ℕ)
    → next_of m a ≡ b
    → size_of m a ≡ n
    → size_of m b ≡ k
    → free_of m b ≡ 1
    → b + header_size + k ≤ memory_end
    → (a + header_size + n == b) ≡ true
    → coalesce_forward m a ≡ set_next (set_size m a (n + header_size + k)) a (next_of m b)
unfolding coalesce_forward
coalesce_forward-merge m a n b k nx sz szb fr h e =
    let small : (a + header_size + n) % 2 ^ 32 ≡ a + header_size + n = ground arith in
    let sum : (n + header_size + k) % 2 ^ 32 ≡ n + header_size + k = ground arith in
    let nonzero : (b == 0) ≡ false = ground arith in
    rw nx (rw sz (rw szb (rw fr (rw small (rw sum (rw e (rw nonzero refl)))))))

coalesce_walk-end : (fuel : ℕ) (m : Memory) (p : ℕ) → p ≡ 0 → coalesce_walk (suc fuel) m p ≡ some m
unfolding coalesce_walk
coalesce_walk-end fuel m p e = rw e refl

coalesce_walk-step :
    (fuel : ℕ) (m m1 : Memory) (p : ℕ)
    → 0 < p
    → coalesce_forward m p ≡ m1
    → coalesce_walk (suc fuel) m p ≡ coalesce_walk fuel m1 (next_of m1 p)
unfolding coalesce_walk
coalesce_walk-step fuel m m1 p pos e =
    let nonzero : (p == 0) ≡ false = ground arith in rw nonzero (rw e refl)

-- What the pass leaves: the merged list, and the memory outside the blocks.
abbrev pub Coalesced : Memory → Memory → ℕ → List Block → Type 0
Coalesced m m' p bs = Chain m' p (coalesce_pass bs) × ((x : ℕ) → Outside x bs → m' x ≡ m x)

-- The block at `a` in front of a list that the pass has gone over.
Chain-extend :
    (m1 m' : Memory) (lo a n : ℕ) (bs cs : List Block)
    → size_of m1 a ≡ n
    → free_of m1 a ≡ 1
    → a + header_size ≤ lo
    → Laid lo bs
    → Chain m' (next_of m1 a) cs
    → ((x : ℕ) → Outside x bs → m' x ≡ m1 x)
    → Chain m' a ((a, n) ∷ cs)
Chain-extend m1 m' lo a n bs cs sz fr le l c same =
    let keeps : (x : ℕ) → x < lo → m' x ≡ m1 x = λ x h. same x (Laid-Outside lo x bs l h) in
    (
      refl,
      keeps a (omega arith) ∙ sz,
      keeps (a + 4) (omega arith) ∙ fr,
      rw (keeps (a + 8) (omega arith)) c,
    )

-- The pass from `p` ends, and leaves that.
abbrev pub Walked : ℕ → Memory → ℕ → List Block → Type 0
Walked fuel m p bs = (m' : Memory) × (coalesce_walk fuel m p ≡ some m') × Coalesced m m' p bs

Walked-nil : (fuel : ℕ) (m : Memory) (p : ℕ) → p ≡ 0 → Walked (suc fuel) m p []
unfolding coalesce_pass
Walked-nil fuel m p e = (m, coalesce_walk-end fuel m p e, (e, λ x o. refl))

Walked-last :
    (fuel : ℕ) (m : Memory) (a n : ℕ)
    → 0 < fuel
    → 0 < a
    → Chain m a ((a, n) ∷ [])
    → Walked (suc fuel) m a ((a, n) ∷ [])
unfolding coalesce_pass
Walked-last zero m a n f pos c = absurd (omega arith)
Walked-last (suc fuel) m a n f pos c = (
  m,
  coalesce_walk-step (suc fuel) m m a pos (coalesce_forward-last m a c.3)
      ∙ coalesce_walk-end fuel m (next_of m a) c.3,
  (c, λ x o. refl),
)

-- The memory behind a merge at `a`.
abbrev merged : Memory → ℕ → ℕ → ℕ → Memory
merged m a n q = set_next (set_size m a n) a q

merged_same : (m : Memory) (a n q x : ℕ) → x ≢ a → x ≢ a + 8 → merged m a n q x ≡ m x
merged_same m a n q x h h' = store_two m a n (a + 8) q x h h'

merged_size : (m : Memory) (a n q : ℕ) → merged m a n q a ≡ n
merged_size m a n q = store_ne (set_size m a n) (a + 8) q a (omega arith) ∙ store_self m a n

Walked-merge :
    (fuel : ℕ) (m : Memory) (a n b k : ℕ) (bs : List Block)
    → 0 < a
    → Chain m a ((a, n) ∷ (b, k) ∷ bs)
    → Laid (b + header_size + k) bs
    → (a + header_size + n == b) ≡ true
    → Walked fuel (merged m a (n + header_size + k) (next_of m b)) (next_of m b) bs
    → Walked (suc fuel) m a ((a, n) ∷ (b, k) ∷ bs)
Walked-merge fuel m a n b k bs pos (pa, sz, fr, c) l e (m', run, (chain, same)) =
    let j : ℕ = n + header_size + k in
    let q : ℕ = next_of m b in
    let m1 : Memory = merged m a j q in
    let nx : next_of m1 a ≡ q = store_self (set_size m a j) (a + 8) q in
    (
      m',
      coalesce_walk-step fuel m m1 a pos
            (coalesce_forward-merge m a n b k c.0 sz c.1 c.2 (Laid-le (b + header_size + k) bs l) e)
          ∙ ap (coalesce_walk fuel m1) nx
          ∙ run,
      rw (coalesce_pass-merge a n b k bs e) (
        Chain-extend m1 m' (b + header_size + k) a j bs (coalesce_pass bs) (merged_size m a j q)
            (merged_same m a j q (a + 4) (omega arith) (omega arith) ∙ fr) (ground arith) l
            (rw nx chain) same,
        λ x o. same x o.1.1 ∙ merged_same m a j q x (ground arith) (ground arith),
      ),
    )

Walked-apart :
    (fuel : ℕ) (m : Memory) (a n b k : ℕ) (bs : List Block)
    → 0 < a
    → Chain m a ((a, n) ∷ (b, k) ∷ bs)
    → Laid (a + header_size + n) ((b, k) ∷ bs)
    → (a + header_size + n == b) ≡ false
    → Walked fuel m (next_of m a) ((b, k) ∷ bs)
    → Walked (suc fuel) m a ((a, n) ∷ (b, k) ∷ bs)
Walked-apart fuel m a n b k bs pos (pa, sz, fr, c) l e (m', run, (chain, same)) = (
  m',
  coalesce_walk-step fuel m m a pos
        (coalesce_forward-apart m a n b c.0 sz (Laid-le (a + header_size + n) ((b, k) ∷ bs) l) e)
      ∙ run,
  rw (coalesce_pass-apart a n b k bs e) (
    Chain-extend m m' (a + header_size + n) a n ((b, k) ∷ bs) (coalesce_pass ((b, k) ∷ bs)) sz fr
        (omega arith) l chain same,
    λ x o. same x o.1,
  ),
)

-- The pass over a list in order of address, with fuel for each block and the end.
pub coalesce_walk-Walked :
    (fuel : ℕ) (m : Memory) (lo p : ℕ) (bs : List Block)
    → length bs < fuel
    → 0 < lo
    → Chain m p bs
    → Laid lo bs
    → Walked fuel m p bs
coalesce_walk-Walked zero m lo p bs h pos c l = absurd (omega arith)
coalesce_walk-Walked (suc fuel) m lo p [] h pos c l = Walked-nil fuel m p c
coalesce_walk-Walked (suc fuel) m lo p ((a, n) ∷ []) h pos c l =
    subst (λ q. Walked (suc fuel) m q ((a, n) ∷ [])) (sym c.0)
      (Walked-last fuel m a n (omega arith) (omega arith) (refl, c.1, c.2, c.3))
coalesce_walk-Walked (suc fuel) m lo p ((a, n) ∷ (b, k) ∷ bs) h pos c (la, (lb, l)) =
    subst (λ q. Walked (suc fuel) m q ((a, n) ∷ (b, k) ∷ bs)) (sym c.0)
      (elim (Bool-cases (a + header_size + n == b)) [
        | inl e ↦
            let m1 = merged m a (n + header_size + k) (next_of m b) in
            let c1 =
              Chain-frame m m1 (b + header_size + k) (next_of m b) bs l
                (λ x h.
                  merged_same m a (n + header_size + k) (next_of m b) x (omega arith) (omega arith))
                c.3.3 in
            Walked-merge fuel m a n b k bs (omega arith) (refl, c.1, c.2, c.3) l e
              (coalesce_walk-Walked fuel m1 (b + header_size + k) (next_of m b) bs (omega arith)
                (omega arith) c1 l)
        | inr e ↦
            Walked-apart fuel m a n b k bs (omega arith) (refl, c.1, c.2, c.3) (lb, l) e
              (coalesce_walk-Walked fuel m (a + header_size + n) (next_of m a) ((b, k) ∷ bs)
                (omega arith) (omega arith) c.3 (lb, l))
      ])
