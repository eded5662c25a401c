-- ===== src/Heap/Split.antt =====
-- Proofs on the split of a block in `kmalloc` of kernel/heap.c.
use magnos.Base.{
  ℕ, ◌+◌, ◌-◌, ◌≤◌, ◌≡◌, ◌≢◌, refl, sym, ◌∙◌, ap, subst, List, ◌∷◌, inl, inr, arith, true, false,
  leb, if◌then◌else◌, Bool-cases, ◌^◌, ◌%◌,
}
use magnos.Memory.{Memory, store}
use magnos.Heap.{header_size, min_alloc, size_of, next_of, split, split_if}
use magnos.Heap.Chain.{Block, Chain, Laid, Laid-le, Laid-lower, Outside, Chain-frame, memory_end}

-- The part of a block of `n` bytes that a call for `size` bytes takes, and what stays behind it.
unfoldable pub taken : ℕ → ℕ → ℕ
taken n size = if leb (size + header_size + min_alloc) n then size else n

unfoldable pub remainder : ℕ → ℕ → ℕ → List Block → List Block
remainder a n size bs =
    if leb (size + header_size + min_alloc) n
    then (a + header_size + size, n - size - header_size) ∷ bs
    else bs

pub remainder-Laid :
    (a n size : ℕ) (bs : List Block)
    → Laid (a + header_size + n) bs
    → size ≤ n
    → Laid (a + header_size + taken n size) (remainder a n size bs)
unfolding taken remainder
remainder-Laid a n size bs l h = elim (Bool-cases (leb (size + header_size + min_alloc) n)) [
  | inl e ↦ rw e (
    omega arith,
    Laid-lower (a + header_size + n)
        (a + header_size + size + header_size + (n - size - header_size)) bs (ground arith) l,
  )
  | inr e ↦ rw e l
]

-- Words of the memory behind a split at `a` into `size` bytes and a new block at `b`.
module _ (m : Memory) (a b size : ℕ) (at : (a + header_size + size) % 2 ^ 32 ≡ b)
    (le : a + header_size ≤ b) where
  split_size : split m a size a ≡ size
  unfolding split store
  split_size = rw at (ground arith)

  split_next : split m a size (a + 8) ≡ b
  unfolding split store
  split_next = rw at (ground arith)

  split_new_size : split m a size b ≡ size_of m a - size - header_size
  unfolding split store
  split_new_size = rw at (ground arith)

  split_new_free : split m a size (b + 4) ≡ 1
  unfolding split store
  split_new_free = rw at (ground arith)

  split_new_next : split m a size (b + 8) ≡ next_of m a
  unfolding split store
  split_new_next = rw at (ground arith)

  split_other : (x : ℕ) → x ≢ a → x ≢ a + 8 → x ≢ b → x ≢ b + 4 → x ≢ b + 8 → split m a size x ≡ m x
  unfolding split store
  split_other x h1 h2 h3 h4 h5 = rw at (ground arith)

split_if-split :
    (m : Memory) (a n size : ℕ)
    → size_of m a ≡ n
    → size ≤ memory_end
    → leb (size + header_size + min_alloc) n ≡ true
    → split_if m a size ≡ split m a size
unfolding split_if
split_if-split m a n size sz h e =
    let wrap : (size + header_size + min_alloc) % 2 ^ 32 ≡ size + header_size + min_alloc =
      omega arith in
    rw sz (rw wrap (rw e refl))

split_if-whole :
    (m : Memory) (a n size : ℕ)
    → size_of m a ≡ n
    → size ≤ memory_end
    → leb (size + header_size + min_alloc) n ≡ false
    → split_if m a size ≡ m
unfolding split_if
split_if-whole m a n size sz h e =
    let wrap : (size + header_size + min_alloc) % 2 ^ 32 ≡ size + header_size + min_alloc =
      omega arith in
    rw sz (rw wrap (rw e refl))

-- A memory in which the block at `a` is the part taken, in front of the rest, and that is as before outside the block.
abbrev pub Parted : Memory → Memory → ℕ → ℕ → ℕ → List Block → Type 0
Parted m m' a n size bs =
    Chain m' a ((a, taken n size) ∷ remainder a n size bs)
    × ((x : ℕ) → Outside x ((a, n) ∷ bs) → m' x ≡ m x)

split-Parted :
    (m : Memory) (a n size : ℕ) (bs : List Block)
    → Chain m a ((a, n) ∷ bs)
    → Laid (a + header_size + n) bs
    → leb (size + header_size + min_alloc) n ≡ true
    → Parted m (split m a size) a n size bs
unfolding taken remainder
split-Parted m a n size bs (pa, sz, fr, c) l e =
    let end = Laid-le (a + header_size + n) bs l in
    let fits : size + header_size + min_alloc ≤ n = ground arith in
    let b : ℕ = a + header_size + size in
    let at : (a + header_size + size) % 2 ^ 32 ≡ b = omega arith in
    let le : a + header_size ≤ b = omega arith in
    let same = split_other m a b size at le in
    rw e (
      (
        refl,
        split_size m a b size at le,
        same (a + 4) (omega arith) (omega arith) (omega arith) (omega arith) (omega arith) ∙ fr,
        (
          split_next m a b size at le,
          split_new_size m a b size at le ∙ ap (λ t. t - size - header_size) sz,
          split_new_free m a b size at le,
          rw (split_new_next m a b size at le) (
              Chain-frame m (split m a size) (a + header_size + n) (next_of m a) bs l
                (λ x h.
                  same x (omega arith) (omega arith) (omega arith) (omega arith) (omega arith))
                c),
        ),
      ),
      λ x o. same x (ground arith) (ground arith) (ground arith) (ground arith) (ground arith),
    )

pub split_if-Parted :
    (m : Memory) (a n size : ℕ) (bs : List Block)
    → Chain m a ((a, n) ∷ bs)
    → Laid (a + header_size + n) bs
    → size ≤ n
    → Parted m (split_if m a size) a n size bs
unfolding taken remainder
split_if-Parted m a n size bs c l h =
    let end = Laid-le (a + header_size + n) bs l in
    elim (Bool-cases (leb (size + header_size + min_alloc) n)) [
      | inl e ↦
          subst (λ m'. Parted m m' a n size bs)
            (sym (split_if-split m a n size c.1 (omega arith) e)) (split-Parted m a n size bs c l e)
      | inr e ↦
          subst (λ m'. Parted m m' a n size bs)
            (sym (split_if-whole m a n size c.1 (omega arith) e)) (rw e (c, λ x o. refl))
    ]
