-- ===== src/Elf/Copy.antt =====
-- What `memcpy` and `memset` of kernel/elf.c do to the bytes of the memory.
use magnos.Base.{
  ℕ, zero, suc, ◌+◌, ◌^◌, ◌≤◌, ◌<◌, ◌≡◌, refl, ◌∙◌, ap, Bool-cases, inl, inr, ◌⊎◌, arith, ◌==◌,
}
use magnos.Memory.{store, store_self, store_ne}
use magnos.Elf.{Bytes, at, memcpy, memset}

-- Outside the `n` bytes from `d` on.
abbrev pub Outside : ℕ → ℕ → ℕ → Type 0
Outside d n a = (a < d) ⊎ (d + n ≤ a)

-- `n` bytes from `d` on and `n` bytes from `s` on.
abbrev pub Apart : ℕ → ℕ → ℕ → Type 0
Apart d s n = (d + n ≤ s) ⊎ (s + n ≤ d)

pub memcpy-Outside :
    (n : ℕ) (m : Bytes) (d s : ℕ)
    → d + n < 2 ^ 32
    → s + n < 2 ^ 32
    → (a : ℕ) → Outside d n a
    → memcpy n m d s a ≡ m a
unfolding memcpy
memcpy-Outside zero m d s hd hs a o = refl
memcpy-Outside (suc n) m d s hd hs a o =
    let to : at d 1 ≡ d + 1 = omega arith in
    let from : at s 1 ≡ s + 1 = omega arith in
    rw to (
      rw from (
        memcpy-Outside n (store m d (m s)) (d + 1) (s + 1) (omega arith) (omega arith) a
          (ground arith)
        ∙ store_ne m d (m s) a (ground arith)))

-- The bytes of the destination are those of the source, if the two do not overlap.
pub memcpy-inside :
    (n : ℕ) (m : Bytes) (d s : ℕ)
    → d + n < 2 ^ 32
    → s + n < 2 ^ 32
    → Apart d s n
    → (i : ℕ) → i < n
    → memcpy n m d s (d + i) ≡ m (s + i)
unfolding memcpy
memcpy-inside zero m d s hd hs apart i h = absurd (omega arith)
memcpy-inside (suc n) m d s hd hs apart zero h =
    let to : at d 1 ≡ d + 1 = omega arith in
    let from : at s 1 ≡ s + 1 = omega arith in
    rw to (
      rw from (
        memcpy-Outside n (store m d (m s)) (d + 1) (s + 1) (omega arith) (omega arith) (d + 0)
          (inl (omega arith))
        ∙ ap (store m d (m s)) (omega arith)
        ∙ store_self m d (m s)
        ∙ ap m (omega arith)))
memcpy-inside (suc n) m d s hd hs apart (suc i) h =
    let to : at d 1 ≡ d + 1 = omega arith in
    let from : at s 1 ≡ s + 1 = omega arith in
    rw to (
      rw from (
        ap (memcpy n (store m d (m s)) (d + 1) (s + 1)) (omega arith)
        ∙ memcpy-inside n (store m d (m s)) (d + 1) (s + 1) (omega arith) (omega arith)
            (ground arith) i (omega arith)
        ∙ store_ne m d (m s) (s + 1 + i) (ground arith)
        ∙ ap m (omega arith)))

pub memset-Outside :
    (n : ℕ) (m : Bytes) (d : ℕ) → d + n < 2 ^ 32 → (a : ℕ) → Outside d n a → memset n m d a ≡ m a
unfolding memset
memset-Outside zero m d hd a o = refl
memset-Outside (suc n) m d hd a o =
    let to : at d 1 ≡ d + 1 = omega arith in
    rw to (
      memset-Outside n (store m d 0) (d + 1) (omega arith) a (ground arith)
      ∙ store_ne m d 0 a (ground arith))

pub memset-inside :
    (n : ℕ) (m : Bytes) (d : ℕ) → d + n < 2 ^ 32 → (a : ℕ) → d ≤ a → a < d + n → memset n m d a ≡ 0
unfolding memset
memset-inside zero m d hd a le lt = absurd (omega arith)
memset-inside (suc n) m d hd a le lt =
    let to : at d 1 ≡ d + 1 = omega arith in
    rw to (elim (Bool-cases (a == d)) [
      | inl e ↦
          let here : a ≡ d = ground arith in
          memset-Outside n (store m d 0) (d + 1) (omega arith) a (inl (omega arith))
          ∙ ap (store m d 0) here
          ∙ store_self m d 0
      | inr e ↦ memset-inside n (store m d 0) (d + 1) (omega arith) a (ground arith) (omega arith)
    ])
