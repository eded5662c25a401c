-- ===== src/Base/Search.antt =====
-- The counted loop that stops at the first index passing a test, `for (i = lo; i < hi; i++) if
-- (c(i)) ...`, and the loop that counts such indices.
use Prim.Native.Nat.{ℕ, zero, suc, ◌+◌, ◌≤◌, ◌<◌}
use mathlib.Core.Path.{◌≡◌, refl, ap}
use mathlib.Core.Logic.{inl, inr}
use mathlib.Core.Bool.{Bool, true, false, not, ◌&&◌}
use mathlib.Core.Option.{Option, none, some}
use native.Mathlib.Omega.{arith}
use magnos.Base.Tests.{◌==◌, if◌then◌else◌, Bool-cases}

-- `n` rounds from index `lo` on.
unfoldable pub find_from : (ℕ → Bool) → ℕ → ℕ → Option ℕ
find_from c zero lo = none
find_from c (suc n) lo = let rest = find_from c n (lo + 1) in if c lo then some lo else rest

unfoldable pub count_from : (ℕ → Bool) → ℕ → ℕ → ℕ → ℕ
count_from c zero lo acc = acc
count_from c (suc n) lo acc = count_from c n (lo + 1) (if c lo then acc + 1 else acc)

-- The least index of `[lo, hi)` that passes, or none passes.
abbrev pub IsFirst : (ℕ → Bool) → ℕ → ℕ → Option ℕ → Type 0
IsFirst c lo hi none = (j : ℕ) → lo ≤ j → j < hi → c j ≡ false
IsFirst c lo hi (some k) =
    (lo ≤ k) × (k < hi) × (c k ≡ true) × ((j : ℕ) → lo ≤ j → j < k → c j ≡ false)

IsFirst-skip :
    (c : ℕ → Bool) (lo hi : ℕ) (r : Option ℕ)
    → c lo ≡ false
    → IsFirst c (lo + 1) hi r
    → IsFirst c lo hi r
IsFirst-skip c lo hi none e h =
    λ j le lt. elim (Bool-cases (j == lo)) [ inl p ↦ ground arith | inr p ↦ h j (ground arith) lt ]
IsFirst-skip c lo hi (some k) e h = (
  omega arith,
  h.1,
  h.2,
  λ j le lt. elim (Bool-cases (j == lo)) [ inl p ↦ ground arith | inr p ↦ h.3 j (ground arith) lt ],
)

pub find_from-IsFirst :
    (c : ℕ → Bool) (n lo hi : ℕ) → lo + n ≡ hi → IsFirst c lo hi (find_from c n lo)
unfolding find_from
find_from-IsFirst c zero lo hi e = λ j le lt. absurd (omega arith)
find_from-IsFirst c (suc n) lo hi e = elim (Bool-cases (c lo)) [
  | inl p ↦ rw p (omega arith, omega arith, p, λ j le lt. absurd (omega arith))
  | inr p ↦ rw p (IsFirst-skip c lo hi _ p (find_from-IsFirst c n (lo + 1) hi (omega arith)))
]

pub IsFirst-unique :
    (c : ℕ → Bool) (lo hi : ℕ) (r r' : Option ℕ) → IsFirst c lo hi r → IsFirst c lo hi r' → r ≡ r'
IsFirst-unique c lo hi none none h h' = refl
IsFirst-unique c lo hi none (some k) h h' = ground (arith, h k)
IsFirst-unique c lo hi (some k) none h h' = ground (arith, h' k)
IsFirst-unique c lo hi (some k) (some k') h h' = ground (arith, h.3 k', h'.3 k)

abbrev pub or_else : Option ℕ → Option ℕ → Option ℕ
or_else none r = r
or_else (some k) r = some k

-- A long search is a search of its first part, then of the rest.
pub find_from-add :
    (c : ℕ → Bool) (n m lo mid k : ℕ)
    → n + m ≡ k
    → lo + n ≡ mid
    → find_from c k lo ≡ or_else (find_from c n lo) (find_from c m mid)
unfolding find_from
find_from-add c zero m lo mid k e e' =
    let ek : k ≡ m = omega arith in let em : mid ≡ lo = omega arith in rw (ek, em)
find_from-add c (suc n) m lo mid k e e' =
    let ek : k ≡ suc (n + m) = omega arith in
    let rest = find_from-add c n m (lo + 1) mid (n + m) refl (omega arith) in
    rw ek (elim (Bool-cases (c lo)) [ inl p ↦ rw p refl | inr p ↦ rw p rest ])

-- Searching a shifted test.
pub find_from-shift :
    (c d : ℕ → Bool) (off n lo : ℕ)
    → ((j : ℕ) → lo ≤ j → j < lo + n → c (off + j) ≡ d j)
    → find_from c n (off + lo) ≡ elim (find_from d n lo) [ none ↦ none | some k ↦ some (off + k) ]
unfolding find_from
find_from-shift c d off zero lo h = refl
find_from-shift c d off (suc n) lo h =
    let e : off + lo + 1 ≡ off + (lo + 1) = omega arith in
    let rest = find_from-shift c d off n (lo + 1) (λ j le lt. h j (omega arith) (omega arith)) in
    let here = h lo (omega arith) (omega arith) in
    elim (Bool-cases (d lo)) [ inl p ↦ ground arith | inr p ↦ ground (arith, ap (find_from c n) e) ]

pub count_from-acc :
    (c : ℕ → Bool) (n lo acc : ℕ) → count_from c n lo acc ≡ acc + count_from c n lo 0
unfolding count_from
count_from-acc c zero lo acc = omega arith
count_from-acc c (suc n) lo acc = ground (
  arith,
  count_from-acc c n (lo + 1) acc,
  count_from-acc c n (lo + 1) (acc + 1),
  count_from-acc c n (lo + 1) 1,
)

pub count_from-add :
    (c : ℕ → Bool) (n m lo mid k acc : ℕ)
    → n + m ≡ k
    → lo + n ≡ mid
    → count_from c k lo acc ≡ count_from c m mid (count_from c n lo acc)
unfolding count_from
count_from-add c zero m lo mid k acc e e' =
    let ek : k ≡ m = omega arith in let em : mid ≡ lo = omega arith in rw (ek, em)
count_from-add c (suc n) m lo mid k acc e e' =
    let ek : k ≡ suc (n + m) = omega arith in
    rw ek
      (count_from-add c n m (lo + 1) mid (n + m) (if c lo then acc + 1 else acc) refl (omega arith))

pub count_from-shift :
    (c d : ℕ → Bool) (off n lo acc : ℕ)
    → ((j : ℕ) → lo ≤ j → j < lo + n → c (off + j) ≡ d j)
    → count_from c n (off + lo) acc ≡ count_from d n lo acc
unfolding count_from
count_from-shift c d off zero lo acc h = refl
count_from-shift c d off (suc n) lo acc h =
    let e : off + lo + 1 ≡ off + (lo + 1) = omega arith in
    rw (h lo (omega arith) (omega arith), e)
      (count_from-shift c d off n (lo + 1) _ (λ j le lt. h j (omega arith) (omega arith)))

pub count_from-congr :
    (c d : ℕ → Bool) (n lo acc : ℕ)
    → ((j : ℕ) → lo ≤ j → j < lo + n → d j ≡ c j)
    → count_from d n lo acc ≡ count_from c n lo acc
unfolding count_from
count_from-congr c d zero lo acc h = refl
count_from-congr c d (suc n) lo acc h =
    rw (h lo (omega arith) (omega arith))
      (count_from-congr c d n (lo + 1) _ (λ j le lt. h j (omega arith) (omega arith)))

-- Taking one passing index `p` out of the test lowers the count by one.
pub count_from-remove :
    (c d : ℕ → Bool) (p n lo : ℕ)
    → lo ≤ p
    → p < lo + n
    → c p ≡ true
    → ((j : ℕ) → lo ≤ j → j < lo + n → d j ≡ (c j && not (j == p)))
    → count_from c n lo 0 ≡ count_from d n lo 0 + 1
unfolding count_from
count_from-remove c d p zero lo le lt e h = absurd (omega arith)
count_from-remove c d p (suc n) lo le lt e h = elim (Bool-cases (lo == p)) [
  | inl q ↦
      let ep : lo ≡ p = ground arith in
      let same : count_from d n (lo + 1) 0 ≡ count_from c n (lo + 1) 0 =
        count_from-congr c d n (lo + 1) 0
          (λ j l r. ground (arith, h j (omega arith) (omega arith))) in
      let here : d lo ≡ (c lo && not (lo == p)) = h lo (omega arith) (omega arith) in
      ground (arith, ap c ep, count_from-acc c n (lo + 1) 1)
  | inr q ↦
      let rest : count_from c n (lo + 1) 0 ≡ count_from d n (lo + 1) 0 + 1 =
        count_from-remove c d p n (lo + 1) (ground arith) (omega arith) e
          (λ j l r. h j (omega arith) (omega arith)) in
      let here : d lo ≡ (c lo && not (lo == p)) = h lo (omega arith) (omega arith) in
      ground (arith, count_from-acc c n (lo + 1) 1, count_from-acc d n (lo + 1) 1)
]
