-- ===== src/User/Strings.antt =====
-- The strings of the shell of userspace/shell.c: its buffer, and `strncmp`.
use magnos.Base.{
  ℕ, zero, suc, ◌-◌, ◌<◌, ◌≡◌, ◌≢◌, refl, sym, ◌∙◌, ap, ap₂, true, false, List, [], ◌∷◌, ◌++◌, ltb,
  ◌==◌, length, set, take, Bool-cases, inl, inr, Each, arith,
}
use magnos.User.Shell.{buf_size, c_string, strncmp}
use magnos.User.Line.{edit, edited, Typeable}

abbrev pub NonZero : ℕ → Type 0
NonZero c = c ≢ 0

pub c_string-set :
    (i : ℕ) (xs : List ℕ)
    → i < length xs
    → Each NonZero (take i xs)
    → c_string (set xs i 0) ≡ take i xs
unfolding c_string
c_string-set i [] h each = absurd (omega arith)
c_string-set zero (x ∷ xs) h each = refl
c_string-set (suc i) (x ∷ xs) h (hx, each) =
    let going : (x == 0) ≡ false = ground arith in
    rw going (ap (λ l. x ∷ l) (c_string-set i xs (omega arith) each))

Each-take : (n : ℕ) (xs : List ℕ) → Each NonZero xs → Each NonZero (take n xs)
Each-take zero xs h = tt
Each-take (suc n) [] h = tt
Each-take (suc n) (x ∷ xs) (hx, h) = (hx, Each-take n xs h)

Each-end : (xs : List ℕ) (c : ℕ) → Each NonZero xs → c ≢ 0 → Each NonZero (xs ++ (c ∷ []))
Each-end [] c h hc = (hc, tt)
Each-end (x ∷ xs) c (hx, h) hc = (hx, Each-end xs c h hc)

edit-Each : (line : List ℕ) (c : ℕ) → Each NonZero line → c ≢ 0 → Each NonZero (edit line c)
unfolding edit
edit-Each line c h hc = elim (Bool-cases (c == 8)) [
  | inl back ↦ rw back (Each-take (length line - 1) line h)
  | inr letter ↦ elim (Bool-cases (ltb (length line) (buf_size - 1))) [
    | inl room ↦ rw letter (rw room (Each-end line c h hc))
    | inr full ↦ rw letter (rw full h)
  ]
]

pub edited-Each :
    (line cs : List ℕ) → Each NonZero line → Each Typeable cs → Each NonZero (edited line cs)
unfolding edited
edited-Each line [] h each = h
edited-Each line (c ∷ cs) h (hc, each) = edited-Each (edit line c) cs (edit-Each line c h hc.0) each

strncmp-equal : (a b : List ℕ) (n : ℕ) → length a < n → strncmp a b n ≡ true → a ≡ b
unfolding strncmp
strncmp-equal a b zero h e = absurd (omega arith)
strncmp-equal [] [] (suc n) h e = refl
strncmp-equal [] (y ∷ b) (suc n) h e = absurd (cc)
strncmp-equal (x ∷ a) [] (suc n) h e = absurd (cc)
strncmp-equal (x ∷ a) (y ∷ b) (suc n) h e = elim (Bool-cases (x == y)) [
  | inl same ↦
      let rest : strncmp a b n ≡ true = rw same at e in
      ap₂ (λ z l. z ∷ l) (ground arith) (strncmp-equal a b n (omega arith) rest)
  | inr other ↦ absurd (ground arith)
]

strncmp_self : (a : List ℕ) (n : ℕ) → strncmp a a n ≡ true
unfolding strncmp
strncmp_self a zero = refl
strncmp_self [] (suc n) = refl
strncmp_self (x ∷ a) (suc n) =
    let same : (x == x) ≡ true = ground arith in rw same (strncmp_self a n)

-- For a string shorter than the count, `strncmp` returns 0 for the same string and no other.
pub strncmp_lem :
    (a b : List ℕ) (n : ℕ)
    → length a < n
    → (strncmp a b n ≡ true → a ≡ b) × (a ≡ b → strncmp a b n ≡ true)
strncmp_lem a b n h =
    (strncmp-equal a b n h, λ same. ap (λ l. strncmp a l n) (sym same) ∙ strncmp_self a n)
