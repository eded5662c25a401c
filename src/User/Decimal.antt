-- ===== src/User/Decimal.antt =====
-- `uint_to_str` of userspace/free.c, userspace/ls.c and userspace/uptime.c against reading a decimal number.
use magnos.Base.{
  ℕ, zero, suc, ◌+◌, ◌-◌, ◌*◌, ◌/◌, ◌%◌, ◌^◌, ◌≤◌, ◌<◌, ◌≡◌, refl, ◌∙◌, ap, List, [], ◌∷◌, Option,
  some, ◌==◌, length, Bool-cases, inl, inr, Each, arith,
}
use magnos.User.{cons_digit, digits, reversed, copied_back, uint_to_str}

-- The number that a text denotes, read from the highest digit on behind `before`.
unfoldable pub denoted : ℕ → List ℕ → ℕ
denoted before [] = before
denoted before (c ∷ cs) = denoted (before * 10 + (c - 48)) cs

abbrev pub IsDigit : ℕ → Type 0
IsDigit c = (48 ≤ c) × (c ≤ 57)

-- The number of digits in `tmp`, the lowest first.
sum : List ℕ → ℕ
sum [] = 0
sum (d ∷ ds) = (d - 48) + 10 * sum ds

power : ℕ → ℕ
power zero = 1
power (suc n) = 10 * power n

denoted-reversed : (ds copied : List ℕ) → denoted 0 (reversed ds copied) ≡ denoted (sum ds) copied
unfolding denoted reversed sum
denoted-reversed [] copied = refl
denoted-reversed (d ∷ ds) copied =
    denoted-reversed ds (d ∷ copied) ∙ ap (λ n. denoted n copied) (omega arith)

length-reversed : (ds copied : List ℕ) → length (reversed ds copied) ≡ length ds + length copied
unfolding reversed
length-reversed [] copied = omega arith
length-reversed (d ∷ ds) copied = omega (arith, length-reversed ds (d ∷ copied))

reversed-Digits :
    (ds copied : List ℕ) → Each IsDigit ds → Each IsDigit copied → Each IsDigit (reversed ds copied)
unfolding reversed
reversed-Digits [] copied h h' = h'
reversed-Digits (d ∷ ds) copied h h' = reversed-Digits ds (d ∷ copied) h.1 (h.0, h')

-- The digits of a number in the order of `tmp`, at most `n`.
abbrev Digits : ℕ → ℕ → Option (List ℕ) → Type 0
Digits n val r = (ds : List ℕ) × (r ≡ some ds) × (sum ds ≡ val) × (length ds ≤ n) × Each IsDigit ds

digits_zero : (room : ℕ) → digits room 0 ≡ some []
unfolding digits
digits_zero zero = refl
digits_zero (suc room) = refl

digits-Digits : (n room val : ℕ) → n ≤ room → val < power n → Digits n val (digits room val)
unfolding digits sum power
digits-Digits zero room val h lt =
    let none_left : val ≡ 0 = omega arith in
    ([], ap (digits room) none_left ∙ digits_zero room, omega arith, omega arith, tt)
digits-Digits (suc n) zero val h lt = absurd (omega arith)
digits-Digits (suc n) (suc room) val h lt = elim (Bool-cases (val == 0)) [
  | inl e ↦ let none_left : val ≡ 0 = ground arith in ([], rw e refl, omega arith, omega arith, tt)
  | inr e ↦
      let (ds, is, total, short, each) =
        digits-Digits n room (val / 10) (omega arith) (omega arith) in
      (
        (48 + val % 10) ∷ ds,
        rw e (ap (cons_digit (48 + val % 10)) is),
        omega arith,
        omega arith,
        ((omega arith, omega arith), each),
      )
]

-- What a text must be to be the decimal form of a number.
abbrev pub Writes : ℕ → Option (List ℕ) → Type 0
Writes val r =
    (str : List ℕ) × (r ≡ some str) × (denoted 0 str ≡ val) × (length str ≤ 10) × Each IsDigit str

-- A number of 32 bits: `uint_to_str` stays in its buffers, at most ten digits are written, and they denote the number.
pub uint_to_str-Writes : (val : ℕ) → val < 2 ^ 32 → Writes val (uint_to_str val)
unfolding uint_to_str copied_back denoted power
uint_to_str-Writes val h = elim (Bool-cases (val == 0)) [
  | inl e ↦
      let is_zero : val ≡ 0 = ground arith in
      (48 ∷ [], rw e refl, omega arith, omega arith, ((omega arith, omega arith), tt))
  | inr e ↦
      let (ds, is, total, short, each) = digits-Digits 10 12 val (omega arith) (omega arith) in
      (
        reversed ds [],
        rw e (ap copied_back is),
        denoted-reversed ds [] ∙ total,
        omega (arith, length-reversed ds []),
        reversed-Digits ds [] each tt,
      )
]
