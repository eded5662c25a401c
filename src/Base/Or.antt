-- ===== src/Base/Or.antt =====
-- The bitwise or of numbers, digit by digit, and of numbers without common digits.
use Prim.Native.Nat.{
  ℕ, zero, suc, ◌+◌, ◌-◌, ◌*◌, ◌/◌, ◌%◌, ◌^◌, ◌≤◌, ◌<◌, max, bit_or, bit_or-bitwise, digits,
}
use mathlib.Core.Path.{◌≡◌, refl, sym, ap, ◌∙◌}
use native.Mathlib.Nat.{two-pow-succ, mul-add}
use native.Mathlib.Omega.{arith}

abbrev by_digits : ℕ → ℕ → ℕ → ℕ
by_digits = digits (λ rest. rest) max

by_digits-zero : (rounds b : ℕ) → by_digits rounds 0 b ≡ b
by_digits-zero zero b = refl
by_digits-zero (suc rounds) b = refl

-- Further rounds change nothing.
by_digits_rounds : (r s a b : ℕ) → a ≤ r → a ≤ s → by_digits r a b ≡ by_digits s a b
by_digits_rounds r s zero b hr hs = by_digits-zero r b ∙ sym (by_digits-zero s b)
by_digits_rounds zero s (suc a) b hr hs = absurd (omega arith)
by_digits_rounds (suc r) zero (suc a) b hr hs = absurd (omega arith)
by_digits_rounds (suc r) (suc s) (suc a) b hr hs =
    ap (λ high. high * 2 + max (suc a % 2) (b % 2))
      (by_digits_rounds r s (suc a / 2) (b / 2) (omega arith) (omega arith))

pub zero-bit_or : (b : ℕ) → bit_or 0 b ≡ b
zero-bit_or b = bit_or-bitwise 0 b

bit_or_digit : (a b : ℕ) → bit_or a b ≡ bit_or (a / 2) (b / 2) * 2 + max (a % 2) (b % 2)
bit_or_digit zero b = omega (arith, zero-bit_or b, zero-bit_or (b / 2))
bit_or_digit (suc a) b =
    bit_or-bitwise (suc a) b
    ∙ ap (λ high. high * 2 + max (suc a % 2) (b % 2))
        (by_digits_rounds a (suc a / 2) (suc a / 2) (b / 2) (omega arith) (omega arith)
          ∙ sym (bit_or-bitwise (suc a / 2) (b / 2)))

bit_or-zero_upto : (n a : ℕ) → a ≤ n → bit_or a 0 ≡ a
bit_or-zero_upto zero zero h = zero-bit_or 0
bit_or-zero_upto zero (suc a) h = absurd (omega arith)
bit_or-zero_upto (suc n) a h =
    omega (arith, bit_or_digit a 0, bit_or-zero_upto n (a / 2) (omega arith))

pub bit_or-zero : (a : ℕ) → bit_or a 0 ≡ a
bit_or-zero a = bit_or-zero_upto a a (omega arith)

-- A number whose low `k` digits are 0, and one that has no others.
pub bit_or_low : (k h b : ℕ) → b < 2 ^ k → bit_or (h * 2 ^ k) b ≡ h * 2 ^ k + b
bit_or_low zero h b lt =
    let none : b ≡ 0 = omega arith in rw none (bit_or-zero (h * 1) ∙ omega arith)
bit_or_low (suc k) h b lt =
    let two : 2 ^ suc k ≡ 2 ^ k + 2 ^ k = two-pow-succ k in
    let double : h * 2 ^ suc k ≡ h * 2 ^ k + h * 2 ^ k =
      ap (λ t. h * t) two ∙ mul-add h (2 ^ k) (2 ^ k) in
    let half : h * 2 ^ suc k / 2 ≡ h * 2 ^ k = omega arith in
    let even : h * 2 ^ suc k % 2 ≡ 0 = omega arith in
    bit_or_digit (h * 2 ^ suc k) b
    ∙ rw half (rw even (omega (arith, bit_or_low k h (b / 2) (omega arith))))

-- `a | 1`, `a | 4`
pub bit_or-one : (a : ℕ) → bit_or a 1 ≡ a + (1 - a % 2)
bit_or-one a = omega (arith, bit_or_digit a 1, bit_or-zero (a / 2))

pub bit_or-four : (a : ℕ) → bit_or a 4 ≡ a + (1 - a / 4 % 2) * 4
bit_or-four a = omega (arith, bit_or_digit a 4, bit_or_digit (a / 2) 2, bit_or-one (a / 2 / 2))
