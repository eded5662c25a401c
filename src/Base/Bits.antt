-- ===== src/Base/Bits.antt =====
-- Single bits of a byte, as the kernel's C code tests, sets and clears them: `b & (1 << k)`,
-- `b | (1 << k)`, `b & ~(1 << k)`. The laws hold for all bytes, by evaluation.
use Prim.Native.Nat.{ℕ, zero, suc, ◌-◌, ◌^◌, ◌<◌, bit_and, bit_or}
use mathlib.Core.Path.{◌≡◌, refl}
use mathlib.Core.Bool.{Bool, true, false, not, ◌&&◌, ◌||◌}
use native.Mathlib.Omega.{arith}
use magnos.Base.Tests.{◌==◌, ltb}

-- `!(b & (1 << k))`
unfoldable pub bit_clear : ℕ → ℕ → Bool
bit_clear b k = bit_and b (2 ^ k) == 0

-- `b |= (1 << k)`
unfoldable pub set_bit : ℕ → ℕ → ℕ
set_bit b k = bit_or b (2 ^ k)

-- `b &= ~(1 << k)` on a `uint8_t`
unfoldable pub clear_bit : ℕ → ℕ → ℕ
clear_bit b k = bit_and b (255 - 2 ^ k)

-- A test of every number below a bound.
unfoldable pub holds_below : ℕ → (ℕ → Bool) → Bool
holds_below zero test = true
holds_below (suc bound) test = holds_below bound test && test bound

pub holds_below_at :
    (bound : ℕ) (test : ℕ → Bool) (v : ℕ)
    → holds_below bound test ≡ true
    → v < bound
    → test v ≡ true
unfolding holds_below
holds_below_at zero test v e lt = absurd (omega arith)
holds_below_at (suc bound) test v e lt = ground (arith, holds_below_at bound test v)

same : Bool → Bool → Bool
same true b = b
same false b = not b

same-eq : (a b : Bool) → same a b ≡ true → a ≡ b
unfolding same
same-eq a b h = ground arith

-- Both updates at once: the bits of the result, and that it is a byte.
update_ok : ℕ → ℕ → ℕ → Bool
update_ok b j k =
    same (bit_clear (set_bit b j) k) (bit_clear b k && not (j == k))
    && (same (bit_clear (clear_bit b j) k) (bit_clear b k || j == k)
        && (ltb (set_bit b j) 256 && ltb (clear_bit b j) 256))

update_table :
    holds_below 256 (λ b. holds_below 8 (λ j. holds_below 8 (λ k. update_ok b j k))) ≡ true
unfolding holds_below update_ok same bit_clear set_bit clear_bit
update_table = refl

update_ok_all : (b j k : ℕ) → b < 256 → j < 8 → k < 8 → update_ok b j k ≡ true
update_ok_all b j k hb hj hk =
    holds_below_at 8 _ k (holds_below_at 8 _ j (holds_below_at 256 _ b update_table hb) hj) hk

pub bit_clear-set_bit :
    (b j k : ℕ)
    → b < 256
    → j < 8
    → k < 8
    → bit_clear (set_bit b j) k ≡ (bit_clear b k && not (j == k))
unfolding update_ok
bit_clear-set_bit b j k hb hj hk = same-eq _ _ (ground (arith, update_ok_all b j k))

pub bit_clear-clear_bit :
    (b j k : ℕ) → b < 256 → j < 8 → k < 8 → bit_clear (clear_bit b j) k ≡ (bit_clear b k || j == k)
unfolding update_ok
bit_clear-clear_bit b j k hb hj hk = same-eq _ _ (ground (arith, update_ok_all b j k))

pub set_bit-lt : (b j : ℕ) → b < 256 → j < 8 → set_bit b j < 256
unfolding update_ok
set_bit-lt b j hb hj = ground (arith, update_ok_all b j 0)

pub clear_bit-lt : (b j : ℕ) → b < 256 → j < 8 → clear_bit b j < 256
unfolding update_ok
clear_bit-lt b j hb hj = ground (arith, update_ok_all b j 0)

-- `0xFF` has no clear bit.
full_table : holds_below 8 (λ k. not (bit_clear 255 k)) ≡ true
unfolding holds_below bit_clear
full_table = refl

pub full_byte : (k : ℕ) → k < 8 → bit_clear 255 k ≡ false
full_byte k h = ground (arith, holds_below_at 8 (λ k. not (bit_clear 255 k)) k full_table h)
