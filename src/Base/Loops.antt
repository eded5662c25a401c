-- ===== src/Base/Loops.antt =====
-- Counted loops, `for (i = lo; i < lo + n; i++) s = body(i, s)`.
use Prim.Native.Nat.{ℕ, zero, suc, ◌+◌, ◌<◌, ◌≤◌}
use mathlib.Core.Path.{◌≡◌}
use native.Mathlib.Omega.{arith}

unfoldable pub counted {ℓ} :
    {State : Type ℓ} → (rounds : ℕ) → (lo : ℕ) → (ℕ → State → State) → State → State
counted zero lo step t = t
counted (suc rounds) lo step t = counted rounds (lo + 1) step (step lo t)

-- An invariant that each round keeps holds at the end.
pub counted_inv {ℓ κ} :
    {State : Type ℓ} (Inv : ℕ → State → Type κ) (step : ℕ → State → State) (rounds lo hi : ℕ)
    (t : State)
    → lo + rounds ≡ hi
    → ((k : ℕ) (u : State) → lo ≤ k → k < hi → Inv k u → Inv (k + 1) (step k u))
    → Inv lo t
    → Inv hi (counted rounds lo step t)
unfolding counted
counted_inv Inv step zero lo hi t e keep h = let e' : hi ≡ lo = omega arith in rw e' h
counted_inv Inv step (suc rounds) lo hi t e keep h =
    counted_inv Inv step rounds (lo + 1) hi (step lo t) (omega arith)
      (λ k u le lt. keep k u (omega arith) lt) (keep lo t (omega arith) (omega arith) h)
