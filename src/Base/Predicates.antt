-- ===== src/Base/Predicates.antt =====
-- Predicates on lists that compute.
use Prim.Native.Nat.{ℕ, zero, suc, ◌<◌}
use mathlib.Core.List.{List, [], ◌∷◌}
use native.Mathlib.Omega.{arith}
use magnos.Base.Lists.{length, get_or, set}

abbrev pub Each {ℓ κ} : {Elem : Type ℓ} → (Elem → Type κ) → List Elem → Type κ
Each Q [] = Unit
Each Q (y ∷ ys) = Q y × Each Q ys

pub Each-get_or {ℓ κ} :
    {A : Type ℓ} (P : A → Type κ) (xs : List A) (i : ℕ) (d : A)
    → Each P xs
    → i < length xs
    → P (get_or xs i d)
Each-get_or P [] i d h lt = absurd (omega arith)
Each-get_or P (x ∷ xs) zero d h lt = h.0
Each-get_or P (x ∷ xs) (suc i) d h lt = Each-get_or P xs i d h.1 (omega arith)

pub Each-set {ℓ κ} :
    {A : Type ℓ} (P : A → Type κ) (xs : List A) (i : ℕ) (v : A)
    → Each P xs
    → P v
    → Each P (set xs i v)
Each-set P [] i v h hv = h
Each-set P (x ∷ xs) zero v h hv = (hv, h.1)
Each-set P (x ∷ xs) (suc i) v h hv = (h.0, Each-set P xs i v h.1 hv)
