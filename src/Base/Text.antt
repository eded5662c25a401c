-- ===== src/Base/Text.antt =====
-- Texts of the C code as the codes of their characters, and decimal numbers.
use Prim.Native.Nat.{ℕ, zero, suc, ◌+◌, ◌/◌, ◌%◌}
use Prim.Native.Char.{code}
use Prim.Native.String.{String}
use mathlib.Core.List.{List, [], ◌∷◌}
use magnos.Base.Tests.{◌==◌, if◌then◌else◌}

-- The string literal without its terminator.
abbrev pub text : String → List ℕ
text String.[] = []
text (String.◌∷◌ c cs) = code c ∷ text cs

-- The decimal digits in front of `acc`: they are collected from the lowest on and copied back in reverse.
unfoldable pub decimal_digits : ℕ → ℕ → List ℕ → List ℕ
decimal_digits zero n acc = acc
decimal_digits (suc fuel) n acc =
    let rest = decimal_digits fuel (n / 10) ((48 + n % 10) ∷ acc) in if n == 0 then acc else rest

-- A number in decimal, in a buffer of 16 bytes.
unfoldable pub decimal : ℕ → List ℕ
decimal n = if n == 0 then 48 ∷ [] else decimal_digits 16 n []
