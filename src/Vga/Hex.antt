-- ===== src/Vga/Hex.antt =====
-- `vga_puthex` prints a number that can be read back.
use magnos.Base.{
  ℕ, ◌+◌, ◌-◌, ◌*◌, ◌/◌, ◌%◌, ◌^◌, ◌<◌, ◌≡◌, refl, true, List, [], ◌∷◌, arith, leb, ◌==◌,
  if◌then◌else◌, length, holds_below, holds_below_at,
}
use magnos.Vga.{Vga, hex_digit, put_digits, puts, puthex}

-- Reading hexadecimal digits, most significant first.
pub digit_value : ℕ → ℕ
digit_value c = if leb b'A' c then c - b'A' + 10 else c - b'0'

pub read_hex : ℕ → List ℕ → ℕ
read_hex acc [] = acc
read_hex acc (c ∷ cs) = read_hex (acc * 16 + digit_value c) cs

digit_table : holds_below 16 (λ d. digit_value (hex_digit d) == d) ≡ true
unfolding holds_below digit_value hex_digit
digit_table = refl

digit_value-hex_digit : (n : ℕ) → digit_value (hex_digit (n % 16)) ≡ n % 16
digit_value-hex_digit n =
    ground (arith, holds_below_at 16 (λ d. digit_value (hex_digit d) == d) (n % 16) digit_table)

-- `vga_puthex` prints "0x" and eight digits that read back as the 32-bit number.
pub puthex-read_hex :
    (v : Vga) (n : ℕ)
    → n < 2 ^ 32
    → (ds : List ℕ) × (puthex v n ≡ puts v (b'0' ∷ b'x' ∷ ds))
      × (length ds ≡ 8)
      × (read_hex 0 ds ≡ n)
unfolding puthex put_digits puts read_hex
puthex-read_hex v n h = (
  hex_digit (n / 2 ^ 28 % 16)
      ∷ hex_digit (n / 2 ^ 24 % 16)
      ∷ hex_digit (n / 2 ^ 20 % 16)
      ∷ hex_digit (n / 2 ^ 16 % 16)
      ∷ hex_digit (n / 2 ^ 12 % 16)
      ∷ hex_digit (n / 2 ^ 8 % 16)
      ∷ hex_digit (n / 2 ^ 4 % 16)
      ∷ hex_digit (n / 2 ^ 0 % 16)
      ∷ [],
  refl,
  refl,
  omega (
    arith,
    digit_value-hex_digit (n / 2 ^ 28),
    digit_value-hex_digit (n / 2 ^ 24),
    digit_value-hex_digit (n / 2 ^ 20),
    digit_value-hex_digit (n / 2 ^ 16),
    digit_value-hex_digit (n / 2 ^ 12),
    digit_value-hex_digit (n / 2 ^ 8),
    digit_value-hex_digit (n / 2 ^ 4),
    digit_value-hex_digit (n / 2 ^ 0),
  ),
)
