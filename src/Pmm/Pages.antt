-- ===== src/Pmm/Pages.antt =====
-- The bitmap as a set of free pages: what the macros of kernel/pmm.c do to it.
use magnos.Base.{
  ℕ, ◌/◌, ◌%◌, ◌<◌, ◌≡◌, not, ◌&&◌, ◌||◌, inl, inr, ◌==◌, Bool-cases, arith, length, length-set,
  get_or-set_self, get_or-set_ne, Each, Each-set, Each-get_or, bit_clear-set_bit,
  bit_clear-clear_bit, set_bit-lt, clear_bit-lt, set_bit, clear_bit,
}
use magnos.Pmm.{Bitmap, bitmap_bytes, total_pages, byte_at, bitmap_set, bitmap_clear, is_free}

-- 512 bytes, as the static array has.
pub record IsValid (bitmap : Bitmap) : Type 0 where
  pub size : length bitmap ≡ bitmap_bytes
  pub bytes : Each (λ b. b < 256) bitmap

module _ {bitmap : Bitmap} (v : IsValid bitmap) where
  pub byte-lt : (i : ℕ) → i < bitmap_bytes → byte_at bitmap i < 256
  byte-lt i h = Each-get_or (λ b. b < 256) bitmap i 0 v.bytes (omega (arith, v.size))

  pub bitmap_set-IsValid : (p : ℕ) → p < total_pages → IsValid (bitmap_set bitmap p)
  unfolding bitmap_set
  bitmap_set-IsValid p h = record {
    size =
        omega (arith, length-set bitmap (p / 8) (set_bit (byte_at bitmap (p / 8)) (p % 8)), v.size);
    bytes =
        Each-set (λ b. b < 256) bitmap (p / 8) _ v.bytes
          (set_bit-lt _ _ (byte-lt (p / 8) (omega arith)) (omega arith));
  }

  pub bitmap_clear-IsValid : (p : ℕ) → p < total_pages → IsValid (bitmap_clear bitmap p)
  unfolding bitmap_clear
  bitmap_clear-IsValid p h = record {
    size =
        omega
          (arith, length-set bitmap (p / 8) (clear_bit (byte_at bitmap (p / 8)) (p % 8)), v.size);
    bytes =
        Each-set (λ b. b < 256) bitmap (p / 8) _ v.bytes
          (clear_bit-lt _ _ (byte-lt (p / 8) (omega arith)) (omega arith));
  }

  pub is_free-bitmap_set :
      (p q : ℕ)
      → p < total_pages
      → q < total_pages
      → is_free (bitmap_set bitmap p) q ≡ (is_free bitmap q && not (q == p))
  unfolding bitmap_set is_free
  is_free-bitmap_set p q hp hq = elim (Bool-cases (q / 8 == p / 8)) [
    | inl e ↦
        let e' : q / 8 ≡ p / 8 = ground arith in
        rw
          (
            e',
            get_or-set_self bitmap (p / 8) (set_bit (byte_at bitmap (p / 8)) (p % 8)) 0
                (omega (arith, v.size)),
            bit_clear-set_bit (byte_at bitmap (p / 8)) (p % 8) (q % 8)
                (byte-lt (p / 8) (omega arith)) (omega arith) (omega arith),
          )
          (ground arith)
    | inr e ↦
        rw
          (get_or-set_ne bitmap (p / 8) (q / 8) (set_bit (byte_at bitmap (p / 8)) (p % 8)) 0
            (ground arith))
          (ground arith)
  ]

  pub is_free-bitmap_clear :
      (p q : ℕ)
      → p < total_pages
      → q < total_pages
      → is_free (bitmap_clear bitmap p) q ≡ (is_free bitmap q || q == p)
  unfolding bitmap_clear is_free
  is_free-bitmap_clear p q hp hq = elim (Bool-cases (q / 8 == p / 8)) [
    | inl e ↦
        let e' : q / 8 ≡ p / 8 = ground arith in
        rw
          (
            e',
            get_or-set_self bitmap (p / 8) (clear_bit (byte_at bitmap (p / 8)) (p % 8)) 0
                (omega (arith, v.size)),
            bit_clear-clear_bit (byte_at bitmap (p / 8)) (p % 8) (q % 8)
                (byte-lt (p / 8) (omega arith)) (omega arith) (omega arith),
          )
          (ground arith)
    | inr e ↦
        rw
          (get_or-set_ne bitmap (p / 8) (q / 8) (clear_bit (byte_at bitmap (p / 8)) (p % 8)) 0
            (ground arith))
          (ground arith)
  ]
