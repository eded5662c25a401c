-- ===== src/Gdt/Gates.antt =====
-- What the processor reads from the descriptors of kernel/gdt.c.
use magnos.Base.{
  ℕ, ◌+◌, ◌-◌, ◌*◌, ◌/◌, ◌%◌, ◌^◌, ◌<◌, ◌≡◌, refl, ◌==◌, [], ◌∷◌, map, true, holds_below,
  holds_below_at, arith,
}
use Prim.Native.Nat.{bit_and, bit_or}
use magnos.Gdt.{tss_size, GdtEntry, gate, init}

-- Base, limit, flags and access byte, as the processor puts them together.
pub record Segment : Type 0 where
  pub base : ℕ
  pub limit : ℕ
  pub flags : ℕ
  pub rights : ℕ

pub decode : GdtEntry → Segment
decode e = record {
  base = e.base_low + e.base_mid * 2 ^ 16 + e.base_high * 2 ^ 24;
  limit = e.limit_low + e.granularity % 16 * 2 ^ 16;
  flags = e.granularity / 16;
  rights = e.access;
}

nibbles_table :
    holds_below 16 (λ l. holds_below 256 (λ g. bit_or l (bit_and g 0xF0) == l + g / 16 * 16)) ≡ true
unfolding holds_below
nibbles_table = refl

nibbles : (l g : ℕ) → l < 16 → g < 256 → bit_or l (bit_and g 0xF0) ≡ l + g / 16 * 16
nibbles l g hl hg =
    ground (arith, holds_below_at 256 _ g (holds_below_at 16 _ l nibbles_table hl) hg)

-- The processor reads from an entry of `gdt_set_gate` the base, the limit, the flags in the high half of `gran` and
-- the access byte that were written, for a base of 32 bits, a limit of 20 and a `gran` of 8.
pub decode-gate :
    (base limit access gran : ℕ)
    → base < 2 ^ 32
    → limit < 2 ^ 20
    → gran < 256
    → decode (gate base limit access gran)
      ≡ record { base = base; limit = limit; flags = gran / 16; rights = access }
unfolding decode gate
decode-gate base limit access gran hb hl hg =
    let joined = nibbles (limit / 2 ^ 16 % 16) gran (omega arith) hg in
    let b : base % 2 ^ 16 + base / 2 ^ 16 % 2 ^ 8 * 2 ^ 16 + base / 2 ^ 24 % 2 ^ 8 * 2 ^ 24 ≡ base =
      omega arith in
    let l : limit % 2 ^ 16 + (limit / 2 ^ 16 % 16 + gran / 16 * 16) % 16 * 2 ^ 16 ≡ limit =
      omega arith in
    let f : (limit / 2 ^ 16 % 16 + gran / 16 * 16) / 16 ≡ gran / 16 = omega arith in
    rw joined (rw b (rw l (rw f refl)))

-- A segment of 4 GB from address 0, in pages and for 32 bits, with these rights.
abbrev pub flat : ℕ → Segment
flat rights = record { base = 0; limit = 0xFFFFF; flags = 0xC; rights = rights }

-- The table that `gdt_init` loads gives, behind the null descriptor, the kernel and the user flat segments for code
-- and data over the whole address space, and the task state segment at its address with its length.
pub decode-init :
    (tss_base : ℕ)
    → tss_base < 2 ^ 32
    → map decode (init tss_base).gdt
      ≡ record { base = 0; limit = 0; flags = 0; rights = 0 }
        ∷ flat 0x9A
        ∷ flat 0x92
        ∷ flat 0xFA
        ∷ flat 0xF2
        ∷ record { base = tss_base; limit = tss_size - 1; flags = 0; rights = 0x89 }
        ∷ []
unfolding init
decode-init tss_base h =
    let code : (rights : ℕ) → decode (gate 0 0xFFFFF rights 0xCF) ≡ flat rights =
      λ rights. decode-gate 0 0xFFFFF rights 0xCF (omega arith) (omega arith) (omega arith) in
    rw (decode-gate 0 0 0 0 (omega arith) (omega arith) (omega arith)) (
      rw (code 0x9A) (
        rw (code 0x92) (
          rw (code 0xFA) (
            rw (code 0xF2) (
              rw (decode-gate tss_base (tss_size - 1) 0x89 0 h (omega arith) (omega arith))
                refl)))))
