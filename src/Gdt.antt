-- ===== src/Gdt.antt =====
-- kernel/gdt.c: the segment descriptors and the task state segment. The address of the static variable `tss` is an
-- argument. Of the task state segment the fields that the kernel writes are modelled; the others stay zero.
pub mod Gates
use magnos.Base.{ℕ, ◌+◌, ◌-◌, ◌*◌, ◌/◌, ◌%◌, ◌^◌, List, [], ◌∷◌}
use Prim.Native.Nat.{bit_and, bit_or}

abbrev pub kernel_data : ℕ
kernel_data = 0x10

-- `sizeof(tss)`
abbrev pub tss_size : ℕ
tss_size = 104

-- `struct gdt_entry`
pub record GdtEntry : Type 0 where
  pub limit_low : ℕ
  pub base_low : ℕ
  pub base_mid : ℕ
  pub access : ℕ
  pub granularity : ℕ
  pub base_high : ℕ

-- The entry that `gdt_set_gate` writes; a mask of ones below a power of two is a remainder.
pub gate : ℕ → ℕ → ℕ → ℕ → GdtEntry
gate base limit access gran = record {
  base_low = base % 2 ^ 16;
  base_mid = base / 2 ^ 16 % 2 ^ 8;
  base_high = base / 2 ^ 24 % 2 ^ 8;
  limit_low = limit % 2 ^ 16;
  granularity = bit_or (limit / 2 ^ 16 % 16) (bit_and gran 0xF0);
  access = access;
}

pub record Tss : Type 0 where
  pub esp0 : ℕ
  pub ss0 : ℕ
  pub iomap_base : ℕ

pub record Gdt : Type 0 where
  pub gdt : List GdtEntry
  pub tss : Tss

pub init : ℕ → Gdt
init tss_base = record {
  gdt =
      gate 0 0 0 0
      ∷ gate 0 0xFFFFF 0x9A 0xCF
      ∷ gate 0 0xFFFFF 0x92 0xCF
      ∷ gate 0 0xFFFFF 0xFA 0xCF
      ∷ gate 0 0xFFFFF 0xF2 0xCF
      ∷ gate tss_base (tss_size - 1) 0x89 0x00
      ∷ [];
  tss = record { ss0 = kernel_data; esp0 = 0x1F0000; iomap_base = tss_size };
}

unfoldable pub set_kernel_stack : Gdt → ℕ → Gdt
set_kernel_stack g esp0 = record g { tss = record g.tss { esp0 = esp0 } }
