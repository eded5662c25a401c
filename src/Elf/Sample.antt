-- ===== src/Elf/Sample.antt =====
-- A small program for kernel/elf.c and a kernel that runs none.
use magnos.Base.{ℕ, ◌-◌, List, [], ◌∷◌, ◌++◌, get_or, replicate, if◌then◌else◌, ◌==◌}
use magnos.Elf.{Bytes, Machine}

abbrev pub program_file : List ℕ
program_file =
    127 ∷ 69 ∷ 76 ∷ 70 ∷ 1 ∷ 1 ∷ replicate 10 0
    ++ 2 ∷ 0 ∷ 3 ∷ 0 ∷ 1 ∷ 0 ∷ 0 ∷ 0 ∷ 0 ∷ 0 ∷ 32 ∷ 0 ∷ 52 ∷ 0 ∷ 0 ∷ 0 ∷ replicate 12 0
    ++ 1 ∷ 0 ∷ replicate 6 0
    ++ 1
      ∷ 0
      ∷ 0
      ∷ 0
      ∷ 84
      ∷ 0
      ∷ 0
      ∷ 0
      ∷ 0
      ∷ 0
      ∷ 32
      ∷ 0
      ∷ 0
      ∷ 0
      ∷ 0
      ∷ 0
      ∷ 2
      ∷ 0
      ∷ 0
      ∷ 0
      ∷ 4
      ∷ 0
      ∷ 0
      ∷ 0
      ∷ replicate 8 0
    ++ 170 ∷ 187 ∷ []

-- The file at 0x1000; it is loaded to 0x200000.
abbrev pub file : Bytes
file a = get_or program_file (a - 0x1000) 0

-- The kernel before a program runs.
abbrev pub kernel : Machine
kernel = record {
  memory = file;
  vga = record { buffer = []; row = 0; column = 0; color = 7; cursor_low = 0; cursor_high = 0 };
  paging = record { memory = λ a. if a == 40960 then 4099 else 0; bitmap = []; directory = 40960 };
  gdt = record { gdt = []; tss = record { esp0 = 0; ss0 = 16; iomap_base = 104 } };
  exec_stack = replicate 8 0;
  exec_depth = 0;
}
