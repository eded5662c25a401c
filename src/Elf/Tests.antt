-- ===== src/Elf/Tests.antt =====
-- A small program for kernel/elf.c: a header, one program header, and two bytes to load, followed by two zeros.
use magnos.Base.{ℕ, zero, suc, ◌<◌, ◌≡◌, refl, true, inr, arith}
use magnos.Elf.{Machine, validate_header, load, load_and_exec, return_to_kernel}
use magnos.Elf.Sample.{file, kernel}
use magnos.Elf.Segment.{segment_of, placed, IsSound}
use magnos.Elf.Load.{IsExecutable, header, laid, segments, load-laid}
use magnos.Elf.Exec.{
  Runs, done, program, change, load_and_exec-entered, return_to_kernel-load_and_exec,
}

file-IsSound : (i : ℕ) → i < 1 → IsSound 0x1000 86 (segment_of file (header file 0x1000 i))
file-IsSound zero h = record {
  in_file = omega arith;
  file_end = omega arith;
  memory_end = omega arith;
  apart = inr (omega arith);
}
file-IsSound (suc i) h = absurd (omega arith)

file-IsExecutable : IsExecutable file 0x1000 86
file-IsExecutable = record {
  bound = omega arith;
  header_in = omega arith;
  table_in = omega arith;
  sound = λ i h kind. file-IsSound i h;
}

load-laid_example : load file 0x1000 0x200001 ≡ 187
unfolding laid segments placed
load-laid_example = load-laid file 0x1000 86 file-IsExecutable (omega arith) 0x200001

-- A program that runs a program: the file is written again for the second.
abbrev first : Machine
first = (load_and_exec kernel 0x1000 0x8000).0

abbrev again : Machine
again = record first { memory = file }

file-valid : validate_header file 0x1000 ≡ true
unfolding validate_header
file-valid = refl

first_depth : first.exec_depth ≡ 1
first_depth = (load_and_exec-entered kernel 0x1000 0x8000 file-valid (omega arith)).1

nested : Runs first (return_to_kernel (load_and_exec again 0x1000 0x7000).0).0
nested = change again refl refl (
    program (load_and_exec again 0x1000 0x7000).0 0x1000 0x7000 file-valid
      (omega (arith, first_depth)) done done)

return_to_kernel-load_and_exec_example :
    (return_to_kernel (return_to_kernel (load_and_exec again 0x1000 0x7000).0).0).0.gdt.tss.esp0
    ≡ 0x8000
return_to_kernel-load_and_exec_example =
    (return_to_kernel-load_and_exec kernel
      (return_to_kernel (load_and_exec again 0x1000 0x7000).0).0 0x1000 0x8000 file-valid
      (omega arith) refl nested).2
