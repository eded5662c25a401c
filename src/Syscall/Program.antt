-- ===== src/Syscall/Program.antt =====
-- SYSCALL_EXEC and SYSCALL_EXIT of kernel/syscall.c around the loader of kernel/elf.c. All programs are loaded to
-- 0x200000, so the memory of the caller is saved before and restored behind the program that it runs. The address of the
-- static buffer for files is an argument. A program that runs above another one was started by SYSCALL_EXEC, the lowest
-- one by the kernel.
use magnos.Base.{
  ℕ, ◌+◌, Bool, true, false, List, [], ◌∷◌, Option, none, some, ◌==◌, if◌then◌else◌, counted, text,
}
use magnos.Memory.{store}
use magnos.Disk.{Disk}
use magnos.Vga
use magnos.Vga.{Vga}
use magnos.Elf
use magnos.Elf.{Bytes, Machine, Outcome, load_and_exec, return_to_kernel}
use magnos.Syscall.{Sys, minus, Loaded, refused, loaded, exec_open}

abbrev pub program_base : ℕ
program_base = 0x200000

-- `sizeof(saved_program)`
abbrev pub save_size : ℕ
save_size = 1048576 + 4096

-- The state of the calls, with the machine on which programs run and the static copy of a program's memory.
pub record Kernel : Type 0 where
  pub sys : Sys
  pub machine : Machine
  pub saved_program : Bytes

-- Bytes written from an address on.
unfoldable pub store_bytes : Bytes → ℕ → List ℕ → Bytes
store_bytes m a [] = m
store_bytes m a (b ∷ bs) = store_bytes (store m a b) (a + 1) bs

-- The two copy loops.
unfoldable pub save_program : Bytes → Bytes → Bytes
save_program saved memory = counted save_size 0 (λ j t. store t j (memory (program_base + j))) saved

unfoldable pub restore_program : Bytes → Bytes → Bytes
restore_program memory saved =
    counted save_size 0 (λ j t. store t (program_base + j) (saved j)) memory

abbrev pub with_memory : Kernel → Bytes → Kernel
with_memory k m = record k { machine = record k.machine { memory = m } }

-- A call returns a value to the program, or the processor goes on in another program, or the kernel goes on behind the
-- lowest program.
pub data Result : Type 0 where
  value : ℕ → Result
  enters : ℕ → ℕ → Result
  back_in_kernel : Result

unfoldable pub restored : Kernel → Kernel
restored k = with_memory k (restore_program k.machine.memory k.saved_program)

-- What follows `elf_load_and_exec`: -5 behind a restore if it fails.
unfoldable pub exec_loaded : Kernel → Machine × Outcome → Kernel × Result
exec_loaded k (machine, Elf.failed) = (restored (record k { machine = machine }), value (minus 5))
exec_loaded k (machine, Elf.entered entry esp) = (record k { machine = machine }, enters entry esp)

unfoldable pub exec_run : ℕ → ℕ → Kernel → Sys × Loaded → Kernel × Result
exec_run buffer_at esp k (sys, refused code) = (record k { sys = sys }, value code)
exec_run buffer_at esp k (sys, loaded bytes) =
    let memory = store_bytes k.machine.memory buffer_at bytes in
    let k1 : Kernel = record k {
      sys = sys;
      machine = record k.machine { memory = memory };
      saved_program = save_program k.saved_program memory;
    } in
    exec_loaded k1 (load_and_exec k1.machine buffer_at esp)

abbrev pub exec_of : ℕ → ℕ → Kernel → Option (Sys × Loaded) → Option (Kernel × Result)
exec_of buffer_at esp k none = none
exec_of buffer_at esp k (some r) = some (exec_run buffer_at esp k r)

-- SYSCALL_EXEC
unfoldable pub exec : ℕ → Disk → ℕ → ℕ → Kernel → Option (List ℕ) → Option (Kernel × Result)
exec fuel disk buffer_at esp k cmd = exec_of buffer_at esp k (exec_open fuel disk k.sys cmd)

abbrev pub light_cyan : ℕ
light_cyan = 11

pub print_exit : Vga → ℕ → Vga
print_exit v code =
    Vga.puts
      (Vga.puthex (Vga.puts (Vga.set_color v light_cyan 0) (text "\n[Program exited with code: "))
        code)
      (text "]\n")

-- Where `elf_return_to_kernel` leads: to the restore of the caller, to the kernel, or nowhere.
unfoldable pub resume_caller : Kernel → Machine × Bool → Kernel × Result
resume_caller k (machine, false) = (record k { machine = machine }, value 0)
resume_caller k (machine, true) =
    if machine.exec_depth == 0
    then (record k { machine = machine }, back_in_kernel)
    else (restored (record k { machine = machine }), value 0)

-- SYSCALL_EXIT
unfoldable pub exit : Kernel → ℕ → Kernel × Result
exit k code =
    let machine : Machine = record k.machine { vga = print_exit k.machine.vga code } in
    resume_caller k (return_to_kernel machine)
