-- ===== src/Syscall/Runs.antt =====
-- Calls on a state with one program.
use magnos.Base.{ℕ, ◌≡◌, refl, true, arith, inl}
use magnos.Elf.{validate_header}
use magnos.Elf.Sample.{program_file}
use magnos.Syscall.{loaded}
use magnos.Syscall.Program.{store_bytes, Kernel, exec_run, exit, value}
use magnos.Syscall.Restore.{InProgram, exit-exec_run}
use magnos.Syscall.Sample.{sys, one_program}

staged_valid :
    validate_header (store_bytes one_program.machine.memory 0x1000 program_file) 0x1000 ≡ true
unfolding validate_header store_bytes magnos.Memory.store
staged_valid = refl

-- The started program writes into the place of its caller.
abbrev overwritten : Kernel
overwritten =
    let k = (exec_run 0x1000 0x7000 one_program (sys, loaded program_file)).0 in
    record k { machine = record k.machine { memory = λ a. 99 } }

exit-exec_run_example :
    ((exit overwritten 0).1 ≡ value 0)
    × ((exit overwritten 0).0.machine.exec_depth ≡ 1)
    × ((a : ℕ)
        → InProgram a
        → (exit overwritten 0).0.machine.memory a ≡ one_program.machine.memory a)
exit-exec_run_example =
    exit-exec_run 0x1000 0x7000 0 one_program overwritten sys program_file staged_valid
      (omega arith) (omega arith) (inl (omega arith)) refl refl
