-- ===== src/Syscall/Closed.antt =====
-- SYSCALL_FILE_READ behind SYSCALL_EXEC of kernel/syscall.c, which opens the program by the handle that all files
-- share.
use magnos.Base.{ℕ, ◌≡◌, refl, sym, ◌∙◌, ap, subst, List, [], Option, none, some}
use magnos.Disk.{Disk}
use magnos.Elf
use magnos.Elf.{Machine}
use magnos.Fat32.{File}
use magnos.Fat32.Dir.{open_file}
use magnos.Args.{ProgramArgs, parse_command_line}
use magnos.Syscall.{Sys, minus, Loaded, refused, loaded, uppercase, file_read, exec_open}
use magnos.Syscall.Files.{file_read-exec_open}
use magnos.Syscall.Program.{Kernel, Result, restored, exec_loaded, exec_run, exec_of, exec}

exec_loaded-sys : (k : Kernel) (r : Machine × Elf.Outcome) → (exec_loaded k r).0.sys ≡ k.sys
unfolding exec_loaded restored
exec_loaded-sys k (machine, Elf.failed) = refl
exec_loaded-sys k (machine, Elf.entered entry esp) = refl

exec_run-sys :
    (buffer_at esp : ℕ) (k : Kernel) (r : Sys × Loaded) → (exec_run buffer_at esp k r).0.sys ≡ r.0
unfolding exec_run
exec_run-sys buffer_at esp k (sys, refused code) = refl
exec_run-sys buffer_at esp k (sys, loaded bytes) = exec_loaded-sys _ _

abbrev sys_or : Sys → Option (Kernel × Result) → Sys
sys_or s none = s
sys_or s (some (k, r)) = k.sys

-- Each read fails, and changes nothing.
abbrev pub ReadsNothing : Disk → Sys → Type 0
ReadsNothing disk s =
    (fuel buffer size : ℕ) → file_read fuel disk s buffer size ≡ some (s, minus 1, [])

-- SYSCALL_EXEC of a program that is there: in the state in which it returns a value or enters the program,
-- SYSCALL_FILE_READ returns -1 and changes nothing, whatever file the caller had open. The program has not run yet
-- there, and may open a file itself.
pub file_read-exec :
    (fuel : ℕ) (disk : Disk) (buffer_at esp : ℕ) (k k' : Kernel) (cmd program_name : List ℕ)
    (args : ProgramArgs) (f : File) (r : Result)
    → parse_command_line fuel cmd ≡ some (program_name, args)
    → open_file fuel disk k.sys.fs (uppercase 11 program_name) ≡ some (some f)
    → exec fuel disk buffer_at esp k (some cmd) ≡ some (k', r)
    → ReadsNothing disk k'.sys
unfolding exec
file_read-exec fuel disk buffer_at esp k k' cmd program_name args f r parsed found run =
    behind (exec_open fuel disk k.sys (some cmd)) refl
  where
    behind :
        (o : Option (Sys × Loaded))
        → exec_open fuel disk k.sys (some cmd) ≡ o
        → ReadsNothing disk k'.sys
    behind none e = let none_left = sym (ap (exec_of buffer_at esp k) e) ∙ run in absurd cc
    behind (some (s, l)) e =
        let same : k'.sys ≡ s =
          ap (sys_or k'.sys) (sym run ∙ ap (exec_of buffer_at esp k) e)
          ∙ exec_run-sys buffer_at esp k (s, l) in
        λ fuel' buffer size.
          subst (λ t. file_read fuel' disk t buffer size ≡ some (t, minus 1, [])) (sym same)
            (file_read-exec_open fuel disk k.sys s cmd program_name args f l fuel' buffer size
              parsed found e)
