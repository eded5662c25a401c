-- ===== src/Shell/Command.antt =====
-- The two ways to run a command: `execute_command` of kernel/kernel.c and SYSCALL_EXEC of kernel/syscall.c.
use magnos.Base.{
  ℕ, ◌<◌, ◌≡◌, refl, true, false, ◌&&◌, List, Option, none, some, ltb, leb, ◌==◌, length,
  Bool-cases, inl, inr, arith,
}
use magnos.Disk.{Disk}
use magnos.Fat32
use magnos.Fat32.{File, ReadResult, failed, copied}
use magnos.Fat32.Dir.{open_file}
use magnos.Args.{ProgramArgs, parse_command_line}
use magnos.Syscall.{
  Sys, minus, uppercase, is_elf, refilled, Loaded, refused, loaded, exec_read, exec_opened,
  exec_parsed, exec_open,
}
use magnos.Shell.{
  Found, not_found, too_large, unreadable, no_elf, program, command_read, command_opened,
  command_parsed, command_open,
}

-- The code of SYSCALL_EXEC for what `execute_command` finds.
unfoldable pub code_of : Found → Loaded
code_of (not_found filename) = refused (minus 1)
code_of too_large = refused (minus 2)
code_of unreadable = refused (minus 3)
code_of no_elf = refused (minus 4)
code_of (program bytes) = loaded bytes

-- The result as that of SYSCALL_EXEC, whose static buffer is another one.
unfoldable pub as_call : Option (Sys × List ℕ × Found) → Option (Sys × Loaded)
as_call none = none
as_call (some (s, buffer, found)) = some (record s { exec_buffer = buffer }, code_of found)

read_case :
    (s : Sys) (r : Option ReadResult) → as_call (command_read s s.exec_buffer r) ≡ exec_read s r
unfolding as_call code_of command_read exec_read
read_case s none = refl
read_case s (some failed) = refl
read_case s (some (copied f bytes)) = elim (Bool-cases (length bytes == 0)) [
  | inl e ↦ rw e refl
  | inr e ↦ elim (Bool-cases (is_elf (refilled bytes s.exec_buffer))) [
    | inl elf ↦ rw e (rw elf refl)
    | inr other ↦ rw e (rw other refl)
  ]
]

-- No file, or one that is not empty.
abbrev pub NotEmpty : Option (Option File) → Type 0
NotEmpty none = Unit {0}
NotEmpty (some none) = Unit {0}
NotEmpty (some (some f)) = 0 < f.size

opened_case :
    (fuel : ℕ) (disk : Disk) (s : Sys) (filename : List ℕ) (r : Option (Option File))
    → NotEmpty r
    → as_call (command_opened fuel disk s s.exec_buffer filename r) ≡ exec_opened fuel disk s r
unfolding as_call code_of command_opened exec_opened
opened_case fuel disk s filename none h = refl
opened_case fuel disk s filename (some none) h = refl
opened_case fuel disk s filename (some (some f)) h = elim (Bool-cases (ltb 65536 f.size)) [
  | inl large ↦
      let refuses : (ltb 0 f.size && leb f.size 65536) ≡ false = ground arith in
      rw large (rw refuses refl)
  | inr fits ↦
      let accepts : (ltb 0 f.size && leb f.size 65536) ≡ true = ground arith in
      rw fits
        (rw accepts (read_case (record s { file = f }) (Fat32.read fuel disk s.fs (some f) f.size)))
]

parsed_case :
    (fuel : ℕ) (disk : Disk) (s : Sys) (parsed : Option (List ℕ × ProgramArgs))
    → ((name : List ℕ) (args : ProgramArgs)
        → parsed ≡ some (name, args)
        → NotEmpty (open_file fuel disk s.fs (uppercase 11 name)))
    → as_call (command_parsed fuel disk s s.exec_buffer parsed) ≡ exec_parsed fuel disk s parsed
unfolding as_call command_parsed exec_parsed
parsed_case fuel disk s none h = refl
parsed_case fuel disk s (some (name, args)) h =
    opened_case fuel disk (record s { current_program_args = args }) (uppercase 11 name)
      (open_file fuel disk s.fs (uppercase 11 name)) (h name args refl)

-- Where the file of a command is not empty, or there is none, `execute_command` with a buffer of the same bytes does up to
-- the loader what SYSCALL_EXEC does: it opens, reads and closes the same file, and refuses in the same cases, with a message
-- for each code, or hands the same bytes to the loader.
pub exec_open-command_open :
    (fuel : ℕ) (disk : Disk) (s : Sys) (cmd : List ℕ)
    → ((name : List ℕ) (args : ProgramArgs)
        → parse_command_line fuel cmd ≡ some (name, args)
        → NotEmpty (open_file fuel disk s.fs (uppercase 11 name)))
    → as_call (command_open fuel disk s s.exec_buffer cmd) ≡ exec_open fuel disk s (some cmd)
unfolding command_open exec_open
exec_open-command_open fuel disk s cmd h = parsed_case fuel disk s (parse_command_line fuel cmd) h
