-- ===== src/Syscall/Tests.antt =====
-- Calls for files of kernel/syscall.c on the small disk.
use magnos.Base.{ap, ℕ, ◌<◌, ◌≡◌, ◌∙◌, refl, false, List, [], ◌∷◌, some, arith, min, text, ltb}
use magnos.Disk.{Disk}
use magnos.Fat32
use magnos.Fat32.{File, copied, slice}
use magnos.Fat32.Chains.{window}
use magnos.Fat32.Dir.{entry_of, file_of}
use magnos.Fat32.Sample.{bytes_at, numbered, root, contents, small_disk, small_fs, small_file-At}
use magnos.Syscall.{
  Sys, minus, uppercase, file_open, file_read, refused, exec_read, exec_opened, exec_parsed,
  exec_open, closed,
}
use magnos.Syscall.Sample.{
  lower_name, sys-HasFile, sys, sys_args, first_entry, parsed, opened_lem, file_size_lem,
  one_program,
}
use magnos.Syscall.Files.{file_read-file_open, read_from_start}
use magnos.Syscall.Program.{Kernel, value, exec, exec_of, exec_run}
use magnos.Syscall.Closed.{ReadsNothing, file_read-exec}

file_read-file_open_example :
    (s' : Sys) × (s'' : Sys) × (file_open 20 small_disk sys (some (text "a.txt")) ≡ some (s', 0))
    × (file_read 20 small_disk s' 0x300000 3
        ≡ some (s'', min 3 first_entry.file_size, window contents 0 (min 3 first_entry.file_size)))
unfolding small_fs
file_read-file_open_example =
    file_read-file_open 20 small_disk sys contents (text "a.txt") (2 ∷ []) (3 ∷ []) first_entry
      0x300000 3 sys-HasFile (omega arith) (omega arith) refl (omega arith) lower_name (omega arith)
      (omega arith)

-- The file is no program, so that SYSCALL_EXEC returns -4.
abbrev all_bytes : List ℕ
all_bytes = window contents 0 (min (file_of first_entry).size first_entry.file_size)

five_bytes :
    (f' : File) × (Fat32.read 20 small_disk small_fs
        (some (file_of first_entry))
        (file_of first_entry).size
      ≡ some (copied f' all_bytes))
unfolding small_fs
five_bytes =
    let (pos, whole, links, stored, inside) = small_file-At in
    read_from_start 20 small_disk small_fs contents first_entry (file_of first_entry).size (3 ∷ [])
      (omega (arith, file_size_lem)) refl (omega arith) sys-HasFile.chain sys-HasFile.bytes
      sys-HasFile.enough (omega arith) (omega (arith, file_size_lem))

-- The state behind the call.
abbrev sys_after : Sys
sys_after = record sys {
  file = closed five_bytes.0;
  current_program_args = sys_args;
  exec_buffer = window contents 0 5;
}

exec_fits :
    (fuel : ℕ) (disk : Disk) (s : Sys) (f f' : File) (bytes : List ℕ)
    → f.size < 65537
    → Fat32.read fuel disk s.fs (some f) f.size ≡ some (copied f' bytes)
    → exec_opened fuel disk s (some (some f))
      ≡ exec_read (record s { file = f }) (some (copied f' bytes))
unfolding exec_opened
exec_fits fuel disk s f f' bytes h e =
    let fits : ltb 65536 f.size ≡ false = ground arith in rw fits (rw e refl)

exec_ends :
    exec_read
      (record sys { file = file_of first_entry; current_program_args = sys_args })
      (some (copied five_bytes.0 all_bytes))
    ≡ some (sys_after, refused (minus 4))
unfolding exec_read file_of entry_of root bytes_at numbered
exec_ends = refl

exec_refused :
    exec_open 20 small_disk sys (some (text "a.txt")) ≡ some (sys_after, refused (minus 4))
unfolding exec_open exec_parsed
exec_refused = rw parsed (
    rw opened_lem (
      exec_fits 20 small_disk (record sys { current_program_args = sys_args }) (file_of first_entry)
        five_bytes.0 all_bytes (omega (arith, file_size_lem)) five_bytes.1
      ∙ exec_ends))

abbrev kernel_after : Kernel
kernel_after = record one_program { sys = sys_after }

exec_returns :
    exec 20 small_disk 0x1000 0x7000 one_program (some (text "a.txt"))
    ≡ some (kernel_after, value (minus 4))
unfolding exec exec_run
exec_returns = ap (exec_of 0x1000 0x7000 one_program) exec_refused

file_read-exec_example : ReadsNothing small_disk kernel_after.sys
file_read-exec_example =
    file_read-exec 20 small_disk 0x1000 0x7000 one_program kernel_after (text "a.txt")
      (text "a.txt") sys_args (file_of first_entry) (value (minus 4)) parsed opened_lem exec_returns

-- The name of a program of 8 and 3 characters loses the last one.
uppercase-cuts : uppercase 11 (text "longname.elf") ≡ text "LONGNAME.EL"
unfolding uppercase
uppercase-cuts = refl
