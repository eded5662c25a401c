-- ===== src/Syscall.antt =====
-- kernel/syscall.c: the calls that programs make for files, arguments and numbers. A pointer to a string is `none` or
-- the string before its terminator; other pointers are addresses, and NULL is 0. `fat32_open` has one static file, which
-- it returns the address of, so `current_file` is NULL or that address. A call that walks along clusters takes fuel, and
-- `none` means that it ran out. What a call writes to a buffer is part of its result.
pub mod Files
pub mod Closed
pub mod Program
pub mod Restore
pub mod Handler
pub mod Dispatch
pub mod Sample
mod Runs
mod Tests
use magnos.Base.{
  ℕ, zero, suc, ◌+◌, ◌-◌, ◌*◌, ◌^◌, Bool, true, false, not, ◌&&◌, ◌||◌, List, [], ◌∷◌, Option, none,
  some, ltb, leb, ◌==◌, if◌then◌else◌, length, take, drop, get_or, ◌++◌,
}
use magnos.Disk.{Disk}
use magnos.Fat32
use magnos.Fat32.{Fs, File, ReadResult, failed, copied}
use magnos.Fat32.Dir.{DirInfo, list_dir, open_file}
use magnos.Args.{ProgramArgs, parse_command_line}
use magnos.Pmm
use magnos.Pmm.{Bitmap, page_size}
use magnos.Heap.{HeapStats}
use magnos.Process
use magnos.Process.{Procs}

-- `(uint32_t)-n`
abbrev pub minus : ℕ → ℕ
minus n = 2 ^ 32 - n

pub record Sys : Type 0 where
  pub fs : Fs
  pub file : File
  pub current_file : Bool
  pub current_program_args : ProgramArgs
  pub exec_buffer : List ℕ

abbrev pub upper : ℕ → ℕ
upper ch = if leb 97 ch && leb ch 122 then ch - 32 else ch

-- The copy in upper case, of so many characters at most.
unfoldable pub uppercase : ℕ → List ℕ → List ℕ
uppercase zero cs = []
uppercase (suc room) [] = []
uppercase (suc room) (ch ∷ cs) = upper ch ∷ uppercase room cs

abbrev pub closed : File → File
closed f = record f { valid = false }

unfoldable pub close_current : Sys → Sys
close_current s =
    if s.current_file then record s { file = closed s.file; current_file = false } else s

unfoldable pub opened : Sys → Option (Option File) → Option (Sys × ℕ)
opened s none = none
opened s (some none) = some (record s { current_file = false }, minus 1)
opened s (some (some f)) = some (record s { file = f; current_file = true }, 0)

-- SYSCALL_FILE_OPEN
unfoldable pub file_open : ℕ → Disk → Sys → Option (List ℕ) → Option (Sys × ℕ)
file_open fuel disk s none = some (s, minus 1)
file_open fuel disk s (some filename) =
    opened (close_current s) (open_file fuel disk (close_current s).fs (uppercase 255 filename))

-- A result of `int` that is negative becomes -1.
unfoldable pub read_done : Sys → Option ReadResult → Option (Sys × ℕ × List ℕ)
read_done s none = none
read_done s (some failed) = some (s, minus 1, [])
read_done s (some (copied f bytes)) =
    some
      (record s { file = f }, if leb (2 ^ 31) (length bytes) then minus 1 else length bytes, bytes)

-- SYSCALL_FILE_READ: the result, and the bytes in the buffer.
unfoldable pub file_read : ℕ → Disk → Sys → ℕ → ℕ → Option (Sys × ℕ × List ℕ)
file_read fuel disk s buffer size =
    if buffer == 0 || not s.current_file
    then some (s, minus 1, [])
    else read_done s (Fat32.read fuel disk s.fs (some s.file) size)

-- SYSCALL_FILE_CLOSE
unfoldable pub file_close : Sys → Sys × ℕ
file_close s = if not s.current_file then (s, minus 1) else (close_current s, 0)

list_result : Option (List DirInfo × Bool) → Option (ℕ × List DirInfo)
list_result none = none
list_result (some (entries, ok)) = some (if ok then length entries else minus 1, entries)

-- SYSCALL_LIST_DIR; a number of entries that is negative as an `int` is refused.
pub list_files : ℕ → Disk → Sys → ℕ → ℕ → Option (ℕ × List DirInfo)
list_files fuel disk s buffer max_entries =
    if buffer == 0 || max_entries == 0
    then some (minus 1, [])
    else list_result (list_dir fuel disk s.fs (if leb (2 ^ 31) max_entries then 0 else max_entries))

-- SYSCALL_GET_ARGS: the result, and the string in the buffer if one is written.
unfoldable pub get_args : Sys → ℕ → ℕ → ℕ → ℕ × Option (List ℕ)
get_args s arg_idx buffer buf_size =
    if arg_idx == minus 1
    then (s.current_program_args.count, none)
    else if buffer == 0 || buf_size == 0
    then (minus 1, none)
    else if leb (2 ^ 31) arg_idx || leb s.current_program_args.count arg_idx
    then (minus 1, none)
    else (0, some (take (buf_size - 1) (get_or s.current_program_args.args arg_idx [])))

-- SYSCALL_MEMINFO
pub meminfo : Bitmap → ℕ → ℕ
meminfo bitmap arg =
    if arg == 0
    then Pmm.get_free_count bitmap
    else if arg == 1
    then Pmm.get_total_count
    else if arg == 2
    then page_size
    else minus 1

-- SYSCALL_HEAP_STATS
pub heap_stats : HeapStats → ℕ → ℕ
heap_stats stats arg =
    if arg == 0
    then stats.free_bytes
    else if arg == 1
    then stats.used_bytes
    else if arg == 2
    then stats.total_bytes
    else minus 1

pid_of : Procs → Option ℕ → ℕ
pid_of procs none = 0
pid_of procs (some slot) = (get_or procs.table slot Process.blank).pid

-- SYSCALL_GETPID
pub getpid : Procs → ℕ
getpid procs = pid_of procs (Process.get_current procs)

-- SYSCALL_EXEC up to the call of the loader: the code that it returns, or the file in the buffer.
pub data Loaded : Type 0 where
  refused : ℕ → Loaded
  loaded : List ℕ → Loaded

abbrev pub is_elf : List ℕ → Bool
is_elf bytes =
    get_or bytes 0 0 == 0x7F
    && get_or bytes 1 0 == 69
    && get_or bytes 2 0 == 76
    && get_or bytes 3 0 == 70

-- The bytes go to the beginning of the static buffer, and the rest of it stays.
abbrev pub refilled : List ℕ → List ℕ → List ℕ
refilled bytes buffer = bytes ++ drop (length bytes) buffer

-- Behind the read the file is closed.
unfoldable pub exec_read : Sys → Option ReadResult → Option (Sys × Loaded)
exec_read s none = none
exec_read s (some failed) = some (record s { file = closed s.file }, refused (minus 3))
exec_read s (some (copied f bytes)) =
    let buffer = refilled bytes s.exec_buffer in
    some (
      record s { file = closed f; exec_buffer = buffer },
      if length bytes == 0
          then refused (minus 3)
          else if is_elf buffer
          then loaded buffer
          else refused (minus 4),
    )

unfoldable pub exec_opened : ℕ → Disk → Sys → Option (Option File) → Option (Sys × Loaded)
exec_opened fuel disk s none = none
exec_opened fuel disk s (some none) = some (s, refused (minus 1))
exec_opened fuel disk s (some (some f)) =
    let read = Fat32.read fuel disk s.fs (some f) f.size in
    if ltb 65536 f.size
    then some (record s { file = closed f }, refused (minus 2))
    else exec_read (record s { file = f }) read

unfoldable pub exec_parsed : ℕ → Disk → Sys → Option (List ℕ × ProgramArgs) → Option (Sys × Loaded)
exec_parsed fuel disk s none = none
exec_parsed fuel disk s (some (program_name, args)) =
    exec_opened fuel disk (record s { current_program_args = args })
      (open_file fuel disk s.fs (uppercase 11 program_name))

unfoldable pub exec_open : ℕ → Disk → Sys → Option (List ℕ) → Option (Sys × Loaded)
exec_open fuel disk s none = some (s, refused (minus 1))
exec_open fuel disk s (some cmd) = exec_parsed fuel disk s (parse_command_line fuel cmd)
