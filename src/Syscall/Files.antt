-- ===== src/Syscall/Files.antt =====
-- The calls for files of kernel/syscall.c, one after the other.
use native.Mathlib.Nat.{mod-eq_of_lt}
use magnos.Base.{
  ℕ, zero, suc, ◌+◌, ◌*◌, ◌%◌, ◌^◌, min, ◌≤◌, ◌<◌, ◌≡◌, refl, ◌∙◌, ap, ap₂, subst, true, false, not,
  ◌||◌, ◌&&◌, List, [], ◌∷◌, Option, none, some, ltb, leb, ◌==◌, Bool-cases, inl, inr, arith,
  length, Each,
}
use magnos.Disk.{Disk}
use magnos.Fat32
use magnos.Fat32.{Fs, File, ReadResult, failed, copied, cluster_size}
use magnos.Fat32.Name.{string_to_name}
use magnos.Fat32.Chains.{Links, Stored, window, length-window, capacity}
use magnos.Fat32.Read.{read-Reads}
use magnos.Fat32.Dir.{DirEntry, open_file, file_of}
use magnos.Fat32.Dir.Scan.{DirectoryHas}
use magnos.Fat32.Dir.Open.{find_file, NonZero, open_file-find_file}
use magnos.Args.{ProgramArgs, parse_command_line}
use magnos.Syscall.{
  Sys, minus, upper, uppercase, close_current, opened, file_open, read_done, file_read, Loaded,
  exec_read, exec_opened, exec_parsed, exec_open,
}

-- A state whose static file is closed.
abbrev FileClosed : Option (Sys × Loaded) → Type 0
FileClosed none = Unit {0}
FileClosed (some (s, r)) = s.file.valid ≡ false

exec_read-FileClosed : (s : Sys) (r : Option ReadResult) → FileClosed (exec_read s r)
unfolding exec_read
exec_read-FileClosed s none = tt
exec_read-FileClosed s (some failed) = refl
exec_read-FileClosed s (some (copied f bytes)) = refl

exec_opened-FileClosed :
    (fuel : ℕ) (disk : Disk) (s : Sys) (f : File)
    → FileClosed (exec_opened fuel disk s (some (some f)))
unfolding exec_opened
exec_opened-FileClosed fuel disk s f = elim (Bool-cases (ltb 65536 f.size)) [
  | inl large ↦ rw large refl
  | inr fits ↦
      rw fits
        (exec_read-FileClosed (record s { file = f }) (Fat32.read fuel disk s.fs (some f) f.size))
]

exec_open-FileClosed :
    (fuel : ℕ) (disk : Disk) (s : Sys) (cmd program_name : List ℕ) (args : ProgramArgs) (f : File)
    → parse_command_line fuel cmd ≡ some (program_name, args)
    → open_file fuel disk s.fs (uppercase 11 program_name) ≡ some (some f)
    → FileClosed (exec_open fuel disk s (some cmd))
unfolding exec_open exec_parsed
exec_open-FileClosed fuel disk s cmd program_name args f parsed found =
    rw parsed
      (rw found (exec_opened-FileClosed fuel disk (record s { current_program_args = args }) f))

file_read-closed :
    (fuel : ℕ) (disk : Disk) (s : Sys) (buffer size : ℕ)
    → s.file.valid ≡ false
    → file_read fuel disk s buffer size ≡ some (s, minus 1, [])
unfolding file_read Fat32.read read_done
file_read-closed fuel disk s buffer size e = elim (Bool-cases (buffer == 0 || not s.current_file)) [
  | inl no_file ↦ rw no_file refl
  | inr other ↦ rw other (rw e refl)
]

-- Behind the part of SYSCALL_EXEC before the loader, for a program whose file is found, SYSCALL_FILE_READ returns -1
-- and copies nothing, also where the caller had a file open: the static file of `fat32_open` is the one that the
-- caller's handle points to.
pub file_read-exec_open :
    (fuel : ℕ) (disk : Disk) (s s' : Sys) (cmd program_name : List ℕ) (args : ProgramArgs)
    (f : File) (r : Loaded) (fuel' buffer size : ℕ)
    → parse_command_line fuel cmd ≡ some (program_name, args)
    → open_file fuel disk s.fs (uppercase 11 program_name) ≡ some (some f)
    → exec_open fuel disk s (some cmd) ≡ some (s', r)
    → file_read fuel' disk s' buffer size ≡ some (s', minus 1, [])
file_read-exec_open fuel disk s s' cmd program_name args f r fuel' buffer size parsed found run =
    file_read-closed fuel' disk s' buffer size
      (subst FileClosed run (exec_open-FileClosed fuel disk s cmd program_name args f parsed found))

-- SYSCALL_FILE_OPEN of a file that is there.
close_current_fs : (s : Sys) → (close_current s).fs ≡ s.fs
unfolding close_current
close_current_fs s = elim (Bool-cases s.current_file) [ inl e ↦ rw e refl | inr e ↦ rw e refl ]

-- What SYSCALL_FILE_OPEN leaves behind: the handle of a file, and 0.
abbrev pub OpenedTo : Sys → File → Option (Sys × ℕ) → Type 0
OpenedTo s f r =
    (s' : Sys) × (r ≡ some (s', 0)) × (s'.fs ≡ s.fs) × (s'.file ≡ f) × (s'.current_file ≡ true)

pub file_open-OpenedTo :
    (fuel : ℕ) (disk : Disk) (s : Sys) (filename : List ℕ) (f : File)
    → open_file fuel disk s.fs (uppercase 255 filename) ≡ some (some f)
    → OpenedTo s f (file_open fuel disk s (some filename))
unfolding file_open opened
file_open-OpenedTo fuel disk s filename f found =
    let same = close_current_fs s in
    (
      record (close_current s) { file = f; current_file = true },
      rw same (rw found refl),
      same,
      refl,
      refl,
    )

pub file_read_run :
    (fuel : ℕ) (disk : Disk) (s : Sys) (f' : File) (buffer size : ℕ) (bytes : List ℕ)
    → 0 < buffer
    → s.current_file ≡ true
    → length bytes < 2 ^ 31
    → Fat32.read fuel disk s.fs (some s.file) size ≡ some (copied f' bytes)
    → file_read fuel disk s buffer size ≡ some (record s { file = f' }, length bytes, bytes)
unfolding file_read read_done
file_read_run fuel disk s f' buffer size bytes pos open_now short run =
    let guard : (buffer == 0 || not s.current_file) ≡ false = ground arith in
    let count : leb (2 ^ 31) (length bytes) ≡ false = ground arith in
    rw guard (rw run (rw count refl))

pub uppercase-NonZero : (n : ℕ) (cs : List ℕ) → Each NonZero cs → Each NonZero (uppercase n cs)
unfolding uppercase
uppercase-NonZero zero cs h = tt
uppercase-NonZero (suc n) [] h = tt
uppercase-NonZero (suc n) (c ∷ cs) h =
    let letter : NonZero (upper c) = elim (Bool-cases (leb 97 c && leb c 122)) [
      | inl e ↦ rw e (ground arith)
      | inr e ↦ rw e h.0
    ] in
    (letter, uppercase-NonZero n cs h.1)

-- The directory has an entry of the name, and the file of the entry holds the bytes of `content`.
pub record HasFile (disk : Disk) (fs : Fs) (content : ℕ → ℕ) (filename : List ℕ) (ds : List ℕ)
    (e : DirEntry) (cs : List ℕ) : Type 0 where
  pub entries : List DirEntry
  pub directory : Links disk fs fs.root_dir_cluster ds
  pub listed : DirectoryHas disk fs ds entries
  pub finds : find_file (string_to_name (uppercase 255 filename)) entries ≡ some (file_of e)
  pub chain : Links disk fs (e.first_cluster_high * 2 ^ 16 + e.first_cluster_low) cs
  pub bytes : Stored disk fs content cs 0
  pub enough : e.file_size ≤ capacity fs cs
  pub bound : capacity fs cs < 2 ^ 32

pub read_from_start :
    (fuel : ℕ) (disk : Disk) (fs : Fs) (content : ℕ → ℕ) (e : DirEntry) (size : ℕ) (cs : List ℕ)
    → size < fuel
    → fs.initialized ≡ true
    → 0 < fs.bpb.sectors_per_cluster
    → Links disk fs (e.first_cluster_high * 2 ^ 16 + e.first_cluster_low) cs
    → Stored disk fs content cs 0
    → e.file_size ≤ capacity fs cs
    → capacity fs cs < 2 ^ 32
    → size < 2 ^ 31
    → (f' : File) × (Fat32.read fuel disk fs (some (file_of e)) size
        ≡ some (copied f' (window content 0 (min size e.file_size))))
unfolding file_of
read_from_start fuel disk fs content e size cs h init pos links stored enough bound small =
    let base : 0 % cluster_size fs ≡ 0 = mod-eq_of_lt (omega arith) in
    let (f', run, position, size', valid, b, o, ds, at, total) =
      read-Reads fuel disk fs content (file_of e) size 0 0 cs h refl init
        (refl, base, links, stored, omega arith) (omega arith) (omega arith) (omega arith)
        (omega arith) in
    (f', run ∙ ap (λ t. some (copied f' (window content 0 (min size t)))) (omega arith))

-- SYSCALL_FILE_OPEN of a name in any case, where the directory has an entry of it in upper case, returns 0, and
-- SYSCALL_FILE_READ of less than 2 ^ 31 bytes into a buffer then returns as many bytes as asked for and as the file
-- has, and these are the first bytes of the file; with a round for each cluster of the directory and each byte.
pub file_read-file_open :
    (fuel : ℕ) (disk : Disk) (s : Sys) (content : ℕ → ℕ) (filename ds cs : List ℕ) (e : DirEntry)
    (buffer size : ℕ)
    → HasFile disk s.fs content filename ds e cs
    → length ds < fuel
    → size < fuel
    → s.fs.initialized ≡ true
    → 0 < s.fs.bpb.sectors_per_cluster
    → Each NonZero filename
    → 0 < buffer
    → size < 2 ^ 31
    → (s' : Sys) × (s'' : Sys) × (file_open fuel disk s (some filename) ≡ some (s', 0))
      × (file_read fuel disk s' buffer size
          ≡ some (s'', min size e.file_size, window content 0 (min size e.file_size)))
file_read-file_open fuel disk s content filename ds cs e buffer size has h h' init pos text to
      small =
    let found =
      open_file-find_file fuel disk s.fs (uppercase 255 filename) ds has.entries h init
        (uppercase-NonZero 255 filename text) has.directory has.listed
      ∙ ap some has.finds in
    let (s', opened, fs, file, now) = file_open-OpenedTo fuel disk s filename (file_of e) found in
    let (f', run) =
      read_from_start fuel disk s.fs content e size cs h' init pos has.chain has.bytes has.enough
        has.bound small in
    let n : ℕ = min size e.file_size in
    let count = length-window content 0 n in
    let again : Fat32.read fuel disk s'.fs (some s'.file) size
        ≡ some (copied f' (window content 0 n)) =
      ap₂ (λ t u. Fat32.read fuel disk t (some u) size) fs file ∙ run in
    (
      s',
      record s' { file = f' },
      opened,
      file_read_run fuel disk s' f' buffer size (window content 0 n) to now (omega arith) again
          ∙ ap (λ t. some (record s' { file = f' }, t, window content 0 n)) count,
    )
