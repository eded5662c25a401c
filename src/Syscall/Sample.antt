-- ===== src/Syscall/Sample.antt =====
-- States of the calls, with one program that runs.
use magnos.Base.{
  ◌+◌, ◌*◌, ◌^◌, [], ap, arith, false, if◌then◌else◌, refl, replicate, some, text, true, ◌==◌, ◌∙◌,
  ◌∷◌, ◌≡◌, Each,
}
use magnos.Fat32.{slice}
use magnos.Fat32.Name.{copy_extension, copy_name, extension, string_to_name}
use magnos.Fat32.Dir.{DirEntry, entry_of, file_of, open_file}
use magnos.Fat32.Dir.Open.{NonZero, find_file, open_file-find_file, same_name}
use magnos.Fat32.Sample.{
  bytes_at, numbered, root, root_Links, root_entries, root_has, small_disk, small_file, small_fs,
  contents, small_file-At,
}
use magnos.Args.{
  ProgramArgs, add_arg, cleared, cons_word, is_end, parse_args, parse_command_line, skip_spaces,
  take_word, with_program,
}
use magnos.Syscall.Files.{HasFile}
use magnos.Syscall.{Sys, uppercase}
use magnos.Process.Sample.{busy}
use magnos.Elf.Sample.{kernel}
use magnos.Syscall.Program.{Kernel}
use magnos.Syscall.Handler.{Env}
use magnos.Syscall.Dispatch.{Outside}

abbrev pub first_entry : DirEntry
first_entry = entry_of root 0

pub first_found :
    find_file (string_to_name (uppercase 255 (text "a.txt"))) root_entries
    ≡ some (file_of first_entry)
unfolding find_file string_to_name copy_extension copy_name extension uppercase entry_of slice
    file_of root bytes_at numbered same_name
first_found = refl

abbrev pub sys : Sys
sys = record {
  fs = small_fs;
  file = small_file;
  current_file = true;
  current_program_args = record { args = replicate 16 []; count = 0 };
  exec_buffer = [];
}

abbrev pub one_program : Kernel
one_program = record {
  sys = sys;
  machine = record kernel { memory = λ a. if a == 0x200003 then 65 else 0; exec_depth = 1 };
  saved_program = λ a. 0;
}

abbrev pub env : Env
env = record {
  kernel = one_program;
  keyboard = record {
    shift_pressed = false;
    ctrl_pressed = false;
    alt_pressed = false;
    capslock_on = false;
    kb_buffer = replicate 256 0;
    kb_head = 0;
    kb_tail = 0;
  };
  ports = [];
  pit_ticks = 19;
  bitmap = replicate 32 0;
  heap = record {
    blocks = record { memory = λ a. 0; free_list = 0 };
    heap_pages = 0;
    bitmap = replicate 32 0;
  };
  procs = busy;
}

abbrev pub outside : Outside
outside = record {
  fuel = 20;
  disk = small_disk;
  device = λ h port. if port == 0x3FD then 0x60 else 0;
  buffer_at = 0x1000;
  esp = 0x8000;
  interrupts = record { line = 0; esp = 0x8000 } ∷ [];
}

abbrev pub sys_args : ProgramArgs
sys_args = record { args = replicate 16 []; count = 0 }

pub parsed : parse_command_line 20 (text "a.txt") ≡ some (text "a.txt", sys_args)
unfolding parse_command_line with_program take_word cons_word skip_spaces parse_args cleared is_end
    add_arg
parsed = refl

pub opened_lem :
    open_file 20 small_disk small_fs (uppercase 11 (text "a.txt"))
    ≡ some (some (file_of first_entry))
unfolding small_fs uppercase
opened_lem =
    open_file-find_file 20 small_disk small_fs (uppercase 11 (text "a.txt")) (2 ∷ []) root_entries
      (omega arith) refl (refl, (refl, (refl, (refl, (refl, tt))))) root_Links root_has
    ∙ ap some first_found

pub file_size_lem : (file_of first_entry).size ≡ 5
unfolding file_of entry_of root bytes_at numbered
file_size_lem = refl

pub lower_name : Each NonZero (text "a.txt")
lower_name = (refl, (refl, (refl, (refl, (refl, tt)))))

pub cluster_lem : first_entry.first_cluster_high * 2 ^ 16 + first_entry.first_cluster_low ≡ 3
unfolding entry_of root bytes_at numbered
cluster_lem = refl

pub size_lem : first_entry.file_size ≡ 5
unfolding entry_of root bytes_at numbered
size_lem = refl

pub sys-HasFile : HasFile small_disk small_fs contents (text "a.txt") (2 ∷ []) first_entry (3 ∷ [])
unfolding small_fs small_file
sys-HasFile =
    let (pos, whole, links, stored, inside) = small_file-At in
    record {
      entries = root_entries;
      directory = root_Links;
      listed = root_has;
      finds = first_found;
      chain = (cluster_lem, links.1, links.2);
      bytes = stored;
      enough = omega (arith, size_lem);
      bound = omega arith;
    }
