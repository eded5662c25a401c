-- ===== src/Shell.antt =====
-- kernel/kernel.c: the shell of the kernel, on which it falls back when no program `shell` runs, and the commands of it. A
-- line that ends a command goes to the screen and to the serial port.
pub mod Command
pub mod Line
mod Tests
use magnos.Base.{
  ℕ, zero, suc, ◌+◌, ◌-◌, ◌*◌, ◌^◌, Bool, true, false, not, ◌&&◌, ◌||◌, List, [], ◌∷◌, ◌++◌, Option,
  none, some, ltb, leb, ◌==◌, if◌then◌else◌, length, set, text,
}
use magnos.Disk.{Disk}
use magnos.Ports.{History}
use magnos.Serial
use magnos.Vga
use magnos.Vga.{Vga}
use magnos.Keyboard
use magnos.Fat32
use magnos.Fat32.{File, ReadResult, failed, copied}
use magnos.Fat32.Dir.{open_file}
use magnos.Args.{ProgramArgs, parse_command_line}
use magnos.Elf
use magnos.Elf.{Machine, Outcome, load_and_exec}
use magnos.Syscall.{Sys, uppercase, closed, is_elf, refilled}
use magnos.Syscall.Program.{Kernel, store_bytes, light_cyan}
use magnos.Syscall.Handler.{Env, with_sys, with_vga}
use magnos.Syscall.Dispatch.{Outside}
use magnos.User.Shell.{c_string}

-- What `execute_command` finds at the name of a program.
pub data Found : Type 0 where
  not_found : List ℕ → Found
  too_large : Found
  unreadable : Found
  no_elf : Found
  program : List ℕ → Found

-- Behind the read the file is closed; the static buffer of the kernel is `binary_buffer`.
unfoldable pub command_read : Sys → List ℕ → Option ReadResult → Option (Sys × List ℕ × Found)
command_read s buffer none = none
command_read s buffer (some failed) = some (record s { file = closed s.file }, buffer, unreadable)
command_read s buffer (some (copied f bytes)) =
    let filled = refilled bytes buffer in
    some (
      record s { file = closed f },
      filled,
      if length bytes == 0 then unreadable else if is_elf filled then program filled else no_elf,
    )

unfoldable pub command_opened :
    ℕ → Disk → Sys → List ℕ → List ℕ → Option (Option File) → Option (Sys × List ℕ × Found)
command_opened fuel disk s buffer filename none = none
command_opened fuel disk s buffer filename (some none) = some (s, buffer, not_found filename)
command_opened fuel disk s buffer filename (some (some f)) =
    let read = Fat32.read fuel disk s.fs (some f) f.size in
    if ltb 0 f.size && leb f.size 65536
    then command_read (record s { file = f }) buffer read
    else some (record s { file = closed f }, buffer, too_large)

unfoldable pub command_parsed :
    ℕ → Disk → Sys → List ℕ → Option (List ℕ × ProgramArgs) → Option (Sys × List ℕ × Found)
command_parsed fuel disk s buffer none = none
command_parsed fuel disk s buffer (some (program_name, args)) =
    let filename = uppercase 11 program_name in
    command_opened fuel disk (record s { current_program_args = args }) buffer filename
      (open_file fuel disk s.fs filename)

-- `execute_command` up to the call of the loader, or to the message.
unfoldable pub command_open : ℕ → Disk → Sys → List ℕ → List ℕ → Option (Sys × List ℕ × Found)
command_open fuel disk s buffer cmd =
    command_parsed fuel disk s buffer (parse_command_line fuel cmd)

-- The state of the kernel with the static data of kernel/kernel.c.
pub record Shell : Type 0 where
  pub env : Env
  pub binary_buffer : List ℕ
  pub shell_cmd_buf : List ℕ
  pub shell_cmd_pos : ℕ

-- Behind a command the shell goes on, or the processor is in the program and the shell goes on when it ends.
pub data Started : Type 0 where
  goes_on : Started
  runs : ℕ → ℕ → Started

abbrev pub vga_of : Shell → Vga
vga_of s = s.env.kernel.machine.vga

abbrev pub cyan : Shell → Vga
cyan s = Vga.set_color (vga_of s) light_cyan 0

abbrev pub finished : Shell → Started → Option History → Option (Shell × Started)
finished s r none = none
finished s r (some h) = some (record s { env = record s.env { ports = h } }, r)

-- The screen as given, and a text to the serial port.
abbrev pub on_both : Outside → Shell → Vga → List ℕ → Option (Shell × Started)
on_both o s v line =
    finished (record s { env = with_vga s.env v }) goes_on
      (Serial.puts o.device Serial.com1 o.fuel line s.env.ports)

abbrev pub message : Outside → Shell → List ℕ → Option (Shell × Started)
message o s t = on_both o s (Vga.puts (cyan s) (t ++ (10 ∷ []))) (t ++ (13 ∷ 10 ∷ []))

unfoldable pub command_loaded : Outside → Shell → Machine × Outcome → Option (Shell × Started)
command_loaded o s (machine, Elf.failed) =
    message o
      (record s { env = record s.env { kernel = record s.env.kernel { machine = machine } } })
      (text "Failed to execute binary")
command_loaded o s (machine, Elf.entered entry esp) = some (
  record s { env = record s.env { kernel = record s.env.kernel { machine = machine } } },
  runs entry esp,
)

unfoldable pub command_found : Outside → Shell → Found → Option (Shell × Started)
command_found o s (not_found filename) =
    on_both o s
      (Vga.putchar (Vga.puts (Vga.puts (cyan s) (text "Command not found: ")) filename) 10)
      (text "Command not found: " ++ filename ++ (13 ∷ 10 ∷ []))
command_found o s too_large = message o s (text "File too large")
command_found o s unreadable = message o s (text "Failed to read file")
command_found o s no_elf = message o s (text "Not an ELF binary")
command_found o s (program bytes) =
    let machine = s.env.kernel.machine in
    let staged : Machine = record machine {
      memory = store_bytes machine.memory o.buffer_at bytes;
    } in
    command_loaded o s (load_and_exec staged o.buffer_at o.esp)

unfoldable pub command_done :
    Outside → Shell → Option (Sys × List ℕ × Found) → Option (Shell × Started)
command_done o s none = none
command_done o s (some (sys, buffer, found)) =
    command_found o (record s { env = with_sys s.env sys; binary_buffer = buffer }) found

unfoldable pub execute_command : Outside → Shell → List ℕ → Option (Shell × Started)
execute_command o s cmd =
    command_done o s (command_open o.fuel o.disk s.env.kernel.sys s.binary_buffer cmd)

-- The prompt on the screen and the serial port.
unfoldable pub prompt : Outside → Shell → Option (Shell × Started)
prompt o s = on_both o s (Vga.puts (cyan s) (text "MagnOS> ")) (text "MagnOS> ")

-- Behind a command, and behind the end of a program that it ran.
unfoldable pub resumed : Outside → Shell → Option (Shell × Started)
resumed o s = prompt o (record s { shell_cmd_pos = 0 })

-- The end of a command that ran no program, or failed to; where one runs the shell goes on by `resumed` when it ends.
unfoldable pub then_prompt : Outside → Option (Shell × Started) → Option (Shell × Started)
then_prompt o none = none
then_prompt o (some (s, runs entry esp)) = some (s, runs entry esp)
then_prompt o (some (s, goes_on)) = resumed o s

-- Behind the line break: the command, if there is one.
unfoldable pub ended_line : Outside → Option (Shell × Started) → Option (Shell × Started)
ended_line o none = none
ended_line o (some (s, r)) =
    let ended = set s.shell_cmd_buf s.shell_cmd_pos 0 in
    let s' : Shell = record s { shell_cmd_buf = ended } in
    let command = execute_command o s' (c_string ended) in
    then_prompt o (if ltb 0 s.shell_cmd_pos then command else some (s', goes_on))

-- A character of the line.
unfoldable pub shell_key : Outside → Shell → ℕ → Option (Shell × Started)
shell_key o s c =
    let send = Serial.putchar o.device Serial.com1 o.fuel in
    let shorter : Shell = record s {
      shell_cmd_pos = s.shell_cmd_pos - 1;
      env = with_vga s.env (Vga.puts (vga_of s) (8 ∷ 32 ∷ 8 ∷ []));
    } in
    let longer : Shell = record s {
      shell_cmd_buf = set s.shell_cmd_buf s.shell_cmd_pos c;
      shell_cmd_pos = s.shell_cmd_pos + 1;
      env = with_vga s.env (Vga.putchar (vga_of s) c);
    } in
    if c == 8
    then if ltb 0 s.shell_cmd_pos
      then finished shorter goes_on
          (Serial.then_put (send 8 s.env.ports) (λ h. Serial.then_put (send 32 h) (send 8)))
      else some (s, goes_on)
    else if c == 10
    then ended_line o (on_both o s (Vga.putchar (vga_of s) 10) (13 ∷ 10 ∷ []))
    else if ltb s.shell_cmd_pos 63
    then finished longer goes_on (send c s.env.ports)
    else some (s, goes_on)

-- A carriage return of the serial line becomes a line feed, a delete a backspace.
abbrev pub from_serial : ℕ → ℕ
from_serial c = let fed = if c == 13 then 10 else c in if fed == 0x7F then 8 else fed

unfoldable pub received_char : Shell → Option (History × ℕ) → Option (Shell × ℕ)
received_char s none = none
received_char s (some (h, c)) = some (record s { env = record s.env { ports = h } }, from_serial c)

-- The character of a round: of the keyboard, else of the serial line, else 0.
unfoldable pub next_char : Outside → Shell → Option (Shell × ℕ)
next_char o s =
    let pressed = Keyboard.getchar s.env.keyboard in
    let e1 : Env = record s.env { keyboard = pressed.0 } in
    let e2 : Env = record e1 { ports = Serial.read_line o.device Serial.com1 e1.ports } in
    if not (pressed.1 == 0)
    then some (record s { env = e1 }, pressed.1)
    else if Serial.received o.device Serial.com1 e1.ports
    then received_char (record s { env = e2 }) (Serial.getchar o.device Serial.com1 o.fuel e2.ports)
    else some (record s { env = e2 }, 0)

unfoldable pub char_key : Outside → Option (Shell × ℕ) → Option (Shell × Started)
char_key o none = none
char_key o (some (s, c)) = if c == 0 then some (s, goes_on) else shell_key o s c

-- A round of the loop.
unfoldable pub shell_round : Outside → Shell → Option (Shell × Started)
shell_round o s = char_key o (next_char o s)
