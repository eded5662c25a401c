-- ===== src/Shell/Tests.antt =====
-- The shell of the kernel on the small disk.
use magnos.Base.{
  ℕ, ◌<◌, ◌≡◌, refl, ap, sym, subst, ◌∙◌, List, [], ◌∷◌, Option, none, some, arith, length,
  replicate, text, bit_clear,
}
use magnos.Fat32.Dir.{open_file}
use magnos.Args.{ProgramArgs}
use magnos.Serial.Lines.{Sends}
use magnos.Serial
use magnos.Syscall.{uppercase, exec_open}
use magnos.Syscall.Sample.{sys, env, outside, parsed, opened_lem, file_size_lem}
use magnos.Fat32.Sample.{small_disk}
use magnos.User.Line.{Holds, edited, edit}
use magnos.Shell.{Shell, goes_on, command_open, execute_command, shell_key, then_prompt}
use magnos.Shell.Command.{NotEmpty, as_call, exec_open-command_open}
use magnos.Shell.Line.{line_of, shell_keys, Submits, execute_command-shell_keys}

abbrev name_of : Option (List ℕ × ProgramArgs) → List ℕ
name_of none = []
name_of (some (name, args)) = name

-- "a.txt", a file of five bytes.
not_empty : NotEmpty (open_file 20 small_disk sys.fs (uppercase 11 (text "a.txt")))
not_empty = rw opened_lem (omega (arith, file_size_lem))

exec_open-command_open_example :
    as_call (command_open 20 small_disk sys sys.exec_buffer (text "a.txt"))
    ≡ exec_open 20 small_disk sys (some (text "a.txt"))
exec_open-command_open_example =
    exec_open-command_open 20 small_disk sys (text "a.txt") (λ name args e.
      subst (λ n. NotEmpty (open_file 20 small_disk sys.fs (uppercase 11 n)))
        (ap name_of (sym parsed ∙ e)) not_empty)

abbrev shell : Shell
shell = record { env = env; binary_buffer = []; shell_cmd_buf = replicate 64 0; shell_cmd_pos = 0 }

shell-Holds : Holds (line_of shell) []
shell-Holds = record { size = refl; short = omega arith; written = refl }

outside-Sends : Sends outside.device Serial.com1 outside.fuel
unfolding bit_clear
outside-Sends h = (0, omega arith, refl)

abbrev line_keys : List ℕ
line_keys = 108 ∷ 120 ∷ 8 ∷ 115 ∷ []

some_text : 0 < length (edited [] line_keys)
unfolding edited edit
some_text = omega arith

execute_command-shell_keys_example :
    (s1 : Shell) × (s2 : Shell) × (shell_keys outside shell line_keys ≡ some (s1, goes_on))
    × Submits outside s1 s2
    × (shell_key outside s1 10
        ≡ then_prompt outside (execute_command outside s2 (edited [] line_keys)))
execute_command-shell_keys_example =
    execute_command-shell_keys outside shell line_keys outside-Sends shell-Holds
      (
        (omega arith, omega arith),
        (
          (omega arith, omega arith),
          ((omega arith, omega arith), ((omega arith, omega arith), tt)),
        ),
      )
      some_text
