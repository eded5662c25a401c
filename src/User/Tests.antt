-- ===== src/User/Tests.antt =====
-- The programs of userspace/ on concrete answers and lines.
use magnos.Base.{
  true, some, not, ◌==◌, holds_below, holds_below_at, ℕ, ◌≡◌, refl, List, [], ◌∷◌, arith, replicate,
  text,
}
use magnos.User.{uint_to_str}
use magnos.User.Decimal.{Writes, uint_to_str-Writes}
use magnos.User.Shell.{Shell, key, typed}
use magnos.User.Line.{Holds, edited, edit}
use magnos.Fat32.Sample.{small_disk, small_fs, contents, bytes_at, numbered}
use magnos.Fat32.Chains.{window}
use magnos.Syscall.{Sys}
use magnos.Syscall.Sample.{sys, first_entry, lower_name, sys-HasFile, size_lem}
use magnos.User.Cat.{cat_main}
use magnos.User.Whole.{Called, IsText, cat_main-whole}
use magnos.User.Commands.{Enters, enter-typed}

uint_to_str-Writes_example : Writes 4294967295 (uint_to_str 4294967295)
uint_to_str-Writes_example = uint_to_str-Writes 4294967295 (omega arith)

abbrev start : Shell
start = record { cmd_buf = replicate 64 0; cmd_pos = 0 }

start-Holds : Holds start []
start-Holds = record { size = refl; short = omega arith; written = refl }

-- "lx", a backspace, and "s".
abbrev line_keys : List ℕ
line_keys = 108 ∷ 120 ∷ 8 ∷ 115 ∷ []

abbrev results : List ℕ → ℕ
results cmd = 0

enter-typed_example :
    (now : Shell) × (typed results start line_keys ≡ some now)
    × Enters results (edited [] line_keys) (key results now 10)
enter-typed_example =
    enter-typed results start line_keys (λ cmd. omega arith) start-Holds
      (
        (omega arith, omega arith),
        (
          (omega arith, omega arith),
          ((omega arith, omega arith), ((omega arith, omega arith), tt)),
        ),
      )

edited-text : edited [] line_keys ≡ text "ls"
unfolding edited edit
edited-text = refl

-- `cat a.txt`
abbrev cat_sys : Sys
cat_sys = record sys {
  current_program_args = record { args = text "a.txt" ∷ replicate 15 []; count = 1 };
}

hello_table : holds_below 5 (λ i. not (contents i == 0)) ≡ true
unfolding holds_below bytes_at numbered
hello_table = refl

hello-IsText : IsText contents 5
hello-IsText i lt zero_byte =
    ground (arith, holds_below_at 5 (λ j. not (contents j == 0)) i hello_table lt, zero_byte)

cat-Called : Called small_disk cat_sys contents (text "a.txt") (2 ∷ []) (3 ∷ []) first_entry
unfolding small_fs
cat-Called = record {
  some_arg = omega arith;
  first = refl;
  short = omega arith;
  name_text = lower_name;
  initialized = refl;
  sectors = omega arith;
  has = sys-HasFile;
  small = omega arith;
  all_text = λ i lt. hello-IsText i (omega (arith, lt, size_lem));
}

cat_main-whole_example :
    (s' : Sys) × (cat_main 6 1024 small_disk 0x2FF000 0x2FF800 cat_sys
      ≡ some (s', window contents 0 first_entry.file_size, 0))
cat_main-whole_example =
    cat_main-whole 6 1024 small_disk 0x2FF000 0x2FF800 cat_sys contents (text "a.txt") (2 ∷ [])
      (3 ∷ []) first_entry cat-Called (omega arith) (omega arith) (omega arith) (omega arith)
      (omega (arith, size_lem))
