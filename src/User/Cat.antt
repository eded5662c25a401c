-- ===== src/User/Cat.antt =====
-- userspace/cat.c, over the calls for files of kernel/syscall.c. The addresses of its two buffers are arguments; `rounds`
-- bounds its loop, and `none` means that it still runs. What it prints is a text, with the result of the program.
use magnos.Base.{
  ℕ, zero, suc, ◌^◌, List, [], ◌∷◌, ◌++◌, Option, none, some, leb, ◌==◌, if◌then◌else◌, text,
}
use magnos.Disk.{Disk}
use magnos.Syscall.{Sys, minus, file_open, file_read, file_close, get_args}
use magnos.User.Shell.{c_string}

abbrev pub Printed : Type 0
Printed = Sys × List ℕ × ℕ

abbrev pub print_before : List ℕ → Option Printed → Option Printed
print_before t none = none
print_before t (some (s, more, code)) = some (s, t ++ more, code)

-- What follows a read: an error, the end of the file, or a text up to its first NUL.
unfoldable pub cat_chunk : (Sys → Option Printed) → Option (Sys × ℕ × List ℕ) → Option Printed
cat_chunk more none = none
cat_chunk more (some (s, count, bytes)) =
    if leb (2 ^ 31) count
    then some ((file_close s).0, text "cat: Error reading file\n", 1)
    else if count == 0
    then some ((file_close s).0, [], 0)
    else print_before (c_string (bytes ++ (0 ∷ []))) (more s)

-- The loop.
unfoldable pub cat_loop : ℕ → ℕ → Disk → ℕ → Sys → Option Printed
cat_loop zero fuel disk buffer s = none
cat_loop (suc rounds) fuel disk buffer s =
    cat_chunk (cat_loop rounds fuel disk buffer) (file_read fuel disk s buffer 1023)

unfoldable pub cat_opened : (Sys → Option Printed) → List ℕ → Option (Sys × ℕ) → Option Printed
cat_opened loop filename none = none
cat_opened loop filename (some (s, result)) =
    if result == 0 then loop s else some (s, text "cat: " ++ filename ++ text ": No such file\n", 1)

unfoldable pub cat_named : ℕ → ℕ → Disk → ℕ → Sys → ℕ × Option (List ℕ) → Option Printed
cat_named rounds fuel disk buffer s (code, none) =
    some (s, text "Error: Failed to get filename argument\n", 1)
cat_named rounds fuel disk buffer s (code, some filename) =
    cat_opened (cat_loop rounds fuel disk buffer) filename (file_open fuel disk s (some filename))

-- `main`
unfoldable pub cat_main : ℕ → ℕ → Disk → ℕ → ℕ → Sys → Option Printed
cat_main rounds fuel disk buffer name_buffer s =
    if (get_args s (minus 1) 0 0).0 == 0
    then some (s, text "Usage: cat <filename>\n", 1)
    else cat_named rounds fuel disk buffer s (get_args s 0 name_buffer 64)
