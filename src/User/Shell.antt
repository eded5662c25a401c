-- ===== src/User/Shell.antt =====
-- userspace/shell.c: the loop of the shell, a character at a time. The line stands in `cmd_buf` up to `cmd_pos`. The
-- result of the call for a command is an argument. The shell is `none` when `main` has returned.
use magnos.Base.{
  ℕ, zero, suc, ◌+◌, ◌-◌, Bool, true, false, List, [], ◌∷◌, ◌++◌, Option, none, some, ltb, ◌==◌,
  if◌then◌else◌, set, text,
}
use magnos.Syscall.{minus}

pub record Shell : Type 0 where
  pub cmd_buf : List ℕ
  pub cmd_pos : ℕ

-- What the shell asks of the kernel.
pub data Action : Type 0 where
  print : List ℕ → Action
  clear : Action
  exec : List ℕ → Action
  exit : ℕ → Action

abbrev pub buf_size : ℕ
buf_size = 64

-- The string in a buffer.
unfoldable pub c_string : List ℕ → List ℕ
c_string [] = []
c_string (c ∷ cs) = let rest = c_string cs in if c == 0 then [] else c ∷ rest

-- Whether `strncmp` returns 0.
unfoldable pub strncmp : List ℕ → List ℕ → ℕ → Bool
strncmp a b zero = true
strncmp [] [] (suc n) = true
strncmp [] (y ∷ b) (suc n) = false
strncmp (x ∷ a) [] (suc n) = false
strncmp (x ∷ a) (y ∷ b) (suc n) = let rest = strncmp a b n in if x == y then rest else false

abbrev pub prompt : List ℕ
prompt = text "MagnOS> "

-- The message for a result.
unfoldable pub complaint : List ℕ → ℕ → List Action
complaint cmd result =
    if result == minus 1
    then print (text "Command not found: ") ∷ print cmd ∷ print (text "\n") ∷ []
    else if result == minus 2
    then print (text "Error: File too large\n") ∷ []
    else if result == minus 3
    then print (text "Error: Failed to read file\n") ∷ []
    else if result == minus 4
    then print (text "Error: Not an ELF binary\n") ∷ []
    else if result == minus 5
    then print (text "Error: Failed to execute\n") ∷ []
    else []

-- Whether the loop goes on behind a command, and what the command leads to.
unfoldable pub command : (List ℕ → ℕ) → List ℕ → Bool × List Action
command results cmd =
    if strncmp cmd (text "clear") buf_size
    then (true, clear ∷ print prompt ∷ [])
    else if strncmp cmd (text "exit") buf_size
    then (false, exit 0 ∷ [])
    else (true, exec cmd ∷ complaint cmd (results cmd) ++ (print prompt ∷ []))

-- The case of '\n'.
unfoldable pub enter : (List ℕ → ℕ) → Shell → Option Shell × List Action
enter results s =
    let ended = set s.cmd_buf s.cmd_pos 0 in
    let (goes_on, actions) =
      if ltb 0 s.cmd_pos then command results (c_string ended) else (true, print prompt ∷ []) in
    (
      if goes_on then some (record { cmd_buf = ended; cmd_pos = 0 }) else none,
      print (10 ∷ []) ∷ actions,
    )

-- The case of '\b'.
unfoldable pub backspace : Shell → Shell × List Action
backspace s =
    if ltb 0 s.cmd_pos
    then (record s { cmd_pos = s.cmd_pos - 1 }, print (8 ∷ 32 ∷ 8 ∷ []) ∷ [])
    else (s, [])

-- Any other character.
unfoldable pub letter : Shell → ℕ → Shell × List Action
letter s c =
    if ltb s.cmd_pos (buf_size - 1)
    then (
      record { cmd_buf = set s.cmd_buf s.cmd_pos c; cmd_pos = s.cmd_pos + 1 },
      print (c ∷ []) ∷ [],
    )
    else (s, [])

abbrev pub going : Shell × List Action → Option Shell × List Action
going (s, actions) = (some s, actions)

-- A round of the loop.
unfoldable pub key : (List ℕ → ℕ) → Shell → ℕ → Option Shell × List Action
key results s c =
    if c == 8 then going (backspace s) else if c == 10 then enter results s else going (letter s c)

unfoldable pub then_typed : Option Shell → (Shell → Option Shell) → Option Shell
then_typed none f = none
then_typed (some s) f = f s

-- The state behind some characters.
unfoldable pub typed : (List ℕ → ℕ) → Shell → List ℕ → Option Shell
typed results s [] = some s
typed results s (c ∷ cs) = then_typed (key results s c).0 (λ s'. typed results s' cs)
