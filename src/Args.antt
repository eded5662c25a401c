-- ===== src/Args.antt =====
-- kernel/args.c: the parser of command lines. A C string is the list of its characters before the terminator; the
-- index `i` of the parser is the part of the line from there on. The loop over the arguments takes fuel, and `none`
-- means that it ran out.
pub mod Words
pub mod Bounds
mod Tests
use magnos.Base.{
  ℕ, zero, suc, ◌+◌, ◌-◌, Bool, List, [], ◌∷◌, Option, none, some, not, ◌||◌, ltb, ◌==◌,
  if◌then◌else◌, replicate, set,
}

abbrev pub max_args : ℕ
max_args = 16

abbrev pub max_arg_len : ℕ
max_arg_len = 64

abbrev pub space : ℕ
space = 32

-- `program_args_t`, each argument up to its terminator
pub record ProgramArgs : Type 0 where
  pub args : List (List ℕ)
  pub count : ℕ

-- The count is reset, and each argument becomes the empty string.
unfoldable pub cleared : ProgramArgs
cleared = record { args = replicate max_args []; count = 0 }

unfoldable pub skip_spaces : List ℕ → List ℕ
skip_spaces [] = []
skip_spaces (c ∷ cs) = let rest = skip_spaces cs in if c == space then rest else c ∷ cs

unfoldable pub cons_word : ℕ → List ℕ × List ℕ → List ℕ × List ℕ
cons_word c (word, rest) = (c ∷ word, rest)

-- The loop that copies a word, with room for so many characters: the word, and the line behind it.
unfoldable pub take_word : ℕ → List ℕ → List ℕ × List ℕ
take_word zero cs = ([], cs)
take_word (suc room) [] = ([], [])
take_word (suc room) (c ∷ cs) =
    let longer = cons_word c (take_word room cs) in if c == space then ([], c ∷ cs) else longer

-- The word goes into the next slot, which counts if the word is not empty.
unfoldable pub add_arg : ProgramArgs → List ℕ → ProgramArgs
add_arg a [] = record a { args = set a.args a.count [] }
add_arg a (c ∷ word) = record { args = set a.args a.count (c ∷ word); count = a.count + 1 }

unfoldable pub is_end : List ℕ → Bool
is_end [] = Bool.true
is_end (c ∷ cs) = Bool.false

-- The loop over the arguments.
unfoldable pub parse_args : ℕ → List ℕ → ProgramArgs → Option ProgramArgs
parse_args zero cs a = none
parse_args (suc fuel) cs a =
    let line = skip_spaces cs in
    let taken = take_word (max_arg_len - 1) line in
    let next = parse_args fuel taken.1 (add_arg a taken.0) in
    if is_end cs || not (ltb a.count max_args) then some a else if is_end line then some a else next

unfoldable pub with_program : List ℕ → Option ProgramArgs → Option (List ℕ × ProgramArgs)
with_program program none = none
with_program program (some a) = some (program, a)

unfoldable pub parse_command_line : ℕ → List ℕ → Option (List ℕ × ProgramArgs)
parse_command_line fuel cmdline =
    let taken = take_word (max_arg_len - 1) (skip_spaces cmdline) in
    with_program taken.0 (parse_args fuel taken.1 cleared)
