-- ===== src/Args/Tests.antt =====
-- Lines for the parser of kernel/args.c.
use magnos.Base.{ℕ, ◌<◌, ◌≡◌, refl, ◌++◌, List, [], ◌∷◌, some, arith, replicate, length}
use magnos.Args.{
  max_arg_len, ProgramArgs, cleared, skip_spaces, cons_word, take_word, add_arg, is_end, parse_args,
  with_program, parse_command_line,
}
use magnos.Args.Words.{spaced, line_of, Parses, parse_command_line-Parses}
use magnos.Args.Bounds.{IsBounded, parse_command_line-IsBounded}

-- `ls`
abbrev ls : List ℕ
ls = 108 ∷ 115 ∷ []

-- `a`, and `bc` behind three spaces
abbrev two_words : List (ℕ × List ℕ)
two_words = (0, 97 ∷ []) ∷ (2, 98 ∷ 99 ∷ []) ∷ []

parse_command_line-Parses_example :
    Parses ls two_words (parse_command_line 17 (spaced 1 (ls ++ line_of two_words 1)))
parse_command_line-Parses_example =
    parse_command_line-Parses 17 1 1 ls two_words (omega arith)
      (omega arith, omega arith, (refl, (refl, _)))
      ((omega arith, omega arith, (refl, _)), ((omega arith, omega arith, (refl, (refl, _))), _))

parse_command_line-IsBounded_example :
    (program : List ℕ) × (a : ProgramArgs) × (parse_command_line 17 (replicate 100 97)
      ≡ some (program, a))
    × (length program < max_arg_len)
    × IsBounded a
parse_command_line-IsBounded_example =
    parse_command_line-IsBounded 17 (replicate 100 97) (omega arith)

-- The 64th character of a program name becomes the first argument.
long_name :
    parse_command_line 17 (replicate 64 97)
    ≡ some (replicate 63 97, record { args = (97 ∷ []) ∷ replicate 15 []; count = 1 })
unfolding parse_command_line with_program parse_args is_end add_arg take_word cons_word skip_spaces
    cleared
long_name = refl
