-- ===== src/Args/Bounds.antt =====
-- The bounds that kernel/args.c keeps on every line.
use magnos.Base.{
  ℕ, zero, suc, ◌+◌, ◌-◌, ◌≤◌, ◌<◌, ◌≡◌, refl, ◌∙◌, true, false, List, [], ◌∷◌, some, ltb, ◌==◌,
  replicate, length, length-set, arith, not, ◌||◌, Each, Each-set, Bool-cases, inl, inr,
}
use magnos.Args.{
  max_args, max_arg_len, space, ProgramArgs, cleared, skip_spaces, cons_word, take_word, add_arg,
  is_end, parse_args, parse_command_line,
}
use magnos.Args.Words.{parse_command_line_run}

take_word-length : (room : ℕ) (cs : List ℕ) → length (take_word room cs).0 ≤ room
unfolding take_word cons_word
take_word-length zero cs = omega arith
take_word-length (suc room) [] = omega arith
take_word-length (suc room) (c ∷ cs) = elim (Bool-cases (c == space)) [
  | inl e ↦ rw e (omega arith)
  | inr e ↦ rw e (omega (arith, take_word-length room cs))
]

-- Behind the spaces a word has a first character.
take_word-nonempty :
    (room : ℕ) (cs : List ℕ)
    → is_end (skip_spaces cs) ≡ false
    → 0 < length (take_word (suc room) (skip_spaces cs)).0
unfolding take_word cons_word skip_spaces is_end
take_word-nonempty room [] h = absurd (ground arith)
take_word-nonempty room (c ∷ cs) h = elim (Bool-cases (c == space)) [
  | inl e ↦ rw e (take_word-nonempty room cs (rw e at h))
  | inr e ↦ rw e (rw e (omega arith))
]

-- The string fits in its buffer with its terminator.
abbrev pub IsShort : List ℕ → Type 0
IsShort w = length w < max_arg_len

-- Room for 16 arguments of less than 64 characters, and a count of at most 16.
abbrev pub IsBounded : ProgramArgs → Type 0
IsBounded a = (length a.args ≡ max_args) × (a.count ≤ max_args) × Each IsShort a.args

add_arg-IsBounded :
    (a : ProgramArgs) (w : List ℕ)
    → IsBounded a
    → a.count < max_args
    → 0 < length w
    → length w < max_arg_len
    → IsBounded (add_arg a w) × ((add_arg a w).count ≡ a.count + 1)
unfolding add_arg
add_arg-IsBounded a [] b lt pos short = absurd (omega arith)
add_arg-IsBounded a (c ∷ w) (len, le, each) lt pos short = (
  (
    length-set a.args a.count (c ∷ w) ∙ len,
    omega arith,
    Each-set IsShort a.args a.count (c ∷ w) each short,
  ),
  refl,
)

parse_args-next :
    (fuel : ℕ) (cs : List ℕ) (a : ProgramArgs)
    → (is_end cs || not (ltb a.count max_args)) ≡ false
    → is_end (skip_spaces cs) ≡ false
    → parse_args (suc fuel) cs a
      ≡ parse_args fuel
          (take_word (max_arg_len - 1) (skip_spaces cs)).1
          (add_arg a (take_word (max_arg_len - 1) (skip_spaces cs)).0)
unfolding parse_args
parse_args-next fuel cs a e e' = rw e (rw e' refl)

parse_args-stop :
    (fuel : ℕ) (cs : List ℕ) (a : ProgramArgs)
    → (is_end cs || not (ltb a.count max_args)) ≡ true
    → parse_args (suc fuel) cs a ≡ some a
unfolding parse_args
parse_args-stop fuel cs a e = rw e refl

parse_args-blank :
    (fuel : ℕ) (cs : List ℕ) (a : ProgramArgs)
    → (is_end cs || not (ltb a.count max_args)) ≡ false
    → is_end (skip_spaces cs) ≡ true
    → parse_args (suc fuel) cs a ≡ some a
unfolding parse_args
parse_args-blank fuel cs a e e' = rw e (rw e' refl)

parse_args-IsBounded :
    (fuel : ℕ) (cs : List ℕ) (a : ProgramArgs)
    → max_args < a.count + fuel
    → IsBounded a
    → (a' : ProgramArgs) × (parse_args fuel cs a ≡ some a') × IsBounded a'
parse_args-IsBounded zero cs a f b = absurd (omega (arith, b.1))
parse_args-IsBounded (suc fuel) cs a f b =
    elim (Bool-cases (is_end cs || not (ltb a.count max_args))) [
      | inl e ↦ (a, parse_args-stop fuel cs a e, b)
      | inr e ↦ elim (Bool-cases (is_end (skip_spaces cs))) [
        | inl e' ↦ (a, parse_args-blank fuel cs a e e', b)
        | inr e' ↦
            let line = skip_spaces cs in
            let word : List ℕ = (take_word (max_arg_len - 1) line).0 in
            let (b1, count) =
              add_arg-IsBounded a word b (ground arith) (take_word-nonempty 62 cs e')
                (omega (arith, take_word-length 63 line)) in
            let (a', run, b') =
              parse_args-IsBounded fuel (take_word (max_arg_len - 1) line).1 (add_arg a word)
                (omega arith) b1 in
            (a', parse_args-next fuel cs a e e' ∙ run, b')
      ]
    ]

empty_slots : (n : ℕ) → Each IsShort (replicate n [])
empty_slots zero = _
empty_slots (suc n) = (omega arith, empty_slots n)

-- `parse_command_line` of any line ends within 17 rounds: the program name has less than 64 characters, at most 16
-- arguments are counted, and each of the 16 slots holds less than 64 characters, so that no buffer overflows.
pub parse_command_line-IsBounded :
    (fuel : ℕ) (cmdline : List ℕ)
    → max_args < fuel
    → (program : List ℕ) × (a : ProgramArgs) × (parse_command_line fuel cmdline ≡ some (program, a))
      × (length program < max_arg_len)
      × IsBounded a
unfolding cleared
parse_command_line-IsBounded fuel cmdline f =
    let line = skip_spaces cmdline in
    let taken = take_word (max_arg_len - 1) line in
    let (a, run, b) =
      parse_args-IsBounded fuel taken.1 cleared (omega arith)
        (refl, omega arith, empty_slots max_args) in
    (
      taken.0,
      a,
      parse_command_line_run fuel cmdline taken.0 taken.1 a refl run,
      omega (arith, take_word-length 63 line),
      b,
    )
