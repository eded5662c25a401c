-- ===== src/Args/Words.antt =====
-- The arguments that kernel/args.c finds in a line of words.
use magnos.Base.{
  ℕ, zero, suc, ◌+◌, ◌-◌, ◌≤◌, ◌<◌, ◌≡◌, refl, ◌∙◌, ap, min, true, false, List, [], ◌∷◌, ◌++◌,
  Option, some, ltb, ◌==◌, set, length, get_or, length-set, get_or-set_self, get_or-set_ne, arith,
  Each, Bool-cases, inl, inr,
}
use magnos.Args.{
  max_args, max_arg_len, space, ProgramArgs, cleared, skip_spaces, cons_word, take_word, add_arg,
  is_end, parse_args, with_program, parse_command_line,
}

-- A word of a line: one to 63 characters, none of them a space.
abbrev pub IsWord : List ℕ → Type 0
IsWord w = (0 < length w) × (length w < max_arg_len) × Each (λ c. (c == space) ≡ false) w

-- Spaces in front of the rest of a line.
pub spaced : ℕ → List ℕ → List ℕ
spaced zero cs = cs
spaced (suc n) cs = space ∷ spaced n cs

-- The words of a line, each behind one space and `g` more, with `n` spaces at the end.
pub line_of : List (ℕ × List ℕ) → ℕ → List ℕ
line_of [] n = spaced n []
line_of ((g, w) ∷ ws) n = spaced (suc g) (w ++ line_of ws n)

skip_spaces-spaced : (n : ℕ) (cs : List ℕ) → skip_spaces (spaced n cs) ≡ skip_spaces cs
unfolding spaced skip_spaces
skip_spaces-spaced zero cs = refl
skip_spaces-spaced (suc n) cs = skip_spaces-spaced n cs

skip_spaces-word : (w cs : List ℕ) → IsWord w → skip_spaces (w ++ cs) ≡ w ++ cs
unfolding skip_spaces
skip_spaces-word [] cs h = absurd (omega (arith, h.0))
skip_spaces-word (c ∷ w) cs h = rw h.2.0 refl

-- The rest of a line behind a word: it begins with a space, or is empty.
abbrev Ends : List ℕ → Type 0
Ends [] = Unit {0}
Ends (c ∷ cs) = (c == space) ≡ true

take_word-end : (room : ℕ) (cs : List ℕ) → Ends cs → take_word room cs ≡ ([], cs)
unfolding take_word
take_word-end zero cs h = refl
take_word-end (suc room) [] h = refl
take_word-end (suc room) (c ∷ cs) h = rw h refl

take_word-word :
    (room : ℕ) (w cs : List ℕ)
    → length w ≤ room
    → Each (λ c. (c == space) ≡ false) w
    → Ends cs
    → take_word room (w ++ cs) ≡ (w, cs)
unfolding take_word cons_word
take_word-word room [] cs h e ends = take_word-end room cs ends
take_word-word zero (c ∷ w) cs h e ends = absurd (omega arith)
take_word-word (suc room) (c ∷ w) cs h e ends =
    rw e.0 (rw (take_word-word room w cs (omega arith) e.1 ends) refl)

line_of-Ends : (ws : List (ℕ × List ℕ)) (n : ℕ) → Ends (line_of ws n)
unfolding line_of spaced
line_of-Ends [] zero = _
line_of-Ends [] (suc n) = refl
line_of-Ends ((g, w) ∷ ws) n = refl

-- One round of the loop.
parse_args-word :
    (fuel g n : ℕ) (w : List ℕ) (ws : List (ℕ × List ℕ)) (a : ProgramArgs)
    → IsWord w
    → a.count < max_args
    → parse_args (suc fuel) (line_of ((g, w) ∷ ws) n) a
      ≡ parse_args fuel (line_of ws n) (record { args = set a.args a.count w; count = a.count + 1 })
unfolding parse_args line_of is_end spaced add_arg
parse_args-word fuel g n [] ws a h lt = absurd (omega (arith, h.0))
parse_args-word fuel g n (c ∷ w) ws a h lt =
    let skip : skip_spaces (spaced (suc g) ((c ∷ w) ++ line_of ws n)) ≡ (c ∷ w) ++ line_of ws n =
      skip_spaces-spaced (suc g) ((c ∷ w) ++ line_of ws n)
      ∙ skip_spaces-word (c ∷ w) (line_of ws n) h in
    let taken : take_word 63 ((c ∷ w) ++ line_of ws n) ≡ (c ∷ w, line_of ws n) =
      take_word-word 63 (c ∷ w) (line_of ws n) (omega (arith, h.1)) h.2 (line_of-Ends ws n) in
    let room : ltb a.count max_args ≡ true = ground arith in rw skip (rw taken (rw room refl))

parse_args-full :
    (fuel : ℕ) (cs : List ℕ) (a : ProgramArgs)
    → max_args ≤ a.count
    → parse_args (suc fuel) cs a ≡ some a
unfolding parse_args is_end
parse_args-full fuel [] a h = refl
parse_args-full fuel (c ∷ cs) a h =
    let full : ltb a.count max_args ≡ false = ground arith in rw full refl

parse_args-end : (fuel n : ℕ) (a : ProgramArgs) → parse_args (suc fuel) (line_of [] n) a ≡ some a
unfolding parse_args line_of is_end spaced skip_spaces
parse_args-end fuel zero a = refl
parse_args-end fuel (suc n) a = elim (Bool-cases (ltb a.count max_args)) [
  | inl e ↦ rw e (rw (skip_spaces-spaced n []) refl)
  | inr e ↦ rw e refl
]

-- The arguments behind those of `a`: the words of `ws` as far as there is room.
abbrev pub Appended : ProgramArgs → List (ℕ × List ℕ) → ProgramArgs → Type 0
Appended a ws a' =
    (a'.count ≡ min max_args (a.count + length ws))
    × ((i : ℕ) → i < a.count → get_or a'.args i [] ≡ get_or a.args i [])
    × ((j : ℕ)
        → j < length ws
        → a.count + j < max_args
        → get_or a'.args (a.count + j) [] ≡ (get_or ws j (0, [])).1)

words_at :
    (a a' : ProgramArgs) (g : ℕ) (w : List ℕ) (ws : List (ℕ × List ℕ))
    → get_or a'.args a.count [] ≡ w
    → ((j : ℕ)
        → j < length ws
        → a.count + 1 + j < max_args
        → get_or a'.args (a.count + 1 + j) [] ≡ (get_or ws j (0, [])).1)
    → (j : ℕ) → j < suc (length ws)
    → a.count + j < max_args
    → get_or a'.args (a.count + j) [] ≡ (get_or ((g, w) ∷ ws) j (0, [])).1
words_at a a' g w ws first later zero lt room = ap (λ t. get_or a'.args t []) (omega arith) ∙ first
words_at a a' g w ws first later (suc j) lt room =
    ap (λ t. get_or a'.args t []) (omega arith) ∙ later j (omega arith) (omega arith)

parse_args-Appended :
    (fuel n : ℕ) (ws : List (ℕ × List ℕ)) (a : ProgramArgs)
    → max_args < a.count + fuel
    → a.count ≤ max_args
    → length a.args ≡ max_args
    → Each (λ p. IsWord p.1) ws
    → (a' : ProgramArgs) × (parse_args fuel (line_of ws n) a ≡ some a') × Appended a ws a'
parse_args-Appended zero n ws a f le len h = absurd (omega arith)
parse_args-Appended (suc fuel) n [] a f le len h =
    (a, parse_args-end fuel n a, (omega arith, λ i lt. refl, λ j lt. absurd (omega arith)))
parse_args-Appended (suc fuel) n ((g, w) ∷ ws) a f le len h =
    elim (Bool-cases (ltb a.count max_args)) [
      | inl e ↦
          let lt : a.count < max_args = ground arith in
          let a1 : ProgramArgs = record { args = set a.args a.count w; count = a.count + 1 } in
          let (a', run, (count, old, new)) =
            parse_args-Appended fuel n ws a1 (omega arith) (omega arith)
              (length-set a.args a.count w ∙ len) h.1 in
          (
            a',
            parse_args-word fuel g n w ws a h.0 lt ∙ run,
            (
              omega arith,
              λ i lt'. old i (omega arith) ∙ get_or-set_ne a.args a.count i w [] (omega arith),
              words_at a a' g w ws
                  (old a.count (omega arith) ∙ get_or-set_self a.args a.count w [] (omega arith))
                  new,
            ),
          )
      | inr e ↦ (
        a,
        parse_args-full fuel (line_of ((g, w) ∷ ws) n) a (ground arith),
        (ground arith, λ i lt. refl, λ j lt lt'. absurd (ground arith)),
      )
    ]

-- What the parser makes of a line: the program, and the words behind it in order, as far as there is room for them.
abbrev pub Parses : List ℕ → List (ℕ × List ℕ) → Option (List ℕ × ProgramArgs) → Type 0
Parses program ws result =
    (a : ProgramArgs) × (result ≡ some (program, a))
    × (a.count ≡ min max_args (length ws))
    × ((j : ℕ) → j < length ws → j < max_args → get_or a.args j [] ≡ (get_or ws j (0, [])).1)

pub parse_command_line_run :
    (fuel : ℕ) (cmdline program rest : List ℕ) (a : ProgramArgs)
    → take_word (max_arg_len - 1) (skip_spaces cmdline) ≡ (program, rest)
    → parse_args fuel rest cleared ≡ some a
    → parse_command_line fuel cmdline ≡ some (program, a)
unfolding parse_command_line with_program
parse_command_line_run fuel cmdline program rest a e run = rw e (rw run refl)

-- `parse_command_line` of a program name and further words, each of one to 63 characters without a space and
-- behind any number of spaces (at least one for the further words), with spaces at the end, ends within 17 rounds; it
-- finds the program name, counts the further words up to 16, and stores the first 16 of them in order.
pub parse_command_line-Parses :
    (fuel g n : ℕ) (program : List ℕ) (ws : List (ℕ × List ℕ))
    → max_args < fuel
    → IsWord program
    → Each (λ p. IsWord p.1) ws
    → Parses program ws (parse_command_line fuel (spaced g (program ++ line_of ws n)))
unfolding cleared
parse_command_line-Parses fuel g n program ws f h hs =
    let (a, run, (count, old, new)) =
      parse_args-Appended fuel n ws cleared (omega arith) (omega arith) refl hs in
    let taken : take_word (max_arg_len - 1) (skip_spaces (spaced g (program ++ line_of ws n)))
        ≡ (program, line_of ws n) =
      ap (take_word (max_arg_len - 1))
        (skip_spaces-spaced g (program ++ line_of ws n) ∙ skip_spaces-word program (line_of ws n) h)
      ∙ take_word-word 63 program (line_of ws n) (omega (arith, h.1)) h.2 (line_of-Ends ws n) in
    (
      a,
      parse_command_line_run fuel (spaced g (program ++ line_of ws n)) program (line_of ws n) a
          taken run,
      omega arith,
      λ j lt room. ap (λ t. get_or a.args t []) (omega arith) ∙ new j lt (omega arith),
    )
