-- ===== src/User/Commands.antt =====
-- The commands of the shell of userspace/shell.c against the line that is typed.
use magnos.Base.{
  ℕ, ◌^◌, ◌<◌, ◌≡◌, ◌≢◌, refl, sym, ◌∙◌, ap, subst, Bool, true, false, List, [], ◌∷◌, ◌++◌, Option,
  none, some, text, ltb, ◌==◌, if◌then◌else◌, length, set, length-set, Bool-cases, inl, inr, Each,
  arith,
}
use magnos.User.Shell.{
  Shell, Action, print, clear, exec, exit, buf_size, c_string, strncmp, prompt, complaint, command,
  enter, key, typed,
}
use magnos.User.Line.{edited, Holds, StillHolds, Typeable, pos_lem, typed-StillHolds}
use magnos.Syscall.{minus}
use magnos.User.Strings.{NonZero, c_string-set, edited-Each, strncmp_lem}

-- What is printed for a result of the call that runs a command.
pub data Says (cmd : List ℕ) : ℕ → List Action → Type 0 where
  not_found :
      Says cmd 0xFFFF_FFFF (print (text "Command not found: ") ∷ print cmd ∷ print (text "\n") ∷ [])
  too_large : Says cmd 0xFFFF_FFFE (print (text "Error: File too large\n") ∷ [])
  not_read : Says cmd 0xFFFF_FFFD (print (text "Error: Failed to read file\n") ∷ [])
  not_elf : Says cmd 0xFFFF_FFFC (print (text "Error: Not an ELF binary\n") ∷ [])
  not_run : Says cmd 0xFFFF_FFFB (print (text "Error: Failed to execute\n") ∷ [])
  nothing : (code : ℕ) → code < 0xFFFF_FFFB → Says cmd code []

-- What a line leads to, and whether the shell goes on: an empty line to a new prompt, "clear" to a clear screen and a
-- new prompt, "exit" to the end of the shell, any other to the call for the command, the message for its result and a
-- new prompt.
pub data Responds (results : List ℕ → ℕ) : List ℕ → Bool → List Action → Type 0 where
  blank : Responds results [] true (print (text "MagnOS> ") ∷ [])
  clears : Responds results (text "clear") true (clear ∷ print (text "MagnOS> ") ∷ [])
  left : Responds results (text "exit") false (exit 0 ∷ [])
  called :
      (cmd : List ℕ) (said : List Action)
      → cmd ≢ []
      → cmd ≢ text "clear"
      → cmd ≢ text "exit"
      → Says cmd (results cmd) said
      → Responds results cmd true (exec cmd ∷ said ++ (print (text "MagnOS> ") ∷ []))

complaint-Says : (cmd : List ℕ) (code : ℕ) → code < 2 ^ 32 → Says cmd code (complaint cmd code)
unfolding complaint
complaint-Says cmd code h =
    let at : (n : ℕ) (said : List Action)
        → (code == n) ≡ true
        → Says cmd n said
        → Says cmd code said =
      λ n said e s. subst (λ k. Says cmd k said) (ground arith) s in
    elim (Bool-cases (code == minus 1)) [
      | inl e1 ↦ rw e1 (at (minus 1) _ e1 not_found)
      | inr n1 ↦ elim (Bool-cases (code == minus 2)) [
        | inl e2 ↦ rw n1 (rw e2 (at (minus 2) _ e2 too_large))
        | inr n2 ↦ elim (Bool-cases (code == minus 3)) [
          | inl e3 ↦ rw n1 (rw n2 (rw e3 (at (minus 3) _ e3 not_read)))
          | inr n3 ↦ elim (Bool-cases (code == minus 4)) [
            | inl e4 ↦ rw n1 (rw n2 (rw n3 (rw e4 (at (minus 4) _ e4 not_elf))))
            | inr n4 ↦ elim (Bool-cases (code == minus 5)) [
              | inl e5 ↦ rw n1 (rw n2 (rw n3 (rw n4 (rw e5 (at (minus 5) _ e5 not_run)))))
              | inr n5 ↦ rw n1 (rw n2 (rw n3 (rw n4 (rw n5 (nothing code (ground arith))))))
            ]
          ]
        ]
      ]
    ]

command-Responds :
    (results : List ℕ → ℕ) (cmd : List ℕ)
    → results cmd < 2 ^ 32
    → 0 < length cmd
    → length cmd < buf_size
    → let r = command results cmd in Responds results cmd r.0 r.1
unfolding command
command-Responds results cmd code some_text short =
    let as_clear = strncmp_lem cmd (text "clear") buf_size short in
    let as_exit = strncmp_lem cmd (text "exit") buf_size short in
    elim (Bool-cases (strncmp cmd (text "clear") buf_size)) [
      | inl c ↦ rw c (
          subst (λ l. Responds results l true (clear ∷ print prompt ∷ [])) (sym (as_clear.0 c))
            clears)
      | inr nc ↦ elim (Bool-cases (strncmp cmd (text "exit") buf_size)) [
        | inl x ↦
            rw nc
              (rw x (subst (λ l. Responds results l false (exit 0 ∷ [])) (sym (as_exit.0 x)) left))
        | inr nx ↦ rw nc (
            rw nx (
              called cmd (complaint cmd (results cmd))
                (λ e. let none_left : length cmd ≡ 0 = ap length e in omega arith)
                (λ e. let same = as_clear.1 e in cc) (λ e. let same = as_exit.1 e in cc)
                (complaint-Says cmd (results cmd) code)))
      ]
    ]

-- The shell behind Enter: at the start of a line where it goes on, at its end otherwise.
abbrev pub Stands : Option Shell → Bool → Type 0
Stands none goes_on = goes_on ≡ false
Stands (some s) goes_on = (goes_on ≡ true) × Holds s []

-- A line break is printed before the response to a line.
abbrev pub Enters : (List ℕ → ℕ) → List ℕ → Option Shell × List Action → Type 0
Enters results line r =
    (goes_on : Bool) × (actions : List Action) × (r.1 ≡ print (text "\n") ∷ actions)
    × Responds results line goes_on actions
    × Stands r.0 goes_on

Stands_lem :
    (s : Shell) (goes_on : Bool) → Holds s [] → Stands (if goes_on then some s else none) goes_on
Stands_lem s true h = (refl, h)
Stands_lem s false h = refl

no_characters : (line : List ℕ) → length line ≡ 0 → line ≡ []
no_characters [] h = refl
no_characters (c ∷ cs) h = absurd (omega arith)

enter-Enters :
    (results : List ℕ → ℕ) (s : Shell) (line : List ℕ)
    → ((cmd : List ℕ) → results cmd < 2 ^ 32)
    → Holds s line
    → Each NonZero line
    → Enters results line (key results s 10)
unfolding key enter
enter-Enters results s line codes h each =
    let at = pos_lem s line h in
    let string : c_string (set s.cmd_buf s.cmd_pos 0) ≡ line =
      c_string-set s.cmd_pos s.cmd_buf (omega (arith, h.size, h.short))
        (subst (Each NonZero) (sym h.written) each)
      ∙ h.written in
    let ended : Holds (record { cmd_buf = set s.cmd_buf s.cmd_pos 0; cmd_pos = 0 }) [] = record {
      size = length-set s.cmd_buf s.cmd_pos 0 ∙ h.size;
      short = omega arith;
      written = refl;
    } in
    elim (Bool-cases (ltb 0 s.cmd_pos)) [
      | inl some_text ↦
          let does =
            command-Responds results line (codes line) (ground arith) (omega (arith, h.short)) in
          rw some_text (
            rw string (
              (command results line).0,
              (command results line).1,
              refl,
              does,
              Stands_lem _ (command results line).0 ended,
            ))
      | inr empty ↦
          let no_text : line ≡ [] = no_characters line (ground arith) in
          rw empty (
            true,
            print prompt ∷ [],
            refl,
            subst (λ l. Responds results l true (print prompt ∷ [])) (sym no_text) blank,
            (refl, ended),
          )
    ]

-- The shell at the start of a line, any characters but NUL and Enter, then Enter: it runs until Enter, and what
-- follows is the response to the line as edited, of which each backspace has taken the last character and which
-- nothing is added to behind 63 characters. The shell stands at the start of a line again, or has ended where the
-- line is "exit". The results of the call for a command are 32 bits wide.
pub enter-typed :
    (results : List ℕ → ℕ) (s : Shell) (cs : List ℕ)
    → ((cmd : List ℕ) → results cmd < 2 ^ 32)
    → Holds s []
    → Each Typeable cs
    → (now : Shell) × (typed results s cs ≡ some now)
      × Enters results (edited [] cs) (key results now 10)
enter-typed results s cs codes start each =
    stands-at (typed results s cs) refl (typed-StillHolds results s [] cs start each)
  where
    stands-at :
        (r : Option Shell)
        → typed results s cs ≡ r
        → StillHolds r (edited [] cs)
        → (now : Shell) × (typed results s cs ≡ some now)
          × Enters results (edited [] cs) (key results now 10)
    stands-at none e h = absurd h
    stands-at (some now) e h =
        (now, e, enter-Enters results now (edited [] cs) codes h (edited-Each [] cs tt each))
