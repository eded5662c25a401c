-- ===== src/Shell/Line.antt =====
-- The line of the shell of kernel/kernel.c, against the one of userspace/shell.c and against what is typed.
use magnos.Base.{
  ℕ, ◌+◌, ◌-◌, ◌<◌, ◌≡◌, ◌≢◌, refl, sym, ◌∙◌, ap, subst, true, false, List, [], ◌∷◌, Option, none,
  some, ltb, ◌==◌, length, set, Bool-cases, inl, inr, Each, arith,
}
use magnos.Ports.{History}
use magnos.Serial
use magnos.Serial.Lines.{Sends, put, puts-line}
use magnos.Vga
use magnos.Syscall.Handler.{with_vga}
use magnos.Syscall.Dispatch.{Outside}
use magnos.User.Shell.{buf_size}
use magnos.User.Shell as UserShell
use magnos.User.Line.{edit, edited, Holds, Typeable, StillHolds, pos_lem, key-StillHolds}
use magnos.User.Strings.{c_string-set, edited-Each}
use magnos.Shell.{
  Shell, Started, goes_on, runs, finished, vga_of, execute_command, then_prompt, ended_line,
  shell_key,
}

-- The buffer and the position as those of the shell of userspace.
abbrev pub line_of : Shell → UserShell.Shell
line_of s = record { cmd_buf = s.shell_cmd_buf; cmd_pos = s.shell_cmd_pos }

-- The shell goes on, with what the shell of userspace has.
abbrev Follows : Option UserShell.Shell → Option (Shell × Started) → Type 0
Follows u r = (s' : Shell) × (r ≡ some (s', goes_on)) × (some (line_of s') ≡ u)

finished-Follows :
    (s : Shell) (r : Option History) (h : History)
    → r ≡ some h
    → Follows (some (line_of s)) (finished s goes_on r)
finished-Follows s r h e =
    (record s { env = record s.env { ports = h } }, ap (finished s goes_on) e, refl)

-- The three characters that erase one.
erased :
    (o : Outside) (h : History)
    → Sends o.device Serial.com1 o.fuel
    → let send = Serial.putchar o.device Serial.com1 o.fuel in
      (h' : History) × (Serial.then_put (send 8 h) (λ h1. Serial.then_put (send 32 h1) (send 8))
        ≡ some h')
erased o h ready =
    let send = Serial.putchar o.device Serial.com1 o.fuel in
    let (h1, e1, sent1) = put o.device Serial.com1 o.fuel 8 h ready in
    let (h2, e2, sent2) = put o.device Serial.com1 o.fuel 32 h1 ready in
    let (h3, e3, sent3) = put o.device Serial.com1 o.fuel 8 h2 ready in
    (
      h3,
      ap (λ r. Serial.then_put r (λ t. Serial.then_put (send 32 t) (send 8))) e1
          ∙ ap (λ r. Serial.then_put r (send 8)) e2
          ∙ e3,
    )

no_results : List ℕ → ℕ
no_results cmd = 0

shell_key-Follows :
    (o : Outside) (s : Shell) (c : ℕ)
    → Sends o.device Serial.com1 o.fuel
    → c ≢ 10
    → Follows (UserShell.key no_results (line_of s) c).0 (shell_key o s c)
unfolding shell_key UserShell.key UserShell.backspace UserShell.letter
shell_key-Follows o s c ready other =
    let no_enter : (c == 10) ≡ false = ground arith in
    elim (Bool-cases (c == 8)) [
      | inl back ↦ elim (Bool-cases (ltb 0 s.shell_cmd_pos)) [
        | inl some_left ↦
            let (h, e) = erased o s.env.ports ready in
            rw back (
              rw some_left (
                finished-Follows
                  (record s {
                    shell_cmd_pos = s.shell_cmd_pos - 1;
                    env = with_vga s.env (Vga.puts (vga_of s) (8 ∷ 32 ∷ 8 ∷ []));
                  })
                  _ h e))
        | inr empty ↦ rw back (rw empty (s, refl, refl))
      ]
      | inr letter ↦ elim (Bool-cases (ltb s.shell_cmd_pos 63)) [
        | inl room ↦
            let (h, e, bytes) = put o.device Serial.com1 o.fuel c s.env.ports ready in
            rw letter (
              rw no_enter (
                rw room (
                  finished-Follows
                    (record s {
                      shell_cmd_buf = set s.shell_cmd_buf s.shell_cmd_pos c;
                      shell_cmd_pos = s.shell_cmd_pos + 1;
                      env = with_vga s.env (Vga.putchar (vga_of s) c);
                    })
                    _ h e)))
        | inr full ↦ rw letter (rw no_enter (rw full (s, refl, refl)))
      ]
    ]

unfoldable pub more_keys :
    Option (Shell × Started) → (Shell → Option (Shell × Started)) → Option (Shell × Started)
more_keys none more = none
more_keys (some (s, runs entry esp)) more = some (s, runs entry esp)
more_keys (some (s, goes_on)) more = more s

-- The characters of a line.
unfoldable pub shell_keys : Outside → Shell → List ℕ → Option (Shell × Started)
shell_keys o s [] = some (s, goes_on)
shell_keys o s (c ∷ cs) = more_keys (shell_key o s c) (λ s'. shell_keys o s' cs)

-- All characters but NUL and Enter: the shell takes them, and stands at the line as edited.
shell_keys-Holds :
    (o : Outside) (s : Shell) (line cs : List ℕ)
    → Sends o.device Serial.com1 o.fuel
    → Holds (line_of s) line
    → Each Typeable cs
    → (s' : Shell) × (shell_keys o s cs ≡ some (s', goes_on)) × Holds (line_of s') (edited line cs)
unfolding shell_keys more_keys edited
shell_keys-Holds o s line [] ready h each = (s, refl, h)
shell_keys-Holds o s line (c ∷ cs) ready h (hc, each) =
    let (s1, run, same) = shell_key-Follows o s c ready hc.1 in
    let h1 : Holds (line_of s1) (edit line c) =
      subst (λ u. StillHolds u (edit line c)) (sym same)
        (key-StillHolds no_results (line_of s) line c h hc.1) in
    let (s2, runs', h2) = shell_keys-Holds o s1 (edit line c) cs ready h1 each in
    (s2, ap (λ r. more_keys r (λ s'. shell_keys o s' cs)) run ∙ runs', h2)

-- The state in which the command of a line runs: the line is ended, and the line break stands on the screen and went to
-- the serial port.
pub record Submits (o : Outside) (s s' : Shell) : Type 0 where
  pub buffer : s'.shell_cmd_buf ≡ set s.shell_cmd_buf s.shell_cmd_pos 0
  pub sys : s'.env.kernel.sys ≡ s.env.kernel.sys
  pub memory : s'.env.kernel.machine.memory ≡ s.env.kernel.machine.memory
  pub files : s'.binary_buffer ≡ s.binary_buffer

enter-execute_command :
    (o : Outside) (s : Shell) (line : List ℕ)
    → Sends o.device Serial.com1 o.fuel
    → Holds (line_of s) line
    → 0 < length line
    → Each (λ c. c ≢ 0) line
    → (s' : Shell) × Submits o s s' × (shell_key o s 10 ≡ then_prompt o (execute_command o s' line))
unfolding shell_key ended_line
enter-execute_command o s line ready h some_text each =
    let at = pos_lem (line_of s) line h in
    let going : ltb 0 s.shell_cmd_pos ≡ true = ground arith in
    let (h', e, bytes) = puts-line o.device Serial.com1 o.fuel (13 ∷ 10 ∷ []) s.env.ports ready in
    let shown : Shell = record s { env = with_vga s.env (Vga.putchar (vga_of s) 10) } in
    let s' : Shell = record shown {
      env = record shown.env { ports = h' };
      shell_cmd_buf = set s.shell_cmd_buf s.shell_cmd_pos 0;
    } in
    let string : UserShell.c_string (set s.shell_cmd_buf s.shell_cmd_pos 0) ≡ line =
      c_string-set s.shell_cmd_pos s.shell_cmd_buf (omega (arith, h.size, h.short))
        (subst (Each (λ c. c ≢ 0)) (sym h.written) each)
      ∙ h.written in
    (
      s',
      record { buffer = refl; sys = refl; memory = refl; files = refl },
      ap (λ r. ended_line o (finished shown goes_on r)) e
          ∙ rw going (ap (λ cmd. then_prompt o (execute_command o s' cmd)) string),
    )

-- The shell of the kernel at the start of a line, where the serial chip gets ready to send within the rounds of the fuel,
-- and any characters but NUL and Enter: the shell takes them all. If the line as edited, of which each backspace has taken
-- the last character and which nothing is added to behind 63 characters, is not empty, then Enter runs `execute_command`
-- on this line, in a state with the files, the memory and the buffer as before it.
pub execute_command-shell_keys :
    (o : Outside) (s : Shell) (cs : List ℕ)
    → Sends o.device Serial.com1 o.fuel
    → Holds (line_of s) []
    → Each Typeable cs
    → 0 < length (edited [] cs)
    → (s1 : Shell) × (s2 : Shell) × (shell_keys o s cs ≡ some (s1, goes_on))
      × Submits o s1 s2
      × (shell_key o s1 10 ≡ then_prompt o (execute_command o s2 (edited [] cs)))
execute_command-shell_keys o s cs ready start each some_text =
    let (s1, run, h) = shell_keys-Holds o s [] cs ready start each in
    let (s2, submits, enter) =
      enter-execute_command o s1 (edited [] cs) ready h some_text (edited-Each [] cs tt each) in
    (s1, s2, run, submits, enter)
