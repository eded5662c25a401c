-- ===== src/User/Line.antt =====
-- The line of the shell of userspace/shell.c: what is typed, with backspaces and the bound of 63 characters.
use magnos.Base.{
  ℕ, zero, suc, ◌+◌, ◌-◌, ◌≤◌, ◌<◌, ◌≡◌, ◌≢◌, refl, sym, ◌∙◌, ap, ap₂, true, false, List, [], ◌∷◌,
  ◌++◌, Option, none, some, ltb, ◌==◌, if◌then◌else◌, length, set, take, length-set, length-take,
  Bool-cases, inl, inr, Each, arith,
}
use magnos.User.Shell.{Shell, buf_size, backspace, letter, key, then_typed, typed}

-- A line to which characters are added at its end.
unfoldable pub edit : List ℕ → ℕ → List ℕ
edit line c =
    if c == 8
    then take (length line - 1) line
    else if ltb (length line) (buf_size - 1)
    then line ++ (c ∷ [])
    else line

unfoldable pub edited : List ℕ → List ℕ → List ℕ
edited line [] = line
edited line (c ∷ cs) = edited (edit line c) cs

-- The shell stands at a line.
pub record Holds (s : Shell) (line : List ℕ) : Type 0 where
  pub size : length s.cmd_buf ≡ buf_size
  pub short : s.cmd_pos < buf_size
  pub written : take s.cmd_pos s.cmd_buf ≡ line

-- The shell still runs, and stands at a line.
abbrev pub StillHolds : Option Shell → List ℕ → Type 0
StillHolds none line = ⊥
StillHolds (some s) line = Holds s line

abbrev pub Typeable : ℕ → Type 0
Typeable c = (c ≢ 0) × (c ≢ 10)

take-set : (n i : ℕ) (xs : List ℕ) (v : ℕ) → n ≤ i → take n (set xs i v) ≡ take n xs
take-set zero i xs v h = refl
take-set (suc n) i [] v h = refl
take-set (suc n) zero (x ∷ xs) v h = absurd (omega arith)
take-set (suc n) (suc i) (x ∷ xs) v h = ap (λ l. x ∷ l) (take-set n i xs v (omega arith))

take-set_end :
    (i : ℕ) (xs : List ℕ) (v : ℕ)
    → i < length xs
    → take (i + 1) (set xs i v) ≡ take i xs ++ (v ∷ [])
take-set_end i [] v h = absurd (omega arith)
take-set_end zero (x ∷ xs) v h = refl
take-set_end (suc i) (x ∷ xs) v h =
    let next : suc i + 1 ≡ suc (i + 1) = omega arith in
    ap (λ n. take n (x ∷ set xs i v)) next ∙ ap (λ l. x ∷ l) (take-set_end i xs v (omega arith))

take-take : (n m : ℕ) (xs : List ℕ) → n ≤ m → take n (take m xs) ≡ take n xs
take-take zero m xs h = refl
take-take (suc n) zero xs h = absurd (omega arith)
take-take (suc n) (suc m) [] h = refl
take-take (suc n) (suc m) (x ∷ xs) h = ap (λ l. x ∷ l) (take-take n m xs (omega arith))

pub pos_lem : (s : Shell) (line : List ℕ) → Holds s line → length line ≡ s.cmd_pos
pos_lem s line h =
    ap length (sym h.written) ∙ omega (arith, length-take s.cmd_pos s.cmd_buf, h.size, h.short)

-- One character of the line, other than Enter.
pub key-StillHolds :
    (results : List ℕ → ℕ) (s : Shell) (line : List ℕ) (c : ℕ)
    → Holds s line
    → c ≢ 10
    → StillHolds (key results s c).0 (edit line c)
unfolding key edit backspace letter
key-StillHolds results s line c h other =
    let at = pos_lem s line h in
    let no_enter : (c == 10) ≡ false = ground arith in
    elim (Bool-cases (c == 8)) [
      | inl back ↦ elim (Bool-cases (ltb 0 s.cmd_pos)) [
        | inl some_left ↦ rw back (
            rw some_left (record {
              size = h.size;
              short = omega (arith, h.short);
              written =
                  sym (take-take (s.cmd_pos - 1) s.cmd_pos s.cmd_buf (omega arith))
                  ∙ ap₂ (λ n l. take n l) (omega arith) h.written;
            }))
        | inr empty ↦
            let none_left : length line - 1 ≡ s.cmd_pos = ground arith in
            rw back (
              rw empty (record {
                size = h.size;
                short = h.short;
                written =
                    sym (take-take s.cmd_pos s.cmd_pos s.cmd_buf (omega arith))
                    ∙ ap₂ (λ n l. take n l) (sym none_left) h.written;
              }))
      ]
      | inr letter ↦ elim (Bool-cases (ltb s.cmd_pos (buf_size - 1))) [
        | inl room ↦
            let room' : ltb (length line) (buf_size - 1) ≡ true = ground arith in
            rw letter (
              rw no_enter (
                rw room (
                  rw room' (record {
                    size = length-set s.cmd_buf s.cmd_pos c ∙ h.size;
                    short = ground arith;
                    written =
                        take-set_end s.cmd_pos s.cmd_buf c (omega (arith, h.size, h.short))
                        ∙ ap (λ l. l ++ (c ∷ [])) h.written;
                  }))))
        | inr full ↦
            let full' : ltb (length line) (buf_size - 1) ≡ false = ground arith in
            rw letter (rw no_enter (rw full (rw full' h)))
      ]
    ]

then_typed-StillHolds :
    (r : Option Shell) (f : Shell → Option Shell) (line line' : List ℕ)
    → StillHolds r line
    → ((s : Shell) → Holds s line → StillHolds (f s) line')
    → StillHolds (then_typed r f) line'
unfolding then_typed
then_typed-StillHolds none f line line' h more = absurd h
then_typed-StillHolds (some s) f line line' h more = more s h

pub typed-StillHolds :
    (results : List ℕ → ℕ) (s : Shell) (line cs : List ℕ)
    → Holds s line
    → Each Typeable cs
    → StillHolds (typed results s cs) (edited line cs)
unfolding typed edited
typed-StillHolds results s line [] h each = h
typed-StillHolds results s line (c ∷ cs) h (hc, each) =
    then_typed-StillHolds (key results s c).0 (λ s'. typed results s' cs) (edit line c)
      (edited (edit line c) cs) (key-StillHolds results s line c h hc.1)
      (λ s' h'. typed-StillHolds results s' (edit line c) cs h' each)
