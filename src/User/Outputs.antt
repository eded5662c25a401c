-- ===== src/User/Outputs.antt =====
-- The programs userspace/free.c, userspace/uptime.c and userspace/ls.c print all that they are to print: no number is
-- too long for its buffer, and `ls` reads no entry that was not written.
use magnos.Base.{
  ℕ, zero, suc, ◌/◌, ◌^◌, ◌≤◌, ◌<◌, ◌≡◌, refl, List, [], ◌∷◌, ◌++◌, Option, some, ◌==◌, leb, length,
  Bool-cases, inl, inr, Each, arith, text,
}
use magnos.Fat32.Dir.{DirInfo}
use magnos.User.{Output, word, put, uint_to_str, free_main, entry_line, entry_lines, ls_main}
use magnos.User.Decimal.{uint_to_str-Writes}

abbrev pub Printed : Option (List ℕ) → Type 0
Printed piece = (str : List ℕ) × (piece ≡ some str)

abbrev pub Whole : Output → Type 0
Whole out = Each Printed out

number-Whole : (val : ℕ) → val < 2 ^ 32 → (str : List ℕ) × (uint_to_str val ≡ some str)
number-Whole val h = let written = uint_to_str-Writes val h in (written.0, written.1)

Whole-append : (a b : Output) → Whole a → Whole b → Whole (a ++ b)
Whole-append [] b ha hb = hb
Whole-append (x ∷ a) b (hx, ha) hb = (hx, Whole-append a b ha hb)

kb_line-Whole :
    {Rest : Type 0} (label : List ℕ) (kb : ℕ)
    → kb < 2 ^ 32
    → Rest
    → Printed (put label) × (Printed (uint_to_str kb) × (Printed (put (text " KB\n")) × Rest))
kb_line-Whole label kb h rest = ((label, refl), (number-Whole kb h, ((text " KB\n", refl), rest)))

word_lem : (n : ℕ) → word n < 2 ^ 32
word_lem n = omega arith

-- For any answers of 32 bits.
pub free_main-Whole :
    (meminfo heap_stats : ℕ → ℕ)
    → ((i : ℕ) → meminfo i < 2 ^ 32)
    → ((i : ℕ) → heap_stats i < 2 ^ 32)
    → Whole (free_main meminfo heap_stats)
unfolding free_main
free_main-Whole meminfo heap_stats pages bytes =
    let part : (i : ℕ) → heap_stats i / 1024 < 2 ^ 32 = λ i. omega (arith, bytes i) in
    kb_line-Whole _ _ (word_lem _) (
      kb_line-Whole _ _ (word_lem _) (
        kb_line-Whole _ _ (word_lem _) (
          (_, refl),
          (
            number-Whole _ (pages 0),
            (
              (_, refl),
              (
                number-Whole _ (pages 1),
                (
                  (_, refl),
                  kb_line-Whole _ _ (part 2) (
                      kb_line-Whole _ _ (part 1)
                        (kb_line-Whole _ _ (part 0) (kb_line-Whole _ _ (word_lem _) tt))),
                ),
              ),
            ),
          ),
        )))

entry_line-Whole : (e : DirInfo) → e.size < 2 ^ 32 → Whole (entry_line e)
entry_line-Whole e h = ((_, refl), ((_, refl), (number-Whole e.size h, ((_, refl), tt))))

entry_lines-Whole :
    (count : ℕ) (entries : List DirInfo)
    → count ≤ length entries
    → Each (λ e. e.size < 2 ^ 32) entries
    → Whole (entry_lines count entries)
unfolding entry_lines
entry_lines-Whole zero entries h each = tt
entry_lines-Whole (suc count) [] h each = absurd (omega arith)
entry_lines-Whole (suc count) (e ∷ entries) h (he, each) =
    Whole-append (entry_line e) (entry_lines count entries) (entry_line-Whole e he)
      (entry_lines-Whole count entries (omega arith) each)

-- `list_dir` answers -1, or has written as many entries as it returns.
pub ls_main-Whole :
    (count : ℕ) (entries : List DirInfo)
    → count < 2 ^ 32
    → (count < 2 ^ 31 → count ≤ length entries)
    → Each (λ e. e.size < 2 ^ 32) entries
    → Whole (ls_main count entries).0
unfolding ls_main
ls_main-Whole count entries bound written each = elim (Bool-cases (leb (2 ^ 31) count)) [
  | inl e ↦ rw e ((_, refl), ((_, refl), tt))
  | inr e ↦ elim (Bool-cases (count == 0)) [
    | inl e' ↦ rw e (rw e' ((_, refl), ((_, refl), tt)))
    | inr e' ↦ rw e (
        rw e' (
          (_, refl),
          Whole-append (entry_lines count entries) _
              (entry_lines-Whole count entries (written (ground arith)) each)
              ((_, refl), (number-Whole count bound, ((_, refl), tt))),
        ))
  ]
]
