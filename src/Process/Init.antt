-- ===== src/Process/Init.antt =====
-- `process_init` sets up the invariant of the process table.
use magnos.Base.{
  ℕ, zero, suc, ◌<◌, ◌≡◌, refl, ◌∙◌, ap, List, [], ◌∷◌, arith, length, get_or, get_or-set_self,
  get_or-set_ne, length-set, sym,
}
use magnos.Process.{Procs, Process, unused, max_processes, blank, is_running, reset_table, init}
use magnos.Process.Schedule.{IsValid}

length-reset_table : (t : List Process) → length (reset_table t) ≡ length t
unfolding reset_table
length-reset_table [] = refl
length-reset_table (p ∷ ps) = ap suc (length-reset_table ps)

reset_table_unused : (t : List Process) (j : ℕ) → (get_or (reset_table t) j blank).state ≡ unused
unfolding reset_table
reset_table_unused [] j = refl
reset_table_unused (p ∷ ps) zero = refl
reset_table_unused (p ∷ ps) (suc j) = reset_table_unused ps j

-- Whatever the table of 16 slots held, `process_init` leaves one process that runs, the current one,
-- in slot 0.
pub init-IsValid : (s : Procs) → length s.table ≡ max_processes → IsValid (init s)
unfolding init
init-IsValid s size =
    let has_zero : 0 < length (reset_table s.table) =
      omega (arith, length-reset_table s.table, size) in
    record {
      size = length-set (reset_table s.table) 0 _ ∙ length-reset_table s.table ∙ size;
      cur = 0;
      is_current = refl;
      cur_in = omega arith;
      runs =
          ap (λ (p : Process). p.state) (get_or-set_self (reset_table s.table) 0 _ blank has_zero);
      alone = λ j hj jn.
          ap (λ (p : Process). is_running p.state)
            (get_or-set_ne (reset_table s.table) 0 j _ blank (λ e. jn (sym e)))
          ∙ ap is_running (reset_table_unused s.table j);
    }
