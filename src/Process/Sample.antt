-- ===== src/Process/Sample.antt =====
-- A process table in which process 0 runs and two others are ready.
use magnos.Base.{
  ℕ, ◌+◌, ◌≡◌, ◌||◌, refl, true, not, ◌∷◌, some, arith, replicate, holds_below, holds_below_at,
  ◌==◌,
}
use magnos.Process.{Procs, Process, ProcState, running, ready, blocked, blank, state_at, is_running}
use magnos.Process.Schedule.{IsValid}

-- Process 0 runs, 1 is blocked, 2 and 4 are ready, the other slots are unused.
abbrev pub proc : ℕ → ProcState → Process
proc n st = record {
  pid = n;
  name = replicate 16 0;
  state = st;
  esp = 1000 + n;
  eip = 0;
  page_directory = 0;
  kernel_stack = 0;
}

abbrev pub busy : Procs
busy = record {
  table =
      proc 0 running ∷ proc 1 blocked ∷ proc 2 ready ∷ blank ∷ proc 4 ready ∷ replicate 11 blank;
  current = some 0;
  next_pid = 5;
}

pub only_zero : holds_below 16 (λ j. j == 0 || not (is_running (state_at busy j))) ≡ true
unfolding holds_below
only_zero = refl

abbrev pub busy_valid : IsValid busy
busy_valid = record {
  size = refl;
  cur = 0;
  is_current = refl;
  cur_in = omega arith;
  runs = refl;
  alone = λ j hj jn.
      ground (
        arith,
        holds_below_at 16 (λ j. j == 0 || not (is_running (state_at busy j))) j only_zero hj,
      );
}
