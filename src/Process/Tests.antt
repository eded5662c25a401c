-- ===== src/Process/Tests.antt =====
-- The process table at concrete states.
use magnos.Base.{
  ◌&&◌, ◌||◌, ℕ, ◌<◌, ◌≤◌, ◌≡◌, ◌≢◌, refl, true, false, not, [], ◌∷◌, none, some, arith, replicate,
  holds_below, holds_below_at, IsFirst, ◌==◌,
}
use magnos.Pmm
use magnos.Pmm.Alloc.{alloc-zero_iff}
use magnos.Pmm.Init.{init-is_free}
use magnos.Process.{
  Procs, Machine, ProcState, unused, ready, running, max_processes, blank, state_at, is_unused,
  is_running, schedule, create,
}
use magnos.Process.Sample.{proc, busy, busy_valid}
use magnos.Process.Schedule.{IsValid, Switched, ready_after, schedule-Switched, schedule-IsValid}
use magnos.Process.Fairness.{run, schedule_fair}
use magnos.Process.Create.{Created, create-Created}

abbrev zeroed : Procs
zeroed = record { table = replicate 16 blank; current = none; next_pid = 0 }

-- Only slot 0 of `idle` is in use.
abbrev idle : Procs
idle = record { table = proc 0 running ∷ replicate 15 blank; current = some 0; next_pid = 1 }

idle_table :
    holds_below 16 (λ j. (j == 0 || is_unused (state_at idle j)) && not (ready_after idle 0 j))
    ≡ true
unfolding holds_below
idle_table = refl

idle_at :
    (j : ℕ)
    → j < 16
    → ((j == 0 || is_unused (state_at idle j)) && not (ready_after idle 0 j)) ≡ true
idle_at j =
    holds_below_at 16 (λ j. (j == 0 || is_unused (state_at idle j)) && not (ready_after idle 0 j)) j
      idle_table

idle_other : (j : ℕ) → j < 16 → j ≢ 0 → is_unused (state_at idle j) ≡ true
idle_other j h ne = ground (arith, idle_at j h)

idle_running : (st : ProcState) → is_unused st ≡ true → is_running st ≡ false
idle_running unused e = refl
idle_running ready e = cc
idle_running _ e = cc

idle-IsFirst : IsFirst (ready_after idle 0) 1 max_processes none
idle-IsFirst j le lt = ground (arith, idle_at j lt)

busy-IsFirst : IsFirst (ready_after busy 0) 1 max_processes (some 2)
busy-IsFirst = (omega arith, omega arith, refl, λ j le lt. one j le lt)
  where
    one : (j : ℕ) → 1 ≤ j → j < 2 → ready_after busy 0 j ≡ false
    one j le lt = let e : j ≡ 1 = omega arith in rw e refl

schedule-Switched_example : Switched 7 busy 0 2 (schedule 7 busy)
schedule-Switched_example = schedule-Switched 7 busy_valid 2 busy-IsFirst

schedule-IsValid_example : IsValid (schedule 7 busy).0
schedule-IsValid_example = schedule-IsValid 7 busy_valid

schedule_fair_example :
    (n : ℕ) × (n ≤ 15)
    × ((run n (λ k. k) busy).current ≡ some 4)
    × (state_at (run n (λ k. k) busy) 4 ≡ running)
schedule_fair_example = schedule_fair 4 (λ k. k) busy_valid (omega arith) refl

-- A machine with all pages from 0x300000 free.
abbrev machine : Machine
machine = record { procs = idle; bitmap = Pmm.init 0x127000; memory = λ a. 0xdead_beef }

slot_one : IsFirst (λ i. is_unused (state_at idle i)) 0 max_processes (some 1)
slot_one = (omega arith, omega arith, refl, λ j le lt. zeroth j lt)
  where
    zeroth : (j : ℕ) → j < 1 → is_unused (state_at idle j) ≡ false
    zeroth j lt = let e : j ≡ 0 = omega arith in rw e refl

-- Page 0x300 is free and page 0 is not.
has_page : (Pmm.alloc machine.bitmap).1 ≢ 0
has_page e =
    let free = (init-is_free 0x127000 (omega arith)).1 in
    cc (
      (alloc-zero_iff machine.bitmap (free 0 (omega arith))).0 e 0x300 (omega arith),
      free 0x300 (omega arith),
    )

create-Created_example : Created (b'a' ∷ []) 0x5000 machine 1 (create (b'a' ∷ []) 0x5000 machine)
create-Created_example =
    create-Created (b'a' ∷ []) 0x5000 machine 1 refl (init-is_free 0x127000 (omega arith)).0
      slot_one has_page

-- Each 16 slots in use.
abbrev crowded : Machine
crowded = record machine { procs = record idle { table = replicate 16 (proc 3 ready) } }

crowded_table : holds_below 16 (λ j. not (is_unused (state_at crowded.procs j))) ≡ true
unfolding holds_below
crowded_table = refl

crowded-IsFirst : IsFirst (λ i. is_unused (state_at crowded.procs i)) 0 max_processes none
crowded-IsFirst j le lt =
    ground (
      arith,
      holds_below_at 16 (λ j. not (is_unused (state_at crowded.procs j))) j crowded_table lt,
    )
