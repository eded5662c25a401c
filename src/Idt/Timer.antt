-- ===== src/Idt/Timer.antt =====
-- `sleep_ms` of kernel/idt.c under the interrupts that come while it waits.
use magnos.Base.{
  ℕ, zero, suc, ◌+◌, ◌%◌, ◌^◌, ◌≤◌, ◌<◌, ◌≡◌, refl, sym, ◌∙◌, ap, subst, true, false, List, [], ◌∷◌,
  Option, none, some, ◌==◌, Bool-cases, inl, inr, arith,
}
use magnos.Ports.{Device}
use magnos.Process.Schedule.{IsValid}
use magnos.Idt.{
  Interrupts, Irq, interrupted, same_process, ticks_to_wait, wake_tick, sleep_loop, sleep_ms,
}
use magnos.Idt.Waits.{
  timer_count, due, Alone, due_lem, same_process_self, same_process-equal, interrupted-timer,
  interrupted-other, interrupted-Alone, ticks_lem, awake, sleep_loop-awake, sleep_loop_asleep,
}

-- It returns with the processes as they were, at the target.
abbrev pub Wakes : Interrupts → ℕ → List Irq → Option (Interrupts × List Irq) → Type 0
Wakes s wait irqs result =
    (s' : Interrupts) × (rest : List Irq) × (result ≡ some (s', rest))
    × (timer_count irqs ≡ wait + timer_count rest)
    × (s'.pit_ticks ≡ s.pit_ticks + wait)
    × (s'.procs ≡ s.procs)

sleep_loop-Wakes :
    (device : Device) (target wait : ℕ) (is : List Irq) (s : Interrupts)
    → IsValid s.procs
    → Alone s.procs
    → target < 2 ^ 32
    → s.pit_ticks + wait ≡ target
    → wait ≤ timer_count is
    → Wakes s wait is (sleep_loop device s.procs.current target is s)
sleep_loop-Wakes device target zero is s v alone h e le =
    let own = same_process_self s.procs.current in
    let now : awake s.procs.current target s ≡ true = ground arith in
    (s, is, sleep_loop-awake device s.procs.current target is s now, omega arith, omega arith, refl)
sleep_loop-Wakes device target (suc wait) [] s v alone h e le = absurd (omega arith)
sleep_loop-Wakes device target (suc wait) (i ∷ is) s v alone h e le =
    let own = same_process_self s.procs.current in
    let later : awake s.procs.current target s ≡ false = ground arith in
    let s1 : Interrupts = interrupted device i s in
    let same : s1.procs ≡ s.procs = interrupted-Alone device i s v alone (omega arith) in
    let counts = ticks_lem device i is s (λ tick. omega arith) in
    let run =
      sleep_loop_asleep device s.procs.current target i is s later
      ∙ ap (λ c. sleep_loop device c target is s1) (ap (λ p. p.current) (sym same)) in
    elim (Bool-cases (i.line % 16 == 0)) [
      | inl tick ↦
          let ticks = (interrupted-timer device i s tick (omega arith)).0 in
          let (s2, rest, run2, count, at, procs) =
            sleep_loop-Wakes device target wait is s1 (subst IsValid (sym same) v)
              (subst Alone (sym same) alone) h (omega arith) (omega arith) in
          (s2, rest, run ∙ run2, omega arith, omega arith, procs ∙ same)
      | inr other ↦
          let ticks = (interrupted-other device i s other).0 in
          let (s2, rest, run2, count, at, procs) =
            sleep_loop-Wakes device target (suc wait) is s1 (subst IsValid (sym same) v)
              (subst Alone (sym same) alone) h (omega arith) (omega arith) in
          (s2, rest, run ∙ run2, omega arith, omega arith, procs ∙ same)
    ]

-- `sleep_ms`, where enough interrupts of the timer come, no other process is ready, and the ticks stay below 2 ^ 32:
-- it returns, and exactly one interrupt of the timer for each whole 10 ms of the request, at least one, has come
-- until then. Other interrupts do not shorten the wait, and the processes are as before.
pub sleep_ms-Wakes :
    (device : Device) (ms : ℕ) (irqs : List Irq) (s : Interrupts)
    → IsValid s.procs
    → Alone s.procs
    → s.pit_ticks + due ms < 2 ^ 32
    → due ms ≤ timer_count irqs
    → Wakes s (due ms) irqs (sleep_ms device ms irqs s)
unfolding sleep_ms wake_tick
sleep_ms-Wakes device ms irqs s v alone h enough =
    let target : (s.pit_ticks + ticks_to_wait ms) % 2 ^ 32 ≡ s.pit_ticks + due ms =
      omega (arith, due_lem ms) in
    subst (λ t. Wakes s (due ms) irqs (sleep_loop device s.procs.current t irqs s)) (sym target)
      (sleep_loop-Wakes device (s.pit_ticks + due ms) (due ms) irqs s v alone h refl enough)

-- What a return of the loop means, in any state: the process that sleeps runs, the target is reached, and each
-- interrupt of the timer until then counted once.
abbrev pub Returns : Option ℕ → ℕ → List Irq → Interrupts → Interrupts × List Irq → Type 0
Returns caller target is s r =
    (r.0.procs.current ≡ caller)
    × (target ≤ r.0.pit_ticks)
    × (r.0.pit_ticks + timer_count r.1 ≡ s.pit_ticks + timer_count is)

abbrev result_or : Interrupts × List Irq → Option (Interrupts × List Irq) → Interrupts × List Irq
result_or d none = d
result_or d (some r) = r

sleep_loop_returned :
    (device : Device) (caller : Option ℕ) (target : ℕ) (is : List Irq) (s : Interrupts)
    (r : Interrupts × List Irq)
    → awake caller target s ≡ true
    → sleep_loop device caller target is s ≡ some r
    → Returns caller target is s r
sleep_loop_returned device caller target is s r now run =
    let same : (s, is) ≡ r =
      ap (result_or r) (sym (sleep_loop-awake device caller target is s now) ∙ run) in
    let own : same_process s.procs.current caller ≡ true = ground (arith, now) in
    let reached : target ≤ s.pit_ticks = ground (arith, now) in
    subst (Returns caller target is s) same
      (same_process-equal s.procs.current caller own, reached, refl)

sleep_loop_over :
    (device : Device) (caller : Option ℕ) (target : ℕ) (s : Interrupts)
    → awake caller target s ≡ false
    → sleep_loop device caller target [] s ≡ none
unfolding sleep_loop
sleep_loop_over device caller target s h = rw h refl

count_tick :
    (i : Irq) (is : List Irq)
    → (i.line % 16 == 0) ≡ true
    → timer_count (i ∷ is) ≡ timer_count is + 1
count_tick i is h = rw h refl

sleep_loop-Returns :
    (device : Device) (caller : Option ℕ) (target : ℕ) (is : List Irq) (s : Interrupts)
    (r : Interrupts × List Irq)
    → s.pit_ticks + timer_count is < 2 ^ 32
    → sleep_loop device caller target is s ≡ some r
    → Returns caller target is s r
sleep_loop-Returns device caller target [] s r room run =
    elim (Bool-cases (awake caller target s)) [
      | inl now ↦ sleep_loop_returned device caller target [] s r now run
      | inr later ↦ let over = sleep_loop_over device caller target s later in absurd cc
    ]
sleep_loop-Returns device caller target (i ∷ is) s r room run =
    elim (Bool-cases (awake caller target s)) [
      | inl now ↦ sleep_loop_returned device caller target (i ∷ is) s r now run
      | inr later ↦
          let counts = ticks_lem device i is s (λ tick. omega (arith, count_tick i is tick)) in
          let (own, reached, total) =
            sleep_loop-Returns device caller target is (interrupted device i s) r (omega arith)
              (sym (sleep_loop_asleep device caller target i is s later) ∙ run) in
          (own, reached, total ∙ counts)
    ]

-- A return of `sleep_ms` in any state, other processes ready or not, where only the interrupts change the state and
-- the ticks stay below 2 ^ 32: it is the process that called that runs, at least one interrupt of the timer for each
-- whole 10 ms of the request has come, one at the least, and each of them counted once.
pub sleep_ms-Returns :
    (device : Device) (ms : ℕ) (irqs : List Irq) (s : Interrupts) (r : Interrupts × List Irq)
    → s.pit_ticks + timer_count irqs < 2 ^ 32
    → s.pit_ticks + due ms < 2 ^ 32
    → sleep_ms device ms irqs s ≡ some r
    → (r.0.procs.current ≡ s.procs.current)
      × (due ms + timer_count r.1 ≤ timer_count irqs)
      × (r.0.pit_ticks + timer_count r.1 ≡ s.pit_ticks + timer_count irqs)
unfolding sleep_ms wake_tick
sleep_ms-Returns device ms irqs s r room wait run =
    let (own, reached, total) =
      sleep_loop-Returns device s.procs.current ((s.pit_ticks + ticks_to_wait ms) % 2 ^ 32) irqs s r
        room run in
    let target : (s.pit_ticks + ticks_to_wait ms) % 2 ^ 32 ≡ s.pit_ticks + due ms =
      omega (arith, due_lem ms) in
    (own, omega arith, total)
