-- ===== src/Idt/Slices.antt =====
-- The timer of kernel/idt.c and the scheduler of kernel/process.c: the time slices of processes.
use magnos.Base.{
  ℕ, zero, suc, ◌+◌, ◌-◌, ◌*◌, ◌/◌, ◌%◌, ◌^◌, ◌≤◌, ◌<◌, ◌≡◌, refl, sym, ◌∙◌, ap, ◌==◌,
  if◌then◌else◌, Bool-cases, inl, inr, arith, some,
}
use magnos.Process.{Procs, ready, running, max_processes, state_at, schedule}
use magnos.Process.Schedule.{IsValid}
use magnos.Process.Fairness.{run, schedule_fair}
use magnos.Idt.{Interrupts, timer_irq}

-- So many interrupts of the timer, in which the processor has the stack pointers `esp 0`, `esp 1` and so on.
pub ticks : ℕ → (ℕ → ℕ) → Interrupts → Interrupts
ticks zero esp s = s
ticks (suc n) esp s = ticks n (λ k. esp (k + 1)) (timer_irq (esp 0) s).0

run-eq :
    (n : ℕ) (esp esp' : ℕ → ℕ) (s : Procs) → ((k : ℕ) → esp k ≡ esp' k) → run n esp s ≡ run n esp' s
unfolding run
run-eq zero esp esp' s e = refl
run-eq (suc n) esp esp' s e =
    run-eq n (λ k. esp (k + 1)) (λ k. esp' (k + 1)) (schedule (esp 0) s).0 (λ k. e (k + 1))
    ∙ ap (λ t. run n (λ k. esp' (k + 1)) (schedule t s).0) (e 0)

run-suc :
    (n : ℕ) (esp : ℕ → ℕ) (s : Procs)
    → run (suc n) esp s ≡ run n (λ k. esp (k + 1)) (schedule (esp 0) s).0
unfolding run
run-suc n esp s = refl

pub timer_irq_lem :
    (esp : ℕ) (s : Interrupts)
    → s.pit_ticks + 1 < 2 ^ 32
    → ((timer_irq esp s).0.pit_ticks ≡ s.pit_ticks + 1)
      × ((timer_irq esp s).0.procs
          ≡ (if (s.pit_ticks + 1) % 10 == 0 then (schedule esp s.procs).0 else s.procs))
unfolding timer_irq
timer_irq_lem esp s h =
    let next : (s.pit_ticks + 1) % 2 ^ 32 ≡ s.pit_ticks + 1 = omega arith in
    elim (Bool-cases ((s.pit_ticks + 1) % 10 == 0)) [
      | inl slice ↦ rw next (rw slice (refl, refl))
      | inr other ↦ rw next (rw other (refl, refl))
    ]

-- The stack pointer at the end of slice number `j` from tick `t` on.
abbrev at_slice : ℕ → (ℕ → ℕ) → ℕ → ℕ
at_slice t esp j = esp (10 * (j + 1) - t % 10 - 1)

-- Each tenth interrupt of the timer calls the scheduler.
ticks-run :
    (n : ℕ) (esp : ℕ → ℕ) (s : Interrupts) (t : ℕ)
    → s.pit_ticks ≡ t
    → t + n < 2 ^ 32
    → (ticks n esp s).procs ≡ run ((t + n) / 10 - t / 10) (at_slice t esp) s.procs
unfolding ticks run
ticks-run zero esp s t e h =
    let none : (t + 0) / 10 - t / 10 ≡ 0 = omega arith in
    sym (ap (λ m. run m (at_slice t esp) s.procs) none)
ticks-run (suc n) esp s t e h =
    let s' : Interrupts = (timer_irq (esp 0) s).0 in
    let (next, procs) = timer_irq_lem (esp 0) s (omega arith) in
    let rest = ticks-run n (λ k. esp (k + 1)) s' (t + 1) (omega arith) (omega arith) in
    elim (Bool-cases ((s.pit_ticks + 1) % 10 == 0)) [
      | inl slice ↦
          let whole : (t + 1) % 10 ≡ 0 = ground arith in
          let count : (t + suc n) / 10 - t / 10 ≡ suc ((t + 1 + n) / 10 - (t + 1) / 10) =
            omega arith in
          let called : s'.procs ≡ (schedule (esp 0) s.procs).0 =
            procs ∙ ap (λ b. if b then (schedule (esp 0) s.procs).0 else s.procs) slice in
          let first : at_slice t esp 0 ≡ esp 0 = ap esp (omega arith) in
          rest
          ∙ run-eq ((t + 1 + n) / 10 - (t + 1) / 10) (at_slice (t + 1) (λ k. esp (k + 1)))
              (λ j. at_slice t esp (j + 1)) s'.procs (λ j. ap esp (omega arith))
          ∙ ap (run ((t + 1 + n) / 10 - (t + 1) / 10) (λ j. at_slice t esp (j + 1)))
              (called ∙ ap (λ p. (schedule p s.procs).0) (sym first))
          ∙ sym (run-suc ((t + 1 + n) / 10 - (t + 1) / 10) (at_slice t esp) s.procs)
          ∙ sym (ap (λ m. run m (at_slice t esp) s.procs) count)
      | inr other ↦
          let within : (t + 1) % 10 ≡ t % 10 + 1 = ground arith in
          let count : (t + suc n) / 10 - t / 10 ≡ (t + 1 + n) / 10 - (t + 1) / 10 = omega arith in
          let kept : s'.procs ≡ s.procs =
            procs ∙ ap (λ b. if b then (schedule (esp 0) s.procs).0 else s.procs) other in
          rest
          ∙ run-eq ((t + 1 + n) / 10 - (t + 1) / 10) (at_slice (t + 1) (λ k. esp (k + 1)))
              (at_slice t esp) s'.procs (λ j. ap esp (omega arith))
          ∙ ap (run ((t + 1 + n) / 10 - (t + 1) / 10) (at_slice t esp)) kept
          ∙ sym (ap (λ m. run m (at_slice t esp) s.procs) count)
    ]

-- A ready process runs after at most 150 interrupts of the timer, 1.5 seconds, from any tick that is not within 150 of the
-- end of the counter, whatever stack pointers the processor has, as long as nothing but the timer changes the process
-- table.
pub ticks_fair :
    (t : ℕ) (esp : ℕ → ℕ) (s : Interrupts)
    → IsValid s.procs
    → t < max_processes
    → state_at s.procs t ≡ ready
    → s.pit_ticks + 150 < 2 ^ 32
    → (n : ℕ) × (n ≤ 150)
      × ((ticks n esp s).procs.current ≡ some t)
      × (state_at (ticks n esp s).procs t ≡ running)
ticks_fair t esp s v ht r room =
    let now : ℕ = s.pit_ticks in
    let (m, few, current, runs) = schedule_fair t (at_slice now esp) v ht r in
    let n : ℕ = 10 * m - now % 10 in
    let slices : (now + n) / 10 - now / 10 ≡ m = omega arith in
    let same : (ticks n esp s).procs ≡ run m (at_slice now esp) s.procs =
      ticks-run n esp s now refl (omega arith)
      ∙ ap (λ k. run k (at_slice now esp) s.procs) slices in
    (n, omega arith, ap (λ p. p.current) same ∙ current, ap (λ p. state_at p t) same ∙ runs)
