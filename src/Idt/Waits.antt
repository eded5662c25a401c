-- ===== src/Idt/Waits.antt =====
-- Single interrupts while the loop of `sleep_ms` of kernel/idt.c waits.
use magnos.Base.{
  ℕ, ◌+◌, ◌/◌, ◌%◌, ◌^◌, ◌<◌, ◌≡◌, refl, ◌∙◌, ap, Bool, true, false, not, ◌&&◌, List, [], ◌∷◌,
  Option, none, some, max, ltb, ◌==◌, if◌then◌else◌, Bool-cases, inl, inr, arith,
}
use magnos.Ports.{Device}
use magnos.Process.{Procs, max_processes, state_at, is_ready, schedule}
use magnos.Process.Schedule.{IsValid, schedule-idle}
use magnos.Idt.{
  timer_irq, keyboard_irq, IsrRegs, Interrupts, Irq, isr_handler, interrupted, same_process,
  ticks_to_wait, sleep_loop,
}
use magnos.Idt.Slices.{timer_irq_lem}

-- How many of the interrupts are those of the timer, on line 0.
abbrev pub timer_count : List Irq → ℕ
timer_count [] = 0
timer_count (i ∷ is) = if i.line % 16 == 0 then timer_count is + 1 else timer_count is

-- The number of timer interrupts that a request of `ms` milliseconds is due: one for each 10, at least one.
abbrev pub due : ℕ → ℕ
due ms = max 1 (ms / 10)

-- No process waits for the processor.
abbrev pub Alone : Procs → Type 0
Alone procs = (j : ℕ) → j < max_processes → is_ready (state_at procs j) ≡ false

pub due_lem : (ms : ℕ) → ticks_to_wait ms ≡ due ms
unfolding ticks_to_wait
due_lem ms = ground arith

pub same_process_self : (a : Option ℕ) → same_process a a ≡ true
same_process_self none = refl
same_process_self (some a) = ground arith

pub same_process-equal : (a b : Option ℕ) → same_process a b ≡ true → a ≡ b
same_process-equal none none h = refl
same_process-equal none (some b) h = absurd (cc)
same_process-equal (some a) none h = absurd (cc)
same_process-equal (some a) (some b) h = ap some (ground arith)

abbrev handled : Device → ℕ → Interrupts → ℕ → Interrupts
handled device esp s n =
    (isr_handler device 0 esp (record { int_no = n; err_code = 0; eip = 0 }) s).0

handled-timer :
    (device : Device) (esp : ℕ) (s : Interrupts) → handled device esp s 32 ≡ (timer_irq esp s).0
unfolding isr_handler
handled-timer device esp s = refl

keyboard_irq_lem :
    (device : Device) (s : Interrupts)
    → ((keyboard_irq device s).pit_ticks ≡ s.pit_ticks) × ((keyboard_irq device s).procs ≡ s.procs)
unfolding keyboard_irq
keyboard_irq_lem device s = (refl, refl)

other_line :
    (device : Device) (esp : ℕ) (regs : IsrRegs) (s : Interrupts)
    → 32 < regs.int_no
    → regs.int_no < 48
    → ((isr_handler device 0 esp regs s).0.pit_ticks ≡ s.pit_ticks)
      × ((isr_handler device 0 esp regs s).0.procs ≡ s.procs)
unfolding isr_handler
other_line device esp regs s lo hi =
    let hardware : ltb regs.int_no 32 ≡ false = ground arith in
    let no_call : (regs.int_no == 128) ≡ false = ground arith in
    let no_timer : (regs.int_no == 32) ≡ false = ground arith in
    elim (Bool-cases (regs.int_no == 33)) [
      | inl key ↦ rw hardware (rw no_call (rw no_timer (rw key (keyboard_irq_lem device s))))
      | inr rest ↦ rw hardware (rw no_call (rw no_timer (rw rest (refl, refl))))
    ]

pub interrupted-timer :
    (device : Device) (i : Irq) (s : Interrupts)
    → (i.line % 16 == 0) ≡ true
    → s.pit_ticks + 1 < 2 ^ 32
    → ((interrupted device i s).pit_ticks ≡ s.pit_ticks + 1)
      × ((interrupted device i s).procs
          ≡ (if (s.pit_ticks + 1) % 10 == 0 then (schedule i.esp s.procs).0 else s.procs))
unfolding interrupted
interrupted-timer device i s tick h =
    let line : 32 + i.line % 16 ≡ 32 = ground arith in
    let same = ap (handled device i.esp s) line ∙ handled-timer device i.esp s in
    let (ticks, procs) = timer_irq_lem i.esp s h in
    (ap (λ t. t.pit_ticks) same ∙ ticks, ap (λ t. t.procs) same ∙ procs)

pub interrupted-other :
    (device : Device) (i : Irq) (s : Interrupts)
    → (i.line % 16 == 0) ≡ false
    → ((interrupted device i s).pit_ticks ≡ s.pit_ticks)
      × ((interrupted device i s).procs ≡ s.procs)
unfolding interrupted
interrupted-other device i s other =
    other_line device i.esp (record { int_no = 32 + i.line % 16; err_code = 0; eip = 0 }) s
      (ground arith) (omega arith)

-- Without another ready process an interrupt leaves the process table as it is.
idle_lem : {procs : Procs} (esp : ℕ) → IsValid procs → Alone procs → (schedule esp procs).0 ≡ procs
idle_lem {procs} esp v alone =
    ap (λ r. r.0)
      (schedule-idle esp v (λ j le lt. alone ((v.cur + j) % max_processes) (omega arith)))

pub interrupted-Alone :
    (device : Device) (i : Irq) (s : Interrupts)
    → IsValid s.procs
    → Alone s.procs
    → s.pit_ticks + 1 < 2 ^ 32
    → (interrupted device i s).procs ≡ s.procs
interrupted-Alone device i s v alone room = elim (Bool-cases (i.line % 16 == 0)) [
  | inl tick ↦ (interrupted-timer device i s tick room).1 ∙ kept ((s.pit_ticks + 1) % 10 == 0)
  | inr other ↦ (interrupted-other device i s other).1
]
  where
    kept : (b : Bool) → (if b then (schedule i.esp s.procs).0 else s.procs) ≡ s.procs
    kept true = idle_lem i.esp v alone
    kept false = refl

-- The ticks behind an interrupt, beside the interrupts that are left.
pub ticks_lem :
    (device : Device) (i : Irq) (is : List Irq) (s : Interrupts)
    → ((i.line % 16 == 0) ≡ true → s.pit_ticks + 1 < 2 ^ 32)
    → (interrupted device i s).pit_ticks + timer_count is ≡ s.pit_ticks + timer_count (i ∷ is)
ticks_lem device i is s room = elim (Bool-cases (i.line % 16 == 0)) [
  | inl tick ↦ rw tick (omega (arith, (interrupted-timer device i s tick (room tick)).0))
  | inr other ↦ rw other (omega (arith, (interrupted-other device i s other).0))
]

abbrev pub awake : Option ℕ → ℕ → Interrupts → Bool
awake caller target s = same_process s.procs.current caller && not (ltb s.pit_ticks target)

pub sleep_loop-awake :
    (device : Device) (caller : Option ℕ) (target : ℕ) (is : List Irq) (s : Interrupts)
    → awake caller target s ≡ true
    → sleep_loop device caller target is s ≡ some (s, is)
unfolding sleep_loop
sleep_loop-awake device caller target [] s h = rw h refl
sleep_loop-awake device caller target (i ∷ is) s h = rw h refl

pub sleep_loop_asleep :
    (device : Device) (caller : Option ℕ) (target : ℕ) (i : Irq) (is : List Irq) (s : Interrupts)
    → awake caller target s ≡ false
    → sleep_loop device caller target (i ∷ is) s
      ≡ sleep_loop device caller target is (interrupted device i s)
unfolding sleep_loop
sleep_loop_asleep device caller target i is s h = rw h refl
