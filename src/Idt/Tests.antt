-- ===== src/Idt/Tests.antt =====
-- Interrupts on concrete states.
use magnos.Base.{
  ℕ, ◌+◌, ◌-◌, ◌^◌, ◌≤◌, ◌≡◌, refl, true, false, not, ◌||◌, ◌==◌, List, [], ◌∷◌, some, arith,
  replicate, holds_below, holds_below_at,
}
use magnos.Ports.{Device}
use magnos.Process.{Procs, state_at, is_running, is_ready, running, blocked, blank}
use magnos.Process.Schedule.{IsValid}
use magnos.Process.Sample.{proc, busy, busy_valid}
use magnos.Idt.{
  Interrupts, Irq, isr_handler, sleep_ms, sleep_loop, wake_tick, ticks_to_wait, get_uptime_ms,
}
use magnos.Idt.Dispatch.{acks, acks-isr_handler}
use magnos.Idt.Waits.{Alone, timer_count}
use magnos.Idt.Timer.{Wakes, sleep_ms-Wakes, sleep_ms-Returns}
use magnos.Idt.Slices.{ticks, ticks_fair}

abbrev silent : Device
silent h port = 0

abbrev state : Interrupts
state = record {
  pit_ticks = 19;
  vga = record { buffer = []; row = 0; column = 0; color = 7; cursor_low = 0; cursor_high = 0 };
  keyboard = record {
    shift_pressed = false;
    ctrl_pressed = false;
    alt_pressed = false;
    capslock_on = false;
    kb_buffer = replicate 256 0;
    kb_head = 0;
    kb_tail = 0;
  };
  procs = busy;
  ports = [];
}

acks-isr_handler_example :
    acks (isr_handler silent 0 0x8000 (record { int_no = 46; err_code = 0; eip = 0 }) state).0.ports
    ≡ 0x20 ∷ 0xA0 ∷ []
unfolding acks
acks-isr_handler_example =
    acks-isr_handler silent 0 0x8000 (record { int_no = 46; err_code = 0; eip = 0 }) state

-- Process 0 runs and no other one can.
abbrev lone : Procs
lone = record {
  table = proc 0 running ∷ proc 1 blocked ∷ replicate 14 blank;
  current = some 0;
  next_pid = 2;
}

lone_running : holds_below 16 (λ j. j == 0 || not (is_running (state_at lone j))) ≡ true
unfolding holds_below
lone_running = refl

lone-IsValid : IsValid lone
lone-IsValid = record {
  size = refl;
  cur = 0;
  is_current = refl;
  cur_in = omega arith;
  runs = refl;
  alone = λ j hj jn. ground (
    arith,
    holds_below_at 16 (λ j. j == 0 || not (is_running (state_at lone j))) j lone_running hj,
  );
}

lone_ready : holds_below 16 (λ j. not (is_ready (state_at lone j))) ≡ true
unfolding holds_below
lone_ready = refl

lone-Alone : Alone lone
lone-Alone j lt =
    ground (arith, holds_below_at 16 (λ j. not (is_ready (state_at lone j))) j lone_ready lt)

abbrev asleep : Interrupts
asleep = record state { procs = lone }

abbrev irq : ℕ → Irq
irq n = record { line = n; esp = 0x8000 }

-- Two ticks, with a key pressed between.
sleep_ms-Wakes_example :
    Wakes asleep 2
      (irq 0 ∷ irq 1 ∷ irq 0 ∷ irq 0 ∷ [])
      (sleep_ms silent 25 (irq 0 ∷ irq 1 ∷ irq 0 ∷ irq 0 ∷ []) asleep)
sleep_ms-Wakes_example =
    sleep_ms-Wakes silent 25 (irq 0 ∷ irq 1 ∷ irq 0 ∷ irq 0 ∷ []) asleep lone-IsValid lone-Alone
      (omega arith) (omega arith)

abbrev irqs : List Irq
irqs = irq 0 ∷ irq 1 ∷ irq 0 ∷ irq 0 ∷ []

wakes : Wakes asleep 2 irqs (sleep_ms silent 25 irqs asleep)
wakes = sleep_ms-Wakes silent 25 irqs asleep lone-IsValid lone-Alone (omega arith) (omega arith)

abbrev end_state : Interrupts × List Irq
end_state = (wakes.0, wakes.1)

sleep_ms-Returns_example :
    (end_state.0.procs.current ≡ some 0)
    × (2 + timer_count end_state.1 ≤ 3)
    × (end_state.0.pit_ticks + timer_count end_state.1 ≡ 22)
sleep_ms-Returns_example =
    sleep_ms-Returns silent 25 irqs asleep end_state (omega arith) (omega arith) wakes.2

-- Near the end of the counter the tick to wait for wraps, and the call returns without waiting.
abbrev late : Interrupts
late = record asleep { pit_ticks = 2 ^ 32 - 50 }

sleep_ms-wraps : sleep_ms silent 1000 (irq 0 ∷ []) late ≡ some (late, irq 0 ∷ [])
unfolding sleep_ms wake_tick ticks_to_wait sleep_loop
sleep_ms-wraps = refl

-- The milliseconds wrap long before the ticks do.
get_uptime_ms-wraps : get_uptime_ms 429_496_730 ≡ 4
unfolding get_uptime_ms
get_uptime_ms-wraps = refl

ticks_fair_example :
    (n : ℕ) × (n ≤ 150)
    × ((ticks n (λ k. 0x8000) state).procs.current ≡ some 4)
    × (state_at (ticks n (λ k. 0x8000) state).procs 4 ≡ running)
ticks_fair_example = ticks_fair 4 (λ k. 0x8000) state busy_valid (omega arith) refl (omega arith)
