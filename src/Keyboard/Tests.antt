-- ===== src/Keyboard/Tests.antt =====
-- The keyboard driver at concrete states.
use magnos.Base.{
  ℕ, ◌≡◌, ◌+◌, ◌^◌, ◌/◌, ◌%◌, ◌==◌, refl, Bool, true, false, not, ltb, none, List, [], ◌∷◌,
  replicate, arith, if◌then◌else◌, bit_clear, clear_bit, length-replicate,
}
use mathlib.Core.Bool.{xor}
use magnos.Keyboard.{
  Keyboard, irq_handler, getchar, reset, translate_scancode, press, release, enqueue, ascii,
  uses_shift, shifted, unshifted,
}
use magnos.Keyboard.Ring.{IsValid, pending, reset-IsValid}
use magnos.Ports.{History, Device}
use magnos.Keyboard.Controller.{init}
use magnos.Keyboard.Chip.{Controller, Behaves, controller_of, byte_of, is_ready}
use magnos.Keyboard.Handshake.{init-Controller}
use magnos.Keyboard.Events.{Event, scancode, read, run, run_queue, run_refines}

abbrev blank : Keyboard
blank = record {
  shift_pressed = false;
  ctrl_pressed = false;
  alt_pressed = false;
  capslock_on = false;
  kb_buffer = replicate 256 0;
  kb_head = 0;
  kb_tail = 0;
}

-- Shift down, `a`, shift up, `b`, then three reads.
abbrev script : List Event
script = scancode 0x2A ∷ scancode 0x1E ∷ scancode 0xAA ∷ scancode 0x30 ∷ read ∷ read ∷ read ∷ []

run-script : run blank script ≡ b'A' ∷ b'b' ∷ 0 ∷ []
unfolding run irq_handler getchar translate_scancode press release enqueue ascii uses_shift shifted
    unshifted bit_clear clear_bit xor
run-script = refl

blank_valid : IsValid blank
blank_valid = record {
  size = length-replicate {A = ℕ} 256 0;
  head_in = omega arith;
  tail_in = omega arith;
}

run_refines_example : run blank script ≡ run_queue blank (pending blank) script
run_refines_example = run_refines script blank_valid

reset-IsValid_example : IsValid (reset blank) × (pending (reset blank) ≡ [])
reset-IsValid_example = reset-IsValid blank (length-replicate {A = ℕ} 256 0)

-- A controller whose configuration is 0x54, with the keyboard disabled. It is busy at first, takes each byte within
-- three reads of the status, and answers behind two.
abbrev disabled : Controller
disabled = record { command = 0; config = 0x54; busy = 1; answer = none; wait = 0 }

abbrev at : History → Controller
at h = controller_of (λ t. 3) (λ t. 2) disabled h

abbrev status_of : Bool → Bool → ℕ
status_of busy ready = (if busy then 2 else 0) + (if ready then 1 else 0)

abbrev chip : Device
chip h port =
    if port == 0x60
    then byte_of (at h).answer
    else if port == 0x64
    then status_of (ltb 0 (at h).busy) (is_ready (at h).answer (at h).wait)
    else 0

status_busy : (busy ready : Bool) → not (bit_clear (status_of busy ready % 2 ^ 8) 1) ≡ busy
unfolding bit_clear
status_busy true true = refl
status_busy true false = refl
status_busy false true = refl
status_busy false false = refl

status_ready : (busy ready : Bool) → not (bit_clear (status_of busy ready % 2 ^ 8) 0) ≡ ready
unfolding bit_clear
status_ready true true = refl
status_ready true false = refl
status_ready false true = refl
status_ready false false = refl

chip-Behaves : Behaves (λ t. 3) (λ t. 2) disabled chip
chip-Behaves = record {
  takes = λ h. status_busy (ltb 0 (at h).busy) (is_ready (at h).answer (at h).wait);
  tells = λ h. status_ready (ltb 0 (at h).busy) (is_ready (at h).answer (at h).wait);
  answers = λ h ready. refl;
  accepts = λ h. omega arith;
  replies = λ h. omega arith;
}

init-Controller_example :
    ((at (init chip blank []).1).config % 2 ≡ 1)
    × ((at (init chip blank []).1).config / 2 % 8 ≡ 2)
    × ((at (init chip blank []).1).config / 16 % 2 ≡ 0)
    × ((at (init chip blank []).1).config / 32 ≡ 2)
    × ((init chip blank []).0 ≡ reset blank)
unfolding controller_of
init-Controller_example =
    init-Controller chip (λ t. 3) (λ t. 2) disabled blank [] chip-Behaves (omega arith) refl
      (omega arith)
