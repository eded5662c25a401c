-- ===== src/Keyboard/Handshake.antt =====
-- What the keyboard controller makes of the commands of `keyboard_init` of kernel/keyboard.c.
use magnos.Base.{
  ℕ, zero, suc, ◌-◌, ◌/◌, ◌%◌, ◌^◌, ◌≤◌, ◌<◌, ◌≡◌, refl, sym, ◌∙◌, ap, subst, Bool, true, false,
  not, Option, none, some, ltb, Bool-cases, inl, inr, arith,
}
use magnos.Ports.{output, History, Device, inb, outb, byte_in}
use magnos.Keyboard.{Keyboard, reset}
use magnos.Keyboard.Controller.{
  kb_data_port, kb_cmd_port, input_full, output_full, read_status, wait_while, wait_to_write,
  wait_to_read, drain, with_interrupt, configure, init,
}
use magnos.Keyboard.Chip.{
  behind, Controller, is_ready, byte_of, clear_bit4, commanded, given, elapsed, taken, step,
  controller_of, Behaves,
}

-- A state some reads of the status later.
record Later (c c' : Controller) : Type 0 where
  command : c'.command ≡ c.command
  config : c'.config ≡ c.config
  answer : c'.answer ≡ c.answer
  busy : c'.busy ≤ c.busy
  wait : c'.wait ≤ c.wait

elapsed-Later : (c : Controller) → Later c (elapsed c)
elapsed-Later c = record {
  command = refl;
  config = refl;
  answer = refl;
  busy = omega arith;
  wait = omega arith;
}

Later-trans : {a b c : Controller} → Later a b → Later b c → Later a c
Later-trans x y = record {
  command = y.command ∙ x.command;
  config = y.config ∙ x.config;
  answer = y.answer ∙ x.answer;
  busy = omega (arith, x.busy, y.busy);
  wait = omega (arith, x.wait, y.wait);
}

command_lem :
    (slow reply v : ℕ) (c : Controller)
    → c.busy ≡ 0
    → step slow reply (output kb_cmd_port v) c ≡ commanded slow reply v c
unfolding step
command_lem slow reply v c idle = let free : ltb 0 c.busy ≡ false = ground arith in rw free refl

data_lem :
    (slow reply v : ℕ) (c : Controller)
    → c.busy ≡ 0
    → step slow reply (output kb_data_port v) c ≡ given slow v c
unfolding step
data_lem slow reply v c idle = let free : ltb 0 c.busy ≡ false = ground arith in rw free refl

module _ (slow reply : History → ℕ) (start : Controller) (device : Device) where
  abbrev state : History → Controller
  state h = controller_of slow reply start h

  read_lem : (h : History) → state (read_status device h) ≡ elapsed (state h)
  unfolding controller_of step
  read_lem h = refl

  -- A wait for a count of reads that is at most its timeout ends behind that count.
  wait_while-Later :
      (test : History → Bool) (left : Controller → ℕ) (timeout : ℕ) (h : History)
      → ((t : History) → test t ≡ false → left (state t) ≡ 0)
      → ((c : Controller) → left (elapsed c) ≡ left c - 1)
      → left (state h) ≤ timeout
      → Later (state h) (state (wait_while device test timeout h))
        × (left (state (wait_while device test timeout h)) ≡ 0)
  unfolding wait_while
  wait_while-Later test left zero h ends down le =
      let counts = ap left (read_lem h) ∙ down (state h) in
      (subst (Later (state h)) (sym (read_lem h)) (elapsed-Later (state h)), omega (arith, counts))
  wait_while-Later test left (suc timeout) h ends down le =
      let counts = ap left (read_lem h) ∙ down (state h) in
      let next = subst (Later (state h)) (sym (read_lem h)) (elapsed-Later (state h)) in
      elim (Bool-cases (test h)) [
        | inl e ↦
            let (later, over) =
              wait_while-Later test left timeout (read_status device h) ends down
                (omega (arith, counts)) in
            rw (wait_while, e) (Later-trans next later, over)
        | inr e ↦ rw (wait_while, e) (next, omega (arith, counts, ends h e))
      ]

  -- `wait_to_write`, then a byte to a port: the input buffer is empty when the byte comes.
  written_lem :
      (port v : ℕ) (h : History)
      → Behaves slow reply start device
      → (state h).busy ≤ 10000
      → let t = wait_to_write device h in
        (state (outb port v t) ≡ step (slow t) (reply t) (output port (v % 2 ^ 8)) (state t))
        × Later (state h) (state t)
        × ((state t).busy ≡ 0)
  unfolding controller_of
  written_lem port v h b le =
      let (later, idle) =
        wait_while-Later (input_full device) (λ c. c.busy) 10000 h
          (λ t e. let free = sym (b.takes t) ∙ e in ground arith) (λ c. refl) le in
      (refl, later, idle)

  no_wait : (a : Option ℕ) (wait : ℕ) → is_ready a wait ≡ true → wait ≡ 0
  no_wait none wait h = absurd cc
  no_wait (some byte) wait h = ground arith

  -- The ask for the configuration: its byte stands in the output buffer.
  asked_lem :
      (h : History)
      → Behaves slow reply start device
      → (state h).busy ≤ 10000
      → (state h).answer ≡ none
      → let t = wait_to_read device (outb kb_cmd_port 0x20 (wait_to_write device h)) in
        ((state t).config ≡ (state h).config)
        × ((state t).answer ≡ some (state h).config)
        × ((state t).wait ≡ 0)
        × ((state t).busy ≤ 10000)
  unfolding commanded
  asked_lem h b le empty =
      let t = wait_to_write device h in
      let (run, later, idle) = written_lem kb_cmd_port 0x20 h b le in
      let asked = run ∙ command_lem (slow t) (reply t) 0x20 (state t) idle in
      let fast = b.accepts t in
      let soon = b.replies t in
      let busy = ap (λ c. c.busy) asked in
      let wait = ap (λ c. c.wait) asked in
      let (later2, over) =
        wait_while-Later (λ u. not (output_full device u)) (λ c. c.wait) 10000
          (outb kb_cmd_port 0x20 t)
          (λ u e. no_wait (state u).answer (state u).wait (sym (b.tells u) ∙ ground (arith, e)))
          (λ c. refl) (omega arith) in
      (
        later2.config ∙ ap (λ c. c.config) asked ∙ later.config,
        later2.answer
            ∙ ap (λ c. c.answer) asked
            ∙ ap (λ a. behind a (state t).config) (later.answer ∙ empty)
            ∙ ap some later.config,
        over,
        omega (arith, later2.busy),
      )

  -- A read of the data port with an answer there.
  read_data_lem :
      (h : History)
      → Behaves slow reply start device
      → (byte : ℕ) → (state h).answer ≡ some byte
      → (state h).wait ≡ 0
      → (byte_in device h kb_data_port ≡ byte % 2 ^ 8)
        × ((state (inb device kb_data_port h)).config ≡ (state h).config)
        × ((state (inb device kb_data_port h)).busy ≡ (state h).busy)
  unfolding controller_of step taken
  read_data_lem h b byte there over =
      let ready : is_ready (state h).answer (state h).wait ≡ true = rw there (rw over refl) in
      (b.answers h ready ∙ ap (λ a. byte_of a % 2 ^ 8) there, refl, refl)

  drain-config :
      (timeout : ℕ) (h : History) → (state (drain device timeout h)).config ≡ (state h).config
  unfolding drain controller_of step taken
  drain-config zero h = refl
  drain-config (suc timeout) h = elim (Bool-cases (output_full device h)) [
    | inl e ↦ rw (drain, e) (drain-config timeout (inb device kb_data_port (read_status device h)))
    | inr e ↦ rw (drain, e) refl
  ]

  -- The write of the configuration and the command that enables the keyboard.
  written_config :
      (v : ℕ) (h : History)
      → Behaves slow reply start device
      → v < 2 ^ 8
      → (state h).busy ≤ 10000
      → let h2 = outb kb_cmd_port 0x60 (wait_to_write device h) in
        let h3 = outb kb_data_port v (wait_to_write device h2) in
        (state (outb kb_cmd_port 0xAE (wait_to_write device h3))).config ≡ clear_bit4 v
  unfolding commanded given
  written_config v h b byte le =
      let t = wait_to_write device h in
      let h2 = outb kb_cmd_port 0x60 t in
      let (run, later, idle) = written_lem kb_cmd_port 0x60 h b le in
      let ordered = run ∙ command_lem (slow t) (reply t) 0x60 (state t) idle in
      let busy2 = ap (λ c. c.busy) ordered in
      let fast2 = b.accepts t in
      let u = wait_to_write device h2 in
      let (run2, later2, idle2) = written_lem kb_data_port v h2 b (omega arith) in
      let set_config = run2 ∙ data_lem (slow u) (reply u) (v % 2 ^ 8) (state u) idle2 in
      let behind : (state u).command ≡ 0x60 = later2.command ∙ ap (λ c. c.command) ordered in
      let same : v % 2 ^ 8 ≡ v = omega arith in
      let config = ap (λ c. c.config) set_config ∙ rw behind same in
      let busy3 = ap (λ c. c.busy) set_config in
      let fast3 = b.accepts u in
      let h3 = outb kb_data_port v u in
      let w = wait_to_write device h3 in
      let (run3, later3, idle3) = written_lem kb_cmd_port 0xAE h3 b (omega arith) in
      let enabled = run3 ∙ command_lem (slow w) (reply w) 0xAE (state w) idle3 in
      ap (λ c. c.config) enabled ∙ ap clear_bit4 (later3.config ∙ config)

-- A controller of which the code may read the status, that takes a byte only when its input buffer is empty and has
-- the answer in its output buffer some time behind the question, each within 10000 reads of the status. Where its
-- output buffer is empty at first, and its configuration is a byte: behind `keyboard_init` bit 0 of its configuration
-- is set, so that keys raise interrupts, bit 4 is clear, so that the keyboard is enabled, and the other bits are as
-- before. The modifiers are released and the ring is empty.
pub init-Controller :
    (device : Device) (slow reply : History → ℕ) (start : Controller) (k : Keyboard) (h : History)
    → Behaves slow reply start device
    → (controller_of slow reply start h).busy ≤ 10000
    → (controller_of slow reply start h).answer ≡ none
    → (controller_of slow reply start h).config < 2 ^ 8
    → let r = init device k h in
      let before = controller_of slow reply start h in
      let after = controller_of slow reply start r.1 in
      (after.config % 2 ≡ 1)
      × (after.config / 2 % 8 ≡ before.config / 2 % 8)
      × (after.config / 16 % 2 ≡ 0)
      × (after.config / 32 ≡ before.config / 32)
      × (r.0 ≡ reset k)
unfolding init configure
init-Controller device slow reply start k h b le empty byte =
    let before = controller_of slow reply start h in
    let t = wait_to_read device (outb kb_cmd_port 0x20 (wait_to_write device h)) in
    let (kept, there, over, busy) = asked_lem slow reply start device h b le empty in
    let (got, kept2, busy2) = read_data_lem slow reply start device t b before.config there over in
    let v = byte_in device t kb_data_port in
    let new : with_interrupt v < 2 ^ 8 = omega arith in
    let set_up =
      written_config slow reply start device (with_interrupt v) (inb device kb_data_port t) b new
        (omega arith) in
    let all = drain-config slow reply start device 100 _ ∙ set_up in
    (omega arith, omega arith, omega arith, omega arith, refl)
