-- ===== src/Idt/Dispatch.antt =====
-- The dispatch of interrupts in kernel/idt.c: which are acknowledged.
use magnos.Base.{
  ℕ, ◌+◌, ◌%◌, ◌^◌, ◌≡◌, refl, sym, ◌∙◌, ap, Bool, true, false, ◌&&◌, ◌||◌, List, [], ◌∷◌, ◌++◌,
  ltb, leb, ◌==◌, if◌then◌else◌, Bool-cases, inl, inr, arith,
}
use magnos.Ports.{output, input, History, Device}
use magnos.Idt.{IsrRegs, Interrupts, eoi, acknowledge, timer_irq, keyboard_irq, isr_handler}

abbrev pub is_eoi : ℕ → ℕ → Bool
is_eoi port v = v == 0x20 && (port == 0x20 || port == 0xA0)

-- The controllers that were sent an end of interrupt, by their command ports, the last first.
unfoldable pub acks : History → List ℕ
acks [] = []
acks (output port v ∷ h) = if is_eoi port v then port ∷ acks h else acks h
acks (input port v ∷ h) = acks h

-- The controllers that deliver an interrupt: none for exceptions and system calls, the second through the first from 40
-- on.
abbrev pub owed : ℕ → List ℕ
owed n = if ltb n 32 || n == 128 then [] else if leb 40 n then 0x20 ∷ 0xA0 ∷ [] else 0x20 ∷ []

acks-eoi :
    (n : ℕ) (h : History) → (ltb n 32 || n == 128) ≡ false → acks (eoi n h) ≡ owed n ++ acks h
unfolding acks eoi
acks-eoi n h e =
    let hardware : leb 32 n ≡ true = ground arith in
    rw hardware (
      rw e
        (elim (Bool-cases (leb 40 n)) [ inl second ↦ rw second refl | inr first ↦ rw first refl ]))

acks-timer_irq : (esp : ℕ) (s : Interrupts) → acks (timer_irq esp s).0.ports ≡ 0x20 ∷ acks s.ports
unfolding timer_irq acks
acks-timer_irq esp s = elim (Bool-cases ((s.pit_ticks + 1) % 2 ^ 32 % 10 == 0)) [
  | inl slice ↦ rw slice refl
  | inr other ↦ rw other (acks-eoi 32 s.ports refl)
]

acks-keyboard_irq :
    (device : Device) (s : Interrupts)
    → acks (acknowledge 33 (keyboard_irq device s)).ports ≡ 0x20 ∷ acks s.ports
unfolding keyboard_irq acks
acks-keyboard_irq device s = acks-eoi 33 (keyboard_irq device s).ports refl

-- `isr_handler` sends an end of interrupt exactly once to each controller that delivered the interrupt, to the second
-- before the first, and none for an exception or a system call; also where it calls the scheduler.
pub acks-isr_handler :
    (device : Device) (cr2 esp : ℕ) (regs : IsrRegs) (s : Interrupts)
    → acks (isr_handler device cr2 esp regs s).0.ports ≡ owed regs.int_no ++ acks s.ports
unfolding isr_handler
acks-isr_handler device cr2 esp regs s = elim (Bool-cases (ltb regs.int_no 32)) [
  | inl exception ↦ rw exception (elim (Bool-cases (regs.int_no == 14)) [
    | inl fault ↦ rw fault refl
    | inr other ↦ rw other refl
  ])
  | inr interrupt ↦ elim (Bool-cases (regs.int_no == 128)) [
    | inl call ↦ rw interrupt (rw call refl)
    | inr hardware ↦
        let owes : (ltb regs.int_no 32 || regs.int_no == 128) ≡ false = ground arith in
        elim (Bool-cases (regs.int_no == 32)) [
          | inl timer ↦
              let number : regs.int_no ≡ 32 = ground arith in
              let step : (isr_handler device cr2 esp regs s).0.ports ≡ (timer_irq esp s).0.ports =
                rw interrupt (rw hardware (rw timer refl)) in
              ap acks step ∙ acks-timer_irq esp s ∙ ap (λ n. owed n ++ acks s.ports) (sym number)
          | inr other ↦ elim (Bool-cases (regs.int_no == 33)) [
            | inl keyboard ↦
                let number : regs.int_no ≡ 33 = ground arith in
                let step : (isr_handler device cr2 esp regs s).0.ports
                    ≡ (acknowledge 33 (keyboard_irq device s)).ports =
                  rw interrupt (rw hardware (rw other (rw keyboard refl))) in
                ap acks step
                ∙ acks-keyboard_irq device s
                ∙ ap (λ n. owed n ++ acks s.ports) (sym number)
            | inr device_line ↦
                let step : (isr_handler device cr2 esp regs s).0.ports ≡ eoi regs.int_no s.ports =
                  rw interrupt (rw hardware (rw other (rw device_line refl))) in
                ap acks step ∙ acks-eoi regs.int_no s.ports owes
          ]
        ]
  ]
]
