-- ===== src/Idt/Gates.antt =====
-- The table of interrupts of kernel/idt.c as the processor reads it.
use magnos.Base.{
  ℕ, ◌+◌, ◌*◌, ◌/◌, ◌%◌, ◌^◌, ◌<◌, ◌≡◌, refl, ◌∙◌, ap, true, false, List, ltb, ◌==◌, if◌then◌else◌,
  counted, counted_inv, get_or, set, replicate, length, length-set, length-replicate, get_or-set,
  get_or-replicate, Option, none, some, Bool-cases, inl, inr, arith,
}
use magnos.Idt.{IdtEntry, idt_entries, gate, gates, empty, gate_int32, gate_int32_user}

-- An interrupt gate that is present: where it leads to, and the lowest privilege that may call it.
pub record Gate : Type 0 where
  pub offset : ℕ
  pub selector : ℕ
  pub privilege : ℕ

pub decode : IdtEntry → Option Gate
decode e =
    if e.type_attr / 128 == 1
    then some (record {
      offset = e.offset_low + e.offset_high * 2 ^ 16;
      selector = e.selector;
      privilege = e.type_attr / 32 % 4;
    })
    else none

-- The gates of the kernel: an entry point for the exceptions and the hardware interrupts, for the kernel alone, and one
-- for system calls, which programs may call.
abbrev pub gate_for : (ℕ → ℕ) → ℕ → Option Gate
gate_for isrs i =
    if i == 128
    then some (record { offset = isrs 128; selector = 0x08; privilege = 3 })
    else if ltb i 48
    then some (record { offset = isrs i; selector = 0x08; privilege = 0 })
    else none

decode-gate :
    (handler : ℕ)
    → handler < 2 ^ 32
    → (decode (gate handler 0x08 gate_int32)
        ≡ some (record { offset = handler; selector = 0x08; privilege = 0 }))
      × (decode (gate handler 0x08 gate_int32_user)
          ≡ some (record { offset = handler; selector = 0x08; privilege = 3 }))
unfolding decode gate
decode-gate handler h =
    let whole : handler % 2 ^ 16 + handler / 2 ^ 16 % 2 ^ 16 * 2 ^ 16 ≡ handler = omega arith in
    (rw whole refl, rw whole refl)

decode-empty : decode empty ≡ none
unfolding decode
decode-empty = refl

abbrev FilledTo : (ℕ → ℕ) → ℕ → List IdtEntry → Type 0
FilledTo isrs k idt =
    (length idt ≡ idt_entries)
    × ((i : ℕ) → get_or idt i empty ≡ (if ltb i k then gate (isrs i) 0x08 gate_int32 else empty))

filled :
    (isrs : ℕ → ℕ)
    → FilledTo isrs 48 (
        counted 48 0
          (λ i idt. set idt i (gate (isrs i) 0x08 gate_int32))
          (replicate idt_entries empty))
filled isrs =
    counted_inv (FilledTo isrs) (λ i idt. set idt i (gate (isrs i) 0x08 gate_int32)) 48 0 48
      (replicate idt_entries empty) refl
      (λ k idt lo hi (size, same). (
        length-set idt k (gate (isrs k) 0x08 gate_int32) ∙ size,
        λ i.
            get_or-set idt k i (gate (isrs k) 0x08 gate_int32) empty (omega arith)
            ∙ elim (Bool-cases (i == k)) [
              | inl e ↦
                  let index : i ≡ k = ground arith in
                  let less : ltb i (k + 1) ≡ true = ground arith in rw e (rw less (rw index refl))
              | inr e ↦
                  let order : ltb i (k + 1) ≡ ltb i k = ground arith in rw e (rw order (same i))
            ],
      ))
      (
        length-replicate idt_entries empty,
        λ i.
            let none_yet : ltb i 0 ≡ false = ground arith in
            rw none_yet (get_or-replicate idt_entries empty i),
      )

-- The table that `idt_init` loads: the processor finds the entry points of the exceptions and hardware interrupts 0 to 47
-- for the kernel alone, that of system calls at 128 also for programs, and no other gate.
pub decode-gates :
    (isrs : ℕ → ℕ) (i : ℕ)
    → ((j : ℕ) → isrs j < 2 ^ 32)
    → decode (get_or (gates isrs) i empty) ≡ gate_for isrs i
unfolding gates
decode-gates isrs i h =
    let idt =
      counted 48 0 (λ j t. set t j (gate (isrs j) 0x08 gate_int32)) (replicate idt_entries empty) in
    let (size, same) = filled isrs in
    ap decode (get_or-set idt 128 i (gate (isrs 128) 0x08 gate_int32_user) empty (omega arith))
    ∙ elim (Bool-cases (i == 128)) [
      | inl e ↦ rw e (decode-gate (isrs 128) (h 128)).1
      | inr e ↦ rw e (
          ap decode (same i) ∙ elim (Bool-cases (ltb i 48)) [
            | inl l ↦ rw l (decode-gate (isrs i) (h i)).0
            | inr l ↦ rw l decode-empty
          ])
    ]
