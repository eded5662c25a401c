-- ===== src/Elf/Exec.antt =====
-- Programs that run programs: `elf_load_and_exec` and `elf_return_to_kernel` of kernel/elf.c in any nesting.
use magnos.Base.{
  ℕ, ◌+◌, ◌-◌, ◌<◌, ◌≡◌, refl, ◌∙◌, ap, true, false, arith, ltb, leb, length, get_or, set,
  length-set, get_or-set_self, get_or-set_ne,
}
use magnos.Gdt
use magnos.Elf.{
  Machine, entered, max_exec_depth, validate_header, execute, enter, load_and_exec,
  return_to_kernel, load, e_entry,
}

-- What a program does from one state to another: it changes anything but the saved contexts, or it runs another
-- program until that one ends.
pub data Runs : Machine → Machine → Type 0 where
  done : {s : Machine} → Runs s s
  change :
      {s u : Machine} (t : Machine)
      → t.exec_stack ≡ s.exec_stack
      → t.exec_depth ≡ s.exec_depth
      → Runs t u
      → Runs s u
  program :
      {s u : Machine} (t : Machine) (elf esp : ℕ)
      → validate_header s.memory elf ≡ true
      → s.exec_depth < max_exec_depth
      → Runs (load_and_exec s elf esp).0 t
      → Runs (return_to_kernel t).0 u
      → Runs s u

-- The contexts of the programs that are running are kept.
abbrev pub Keeps : Machine → Machine → Type 0
Keeps s u =
    (u.exec_depth ≡ s.exec_depth)
    × (length u.exec_stack ≡ length s.exec_stack)
    × ((i : ℕ) → i < s.exec_depth → get_or u.exec_stack i 0 ≡ get_or s.exec_stack i 0)

-- A program that is accepted: where the processor goes on, and the contexts.
pub load_and_exec-entered :
    (s : Machine) (elf esp : ℕ)
    → validate_header s.memory elf ≡ true
    → s.exec_depth < max_exec_depth
    → ((load_and_exec s elf esp).1 ≡ entered (e_entry (load s.memory elf) elf) 0x301000)
      × ((load_and_exec s elf esp).0.exec_depth ≡ s.exec_depth + 1)
      × ((load_and_exec s elf esp).0.exec_stack ≡ set s.exec_stack s.exec_depth esp)
unfolding load_and_exec execute enter
load_and_exec-entered s elf esp v h =
    let room : leb max_exec_depth s.exec_depth ≡ false = ground arith in
    rw v (rw room (refl, refl, refl))

return_lem :
    (t : Machine)
    → 0 < t.exec_depth
    → ((return_to_kernel t).1 ≡ true)
      × ((return_to_kernel t).0.exec_depth ≡ t.exec_depth - 1)
      × ((return_to_kernel t).0.exec_stack ≡ t.exec_stack)
      × ((return_to_kernel t).0.gdt.tss.esp0 ≡ get_or t.exec_stack (t.exec_depth - 1) 0)
unfolding return_to_kernel Gdt.set_kernel_stack
return_lem t h =
    let some_program : ltb 0 t.exec_depth ≡ true = ground arith in
    rw some_program (refl, refl, refl, refl)

-- From the entry of a program to its end.
program-Keeps :
    (s t : Machine) (elf esp : ℕ)
    → validate_header s.memory elf ≡ true
    → s.exec_depth < max_exec_depth
    → Keeps (load_and_exec s elf esp).0 t
    → Keeps s (return_to_kernel t).0
program-Keeps s t elf esp v h (depth, size, same) =
    let (outcome, deeper, saved) = load_and_exec-entered s elf esp v h in
    let (returned, depth', stack', esp0) = return_lem t (omega arith) in
    (
      omega arith,
      ap length stack' ∙ size ∙ ap length saved ∙ length-set s.exec_stack s.exec_depth esp,
      λ i lt.
          ap (λ l. get_or l i 0) stack'
          ∙ same i (omega arith)
          ∙ ap (λ l. get_or l i 0) saved
          ∙ get_or-set_ne s.exec_stack s.exec_depth i esp 0 (omega arith),
    )

Keeps-trans : (s t u : Machine) → Keeps s t → Keeps t u → Keeps s u
Keeps-trans s t u (depth, size, same) (depth', size', same') =
    (depth' ∙ depth, size' ∙ size, λ i lt. same' i (omega arith) ∙ same i lt)

pub Runs-Keeps : (s u : Machine) → Runs s u → Keeps s u
Runs-Keeps s u done = (refl, refl, λ i lt. refl)
Runs-Keeps s u (change t stack depth r) =
    Keeps-trans s t u (depth, ap length stack, λ i lt. ap (λ l. get_or l i 0) stack)
      (Runs-Keeps t u r)
Runs-Keeps s u (program t elf esp v h r r') =
    Keeps-trans s (return_to_kernel t).0 u
      (program-Keeps s t elf esp v h (Runs-Keeps (load_and_exec s elf esp).0 t r))
      (Runs-Keeps (return_to_kernel t).0 u r')

-- A program that `elf_load_and_exec` accepts, with less than 8 programs running, goes on at its entry point with the
-- top of the user stack. Whatever it runs until it ends, also further programs, `elf_return_to_kernel` then returns to
-- the caller that started it: with the stack pointer that was saved for it as the kernel's stack, and with the depth
-- and the contexts of the programs below as they were.
pub return_to_kernel-load_and_exec :
    (s t : Machine) (elf esp : ℕ)
    → validate_header s.memory elf ≡ true
    → s.exec_depth < max_exec_depth
    → length s.exec_stack ≡ max_exec_depth
    → Runs (load_and_exec s elf esp).0 t
    → ((load_and_exec s elf esp).1 ≡ entered (e_entry (load s.memory elf) elf) 0x301000)
      × ((return_to_kernel t).1 ≡ true)
      × ((return_to_kernel t).0.gdt.tss.esp0 ≡ esp)
      × Keeps s (return_to_kernel t).0
return_to_kernel-load_and_exec s t elf esp v h full r =
    let keeps = Runs-Keeps (load_and_exec s elf esp).0 t r in
    let (outcome, deeper, saved) = load_and_exec-entered s elf esp v h in
    let (returned, depth', stack', esp0) = return_lem t (omega (arith, keeps.0)) in
    let top : t.exec_depth - 1 ≡ s.exec_depth = omega (arith, keeps.0) in
    (
      outcome,
      returned,
      esp0
          ∙ ap (λ i. get_or t.exec_stack i 0) top
          ∙ keeps.2 s.exec_depth (omega arith)
          ∙ ap (λ l. get_or l s.exec_depth 0) saved
          ∙ get_or-set_self s.exec_stack s.exec_depth esp 0 (omega arith),
      program-Keeps s t elf esp v h keeps,
    )
