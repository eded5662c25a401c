-- ===== src/Syscall/Restore.antt =====
-- The memory of a program around another one that it runs, in kernel/syscall.c.
use magnos.Base.{
  ℕ, ◌+◌, ◌-◌, ◌≤◌, ◌<◌, ◌≡◌, refl, sym, ◌∙◌, ap, true, false, List, [], ◌∷◌, ltb, ◌==◌,
  counted_inv, length, Bool-cases, inl, inr, ◌⊎◌, arith,
}
use magnos.Memory.{store, store_self, store_ne}
use magnos.Elf
use magnos.Elf.{
  Bytes, Machine, Outcome, max_exec_depth, validate_header, load_and_exec, return_to_kernel,
}
use magnos.Elf.Exec.{load_and_exec-entered}
use magnos.Syscall.{Sys, loaded}
use magnos.Syscall.Program.{
  program_base, save_size, save_program, restore_program, store_bytes, Kernel, value, enters,
  exec_loaded, exec_run, restored, resume_caller, exit,
}

-- The place of programs and their stack.
abbrev pub InProgram : ℕ → Type 0
InProgram a = (program_base ≤ a) × (a < program_base + save_size)

save_program_lem :
    (saved memory : Bytes) (i : ℕ)
    → i < save_size
    → save_program saved memory i ≡ memory (program_base + i)
unfolding save_program
save_program_lem saved memory =
    counted_inv (λ k t. (i : ℕ) → i < k → t i ≡ memory (program_base + i))
      (λ j t. store t j (memory (program_base + j))) save_size 0 save_size saved refl
      (λ k t lo hi same i h. elim (Bool-cases (i == k)) [
        | inl e ↦
            let index : i ≡ k = ground arith in
            ap (store t k (memory (program_base + k))) index
            ∙ store_self t k (memory (program_base + k))
            ∙ ap (λ x. memory (program_base + x)) (sym index)
        | inr e ↦ store_ne t k (memory (program_base + k)) i (ground arith) ∙ same i (ground arith)
      ])
      (λ i h. absurd (omega arith))

abbrev restored_by : Bytes → Bytes → Bytes
restored_by memory saved = restore_program memory saved

side : (a : ℕ) → (InProgram a → ⊥) → (a < program_base) ⊎ (program_base + save_size ≤ a)
side a out = elim (Bool-cases (ltb a program_base)) [
  | inl e ↦ inl (ground arith)
  | inr e ↦ elim (Bool-cases (ltb a (program_base + save_size))) [
    | inl e' ↦ absurd (out (ground arith, ground arith))
    | inr e' ↦ inr (ground arith)
  ]
]

restore_program_lem :
    (memory saved : Bytes)
    → ((a : ℕ) → InProgram a → restore_program memory saved a ≡ saved (a - program_base))
      × ((a : ℕ) → (InProgram a → ⊥) → restore_program memory saved a ≡ memory a)
unfolding restore_program
restore_program_lem memory saved =
    let all =
      counted_inv
        (λ k t.
          ((i : ℕ) → i < k → t (program_base + i) ≡ saved i)
          × ((a : ℕ) → (a < program_base) ⊎ (program_base + k ≤ a) → t a ≡ memory a))
        (λ j t. store t (program_base + j) (saved j)) save_size 0 save_size memory refl
        (λ k t lo hi (inside, outside). (
          λ i h. elim (Bool-cases (i == k)) [
            | inl e ↦
                let index : i ≡ k = ground arith in
                ap (λ x. store t (program_base + k) (saved k) (program_base + x)) index
                ∙ store_self t (program_base + k) (saved k)
                ∙ ap saved (sym index)
            | inr e ↦
                store_ne t (program_base + k) (saved k) (program_base + i) (ground arith)
                ∙ inside i (ground arith)
          ],
          λ a out.
              store_ne t (program_base + k) (saved k) a (ground arith) ∙ outside a (ground arith),
        ))
        (λ i h. absurd (omega arith), λ a out. refl) in
    (
      λ a (le, lt).
          let index : a ≡ program_base + (a - program_base) = omega arith in
          ap (restored_by memory saved) index ∙ all.0 (a - program_base) (omega arith),
      λ a out. all.1 a (side a out),
    )

-- Saved and restored, with any changes to the memory between.
pub restore-save :
    (saved memory later : Bytes) (a : ℕ)
    → InProgram a
    → restore_program later (save_program saved memory) a ≡ memory a
restore-save saved memory later a (le, lt) =
    (restore_program_lem later (save_program saved memory)).0 a (le, lt)
    ∙ save_program_lem saved memory (a - program_base) (omega arith)
    ∙ ap memory (omega arith)

store_bytes_outside :
    (m : Bytes) (at : ℕ) (bs : List ℕ) (a : ℕ)
    → (a < at) ⊎ (at + length bs ≤ a)
    → store_bytes m at bs a ≡ m a
unfolding store_bytes
store_bytes_outside m at [] a out = refl
store_bytes_outside m at (b ∷ bs) a out =
    store_bytes_outside (store m at b) (at + 1) bs a (ground arith)
    ∙ store_ne m at b a (ground arith)

-- The buffer for files lies beside the place of programs.
abbrev pub Beside : ℕ → List ℕ → Type 0
Beside buffer_at bytes =
    (buffer_at + length bytes ≤ program_base) ⊎ (program_base + save_size ≤ buffer_at)

buffer-Beside :
    (m : Bytes) (buffer_at : ℕ) (bytes : List ℕ) (a : ℕ)
    → Beside buffer_at bytes
    → InProgram a
    → store_bytes m buffer_at bytes a ≡ m a
buffer-Beside m buffer_at bytes a beside (le, lt) =
    store_bytes_outside m buffer_at bytes a (ground arith)

-- The state in which the file is loaded.
abbrev staged : ℕ → Kernel → Sys → List ℕ → Kernel
staged buffer_at k sys bytes =
    let memory = store_bytes k.machine.memory buffer_at bytes in
    record k {
      sys = sys;
      machine = record k.machine { memory = memory };
      saved_program = save_program k.saved_program memory;
    }

exec_loaded-entered :
    (k : Kernel) (r : Machine × Outcome) (entry esp : ℕ)
    → r.1 ≡ Elf.entered entry esp
    → exec_loaded k r ≡ (record k { machine = r.0 }, enters entry esp)
unfolding exec_loaded
exec_loaded-entered k (machine, outcome) entry esp e = ap (λ o. exec_loaded k (machine, o)) e

exec_run-entered :
    (buffer_at esp : ℕ) (k : Kernel) (sys : Sys) (bytes : List ℕ)
    → validate_header (store_bytes k.machine.memory buffer_at bytes) buffer_at ≡ true
    → k.machine.exec_depth < max_exec_depth
    → let r = exec_run buffer_at esp k (sys, loaded bytes) in
      (r.0.saved_program
        ≡ save_program k.saved_program (store_bytes k.machine.memory buffer_at bytes))
      × (r.0.machine.exec_depth ≡ k.machine.exec_depth + 1)
unfolding exec_run
exec_run-entered buffer_at esp k sys bytes valid room =
    let k1 : Kernel = staged buffer_at k sys bytes in
    let (outcome, deeper, saved) = load_and_exec-entered k1.machine buffer_at esp valid room in
    let run = exec_loaded-entered k1 (load_and_exec k1.machine buffer_at esp) _ _ outcome in
    (ap (λ r. r.0.saved_program) run, ap (λ r. r.0.machine.exec_depth) run ∙ deeper)

-- The end of a program that another one started.
exit_lem :
    (k : Kernel) (code : ℕ)
    → 1 < k.machine.exec_depth
    → ((exit k code).1 ≡ value 0)
      × ((exit k code).0.machine.exec_depth ≡ k.machine.exec_depth - 1)
      × ((exit k code).0.machine.memory ≡ restore_program k.machine.memory k.saved_program)
unfolding exit resume_caller restored return_to_kernel
exit_lem k code h =
    let running : ltb 0 k.machine.exec_depth ≡ true = ground arith in
    let nested : (k.machine.exec_depth - 1 == 0) ≡ false = ground arith in
    rw running (rw nested (refl, refl, refl))

-- SYSCALL_EXEC by a program of a valid file, whose buffer lies beside the place of programs, with less than 8 programs
-- running; then SYSCALL_EXIT in any later state in which the program that was started has run no further one. The exit
-- returns 0 to the caller, the depth is as before, and the memory of the caller, which the loader and the other program
-- have overwritten, is what it was.
pub exit-exec_run :
    (buffer_at esp code : ℕ) (k k' : Kernel) (sys : Sys) (bytes : List ℕ)
    → validate_header (store_bytes k.machine.memory buffer_at bytes) buffer_at ≡ true
    → 0 < k.machine.exec_depth
    → k.machine.exec_depth < max_exec_depth
    → Beside buffer_at bytes
    → let started = (exec_run buffer_at esp k (sys, loaded bytes)).0 in
      k'.saved_program ≡ started.saved_program
      → k'.machine.exec_depth ≡ started.machine.exec_depth
      → ((exit k' code).1 ≡ value 0)
        × ((exit k' code).0.machine.exec_depth ≡ k.machine.exec_depth)
        × ((a : ℕ) → InProgram a → (exit k' code).0.machine.memory a ≡ k.machine.memory a)
exit-exec_run buffer_at esp code k k' sys bytes valid some_program room beside saved depth =
    let (saves, deeper) = exec_run-entered buffer_at esp k sys bytes valid room in
    let (result, shallower, memory) = exit_lem k' code (omega arith) in
    (
      result,
      omega arith,
      λ a inside.
          ap (λ m. m a) memory
          ∙ ap (λ p. restore_program k'.machine.memory p a) (saved ∙ saves)
          ∙ restore-save k.saved_program (store_bytes k.machine.memory buffer_at bytes)
              k'.machine.memory a inside
          ∙ buffer-Beside k.machine.memory buffer_at bytes a beside inside,
    )

-- Behind a SYSCALL_EXEC in `k` the static copy is that of its memory. So the next SYSCALL_EXIT of a program above
-- another one, in any later state with this copy, gives its caller the memory of `k`, whichever program the caller is.
pub exit-copied :
    (buffer_at esp code : ℕ) (k k' : Kernel) (sys : Sys) (bytes : List ℕ)
    → validate_header (store_bytes k.machine.memory buffer_at bytes) buffer_at ≡ true
    → k.machine.exec_depth < max_exec_depth
    → Beside buffer_at bytes
    → k'.saved_program ≡ (exec_run buffer_at esp k (sys, loaded bytes)).0.saved_program
    → 1 < k'.machine.exec_depth
    → (a : ℕ) → InProgram a
    → (exit k' code).0.machine.memory a ≡ k.machine.memory a
exit-copied buffer_at esp code k k' sys bytes valid room beside saved deep a inside =
    let (saves, deeper) = exec_run-entered buffer_at esp k sys bytes valid room in
    let (result, shallower, memory) = exit_lem k' code deep in
    ap (λ m. m a) memory
    ∙ ap (λ p. restore_program k'.machine.memory p a) (saved ∙ saves)
    ∙ restore-save k.saved_program (store_bytes k.machine.memory buffer_at bytes) k'.machine.memory
        a inside
    ∙ buffer-Beside k.machine.memory buffer_at bytes a beside inside
