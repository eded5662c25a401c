-- ===== src/Ide/Transfer.antt =====
-- The loops of kernel/ide.c on a disk of the ATA standard.
use magnos.Base.{
  ℕ, zero, suc, ◌+◌, ◌-◌, ◌/◌, ◌%◌, ◌≤◌, ◌<◌, ◌≡◌, refl, ◌∙◌, ap, ap₂, true, false, ◌&&◌, List, [],
  ◌∷◌, ◌++◌, ltb, ◌==◌, if◌then◌else◌, Bool-cases, inl, inr, arith,
}
use magnos.Ports.{History, Device, word_in, inw, inw_buffer}
use magnos.Ide.{
  data_port, has_error, has_drq, is_ready, timeout, read_status, status_at, wait_ready_loop,
  wait_drq_loop, wait_ready, wait_drq,
}
use magnos.Ide.Drive.{Drive, step, drive_of, polls, IsAta}

abbrev pub with_open : Drive → Drive
with_open d = record d { block_open = true }

-- A transfer: the unit and the first sector, the words given, and the words left.
abbrev pub Transfers : Drive → ℕ → ℕ → ℕ → ℕ → Type 0
Transfers d unit start given left =
    (d.unit ≡ unit) × (d.start ≡ start) × (d.given ≡ given) × (d.left ≡ left)

-- The words of a transfer from number `g` on.
abbrev pub stored : (ℕ → ℕ → ℕ → ℕ) → ℕ → ℕ → ℕ → ℕ → List ℕ
stored content unit start g zero = []
stored content unit start g (suc n) =
    content unit (start + g / 256) (g % 256) ∷ stored content unit start (g + 1) n

pub stored-append :
    (content : ℕ → ℕ → ℕ → ℕ) (unit start g j k : ℕ)
    → stored content unit start g (j + k)
      ≡ stored content unit start g j ++ stored content unit start (g + j) k
stored-append content unit start g zero k =
    ap₂ (stored content unit start) (omega arith) (omega arith)
stored-append content unit start g (suc j) k =
    let more : suc j + k ≡ suc (j + k) = omega arith in
    ap (stored content unit start g) more
    ∙ ap (λ t. content unit (start + g / 256) (g % 256) ∷ t)
        (stored-append content unit start (g + 1) j k
          ∙ ap (λ t. stored content unit start (g + 1) j ++ stored content unit start t k)
              (omega arith))

module _ (device : Device) (content : ℕ → ℕ → ℕ → ℕ) (ata : IsAta device content) where
  -- A read of the status changes nothing without a transfer.
  read_status-idle :
      (h : History) → (drive_of h).left ≡ 0 → drive_of (read_status device h) ≡ drive_of h
  unfolding drive_of step
  read_status-idle h e =
      let none : (has_drq (status_at device h) && ltb 0 (drive_of h).left) ≡ false = ground arith in
      rw none refl

  wait_ready_loop_done :
      (fuel : ℕ) (h : History)
      → is_ready (status_at device h) ≡ true
      → wait_ready_loop device (suc fuel) h ≡ (read_status device h, true)
  unfolding wait_ready_loop
  wait_ready_loop_done fuel h e = rw (wait_ready_loop, e) refl

  wait_ready_loop_again :
      (fuel : ℕ) (h : History)
      → is_ready (status_at device h) ≡ false
      → wait_ready_loop device (suc fuel) h ≡ wait_ready_loop device fuel (read_status device h)
  unfolding wait_ready_loop
  wait_ready_loop_again fuel h e = rw (wait_ready_loop, e) refl

  wait_ready_loop-ready :
      (fuel n : ℕ) (h : History)
      → (drive_of h).left ≡ 0
      → n < fuel
      → is_ready (status_at device (polls device n h)) ≡ true
      → (h' : History) × (wait_ready_loop device fuel h ≡ (h', true)) × (drive_of h' ≡ drive_of h)
  wait_ready_loop-ready zero n h idle lt e = absurd (omega arith)
  wait_ready_loop-ready (suc fuel) zero h idle lt e =
      (read_status device h, wait_ready_loop_done fuel h e, read_status-idle h idle)
  wait_ready_loop-ready (suc fuel) (suc n) h idle lt e =
      elim (Bool-cases (is_ready (status_at device h))) [
        | inl now ↦ (read_status device h, wait_ready_loop_done fuel h now, read_status-idle h idle)
        | inr later ↦
            let same = read_status-idle h idle in
            let (h', run, state) =
              wait_ready_loop-ready fuel n (read_status device h) (ap (λ d. d.left) same ∙ idle)
                (omega arith) e in
            (h', wait_ready_loop_again fuel h later ∙ run, state ∙ same)
      ]

  -- `ide_wait_ready` without a transfer.
  pub wait_ready-ready :
      (h : History)
      → (drive_of h).left ≡ 0
      → (h' : History) × (wait_ready device h ≡ (h', true)) × (drive_of h' ≡ drive_of h)
  unfolding wait_ready
  wait_ready-ready h idle =
      let (n, lt, e) = ata.ready h idle in wait_ready_loop-ready timeout n h idle lt e

  -- In a transfer a status without a request changes nothing, and one with a request opens the block.
  read_status-closed :
      (h : History)
      → has_drq (status_at device h) ≡ false
      → drive_of (read_status device h) ≡ drive_of h
  unfolding drive_of step
  read_status-closed h e = rw e refl

  read_status-open :
      (h : History)
      → has_drq (status_at device h) ≡ true
      → 0 < (drive_of h).left
      → drive_of (read_status device h) ≡ with_open (drive_of h)
  unfolding drive_of step
  read_status-open h e pos =
      let more : (has_drq (status_at device h) && ltb 0 (drive_of h).left) ≡ true = ground arith in
      rw more refl

  wait_drq_loop_done :
      (fuel : ℕ) (h : History)
      → has_drq (status_at device h) ≡ true
      → wait_drq_loop device (suc fuel) h ≡ (read_status device h, true)
  unfolding wait_drq_loop
  wait_drq_loop_done fuel h e = rw (wait_drq_loop, e) refl

  wait_drq_loop_again :
      (fuel : ℕ) (h : History)
      → has_drq (status_at device h) ≡ false
      → has_error (status_at device h) ≡ false
      → wait_drq_loop device (suc fuel) h ≡ wait_drq_loop device fuel (read_status device h)
  unfolding wait_drq_loop
  wait_drq_loop_again fuel h e e' = rw (wait_drq_loop, e) (rw e' refl)

  wait_drq_loop-open :
      (fuel n : ℕ) (h : History)
      → 0 < (drive_of h).left
      → n < fuel
      → has_drq (status_at device (polls device n h)) ≡ true
      → ((k : ℕ) → k < n → has_error (status_at device (polls device k h)) ≡ false)
      → (h' : History) × (wait_drq_loop device fuel h ≡ (h', true))
        × (drive_of h' ≡ with_open (drive_of h))
  wait_drq_loop-open zero n h pos lt e good = absurd (omega arith)
  wait_drq_loop-open (suc fuel) zero h pos lt e good =
      (read_status device h, wait_drq_loop_done fuel h e, read_status-open h e pos)
  wait_drq_loop-open (suc fuel) (suc n) h pos lt e good =
      elim (Bool-cases (has_drq (status_at device h))) [
        | inl now ↦
            (read_status device h, wait_drq_loop_done fuel h now, read_status-open h now pos)
        | inr later ↦
            let same = read_status-closed h later in
            let (h', run, state) =
              wait_drq_loop-open fuel n (read_status device h) (rw same pos) (omega arith) e
                (λ k hk. good (suc k) (omega arith)) in
            (
              h',
              wait_drq_loop_again fuel h later (good 0 (omega arith)) ∙ run,
              state ∙ ap with_open same,
            )
      ]

  pub wait_drq-open :
      (h : History)
      → 0 < (drive_of h).left
      → (h' : History) × (wait_drq device h ≡ (h', true)) × (drive_of h' ≡ with_open (drive_of h))
  unfolding wait_drq
  wait_drq-open h pos =
      let (n, lt, e, good) = ata.requests h pos in wait_drq_loop-open timeout n h pos lt e good

  read_word_lem :
      (h : History)
      → 0 < (drive_of h).left
      → drive_of (inw device data_port h) ≡ record (drive_of h) {
        given = (drive_of h).given + 1;
        left = (drive_of h).left - 1;
        block_open = if ((drive_of h).given + 1) % 256 == 0 then false else (drive_of h).block_open;
      }
  unfolding drive_of step
  read_word_lem h pos = let more : ltb 0 (drive_of h).left ≡ true = ground arith in rw more refl

  pub inw_buffer-stored :
      (n : ℕ) (h : History) (unit start g l : ℕ)
      → Transfers (drive_of h) unit start g (n + l)
      → g % 256 + n ≤ 256
      → (0 < n → (drive_of h).block_open ≡ true)
      → (h' : History) × (inw_buffer device data_port n h ≡ (h', stored content unit start g n))
        × Transfers (drive_of h') unit start (g + n) l
  unfolding inw_buffer
  inw_buffer-stored zero h unit start g l (u, s, given, left) fits open_block =
      (h, refl, (u, s, omega arith, omega arith))
  inw_buffer-stored (suc n) h unit start g l (u, s, given, left) fits open_block =
      let pos : 0 < (drive_of h).left = omega arith in
      let word = ata.words h pos (open_block (omega arith)) in
      let after = read_word_lem h pos in
      let (h', run, state) =
        inw_buffer-stored n (inw device data_port h) unit start (g + 1) l
          (rw after (u, s, omega arith, omega arith)) (omega arith)
          (λ more.
            let middle : ((drive_of h).given + 1) % 256 == 0 ≡ false = ground arith in
            rw after (rw middle (open_block (omega arith)))) in
      let value : word_in device h data_port ≡ content unit (start + g / 256) (g % 256) =
        word ∙ rw u (rw s (rw given refl)) in
      (
        h',
        rw run (ap (λ w. (h', w ∷ stored content unit start (g + 1) n)) value),
        (state.0, state.1, omega (arith, state.2), state.3),
      )
