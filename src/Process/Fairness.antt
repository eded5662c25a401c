-- ===== src/Process/Fairness.antt =====
-- The scheduler is fair: a ready process runs after at most 15 calls of `schedule`.
use magnos.Base.{
  leb, ◌⊎◌, sym, ℕ, zero, suc, ◌+◌, ◌-◌, ◌%◌, ◌<◌, ◌≤◌, ◌≡◌, ◌≢◌, ◌∙◌, ap, true, false, Option,
  none, some, inl, inr, arith, ◌==◌, Bool-cases, IsFirst,
}
use magnos.Process.{Procs, Process, ready, running, max_processes, state_at, is_ready, schedule}
use magnos.Process.Schedule.{IsValid, ready_after, next_ready, schedule-Switched, schedule-IsValid}

-- `n` timer slices in a row; `esp k` is the stack pointer saved at the k-th.
unfoldable pub run : ℕ → (ℕ → ℕ) → Procs → Procs
run zero esp s = s
run (suc n) esp s = run n (λ k. esp (k + 1)) (schedule (esp 0) s).0

-- How many slots `t` lies behind `c`, going round.
abbrev behind : ℕ → ℕ → ℕ
behind c t = (t + max_processes - c) % max_processes

-- The current slot is determined by the state.
cur_unique : {s : Procs} (v : IsValid s) (n : ℕ) → s.current ≡ some n → v.cur ≡ n
cur_unique v n e = cc (v.is_current, e)

-- One call runs the ready process `t`, or leaves it ready and brings it nearer.
nearer :
    (e t : ℕ) (s : Procs) (v : IsValid s) (v' : IsValid (schedule e s).0)
    → t < max_processes
    → state_at s t ≡ ready
    → (((schedule e s).0.current ≡ some t) × (state_at (schedule e s).0 t ≡ running))
      ⊎ ((state_at (schedule e s).0 t ≡ ready) × (behind v'.cur t < behind v.cur t))
nearer e t s v v' ht r = go (next_ready s v.cur).0 (next_ready s v.cur).1
  where
    ne : t ≢ v.cur
    ne q = cc (ap (state_at s) q, v.runs)

    place : (v.cur + behind v.cur t) % max_processes ≡ t
    place = omega (arith, v.cur_in)

    there : ready_after s v.cur (behind v.cur t) ≡ true
    there = ap (λ (j : ℕ). is_ready (state_at s j)) place ∙ ap is_ready r

    go :
        (o : Option ℕ)
        → IsFirst (ready_after s v.cur) 1 max_processes o
        → (((schedule e s).0.current ≡ some t) × (state_at (schedule e s).0 t ≡ running))
          ⊎ ((state_at (schedule e s).0 t ≡ ready) × (behind v'.cur t < behind v.cur t))
    go none h = cc (h (behind v.cur t) (omega (arith, v.cur_in, ne)) (omega arith), there)
    go (some i) h =
        let w = schedule-Switched e v i h in
        let n : ℕ = (v.cur + i) % max_processes in
        let en : v'.cur ≡ n = cur_unique v' n w.current in
        elim (Bool-cases (i == behind v.cur t)) [
          | inl p ↦
              let ei : i ≡ behind v.cur t = ground arith in
              let et : n ≡ t = ap (λ (j : ℕ). (v.cur + j) % max_processes) ei ∙ place in
              inl (
                w.current ∙ ap some et,
                ap (state_at (schedule e s).0) (sym et) ∙ ap (λ (q : Process). q.state) w.entered,
              )
          | inr p ↦
              let le : i ≤ behind v.cur t = first_le i h p in
              let lt : i < behind v.cur t = ground arith in
              inr (
                ap (λ (q : Process). q.state) (w.others t ne (omega (arith, v.cur_in))) ∙ r,
                omega (arith, v.cur_in, v'.cur_in),
              )
        ]
      where
        first_le :
            (i : ℕ)
            → IsFirst (ready_after s v.cur) 1 max_processes (some i)
            → (i == behind v.cur t) ≡ false
            → i ≤ behind v.cur t
        first_le i h p = elim (Bool-cases (leb i (behind v.cur t))) [
          | inl q ↦ ground arith
          | inr q ↦ cc (h.3 (behind v.cur t) (omega (arith, v.cur_in, ne)) (ground arith), there)
        ]

reaches :
    (d t : ℕ) (esp : ℕ → ℕ) (s : Procs) (v : IsValid s)
    → t < max_processes
    → state_at s t ≡ ready
    → behind v.cur t ≤ d
    → (n : ℕ) × (n ≤ d) × ((run n esp s).current ≡ some t) × (state_at (run n esp s) t ≡ running)
unfolding run
reaches zero t esp s v ht r far =
    let same : t ≡ v.cur = omega (arith, v.cur_in) in cc (ap (state_at s) same, v.runs)
reaches (suc d) t esp s v ht r far =
    let v' = schedule-IsValid (esp 0) v in
    elim (nearer (esp 0) t s v v' ht r) [
      | inl (a, b) ↦ (1, omega arith, a, b)
      | inr (a, b) ↦
          let (n, le, x, y) =
            reaches d t (λ k. esp (k + 1)) (schedule (esp 0) s).0 v' ht a (omega arith) in
          (suc n, omega arith, x, y)
    ]

-- A ready process runs after at most 15 timer slices, whatever stack pointers they save, as long as
-- nothing but `schedule` changes the table in between.
pub schedule_fair :
    (t : ℕ) (esp : ℕ → ℕ) {s : Procs} (v : IsValid s)
    → t < max_processes
    → state_at s t ≡ ready
    → (n : ℕ) × (n ≤ 15) × ((run n esp s).current ≡ some t) × (state_at (run n esp s) t ≡ running)
schedule_fair t esp {s} v ht r = reaches 15 t esp s v ht r (omega arith)
