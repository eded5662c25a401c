-- ===== src/Process/Schedule.antt =====
-- What one call of `schedule` does, and the invariant of the process table.
use magnos.Base.{
  List, ℕ, ◌+◌, ◌%◌, ◌<◌, ◌≡◌, ◌≢◌, refl, ◌∙◌, ap, false, Option, none, some, inl, inr, arith, ◌==◌,
  if◌then◌else◌, Bool-cases, length, get_or, set, get_or-set, length-set, find_from,
  find_from-IsFirst, IsFirst, IsFirst-unique, Bool,
}
use magnos.Process.{
  Procs, Process, ready, running, max_processes, proc_at, state_at, is_ready, is_running, blank,
  current_slot, slot_after, is_slot, switch_to, switch_after, schedule_slot, schedule_current,
  schedule,
}

-- The table has 16 slots, and the current process is the one that runs.
pub record IsValid (s : Procs) : Type 0 where
  pub size : length s.table ≡ max_processes
  pub cur : ℕ
  pub is_current : s.current ≡ some cur
  pub cur_in : cur < max_processes
  pub runs : state_at s cur ≡ running
  pub alone : (j : ℕ) → j < max_processes → j ≢ cur → is_running (state_at s j) ≡ false

-- Whether the process `i` slots after slot `c`, going round, is ready.
abbrev pub ready_after : Procs → ℕ → ℕ → Bool
ready_after s c i = is_ready (state_at s ((c + i) % max_processes))

current_slot_self : (c : ℕ) → c < max_processes → current_slot c ≡ some c
unfolding current_slot
current_slot_self c h =
    IsFirst-unique (λ i. i == c) 0 max_processes _ (some c)
      (find_from-IsFirst (λ i. i == c) max_processes 0 max_processes refl)
      (omega arith, h, ground arith, λ j le lt. ground arith)

-- Three writes of records, read back; a lemma for any three values.
three_writes :
    (t : List Process) (c n j : ℕ) (u v w : Process)
    → c < length t
    → n < length t
    → n ≢ c
    → (length (set (set (set t c u) n v) c w) ≡ length t)
      × (get_or (set t c u) n blank ≡ get_or t n blank)
      × (get_or (set (set t c u) n v) c blank ≡ u)
      × (get_or (set (set (set t c u) n v) c w) j blank
          ≡ (if j == c then w else if j == n then v else get_or t j blank))
three_writes t c n j u v w hc hn ne =
    let l1 = length-set t c u in
    let l2 = length-set (set t c u) n v in
    let l3 = length-set (set (set t c u) n v) c w in
    let r1 = get_or-set t c n u blank hc in
    let r2 = get_or-set (set t c u) n c v blank (omega arith) in
    let r3 = get_or-set t c c u blank hc in
    let r4 = get_or-set (set (set t c u) n v) c j w blank (omega arith) in
    let r5 = get_or-set (set t c u) n j v blank (omega arith) in
    let r6 = get_or-set t c j u blank hc in (omega arith, ground arith, ground arith, ground arith)

-- Every slot after a switch from slot `c` to another slot `n`.
proc_at-switch_to :
    (e : ℕ) (s : Procs) (c n j : ℕ)
    → c < length s.table
    → n < length s.table
    → n ≢ c
    → (length (switch_to e s c n).table ≡ length s.table)
      × (proc_at (switch_to e s c n) j ≡ (
          if j == c
          then record (proc_at s c) {
            state = if is_running (state_at s c) then ready else state_at s c;
            esp = e;
          }
          else if j == n
          then record (proc_at s n) { state = running }
          else proc_at s j))
unfolding switch_to
proc_at-switch_to e s c n j hc hn ne =
    let old' : Process = record (proc_at s c) {
      state = if is_running (state_at s c) then ready else state_at s c;
    } in
    let t' = set s.table c old' in
    let v : Process = record (get_or t' n blank) { state = running } in
    let t'' = set t' n v in
    let w : Process = record (get_or t'' c blank) { esp = e } in
    let (a, b, d, f) = three_writes s.table c n j old' v w hc hn ne in (a, ground arith)

-- `schedule` in terms of the search over the slots behind the current one.
schedule_eq :
    (e : ℕ) (s : Procs) (c : ℕ) (r : Option ℕ)
    → s.current ≡ some c
    → c < max_processes
    → IsFirst (ready_after s c) 1 (max_processes + 1) r
    → schedule e s ≡ switch_after e s c (some c) r
unfolding schedule schedule_slot schedule_current slot_after
schedule_eq e s c r h hc first =
    ap (schedule_current e s) h
    ∙ ap (schedule_slot e s c) (current_slot_self c hc)
    ∙ ap (switch_after e s c (some c)) (
        IsFirst-unique (ready_after s c) 1 (max_processes + 1) _ r
          (find_from-IsFirst (ready_after s c) max_processes 1 (max_processes + 1) refl) first)

-- The last round comes back to the current process, which runs and is not ready.
self-not-ready : {s : Procs} (v : IsValid s) → ready_after s v.cur max_processes ≡ false
self-not-ready {s} v =
    let e : (v.cur + max_processes) % max_processes ≡ v.cur = omega (arith, v.cur_in) in
    rw (e, v.runs)

-- With no other process ready, `schedule` changes nothing and switches to nothing.
pub schedule-idle :
    (e : ℕ) {s : Procs} (v : IsValid s)
    → IsFirst (ready_after s v.cur) 1 max_processes none
    → schedule e s ≡ (s, none)
schedule-idle e {s} v h =
    schedule_eq e s v.cur none v.is_current v.cur_in all ∙ unfold switch_after in refl
  where
    all : IsFirst (ready_after s v.cur) 1 (max_processes + 1) none
    all j le lt = elim (Bool-cases (j == max_processes)) [
      | inl p ↦ let ej : j ≡ max_processes = ground arith in rw ej (self-not-ready v)
      | inr p ↦ h j le (ground arith)
    ]

-- The process that a switch leaves and the one that it goes to.
pub record Switched (e : ℕ) (s : Procs) (c n : ℕ) (out : Procs × Option ℕ) : Type 0 where
  pub loads : out.1 ≡ some (proc_at s n).esp
  pub current : out.0.current ≡ some n
  pub left : proc_at out.0 c ≡ record (proc_at s c) { state = ready; esp = e }
  pub entered : proc_at out.0 n ≡ record (proc_at s n) { state = running }
  pub others : (j : ℕ) → j ≢ c → j ≢ n → proc_at out.0 j ≡ proc_at s j
  pub size : length out.0.table ≡ length s.table

-- Otherwise `schedule` switches to the first ready process behind the current one, going round the
-- table: that process runs, the old one becomes ready with its stack pointer saved, no other slot
-- changes, and the stack pointer that is loaded is the one saved for the new process.
pub schedule-Switched :
    (e : ℕ) {s : Procs} (v : IsValid s) (i : ℕ)
    → IsFirst (ready_after s v.cur) 1 max_processes (some i)
    → Switched e s v.cur ((v.cur + i) % max_processes) (schedule e s)
schedule-Switched e {s} v i h =
    let n = (v.cur + i) % max_processes in
    let ne : n ≢ v.cur = omega (arith, h.0, h.1, v.cur_in) in
    let missed : (n == v.cur) ≡ false = ground arith in
    let eq : schedule e s ≡ (switch_to e s v.cur n, some (proc_at s n).esp) =
      schedule_eq e s v.cur (some i) v.is_current v.cur_in (h.0, omega (arith, h.1), h.2, h.3)
      ∙ unfold switch_after slot_after is_slot in rw missed in
    rw eq (switched n ne (omega arith))
  where
    switched :
        (n : ℕ)
        → n ≢ v.cur
        → n < max_processes
        → Switched e s v.cur n (switch_to e s v.cur n, some (proc_at s n).esp)
    switched n ne hn =
        let hc : v.cur < length s.table = omega (arith, v.size, v.cur_in) in
        let hn' : n < length s.table = omega (arith, v.size) in
        let at_cur = (proc_at-switch_to e s v.cur n v.cur hc hn' ne).1 in
        let at_next = (proc_at-switch_to e s v.cur n n hc hn' ne).1 in
        record {
          loads = refl;
          current = unfold switch_to in refl;
          left = ground (arith, at_cur, v.runs);
          entered = ground (arith, at_next);
          others = λ j jc jn. ground (arith, (proc_at-switch_to e s v.cur n j hc hn' ne).1);
          size = (proc_at-switch_to e s v.cur n 0 hc hn' ne).0;
        }

Switched-IsValid :
    (e : ℕ) {s : Procs} (v : IsValid s) (n : ℕ) (out : Procs × Option ℕ)
    → n < max_processes
    → n ≢ v.cur
    → Switched e s v.cur n out
    → IsValid out.0
Switched-IsValid e {s} v n out hn ne w = record {
  size = omega (arith, w.size, v.size);
  cur = n;
  is_current = w.current;
  cur_in = hn;
  runs = ap (λ (p : Process). p.state) w.entered;
  alone = λ j hj jn. elim (Bool-cases (j == v.cur)) [
    | inl p ↦
        let ej : j ≡ v.cur = ground arith in rw ej (ap (λ (p : Process). is_running p.state) w.left)
    | inr p ↦
        ap (λ (p : Process). is_running p.state) (w.others j (ground arith) jn)
        ∙ v.alone j hj (ground arith)
  ];
}

-- The first ready process behind the current one, if there is one.
pub next_ready : (s : Procs) (c : ℕ) → (r : Option ℕ) × IsFirst (ready_after s c) 1 max_processes r
next_ready s c =
    (find_from (ready_after s c) 15 1, find_from-IsFirst (ready_after s c) 15 1 max_processes refl)

-- `schedule` keeps the invariant: exactly one process runs, and it is the current one.
pub schedule-IsValid : (e : ℕ) {s : Procs} → IsValid s → IsValid (schedule e s).0
schedule-IsValid e {s} v = go (next_ready s v.cur).0 (next_ready s v.cur).1
  where
    go : (r : Option ℕ) → IsFirst (ready_after s v.cur) 1 max_processes r → IsValid (schedule e s).0
    go none h = rw (schedule-idle e v h) v
    go (some i) h =
        Switched-IsValid e v ((v.cur + i) % max_processes) (schedule e s) (omega arith)
          (omega (arith, h.0, h.1, v.cur_in)) (schedule-Switched e v i h)
