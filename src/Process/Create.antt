-- ===== src/Process/Create.antt =====
-- `process_create` and `process_get`.
use magnos.Base.{
  Bool, sym, get_or-set_self, get_or-set_ne, ◌⊎◌, ℕ, ◌+◌, ◌-◌, ◌<◌, ◌≤◌, ◌≡◌, ◌≢◌, refl, ◌∙◌, ap,
  true, false, not, ◌&&◌, List, [], ◌∷◌, Option, none, some, inl, inr, arith, ◌==◌, Bool-cases,
  length, get_or, set, length-set, find_from, find_from-IsFirst, IsFirst, IsFirst-unique,
}
use magnos.Memory.{Memory, store}
use magnos.Pmm
use magnos.Pmm.{page_size}
use magnos.Pmm.Pages
use magnos.Pmm.Alloc.{Allocated, alloc-Allocated}
use magnos.Process.{
  Procs, Process, ready, max_processes, proc_at, state_at, is_unused, is_running, blank, Machine,
  frame, push, new_process, create_in, created, create, free_slot, get, resume,
}
use magnos.Process.Schedule.{IsValid}

free_slot_eq :
    (s : Procs) (r : Option ℕ)
    → IsFirst (λ i. is_unused (state_at s i)) 0 max_processes r
    → free_slot s ≡ r
unfolding free_slot
free_slot_eq s r h =
    IsFirst-unique (λ i. is_unused (state_at s i)) 0 max_processes _ r
      (find_from-IsFirst (λ i. is_unused (state_at s i)) max_processes 0 max_processes refl) h

-- With no unused slot, `process_create` returns -1 and changes nothing; with a slot but no free page
-- it returns -1 and leaves the table and the memory as they are.
pub create_fails :
    (name : List ℕ) (entry : ℕ) (k : Machine) (r : Option ℕ)
    → IsFirst (λ i. is_unused (state_at k.procs i)) 0 max_processes r
    → (r ≡ none) ⊎ ((Pmm.alloc k.bitmap).1 ≡ 0)
    → ((create name entry k).1 ≡ none)
      × ((create name entry k).0.procs ≡ k.procs)
      × ((create name entry k).0.memory ≡ k.memory)
unfolding create create_in
create_fails name entry k none h c = rw (free_slot_eq k.procs none h, create) (refl, refl, refl)
create_fails name entry k (some slot) h (inl e) = cc
create_fails name entry k (some slot) h (inr e) =
    rw (free_slot_eq k.procs (some slot) h) (rw e (refl, refl, refl))

-- The frame that `process_create` builds is the one that `context_switch` takes apart: eight zero
-- registers and the entry point. Only the 36 bytes at the top of the page are written.
frame_lem :
    (m : Memory) (t entry : ℕ)
    → 36 ≤ t
    → ((frame m t entry).1 ≡ t - 36)
      × (resume (frame m t entry).0 (t - 36) ≡ (0 ∷ 0 ∷ 0 ∷ 0 ∷ 0 ∷ 0 ∷ 0 ∷ 0 ∷ [], entry))
      × ((a : ℕ) → (a < t - 36) ⊎ (t ≤ a) → (frame m t entry).0 a ≡ m a)
unfolding frame push resume store
frame_lem m t entry h = (omega arith, ground arith, λ a out. ground arith)

-- What `process_create` leaves behind when it succeeds in slot `slot`.
pub record Created (name : List ℕ) (entry : ℕ) (k : Machine) (slot : ℕ) (out : Machine × Option ℕ)
    : Type 0 where
  pub pid : out.1 ≡ some k.procs.next_pid
  pub stack : Allocated k.bitmap out.0.bitmap (proc_at out.0.procs slot).kernel_stack
  pub state : state_at out.0.procs slot ≡ ready
  pub has_pid : (proc_at out.0.procs slot).pid ≡ k.procs.next_pid
  pub starts :
      resume out.0.memory (proc_at out.0.procs slot).esp
      ≡ (0 ∷ 0 ∷ 0 ∷ 0 ∷ 0 ∷ 0 ∷ 0 ∷ 0 ∷ [], entry)
  pub esp_in :
      (proc_at out.0.procs slot).esp + 36 ≡ (proc_at out.0.procs slot).kernel_stack + page_size
  pub others : (j : ℕ) → j ≢ slot → proc_at out.0.procs j ≡ proc_at k.procs j
  pub current : out.0.procs.current ≡ k.procs.current
  pub size : length out.0.procs.table ≡ length k.procs.table
  pub writes :
      (a : ℕ)
      → (a < (proc_at out.0.procs slot).esp)
        ⊎ ((proc_at out.0.procs slot).kernel_stack + page_size ≤ a)
      → out.0.memory a ≡ k.memory a

created-Created :
    (name : List ℕ) (entry : ℕ) (k : Machine) (slot : ℕ) (bitmap : Pmm.Bitmap) (page : ℕ)
    → slot < length k.procs.table
    → Allocated k.bitmap bitmap page
    → Created name entry k slot (created name entry k slot bitmap page)
unfolding created new_process
created-Created name entry k slot bitmap page h a =
    let (sp, regs, out) = frame_lem k.memory (page + page_size) entry (omega arith) in
    let p = new_process k.procs slot page name entry (frame k.memory (page + page_size) entry).1 in
    let here : get_or (set k.procs.table slot p) slot blank ≡ p =
      get_or-set_self k.procs.table slot p blank h in
    record {
      pid = refl;
      stack = rw here a;
      state = ap (λ (q : Process). q.state) here;
      has_pid = ap (λ (q : Process). q.pid) here;
      starts = rw (here, sp) regs;
      esp_in = rw (here, sp) (omega arith);
      others = λ j ne. get_or-set_ne k.procs.table slot j p blank (λ e. ne (sym e));
      current = refl;
      size = length-set k.procs.table slot p;
      writes = rw (here, sp) out;
    }

-- With an unused slot and a free page, `process_create` takes the first such slot and a page for the
-- kernel stack, returns the next pid, and makes the process ready to start at `entry` with all
-- registers zero: that is what `context_switch` pops from its stack. It writes only to the top 36
-- bytes of that page, and no other slot changes.
pub create-Created :
    (name : List ℕ) (entry : ℕ) (k : Machine) (slot : ℕ)
    → length k.procs.table ≡ max_processes
    → Pages.IsValid k.bitmap
    → IsFirst (λ i. is_unused (state_at k.procs i)) 0 max_processes (some slot)
    → (Pmm.alloc k.bitmap).1 ≢ 0
    → Created name entry k slot (create name entry k)
unfolding create create_in
create-Created name entry k slot size valid h ne =
    let more : ((Pmm.alloc k.bitmap).1 == 0) ≡ false = ground arith in
    rw (free_slot_eq k.procs (some slot) h, more)
      (created-Created name entry k slot (Pmm.alloc k.bitmap).0 (Pmm.alloc k.bitmap).1
        (omega (arith, size, h.1)) (alloc-Allocated valid ne))

-- `process_create` keeps the invariant of the table on every path.
pub create-IsValid :
    (name : List ℕ) (entry : ℕ) (k : Machine)
    → Pages.IsValid k.bitmap
    → IsValid k.procs
    → IsValid (create name entry k).0.procs
create-IsValid name entry k valid v =
    go (find_from unused? max_processes 0)
      (find_from-IsFirst unused? max_processes 0 max_processes refl)
  where
    unused? : ℕ → Bool
    unused? i = is_unused (state_at k.procs i)

    kept :
        (r : Option ℕ)
        → IsFirst unused? 0 max_processes r
        → (r ≡ none) ⊎ ((Pmm.alloc k.bitmap).1 ≡ 0)
        → IsValid (create name entry k).0.procs
    kept r h c = rw (create_fails name entry k r h c).1 v

    go : (r : Option ℕ) → IsFirst unused? 0 max_processes r → IsValid (create name entry k).0.procs
    go none h = kept none h (inl refl)
    go (some slot) h = elim (Bool-cases ((Pmm.alloc k.bitmap).1 == 0)) [
      | inl e ↦ kept (some slot) h (inr (ground arith))
      | inr e ↦
          let c = create-Created name entry k slot v.size valid h (ground arith) in
          let ne : v.cur ≢ slot = λ q. cc (h.2, ap (state_at k.procs) q, v.runs) in
          record {
            size = c.size ∙ v.size;
            cur = v.cur;
            is_current = c.current ∙ v.is_current;
            cur_in = v.cur_in;
            runs = ap (λ (p : Process). p.state) (c.others v.cur ne) ∙ v.runs;
            alone = λ j hj jn. elim (Bool-cases (j == slot)) [
              | inl p ↦ let ej : j ≡ slot = ground arith in rw ej (ap is_running c.state)
              | inr p ↦
                  ap (λ (p : Process). is_running p.state) (c.others j (ground arith))
                  ∙ v.alone j hj jn
            ];
          }
    ]

-- The pids in use differ from one another and from the next one to be given out.
pub record HasPids (s : Procs) : Type 0 where
  pub fresh :
      (i : ℕ)
      → i < max_processes
      → is_unused (state_at s i) ≡ false
      → (proc_at s i).pid ≢ s.next_pid

-- `process_get` of the pid that `process_create` returned finds the new process.
pub get-create :
    (name : List ℕ) (entry : ℕ) (k : Machine) (slot : ℕ)
    → length k.procs.table ≡ max_processes
    → Pages.IsValid k.bitmap
    → HasPids k.procs
    → IsFirst (λ i. is_unused (state_at k.procs i)) 0 max_processes (some slot)
    → (Pmm.alloc k.bitmap).1 ≢ 0
    → get (create name entry k).0.procs k.procs.next_pid ≡ some slot
unfolding get
get-create name entry k slot size valid pids h ne =
    IsFirst-unique (λ i. has i) 0 max_processes _ (some slot)
      (find_from-IsFirst (λ i. has i) max_processes 0 max_processes refl)
      (omega arith, h.1, here, λ j le lt. before j (omega (arith, h.1)) (omega arith))
  where
    out : Procs
    out = (create name entry k).0.procs

    c : Created name entry k slot (create name entry k)
    c = create-Created name entry k slot size valid h ne

    has : ℕ → Bool
    has i = not (is_unused (state_at out i)) && (proc_at out i).pid == k.procs.next_pid

    here : has slot ≡ true
    here = ground (arith, c.state, c.has_pid)

    before : (j : ℕ) → j < max_processes → j ≢ slot → has j ≡ false
    before j hj jn = elim (Bool-cases (is_unused (state_at k.procs j))) [
      | inl u ↦ ground (arith, c.others j jn)
      | inr u ↦ ground (arith, c.others j jn, pids.fresh j hj u)
    ]
