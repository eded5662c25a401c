-- ===== src/Process.antt =====
-- kernel/process.c and kernel/switch.asm: the table of 16 processes and the round-robin scheduler.
-- `current_proc` points into the table, so it is modelled by the index of its slot. A `char` array
-- is a list of codes; a C string is its codes before the terminating zero. The int that
-- `process_create` returns is an option, `none` for -1.
pub mod Schedule
pub mod Fairness
pub mod Create
pub mod Init
pub mod Sample
mod Tests
use magnos.Base.{
  ℕ, zero, suc, ◌+◌, ◌-◌, ◌*◌, ◌%◌, ◌^◌, ◌≡◌, Bool, true, false, ◌&&◌, not, List, [], ◌∷◌, Option,
  none, some, ltb, ◌==◌, if◌then◌else◌, get_or, set, replicate, find_from,
}
use magnos.Memory.{Memory, store}
use magnos.Pmm.{Bitmap, page_size}
use magnos.Pmm

abbrev pub max_processes : ℕ
max_processes = 16

-- `proc_state_t`
pub data ProcState : Type 0 where
  unused ready running blocked terminated : ProcState

-- `process_t`
pub record Process : Type 0 where
  pub pid : ℕ
  pub name : List ℕ
  pub state : ProcState
  pub esp : ℕ
  pub eip : ℕ
  pub page_directory : ℕ
  pub kernel_stack : ℕ

-- The static variables of kernel/process.c.
pub record Procs : Type 0 where
  pub table : List Process
  pub current : Option ℕ
  pub next_pid : ℕ

abbrev pub is_unused : ProcState → Bool
is_unused unused = true
is_unused _ = false

abbrev pub is_ready : ProcState → Bool
is_ready ready = true
is_ready _ = false

abbrev pub is_running : ProcState → Bool
is_running running = true
is_running _ = false

-- A slot of the zero-initialised static array.
abbrev pub blank : Process
blank = record {
  pid = 0;
  name = replicate 16 0;
  state = unused;
  esp = 0;
  eip = 0;
  page_directory = 0;
  kernel_stack = 0;
}

abbrev pub proc_at : Procs → ℕ → Process
proc_at s i = get_or s.table i blank

abbrev pub state_at : Procs → ℕ → ProcState
state_at s i = (proc_at s i).state

-- `for (i = 0; name[i] && i < 15; i++) dst[i] = name[i]; dst[i] = '\0';` with `n` rounds left.
copy_name : ℕ → ℕ → List ℕ → List ℕ → List ℕ
copy_name zero i src dst = set dst i 0
copy_name (suc n) i src dst =
    let rest = copy_name n (i + 1) src (set dst i (get_or src i 0)) in
    if get_or src i 0 == 0 then set dst i 0 else rest

-- The codes of "kernel".
abbrev pub kernel_name : List ℕ
kernel_name = b'k' ∷ b'e' ∷ b'r' ∷ b'n' ∷ b'e' ∷ b'l' ∷ []

-- The loop of `process_init`: every slot unused, with pid 0.
reset_table : List Process → List Process
reset_table [] = []
reset_table (p ∷ ps) = record p { state = unused; pid = 0 } ∷ reset_table ps

pub init : Procs → Procs
init s =
    let p = get_or (reset_table s.table) 0 blank in
    let kernel : Process = record p {
      pid = s.next_pid;
      state = running;
      esp = 0x1F0000;
      kernel_stack = 0x1F0000;
      page_directory = 0;
      name = copy_name 15 0 kernel_name p.name;
    } in
    record {
      table = set (reset_table s.table) 0 kernel;
      current = some 0;
      next_pid = (s.next_pid + 1) % 2 ^ 32;
    }

-- `*(--sp) = v`
push : Memory × ℕ → ℕ → Memory × ℕ
push (m, sp) v = (store m (sp - 4) v, sp - 4)

-- The initial stack frame: the return address, then the eight registers that `popa` takes.
frame : Memory → ℕ → ℕ → Memory × ℕ
frame m top entry =
    push (push (push (push (push (push (push (push (push (m, top) entry) 0) 0) 0) 0) 0) 0) 0) 0

-- What `process_create` reads and writes outside its own module: the page bitmap and the memory.
pub record Machine : Type 0 where
  pub procs : Procs
  pub bitmap : Bitmap
  pub memory : Memory

free_slot : Procs → Option ℕ
free_slot s = find_from (λ i. is_unused (state_at s i)) max_processes 0

new_process : Procs → ℕ → ℕ → List ℕ → ℕ → ℕ → Process
new_process s slot stack_page name entry sp = record (proc_at s slot) {
  pid = s.next_pid;
  state = ready;
  kernel_stack = stack_page;
  eip = entry;
  page_directory = 0;
  esp = sp;
  name = copy_name 15 0 name (proc_at s slot).name;
}

-- `process_create` once it has a slot and a stack page.
created : List ℕ → ℕ → Machine → ℕ → Bitmap → ℕ → Machine × Option ℕ
created name entry k slot bitmap stack_page =
    let (memory, sp) = frame k.memory (stack_page + page_size) entry in
    (
      record {
        procs = record {
          table = set k.procs.table slot (new_process k.procs slot stack_page name entry sp);
          current = k.procs.current;
          next_pid = (k.procs.next_pid + 1) % 2 ^ 32;
        };
        bitmap = bitmap;
        memory = memory;
      },
      some k.procs.next_pid,
    )

-- `process_create` behind the search for a slot, given what it found.
create_in : List ℕ → ℕ → Machine → Option ℕ → Machine × Option ℕ
create_in name entry k none = (k, none)
create_in name entry k (some slot) =
    let (bitmap, stack_page) = Pmm.alloc k.bitmap in
    if stack_page == 0
    then (record k { bitmap = bitmap }, none)
    else created name entry k slot bitmap stack_page

pub create : List ℕ → ℕ → Machine → Machine × Option ℕ
create name entry k = create_in name entry k (free_slot k.procs)

pub get_current : Procs → Option ℕ
get_current s = s.current

-- The slot of the process with a pid.
pub get : Procs → ℕ → Option ℕ
get s pid =
    find_from (λ i. not (is_unused (state_at s i)) && (proc_at s i).pid == pid) max_processes 0

-- The index of the slot that `current_proc` points to, found by comparing pointers; `none` is -1.
current_slot : ℕ → Option ℕ
current_slot c = find_from (λ i. i == c) max_processes 0

-- `(current_slot + i) % MAX_PROCESSES`, for `i` from 1 on
slot_after : Option ℕ → ℕ → ℕ
slot_after none i = (i - 1) % max_processes
slot_after (some c) i = (c + i) % max_processes

is_slot : Option ℕ → ℕ → Bool
is_slot none i = false
is_slot (some c) i = i == c

-- The updates before `context_switch`, and the store of the old stack pointer that it makes.
switch_to : ℕ → Procs → ℕ → ℕ → Procs
switch_to saved_esp s c n =
    let old = proc_at s c in
    let old' = record old { state = if is_running old.state then ready else old.state } in
    let t = set s.table c old' in
    let t' = set t n (record (get_or t n blank) { state = running }) in
    record s { table = set t' c (record (get_or t' c blank) { esp = saved_esp }); current = some n }

-- What follows the search for the next slot; `slot` is `current_slot`, and the last argument the
-- round at which the search stopped.
switch_after : ℕ → Procs → ℕ → Option ℕ → Option ℕ → Procs × Option ℕ
switch_after saved_esp s c slot none = (s, none)
switch_after saved_esp s c slot (some i) =
    let n = slot_after slot i in
    if is_slot slot n then (s, none) else (switch_to saved_esp s c n, some (proc_at s n).esp)

schedule_slot : ℕ → Procs → ℕ → Option ℕ → Procs × Option ℕ
schedule_slot saved_esp s c slot =
    switch_after saved_esp s c slot
      (find_from (λ i. is_ready (state_at s (slot_after slot i))) max_processes 1)

schedule_current : ℕ → Procs → Option ℕ → Procs × Option ℕ
schedule_current saved_esp s none = (s, none)
schedule_current saved_esp s (some c) = schedule_slot saved_esp s c (current_slot c)

-- `saved_esp` is the stack pointer that `context_switch` saves; the option is the stack pointer that
-- it loads, `none` where `schedule` returns without a switch.
pub schedule : ℕ → Procs → Procs × Option ℕ
schedule saved_esp s = schedule_current saved_esp s s.current

-- `popa` and `ret` at the end of `context_switch`: the eight registers and the address returned to.
pub resume : Memory → ℕ → List ℕ × ℕ
resume m esp = (
  m esp
      ∷ m (esp + 4)
      ∷ m (esp + 8)
      ∷ m (esp + 12)
      ∷ m (esp + 16)
      ∷ m (esp + 20)
      ∷ m (esp + 24)
      ∷ m (esp + 28)
      ∷ [],
  m (esp + 32),
)
