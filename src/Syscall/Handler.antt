-- ===== src/Syscall/Handler.antt =====
-- `syscall_handler` of kernel/syscall.c: the calls by number, with the pointers read from and the buffers written to
-- the memory. The fuel bounds strings, walks along clusters and the free list, and the waits for the serial chip.
use magnos.Base.{
  ℕ, zero, suc, ◌+◌, ◌/◌, ◌%◌, ◌^◌, true, false, not, List, [], ◌∷◌, ◌++◌, Option, none, some, ◌==◌,
  if◌then◌else◌,
}
use magnos.Ports.{History, Device}
use magnos.Serial
use magnos.Vga
use magnos.Vga.{Vga}
use magnos.Keyboard
use magnos.Keyboard.{Keyboard}
use magnos.Fat32.Dir.{DirInfo}
use magnos.Pmm.{Bitmap}
use magnos.Heap.{Heap, HeapStats}
use magnos.Process.{Procs}
use magnos.Idt.{Interrupts, Irq, interrupted, same_process}
use magnos.Elf.{Bytes}
use magnos.Syscall.{Sys, heap_stats}
use magnos.Syscall.Program.{Kernel, Result, value, with_memory, store_bytes}

-- All that the calls use.
pub record Env : Type 0 where
  pub kernel : Kernel
  pub keyboard : Keyboard
  pub ports : History
  pub pit_ticks : ℕ
  pub bitmap : Bitmap
  pub heap : Heap
  pub procs : Procs

-- The string at a pointer, none if it does not end within the fuel.
unfoldable pub string_from : ℕ → Bytes → ℕ → Option (List ℕ)
string_from zero m p = none
string_from (suc fuel) m p = elim (m p == 0) [
  | true ↦ some []
  | false ↦ elim (string_from fuel m (p + 1)) [ none ↦ none | some cs ↦ some (m p ∷ cs) ]
]

unfoldable pub with_string :
    Option (List ℕ) → (Option (List ℕ) → Option (Env × Result)) → Option (Env × Result)
with_string none f = none
with_string (some cs) f = f (some cs)

abbrev pub on_string :
    ℕ → Bytes → ℕ → (Option (List ℕ) → Option (Env × Result)) → Option (Env × Result)
on_string fuel m p f = if p == 0 then f none else with_string (string_from fuel m p) f

abbrev pub with_vga : Env → Vga → Env
with_vga e v = record e {
  kernel = record e.kernel { machine = record e.kernel.machine { vga = v } };
}

-- What the handlers of interrupts use of it, and the state behind them.
abbrev pub interrupts_of : Env → Interrupts
interrupts_of e = record {
  pit_ticks = e.pit_ticks;
  vga = e.kernel.machine.vga;
  keyboard = e.keyboard;
  procs = e.procs;
  ports = e.ports;
}

abbrev pub with_interrupts : Env → Interrupts → Env
with_interrupts e s = record (with_vga e s.vga) {
  pit_ticks = s.pit_ticks;
  keyboard = s.keyboard;
  procs = s.procs;
  ports = s.ports;
}

abbrev pub memory_of : Env → Bytes
memory_of e = e.kernel.machine.memory

abbrev pub with_sys : Env → Sys → Env
with_sys e s = record e { kernel = record e.kernel { sys = s } }

abbrev pub written : Env → ℕ → List ℕ → Env
written e p bytes = record e { kernel = with_memory e.kernel (store_bytes (memory_of e) p bytes) }

unfoldable pub printed : Env → Option History → Option (Env × Result)
printed e none = none
printed e (some h) = some (record e { ports = h }, value 0)

-- SYSCALL_PRINT
unfoldable pub print : ℕ → Device → Env → Option (List ℕ) → Option (Env × Result)
print fuel device e none = some (e, value 0)
print fuel device e (some str) =
    printed (with_vga e (Vga.puts (Vga.set_color e.kernel.machine.vga 15 0) str))
      (Serial.puts device Serial.com1 fuel str e.ports)

unfoldable pub opened_result : Env → Option (Sys × ℕ) → Option (Env × Result)
opened_result e none = none
opened_result e (some (s, code)) = some (with_sys e s, value code)

pub read_result : Env → ℕ → Option (Sys × ℕ × List ℕ) → Option (Env × Result)
read_result e buffer none = none
read_result e buffer (some (s, code, bytes)) =
    some (written (with_sys e s) buffer bytes, value code)

-- An entry of `fat32_dirinfo_t` in memory: the name with its terminator, the size at 16 and the flag at 20.
abbrev pub dirinfo_size : ℕ
dirinfo_size = 24

store_info : Bytes → ℕ → DirInfo → Bytes
store_info m p info =
    let m1 = store_bytes m p (info.name ++ 0 ∷ []) in
    let m2 = store_bytes m1 (p + 16) (
      info.size % 2 ^ 8
      ∷ info.size / 2 ^ 8 % 2 ^ 8
      ∷ info.size / 2 ^ 16 % 2 ^ 8
      ∷ info.size / 2 ^ 24 % 2 ^ 8
      ∷ []) in
    store_bytes m2 (p + 20) ((if info.is_directory then 1 else 0) ∷ [])

store_infos : Bytes → ℕ → List DirInfo → Bytes
store_infos m p [] = m
store_infos m p (info ∷ infos) = store_infos (store_info m p info) (p + dirinfo_size) infos

pub listed : Env → ℕ → Option (ℕ × List DirInfo) → Option (Env × Result)
listed e buffer none = none
listed e buffer (some (code, infos)) = some (
  record e { kernel = with_memory e.kernel (store_infos (memory_of e) buffer infos) },
  value code,
)

pub argument : Env → ℕ → ℕ × Option (List ℕ) → Env × Result
argument e buffer (code, none) = (e, value code)
argument e buffer (code, some cs) = (written e buffer (cs ++ 0 ∷ []), value code)

unfoldable pub executed : Env → Option (Kernel × Result) → Option (Env × Result)
executed e none = none
executed e (some (k, r)) = some (record e { kernel = k }, r)

unfoldable pub stats_result : Env → ℕ → Option HeapStats → Option (Env × Result)
stats_result e arg none = none
stats_result e arg (some stats) = some (e, value (heap_stats stats arg))

-- SYSCALL_SLEEP, with what the interrupts of the wait did.
unfoldable pub slept : Env → Option (Interrupts × List Irq) → Option (Env × Result)
slept e none = none
slept e (some (s, rest)) = some (with_interrupts e s, value 0)

-- A carriage return of the serial line becomes a line feed.
abbrev pub from_serial : ℕ → ℕ
from_serial c = if c == 13 then 10 else c

unfoldable pub char_result : Env → ℕ → Option (Env × Result) → Option (Env × Result)
char_result e c wait = if c == 0 then wait else some (e, value c)

unfoldable pub serial_char :
    Env → Option (History × ℕ) → (Env → Option (Env × Result)) → Option (Env × Result)
serial_char e none wait = none
serial_char e (some (h, c)) wait =
    let e' : Env = record e { ports = h } in char_result e' (from_serial c) (wait e')

-- A round of the loop of SYSCALL_GETCHAR: a character of the keyboard, else of the serial line, else `wait`.
unfoldable pub getchar_round :
    ℕ → Device → Env → (Env → Option (Env × Result)) → Option (Env × Result)
getchar_round fuel device e wait =
    let (keyboard, c) = Keyboard.getchar e.keyboard in
    let e1 = record e { keyboard = keyboard } in
    let e2 = record e1 { ports = Serial.read_line device Serial.com1 e1.ports } in
    if not (c == 0)
    then some (e1, value c)
    else if Serial.received device Serial.com1 e1.ports
    then serial_char e2 (Serial.getchar device Serial.com1 fuel e2.ports) wait
    else wait e2

-- The loop: each `hlt` ends with the next interrupt. One of the timer may switch to another process, and the loop
-- goes on when its own process runs again. It still waits when the interrupts that come are used up.
unfoldable pub getchar_loop : ℕ → Device → Option ℕ → List Irq → Env → Option (Env × Result)
getchar_loop fuel device caller [] e =
    if same_process e.procs.current caller then getchar_round fuel device e (λ e'. none) else none
getchar_loop fuel device caller (i ∷ irqs) e =
    let later : Env → Option (Env × Result) = λ e'.
      getchar_loop fuel device caller irqs
        (with_interrupts e' (interrupted device i (interrupts_of e'))) in
    if same_process e.procs.current caller then getchar_round fuel device e later else later e
