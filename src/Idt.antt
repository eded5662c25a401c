-- ===== src/Idt.antt =====
-- kernel/idt.c and kernel/idt.h: the table of interrupts, the interrupt controllers and the timer chip, and the
-- dispatch of interrupts. Devices are reached by the ports. The addresses of the entry points of kernel/isr.asm, the
-- stack pointer that `schedule` saves and the faulting address of CR2 are arguments; `lidt`, `sti` and `cli` are left
-- out.
pub mod Gates
pub mod Chips
pub mod Dispatch
pub mod Waits
pub mod Timer
pub mod Slices
mod Tests
use Prim.Native.Nat.{bit_and}
use magnos.Base.{
  ℕ, zero, suc, ◌+◌, ◌-◌, ◌*◌, ◌/◌, ◌%◌, ◌^◌, Bool, true, false, not, ◌&&◌, List, [], ◌∷◌, ◌++◌,
  Option, none, some, ltb, leb, ◌==◌, if◌then◌else◌, counted, get_or, set, replicate, bit_clear,
  text,
}
use magnos.Ports.{History, Device, outb, inb, byte_in, io_wait}
use magnos.Vga
use magnos.Vga.{Vga}
use magnos.Keyboard
use magnos.Keyboard.{Keyboard}
use magnos.Process.{Procs, schedule}

-- `struct idt_entry`
pub record IdtEntry : Type 0 where
  pub offset_low : ℕ
  pub selector : ℕ
  pub zeros : ℕ
  pub type_attr : ℕ
  pub offset_high : ℕ

abbrev pub idt_entries : ℕ
idt_entries = 256

abbrev pub gate_int32 : ℕ
gate_int32 = 0x8E

abbrev pub gate_int32_user : ℕ
gate_int32_user = 0xEE

-- The entry that `idt_set_gate` writes.
pub gate : ℕ → ℕ → ℕ → IdtEntry
gate handler selector type_attr = record {
  offset_low = handler % 2 ^ 16;
  offset_high = handler / 2 ^ 16 % 2 ^ 16;
  selector = selector;
  zeros = 0;
  type_attr = type_attr;
}

abbrev pub empty : IdtEntry
empty = record { offset_low = 0; selector = 0; zeros = 0; type_attr = 0; offset_high = 0 }

-- The table that `idt_init` fills, for the entry points of the interrupts.
pub gates : (ℕ → ℕ) → List IdtEntry
gates isrs =
    set
      (counted 48 0 (λ i idt. set idt i (gate (isrs i) 0x08 gate_int32))
        (replicate idt_entries empty))
      128 (gate (isrs 128) 0x08 gate_int32_user)

abbrev pub send : ℕ → ℕ → History → History
send port val h = io_wait (outb port val h)

pub pic_remap : Device → History → History
pic_remap device h =
    let mask1 = byte_in device h 0x21 in
    let h1 = inb device 0x21 h in
    let mask2 = byte_in device h1 0xA1 in
    let h2 = send 0xA0 0x11 (send 0x20 0x11 (inb device 0xA1 h1)) in
    let h3 = send 0xA1 0x28 (send 0x21 0x20 h2) in
    let h4 = send 0xA1 0x02 (send 0x21 0x04 h3) in
    let h5 = send 0xA1 0x01 (send 0x21 0x01 h4) in outb 0xA1 mask2 (outb 0x21 mask1 h5)

abbrev pub divisor : ℕ
divisor = 11932

pub pit_init : History → History
pit_init h = outb 0x40 (divisor / 2 ^ 8) (outb 0x40 (divisor % 2 ^ 8) (outb 0x43 0x36 h))

-- The ports in `idt_init`, behind the table.
pub init_ports : Device → History → History
init_ports device h = outb 0xA1 0xFF (outb 0x21 0xFC (pit_init (pic_remap device h)))

-- The names of the exceptions; those from number 22 on are reserved.
pub exception_names : List (List ℕ)
exception_names =
    text "Division by Zero"
    ∷ text "Debug"
    ∷ text "Non-Maskable Interrupt"
    ∷ text "Breakpoint"
    ∷ text "Overflow"
    ∷ text "Bound Range Exceeded"
    ∷ text "Invalid Opcode"
    ∷ text "Device Not Available"
    ∷ text "Double Fault"
    ∷ text "Coprocessor Segment Overrun"
    ∷ text "Invalid TSS"
    ∷ text "Segment Not Present"
    ∷ text "Stack-Segment Fault"
    ∷ text "General Protection Fault"
    ∷ text "Page Fault"
    ∷ text "Reserved"
    ∷ text "x87 FPU Error"
    ∷ text "Alignment Check"
    ∷ text "Machine Check"
    ∷ text "SIMD FPU Exception"
    ∷ text "Virtualization Exception"
    ∷ text "Control Protection"
    ∷ replicate 10 (text "Reserved")

-- The fields of `struct isr_regs` that are read.
pub record IsrRegs : Type 0 where
  pub int_no : ℕ
  pub err_code : ℕ
  pub eip : ℕ

pub record Interrupts : Type 0 where
  pub pit_ticks : ℕ
  pub vga : Vga
  pub keyboard : Keyboard
  pub procs : Procs
  pub ports : History

-- How the handler ends: it returns, halts the processor, returns behind `schedule` with the stack pointer that is
-- loaded, or returns what the handler of system calls returns.
pub data Outcome : Type 0 where
  returned : Outcome
  halted : Outcome
  scheduled : Option ℕ → Outcome
  system_call : Outcome

abbrev pub light_red : ℕ
light_red = 12

abbrev pub white : ℕ
white = 15

pub print_halted : Vga → Vga
print_halted v = Vga.puts (Vga.set_color v light_red 0) (text "System halted.\n")

pub print_page_fault : Vga → IsrRegs → ℕ → Vga
print_page_fault v regs faulting_addr =
    let v1 = Vga.puts (Vga.set_color v light_red 0) (text "\n*** PAGE FAULT ***\n") in
    let v2 = Vga.puthex (Vga.puts (Vga.set_color v1 white 0) (text "Address: ")) faulting_addr in
    let v3 = Vga.puts (Vga.puthex (Vga.puts v2 (text "\nEIP: ")) regs.eip) (text "\n  ") in
    let v4 =
      Vga.puts v3
        (if bit_clear regs.err_code 0 then text "Non-present page" else text "Page-protection") in
    let v5 =
      Vga.puts (Vga.puts v4 (text ", "))
        (if bit_clear regs.err_code 1 then text "Read" else text "Write") in
    let v6 =
      Vga.puts (Vga.puts v5 (text ", "))
        (if bit_clear regs.err_code 2 then text "Kernel-mode" else text "User-mode") in
    print_halted (Vga.puts v6 (text "\n"))

pub print_exception : Vga → IsrRegs → Vga
print_exception v regs =
    let v1 = Vga.puts (Vga.set_color v light_red 0) (text "\n*** EXCEPTION: ") in
    let v2 = Vga.puts (Vga.puts v1 (get_or exception_names regs.int_no [])) (text " ***\n") in
    let v3 = Vga.puthex (Vga.puts (Vga.set_color v2 white 0) (text "EIP: ")) regs.eip in
    let v4 = Vga.puthex (Vga.puts v3 (text "  Error code: ")) regs.err_code in
    print_halted (Vga.puts v4 (text "\n"))

-- The end of interrupt, to the second controller first.
pub eoi : ℕ → History → History
eoi int_no h =
    let h1 = if leb 40 int_no then outb 0xA0 0x20 h else h in
    if leb 32 int_no then outb 0x20 0x20 h1 else h1

abbrev pub acknowledge : ℕ → Interrupts → Interrupts
acknowledge int_no s = record s { ports = eoi int_no s.ports }

pub timer_irq : ℕ → Interrupts → Interrupts × Outcome
timer_irq esp s =
    let ticks : ℕ = (s.pit_ticks + 1) % 2 ^ 32 in
    let (procs, loaded) = schedule esp s.procs in
    if ticks % 10 == 0
    then (
      record s { pit_ticks = ticks; ports = outb 0x20 0x20 s.ports; procs = procs },
      scheduled loaded,
    )
    else (acknowledge 32 (record s { pit_ticks = ticks }), returned)

-- `keyboard_irq_handler` reads the scancode from its port.
pub keyboard_irq : Device → Interrupts → Interrupts
keyboard_irq device s = record s {
  keyboard = Keyboard.irq_handler s.keyboard (byte_in device s.ports 0x60);
  ports = inb device 0x60 s.ports;
}

pub isr_handler : Device → ℕ → ℕ → IsrRegs → Interrupts → Interrupts × Outcome
isr_handler device cr2 esp regs s =
    if ltb regs.int_no 32
    then (if regs.int_no == 14
        then (record s { vga = print_page_fault s.vga regs cr2 }, halted)
        else (record s { vga = print_exception s.vga regs }, halted))
    else if regs.int_no == 128
    then (s, system_call)
    else if regs.int_no == 32
    then timer_irq esp s
    else if regs.int_no == 33
    then (acknowledge 33 (keyboard_irq device s), returned)
    else (acknowledge regs.int_no s, returned)

-- An interrupt of the hardware: the line of the controllers, and the stack pointer that a switch saves.
pub record Irq : Type 0 where
  pub line : ℕ
  pub esp : ℕ

-- The state behind it.
pub interrupted : Device → Irq → Interrupts → Interrupts
interrupted device i s =
    (isr_handler device 0 i.esp (record { int_no = 32 + i.line % 16; err_code = 0; eip = 0 }) s).0

-- Whether the process that waits is the one that runs.
abbrev pub same_process : Option ℕ → Option ℕ → Bool
same_process none none = true
same_process none (some b) = false
same_process (some a) none = false
same_process (some a) (some b) = a == b

-- `sleep_ms`: the number of ticks to wait for, and the tick to wait for.
pub ticks_to_wait : ℕ → ℕ
ticks_to_wait ms = if ms / 10 == 0 then 1 else ms / 10

pub wake_tick : ℕ → ℕ → ℕ
wake_tick pit_ticks ms = (pit_ticks + ticks_to_wait ms) % 2 ^ 32

-- Its loop: each `hlt` ends with the next interrupt. One of the timer may switch to another process, and the loop
-- goes on when its own process runs again. It is still asleep when the interrupts that come are used up (`none`), or
-- gives the state in which it returns and the interrupts that are still to come.
pub sleep_loop : Device → Option ℕ → ℕ → List Irq → Interrupts → Option (Interrupts × List Irq)
sleep_loop device caller target [] s =
    if same_process s.procs.current caller && not (ltb s.pit_ticks target)
    then some (s, [])
    else none
sleep_loop device caller target (i ∷ rest) s =
    let later = sleep_loop device caller target rest (interrupted device i s) in
    if same_process s.procs.current caller && not (ltb s.pit_ticks target)
    then some (s, i ∷ rest)
    else later

pub sleep_ms : Device → ℕ → List Irq → Interrupts → Option (Interrupts × List Irq)
sleep_ms device ms irqs s = sleep_loop device s.procs.current (wake_tick s.pit_ticks ms) irqs s

pub get_uptime_ms : ℕ → ℕ
get_uptime_ms pit_ticks = pit_ticks * 10 % 2 ^ 32
