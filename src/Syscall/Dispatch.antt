-- ===== src/Syscall/Dispatch.antt =====
-- The switch of `syscall_handler` in kernel/syscall.c.
use magnos.Base.{ℕ, List, Option, some, ◌==◌, if◌then◌else◌, text}
use magnos.Disk.{Disk}
use magnos.Ports.{Device}
use magnos.Vga
use magnos.Heap.{get_stats}
use magnos.Idt.{Irq, sleep_ms, get_uptime_ms}
use magnos.Syscall.{minus, file_open, file_read, file_close, list_files, get_args, meminfo, getpid}
use magnos.Syscall.Program.{Result, value, exec, exit}
use magnos.Syscall.Handler.{
  Env, on_string, memory_of, with_vga, print, opened_result, read_result, listed, argument,
  interrupts_of, executed, stats_result, slept, getchar_loop,
}

-- What the calls use beside the state: the fuel, the disk, the devices, the address of the buffer for programs, the
-- stack pointer of the kernel, and the interrupts that come during a call. A key is read from its port by the
-- handler.
pub record Outside : Type 0 where
  pub fuel : ℕ
  pub disk : Disk
  pub device : Device
  pub buffer_at : ℕ
  pub esp : ℕ
  pub interrupts : List Irq

-- The calls by number.
unfoldable pub syscall_handler : Outside → Env → ℕ → ℕ → ℕ → ℕ → Option (Env × Result)
syscall_handler o e num arg1 arg2 arg3 =
    if num == 1
    then on_string o.fuel (memory_of e) arg1 (print o.fuel o.device e)
    else if num == 2
    then executed e (some (exit e.kernel arg1))
    else if num == 3
    then on_string o.fuel (memory_of e) arg1
        (λ name. opened_result e (file_open o.fuel o.disk e.kernel.sys name))
    else if num == 4
    then read_result e arg1 (file_read o.fuel o.disk e.kernel.sys arg1 arg2)
    else if num == 5
    then opened_result e (some (file_close e.kernel.sys))
    else if num == 6
    then listed e arg1 (list_files o.fuel o.disk e.kernel.sys arg1 arg2)
    else if num == 7
    then some (argument e arg2 (get_args e.kernel.sys arg1 arg2 arg3))
    else if num == 8
    then getchar_loop o.fuel o.device e.procs.current o.interrupts e
    else if num == 9
    then on_string o.fuel (memory_of e) arg1
        (λ cmd. executed e (exec o.fuel o.disk o.buffer_at o.esp e.kernel cmd))
    else if num == 10
    then some (with_vga e (Vga.clear e.kernel.machine.vga), value 0)
    else if num == 11
    then slept e (sleep_ms o.device arg1 o.interrupts (interrupts_of e))
    else if num == 12
    then some (e, value (get_uptime_ms e.pit_ticks))
    else if num == 13
    then some (e, value (meminfo e.bitmap arg1))
    else if num == 14
    then stats_result e arg1 (get_stats o.fuel e.heap)
    else if num == 15
    then some (e, value (getpid e.procs))
    else some
        (with_vga e (Vga.puts e.kernel.machine.vga (text "[Unknown syscall]\n")), value (minus 1))
