-- ===== src/Lib.antt =====
-- Verification of the kernel of MagnOS, a 32-bit x86 operating system in C (kernel/, with programs
-- in userspace/). The development translates the C functions of the kernel into functions on
-- explicit states and proves what they promise. A C function `f` of a module keeps its name, less
-- the module's prefix: `pmm_alloc` is `Pmm.alloc`, `process_create` is `Process.create`. Static
-- variables are the fields of a record that each operation takes and returns; a struct is a record,
-- an enum a data type, a pointer an address and NULL the address 0 (`none` where the C code returns
-- NULL for a process). Numbers are natural numbers, and a C integer keeps its wrap-around written
-- out (`% 2 ^ 32`, `% 256`).
--
-- The parts and how they interact. The page allocator (kernel/pmm.c) hands out pages of 4096
-- bytes; the heap (kernel/heap.c) takes its pages from it and hands out blocks; process creation
-- (kernel/process.c) takes a page for each stack. The keyboard interrupt fills a ring that readers
-- empty (kernel/keyboard.c), and the console (kernel/vga.c) keeps the text screen. Paging
-- (kernel/paging.c) takes the pages of its tables from the page allocator. The file system
-- (kernel/fat32.c) reads sectors from the disk and prints its listing on the console. The loader
-- (kernel/elf.c) copies a program to its place, maps its pages and keeps the contexts of callers.
-- The drivers of the disk, the serial port, the interrupt controllers and the keyboard controller
-- reach their devices by ports (kernel/io.h); a sector that the disk driver (kernel/ide.c) reads
-- is one of the disk of the file system. Interrupts (kernel/idt.c) feed the keyboard ring, count
-- the ticks and call the scheduler; the system calls (kernel/syscall.c) give programs the console,
-- the files, the keyboard, the time and the loader. The shells of the kernel (kernel/kernel.c) and
-- of userspace (userspace/shell.c) edit a line and run the program that it names.
--
-- Base, Base/: names of the libraries passed on, Boolean tests, lists measured by native numbers,
--   single bits of a byte, searches over ranges of numbers and loops with an invariant.
-- Memory: the memory in which the kernel keeps tables and headers, as words by address.
-- Pmm: kernel/pmm.c. The bitmap is a list of 512 bytes. Pmm/Pages has the laws of single pages,
--   Pmm/Alloc those of `alloc` and `free`, Pmm/Count the number of free pages, Pmm/Init the pages
--   that are free after `init`.
-- Heap: kernel/heap.c. The block headers live in the memory at their addresses, as in C; Heap/Chain
--   relates the memory to a list of blocks. Heap/Insert, Heap/Coalesce, Heap/Split and Heap/Search
--   are about the single loops, Heap/Free about `kfree`, Heap/Malloc and Heap/Fit about `kmalloc`,
--   Heap/Recycle about one after the other, Heap/Stats about `heap_get_stats`.
-- Ports: kernel/io.h. A device answers each read from the history of reads and writes.
-- Ide: kernel/ide.c and kernel/ide.h. Ide/Drive says what the ATA standard promises of a disk,
--   Ide/Transfer is about the words of a sector, Ide/Sectors about `ide_read_sectors`, Ide/Reads
--   about reads in a row and the disk of the file system.
-- Serial: kernel/serial.c and kernel/serial.h. Serial/Lines is about what goes over the line.
-- Idt: kernel/idt.c and kernel/idt.h. Idt/Gates is about the table of interrupts, Idt/Chips about
--   the controllers and the timer chip, Idt/Dispatch about the ends of interrupt, Idt/Waits and
--   Idt/Timer about `sleep_ms`, Idt/Slices about the timer and the scheduler together.
-- Process: kernel/process.c, kernel/process.h and kernel/switch.asm. Process/Schedule,
--   Process/Fairness, Process/Create and Process/Init are about the scheduler, its fairness,
--   `process_create` and `process_init`.
-- Keyboard: kernel/keyboard.c and kernel/keyboard.h. Keyboard/Tables has the two tables of
--   characters, Keyboard/Letters is about the translation of scancodes, Keyboard/Ring about the
--   ring, Keyboard/Events about any sequence of interrupts and reads. Keyboard/Controller has the
--   commands of `keyboard_init`, Keyboard/Chip the controller that they are for, and
--   Keyboard/Handshake what it makes of them.
-- Vga: kernel/vga.c and kernel/vga.h. Vga/Scroll, Vga/Putchar, Vga/Erase and Vga/Hex are about
--   scrolling, single characters, the echo of a backspace, and hexadecimal numbers.
-- Args: kernel/args.c and kernel/args.h. Args/Words is about lines made of words, Args/Bounds about
--   every line.
-- Gdt: kernel/gdt.c and kernel/gdt.h. Gdt/Gates is about what the processor reads from the
--   descriptors.
-- Disk: the disk as kernel/fat32.c reads it, single sectors that are there or cannot be read.
-- Fat32: kernel/fat32.c and kernel/fat32.h, the boot sector, chains of clusters, and reading.
--   Fat32/Chains says what a chain stores, Fat32/Read and Fat32/Ends are about `fat32_read` on a
--   sound disk and on any disk. Fat32/Name has the names of entries, Fat32/Name/RoundTrip is about
--   them. Fat32/Dir has the root directory; Fat32/Dir/Scan relates the walk along it to its list of
--   entries, Fat32/Dir/Listing, Fat32/Dir/Open and Fat32/Dir/Root are about `fat32_list_dir`,
--   `fat32_open` and `fat32_list_root`.
-- Paging: kernel/paging.c and kernel/paging.h. The directory and the tables live in the memory at
--   their addresses. Paging/Tables says when they are well formed, Paging/Entries is about entries,
--   Paging/Map about tables that are there and `paging_unmap`, Paging/NewTable about new tables,
--   Paging/MapPage about `paging_map`, Paging/Identity and Paging/Init about `paging_init`.
-- Elf: kernel/elf.c and kernel/elf.h, over the bytes of the memory. Elf/Copy is about `memcpy` and
--   `memset`, Elf/Segment about one segment, Elf/Load about the loop over the headers, Elf/User
--   about the pages mapped for a program, Elf/Exec about programs that run programs.
-- Syscall: kernel/syscall.c. Syscall itself has the calls for files, the directory, arguments and
--   numbers, and SYSCALL_EXEC up to the loader; Syscall/Files is about the calls for files in a row.
--   Syscall/Program has SYSCALL_EXEC and SYSCALL_EXIT around the loader, Syscall/Restore is about the
--   memory of a caller, Syscall/Closed about files behind SYSCALL_EXEC; Syscall/Handler has the other
--   calls, Syscall/Dispatch the switch by number.
-- Shell: kernel/kernel.c, `execute_command` and the shell of the kernel. Shell/Command is about the
--   two ways to run a command, Shell/Line about the line that is typed.
-- User: userspace/free.c, userspace/ls.c, userspace/uptime.c, as what they print. User/Decimal is
--   about `uint_to_str`, User/Outputs about all that the programs print. User/Shell has
--   userspace/shell.c, whose state is gone when `main` has returned behind `exit`; User/Line,
--   User/Strings and User/Commands are about its line, its strings and its commands. User/Cat has
--   userspace/cat.c over the calls for files, and User/Whole is about what it prints of a text file.
-- The files called Tests, and Syscall/Runs, hold witnesses and runs on concrete states; the files
-- called Sample have states for them.
--
-- Bounds and fuel. Loops over the fixed tables (512 bytes of the bitmap, 16 process slots, 2000
-- cells of the screen) recurse on the number of rounds. A walk along the free list of the heap
-- takes fuel, and its result is `none` if that runs out; each theorem on it states that fuel
-- beyond the number of blocks is enough and that the walk then ends. The loop of
-- `parse_command_line` takes fuel as well, and 17 rounds are enough for every line. The walks
-- along a chain of clusters take fuel: a round for each cluster of the directory and one more, or
-- for each byte of a request and one more, is enough. The loop over the program headers of a file
-- takes 2 ^ 16 rounds at most, since their number has 16 bits. The blocks of the heap lie below
-- the 16 MB that the page allocator manages, so no sum of an address and a size wraps. The disk
-- driver and `keyboard_init` wait as many rounds as in C. The loops that wait for the serial chip,
-- and the read of a string from the memory, take fuel; a chip that gets ready within it is a
-- hypothesis. A wait for interrupts (`sleep_ms`, SYSCALL_GETCHAR) goes along a list of the interrupts
-- that come, each handled by `isr_handler`; its loop goes on only while the process that waits is
-- the current one, and `none` means that it still waits. What other processes do in between, other
-- than to be switched to and from, is left out. Sizes that `kmalloc` is asked for may wrap, as in C.
--
-- Outside the model. The address of the end of the kernel image, which the linker script
-- (kernel/linker.ld) provides, is an argument of `Pmm.init`. The context switch is modelled by the
-- stack pointer that it saves and loads and by the words that it pops; the values of registers
-- between are not. Memory is that of the identity mapping; words of a stack, of the tables and of
-- the headers are aligned and do not overlap partially. The two cursor ports of the screen are a
-- field of its state. Devices are parameters; what the theorems need of one, such as the ATA
-- standard for reads by PIO, is a hypothesis of them, and a concrete device that keeps it stands
-- with the witnesses. Delay loops, `lidt`, `sti`, `cli` and the entry points in kernel/isr.asm are
-- left out, and what an interrupt changes during a system call is modelled for waiting calls only.
-- Of the keyboard controller the model in Keyboard/Chip has the two buffers, the commands that
-- `keyboard_init` sends and the configuration; no key is pressed while it is set up.
-- The words of an answer that a call does not write, such as the padding of an entry of a
-- directory, stay as they are. The disk is a parameter: a read gives the same result each time and
-- does not depend on the reads before it. A file system with no sectors in a cluster, for which
-- the C code divides by zero, is outside the theorems. Loading CR3, setting the bit of CR0 that
-- turns paging on, and `invlpg` are left out. In kernel/elf.c the file and the segments are bytes
-- of one memory, apart from the words of page tables and headers; the stack pointer has one value
-- throughout `elf_load_and_exec`, the other registers of a saved context (kernel/setjmp.asm) are
-- left out, and `iret` is a result. The argument `size`, which the C code does not use, is left
-- out too. A program that ends is one that SYSCALL_EXEC started if another one is below it, else
-- one of the kernel. The two static buffers for programs have one address each time. Not modelled
-- are the start-up sequence of `kernel_main`, whose functions are modelled one by one, the code
-- under its feature flags, which are 0, the loading of segment registers, the assembly files of
-- the start, and the programs of userspace/ that only issue calls (count, hello, print, pftest,
-- ring3 and the tests).
pub mod Args
pub mod Base
pub mod Disk
pub mod Elf
pub mod Fat32
pub mod Gdt
pub mod Heap
pub mod Ide
pub mod Idt
pub mod Keyboard
pub mod Memory
pub mod Paging
pub mod Pmm
pub mod Ports
pub mod Process
pub mod Serial
pub mod Shell
pub mod Syscall
pub mod User
pub mod Vga
