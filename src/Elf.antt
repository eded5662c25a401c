-- ===== src/Elf.antt =====
-- kernel/elf.c and kernel/elf.h: the loader for programs. The file and the place that it is loaded to are bytes of one
-- memory, and pointers wrap at 2 ^ 32. The loops of `memcpy` and `memset` are recursion on the number of bytes. Of the
-- context that `exec_setjmp` saves the stack pointer is modelled. Entering ring 3 with `iret` is the result `entered`.
pub mod Copy
pub mod Segment
pub mod Load
pub mod User
pub mod Exec
pub mod Sample
mod Tests
use magnos.Base.{
  ℕ, zero, suc, ◌+◌, ◌-◌, ◌*◌, ◌/◌, ◌%◌, ◌^◌, Bool, true, false, not, ◌&&◌, ◌||◌, List, ltb, leb,
  ◌==◌, if◌then◌else◌, counted, get_or, set, text,
}
use magnos.Memory.{store}
use magnos.Disk.{word16, word32}
use magnos.Vga
use magnos.Vga.{Vga}
use magnos.Gdt
use magnos.Gdt.{Gdt}
use magnos.Pmm.{page_size}
use magnos.Paging.{Paging, map_page}

-- The memory by bytes.
abbrev pub Bytes : Type 0
Bytes = ℕ → ℕ

-- Pointers.
abbrev pub at : ℕ → ℕ → ℕ
at p i = (p + i) % 2 ^ 32

unfoldable pub memcpy : ℕ → Bytes → ℕ → ℕ → Bytes
memcpy zero m d s = m
memcpy (suc n) m d s = memcpy n (store m d (m s)) (at d 1) (at s 1)

-- `memset` of zeros.
unfoldable pub memset : ℕ → Bytes → ℕ → Bytes
memset zero m d = m
memset (suc n) m d = memset n (store m d 0) (at d 1)

-- The fields of `elf32_ehdr_t` that the loader reads, by the address of the header.
abbrev pub e_type : Bytes → ℕ → ℕ
e_type m h = word16 m (h + 16)

abbrev pub e_machine : Bytes → ℕ → ℕ
e_machine m h = word16 m (h + 18)

abbrev pub e_entry : Bytes → ℕ → ℕ
e_entry m h = word32 m (h + 24)

abbrev pub e_phoff : Bytes → ℕ → ℕ
e_phoff m h = word32 m (h + 28)

abbrev pub e_phnum : Bytes → ℕ → ℕ
e_phnum m h = word16 m (h + 44)

-- The fields of `elf32_phdr_t`, by the address of the program header.
abbrev pub p_type : Bytes → ℕ → ℕ
p_type m ph = word32 m ph

abbrev pub p_offset : Bytes → ℕ → ℕ
p_offset m ph = word32 m (ph + 4)

abbrev pub p_vaddr : Bytes → ℕ → ℕ
p_vaddr m ph = word32 m (ph + 8)

abbrev pub p_filesz : Bytes → ℕ → ℕ
p_filesz m ph = word32 m (ph + 16)

abbrev pub p_memsz : Bytes → ℕ → ℕ
p_memsz m ph = word32 m (ph + 20)

-- `sizeof(elf32_phdr_t)`
abbrev pub phdr_size : ℕ
phdr_size = 32

abbrev pub pt_load : ℕ
pt_load = 1

-- Whether `elf_validate_header` returns 0.
unfoldable pub validate_header : Bytes → ℕ → Bool
validate_header m h =
    if not (m h == 0x7F) || not (m (h + 1) == 69) || not (m (h + 2) == 76) || not (m (h + 3) == 70)
    then false
    else if not (m (h + 4) == 1)
    then false
    else if not (m (h + 5) == 1)
    then false
    else if not (e_machine m h == 3)
    then false
    else if not (e_type m h == 2) && not (e_type m h == 3)
    then false
    else true

-- The copy of a segment, and the zeros behind it. The header is read again behind the copy.
unfoldable pub copy_segment : Bytes → ℕ → ℕ → Bytes
copy_segment m elf ph =
    if ltb 0 (p_filesz m ph)
    then memcpy (p_filesz m ph) m (p_vaddr m ph) (at elf (p_offset m ph))
    else m

unfoldable pub clear_rest : Bytes → ℕ → ℕ → Bytes
clear_rest m dest ph =
    if ltb (p_filesz m ph) (p_memsz m ph)
    then memset (p_memsz m ph - p_filesz m ph) m (at dest (p_filesz m ph))
    else m

unfoldable pub load_segment : Bytes → ℕ → ℕ → Bytes
load_segment m elf ph =
    if p_type m ph == pt_load then clear_rest (copy_segment m elf ph) (p_vaddr m ph) ph else m

-- The loop over the program headers from number `i` on.
unfoldable pub load_segments : ℕ → Bytes → ℕ → ℕ → ℕ → Bytes
load_segments zero m elf ph i = m
load_segments (suc fuel) m elf ph i =
    let rest = load_segments fuel (load_segment m elf (at ph (phdr_size * i))) elf ph (i + 1) in
    if ltb i (e_phnum m elf) then rest else m

-- The loop of `elf_load_and_exec`; `e_phnum` has 16 bits.
unfoldable pub load : Bytes → ℕ → Bytes
load m elf = load_segments (2 ^ 16) m elf (at elf (e_phoff m elf)) 0

abbrev pub user_flags : ℕ
user_flags = 7

-- The pages from 0x200000 to 0x300000 and the page of the user stack.
unfoldable pub map_user : Paging → Paging
map_user p =
    map_page
      (counted (0x100000 / page_size) 0
        (λ i q. map_page q (0x200000 + i * page_size) (0x200000 + i * page_size) user_flags) p)
      0x300000 0x300000 user_flags

abbrev pub max_exec_depth : ℕ
max_exec_depth = 8

-- The state that running a program changes; `exec_stack` has the saved stack pointers.
pub record Machine : Type 0 where
  pub memory : Bytes
  pub vga : Vga
  pub paging : Paging
  pub gdt : Gdt
  pub exec_stack : List ℕ
  pub exec_depth : ℕ

-- `elf_load_and_exec` returns -1, or the processor goes on in ring 3 at an entry point with a stack.
pub data Outcome : Type 0 where
  failed : Outcome
  entered : ℕ → ℕ → Outcome

-- The save of the context and the way to ring 3; `esp` is the stack pointer of the kernel.
unfoldable pub enter : Machine → ℕ → ℕ → Machine × Outcome
enter s entry esp = (
  record s {
    paging = map_user s.paging;
    exec_stack = set s.exec_stack s.exec_depth esp;
    exec_depth = s.exec_depth + 1;
    gdt = Gdt.set_kernel_stack s.gdt esp;
  },
  entered entry 0x301000,
)

unfoldable pub print_address : Vga → ℕ → Vga
print_address v entry =
    Vga.puts (Vga.puthex (Vga.puts v (text "Executing binary at ")) entry) (text "\n")

unfoldable pub execute : Machine → ℕ → ℕ → Machine × Outcome
execute s elf esp =
    let entry = e_entry s.memory elf in
    let s' = record s { vga = print_address s.vga entry } in
    if leb max_exec_depth s.exec_depth
    then (record s' { vga = Vga.puts s'.vga (text "exec: max nesting depth reached\n") }, failed)
    else enter s' entry esp

unfoldable pub load_and_exec : Machine → ℕ → ℕ → Machine × Outcome
load_and_exec s elf esp =
    if not (validate_header s.memory elf)
    then (record s { vga = Vga.puts s.vga (text "Invalid ELF header\n") }, failed)
    else execute (record s { memory = load s.memory elf }) elf esp

-- `elf_return_to_kernel` and what follows the second return of `exec_setjmp`: the state, and the stack pointer with
-- which `elf_load_and_exec` returns 0 to its caller. Without a program it returns and nothing changes.
unfoldable pub return_to_kernel : Machine → Machine × Bool
return_to_kernel s =
    if ltb 0 s.exec_depth
    then (
      record s {
        exec_depth = s.exec_depth - 1;
        gdt = Gdt.set_kernel_stack s.gdt (get_or s.exec_stack (s.exec_depth - 1) 0);
      },
      true,
    )
    else (s, false)
