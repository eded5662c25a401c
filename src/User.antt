-- ===== src/User.antt =====
-- The programs of userspace/: the numbers that userspace/free.c, userspace/ls.c and userspace/uptime.c print, each with
-- the same `uint_to_str`, and what the three print. The answers of the calls are arguments. An output is the list of the
-- texts that are printed; `none` stands for a write past a buffer, or a read of an entry that was never written.
pub mod Decimal
pub mod Outputs
pub mod Shell
pub mod Line
pub mod Strings
pub mod Commands
pub mod Cat
pub mod Whole
mod Tests
use magnos.Base.{
  ℕ, zero, suc, ◌+◌, ◌-◌, ◌*◌, ◌/◌, ◌%◌, ◌^◌, Bool, true, false, List, [], ◌∷◌, ◌++◌, Option, none,
  some, leb, ltb, ◌==◌, if◌then◌else◌, length, replicate, text,
}
use magnos.Fat32.Dir.{DirInfo}

abbrev pub cons_digit : ℕ → Option (List ℕ) → Option (List ℕ)
cons_digit d none = none
cons_digit d (some ds) = some (d ∷ ds)

-- The loop that fills `tmp` from the lowest digit on. The fuel is the room that is left there.
unfoldable pub digits : ℕ → ℕ → Option (List ℕ)
digits zero val = if val == 0 then some [] else none
digits (suc room) val =
    let rest = digits room (val / 10) in
    if val == 0 then some [] else cons_digit (48 + val % 10) rest

-- The loop that copies them back, before `copied`.
unfoldable pub reversed : List ℕ → List ℕ → List ℕ
reversed [] copied = copied
reversed (d ∷ ds) copied = reversed ds (d ∷ copied)

unfoldable pub copied_back : Option (List ℕ) → Option (List ℕ)
copied_back none = none
copied_back (some ds) = some (reversed ds [])

-- `tmp` has room for 12 digits.
unfoldable pub uint_to_str : ℕ → Option (List ℕ)
uint_to_str val = if val == 0 then some (48 ∷ []) else copied_back (digits 12 val)

abbrev pub Output : Type 0
Output = List (Option (List ℕ))

abbrev pub put : List ℕ → Option (List ℕ)
put t = some t

-- `unsigned int`
abbrev pub word : ℕ → ℕ
word n = n % 2 ^ 32

abbrev pub kb_line : List ℕ → ℕ → Output
kb_line label kb = put label ∷ uint_to_str kb ∷ put (text " KB\n") ∷ []

-- `main` of userspace/free.c
unfoldable pub free_main : (ℕ → ℕ) → (ℕ → ℕ) → Output
free_main meminfo heap_stats =
    let free_pages = meminfo 0 in
    let total_pages = meminfo 1 in
    let page_size = meminfo 2 in
    let used_pages = word (total_pages + (2 ^ 32 - free_pages)) in
    let heap_total = heap_stats 2 in
    kb_line (text "Memory:\n  Total: ") (word (total_pages * (page_size / 1024)))
    ++ kb_line (text "  Used:  ") (word (used_pages * (page_size / 1024)))
    ++ kb_line (text "  Free:  ") (word (free_pages * (page_size / 1024)))
    ++ (put (text "  Pages: ")
        ∷ uint_to_str free_pages
        ∷ put (text "/")
        ∷ uint_to_str total_pages
        ∷ put (text " free\n")
        ∷ [])
    ++ kb_line (text "\nHeap:\n  Total: ") (heap_total / 1024)
    ++ kb_line (text "  Used:  ") (heap_stats 1 / 1024)
    ++ kb_line (text "  Free:  ") (heap_stats 0 / 1024)
    ++ kb_line (text "\nTotal available: ")
        (word (word (free_pages + heap_total / page_size) * (page_size / 1024)))

-- `main` of userspace/uptime.c
unfoldable pub uptime_main : ℕ → Output
uptime_main ms =
    let seconds = ms / 1000 in
    let minutes = seconds / 60 in
    let hours = minutes / 60 in
    (put (text "Uptime: ") ∷ [])
    ++ (if ltb 0 hours then uint_to_str hours ∷ put (text "h ") ∷ [] else [])
    ++ (uint_to_str (minutes % 60)
        ∷ put (text "m ")
        ∷ uint_to_str (seconds % 60)
        ∷ put (text "s\n")
        ∷ [])

-- `print_padded` of userspace/ls.c
abbrev pub print_padded : List ℕ → ℕ → List ℕ
print_padded str width = str ++ replicate (width - length str) 32

abbrev pub entry_line : DirInfo → Output
entry_line e =
    put (print_padded e.name 16)
    ∷ put (if e.is_directory then text "<DIR>   " else text "<FILE>  ")
    ∷ uint_to_str e.size
    ∷ put (text " bytes\n")
    ∷ []

unfoldable pub entry_lines : ℕ → List DirInfo → Output
entry_lines zero entries = []
entry_lines (suc count) [] = none ∷ []
entry_lines (suc count) (e ∷ entries) = entry_line e ++ entry_lines count entries

abbrev pub rule : List ℕ
rule = text "--------------------------------------------------\n"

-- `main` of userspace/ls.c on the answer of `list_dir`, with the result of the program.
unfoldable pub ls_main : ℕ → List DirInfo → Output × ℕ
ls_main count entries =
    let heading =
      put (text "Directory listing:\n" ++ rule ++ text "Name            Type    Size\n" ++ rule) in
    if leb (2 ^ 31) count
    then (heading ∷ put (text "Error: Failed to read directory\n") ∷ [], 1)
    else if count == 0
    then (heading ∷ put (text "(empty directory)\n") ∷ [], 0)
    else (
      (heading ∷ [])
          ++ entry_lines count entries
          ++ (put (rule ++ text "Total entries: ") ∷ uint_to_str count ∷ put (text "\n") ∷ []),
      0,
    )
