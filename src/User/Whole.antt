-- ===== src/User/Whole.antt =====
-- What userspace/cat.c prints of a text file.
use native.Mathlib.Nat.{mod-eq_of_lt}
use magnos.Base.{
  ℕ, zero, suc, ◌+◌, ◌-◌, ◌^◌, min, ◌≤◌, ◌<◌, ◌≡◌, ◌≢◌, refl, sym, ◌∙◌, ap, ap₂, subst, true, false,
  List, [], ◌∷◌, ◌++◌, Option, some, leb, ◌==◌, length, get_or, take, Bool-cases, inl, inr, Each,
  arith,
}
use magnos.Disk.{Disk}
use magnos.Fat32.Chains.{window, window-append, length-window, capacity}
use magnos.Fat32.Read.{At, read-Reads}
use magnos.Fat32.Dir.{DirEntry, file_of}
use magnos.Fat32.Dir.Open.{NonZero, open_file-find_file}
use magnos.Syscall.{Sys, uppercase, file_open, file_read, file_close, get_args}
use magnos.Syscall.Files.{HasFile, file_read_run, file_open-OpenedTo, uppercase-NonZero}
use magnos.User.Shell.{c_string}
use magnos.User.Cat.{print_before, cat_chunk, cat_loop, cat_opened, cat_named, cat_main}

-- The open file stands in its chain, which ends at `end_at`.
pub record Stands (disk : Disk) (content : ℕ → ℕ) (end_at : ℕ) (s : Sys) : Type 0 where
  pub base : ℕ
  pub offset : ℕ
  pub chain : List ℕ
  pub at : At disk s.fs content s.file base offset chain
  pub total : base + capacity s.fs chain ≡ end_at
  pub valid : s.file.valid ≡ true
  pub open_now : s.current_file ≡ true
  pub inside : s.file.position ≤ s.file.size
  pub initialized : s.fs.initialized ≡ true

-- No byte of the file is NUL.
abbrev pub IsText : (ℕ → ℕ) → ℕ → Type 0
IsText content size = (i : ℕ) → i < size → content i ≢ 0

c_string-window :
    (content : ℕ → ℕ) (start n : ℕ)
    → ((i : ℕ) → i < start + n → content i ≢ 0)
    → c_string (window content start n ++ (0 ∷ [])) ≡ window content start n
unfolding c_string
c_string-window content start zero h = refl
c_string-window content start (suc n) h =
    let nonzero = h start (omega arith) in
    let going : (content start == 0) ≡ false = ground arith in
    rw going (
      ap (λ l. content start ∷ l)
        (c_string-window content (start + 1) n (λ i lt. h i (omega arith))))

-- A read of the loop.
abbrev piece : Sys → ℕ
piece s = min 1023 (s.file.size - s.file.position)

abbrev Piece : Disk → (ℕ → ℕ) → ℕ → Sys → Option (Sys × ℕ × List ℕ) → Type 0
Piece disk content end_at s r =
    (s' : Sys) × (r ≡ some (s', piece s, window content s.file.position (piece s)))
    × (s'.file.position ≡ s.file.position + piece s)
    × (s'.file.size ≡ s.file.size)
    × Stands disk content end_at s'

file_read-Piece :
    (fuel : ℕ) (disk : Disk) (content : ℕ → ℕ) (end_at buffer : ℕ) (s : Sys)
    → 1023 < fuel
    → 0 < buffer
    → Stands disk content end_at s
    → s.file.size ≤ end_at
    → end_at < 2 ^ 31
    → Piece disk content end_at s (file_read fuel disk s buffer 1023)
file_read-Piece fuel disk content end_at buffer s enough to h holds small =
    let inside = h.inside in
    let (f', run, position, size, valid, b, o, ds, at, total) =
      read-Reads fuel disk s.fs content s.file 1023 h.base h.offset h.chain enough h.valid
        h.initialized h.at inside (omega (arith, h.total)) (omega (arith, h.total)) (omega arith) in
    let count = length-window content s.file.position (piece s) in
    (
      record s { file = f' },
      file_read_run fuel disk s f' buffer 1023 (window content s.file.position (piece s)) to
            h.open_now (omega (arith, count)) run
          ∙ ap (λ n. some (record s { file = f' }, n, window content s.file.position (piece s)))
              count,
      position,
      size,
      record {
        base = b;
        offset = o;
        chain = ds;
        at = at;
        total = total ∙ h.total;
        valid = valid;
        open_now = h.open_now;
        inside = omega (arith, position, size);
        initialized = h.initialized;
      },
    )

cat_loop-rest :
    (rounds fuel : ℕ) (disk : Disk) (content : ℕ → ℕ) (end_at buffer : ℕ) (s : Sys)
    → s.file.size - s.file.position < rounds
    → 1023 < fuel
    → 0 < buffer
    → Stands disk content end_at s
    → s.file.size ≤ end_at
    → end_at < 2 ^ 31
    → IsText content s.file.size
    → (s' : Sys) × (cat_loop rounds fuel disk buffer s
        ≡ some (s', window content s.file.position (s.file.size - s.file.position), 0))
unfolding cat_loop cat_chunk
cat_loop-rest zero fuel disk content end_at buffer s h enough to stands holds small all_text =
    absurd (omega arith)
cat_loop-rest (suc rounds) fuel disk content end_at buffer s h enough to stands holds small
      all_text =
    let (s1, run, position, size, stands1) =
      file_read-Piece fuel disk content end_at buffer s enough to stands holds small in
    let more = cat_loop rounds fuel disk buffer in
    let fine : leb (2 ^ 31) (piece s) ≡ false = ground arith in
    elim (Bool-cases (piece s == 0)) [
      | inl done ↦
          let nothing : s.file.size - s.file.position ≡ 0 = ground arith in
          ((file_close s1).0, ap (cat_chunk more) run ∙ rw fine (rw done (rw nothing refl)))
      | inr some_left ↦
          let (s2, rest) =
            cat_loop-rest rounds fuel disk content end_at buffer s1 (ground arith) enough to stands1
              (omega arith) small (λ i lt. all_text i (omega arith)) in
          let left : ℕ = s.file.size - s.file.position in
          let inside = stands.inside in
          let printed =
            c_string-window content s.file.position (piece s) (λ i lt. all_text i (omega arith)) in
          (
            s2,
            ap (cat_chunk more) run
                ∙ rw fine (rw some_left (ap₂ print_before printed rest))
                ∙ ap (λ t. some (s2, t, 0))
                    (ap₂ (λ p n. window content s.file.position (piece s) ++ window content p n)
                        position (ap₂ (λ a b. a - b) size position)
                      ∙ sym (
                          window-append content s.file.position (piece s)
                            (s.file.size - (s.file.position + piece s)))
                      ∙ ap (window content s.file.position) (omega arith)),
          )
    ]

take_short : (n : ℕ) (xs : List ℕ) → length xs ≤ n → take n xs ≡ xs
take_short zero [] h = refl
take_short zero (x ∷ xs) h = absurd (omega arith)
take_short (suc n) [] h = refl
take_short (suc n) (x ∷ xs) h = ap (λ l. x ∷ l) (take_short n xs (omega arith))

-- The call of `cat` with the name of a file.
pub record Called (disk : Disk) (s : Sys) (content : ℕ → ℕ) (filename ds cs : List ℕ) (e : DirEntry)
    : Type 0 where
  pub some_arg : 0 < s.current_program_args.count
  pub first : get_or s.current_program_args.args 0 [] ≡ filename
  pub short : length filename < 64
  pub name_text : Each NonZero filename
  pub initialized : s.fs.initialized ≡ true
  pub sectors : 0 < s.fs.bpb.sectors_per_cluster
  pub has : HasFile disk s.fs content filename ds e cs
  pub small : capacity s.fs cs < 2 ^ 31
  pub all_text : IsText content e.file_size

name_lem :
    (disk : Disk) (s : Sys) (content : ℕ → ℕ) (filename ds cs : List ℕ) (e : DirEntry)
    (name_buffer : ℕ)
    → Called disk s content filename ds cs e
    → 0 < name_buffer
    → get_args s 0 name_buffer 64 ≡ (0, some filename)
unfolding get_args
name_lem disk s content filename ds cs e name_buffer call to =
    let given : (name_buffer == 0) ≡ false = ground arith in
    let some_arg = call.some_arg in
    let there : leb s.current_program_args.count 0 ≡ false = ground arith in
    rw given (
      rw there (
        ap (λ l. (0, some l))
          (ap (take 63) call.first ∙ take_short 63 filename (omega (arith, call.short)))))

opened-Stands :
    (fuel : ℕ) (disk : Disk) (s : Sys) (content : ℕ → ℕ) (filename ds cs : List ℕ) (e : DirEntry)
    → Called disk s content filename ds cs e
    → length ds < fuel
    → (s' : Sys) × (file_open fuel disk s (some filename) ≡ some (s', 0))
      × (s'.file ≡ file_of e)
      × Stands disk content (capacity s.fs cs) s'
unfolding file_of
opened-Stands fuel disk s content filename ds cs e call h =
    let has = call.has in
    let found =
      open_file-find_file fuel disk s.fs (uppercase 255 filename) ds has.entries h call.initialized
        (uppercase-NonZero 255 filename call.name_text) has.directory has.listed
      ∙ ap some has.finds in
    let (s', opened, fs, file, now) = file_open-OpenedTo fuel disk s filename (file_of e) found in
    let start : At disk s.fs content (file_of e) 0 0 cs = (
      refl,
      mod-eq_of_lt (omega (arith, call.sectors)),
      has.chain,
      has.bytes,
      omega (arith, call.sectors),
    ) in
    (
      s',
      opened,
      file,
      record {
        base = 0;
        offset = 0;
        chain = cs;
        at =
            subst (λ t. At disk t content s'.file 0 0 cs) (sym fs)
              (subst (λ f. At disk s.fs content f 0 0 cs) (sym file) start);
        total = ap (λ t. 0 + capacity t cs) fs ∙ omega arith;
        valid = ap (λ f. f.valid) file;
        open_now = now;
        inside = subst (λ f. f.position ≤ f.size) (sym file) (omega arith);
        initialized = ap (λ t. t.initialized) fs ∙ call.initialized;
      },
    )

-- `cat` with the name, in any case, of a file of the directory whose bytes are no NUL, where the clusters of the file take
-- less than 2 ^ 31 bytes: with a round for each byte and one more it ends with the result 0, and what it has printed is the
-- whole file and nothing else.
pub cat_main-whole :
    (rounds fuel : ℕ) (disk : Disk) (buffer name_buffer : ℕ) (s : Sys) (content : ℕ → ℕ)
    (filename ds cs : List ℕ) (e : DirEntry)
    → Called disk s content filename ds cs e
    → 0 < buffer
    → 0 < name_buffer
    → length ds < fuel
    → 1023 < fuel
    → e.file_size < rounds
    → (s' : Sys) × (cat_main rounds fuel disk buffer name_buffer s
        ≡ some (s', window content 0 e.file_size, 0))
unfolding cat_main cat_named cat_opened get_args file_of
cat_main-whole rounds fuel disk buffer name_buffer s content filename ds cs e call to to' h enough
      all =
    let (s1, opened, file, stands) = opened-Stands fuel disk s content filename ds cs e call h in
    let size : s1.file.size ≡ e.file_size = ap (λ f. f.size) file in
    let position : s1.file.position ≡ 0 = ap (λ f. f.position) file in
    let loop = cat_loop rounds fuel disk buffer in
    let (s2, run) =
      cat_loop-rest rounds fuel disk content (capacity s.fs cs) buffer s1 (omega arith) enough to
        stands (omega (arith, call.has.enough)) call.small
        (λ i lt. call.all_text i (omega arith)) in
    let some_arg = call.some_arg in
    let called : (s.current_program_args.count == 0) ≡ false = ground arith in
    (
      s2,
      rw called (
          ap (cat_named rounds fuel disk buffer s)
            (name_lem disk s content filename ds cs e name_buffer call to')
          ∙ ap (cat_opened loop filename) opened
          ∙ run
          ∙ ap₂ (λ p n. some (s2, window content p n, 0)) position (omega arith)),
    )
