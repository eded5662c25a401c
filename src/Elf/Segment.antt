-- ===== src/Elf/Segment.antt =====
-- A single segment in kernel/elf.c: what loading it does to each byte of the memory.
use magnos.Base.{
  ℕ, ◌+◌, ◌-◌, ◌^◌, ◌≤◌, ◌<◌, ◌≡◌, refl, ◌∙◌, ap, Bool, true, false, ◌&&◌, Bool-cases, inl, inr,
  ◌⊎◌, arith, ltb, leb, if◌then◌else◌,
}
use magnos.Disk.{word32}
use magnos.Elf.{Bytes, at, memcpy, memset, p_offset, p_vaddr, p_filesz, p_memsz}
use magnos.Elf.Copy.{memcpy-inside, memcpy-Outside, memset-inside, memset-Outside}

-- A segment as its program header says.
pub record Segment : Type 0 where
  pub vaddr : ℕ
  pub offset : ℕ
  pub filesz : ℕ
  pub memsz : ℕ

abbrev pub segment_of : Bytes → ℕ → Segment
segment_of m ph = record {
  vaddr = p_vaddr m ph;
  offset = p_offset m ph;
  filesz = p_filesz m ph;
  memsz = p_memsz m ph;
}

abbrev pub within : ℕ → ℕ → ℕ → Bool
within a start n = leb start a && ltb a (start + n)

-- The byte at `a` under a segment of the file at `elf`, where the byte below it is `v`: from the file, or 0, or `v`.
unfoldable pub placed : Bytes → ℕ → Segment → ℕ → ℕ → ℕ
placed m elf g a v =
    if within a g.vaddr g.filesz
    then m (elf + g.offset + (a - g.vaddr))
    else if within a g.vaddr g.memsz
    then 0
    else v

-- The segment lies in the file of `size` bytes, and its place lies in the memory and beside the file.
pub record IsSound (elf size : ℕ) (g : Segment) : Type 0 where
  pub in_file : g.offset + g.filesz ≤ size
  pub file_end : g.vaddr + g.filesz < 2 ^ 32
  pub memory_end : g.vaddr + g.memsz < 2 ^ 32
  pub apart : ((g.vaddr + g.filesz ≤ elf) × (g.vaddr + g.memsz ≤ elf)) ⊎ (elf + size ≤ g.vaddr)

-- The file is in both memories.
abbrev pub Agrees : Bytes → ℕ → ℕ → Bytes → Type 0
Agrees m elf size m' = (a : ℕ) → elf ≤ a → a < elf + size → m' a ≡ m a

word32-agree :
    (m m' : Bytes) (a : ℕ) → ((k : ℕ) → k < 4 → m' (a + k) ≡ m (a + k)) → word32 m' a ≡ word32 m a
word32-agree m m' a h =
    let first : m' a ≡ m a = ap m' (omega arith) ∙ h 0 (omega arith) ∙ ap m (omega arith) in
    rw first (rw (h 1 (omega arith)) (rw (h 2 (omega arith)) (rw (h 3 (omega arith)) refl)))

-- A word of the file is the same in both memories.
pub Agrees-word32 :
    (m : Bytes) (elf size : ℕ) (m' : Bytes) (a : ℕ)
    → Agrees m elf size m'
    → elf ≤ a
    → a + 4 ≤ elf + size
    → word32 m' a ≡ word32 m a
Agrees-word32 m elf size m' a h le lt =
    word32-agree m m' a (λ k hk. h (a + k) (omega arith) (omega arith))

module _ (m : Bytes) (elf size : ℕ) (bound : elf + size < 2 ^ 32) where
  pub copy_lem :
      (g : Segment) (m' : Bytes) (a : ℕ)
      → IsSound elf size g
      → Agrees m elf size m'
      → (if ltb 0 g.filesz then memcpy g.filesz m' g.vaddr (at elf g.offset) else m') a
        ≡ (if within a g.vaddr g.filesz then m (elf + g.offset + (a - g.vaddr)) else m' a)
  copy_lem g m' a sound agrees =
      let from : at elf g.offset ≡ elf + g.offset = omega (arith, sound.in_file) in
      let beside = sound.apart in
      rw from (elim (Bool-cases (ltb 0 g.filesz)) [
        | inl some_bytes ↦ rw some_bytes (elim (Bool-cases (within a g.vaddr g.filesz)) [
          | inl here ↦
              let le : g.vaddr ≤ a = ground arith in
              let lt : a - g.vaddr < g.filesz = ground arith in
              rw here (
                ap (memcpy g.filesz m' g.vaddr (elf + g.offset)) (omega arith)
                ∙ memcpy-inside g.filesz m' g.vaddr (elf + g.offset) (sound.file_end)
                    (omega (arith, sound.in_file)) (ground (arith, sound.in_file)) (a - g.vaddr) lt
                ∙ agrees (elf + g.offset + (a - g.vaddr)) (omega arith)
                    (omega (arith, sound.in_file)))
          | inr out ↦ rw out (
              memcpy-Outside g.filesz m' g.vaddr (elf + g.offset) (sound.file_end)
                (omega (arith, sound.in_file)) a (ground arith))
        ])
        | inr none ↦
            rw none (let out : within a g.vaddr g.filesz ≡ false = ground arith in rw out refl)
      ])

  pub clear_lem :
      (g : Segment) (m' : Bytes) (a : ℕ)
      → IsSound elf size g
      → (if ltb g.filesz g.memsz then memset (g.memsz - g.filesz) m' (at g.vaddr g.filesz) else m')
          a
        ≡ (if leb (g.vaddr + g.filesz) a && ltb a (g.vaddr + g.memsz) then 0 else m' a)
  clear_lem g m' a sound =
      let from : at g.vaddr g.filesz ≡ g.vaddr + g.filesz = omega (arith, sound.file_end) in
      rw from (elim (Bool-cases (ltb g.filesz g.memsz)) [
        | inl more ↦
            let less : g.filesz < g.memsz = ground arith in
            let fits : g.vaddr + g.filesz + (g.memsz - g.filesz) < 2 ^ 32 =
              omega (arith, sound.memory_end) in
            rw more (elim (Bool-cases (leb (g.vaddr + g.filesz) a && ltb a (g.vaddr + g.memsz))) [
              | inl here ↦ rw here (
                  memset-inside (g.memsz - g.filesz) m' (g.vaddr + g.filesz) fits a (ground arith)
                    (ground arith))
              | inr out ↦ rw out (
                  memset-Outside (g.memsz - g.filesz) m' (g.vaddr + g.filesz) fits a (ground arith))
            ])
        | inr none ↦
            let out : (leb (g.vaddr + g.filesz) a && ltb a (g.vaddr + g.memsz)) ≡ false =
              ground arith in
            rw none (rw out refl)
      ])

  -- Both together.
  pub both_lem :
      (g : Segment) (m1 : Bytes) (a v : ℕ)
      → IsSound elf size g
      → m1 a ≡ (if within a g.vaddr g.filesz then m (elf + g.offset + (a - g.vaddr)) else v)
      → (if leb (g.vaddr + g.filesz) a && ltb a (g.vaddr + g.memsz) then 0 else m1 a)
        ≡ placed m elf g a v
  unfolding placed
  both_lem g m1 a v sound e = rw e (elim (Bool-cases (within a g.vaddr g.filesz)) [
    | inl here ↦
        let out : (leb (g.vaddr + g.filesz) a && ltb a (g.vaddr + g.memsz)) ≡ false =
          ground arith in
        rw here (rw out refl)
    | inr beside ↦ rw beside (elim (Bool-cases (within a g.vaddr g.memsz)) [
      | inl here ↦
          let zeros : (leb (g.vaddr + g.filesz) a && ltb a (g.vaddr + g.memsz)) ≡ true =
            ground arith in
          rw here (rw zeros refl)
      | inr none ↦
          let out : (leb (g.vaddr + g.filesz) a && ltb a (g.vaddr + g.memsz)) ≡ false =
            ground arith in
          rw none (rw out refl)
    ])
  ])

  -- The file stays as it is under a segment beside it.
  pub placed-file :
      (g : Segment) (a v : ℕ)
      → IsSound elf size g
      → elf ≤ a
      → a < elf + size
      → placed m elf g a v ≡ v
  unfolding placed
  placed-file g a v sound le lt =
      let beside = sound.apart in
      let out : within a g.vaddr g.filesz ≡ false = ground arith in
      let out' : within a g.vaddr g.memsz ≡ false = ground arith in rw out (rw out' refl)
