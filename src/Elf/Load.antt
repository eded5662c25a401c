-- ===== src/Elf/Load.antt =====
-- The loop of `elf_load_and_exec` in kernel/elf.c over the program headers, against the segments laid one over the other.
use magnos.Base.{
  ℕ, zero, suc, ◌+◌, ◌-◌, ◌*◌, ◌^◌, ◌≤◌, ◌<◌, ◌≡◌, refl, ◌∙◌, ap, true, false, Bool-cases, inl, inr,
  arith, ◌==◌, ltb, if◌then◌else◌, List, [], ◌∷◌,
}
use magnos.Disk.{word32}
use magnos.Elf.{
  Bytes, at, memcpy, memset, e_phoff, e_phnum, p_type, p_offset, p_vaddr, p_filesz, p_memsz,
  phdr_size, pt_load, copy_segment, clear_rest, load_segment, load_segments, load,
}
use magnos.Elf.Segment.{
  Segment, segment_of, within, placed, IsSound, Agrees, Agrees-word32, copy_lem, clear_lem,
  both_lem, placed-file,
}

copy_fields :
    (m' : Bytes) (elf ph f v o : ℕ)
    → p_filesz m' ph ≡ f
    → p_vaddr m' ph ≡ v
    → p_offset m' ph ≡ o
    → copy_segment m' elf ph ≡ (if ltb 0 f then memcpy f m' v (at elf o) else m')
unfolding copy_segment
copy_fields m' elf ph f v o ef ev eo = rw ef (rw ev (rw eo refl))

clear_fields :
    (m' : Bytes) (dest ph f n : ℕ)
    → p_filesz m' ph ≡ f
    → p_memsz m' ph ≡ n
    → clear_rest m' dest ph ≡ (if ltb f n then memset (n - f) m' (at dest f) else m')
unfolding clear_rest
clear_fields m' dest ph f n ef en = rw ef (rw en refl)

-- The header number `i`.
abbrev pub header : Bytes → ℕ → ℕ → ℕ
header m elf i = elf + e_phoff m elf + phdr_size * i

-- The segments to load, from header number `i` on.
unfoldable pub segments : Bytes → ℕ → ℕ → ℕ → List Segment
segments m elf zero i = []
segments m elf (suc n) i =
    let rest = segments m elf n (i + 1) in
    if p_type m (header m elf i) == pt_load then segment_of m (header m elf i) ∷ rest else rest

-- The byte at `a` when the segments are laid one over the other on a byte `v`.
unfoldable pub laid : Bytes → ℕ → List Segment → ℕ → ℕ → ℕ
laid m elf [] a v = v
laid m elf (g ∷ gs) a v = laid m elf gs a (placed m elf g a v)

-- An executable file of `size` bytes at `elf`: the headers lie in it, and the segments to load are sound.
pub record IsExecutable (m : Bytes) (elf size : ℕ) : Type 0 where
  pub bound : elf + size < 2 ^ 32
  pub header_in : 52 ≤ size
  pub table_in : e_phoff m elf + phdr_size * e_phnum m elf ≤ size
  pub sound :
      (i : ℕ)
      → i < e_phnum m elf
      → p_type m (header m elf i) ≡ pt_load
      → IsSound elf size (segment_of m (header m elf i))

module _ (m : Bytes) (elf size : ℕ) (x : IsExecutable m elf size) where
  -- A segment to load is laid over the memory.
  load_segment-placed :
      (m' : Bytes) (ph a : ℕ)
      → Agrees m elf size m'
      → elf ≤ ph
      → ph + phdr_size ≤ elf + size
      → p_type m ph ≡ pt_load
      → IsSound elf size (segment_of m ph)
      → load_segment m' elf ph a ≡ placed m elf (segment_of m ph) a (m' a)
  unfolding load_segment
  load_segment-placed m' ph a agrees le lt kind sound =
      let field : (n : Bytes)
          → Agrees m elf size n
          → (k : ℕ) → k + 4 ≤ phdr_size
          → word32 n (ph + k) ≡ word32 m (ph + k) =
        λ n h k hk. Agrees-word32 m elf size n (ph + k) h (omega arith) (omega arith) in
      let type : p_type m' ph ≡ pt_load =
        Agrees-word32 m elf size m' ph agrees le (omega arith) ∙ kind in
      let g : Segment = segment_of m ph in
      let m1 = copy_segment m' elf ph in
      let copied : (b : ℕ)
          → m1 b
            ≡ (if within b g.vaddr g.filesz then m (elf + g.offset + (b - g.vaddr)) else m' b) =
        λ b.
          ap (λ t. t b)
            (copy_fields m' elf ph g.filesz g.vaddr g.offset (field m' agrees 16 (omega arith))
              (field m' agrees 8 (omega arith)) (field m' agrees 4 (omega arith)))
          ∙ copy_lem m elf size x.bound g m' b sound agrees in
      let agrees1 : Agrees m elf size m1 = λ b lo hi.
        let beside = sound.apart in
        let out : within b g.vaddr g.filesz ≡ false = ground arith in
        copied b
        ∙ ap (λ t. if t then m (elf + g.offset + (b - g.vaddr)) else m' b) out
        ∙ agrees b lo hi in
      let dest : p_vaddr m' ph ≡ g.vaddr = field m' agrees 8 (omega arith) in
      rw type (
        rw dest (
          ap (λ t. t a)
            (clear_fields m1 g.vaddr ph g.filesz g.memsz (field m1 agrees1 16 (omega arith))
              (field m1 agrees1 20 (omega arith)))
          ∙ clear_lem m elf size x.bound g m1 a sound
          ∙ both_lem m elf size x.bound g m1 a (m' a) sound (copied a)))

  load_segment-other :
      (m' : Bytes) (ph : ℕ)
      → Agrees m elf size m'
      → elf ≤ ph
      → ph + phdr_size ≤ elf + size
      → (p_type m ph == pt_load) ≡ false
      → load_segment m' elf ph ≡ m'
  unfolding load_segment
  load_segment-other m' ph agrees le lt other =
      let type : p_type m' ph ≡ p_type m ph =
        Agrees-word32 m elf size m' ph agrees le (omega arith) in
      rw type (rw other refl)

  -- The number of headers is the same in both memories.
  phnum-Agrees : (m' : Bytes) → Agrees m elf size m' → e_phnum m' elf ≡ e_phnum m elf
  phnum-Agrees m' agrees =
      let inside = x.header_in in
      rw (agrees (elf + 44) (omega arith) (omega arith))
        (rw (agrees (elf + 44 + 1) (omega arith) (omega arith)) refl)

  load_segments_end :
      (fuel : ℕ) (m' : Bytes) (ph i : ℕ)
      → Agrees m elf size m'
      → i ≡ e_phnum m elf
      → load_segments fuel m' elf ph i ≡ m'
  unfolding load_segments
  load_segments_end zero m' ph i agrees e = refl
  load_segments_end (suc fuel) m' ph i agrees e =
      let number = phnum-Agrees m' agrees in
      let done : ltb i (e_phnum m' elf) ≡ false = ground arith in rw done refl

  load_segments_step :
      (fuel : ℕ) (m' : Bytes) (ph i : ℕ)
      → Agrees m elf size m'
      → i < e_phnum m elf
      → load_segments (suc fuel) m' elf ph i
        ≡ load_segments fuel (load_segment m' elf (at ph (phdr_size * i))) elf ph (i + 1)
  unfolding load_segments
  load_segments_step fuel m' ph i agrees lt =
      let number = phnum-Agrees m' agrees in
      let more : ltb i (e_phnum m' elf) ≡ true = ground arith in rw more refl

  load_segments-laid :
      (fuel n i : ℕ) (m' : Bytes)
      → i + n ≡ e_phnum m elf
      → n ≤ fuel
      → Agrees m elf size m'
      → (a : ℕ)
      → load_segments fuel m' elf (at elf (e_phoff m elf)) i a
        ≡ laid m elf (segments m elf n i) a (m' a)
  unfolding laid segments
  load_segments-laid fuel zero i m' e h agrees a =
      ap (λ t. t a) (load_segments_end fuel m' (at elf (e_phoff m elf)) i agrees (omega arith))
  load_segments-laid zero (suc n) i m' e h agrees a = absurd (omega arith)
  load_segments-laid (suc fuel) (suc n) i m' e h agrees a =
      let table = x.table_in in
      let bound = x.bound in
      let first : at elf (e_phoff m elf) ≡ elf + e_phoff m elf = omega arith in
      let here : at (at elf (e_phoff m elf)) (phdr_size * i) ≡ header m elf i =
        rw first (omega arith) in
      let ph = header m elf i in
      ap (λ t. t a) (load_segments_step fuel m' (at elf (e_phoff m elf)) i agrees (omega arith))
      ∙ ap (λ t. load_segments fuel (load_segment m' elf t) elf (at elf (e_phoff m elf)) (i + 1) a)
          here
      ∙ elim (Bool-cases (p_type m ph == pt_load)) [
        | inl kind ↦
            let sound = x.sound i (omega arith) (ground arith) in
            let step : (b : ℕ)
                → load_segment m' elf ph b ≡ placed m elf (segment_of m ph) b (m' b) =
              λ b.
                load_segment-placed m' ph b agrees (omega arith) (omega arith) (ground arith)
                  sound in
            rw kind (
              load_segments-laid fuel n (i + 1) (load_segment m' elf ph) (omega arith) (omega arith)
                (λ b lo hi.
                  step b
                  ∙ placed-file m elf size x.bound (segment_of m ph) b (m' b) sound lo hi
                  ∙ agrees b lo hi)
                a
              ∙ ap (laid m elf (segments m elf n (i + 1)) a) (step a))
        | inr kind ↦ rw kind (
            ap (λ t. load_segments fuel t elf (at elf (e_phoff m elf)) (i + 1) a)
              (load_segment-other m' ph agrees (omega arith) (omega arith) kind)
            ∙ load_segments-laid fuel n (i + 1) m' (omega arith) (omega arith) agrees a)
      ]

  -- Loading an executable file, whose headers and segments lie in it and whose segments to load have their places in
  -- the memory beside it, with less than 2 ^ 16 headers: every byte of the memory is then what the segments to load,
  -- laid one over the other in the order of their headers, put there. This is the byte of the file, 0 behind the bytes
  -- from the file, and what was there before where no segment lies.
  pub load-laid :
      e_phnum m elf < 2 ^ 16
      → (a : ℕ) → load m elf a ≡ laid m elf (segments m elf (e_phnum m elf) 0) a (m a)
  unfolding load
  load-laid h a =
      load_segments-laid (2 ^ 16) (e_phnum m elf) 0 m (omega arith) (omega arith) (λ b lo hi. refl)
        a
