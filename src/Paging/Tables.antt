-- ===== src/Paging/Tables.antt =====
-- The page tables of kernel/paging.c: when they are well formed, and what single stores do to them.
use Prim.Native.Nat.{bit_or}
use magnos.Base.{
  ℕ, ◌%◌, ◌^◌, ◌<◌, ◌≡◌, ◌≢◌, refl, sym, ◌∙◌, ap, ap₂, Bool, true, not, ◌==◌, if◌then◌else◌,
  Bool-cases, inl, inr, ◌⊎◌, arith,
}
use magnos.Memory.{store, store_self, store_ne}
use magnos.Paging.{Paging, slot, page_frame, pd_index, pt_index, is_present, get_phys}

-- The directory entry number `i`.
abbrev pub dir_entry : Paging → ℕ → ℕ
dir_entry p i = p.memory (slot p.directory i)

abbrev pub frame_of : Paging → ℕ → ℕ
frame_of p i = page_frame (dir_entry p i)

abbrev pub present_of : Paging → ℕ → Bool
present_of p i = is_present (dir_entry p i)

-- The page table entry for an address.
abbrev pub table_entry : Paging → ℕ → ℕ
table_entry p v = p.memory (slot (frame_of p (pd_index v)) (pt_index v))

-- The directory is a page, its entries are words, and the tables are pages of their own.
pub record IsValid (p : Paging) : Type 0 where
  pub aligned : p.directory % 2 ^ 12 ≡ 0
  pub words : (i : ℕ) → i < 1024 → dir_entry p i < 2 ^ 32
  pub apart : (i : ℕ) → i < 1024 → present_of p i ≡ true → frame_of p i ≢ p.directory
  pub distinct :
      (i j : ℕ)
      → i < 1024
      → j < 1024
      → present_of p i ≡ true
      → present_of p j ≡ true
      → i ≢ j
      → frame_of p i ≢ frame_of p j

-- Two states have the same directory, up to flags of its entries.
abbrev pub SameDirectory : Paging → Paging → Type 0
SameDirectory p p' =
    (p'.directory ≡ p.directory)
    × ((i : ℕ)
        → i < 1024
        → (frame_of p' i ≡ frame_of p i)
          × (present_of p' i ≡ present_of p i)
          × (dir_entry p' i < 2 ^ 32))

-- What `get_phys` makes of the two entries.
abbrev pub phys_of : Bool → ℕ → ℕ → ℕ
phys_of present entry v =
    if not present
    then 0
    else if not (is_present entry)
    then 0
    else bit_or (page_frame entry) (v % 2 ^ 12)

pub get_phys_lem :
    (p : Paging) (v : ℕ) → get_phys p v ≡ phys_of (present_of p (pd_index v)) (table_entry p v) v
unfolding get_phys
get_phys_lem p v = refl

pub SameDirectory-IsValid : (p p' : Paging) → IsValid p → SameDirectory p p' → IsValid p'
SameDirectory-IsValid p p' v (dir, same) = record {
  aligned = rw dir v.aligned;
  words = λ i h. (same i h).2;
  apart = λ i h e. rw (same i h).0 (rw dir (v.apart i h (sym (same i h).1 ∙ e)));
  distinct = λ i j hi hj ei ej ne. rw (same i hi).0 (
      rw (same j hj).0 (v.distinct i j hi hj (sym (same i hi).1 ∙ ei) (sym (same j hj).1 ∙ ej) ne));
}

pub SameDirectory-trans :
    (p q r : Paging) → SameDirectory p q → SameDirectory q r → SameDirectory p r
SameDirectory-trans p q r (dir, same) (dir', same') =
    (dir' ∙ dir, λ i h. ((same' i h).0 ∙ (same i h).0, (same' i h).1 ∙ (same i h).1, (same' i h).2))

-- An entry of a table is no entry of the directory.
pub table_dir_ne :
    (p : Paging) (i k j : ℕ)
    → IsValid p
    → i < 1024
    → k < 1024
    → j < 1024
    → present_of p i ≡ true
    → slot (frame_of p i) k ≢ slot p.directory j
table_dir_ne p i k j v hi hk hj e =
    let apart = v.apart i hi e in let aligned = v.aligned in omega arith

-- A store into the table of the directory entry `i`.
abbrev pub store_table : Paging → ℕ → ℕ → ℕ → Paging
store_table p i k w = record p { memory = store p.memory (slot (frame_of p i) k) w }

module _ (p : Paging) (i k w : ℕ) (v : IsValid p) (hi : i < 1024) (hk : k < 1024)
    (e : present_of p i ≡ true) where
  store_table_dir : (j : ℕ) → j < 1024 → dir_entry (store_table p i k w) j ≡ dir_entry p j
  store_table_dir j h =
      store_ne p.memory (slot (frame_of p i) k) w (slot p.directory j)
        (λ q. table_dir_ne p i k j v hi hk h e (sym q))

  pub store_table-SameDirectory : SameDirectory p (store_table p i k w)
  store_table-SameDirectory = (
    refl,
    λ j h. (
      ap page_frame (store_table_dir j h),
      ap is_present (store_table_dir j h),
      rw (store_table_dir j h) (v.words j h),
    ),
  )

  pub store_table_here :
      (x : ℕ) → pd_index x ≡ i → pt_index x ≡ k → table_entry (store_table p i k w) x ≡ w
  store_table_here x ei ek =
      let address : slot (frame_of (store_table p i k w) (pd_index x)) (pt_index x)
          ≡ slot (frame_of p i) k =
        ap₂ slot (ap page_frame (store_table_dir (pd_index x) (omega arith)) ∙ ap (frame_of p) ei)
          ek in
      ap (store p.memory (slot (frame_of p i) k) w) address
      ∙ store_self p.memory (slot (frame_of p i) k) w

  frames_ne :
      (x : ℕ)
      → present_of p (pd_index x) ≡ true
      → pd_index x ≢ i
      → slot (frame_of p (pd_index x)) (pt_index x) ≢ slot (frame_of p i) k
  frames_ne x present ne =
      let frames = v.distinct (pd_index x) i (omega arith) hi present e ne in omega arith

  slots_ne :
      (x : ℕ)
      → present_of p (pd_index x) ≡ true
      → (pd_index x ≢ i) ⊎ (pt_index x ≢ k)
      → slot (frame_of p (pd_index x)) (pt_index x) ≢ slot (frame_of p i) k
  slots_ne x present (inl ne) = frames_ne x present ne
  slots_ne x present (inr ne) = elim (Bool-cases (pd_index x == i)) [
    | inl same ↦
        let index : pd_index x ≡ i = ground arith in
        let frames : frame_of p (pd_index x) ≡ frame_of p i = ap (frame_of p) index in omega arith
    | inr other ↦ frames_ne x present (ground arith)
  ]

  pub store_table_other :
      (x : ℕ)
      → present_of p (pd_index x) ≡ true
      → (pd_index x ≢ i) ⊎ (pt_index x ≢ k)
      → table_entry (store_table p i k w) x ≡ table_entry p x
  store_table_other x present ne =
      ap (λ d. store p.memory (slot (frame_of p i) k) w (slot (page_frame d) (pt_index x)))
        (store_table_dir (pd_index x) (omega arith))
      ∙ store_ne p.memory (slot (frame_of p i) k) w (slot (frame_of p (pd_index x)) (pt_index x))
          (slots_ne x present ne)
