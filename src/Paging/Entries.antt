-- ===== src/Paging/Entries.antt =====
-- The entries that kernel/paging.c writes: a frame with flags, and the user bit of the directory entry.
use Prim.Native.Nat.{bit_or}
use magnos.Base.{
  ℕ, ◌+◌, ◌-◌, ◌/◌, ◌%◌, ◌^◌, ◌<◌, ◌≡◌, refl, ◌∙◌, ap, true, not, ◌==◌, Bool-cases, inl, inr, arith,
  bit_or_low, bit_or-one, bit_or-four,
}
use magnos.Memory.{store, store_self, store_ne}
use magnos.Paging.{
  Paging, slot, page_frame, pd_index, pt_index, is_present, has_user, page_user, set_user,
}
use magnos.Paging.Tables.{
  dir_entry, frame_of, present_of, table_entry, IsValid, SameDirectory, table_dir_ne,
}

-- Entries with a frame and flags.
module _ (phys flags : ℕ) (h : phys < 2 ^ 32) where
  abbrev pub entry_of : ℕ
  entry_of = bit_or (bit_or (page_frame phys) (flags % 2 ^ 12)) 1

  pub entry_sum : bit_or (page_frame phys) (flags % 2 ^ 12) ≡ page_frame phys + flags % 2 ^ 12
  entry_sum = bit_or_low 12 (phys % 2 ^ 32 / 2 ^ 12) (flags % 2 ^ 12) (omega arith)

  pub entry_value : entry_of ≡ page_frame phys + flags % 2 ^ 12 + (1 - flags % 2)
  entry_value = bit_or-one (bit_or (page_frame phys) (flags % 2 ^ 12)) ∙ rw entry_sum (omega arith)

  pub entry_present : is_present entry_of ≡ true
  entry_present = rw entry_value (ground arith)

  pub entry_frame : page_frame entry_of ≡ page_frame phys
  entry_frame = rw entry_value (omega arith)

-- The user bit changes neither frame nor presence of a directory entry.
pub user_frame : (d : ℕ) → d < 2 ^ 32 → page_frame (bit_or d page_user) ≡ page_frame d
user_frame d h = rw (bit_or-four d) (omega arith)

pub user_present : (d : ℕ) → is_present (bit_or d page_user) ≡ is_present d
user_present d = rw (bit_or-four d) (ap (λ t. not (t == 0)) (omega arith))

pub user_word : (d : ℕ) → d < 2 ^ 32 → bit_or d page_user < 2 ^ 32
user_word d h = rw (bit_or-four d) (omega arith)

abbrev with_user : Paging → ℕ → Paging
with_user p i = record p {
  memory = store p.memory (slot p.directory i) (bit_or (dir_entry p i) page_user);
}

with_user-SameDirectory : (p : Paging) (i : ℕ) → IsValid p → SameDirectory p (with_user p i)
with_user-SameDirectory p i v = (
  refl,
  λ j h. elim (Bool-cases (j == i)) [
    | inl e ↦
        let index : j ≡ i = ground arith in
        let here : dir_entry (with_user p i) j ≡ bit_or (dir_entry p j) page_user =
          rw index (store_self p.memory (slot p.directory i) (bit_or (dir_entry p i) page_user)) in
        rw here (
          user_frame (dir_entry p j) (v.words j h),
          user_present (dir_entry p j),
          user_word (dir_entry p j) (v.words j h),
        )
    | inr e ↦
        let other : dir_entry (with_user p i) j ≡ dir_entry p j =
          store_ne p.memory (slot p.directory i) (bit_or (dir_entry p i) page_user)
            (slot p.directory j) (ground arith) in
        rw other (refl, refl, v.words j h)
  ],
)

with_user_table :
    (p : Paging) (i x : ℕ)
    → IsValid p
    → i < 1024
    → present_of p (pd_index x) ≡ true
    → table_entry (with_user p i) x ≡ table_entry p x
with_user_table p i x v hi e =
    ap
      (λ f.
        store p.memory (slot p.directory i) (bit_or (dir_entry p i) page_user)
          (slot f (pt_index x)))
      ((with_user-SameDirectory p i v).1 (pd_index x) (omega arith)).0
    ∙ store_ne p.memory (slot p.directory i) (bit_or (dir_entry p i) page_user)
        (slot (frame_of p (pd_index x)) (pt_index x))
        (table_dir_ne p (pd_index x) (pt_index x) i v (omega arith) (omega arith) hi e)

-- A state with the same directory and, for tables that are there, the same tables.
abbrev pub Agrees : Paging → Paging → Type 0
Agrees p q =
    SameDirectory p q
    × ((x : ℕ) → present_of p (pd_index x) ≡ true → table_entry q x ≡ table_entry p x)

pub set_user-Agrees : (p : Paging) (virt flags : ℕ) → IsValid p → Agrees p (set_user p virt flags)
unfolding set_user
set_user-Agrees p virt flags v = elim (Bool-cases (has_user flags)) [
  | inl e ↦ rw e (
    with_user-SameDirectory p (pd_index virt) v,
    λ x. with_user_table p (pd_index virt) x v (omega arith),
  )
  | inr e ↦ rw e ((refl, λ i h. (refl, refl, v.words i h)), λ x h. refl)
]
