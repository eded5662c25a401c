-- ===== src/Memory.antt =====
-- Physical memory as the kernel's C code uses it for its own tables: 32-bit words by address. Under
-- the kernel's identity mapping (kernel/paging.c) an address is a physical address.
use magnos.Base.{ℕ, ◌≡◌, ◌∙◌, ◌≢◌, ◌==◌, if◌then◌else◌, arith}

abbrev pub Memory : Type 0
Memory = ℕ → ℕ

unfoldable pub store : Memory → ℕ → ℕ → Memory
store m a v b = if b == a then v else m b

pub store_self : (m : Memory) (a v : ℕ) → store m a v a ≡ v
unfolding store
store_self m a v = ground arith

pub store_ne : (m : Memory) (a v b : ℕ) → b ≢ a → store m a v b ≡ m b
unfolding store
store_ne m a v b h = ground arith

-- Two stores leave the other addresses alone.
pub store_two : (m : Memory) (x v y w z : ℕ) → z ≢ x → z ≢ y → store (store m x v) y w z ≡ m z
store_two m x v y w z h h' = store_ne (store m x v) y w z h' ∙ store_ne m x v z h
