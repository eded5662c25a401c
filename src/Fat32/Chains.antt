-- ===== src/Fat32/Chains.antt =====
-- Chains of clusters on the disk of kernel/fat32.c, and what they store.
use native.Mathlib.Nat.{mod-add-mod, mod-eq_of_lt, add-mod_right}
use magnos.Base.{
  ℕ, zero, suc, ◌+◌, ◌*◌, ◌%◌, ◌^◌, ◌≤◌, ◌<◌, ◌≡◌, refl, sym, ◌∙◌, ap, ap₂, List, [], ◌∷◌, ◌++◌,
  some, arith, length,
}
use magnos.Disk.{Sector, Disk}
use magnos.Fat32.{
  sector_size, cluster_eoc, Fs, cluster_size, cluster_to_sector, get_next_cluster, slice,
}

-- From `cluster` the FAT leads through `ds` to the end of the chain.
abbrev pub Links : Disk → Fs → ℕ → List ℕ → Type 0
Links disk fs cluster [] = cluster_eoc ≤ cluster
Links disk fs cluster (d ∷ ds) =
    (cluster ≡ d) × (d < cluster_eoc) × Links disk fs (get_next_cluster disk fs d) ds

-- The bytes `content` at the positions from `start` on.
abbrev pub window : (ℕ → ℕ) → ℕ → ℕ → List ℕ
window content start zero = []
window content start (suc n) = content start ∷ window content (start + 1) n

pub window-append :
    (content : ℕ → ℕ) (start j k : ℕ)
    → window content start (j + k) ≡ window content start j ++ window content (start + j) k
window-append content start zero k = ap₂ (window content) (omega arith) (omega arith)
window-append content start (suc j) k =
    let step : suc j + k ≡ suc (j + k) = omega arith in
    ap (window content start) step
    ∙ ap (λ t. content start ∷ t)
        (window-append content (start + 1) j k
          ∙ ap (λ t. window content (start + 1) j ++ window content t k) (omega arith))

pub length-window : (content : ℕ → ℕ) (start n : ℕ) → length (window content start n) ≡ n
length-window content start zero = refl
length-window content start (suc n) = ap suc (length-window content (start + 1) n)

-- Every sector of the cluster can be read, and holds the bytes from position `base` on.
abbrev pub Holds : Disk → Fs → (ℕ → ℕ) → ℕ → ℕ → Type 0
Holds disk fs content d base =
    (j : ℕ)
    → j < fs.bpb.sectors_per_cluster
    → (s : Sector) × (disk fs.drive ((cluster_to_sector fs d + j) % 2 ^ 32) ≡ some s)
      × ((k : ℕ) → k < sector_size → s k ≡ content (base + j * sector_size + k))

-- The clusters hold the bytes from position `base` on, one behind the other.
abbrev pub Stored : Disk → Fs → (ℕ → ℕ) → List ℕ → ℕ → Type 0
Stored disk fs content [] base = Unit {0}
Stored disk fs content (d ∷ ds) base =
    Holds disk fs content d base × Stored disk fs content ds (base + cluster_size fs)

-- The bytes of so many clusters.
abbrev pub capacity : Fs → List ℕ → ℕ
capacity fs [] = 0
capacity fs (d ∷ ds) = cluster_size fs + capacity fs ds

-- Positions in a chain: `o` bytes behind the beginning of a cluster.
pub mod_behind : (base o m : ℕ) → base % m ≡ 0 → o < m → (base + o) % m ≡ o
mod_behind base o m e h =
    sym (mod-add-mod base m o)
    ∙ ap (λ t. (t + o) % m) e
    ∙ ap (λ t. t % m) (omega arith)
    ∙ mod-eq_of_lt h

pub mod_next : (base m : ℕ) → base % m ≡ 0 → (base + m) % m ≡ 0
mod_next base m e = add-mod_right base m ∙ e

pub slice-window :
    (s : Sector) (content : ℕ → ℕ) (off start n : ℕ)
    → off + n ≤ sector_size
    → ((k : ℕ) → off ≤ k → k < sector_size → s k ≡ content (start + k))
    → slice s off n ≡ window content (start + off) n
unfolding slice
slice-window s content off start zero h e = refl
slice-window s content off start (suc n) h e =
    ap₂ (λ x xs. x ∷ xs) (e off (omega arith) (omega arith))
      (slice-window s content (off + 1) start n (omega arith) (λ k le lt. e k (omega arith) lt)
        ∙ ap (λ t. window content t n) (omega arith))
