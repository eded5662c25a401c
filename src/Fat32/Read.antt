-- ===== src/Fat32/Read.antt =====
-- Proofs on `fat32_read` of kernel/fat32.c.
use magnos.Base.{
  ℕ, zero, suc, ◌+◌, ◌-◌, ◌*◌, ◌/◌, ◌%◌, ◌^◌, ◌≤◌, ◌<◌, ◌≡◌, refl, sym, ◌∙◌, ap, List, [], ◌∷◌,
  ◌++◌, Option, some, arith, true, false, ◌&&◌, ltb, ◌==◌, min, Bool-cases, inl, inr,
}
use magnos.Disk.{Sector, Disk}
use magnos.Fat32.{
  sector_size, cluster_eoc, Fs, File, cluster_size, cluster_to_sector, slice, chunk, advance,
  sector_at, prepend, deliver, read_loop, clamp, ReadResult, copied, read_result, read,
}
use magnos.Fat32.Chains.{
  Links, window, window-append, Stored, capacity, mod_behind, mod_next, slice-window,
}

-- The file stands `o` bytes behind the beginning of the cluster that `ds` starts with, at position `base`.
abbrev pub At : Disk → Fs → (ℕ → ℕ) → File → ℕ → ℕ → List ℕ → Type 0
At disk fs content f base o ds =
    (f.position ≡ base + o)
    × (base % cluster_size fs ≡ 0)
    × Links disk fs f.current_cluster ds
    × Stored disk fs content ds base
    × (o < cluster_size fs)

-- The read ends: it has copied the `n` bytes from the position on, and the file stands behind them.
abbrev pub ReadsOn : Disk → Fs → (ℕ → ℕ) → File → ℕ → ℕ → Option (File × List ℕ) → Type 0
ReadsOn disk fs content f n end_at result =
    (f' : File) × (result ≡ some (f', window content f.position n))
    × (f'.position ≡ f.position + n)
    × (f'.size ≡ f.size)
    × (f'.valid ≡ f.valid)
    × (base : ℕ) × (o : ℕ) × (ds : List ℕ) × At disk fs content f' base o ds
    × (base + capacity fs ds ≡ end_at)

read_loop_stop :
    (fuel : ℕ) (disk : Disk) (fs : Fs) (f : File) → read_loop (suc fuel) disk fs f 0 ≡ some (f, [])
unfolding read_loop
read_loop_stop fuel disk fs f = refl

read_loop_step :
    (fuel : ℕ) (disk : Disk) (fs : Fs) (f : File) (n k off : ℕ) (s : Sector)
    → 0 < n
    → f.current_cluster < cluster_eoc
    → chunk fs f n ≡ k
    → f.position % cluster_size fs % sector_size ≡ off
    → disk fs.drive (sector_at fs f) ≡ some s
    → read_loop (suc fuel) disk fs f n
      ≡ prepend (slice s off k) (read_loop fuel disk fs (advance disk fs f k) (n - k))
unfolding read_loop deliver
read_loop_step fuel disk fs f n k off s pos c ek eo es =
    let go : (ltb 0 n && ltb f.current_cluster cluster_eoc) ≡ true = ground arith in
    rw go (rw es (rw eo (rw ek refl)))

-- The offset in the cluster, as the code computes it.
At-offset :
    (disk : Disk) (fs : Fs) (content : ℕ → ℕ) (f : File) (base o : ℕ) (ds : List ℕ)
    → At disk fs content f base o ds
    → f.position % cluster_size fs ≡ o
At-offset disk fs content f base o ds (pos, whole, links, stored, lt) =
    ap (λ t. t % cluster_size fs) pos ∙ mod_behind base o (cluster_size fs) whole lt

-- The file behind a copy of `k` bytes that stays in the cluster.
abbrev Advanced : Disk → Fs → (ℕ → ℕ) → File → ℕ → ℕ → ℕ → Type 0
Advanced disk fs content f' position end_at k =
    (base : ℕ) × (o : ℕ) × (ds : List ℕ) × At disk fs content f' base o ds
    × (f'.position ≡ position + k)
    × (base + capacity fs ds ≡ end_at)

-- Inside the cluster.
At-stay :
    (disk : Disk) (fs : Fs) (content : ℕ → ℕ) (f : File) (base o k : ℕ) (ds : List ℕ)
    → At disk fs content f base o ds
    → 0 < k
    → o + k < cluster_size fs
    → base + cluster_size fs < 2 ^ 32
    → Advanced disk fs content (advance disk fs f k) f.position (base + capacity fs ds) k
unfolding advance
At-stay disk fs content f base o k ds (pos, whole, links, stored, lt) hk inside small =
    let sum : (f.position + k) % 2 ^ 32 ≡ base + (o + k) = omega arith in
    let off : (base + (o + k)) % cluster_size fs ≡ o + k =
      mod_behind base (o + k) (cluster_size fs) whole inside in
    let inner : (o + k == 0) ≡ false = ground arith in
    rw sum
      (rw off (rw inner (base, o + k, ds, (refl, whole, links, stored, inside), omega arith, refl)))

-- At its end, on to the next one.
At-next :
    (disk : Disk) (fs : Fs) (content : ℕ → ℕ) (f : File) (base o k d : ℕ) (ds : List ℕ)
    → At disk fs content f base o (d ∷ ds)
    → o + k ≡ cluster_size fs
    → base + cluster_size fs < 2 ^ 32
    → Advanced disk fs content (advance disk fs f k) f.position (base + capacity fs (d ∷ ds)) k
unfolding advance
At-next disk fs content f base o k d ds (pos, whole, links, stored, lt) full small =
    let sum : (f.position + k) % 2 ^ 32 ≡ base + cluster_size fs = omega arith in
    let off : (base + cluster_size fs) % cluster_size fs ≡ 0 =
      mod_next base (cluster_size fs) whole in
    rw sum (
      rw off (
        base + cluster_size fs,
        0,
        ds,
        (omega arith, off, rw links.0 links.2, stored.1, omega arith),
        omega arith,
        omega arith,
      ))

chunk_at :
    (fs : Fs) (f : File) (n o : ℕ)
    → f.position % cluster_size fs ≡ o
    → chunk fs f n ≡ min (sector_size - o % sector_size) (min (cluster_size fs - o) n)
unfolding chunk
chunk_at fs f n o e = rw e refl

sector_at_lem :
    (fs : Fs) (f : File) (o d : ℕ)
    → f.position % cluster_size fs ≡ o
    → f.current_cluster ≡ d
    → sector_at fs f ≡ (cluster_to_sector fs d + o / sector_size) % 2 ^ 32
unfolding sector_at
sector_at_lem fs f o d e c = rw e (rw c refl)

-- One round: the chunk is not empty, stays within request, sector and cluster, and is what the chain stores.
abbrev Rounds : Disk → Fs → (ℕ → ℕ) → File → ℕ → ℕ → ℕ → Type 0
Rounds disk fs content f n fuel end_at =
    (k : ℕ) × (0 < k)
    × (k ≤ n)
    × (read_loop (suc fuel) disk fs f n
        ≡ prepend (window content f.position k)
            (read_loop fuel disk fs (advance disk fs f k) (n - k)))
    × Advanced disk fs content (advance disk fs f k) f.position end_at k

round-Rounds :
    (fuel : ℕ) (disk : Disk) (fs : Fs) (content : ℕ → ℕ) (f : File) (n base o d : ℕ) (ds : List ℕ)
    → At disk fs content f base o (d ∷ ds)
    → 0 < n
    → base + cluster_size fs < 2 ^ 32
    → Rounds disk fs content f n fuel (base + capacity fs (d ∷ ds))
round-Rounds fuel disk fs content f n base o d ds at pos small =
    let (here, whole, links, stored, lt) = at in
    let off = At-offset disk fs content f base o (d ∷ ds) at in
    let k : ℕ = min (sector_size - o % sector_size) (min (cluster_size fs - o) n) in
    let (s, found, bytes) = stored.0 (o / sector_size) (omega arith) in
    let run =
      read_loop_step fuel disk fs f n k (o % sector_size) s pos (rw links.0 links.1)
        (chunk_at fs f n o off) (ap (λ t. t % sector_size) off)
        (ap (disk fs.drive) (sector_at_lem fs f o d off links.0) ∙ found) in
    let copy : slice s (o % sector_size) k ≡ window content f.position k =
      slice-window s content (o % sector_size) (base + o / sector_size * sector_size) k
        (omega arith) (λ i le h. bytes i h ∙ ap content (omega arith))
      ∙ ap (λ t. window content t k) (omega arith) in
    (
      k,
      omega arith,
      omega arith,
      run ∙ ap (λ t. prepend t (read_loop fuel disk fs (advance disk fs f k) (n - k))) copy,
      elim (Bool-cases (ltb (o + k) (cluster_size fs))) [
        | inl e ↦ At-stay disk fs content f base o k (d ∷ ds) at (omega arith) (ground arith) small
        | inr e ↦ At-next disk fs content f base o k d ds at (ground arith) small
      ],
    )

advance_size : (disk : Disk) (fs : Fs) (f : File) (k : ℕ) → (advance disk fs f k).size ≡ f.size
unfolding advance
advance_size disk fs f k = refl

advance_valid : (disk : Disk) (fs : Fs) (f : File) (k : ℕ) → (advance disk fs f k).valid ≡ f.valid
unfolding advance
advance_valid disk fs f k = refl

joined :
    (content : ℕ → ℕ) (f : File) (start next k n : ℕ)
    → next ≡ start + k
    → k ≤ n
    → prepend (window content start k) (some (f, window content next (n - k)))
      ≡ some (f, window content start n)
unfolding prepend
joined content f start next k n e le =
    ap (λ t. some (f, t))
      (ap (λ q. window content start k ++ window content q (n - k)) e
        ∙ sym (window-append content start k (n - k))
        ∙ ap (window content start) (omega arith))

-- The loop ends with `n` rounds at most, one for each byte, and copies the bytes that the chain stores.
read_loop-ReadsOn :
    (fuel : ℕ) (disk : Disk) (fs : Fs) (content : ℕ → ℕ) (f : File) (n base o end_at : ℕ)
    (ds : List ℕ)
    → n < fuel
    → At disk fs content f base o ds
    → base + capacity fs ds ≡ end_at
    → f.position + n ≤ end_at
    → end_at < 2 ^ 32
    → ReadsOn disk fs content f n end_at (read_loop fuel disk fs f n)
read_loop-ReadsOn zero disk fs content f n base o end_at ds h at e fits small = absurd (omega arith)
read_loop-ReadsOn (suc fuel) disk fs content f zero base o end_at ds h at e fits small =
    (f, read_loop_stop fuel disk fs f, omega arith, refl, refl, base, o, ds, at, e)
read_loop-ReadsOn (suc fuel) disk fs content f (suc n) base o end_at [] h at e fits small =
    absurd (omega (arith, at.0))
read_loop-ReadsOn (suc fuel) disk fs content f (suc n) base o end_at (d ∷ ds) h at e fits small =
    let (k, pos, le, run, (base', o', ds', at', moved, e')) =
      round-Rounds fuel disk fs content f (suc n) base o d ds at (omega arith) (omega arith) in
    let (f', rest, position, size, valid, b2, o2, d2, at2, e2) =
      read_loop-ReadsOn fuel disk fs content (advance disk fs f k) (suc n - k) base' o' end_at ds'
        (omega arith) at' (e' ∙ e) (omega arith) small in
    (
      f',
      run
          ∙ ap (prepend (window content f.position k)) rest
          ∙ joined content f' f.position (advance disk fs f k).position k (suc n) moved le,
      omega arith,
      size ∙ advance_size disk fs f k,
      valid ∙ advance_valid disk fs f k,
      b2,
      o2,
      d2,
      at2,
      e2,
    )

clamp_lem :
    (f : File) (size : ℕ)
    → f.position ≤ f.size
    → f.size < 2 ^ 32
    → f.position + size < 2 ^ 32
    → clamp f size ≡ min size (f.size - f.position)
unfolding clamp
clamp_lem f size h small room = ground arith

-- What a call of `fat32_read` on an open file returns: the bytes from the position on, as many as asked for and as the
-- file has; the position moves behind them, and the file stands in its chain again.
abbrev pub Reads : Disk → Fs → (ℕ → ℕ) → File → ℕ → ℕ → Option ReadResult → Type 0
Reads disk fs content f size end_at result =
    (f' : File) × (result
      ≡ some (copied f' (window content f.position (min size (f.size - f.position)))))
    × (f'.position ≡ f.position + min size (f.size - f.position))
    × (f'.size ≡ f.size)
    × (f'.valid ≡ true)
    × (base : ℕ) × (o : ℕ) × (ds : List ℕ) × At disk fs content f' base o ds
    × (base + capacity fs ds ≡ end_at)

read_run :
    (fuel : ℕ) (disk : Disk) (fs : Fs) (f f' : File) (size : ℕ) (bytes : List ℕ)
    → f.valid ≡ true
    → fs.initialized ≡ true
    → read_loop fuel disk fs f (clamp f size) ≡ some (f', bytes)
    → read fuel disk fs (some f) size ≡ some (copied f' bytes)
unfolding read read_result
read_run fuel disk fs f f' size bytes v i e = rw e (rw v (rw i refl))

-- `fat32_read` of `size` bytes from an open file at a position inside it, whose chain of clusters can be read and
-- holds at least the size of the file, where position and request together stay below 2 ^ 32: with a round for each
-- byte of the request it ends, and it copies exactly the bytes that the chain stores from the position on, as many as
-- asked for and as the file has. The position moves behind them, so that the next call goes on there.
pub read-Reads :
    (fuel : ℕ) (disk : Disk) (fs : Fs) (content : ℕ → ℕ) (f : File) (size base o : ℕ) (ds : List ℕ)
    → size < fuel
    → f.valid ≡ true
    → fs.initialized ≡ true
    → At disk fs content f base o ds
    → f.position ≤ f.size
    → f.size ≤ base + capacity fs ds
    → base + capacity fs ds < 2 ^ 32
    → f.position + size < 2 ^ 32
    → Reads disk fs content f size (base + capacity fs ds) (read fuel disk fs (some f) size)
read-Reads fuel disk fs content f size base o ds h v i at inside holds small room =
    let n : ℕ = min size (f.size - f.position) in
    let cut = clamp_lem f size inside (omega arith) room in
    let (f', run, position, size', valid, b2, o2, d2, at2, e2) =
      read_loop-ReadsOn fuel disk fs content f n base o (base + capacity fs ds) ds (omega arith) at
        refl (omega arith) small in
    (
      f',
      read_run fuel disk fs f f' size (window content f.position n) v i
          (ap (read_loop fuel disk fs f) cut ∙ run),
      position,
      size',
      valid ∙ v,
      b2,
      o2,
      d2,
      at2,
      e2,
    )
