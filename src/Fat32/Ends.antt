-- ===== src/Fat32/Ends.antt =====
-- `fat32_read` of kernel/fat32.c on any disk and any chain of clusters, damaged and cyclic ones included.
use native.Mathlib.Nat.{mod-lt}
use magnos.Base.{
  ℕ, zero, suc, ◌+◌, ◌-◌, ◌%◌, ◌^◌, ◌≤◌, ◌<◌, ◌≡◌, refl, ◌∙◌, ap, true, false, ◌&&◌, ltb, List, [],
  ◌++◌, Option, some, none, Bool-cases, inl, inr, arith, length, length-append,
}
use magnos.Disk.{Sector, Disk}
use magnos.Fat32.{
  sector_size, cluster_eoc, Fs, File, cluster_size, slice, chunk, advance, sector_at, prepend,
  deliver, read_loop, clamp, copied, read, read_result,
}

-- A result with at most `n` bytes, behind which the position stands.
abbrev pub Ended : File → ℕ → Option (File × List ℕ) → Type 0
Ended f n r =
    (f' : File) × (bytes : List ℕ) × (r ≡ some (f', bytes))
    × (length bytes ≤ n)
    × (f'.position ≡ (f.position + length bytes) % 2 ^ 32)

chunk_bounds :
    (fs : Fs) (f : File) (n : ℕ)
    → 0 < fs.bpb.sectors_per_cluster
    → 0 < n
    → (0 < chunk fs f n) × (chunk fs f n ≤ n)
unfolding chunk
chunk_bounds fs f n pos h =
    let inside : f.position % cluster_size fs < cluster_size fs = mod-lt f.position (omega arith) in
    (ground arith, ground arith)

length-slice : (s : Sector) (off n : ℕ) → length (slice s off n) ≡ n
unfolding slice
length-slice s off zero = refl
length-slice s off (suc n) = ap suc (length-slice s (off + 1) n)

advance_position :
    (disk : Disk) (fs : Fs) (f : File) (k : ℕ)
    → (advance disk fs f k).position ≡ (f.position + k) % 2 ^ 32
unfolding advance
advance_position disk fs f k = refl

deliver-Ended :
    (f g : File) (s : Option Sector) (off k n : ℕ) (rest : Option (File × List ℕ))
    → f.position < 2 ^ 32
    → k ≤ n
    → g.position ≡ (f.position + k) % 2 ^ 32
    → Ended g (n - k) rest
    → Ended f n (deliver f off k rest s)
unfolding deliver prepend
deliver-Ended f g none off k n rest small le e ended = (f, [], refl, omega arith, omega arith)
deliver-Ended f g (some s) off k n rest small le e (f', bytes, run, most, position) =
    let size : length (slice s off k ++ bytes) ≡ k + length bytes =
      length-append (slice s off k) bytes ∙ ap (λ t. t + length bytes) (length-slice s off k) in
    (f', slice s off k ++ bytes, rw run refl, omega arith, omega arith)

read_loop_end :
    (fuel : ℕ) (disk : Disk) (fs : Fs) (f : File) (n : ℕ)
    → (ltb 0 n && ltb f.current_cluster cluster_eoc) ≡ false
    → read_loop (suc fuel) disk fs f n ≡ some (f, [])
unfolding read_loop
read_loop_end fuel disk fs f n e = rw e refl

read_loop_go :
    (fuel : ℕ) (disk : Disk) (fs : Fs) (f : File) (n : ℕ)
    → (ltb 0 n && ltb f.current_cluster cluster_eoc) ≡ true
    → read_loop (suc fuel) disk fs f n
      ≡ deliver f
          (f.position % cluster_size fs % sector_size)
          (chunk fs f n)
          (read_loop fuel disk fs (advance disk fs f (chunk fs f n)) (n - chunk fs f n))
          (disk fs.drive (sector_at fs f))
unfolding read_loop
read_loop_go fuel disk fs f n e = rw e refl

read_loop-Ended :
    (fuel : ℕ) (disk : Disk) (fs : Fs) (f : File) (n : ℕ)
    → 0 < fs.bpb.sectors_per_cluster
    → f.position < 2 ^ 32
    → n < fuel
    → Ended f n (read_loop fuel disk fs f n)
read_loop-Ended zero disk fs f n pos small h = absurd (omega arith)
read_loop-Ended (suc fuel) disk fs f n pos small h =
    elim (Bool-cases (ltb 0 n && ltb f.current_cluster cluster_eoc)) [
      | inr e ↦ (f, [], read_loop_end fuel disk fs f n e, omega arith, omega arith)
      | inl e ↦
          let k = chunk fs f n in
          let (more, most) = chunk_bounds fs f n pos (ground arith) in
          let g = advance disk fs f k in
          let position = advance_position disk fs f k in
          rw (read_loop_go fuel disk fs f n e) (
            deliver-Ended f g (disk fs.drive (sector_at fs f))
              (f.position % cluster_size fs % sector_size) k n (read_loop fuel disk fs g (n - k))
              small most position
              (read_loop-Ended fuel disk fs g (n - k) pos (omega arith) (omega arith)))
    ]

read_lem :
    (fuel : ℕ) (disk : Disk) (fs : Fs) (f : File) (size : ℕ)
    → f.valid ≡ true
    → fs.initialized ≡ true
    → read fuel disk fs (some f) size ≡ read_result (read_loop fuel disk fs f (clamp f size))
unfolding read
read_lem fuel disk fs f size v i = rw v (rw i refl)

-- `fat32_read` from an open file of an initialized file system whose clusters have sectors ends on every disk, also
-- where the chain of clusters is damaged or runs in a circle: a round for each byte of the request, as it is cut, and
-- one more are enough. It copies at most that many bytes and moves the position behind what it has copied.
pub read-Ended :
    (fuel : ℕ) (disk : Disk) (fs : Fs) (f : File) (size : ℕ)
    → f.valid ≡ true
    → fs.initialized ≡ true
    → 0 < fs.bpb.sectors_per_cluster
    → f.position < 2 ^ 32
    → clamp f size < fuel
    → (f' : File) × (bytes : List ℕ) × (read fuel disk fs (some f) size ≡ some (copied f' bytes))
      × (length bytes ≤ clamp f size)
      × (f'.position ≡ (f.position + length bytes) % 2 ^ 32)
unfolding read_result
read-Ended fuel disk fs f size v i pos small h =
    let (f', bytes, run, most, position) =
      read_loop-Ended fuel disk fs f (clamp f size) pos small h in
    (f', bytes, read_lem fuel disk fs f size v i ∙ ap read_result run, most, position)
