-- ===== src/Fat32/Dir/Open.antt =====
-- What `fat32_open` of kernel/fat32.c finds.
use magnos.Base.{
  ℕ, zero, suc, ◌+◌, ◌*◌, ◌<◌, ◌≡◌, refl, ◌∙◌, ap, Bool, true, false, not, ◌&&◌, List, [], ◌∷◌,
  ◌++◌, Option, some, none, ◌==◌, if◌then◌else◌, length, set, replicate, Each, Each-set, Bool-cases,
  inl, inr, arith, length-set,
}
use magnos.Disk.{Sector, Disk}
use magnos.Fat32.{Fs, File, slice}
use magnos.Fat32.Chains.{Links}
use magnos.Fat32.Name.{
  space, dot, string_to_name, strncmp_equal, copy_name, copy_extension, extension,
}
use magnos.Fat32.Dir.{
  DirEntry, entry_of, first_byte, attr_long_name, next, stop, file_of, open_step, open_file,
}
use magnos.Fat32.Dir.Scan.{
  sector_entries, ClusterHas, DirectoryHas, fold_entries, conclude, scan_chain-fold_entries,
}

-- Two names are the same, byte by byte.
unfoldable pub same_name : List ℕ → List ℕ → Bool
same_name [] [] = true
same_name [] (y ∷ ys) = false
same_name (x ∷ xs) [] = false
same_name (x ∷ xs) (y ∷ ys) = x == y && same_name xs ys

-- The entry is not deleted, no part of a long name, and has this name.
abbrev pub is_match : DirEntry → List ℕ → Bool
is_match e name =
    not (first_byte e == 0xE5) && (not (e.attr == attr_long_name) && same_name e.name name)

-- The file of the first entry before the end of the directory that is not deleted, no part of a long name, and has
-- this name.
unfoldable pub find_file : List ℕ → List DirEntry → Option File
find_file name [] = none
find_file name (e ∷ es) =
    let rest = find_file name es in
    if first_byte e == 0 then none else if is_match e name then some (file_of e) else rest

abbrev pub NonZero : ℕ → Type 0
NonZero c = (c == 0) ≡ false

-- On names of one length that have no zero byte, `strncmp` returns 0 for the same names only.
strncmp_equal-same_name :
    (n : ℕ) (xs ys : List ℕ)
    → length xs ≡ n
    → length ys ≡ n
    → Each NonZero ys
    → strncmp_equal n xs ys ≡ same_name xs ys
unfolding strncmp_equal same_name
strncmp_equal-same_name zero [] [] hx hy nz = refl
strncmp_equal-same_name zero [] (y ∷ ys) hx hy nz = absurd (omega arith)
strncmp_equal-same_name zero (x ∷ xs) ys hx hy nz = absurd (omega arith)
strncmp_equal-same_name (suc n) [] ys hx hy nz = absurd (omega arith)
strncmp_equal-same_name (suc n) (x ∷ xs) [] hx hy nz = absurd (omega arith)
strncmp_equal-same_name (suc n) (x ∷ xs) (y ∷ ys) hx hy nz = elim (Bool-cases (x == y)) [
  | inl e ↦
      let x_nonzero : (x == 0) ≡ false = ground (arith, nz.0) in
      rw e (rw x_nonzero (strncmp_equal-same_name n xs ys (omega arith) (omega arith) nz.1))
  | inr e ↦ rw e (ground arith)
]

-- The step of the loop, with `strncmp` read so.
open_step_lem :
    (name : List ℕ) (e : DirEntry) (u : Unit {0})
    → length e.name ≡ 11
    → length name ≡ 11
    → Each NonZero name
    → open_step name e u ≡ (
        if first_byte e == 0
        then stop none
        else if is_match e name
        then stop (some (file_of e))
        else next u)
unfolding open_step
open_step_lem name e u h hn nz = rw (strncmp_equal-same_name 11 e.name name h hn nz) (ground arith)

open_fold :
    (name : List ℕ) (es : List DirEntry)
    → Each (λ e. length e.name ≡ 11) es
    → length name ≡ 11
    → Each NonZero name
    → conclude (λ u. none) (fold_entries (open_step name) (λ u. false) es tt) ≡ find_file name es
unfolding fold_entries find_file
open_fold name [] len hn nz = refl
open_fold name (e ∷ es) len hn nz =
    rw (open_step_lem name e tt len.0 hn nz) (elim (Bool-cases (first_byte e == 0)) [
      | inl end ↦ rw end refl
      | inr more ↦ rw more (elim (Bool-cases (is_match e name)) [
        | inl found ↦ rw found refl
        | inr other ↦ rw other (open_fold name es len.1 hn nz)
      ])
    ])

length-slice : (s : Sector) (off n : ℕ) → length (slice s off n) ≡ n
unfolding slice
length-slice s off zero = refl
length-slice s off (suc n) = ap suc (length-slice s (off + 1) n)

abbrev HasName : DirEntry → Type 0
HasName e = length e.name ≡ 11

sector_entries-HasName : (s : Sector) (n j : ℕ) → Each HasName (sector_entries s n j)
unfolding entry_of
sector_entries-HasName s zero j = _
sector_entries-HasName s (suc n) j =
    (length-slice s (j * 32) 11, sector_entries-HasName s n (j + 1))

append-HasName :
    (xs ys : List DirEntry) → Each HasName xs → Each HasName ys → Each HasName (xs ++ ys)
append-HasName [] ys hx hy = hy
append-HasName (x ∷ xs) ys hx hy = (hx.0, append-HasName xs ys hx.1 hy)

cluster-HasName :
    (disk : Disk) (fs : Fs) (sector n i : ℕ) (es : List DirEntry)
    → ClusterHas disk fs sector n i es
    → Each HasName es
cluster-HasName disk fs sector zero i es has = rw has tt
cluster-HasName disk fs sector (suc n) i es (s, rest, found, has, parts) = rw parts (
    append-HasName (sector_entries s 16 0) rest (sector_entries-HasName s 16 0)
      (cluster-HasName disk fs sector n (i + 1) rest has))

directory-HasName :
    (disk : Disk) (fs : Fs) (ds : List ℕ) (es : List DirEntry)
    → DirectoryHas disk fs ds es
    → Each HasName es
directory-HasName disk fs [] es has = rw has tt
directory-HasName disk fs (d ∷ ds) es (here, rest, first, others, parts) = rw parts (
    append-HasName here rest (cluster-HasName disk fs _ _ 0 here first)
      (directory-HasName disk fs ds rest others))

-- A name in the form of the directory: 11 bytes, none of them 0.
abbrev IsName : List ℕ → Type 0
IsName name = (length name ≡ 11) × Each NonZero name

copy_name-IsName :
    (n i : ℕ) (cs name : List ℕ) → Each NonZero cs → IsName name → IsName (copy_name n i cs name)
unfolding copy_name
copy_name-IsName zero i cs name hc h = h
copy_name-IsName (suc n) i [] name hc h = h
copy_name-IsName (suc n) i (c ∷ cs) name hc h = elim (Bool-cases (c == dot)) [
  | inl e ↦ rw e h
  | inr e ↦ rw e (
      copy_name-IsName n (i + 1) cs (set name i c) hc.1
        (length-set name i c ∙ h.0, Each-set NonZero name i c h.1 hc.0))
]

copy_extension-IsName :
    (n i : ℕ) (cs name : List ℕ)
    → Each NonZero cs
    → IsName name
    → IsName (copy_extension n i cs name)
unfolding copy_extension
copy_extension-IsName zero i cs name hc h = h
copy_extension-IsName (suc n) i [] name hc h = h
copy_extension-IsName (suc n) i (c ∷ cs) name hc h =
    copy_extension-IsName n (i + 1) cs (set name i c) hc.1
      (length-set name i c ∙ h.0, Each-set NonZero name i c h.1 hc.0)

extension-NonZero : (cs : List ℕ) → Each NonZero cs → Each NonZero (extension cs)
unfolding extension
extension-NonZero [] h = h
extension-NonZero (c ∷ cs) h = elim (Bool-cases (c == dot)) [
  | inl e ↦ rw e h.1
  | inr e ↦ rw e (extension-NonZero cs h.1)
]

spaces-NonZero : (n : ℕ) → Each NonZero (replicate n space)
spaces-NonZero zero = _
spaces-NonZero (suc n) = (refl, spaces-NonZero n)

string_to_name-IsName : (cs : List ℕ) → Each NonZero cs → IsName (string_to_name cs)
unfolding string_to_name
string_to_name-IsName cs h =
    copy_extension-IsName 3 8 (extension cs) (copy_name 8 0 cs (replicate 11 space))
      (extension-NonZero cs h)
      (copy_name-IsName 8 0 cs (replicate 11 space) h (refl, spaces-NonZero 11))

-- `fat32_open` of an initialized file system, where the clusters of the root directory can be read and with a round
-- for each of them and one more, returns the file of the first entry before the end of the directory that is not
-- deleted, is no part of a long name, and whose 11 bytes are the name in the form of the directory; without such an
-- entry it returns NULL.
pub open_file-find_file :
    (fuel : ℕ) (disk : Disk) (fs : Fs) (filename ds : List ℕ) (es : List DirEntry)
    → length ds < fuel
    → fs.initialized ≡ true
    → Each NonZero filename
    → Links disk fs fs.root_dir_cluster ds
    → DirectoryHas disk fs ds es
    → open_file fuel disk fs filename ≡ some (find_file (string_to_name filename) es)
unfolding open_file
open_file-find_file fuel disk fs filename ds es h init text links has =
    let go : (not fs.initialized) ≡ false = ground arith in
    let name = string_to_name-IsName filename text in
    rw go (
      scan_chain-fold_entries disk fs (open_step (string_to_name filename)) (λ u. false) (λ u. none)
        (λ u. none) fuel fs.root_dir_cluster tt ds es h links has
      ∙ ap some (
          open_fold (string_to_name filename) es (directory-HasName disk fs ds es has) name.0
            name.1))
