-- ===== src/Fat32/Dir/Listing.antt =====
-- What `fat32_list_dir` and `fat32_list_root` of kernel/fat32.c list.
use magnos.Base.{
  ℕ, suc, ◌-◌, ◌≤◌, ◌<◌, ◌≡◌, refl, sym, ◌∙◌, ap, Bool, true, false, not, ◌&&◌, ◌||◌, List, [], ◌∷◌,
  ◌++◌, map, some, leb, ◌==◌, if◌then◌else◌, length, take, take-nil, select, Bool-cases, inl, inr,
  arith, append-nil, append_assoc, length-append,
}
use magnos.Disk.{Disk}
use magnos.Fat32.{Fs}
use magnos.Fat32.Chains.{Links}
use magnos.Fat32.Dir.{
  DirEntry, first_byte, attr_long_name, is_volume, next, stop, DirInfo, info_of, list_dir_step,
  list_dir,
}
use magnos.Fat32.Dir.Scan.{DirectoryHas, fold_entries, conclude, scan_chain-fold_entries}

-- The entries before the one that marks the end of the directory.
unfoldable pub live : List DirEntry → List DirEntry
live [] = []
live (e ∷ es) = let rest = live es in if first_byte e == 0 then [] else e ∷ rest

-- The entry is a file or a directory: not deleted, no part of a long name, and no volume label.
unfoldable pub is_visible : DirEntry → Bool
is_visible e = not (first_byte e == 0xE5) && (not (e.attr == attr_long_name) && not (is_volume e))

unfoldable pub listing : List DirEntry → List DirInfo
listing es = map info_of (select is_visible (live es))

pub listing-nil : listing [] ≡ []
unfolding listing live select
listing-nil = refl

filled-nil : (max : ℕ) (acc : List DirInfo) → acc ≡ acc ++ take (max - length acc) []
filled-nil max acc = sym (append-nil acc) ∙ ap (λ t. acc ++ t) (sym (take-nil (max - length acc)))

pub listing-end :
    (e : DirEntry) (es : List DirEntry) → (first_byte e == 0) ≡ true → listing (e ∷ es) ≡ []
unfolding listing live select
listing-end e es h = rw h refl

pub listing-seen :
    (e : DirEntry) (es : List DirEntry)
    → (first_byte e == 0) ≡ false
    → is_visible e ≡ true
    → listing (e ∷ es) ≡ info_of e ∷ listing es
unfolding listing live select
listing-seen e es h v = rw h (rw v refl)

pub listing-hidden :
    (e : DirEntry) (es : List DirEntry)
    → (first_byte e == 0) ≡ false
    → is_visible e ≡ false
    → listing (e ∷ es) ≡ listing es
unfolding listing live select
listing-hidden e es h v = rw h (rw v refl)

step-seen :
    (e : DirEntry) (acc : List DirInfo)
    → (first_byte e == 0) ≡ false
    → is_visible e ≡ true
    → list_dir_step e acc ≡ next (acc ++ info_of e ∷ [])
unfolding list_dir_step is_visible
step-seen e acc h v = ground arith

step-hidden :
    (e : DirEntry) (acc : List DirInfo)
    → (first_byte e == 0) ≡ false
    → is_visible e ≡ false
    → list_dir_step e acc ≡ next acc
unfolding list_dir_step is_visible
step-hidden e acc h v = ground arith

step-end :
    (e : DirEntry) (acc : List DirInfo)
    → (first_byte e == 0) ≡ true
    → list_dir_step e acc ≡ stop (acc, true)
unfolding list_dir_step
step-end e acc h = rw h refl

abbrev full : ℕ → List DirInfo → Bool
full max entries = leb max (length entries)

-- The entries so far and those that still fit.
abbrev filled : ℕ → List DirInfo → List DirInfo → List DirInfo
filled max acc infos = acc ++ take (max - length acc) infos

filled-empty : (max : ℕ) (infos : List DirInfo) → filled max [] infos ≡ take max infos
filled-empty max infos = let all : max - 0 ≡ max = omega arith in rw all refl

filled-full : (max : ℕ) (acc infos : List DirInfo) → max ≤ length acc → filled max acc infos ≡ acc
filled-full max acc infos h =
    let none_left : max - length acc ≡ 0 = omega arith in rw none_left (append-nil acc)

filled-more :
    (max : ℕ) (acc infos : List DirInfo) (i : DirInfo)
    → length acc < max
    → filled max (acc ++ i ∷ []) infos ≡ filled max acc (i ∷ infos)
filled-more max acc infos i h =
    let one_left : max - length acc ≡ suc (max - length (acc ++ i ∷ [])) =
      omega (arith, length-append acc (i ∷ [])) in
    rw one_left (append_assoc acc (i ∷ []) (take (max - length (acc ++ i ∷ [])) infos))

list_dir_fold :
    (max : ℕ) (es : List DirEntry) (acc : List DirInfo)
    → length acc ≤ max
    → conclude (λ entries. (entries, true)) (fold_entries list_dir_step (full max) es acc)
      ≡ (filled max acc (listing es), true)
unfolding fold_entries
list_dir_fold max [] acc h = rw listing-nil (ap (λ t. (t, true)) (filled-nil max acc))
list_dir_fold max (e ∷ es) acc h = elim (Bool-cases (leb max (length acc))) [
  | inl is_full ↦
      rw is_full (ap (λ t. (t, true)) (sym (filled-full max acc (listing (e ∷ es)) (ground arith))))
  | inr room ↦
      let more_room : length acc < max = ground arith in
      rw room (elim (Bool-cases (first_byte e == 0)) [
        | inl end ↦
            rw (step-end e acc end)
              (rw (listing-end e es end) (ap (λ t. (t, true)) (filled-nil max acc)))
        | inr more ↦ elim (Bool-cases (is_visible e)) [
          | inl seen ↦ rw (step-seen e acc more seen) (
              rw (listing-seen e es more seen) (
                list_dir_fold max es (acc ++ info_of e ∷ [])
                  (omega (arith, length-append acc (info_of e ∷ [])))
                ∙ ap (λ t. (t, true))
                    (filled-more max acc (listing es) (info_of e) (ground arith))))
          | inr hidden ↦
              rw (step-hidden e acc more hidden)
                (rw (listing-hidden e es more hidden) (list_dir_fold max es acc h))
        ]
      ])
]

-- `fat32_list_dir` of an initialized file system into a buffer for at least one entry, where the clusters of the root
-- directory can be read and with a round for each of them and one more, returns the files and directories before the
-- end of the directory, in order, as many as there are and as the buffer holds: no deleted entry, no part of a long
-- name, no volume label, and none twice.
pub list_dir-listing :
    (fuel : ℕ) (disk : Disk) (fs : Fs) (max : ℕ) (ds : List ℕ) (es : List DirEntry)
    → length ds < fuel
    → fs.initialized ≡ true
    → 0 < max
    → Links disk fs fs.root_dir_cluster ds
    → DirectoryHas disk fs ds es
    → list_dir fuel disk fs max ≡ some (take max (listing es), true)
unfolding list_dir
list_dir-listing fuel disk fs max ds es h init pos links has =
    let go : (not fs.initialized || max == 0) ≡ false = ground arith in
    rw go (
      scan_chain-fold_entries disk fs list_dir_step (full max) (λ entries. (entries, false))
        (λ entries. (entries, true)) fuel fs.root_dir_cluster [] ds es h links has
      ∙ ap some (
          list_dir_fold max es [] (omega arith)
          ∙ ap (λ t. (t, true)) (filled-empty max (listing es))))
