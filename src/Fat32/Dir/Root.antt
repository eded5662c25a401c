-- ===== src/Fat32/Dir/Root.antt =====
-- The count that `fat32_list_root` of kernel/fat32.c returns.
use magnos.Base.{
  ℕ, ◌+◌, ◌<◌, ◌≡◌, refl, ◌∙◌, ap, true, false, not, List, [], ◌∷◌, Option, some, none, ◌==◌,
  length, Bool-cases, inl, inr, arith, text,
}
use magnos.Disk.{Disk}
use magnos.Vga
use magnos.Vga.{Vga}
use magnos.Fat32.{Fs}
use magnos.Fat32.Chains.{Links}
use magnos.Fat32.Dir.{
  DirEntry, first_byte, next, stop, print_total, print_entry, list_root_step, list_root,
}
use magnos.Fat32.Dir.Scan.{DirectoryHas, fold_entries, conclude, scan_chain-fold_entries}
use magnos.Fat32.Dir.Listing.{
  is_visible, listing, listing-nil, listing-end, listing-seen, listing-hidden,
}

root_step-end :
    (e : DirEntry) (v : Vga) (n : ℕ)
    → (first_byte e == 0) ≡ true
    → list_root_step e (v, n) ≡ stop (print_total v n, some n)
unfolding list_root_step
root_step-end e v n h = rw h refl

root_step-seen :
    (e : DirEntry) (v : Vga) (n : ℕ)
    → (first_byte e == 0) ≡ false
    → is_visible e ≡ true
    → list_root_step e (v, n) ≡ next (print_entry v e, n + 1)
unfolding list_root_step is_visible
root_step-seen e v n h s = ground arith

root_step-hidden :
    (e : DirEntry) (v : Vga) (n : ℕ)
    → (first_byte e == 0) ≡ false
    → is_visible e ≡ false
    → list_root_step e (v, n) ≡ next (v, n)
unfolding list_root_step is_visible
root_step-hidden e v n h s = ground arith

abbrev finish : Vga × ℕ → Vga × Option ℕ
finish s = (print_total s.0 s.1, some s.1)

root_fold :
    (es : List DirEntry) (v : Vga) (n : ℕ)
    → (conclude finish (fold_entries list_root_step (λ s. false) es (v, n))).1
      ≡ some (n + length (listing es))
unfolding fold_entries
root_fold [] v n = rw listing-nil (ap some (omega arith))
root_fold (e ∷ es) v n = elim (Bool-cases (first_byte e == 0)) [
  | inl end ↦ rw (root_step-end e v n end) (rw (listing-end e es end) (ap some (omega arith)))
  | inr more ↦ elim (Bool-cases (is_visible e)) [
    | inl seen ↦ rw (root_step-seen e v n more seen) (
        rw (listing-seen e es more seen)
          (root_fold es (print_entry v e) (n + 1) ∙ ap some (omega arith)))
    | inr hidden ↦
        rw (root_step-hidden e v n more hidden)
          (rw (listing-hidden e es more hidden) (root_fold es v n))
  ]
]

-- `fat32_list_root` of an initialized file system, where the clusters of the root directory can be read and with a
-- round for each of them and one more, returns the number of files and directories before the end of the directory:
-- of the entries that `fat32_list_dir` would list into a buffer without bound.
pub list_root-listing :
    (fuel : ℕ) (disk : Disk) (fs : Fs) (v : Vga) (ds : List ℕ) (es : List DirEntry)
    → length ds < fuel
    → fs.initialized ≡ true
    → Links disk fs fs.root_dir_cluster ds
    → DirectoryHas disk fs ds es
    → (v' : Vga) × (list_root fuel disk fs v ≡ some (v', some (length (listing es))))
unfolding list_root
list_root-listing fuel disk fs v ds es h init links has =
    let go : (not fs.initialized) ≡ false = ground arith in
    let v2 : Vga =
      Vga.puts (Vga.puts v (text "Files in root directory:\n"))
        (text "------------------------\n") in
    let result = conclude finish (fold_entries list_root_step (λ s. false) es (v2, 0)) in
    (
      result.0,
      rw go (
          scan_chain-fold_entries disk fs list_root_step (λ s. false) (λ s. (s.0, none)) finish fuel
            fs.root_dir_cluster (v2, 0) ds es h links has
          ∙ ap (λ c. some (result.0, c)) (root_fold es v2 0 ∙ ap some (omega arith))),
    )
