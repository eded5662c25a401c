-- ===== src/Fat32/Dir/Scan.antt =====
-- The walk along a directory of kernel/fat32.c is a fold over the entries of its chain.
use magnos.Base.{
  ℕ, zero, suc, ◌+◌, ◌%◌, ◌^◌, ◌<◌, ◌≡◌, refl, sym, ◌∙◌, ap, Bool, true, false, not, ◌&&◌, List, [],
  ◌∷◌, ◌++◌, Option, some, ltb, if◌then◌else◌, length, Bool-cases, inl, inr, arith,
}
use magnos.Disk.{Sector, Disk}
use magnos.Fat32.{Fs, cluster_eoc, cluster_to_sector, get_next_cluster}
use magnos.Fat32.Chains.{Links}
use magnos.Fat32.Dir.{
  DirEntry, entry_of, Step, next, stop, and_then, result_of, scan_entries, scan_sector,
  scan_cluster, scan_chain,
}

-- The entries of a sector, `n` from number `j` on.
abbrev pub sector_entries : Sector → ℕ → ℕ → List DirEntry
sector_entries s zero j = []
sector_entries s (suc n) j = entry_of s j ∷ sector_entries s n (j + 1)

-- `n` sectors from number `sector + i` on can be read and hold these entries.
abbrev pub ClusterHas : Disk → Fs → ℕ → ℕ → ℕ → List DirEntry → Type 0
ClusterHas disk fs sector zero i es = es ≡ []
ClusterHas disk fs sector (suc n) i es =
    (s : Sector) × (rest : List DirEntry) × (disk fs.drive ((sector + i) % 2 ^ 32) ≡ some s)
    × ClusterHas disk fs sector n (i + 1) rest
    × (es ≡ sector_entries s 16 0 ++ rest)

-- The clusters can be read and hold these entries.
abbrev pub DirectoryHas : Disk → Fs → List ℕ → List DirEntry → Type 0
DirectoryHas disk fs [] es = es ≡ []
DirectoryHas disk fs (d ∷ ds) es =
    (here : List DirEntry) × (rest : List DirEntry) × ClusterHas disk fs (cluster_to_sector fs d)
      fs.bpb.sectors_per_cluster 0 here
    × DirectoryHas disk fs ds rest
    × (es ≡ here ++ rest)

and_then_cong :
    {S R : Type 0} (m : Step S R) (k k' : S → Step S R)
    → ((s : S) → k s ≡ k' s)
    → and_then m k ≡ and_then m k'
and_then_cong (next s) k k' e = e s
and_then_cong (stop r) k k' e = refl

and_then_assoc :
    {S R : Type 0} (m : Step S R) (k k' : S → Step S R)
    → and_then (and_then m k) k' ≡ and_then m (λ s. and_then (k s) k')
and_then_assoc (next s) k k' = refl
and_then_assoc (stop r) k k' = refl

module _ {S R : Type 0} (step : DirEntry → S → Step S R) (full : S → Bool) where
  -- The body of the loop, entry by entry.
  unfoldable pub fold_entries : List DirEntry → S → Step S R
  fold_entries [] s = next s
  fold_entries (e ∷ es) s =
      if full s then next s else and_then (step e s) (λ s'. fold_entries es s')

  fold_entries-full : (es : List DirEntry) (s : S) → full s ≡ true → fold_entries es s ≡ next s
  unfolding fold_entries
  fold_entries-full [] s e = refl
  fold_entries-full (x ∷ es) s e = rw e refl

  fold_entries-append :
      (xs ys : List DirEntry) (s : S)
      → fold_entries (xs ++ ys) s ≡ and_then (fold_entries xs s) (λ s'. fold_entries ys s')
  unfolding fold_entries
  fold_entries-append [] ys s = refl
  fold_entries-append (x ∷ xs) ys s = elim (Bool-cases (full s)) [
    | inl e ↦ rw e (sym (fold_entries-full ys s e))
    | inr e ↦ rw e (
        and_then_cong (step x s) (λ s'. fold_entries (xs ++ ys) s') _
          (λ s'. fold_entries-append xs ys s')
        ∙ sym (and_then_assoc (step x s) (λ s'. fold_entries xs s') (λ s'. fold_entries ys s')))
  ]

-- What a function returns at the end of its walk.
abbrev pub conclude : {S R : Type 0} → (S → R) → Step S R → R
conclude finish (next s) = finish s
conclude finish (stop r) = r

result_of-conclude :
    {S R : Type 0} (finish : S → R) (m : Step S R) (k : S → Option R) (k' : S → Step S R)
    → ((s : S) → k s ≡ some (conclude finish (k' s)))
    → result_of m k ≡ some (conclude finish (and_then m k'))
result_of-conclude finish (next s) k k' e = e s
result_of-conclude finish (stop r) k k' e = refl

module _ {S R : Type 0} (disk : Disk) (fs : Fs) (step : DirEntry → S → Step S R) (full : S → Bool)
    (fail finish : S → R) where
  scan_entries_lem :
      (sector : Sector) (n j : ℕ) (s : S)
      → scan_entries disk fs step full fail finish sector n j s
        ≡ fold_entries step full (sector_entries sector n j) s
  unfolding scan_entries fold_entries
  scan_entries_lem sector zero j s = refl
  scan_entries_lem sector (suc n) j s = elim (Bool-cases (full s)) [
    | inl e ↦ rw e refl
    | inr e ↦ rw e (
        and_then_cong (step (entry_of sector j) s) _ _ (λ s'. scan_entries_lem sector n (j + 1) s'))
  ]

  scan_cluster_lem :
      (sector n i : ℕ) (s : S) (es : List DirEntry)
      → ClusterHas disk fs sector n i es
      → scan_cluster disk fs step full fail finish sector n i s ≡ fold_entries step full es s
  unfolding scan_cluster scan_sector fold_entries
  scan_cluster_lem sector zero i s es has = rw has refl
  scan_cluster_lem sector (suc n) i s es (sec, rest, found, has, parts) = rw found (
      rw parts (
        ap (λ m. and_then m (λ s'. scan_cluster disk fs step full fail finish sector n (i + 1) s'))
          (scan_entries_lem sec 16 0 s)
        ∙ and_then_cong (fold_entries step full (sector_entries sec 16 0) s) _ _
            (λ s'. scan_cluster_lem sector n (i + 1) s' rest has)
        ∙ sym (fold_entries-append step full (sector_entries sec 16 0) rest s)))

  scan_chain-full :
      (fuel cluster : ℕ) (s : S)
      → (ltb cluster cluster_eoc && not (full s)) ≡ false
      → scan_chain disk fs step full fail finish (suc fuel) cluster s ≡ some (finish s)
  unfolding scan_chain
  scan_chain-full fuel cluster s e = rw e refl

  scan_chain_go :
      (fuel cluster : ℕ) (s : S)
      → (ltb cluster cluster_eoc && not (full s)) ≡ true
      → scan_chain disk fs step full fail finish (suc fuel) cluster s
        ≡ result_of
            (scan_cluster disk fs step full fail finish
              (cluster_to_sector fs cluster)
              fs.bpb.sectors_per_cluster
              0
              s)
            (λ s'.
              scan_chain disk fs step full fail finish fuel (get_next_cluster disk fs cluster) s')
  unfolding scan_chain
  scan_chain_go fuel cluster s e = rw e refl

  -- The walk along a chain whose clusters can be read ends, with a round for each cluster and one more, and it is the
  -- fold over the entries.
  pub scan_chain-fold_entries :
      (fuel cluster : ℕ) (s : S) (ds : List ℕ) (es : List DirEntry)
      → length ds < fuel
      → Links disk fs cluster ds
      → DirectoryHas disk fs ds es
      → scan_chain disk fs step full fail finish fuel cluster s
        ≡ some (conclude finish (fold_entries step full es s))
  unfolding fold_entries
  scan_chain-fold_entries zero cluster s ds es h links has = absurd (omega arith)
  scan_chain-fold_entries (suc fuel) cluster s [] es h links has =
      scan_chain-full fuel cluster s (ground arith) ∙ rw has refl
  scan_chain-fold_entries (suc fuel) cluster s (d ∷ ds) es h (c, lt, links)
        (here, rest, first, others, parts) =
      elim (Bool-cases (full s)) [
        | inl e ↦
            scan_chain-full fuel cluster s (ground arith)
            ∙ sym (ap (λ m. some (conclude finish m)) (fold_entries-full step full es s e))
        | inr e ↦ rw c (
            scan_chain_go fuel d s (ground arith)
            ∙ ap
                (λ m. result_of m (λ s'.
                  scan_chain disk fs step full fail finish fuel (get_next_cluster disk fs d) s'))
                (scan_cluster_lem (cluster_to_sector fs d) fs.bpb.sectors_per_cluster 0 s here
                  first)
            ∙ result_of-conclude finish (fold_entries step full here s) _
                (λ s'. fold_entries step full rest s')
                (λ s'.
                  scan_chain-fold_entries fuel (get_next_cluster disk fs d) s' ds rest (omega arith)
                    links others)
            ∙ sym (
                ap (λ m. some (conclude finish m))
                  (ap (λ t. fold_entries step full t s) parts
                    ∙ fold_entries-append step full here rest s)))
      ]
