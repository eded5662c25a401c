-- ===== src/Fat32/Name/RoundTrip.antt =====
-- The two conversions of names in kernel/fat32.c, one after the other.
use magnos.Base.{
  ℕ, zero, suc, ◌+◌, ◌≤◌, ◌≡◌, refl, sym, ◌∙◌, ap, ap₂, true, false, not, List, [], ◌∷◌, ◌++◌, ◌==◌,
  if◌then◌else◌, replicate, drop, set, get_or, length, length-append, append-nil, append_assoc,
  Each, arith,
}
use magnos.Fat32.Name.{
  space, dot, until_space, name_to_string, copy_name, copy_extension, extension, string_to_name,
}

-- The word filled up with spaces.
pub pad : ℕ → List ℕ → List ℕ
pad zero w = []
pad (suc n) [] = space ∷ pad n []
pad (suc n) (c ∷ w) = c ∷ pad n w

abbrev pub NoSpace : ℕ → Type 0
NoSpace c = (c == space) ≡ false

abbrev pub NoDot : ℕ → Type 0
NoDot c = (c == dot) ≡ false

until_space-pad :
    (n : ℕ) (w r : List ℕ) → length w ≤ n → Each NoSpace w → until_space n (pad n w ++ r) ≡ w
unfolding until_space pad
until_space-pad zero [] r h e = refl
until_space-pad zero (c ∷ w) r h e = absurd (omega arith)
until_space-pad (suc n) [] r h e = refl
until_space-pad (suc n) (c ∷ w) r h e =
    rw e.0 (ap (λ t. c ∷ t) (until_space-pad n w r (omega arith) e.1))

drop-pad : (n : ℕ) (w r : List ℕ) → drop n (pad n w ++ r) ≡ r
unfolding pad
drop-pad zero w r = refl
drop-pad (suc n) [] r = drop-pad n [] r
drop-pad (suc n) (c ∷ w) r = drop-pad n w r

get_or-pad : (n : ℕ) (w r : List ℕ) → get_or (pad n w ++ r) n 0 ≡ get_or r 0 0
unfolding pad
get_or-pad zero w r = refl
get_or-pad (suc n) [] r = get_or-pad n [] r
get_or-pad (suc n) (c ∷ w) r = get_or-pad n w r

length-pad : (n : ℕ) (w : List ℕ) → length (pad n w) ≡ n
unfolding pad
length-pad zero w = refl
length-pad (suc n) [] = ap suc (length-pad n [])
length-pad (suc n) (c ∷ w) = ap suc (length-pad n w)

set-append : (p : List ℕ) (x v : ℕ) (r : List ℕ) → set (p ++ x ∷ r) (length p) v ≡ p ++ v ∷ r
set-append [] x v r = refl
set-append (y ∷ p) x v r = ap (λ t. y ∷ t) (set-append p x v r)

-- What stands behind the copied part of a name: nothing, or a dot.
abbrev Stops : List ℕ → Type 0
Stops [] = Unit {0}
Stops (c ∷ cs) = (c == dot) ≡ true

snoc_length : (p : List ℕ) (c : ℕ) → length p + 1 ≡ length (p ++ c ∷ [])
snoc_length p c = sym (length-append p (c ∷ []))

copy_name-pad :
    (n : ℕ) (p w t q : List ℕ)
    → length w ≤ n
    → Each NoDot w
    → Stops t
    → copy_name n (length p) (w ++ t) (p ++ (pad n [] ++ q)) ≡ p ++ (pad n w ++ q)
unfolding copy_name pad
copy_name-pad zero p [] t q h e s = refl
copy_name-pad zero p (c ∷ w) t q h e s = absurd (omega arith)
copy_name-pad (suc n) p [] [] q h e s = refl
copy_name-pad (suc n) p [] (d ∷ t) q h e s = rw s refl
copy_name-pad (suc n) p (c ∷ w) t q h e s = rw e.0 (
    ap₂ (λ i name. copy_name n i (w ++ t) name) (snoc_length p c)
      (set-append p space c (pad n [] ++ q) ∙ sym (append_assoc p (c ∷ []) (pad n [] ++ q)))
    ∙ copy_name-pad n (p ++ c ∷ []) w t q (omega arith) e.1 s
    ∙ append_assoc p (c ∷ []) (pad n w ++ q))

copy_extension-pad :
    (n : ℕ) (p w q : List ℕ)
    → length w ≤ n
    → copy_extension n (length p) w (p ++ (pad n [] ++ q)) ≡ p ++ (pad n w ++ q)
unfolding copy_extension pad
copy_extension-pad zero p [] q h = refl
copy_extension-pad zero p (c ∷ w) q h = absurd (omega arith)
copy_extension-pad (suc n) p [] q h = refl
copy_extension-pad (suc n) p (c ∷ w) q h =
    ap₂ (λ i name. copy_extension n i w name) (snoc_length p c)
      (set-append p space c (pad n [] ++ q) ∙ sym (append_assoc p (c ∷ []) (pad n [] ++ q)))
    ∙ copy_extension-pad n (p ++ c ∷ []) w q (omega arith)
    ∙ append_assoc p (c ∷ []) (pad n w ++ q)

extension-none : (w : List ℕ) → Each NoDot w → extension w ≡ []
unfolding extension
extension-none [] e = refl
extension-none (c ∷ w) e = rw e.0 (extension-none w e.1)

extension-dot : (w ext : List ℕ) → Each NoDot w → extension (w ++ dot ∷ ext) ≡ ext
unfolding extension
extension-dot [] ext e = refl
extension-dot (c ∷ w) ext e = rw e.0 (extension-dot w ext e.1)

name_to_string-pad :
    (stem ext : List ℕ)
    → length stem ≤ 8
    → length ext ≤ 3
    → Each NoSpace stem
    → Each NoSpace ext
    → name_to_string (pad 8 stem ++ pad 3 ext)
      ≡ (if not (get_or (pad 3 ext) 0 0 == space) then stem ++ dot ∷ ext else stem)
unfolding name_to_string
name_to_string-pad stem ext h h' e e' =
    let tail : until_space 3 (pad 3 ext) ≡ ext =
      ap (until_space 3) (sym (append-nil (pad 3 ext))) ∙ until_space-pad 3 ext [] h' e' in
    rw (get_or-pad 8 stem (pad 3 ext)) (
      rw (drop-pad 8 stem (pad 3 ext)) (rw (until_space-pad 8 stem (pad 3 ext) h e) (rw tail refl)))

name_to_string-stem :
    (stem : List ℕ)
    → length stem ≤ 8
    → Each NoSpace stem
    → name_to_string (pad 8 stem ++ pad 3 []) ≡ stem ++ []
unfolding pad
name_to_string-stem stem h e =
    name_to_string-pad stem [] h (omega arith) e tt ∙ sym (append-nil stem)

name_to_string-dotted :
    (stem : List ℕ) (c : ℕ) (ext : List ℕ)
    → length stem ≤ 8
    → length (c ∷ ext) ≤ 3
    → Each NoSpace stem
    → Each NoSpace (c ∷ ext)
    → name_to_string (pad 8 stem ++ pad 3 (c ∷ ext)) ≡ stem ++ dot ∷ c ∷ ext
unfolding pad
name_to_string-dotted stem c ext h h' e e' =
    name_to_string-pad stem (c ∷ ext) h h' e e' ∙ rw e'.0 refl

blank : replicate 11 space ≡ pad 8 [] ++ (pad 3 [] ++ [])
unfolding pad
blank = refl

string_to_name-pad :
    (stem t ext : List ℕ)
    → length stem ≤ 8
    → length ext ≤ 3
    → Each NoDot stem
    → Stops t
    → extension (stem ++ t) ≡ ext
    → string_to_name (stem ++ t) ≡ pad 8 stem ++ pad 3 ext
unfolding string_to_name
string_to_name-pad stem t ext h h' e s x = rw x (
    ap (copy_extension 3 8 ext)
      (ap (copy_name 8 0 (stem ++ t)) blank ∙ copy_name-pad 8 [] stem t (pad 3 [] ++ []) h e s)
    ∙ ap (λ i. copy_extension 3 i ext (pad 8 stem ++ (pad 3 [] ++ []))) (sym (length-pad 8 stem))
    ∙ copy_extension-pad 3 (pad 8 stem) ext [] h'
    ∙ ap (λ q. pad 8 stem ++ q) (append-nil (pad 3 ext)))

-- `fat32_string_to_name` gives back what `fat32_name_to_string` was given: a name of the directory whose parts, up to
-- eight characters without dots and up to three, have no spaces but those that fill them up.
pub string_to_name-name_to_string :
    (stem ext : List ℕ)
    → length stem ≤ 8
    → length ext ≤ 3
    → Each NoSpace stem
    → Each NoDot stem
    → Each NoSpace ext
    → string_to_name (name_to_string (pad 8 stem ++ pad 3 ext)) ≡ pad 8 stem ++ pad 3 ext
string_to_name-name_to_string stem [] h h' e d e' =
    ap string_to_name (name_to_string-stem stem h e)
    ∙ string_to_name-pad stem [] [] h h' d tt
        (ap extension (append-nil stem) ∙ extension-none stem d)
string_to_name-name_to_string stem (c ∷ ext) h h' e d e' =
    ap string_to_name (name_to_string-dotted stem c ext h h' e e')
    ∙ string_to_name-pad stem (dot ∷ c ∷ ext) (c ∷ ext) h h' d refl (extension-dot stem (c ∷ ext) d)
