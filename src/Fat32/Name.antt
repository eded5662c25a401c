-- ===== src/Fat32/Name.antt =====
-- Names in kernel/fat32.c: the 11 bytes of an entry, padded with spaces, and strings.
pub mod RoundTrip
use magnos.Base.{
  ℕ, zero, suc, ◌+◌, ◌-◌, Bool, true, false, not, ◌&&◌, ◌||◌, List, [], ◌∷◌, ◌++◌, ltb, ◌==◌,
  if◌then◌else◌, replicate, take, drop, set, get_or,
}

abbrev pub space : ℕ
space = 32

abbrev pub dot : ℕ
dot = 46

-- The bytes before the first space, `n` at most.
unfoldable pub until_space : ℕ → List ℕ → List ℕ
until_space zero cs = []
until_space (suc n) [] = []
until_space (suc n) (c ∷ cs) = let rest = until_space n cs in if c == space then [] else c ∷ rest

-- `fat32_name_to_string`
unfoldable pub name_to_string : List ℕ → List ℕ
name_to_string fat_name =
    let name = until_space 8 fat_name in
    if not (get_or fat_name 8 0 == space)
    then name ++ dot ∷ until_space 3 (drop 8 fat_name)
    else name

-- The copy loops of `fat32_string_to_name`: from the string to `fat_name`, starting at index `i`.
unfoldable pub copy_name : ℕ → ℕ → List ℕ → List ℕ → List ℕ
copy_name zero i cs fat_name = fat_name
copy_name (suc n) i [] fat_name = fat_name
copy_name (suc n) i (c ∷ cs) fat_name =
    let rest = copy_name n (i + 1) cs (set fat_name i c) in if c == dot then fat_name else rest

unfoldable pub copy_extension : ℕ → ℕ → List ℕ → List ℕ → List ℕ
copy_extension zero i cs fat_name = fat_name
copy_extension (suc n) i [] fat_name = fat_name
copy_extension (suc n) i (c ∷ cs) fat_name = copy_extension n (i + 1) cs (set fat_name i c)

-- The string behind the first dot, or nothing.
unfoldable pub extension : List ℕ → List ℕ
extension [] = []
extension (c ∷ cs) = let rest = extension cs in if c == dot then cs else rest

-- `fat32_string_to_name`; without a dot nothing is copied into the extension.
unfoldable pub string_to_name : List ℕ → List ℕ
string_to_name input =
    copy_extension 3 8 (extension input) (copy_name 8 0 input (replicate 11 space))

-- `strncmp`: whether it returns 0. A string that ends reads as its terminator 0.
unfoldable pub strncmp_equal : ℕ → List ℕ → List ℕ → Bool
strncmp_equal zero s t = true
strncmp_equal (suc n) s t =
    let rest = strncmp_equal n (drop 1 s) (drop 1 t) in
    if not (get_or s 0 0 == 0) && get_or s 0 0 == get_or t 0 0
    then rest
    else get_or s 0 0 == get_or t 0 0
