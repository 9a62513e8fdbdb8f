-- ===== src/Fs/Path.antt =====
-- The path functions of go/fs.go. A path is its bytes. The working directory, `os.Getwd`, is a
-- parameter, with an error as `none`.
pub mod Canonical
pub mod Parent
use jostraca.Common.{
  ℕ, zero, suc, ◌+◌, ◌-◌, Bool, true, false, ◌&&◌, ◌||◌, List, [], ◌∷◌, ◌++◌, map, Option, none,
  some, Bytes, codes, bytes_eq, ◌==◌, ltb, leb, has_prefix, if◌then◌else◌, length, take, drop,
}

abbrev pub slash : ℕ
slash = 47

abbrev pub backslash : ℕ
backslash = 92

abbrev pub colon : ℕ
colon = 58

abbrev pub root : Bytes
root = slash ∷ []

unfoldable pub is_drive_letter : ℕ → Bool
is_drive_letter c = (leb 97 c && leb c 122) || (leb 65 c && leb c 90)

unfoldable pub is_drive_key : Bytes → Bool
unfolding is_drive_letter
is_drive_key (a ∷ b ∷ c ∷ s) = is_drive_letter a && (b == colon && c == slash)
is_drive_key _ = false

-- `strings.ReplaceAll(s, "\\", "/")`.
unfoldable pub fold : Bytes → Bytes
fold [] = []
fold (c ∷ s) = (if c == backslash then slash else c) ∷ fold s

abbrev pub push : ℕ → List Bytes → List Bytes
push c [] = (c ∷ []) ∷ []
push c (part ∷ parts) = (c ∷ part) ∷ parts

-- `strings.Split(s, "/")`, which has at least one part.
unfoldable pub split : Bytes → List Bytes
split [] = [] ∷ []
split (c ∷ s) = let rest = split s in if c == slash then [] ∷ rest else push c rest

-- `strings.Join(parts, "/")`.
unfoldable pub join_parts : List Bytes → Bytes
join_parts [] = []
join_parts (part ∷ []) = part
join_parts (part ∷ next ∷ parts) = part ++ slash ∷ join_parts (next ∷ parts)

-- The `switch` over a part.
unfoldable pub add_part : Bytes → List Bytes → List Bytes
unfolding bytes_eq
add_part part parts =
    if bytes_eq part [] || bytes_eq part (codes ".")
    then parts
    else if bytes_eq part (codes "..")
    then take (length parts - 1) parts
    else parts ++ part ∷ []

unfoldable pub resolve : List Bytes → List Bytes → List Bytes
unfolding add_part
resolve [] parts = parts
resolve (part ∷ rest) parts = resolve rest (add_part part parts)

abbrev pub mem_cwd : Option Bytes → Bytes
mem_cwd none = root
mem_cwd (some wd) = fold wd

-- The path made absolute.
abbrev pub make_absolute : Option Bytes → Bytes → Bytes
make_absolute wd s = if is_drive_key s || has_prefix s root then s else mem_cwd wd ++ slash ∷ s

-- The drive of an absolute path.
abbrev pub drive : Bytes → Bytes
drive s = if is_drive_key s then take 2 s else []

abbrev pub behind_drive : Bytes → Bytes
behind_drive s = if is_drive_key s then drop 2 s else s

unfoldable pub mem_clean : Option Bytes → Bytes → Bytes
unfolding fold is_drive_key has_prefix resolve split join_parts
mem_clean wd p =
    let s = make_absolute wd (fold p) in
    drive s ++ slash ∷ join_parts (resolve (split (behind_drive s)) [])

-- `strings.LastIndex(s, "/")`, with -1 as `none`.
unfoldable pub last_slash : Bytes → Option ℕ
last_slash [] = none
last_slash (c ∷ s) = elim (last_slash s) [
  | some i ↦ some (suc i)
  | none ↦ if c == slash then some 0 else none
]

unfoldable pub mem_parent : Bytes → Bytes
unfolding last_slash
mem_parent p = elim (last_slash p) [ none ↦ [] | some i ↦ take i p ]

unfoldable pub path_base : Bytes → Bytes
unfolding last_slash
path_base p = elim (last_slash p) [ none ↦ p | some i ↦ drop (i + 1) p ]
