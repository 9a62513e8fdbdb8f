-- ===== src/Fs/Mem/Listing.antt =====
-- `ReadDir` of go/fs.go and the order `jsLess` of go/jsvalue.go by which it sorts. `sort` is
-- `sort.Slice` of the Go library. Go ranges over a map in any order; here it is the list's.
use jostraca.Common.{
  ℕ, Bool, true, false, not, ◌&&◌, ◌||◌, List, [], ◌∷◌, ◌++◌, Option, none, some, Bytes, codes,
  bytes_eq, has_prefix, ◌==◌, ltb, leb, if◌then◌else◌, length, drop, Map, lookup, insert,
}
use jostraca.Fs.Path.{slash, root, mem_clean}
use jostraca.Fs.Mem.{MemFs, Result, ok, fail, not_exist, has_dir}

-- The lead bytes of the two strings where they first differ: a supplementary character comes in
-- front of one of U+E000 to U+FFFF, although its bytes are greater.
abbrev pub lead_less : ℕ → ℕ → Bool
lead_less ca cb =
    let is_lead = ltb ca 128 || leb 192 ca in
    if is_lead && (leb 240 ca && (cb == 238 || cb == 239))
    then true
    else if is_lead && (leb 240 cb && (ca == 238 || ca == 239))
    then false
    else ltb ca cb

unfoldable pub js_less : Bytes → Bytes → Bool
js_less [] [] = false
js_less [] (y ∷ b) = true
js_less (x ∷ a) [] = false
js_less (x ∷ a) (y ∷ b) = let rest = js_less a b in if x == y then rest else lead_less x y

pub record DirEntry : Type 0 where
  pub name : Bytes
  pub is_dir : Bool

-- The part of `rest` in front of its first slash, and whether it has one.
unfoldable pub first_name : Bytes → Bytes × Bool
first_name [] = ([], false)
first_name (c ∷ rest) =
    let (name, found) = first_name rest in if c == slash then ([], true) else (c ∷ name, found)

abbrev pub is_blank : Bytes → Bool
is_blank [] = true
is_blank (c ∷ s) = false

abbrev is_some : Option DirEntry → Bool
is_some none = false
is_some (some e) = true

-- A round of the two loops; a directory's entry is one whether a slash follows or not.
unfoldable pub add_entry : Bytes → Bool → Bytes → Map DirEntry → Map DirEntry
unfolding first_name lookup insert has_prefix
add_entry prefix from_dirs key seen =
    let rest = drop (length prefix) key in
    let (name, found) = first_name rest in
    if not (has_prefix key prefix) || (is_blank rest || is_some (lookup name seen))
    then seen
    else insert name (record { name = name; is_dir = from_dirs || found }) seen

unfoldable pub add_entries {ℓ} : {A : Type ℓ} → Bytes → Bool → Map A → Map DirEntry → Map DirEntry
unfolding add_entry
add_entries prefix from_dirs [] seen = seen
add_entries prefix from_dirs ((k, v) ∷ m) seen =
    add_entries prefix from_dirs m (add_entry prefix from_dirs k seen)

unfoldable pub names {ℓ} : {A : Type ℓ} → Map A → List Bytes
names [] = []
names ((k, v) ∷ m) = k ∷ names m

-- `seen[n]` for each name.
unfoldable pub entries : Map DirEntry → List Bytes → List DirEntry
unfolding lookup
entries seen [] = []
entries seen (n ∷ ns) =
    elim (lookup n seen) [ none ↦ record { name = []; is_dir = false } | some e ↦ e ]
    ∷ entries seen ns

unfoldable pub read_dir :
    ((Bytes → Bytes → Bool) → List Bytes → List Bytes)
    → Option Bytes
    → MemFs
    → Bytes
    → Result (List DirEntry)
unfolding mem_clean add_entries names entries js_less has_dir bytes_eq
read_dir sort wd m p =
    let cp = mem_clean wd p in
    let prefix = if bytes_eq cp root then cp else cp ++ slash ∷ [] in
    let seen = add_entries prefix true m.dirs (add_entries prefix false m.files []) in
    if not (bytes_eq cp root) && not (has_dir cp m.dirs)
    then fail (codes "readdir") p not_exist
    else ok (entries seen (sort js_less (names seen)))
