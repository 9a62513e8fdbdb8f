-- ===== src/Build/Names.antt =====
-- Names and output paths of go/build.go and go/filehandler.go. `clean` is `path.Clean` of the Go
-- library, a parameter.
pub mod Contained
pub mod Within
use jostraca.Common.{
  ℕ, Bool, true, false, not, ◌&&◌, ◌||◌, List, [], ◌∷◌, ◌++◌, Option, none, some, Bytes, codes,
  bytes_eq, ◌==◌, has_prefix, if◌then◌else◌,
}
use jostraca.Fs.Path.{slash, backslash, colon, root, is_drive_letter, fold, push, join_parts}

-- `len(p) >= 3` and the tests of the first three bytes.
abbrev pub is_drive_path : Bytes → Bool
is_drive_path (a ∷ b ∷ c ∷ p) = is_drive_letter a && (b == colon && (c == slash || c == backslash))
is_drive_path _ = false

unfoldable pub is_abs_from_path_on : Bytes → Bool → Bool
unfolding is_drive_letter
is_abs_from_path_on [] windows = false
is_abs_from_path_on (c ∷ p) windows =
    if c == slash
    then true
    else if not windows
    then false
    else if c == backslash
    then true
    else is_drive_path (c ∷ p)

-- The pieces of a name between separators; `strings.FieldsFunc` leaves the empty ones out.
unfoldable pub pieces : Bytes → List Bytes
pieces [] = [] ∷ []
pieces (c ∷ name) =
    let rest = pieces name in if c == slash || c == backslash then [] ∷ rest else push c rest

unfoldable pub fields : List Bytes → List Bytes
fields [] = []
fields ([] ∷ segs) = fields segs
fields ((c ∷ seg) ∷ segs) = (c ∷ seg) ∷ fields segs

unfoldable pub has_traversal : List Bytes → Bool
unfolding bytes_eq
has_traversal [] = false
has_traversal (seg ∷ segs) = bytes_eq seg (codes "..") || has_traversal segs

-- Whether `validName` returns no error; the error has the kind and the name.
unfoldable pub valid_name : Bytes → Bool
unfolding pieces fields has_traversal
valid_name [] = true
valid_name (c ∷ name) = not (has_traversal (fields (pieces (c ∷ name))))

-- `strings.HasSuffix(s, "/")`.
unfoldable pub ends_slash : Bytes → Bool
ends_slash [] = false
ends_slash (c ∷ []) = c == slash
ends_slash (c ∷ d ∷ s) = ends_slash (d ∷ s)

-- The values of a file's `exclude` that match something: a bool, a string, a list of strings, and a
-- list of any values, of which those that are no strings are `none`.
pub data Exclude : Type 0 where
  unset : Exclude
  flag : Bool → Exclude
  text : Bytes → Exclude
  texts : List Bytes → Exclude
  values : List (Option Bytes) → Exclude

unfoldable pub any_text : List Bytes → Bytes → Bool
unfolding bytes_eq
any_text [] rpath = false
any_text (s ∷ ss) rpath = bytes_eq s rpath || any_text ss rpath

unfoldable pub any_value : List (Option Bytes) → Bytes → Bool
unfolding bytes_eq
any_value [] rpath = false
any_value (none ∷ xs) rpath = any_value xs rpath
any_value (some s ∷ xs) rpath = bytes_eq s rpath || any_value xs rpath

unfoldable pub file_excluded : List Bytes → Exclude → Bool
unfolding any_text any_value join_parts
file_excluded path unset = false
file_excluded path (flag b) = b
file_excluded path (text s) = bytes_eq s (join_parts path)
file_excluded path (texts ss) = any_text ss (join_parts path)
file_excluded path (values xs) = any_value xs (join_parts path)

abbrev pub is_blank : Bytes → Bool
is_blank [] = true
is_blank (c ∷ s) = false

module _ (clean : Bytes → Bytes) where
  unfoldable pub canon_out_path : Bytes → Bytes
  unfolding fold ends_slash
  canon_out_path p =
      let f = fold p in
      let c = clean f in if ends_slash f && not (ends_slash c) then c ++ slash ∷ [] else c

  -- The path that `fileBefore` composes.
  unfoldable pub file_path : Bytes → List Bytes → Bytes → Bytes
  unfolding canon_out_path join_parts
  file_path parent path name =
      let dir = join_parts path in
      canon_out_path
        (if is_blank dir then parent ++ slash ∷ name else parent ++ slash ∷ (dir ++ slash ∷ name))

  -- The parent folder that `projectBefore` composes.
  unfoldable pub project_parent : Bool → Bytes → Bytes → Bytes
  unfolding is_abs_from_path_on fold
  project_parent windows st_folder n_folder =
      let folder = if is_blank st_folder then codes "." else st_folder in
      let parent =
        if is_blank n_folder
        then folder
        else if is_abs_from_path_on n_folder windows
        then n_folder
        else folder ++ slash ∷ n_folder in
      clean (fold parent)

  -- Whether a path lies within the output folder, on a separator boundary.
  unfoldable pub within_folder : Bool → Bytes → Bytes → Bool
  unfolding is_abs_from_path_on fold bytes_eq has_prefix
  within_folder windows folder p =
      let c = clean (fold p) in
      if bytes_eq folder (codes ".")
      then not (is_abs_from_path_on p windows)
        && (not (bytes_eq c (codes "..")) && not (has_prefix c (codes "../")))
      else if bytes_eq folder root
      then has_prefix p root
      else bytes_eq p folder || has_prefix p (folder ++ slash ∷ [])
