-- ===== src/BuildMeta.antt =====
-- `buildMeta` of go/buildmeta.go: the record that a build keeps of its files.
pub mod Order
pub mod Encode
pub mod Json
pub mod Lines
pub mod Stringify
pub mod Prior
use jostraca.Common.{
  ℕ, zero, suc, ◌+◌, Bool, List, [], ◌∷◌, ◌++◌, Option, none, some, Bytes, codes, bytes_eq,
  if◌then◌else◌, length, Map, lookup, insert,
}

pub record MetaEntry : Type 0 where
  pub path : Bytes
  pub action : Bytes
  pub exists : Bool
  pub actions : List Bytes
  pub protect : Bool
  pub conflict : Bool
  pub when : ℕ
  pub fingerprints : Option (List Bytes)

-- An entry that `byPath` points to is the one at a place in `files`, which only grows.
pub record MetaSnapshot : Type 0 where
  pub files : List MetaEntry
  pub by_path : Map ℕ

abbrev pub new_snapshot : MetaSnapshot
new_snapshot = record { files = []; by_path = [] }

-- `*prev = *e`, for the entry at a place.
unfoldable pub set_entry : ℕ → MetaEntry → List MetaEntry → List MetaEntry
set_entry i e [] = []
set_entry zero e (f ∷ files) = e ∷ files
set_entry (suc i) e (f ∷ files) = f ∷ set_entry i e files

unfoldable pub add : MetaEntry → MetaSnapshot → MetaSnapshot
unfolding lookup insert set_entry
add e s = elim (lookup e.path s.by_path) [
  | some i ↦ record s { files = set_entry i e s.files }
  | none ↦ record { files = s.files ++ e ∷ []; by_path = insert e.path (length s.files) s.by_path }
]

unfoldable pub add_all : List MetaEntry → MetaSnapshot → MetaSnapshot
unfolding add
add_all [] s = s
add_all (e ∷ es) s = add_all es (add e s)
