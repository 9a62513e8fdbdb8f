-- ===== src/Tree.antt =====
-- go/tree.go: a component tree that is given as decoded JSON. `node_thunk` makes of a node what its
-- closure holds: what its name resolves to, its own props, the defaults under them, and its children.
-- The texts of errors are left out; where an error is, is the names and indices on the way to it.
pub mod Safe
pub mod Props
use jostraca.Common.{
  ℕ, ◌+◌, Bool, true, false, not, ◌&&◌, ◌||◌, List, [], ◌∷◌, ◌++◌, Option, none, some, Bytes, codes,
  bytes_eq, has_prefix, if◌then◌else◌, Map, lookup, insert,
}
use jostraca.Fs.Path.{root}
use jostraca.Build.Names.{pieces, fields, has_traversal, is_blank}

mutual
  -- A decoded value; a number is the bits of a float64.
  pub data Value : Type 0 where
    null_value : Value
    bool_value : Bool → Value
    number_value : ℕ → Value
    string_value : Bytes → Value
    list_value : Values → Value
    map_value : Fields → Value

  pub data Values : Type 0 where
    no_values : Values
    value : Value → Values → Values

  pub data Fields : Type 0 where
    no_fields : Fields
    field : Bytes → Value → Fields → Fields

abbrev pub to_map : Fields → Map Value
to_map no_fields = []
to_map (field k v fs) = (k, v) ∷ to_map fs

unfoldable mutual
  pub copy_props : Value → Value
  copy_props (list_value vs) = list_value (copy_values vs)
  copy_props (map_value fs) = map_value (copy_fields fs)
  copy_props null_value = null_value
  copy_props (bool_value b) = bool_value b
  copy_props (number_value n) = number_value n
  copy_props (string_value s) = string_value s

  pub copy_values : Values → Values
  copy_values no_values = no_values
  copy_values (value v vs) = value (copy_props v) (copy_values vs)

  pub copy_fields : Fields → Fields
  copy_fields no_fields = no_fields
  copy_fields (field k v fs) = field k (copy_props v) (copy_fields fs)

-- One of the loops of `propsMerge`; the keys of a map differ, so their order is free.
unfoldable pub put_all : (Value → Value) → Map Value → Map Value → Map Value
unfolding insert
put_all f [] out = out
put_all f ((k, v) ∷ m) out = insert k (f v) (put_all f m out)

unfoldable pub props_merge : Map Value → Map Value → Map Value → Map Value
unfolding put_all copy_props
props_merge defaults inherit props =
    put_all copy_props props (put_all (λ v. v) inherit (put_all (λ v. v) defaults []))

pub data Component : Type 0 where
  project_cmp folder_cmp file_cmp content_cmp line_cmp fragment_cmp slot_cmp inject_cmp : Component
  copy_files_cmp list_items_cmp : Component

abbrev pub tree_build : Map Component
tree_build =
    (codes "Project", project_cmp)
    ∷ (codes "Folder", folder_cmp)
    ∷ (codes "File", file_cmp)
    ∷ (codes "Content", content_cmp)
    ∷ (codes "Line", line_cmp)
    ∷ (codes "Fragment", fragment_cmp)
    ∷ (codes "Slot", slot_cmp)
    ∷ (codes "Inject", inject_cmp)
    ∷ (codes "CopyFiles", copy_files_cmp)
    ∷ (codes "ListItems", list_items_cmp)
    ∷ []

abbrev pub tree_cmp_deprecated : Map Component
tree_cmp_deprecated = (codes "Copy", copy_files_cmp) ∷ (codes "List", list_items_cmp) ∷ []

-- The props that a closed component admits; the others are open.
abbrev pub tree_closed_cmp : Component → Option (List Bytes)
tree_closed_cmp fragment_cmp =
    some (codes "from" ∷ codes "indent" ∷ codes "replace" ∷ codes "eject" ∷ codes "item" ∷ [])
tree_closed_cmp copy_files_cmp = some (
    codes "from"
    ∷ codes "to"
    ∷ codes "replace"
    ∷ codes "exclude"
    ∷ codes "item"
    ∷ codes "indent"
    ∷ [])
tree_closed_cmp _ = none

abbrev pub tree_raw_cmp : Component → Bool
tree_raw_cmp content_cmp = true
tree_raw_cmp line_cmp = true
tree_raw_cmp _ = false

-- A caller's own component, or one of the ten.
pub data Target : Type 0 where
  custom : Bytes → Target
  builtin : Component → Target

-- The names and indices from the root to a node.
abbrev pub Place : Type 0
Place = List (Bytes × ℕ)

pub data TreeReason : Type 0 where
  not_object no_name unknown_component props_not_object folder_not_string folder_absolute :
      TreeReason
  folder_traversal prop_not_allowed children_not_array : TreeReason

pub data Outcome {ℓ} (A : Type ℓ) : Type ℓ where
  ok : A → Outcome A
  refused : TreeReason → Place → Outcome A

infixl 5 ◌>>=◌
abbrev pub ◌>>=◌ {ℓ ℓ'} : {A : Type ℓ} {B : Type ℓ'} → Outcome A → (A → Outcome B) → Outcome B
ok a >>= f = f a
refused r at >>= f = refused r at

mutual
  -- What the closure of a node holds.
  pub data Thunk : Type 0 where
    thunk : Target → Map Value → Map Value → Thunks → Thunk

  pub data Thunks : Type 0 where
    no_thunks : Thunks
    next : Thunk → Thunks → Thunks

unfoldable pub member : Bytes → List Bytes → Bool
unfolding bytes_eq
member k [] = false
member k (x ∷ xs) = bytes_eq x k || member k xs

unfoldable pub all_allowed : List Bytes → Map Value → Bool
unfolding member
all_allowed allowed [] = true
all_allowed allowed ((k, v) ∷ props) = member k allowed && all_allowed allowed props

unfoldable pub valid_closed_props : Component → Map Value → Place → Outcome (Unit {0})
unfolding all_allowed
valid_closed_props c props at = elim (tree_closed_cmp c) [
  | none ↦ ok tt
  | some allowed ↦ if all_allowed allowed props then ok tt else refused prop_not_allowed at
]

-- `is_abs` is `filepath.IsAbs`.
unfoldable pub valid_folder_value : (Bytes → Bool) → Option Value → Place → Outcome (Unit {0})
unfolding has_prefix pieces fields has_traversal
valid_folder_value is_abs none at = ok tt
valid_folder_value is_abs (some null_value) at = ok tt
valid_folder_value is_abs (some (string_value folder)) at =
    if is_abs folder || has_prefix folder root
    then refused folder_absolute at
    else if has_traversal (fields (pieces folder))
    then refused folder_traversal at
    else ok tt
valid_folder_value is_abs (some v) at = refused folder_not_string at

unfoldable pub valid_folder : (Bytes → Bool) → Map Value → Place → Outcome (Unit {0})
unfolding valid_folder_value lookup
valid_folder is_abs props at = valid_folder_value is_abs (lookup (codes "folder") props) at

unfoldable pub node_name : Option Value → Place → Outcome Bytes
node_name (some (string_value name)) at = if is_blank name then refused no_name at else ok name
node_name _ at = refused no_name at

unfoldable pub node_props : Option Value → Place → Outcome (Map Value)
node_props none at = ok []
node_props (some null_value) at = ok []
node_props (some (map_value fs)) at = ok (to_map fs)
node_props (some v) at = refused props_not_object at

-- The built-in set and the deprecated names.
unfoldable pub builtin_of : Bytes → Place → Outcome Target
unfolding lookup bytes_eq
builtin_of name at = elim (lookup name tree_build) [
  | some c ↦ ok (builtin c)
  | none ↦ elim (lookup name tree_cmp_deprecated) [
    | some c ↦ ok (builtin c)
    | none ↦ refused unknown_component at
  ]
]

abbrev pub closed_of : Target → Map Value → Place → Outcome (Unit {0})
closed_of (custom name) props at = ok tt
closed_of (builtin c) props at = valid_closed_props c props at

-- `nodeDefaults`: a caller's own component has none.
abbrev pub defaults_of : Bool → Target → Map Value
defaults_of raw (custom name) = []
defaults_of raw (builtin c) =
    if raw && tree_raw_cmp c then (codes "raw", bool_value true) ∷ [] else []

-- `cmps` tells the caller's components; `raw` is the option.
module _ (cmps : Bytes → Bool) (is_abs : Bytes → Bool) (raw : Bool) where
  unfoldable pub resolve : Bytes → Place → Outcome Target
  unfolding builtin_of
  resolve name at = if cmps name then ok (custom name) else builtin_of name at

  -- The part of `nodeThunk` in front of the children.
  unfoldable pub node_head : Fields → Place → Outcome (Bytes × Target × Map Value)
  unfolding node_name resolve node_props valid_folder valid_closed_props
  node_head fs at = node_name (lookup (codes "cmp") (to_map fs)) at >>= λ name.
      resolve name at >>= λ target. node_props (lookup (codes "props") (to_map fs)) at >>= λ props.
      valid_folder is_abs props at >>= λ u.
      closed_of target props at >>= λ v. ok (name, target, props)

  unfoldable mutual
    unfolding node_head bytes_eq

    pub node_thunk : Value → Place → Outcome Thunk
    node_thunk (map_value fs) at = node_head fs at >>= λ (name, target, props).
        child_thunks fs name at >>= λ children.
        ok (thunk target props (defaults_of raw target) children)
    node_thunk _ at = refused not_object at

    -- The value of `children`.
    pub child_thunks : Fields → Bytes → Place → Outcome Thunks
    child_thunks no_fields name at = ok no_thunks
    child_thunks (field k v fs) name at =
        let here = value_thunks v name at in
        let later = child_thunks fs name at in if bytes_eq k (codes "children") then here else later

    pub value_thunks : Value → Bytes → Place → Outcome Thunks
    value_thunks null_value name at = ok no_thunks
    value_thunks (list_value kids) name at = node_thunks kids name at 0
    value_thunks _ name at = refused children_not_array at

    pub node_thunks : Values → Bytes → Place → ℕ → Outcome Thunks
    node_thunks no_values name at i = ok no_thunks
    node_thunks (value v vs) name at i = node_thunk v (at ++ (name, i) ∷ []) >>= λ th.
        node_thunks vs name at (i + 1) >>= λ ths. ok (next th ths)

  -- The root is a list of nodes, or one.
  unfoldable pub cmp_tree : Value → Outcome Thunks
  unfolding node_thunks
  cmp_tree (list_value nodes) = node_thunks nodes [] [] 0
  cmp_tree v = node_thunks (value v no_values) [] [] 0
