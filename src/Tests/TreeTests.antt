-- ===== src/Tests/TreeTests.antt =====
-- Trees of go/tree.go, accepted and refused.
use jostraca.Common.{
  ◌≡◌, refl, Bool, true, false, List, [], ◌∷◌, ◌++◌, some, Bytes, codes, bytes_eq, arith, Map,
  lookup,
}
use jostraca.Fs.Path.{slash, join_parts, resolve, split}
use jostraca.Build.Names.{project_parent}
use jostraca.Tree.{
  Value, bool_value, string_value, list_value, map_value, Values, no_values, value, Fields,
  no_fields, field, builtin, project_cmp, content_cmp, prop_not_allowed, folder_traversal, ok,
  refused, thunk, Thunks, no_thunks, next, cmp_tree,
}
use jostraca.Tree.Safe.{SafeThunks, cmp_tree-SafeThunks, here, cmp_tree-project_parent}

abbrev no_cmps : Bytes → Bool
no_cmps name = false

abbrev text : Bytes → Value
text s = string_value s

abbrev node : Bytes → Fields → Values → Value
node name props kids = map_value (
    field (codes "cmp") (text name) (
      field (codes "props") (map_value props)
        (field (codes "children") (list_value kids) no_fields)))

abbrev tree : Value
tree = node (codes "Project") (field (codes "folder") (text (codes "sub")) no_fields) (
    value (node (codes "Content") (field (codes "src") (text (codes "a")) no_fields) no_values)
      no_values)

abbrev project_props : Map Value
project_props = (codes "folder", text (codes "sub")) ∷ []

abbrev thunks : Thunks
thunks =
    next
      (thunk (builtin project_cmp) project_props [] (
        next
          (thunk (builtin content_cmp) ((codes "src", text (codes "a")) ∷ [])
            ((codes "raw", bool_value true) ∷ []) no_thunks)
          no_thunks))
      no_thunks

accepted_run : cmp_tree no_cmps no_cmps true tree ≡ ok thunks
unfolding cmp_tree
accepted_run = refl

-- A node below the root is refused, and so is the tree.
refused_run :
    cmp_tree no_cmps no_cmps false (
      node (codes "Folder") no_fields (
        value
          (node (codes "Fragment") (field (codes "form") (text (codes "a")) no_fields) no_values)
          no_values))
    ≡ refused prop_not_allowed (([], 0) ∷ (codes "Folder", 0) ∷ [])
unfolding cmp_tree
refused_run = refl

traversal_run :
    cmp_tree no_cmps no_cmps false (
      node
        (codes "Project")
        (field (codes "folder") (text (codes "a/../../b")) no_fields)
        no_values)
    ≡ refused folder_traversal (([], 0) ∷ [])
unfolding cmp_tree
traversal_run = refl

cmp_tree-SafeThunks_example : SafeThunks thunks
cmp_tree-SafeThunks_example = cmp_tree-SafeThunks no_cmps no_cmps true tree thunks accepted_run

own_folder : lookup (codes "folder") project_props ≡ some (text (codes "sub"))
unfolding lookup bytes_eq
own_folder = refl

-- `path.Clean` on rooted paths.
abbrev clean : Bytes → Bytes
clean p = slash ∷ join_parts (resolve (split p) [])

cmp_tree-project_parent_example :
    (more : List Bytes) × (project_parent clean false
        (slash ∷ join_parts (codes "o" ∷ []))
        (codes "sub")
      ≡ slash ∷ join_parts ((codes "o" ∷ []) ++ more))
cmp_tree-project_parent_example =
    cmp_tree-project_parent clean (λ p h. refl) no_cmps no_cmps true tree thunks project_props
      (codes "sub") (codes "o" ∷ []) accepted_run here own_folder
      (((λ e. cc e), (λ e. cc e), (λ e. cc e), ((omega arith, tt), (omega arith, tt))), tt)
