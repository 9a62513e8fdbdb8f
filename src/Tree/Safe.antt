-- ===== src/Tree/Safe.antt =====
-- What a tree that go/tree.go accepts cannot do: choose the output root, or give a closed component
-- a prop that it does not know.
use jostraca.Common.{
  ℕ, ◌+◌, ◌≡◌, refl, sym, ap, ◌∙◌, inl, inr, Bool, true, false, ◌||◌, List, [], ◌∷◌, ◌++◌, some,
  arith, Bytes, codes, bytes_eq, bytes_eq_iff, has_prefix, Bool-cases, Map, lookup, All,
}
use jostraca.Fs.Path.{slash, root, join_parts}
use jostraca.Fs.Path.Canonical.{IsProper}
use jostraca.Build.Names.{
  pieces, fields, has_traversal, valid_name, project_parent, is_abs_from_path_on,
}
use jostraca.Build.Names.Contained.{Cleans, project_parent-join_parts}
use jostraca.Tree.{
  Value, null_value, bool_value, number_value, string_value, list_value, map_value, Values,
  no_values, value, Fields, no_fields, field, to_map, Component, tree_closed_cmp, Target, custom,
  builtin, Place, Outcome, ok, refused, ◌>>=◌, Thunk, thunk, Thunks, no_thunks, next, member,
  all_allowed, valid_closed_props, valid_folder_value, valid_folder, node_name, node_props,
  closed_of, defaults_of, resolve, node_head, node_thunk, child_thunks, value_thunks, node_thunks,
  cmp_tree,
}

bind-ok :
    {A B : Type 0} (x : Outcome A) (f : A → Outcome B) (b : B)
    → (x >>= f) ≡ ok b
    → (a : A) × (x ≡ ok a) × (f a ≡ ok b)
bind-ok (ok a) f b h = (a, refl, h)
bind-ok (refused r at) f b h = absurd (cc)

-- A folder that is given as a string does not begin with a slash and has no segment `..`.
SafeFolder : Map Value → Type 0
SafeFolder props =
    (s : Bytes)
    → lookup (codes "folder") props ≡ some (string_value s)
    → (has_prefix s root ≡ false) × (valid_name s ≡ true)

-- The props of a closed component are among those that it admits.
KnownProps : Target → Map Value → Type 0
KnownProps target props =
    (c : Component) (allowed : List Bytes) (k : Bytes) (v : Value)
    → target ≡ builtin c
    → tree_closed_cmp c ≡ some allowed
    → lookup k props ≡ some v
    → member k allowed ≡ true

valid_folder_value-string :
    (is_abs : Bytes → Bool) (s : Bytes) (at : Place)
    → valid_folder_value is_abs (some (string_value s)) at ≡ ok tt
    → (has_prefix s root ≡ false) × (valid_name s ≡ true)
unfolding valid_folder_value
valid_folder_value-string is_abs s at h = elim (Bool-cases (is_abs s || has_prefix s root)) [
  | inl e ↦ absurd (cc (rw e at h))
  | inr e ↦ elim (Bool-cases (has_traversal (fields (pieces s)))) [
    | inl f ↦ absurd (cc (rw (e, f) at h))
    | inr f ↦ (ground arith, no_traversal s f)
  ]
]
  where
    no_traversal : (s : Bytes) → has_traversal (fields (pieces s)) ≡ false → valid_name s ≡ true
    no_traversal [] f = unfold valid_name in refl
    no_traversal (c ∷ s) f = unfold valid_name in rw f

valid_folder-SafeFolder :
    (is_abs : Bytes → Bool) (props : Map Value) (at : Place)
    → valid_folder is_abs props at ≡ ok tt
    → SafeFolder props
unfolding valid_folder SafeFolder
valid_folder-SafeFolder is_abs props at h s e = valid_folder_value-string is_abs s at (rw e at h)

all_allowed-lookup :
    (allowed : List Bytes) (props : Map Value) (k : Bytes) (v : Value)
    → all_allowed allowed props ≡ true
    → lookup k props ≡ some v
    → member k allowed ≡ true
unfolding all_allowed lookup
all_allowed-lookup allowed [] k v h e = absurd (cc)
all_allowed-lookup allowed ((j, w) ∷ props) k v h e = elim (Bool-cases (bytes_eq j k)) [
  | inl f ↦ ap (λ z. member z allowed) (sym ((bytes_eq_iff j k).0 f)) ∙ ground arith
  | inr f ↦ all_allowed-lookup allowed props k v (ground arith) (rw f at e)
]

closed_of-KnownProps :
    (target : Target) (props : Map Value) (at : Place)
    → closed_of target props at ≡ ok tt
    → KnownProps target props
unfolding KnownProps valid_closed_props
closed_of-KnownProps (custom name) props at h c allowed k v t closed e = absurd (cc)
closed_of-KnownProps (builtin d) props at h c allowed k v t closed e =
    let same : d ≡ c = cc in
    let closed' : tree_closed_cmp d ≡ some allowed = ap tree_closed_cmp same ∙ closed in
    elim (Bool-cases (all_allowed allowed props)) [
      | inl f ↦ all_allowed-lookup allowed props k v f e
      | inr f ↦ absurd (cc (rw (closed', f, valid_closed_props) at h))
    ]

-- A node and everything below it.
mutual
  pub SafeThunk : Thunk → Type 0
  SafeThunk (thunk target props defaults kids) =
      SafeFolder props × KnownProps target props × SafeThunks kids

  pub SafeThunks : Thunks → Type 0
  SafeThunks no_thunks = Unit
  SafeThunks (next t ts) = SafeThunk t × SafeThunks ts

module _ (cmps : Bytes → Bool) (is_abs : Bytes → Bool) (raw : Bool) where
  node_head-SafeFolder :
      (fs : Fields) (at : Place) (name : Bytes) (target : Target) (props : Map Value)
      → node_head cmps is_abs raw fs at ≡ ok (name, target, props)
      → SafeFolder props × KnownProps target props
  unfolding node_head
  node_head-SafeFolder fs at name target props h =
      let (name', h1, k1) = bind-ok (node_name (lookup (codes "cmp") (to_map fs)) at) _ _ h in
      let (target', h2, k2) = bind-ok (resolve cmps is_abs raw name' at) _ _ k1 in
      let (props', h3, k3) = bind-ok (node_props (lookup (codes "props") (to_map fs)) at) _ _ k2 in
      let (u, h4, k4) = bind-ok (valid_folder is_abs props' at) _ _ k3 in
      let (v, h5, k5) = bind-ok (closed_of target' props' at) _ _ k4 in
      let same_target : target' ≡ target = cc in
      let same_props : props' ≡ props = cc in
      rw (sym same_target, sym same_props)
        (valid_folder-SafeFolder is_abs props' at h4, closed_of-KnownProps target' props' at h5)

  mutual
    unfolding node_thunk SafeThunk

    node_thunk-SafeThunk :
        (v : Value) (at : Place) (th : Thunk)
        → node_thunk cmps is_abs raw v at ≡ ok th
        → SafeThunk th
    node_thunk-SafeThunk null_value at th h = absurd (cc)
    node_thunk-SafeThunk (bool_value b) at th h = absurd (cc)
    node_thunk-SafeThunk (number_value n) at th h = absurd (cc)
    node_thunk-SafeThunk (string_value s) at th h = absurd (cc)
    node_thunk-SafeThunk (list_value vs) at th h = absurd (cc)
    node_thunk-SafeThunk (map_value fs) at th h =
        let ((name, target, props), h1, k1) = bind-ok (node_head cmps is_abs raw fs at) _ _ h in
        let (kids, h2, k2) = bind-ok (child_thunks cmps is_abs raw fs name at) _ _ k1 in
        let same : thunk target props (defaults_of raw target) kids ≡ th = cc in
        let (folder, known) = node_head-SafeFolder fs at name target props h1 in
        rw (sym same) (folder, known, child_thunks-SafeThunks fs name at kids h2)

    child_thunks-SafeThunks :
        (fs : Fields) (name : Bytes) (at : Place) (ths : Thunks)
        → child_thunks cmps is_abs raw fs name at ≡ ok ths
        → SafeThunks ths
    child_thunks-SafeThunks no_fields name at ths h =
        let same : no_thunks ≡ ths = cc in rw (sym same) tt
    child_thunks-SafeThunks (field k v fs) name at ths h =
        elim (Bool-cases (bytes_eq k (codes "children"))) [
          | inl e ↦ value_thunks-SafeThunks v name at ths (rw e at h)
          | inr e ↦ child_thunks-SafeThunks fs name at ths (rw e at h)
        ]

    value_thunks-SafeThunks :
        (v : Value) (name : Bytes) (at : Place) (ths : Thunks)
        → value_thunks cmps is_abs raw v name at ≡ ok ths
        → SafeThunks ths
    value_thunks-SafeThunks null_value name at ths h =
        let same : no_thunks ≡ ths = cc in rw (sym same) tt
    value_thunks-SafeThunks (list_value vs) name at ths h =
        node_thunks-SafeThunks vs name at 0 ths h
    value_thunks-SafeThunks (bool_value b) name at ths h = absurd (cc)
    value_thunks-SafeThunks (number_value n) name at ths h = absurd (cc)
    value_thunks-SafeThunks (string_value s) name at ths h = absurd (cc)
    value_thunks-SafeThunks (map_value fs) name at ths h = absurd (cc)

    node_thunks-SafeThunks :
        (vs : Values) (name : Bytes) (at : Place) (i : ℕ) (ths : Thunks)
        → node_thunks cmps is_abs raw vs name at i ≡ ok ths
        → SafeThunks ths
    node_thunks-SafeThunks no_values name at i ths h =
        let same : no_thunks ≡ ths = cc in rw (sym same) tt
    node_thunks-SafeThunks (value v vs) name at i ths h =
        let (th, h1, k1) = bind-ok (node_thunk cmps is_abs raw v (at ++ (name, i) ∷ [])) _ _ h in
        let (rest, h2, k2) = bind-ok (node_thunks cmps is_abs raw vs name at (i + 1)) _ _ k1 in
        let same : next th rest ≡ ths = cc in
        rw (sym same) (
          node_thunk-SafeThunk v (at ++ (name, i) ∷ []) th h1,
          node_thunks-SafeThunks vs name at (i + 1) rest h2,
        )

-- In a tree that is accepted, whatever the caller's components and `filepath.IsAbs` are, no node at
-- any depth has a folder that begins with a slash or has a segment `..`, and no node of a closed
-- component has a prop that it does not admit.
pub cmp_tree-SafeThunks :
    (cmps : Bytes → Bool) (is_abs : Bytes → Bool) (raw : Bool) (root_value : Value) (ths : Thunks)
    → cmp_tree cmps is_abs raw root_value ≡ ok ths
    → SafeThunks ths
unfolding cmp_tree
cmp_tree-SafeThunks cmps is_abs raw (list_value vs) ths h =
    node_thunks-SafeThunks cmps is_abs raw vs [] [] 0 ths h
cmp_tree-SafeThunks cmps is_abs raw null_value ths h =
    node_thunks-SafeThunks cmps is_abs raw (value null_value no_values) [] [] 0 ths h
cmp_tree-SafeThunks cmps is_abs raw (bool_value b) ths h =
    node_thunks-SafeThunks cmps is_abs raw (value (bool_value b) no_values) [] [] 0 ths h
cmp_tree-SafeThunks cmps is_abs raw (number_value n) ths h =
    node_thunks-SafeThunks cmps is_abs raw (value (number_value n) no_values) [] [] 0 ths h
cmp_tree-SafeThunks cmps is_abs raw (string_value s) ths h =
    node_thunks-SafeThunks cmps is_abs raw (value (string_value s) no_values) [] [] 0 ths h
cmp_tree-SafeThunks cmps is_abs raw (map_value fs) ths h =
    node_thunks-SafeThunks cmps is_abs raw (value (map_value fs) no_values) [] [] 0 ths h

-- The props of a node at any depth.
pub data Within (props : Map Value) : Thunks → Type 0 where
  here :
      {target : Target} {defaults : Map Value} {kids ths : Thunks}
      → Within props (next (thunk target props defaults kids) ths)
  below :
      {target : Target} {own defaults : Map Value} {kids ths : Thunks}
      → Within props kids
      → Within props (next (thunk target own defaults kids) ths)
  after : {th : Thunk} {ths : Thunks} → Within props ths → Within props (next th ths)

Within-SafeFolder :
    {props : Map Value} {ths : Thunks} → Within props ths → SafeThunks ths → SafeFolder props
unfolding SafeThunks
Within-SafeFolder here (t, ts) = t.0
Within-SafeFolder (below w) (t, ts) = Within-SafeFolder w t.2
Within-SafeFolder (after w) (t, ts) = Within-SafeFolder w ts

-- A tree does not choose the output root: where it is accepted, the platform is not Windows and the
-- output folder is absolute and clean, a node at any depth with a folder, as a project, is placed at
-- the output folder or below it.
pub cmp_tree-project_parent :
    (clean : Bytes → Bytes)
    → Cleans clean
    → (cmps : Bytes → Bool) (is_abs : Bytes → Bool) (raw : Bool) (root_value : Value) (ths : Thunks)
      (props : Map Value) (s : Bytes) (parts : List Bytes)
    → cmp_tree cmps is_abs raw root_value ≡ ok ths
    → Within props ths
    → lookup (codes "folder") props ≡ some (string_value s)
    → All IsProper parts
    → (more : List Bytes) × (project_parent clean false (slash ∷ join_parts parts) s
        ≡ slash ∷ join_parts (parts ++ more))
unfolding SafeFolder
cmp_tree-project_parent clean cleans cmps is_abs raw root_value ths props s parts h w e proper =
    let (not_rooted, valid) =
      Within-SafeFolder w (cmp_tree-SafeThunks cmps is_abs raw root_value ths h) s e in
    project_parent-join_parts clean cleans parts false s proper (not_absolute s not_rooted) valid
  where
    not_absolute : (s : Bytes) → has_prefix s root ≡ false → is_abs_from_path_on s false ≡ false
    not_absolute [] f = unfold is_abs_from_path_on in refl
    not_absolute (c ∷ s) f = unfold is_abs_from_path_on has_prefix in ground arith
