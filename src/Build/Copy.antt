-- ===== src/Build/Copy.antt =====
-- The walk of go/build.go over a folder that a Copy component copies. What it calls of the provider,
-- of the handler, of the templates and of go/util.go are the fields of `CopyEnv`.
pub mod Visits
use jostraca.Common.{
  ◌≡◌, ℕ, zero, suc, Bool, true, false, ◌||◌, List, [], ◌∷◌, ◌++◌, Option, none, some, ◌⊎◌, inl,
  inr, Bytes, bytes_eq, if◌then◌else◌,
}
use jostraca.Fs.Path.{slash}
use jostraca.Fs.Mem.Listing.{DirEntry}
use jostraca.Build.Names.{is_blank}

-- `S` is what the provider and the handler keep, `E` their errors. `realpath` and `stat` give none
-- where the provider cannot tell. `ignored` is `shouldIgnoreCopyPath` of the node.
pub record CopyEnv (S E : Type 0) : Type 0 where
  pub realpath : S → Bytes → Option Bytes
  pub read_dir : S → Bytes → E ⊎ List DirEntry
  pub stat : S → Bytes → Option Bool
  pub read_file : S → Bytes → E ⊎ Bytes
  pub sort : List DirEntry → List DirEntry
  pub ignored : Bytes → Bytes → Bool
  pub is_bin_ext : Bytes → Bool
  pub is_bin_content : Bytes → Bool
  pub template : Bytes → E ⊎ Bytes
  pub copy : Bytes → Bytes → S → Option E × S
  pub save_binary : Bytes → Bytes → S → Option E × S
  pub save : Bytes → Bytes → S → Option E × S

pub record CopyState (S : Type 0) : Type 0 where
  pub visited : List Bytes
  pub warned : List (Bytes × Bytes)
  pub store : S

pub data CopyError (E : Type 0) : Type 0 where
  too_deep : Bytes → CopyError E
  failed : E → CopyError E

abbrev pub CopyResult : Type 0 → Type 0 → Type 0
CopyResult S E = Option (CopyError E) × CopyState S

abbrev pub max_copy_depth : ℕ
max_copy_depth = 64

unfoldable pub is_visited : Bytes → List Bytes → Bool
is_visited a [] = false
is_visited a (x ∷ xs) = bytes_eq a x || is_visited a xs

unfoldable pub unmark : Bytes → List Bytes → List Bytes
unmark a [] = []
unmark a (x ∷ xs) = let rest = unmark a xs in if bytes_eq a x then rest else x ∷ rest

unfoldable pub realpath_of : {S E : Type 0} → CopyEnv S E → S → Bytes → Bytes
realpath_of env fs p = elim (env.realpath fs p) [ none ↦ p | some r ↦ r ]

-- A link to a folder is listed as no folder.
unfoldable pub is_folder : {S E : Type 0} → CopyEnv S E → S → DirEntry → Bytes → Bool
is_folder env fs e src = e.is_dir || elim (env.stat fs src) [ none ↦ false | some d ↦ d ]

-- What is done with an entry that is no folder.
unfoldable pub put_entry : {S E : Type 0} → CopyEnv S E → Bytes → Bytes → Bytes → S → Option E × S
put_entry env name src dst fs =
    if env.is_bin_ext name then env.copy src dst fs else elim (env.read_file fs src) [
      | inl e ↦ (some e, fs)
      | inr body ↦
          if env.is_bin_ext src || env.is_bin_content body
          then env.save_binary dst body fs
          else elim (env.template body) [
            | inl e ↦ (some e, fs)
            | inr rendered ↦ env.save dst rendered fs
          ]
    ]

abbrev pub lift_error : {E : Type 0} → Option E → Option (CopyError E)
lift_error none = none
lift_error (some e) = some (failed e)

unfoldable pub mark : {S : Type 0} → Bytes → CopyState S → CopyState S
mark real s = record { visited = real ∷ s.visited; warned = s.warned; store = s.store }

-- `defer delete(visited, real)`.
unfoldable pub unwind : {S E : Type 0} → Bytes → CopyResult S E → CopyResult S E
unwind real (r, s) =
    (r, record { visited = unmark real s.visited; warned = s.warned; store = s.store })

-- One round of the loop; `descend` is the walk one level down.
unfoldable pub copy_entry :
    {S E : Type 0}
    → CopyEnv S E
    → (Bytes → Bytes → Bytes → CopyState S → CopyResult S E)
    → Bytes
    → Bytes
    → Bytes
    → DirEntry
    → CopyState S
    → CopyResult S E
copy_entry env descend from to rel e s =
    let src = from ++ slash ∷ e.name in
    let dst = to ++ slash ∷ e.name in
    let entry_rel = if is_blank rel then e.name else rel ++ slash ∷ e.name in
    if env.ignored e.name entry_rel
    then (none, s)
    else if is_folder env s.store e src
    then descend src dst entry_rel s
    else let (r, fs) = put_entry env e.name src dst s.store in
      (lift_error r, record { visited = s.visited; warned = s.warned; store = fs })

unfoldable pub copy_entries :
    {S E : Type 0}
    → CopyEnv S E
    → (Bytes → Bytes → Bytes → CopyState S → CopyResult S E)
    → Bytes
    → Bytes
    → Bytes
    → List DirEntry
    → CopyState S
    → CopyResult S E
copy_entries env descend from to rel [] s = (none, s)
copy_entries env descend from to rel (e ∷ es) s =
    let r = copy_entry env descend from to rel e s in
    elim r.0 [ none ↦ copy_entries env descend from to rel es r.1 | some err ↦ (some err, r.1) ]

-- `walkCopyDepth`. The number is what is left of the depth: `max_copy_depth + 1 - depth`.
unfoldable pub walk_copy_depth :
    {S E : Type 0} → CopyEnv S E → ℕ → Bytes → Bytes → Bytes → CopyState S → CopyResult S E
walk_copy_depth env zero from to rel s = (some (too_deep from), s)
walk_copy_depth env (suc left) from to rel s =
    let real = realpath_of env s.store from in
    if is_visited real s.visited
    then (none, record { visited = s.visited; warned = (from, real) ∷ s.warned; store = s.store })
    else unwind real (elim (env.read_dir s.store from) [
      | inl e ↦ (some (failed e), mark real s)
      | inr es ↦ copy_entries env (walk_copy_depth env left) from to rel (env.sort es) (mark real s)
    ])

unfoldable pub walk_copy : {S E : Type 0} → CopyEnv S E → Bytes → Bytes → S → CopyResult S E
walk_copy env from to fs =
    walk_copy_depth env (suc max_copy_depth) from to []
      (record { visited = []; warned = []; store = fs })
