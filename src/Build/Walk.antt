-- ===== src/Build/Walk.antt =====
-- The walk of go/build.go over the nodes that place files: projects, folders, files, and nodes
-- that only hold others. There is no file handler (`b.fh == nil`), so nothing is written.
pub mod Claims
use jostraca.Common.{
  ℕ, ◌-◌, Bool, true, false, List, [], ◌∷◌, ◌++◌, Option, none, some, Bytes, codes, if◌then◌else◌,
  length, take, Map, lookup, insert,
}
use jostraca.Fs.Path.{join_parts}
use jostraca.Build.Names.{valid_name, is_blank, file_path, project_parent}

pub data Kind : Type 0 where
  kind_none kind_project kind_folder kind_file : Kind

mutual
  -- A node: its kind, its name, its folder, its path and its children.
  pub data Node : Type 0 where
    node : Kind → Bytes → Bytes → List Bytes → Nodes → Node

  pub data Nodes : Type 0 where
    done : Nodes
    next : Node → Nodes → Nodes

pub record FolderRef : Type 0 where
  pub path : List Bytes
  pub parent : Bytes

pub record BuildCtx : Type 0 where
  pub project : Option Node
  pub folder : FolderRef
  pub file : Option Node
  pub filepaths : Map Bytes

pub data BuildError : Type 0 where
  name_traversal : Bytes → Bytes → BuildError
  duplicate_file_path : Bytes → Bytes → Bytes → BuildError

pub data Result {ℓ} (A : Type ℓ) : Type ℓ where
  ok : A → Result A
  refused : BuildError → Result A

infixl 5 ◌>>=◌
abbrev pub ◌>>=◌ {ℓ κ} : {A : Type ℓ} {B : Type κ} → Result A → (A → Result B) → Result B
ok a >>= f = f a
refused e >>= f = refused e

abbrev or_root : Bytes → Bytes
or_root where_ = if is_blank where_ then codes "<root>" else where_

unfoldable pub claim_file : Bytes → Bytes → BuildCtx → Result BuildCtx
unfolding lookup insert
claim_file fullpath where_ b = elim (lookup fullpath b.filepaths) [
  | some first ↦ refused (duplicate_file_path fullpath (or_root first) (or_root where_))
  | none ↦ ok (record b { filepaths = insert fullpath where_ b.filepaths })
]

unfoldable pub folder_before : Bytes → BuildCtx → Result BuildCtx
unfolding valid_name
folder_before name b =
    if valid_name name
    then ok (record b {
      folder = record { path = b.folder.path ++ name ∷ []; parent = b.folder.parent };
    })
    else refused (name_traversal (codes "Folder") name)

unfoldable pub folder_after : BuildCtx → BuildCtx
folder_after b = record b {
  folder = record {
    path = take (length b.folder.path - 1) b.folder.path;
    parent = b.folder.parent;
  };
}

-- `clean` is `path.Clean`, `windows` the platform test, and `st_folder` the output folder.
module _ (clean : Bytes → Bytes) (windows : Bool) (st_folder : Bytes) where
  -- The state in front of the walk.
  unfoldable pub new_build_ctx : BuildCtx
  new_build_ctx = record {
    project = none;
    folder = record { path = []; parent = if is_blank st_folder then codes "." else st_folder };
    file = none;
    filepaths = [];
  }

  unfoldable pub project_before : Node → Bytes → BuildCtx → BuildCtx
  unfolding project_parent
  project_before n n_folder b = record b {
    project = some n;
    folder = record { path = []; parent = project_parent clean windows st_folder n_folder };
  }

  -- `prev` is the state in front of the node, which `projectBefore` keeps in the node.
  unfoldable pub project_after : BuildCtx → BuildCtx → BuildCtx
  project_after prev b = record b { project = prev.project; folder = prev.folder }

  unfoldable pub file_before : Node → Bytes → List Bytes → BuildCtx → Result BuildCtx
  unfolding valid_name claim_file file_path
  file_before n name path b =
      if valid_name name
      then claim_file (file_path clean b.folder.parent b.folder.path name) (join_parts path)
          (record b { file = some n })
      else refused (name_traversal (codes "File") name)

  unfoldable pub before : Kind → Node → Bytes → Bytes → List Bytes → BuildCtx → Result BuildCtx
  unfolding project_before folder_before file_before
  before kind_none n name n_folder path b = ok b
  before kind_project n name n_folder path b = ok (project_before n n_folder b)
  before kind_folder n name n_folder path b = folder_before name b
  before kind_file n name n_folder path b = file_before n name path b

  unfoldable pub after : Kind → BuildCtx → BuildCtx → BuildCtx
  unfolding project_after folder_after
  after kind_none prev b = b
  after kind_project prev b = project_after prev b
  after kind_folder prev b = folder_after b
  after kind_file prev b = b

  unfoldable mutual
    unfolding before after

    pub step : Node → BuildCtx → Result BuildCtx
    step (node kind name n_folder path children) b =
        before kind (node kind name n_folder path children) name n_folder path b >>= λ b'.
        steps children b' >>= λ b''. ok (after kind b b'')

    pub steps : Nodes → BuildCtx → Result BuildCtx
    steps done b = ok b
    steps (next n ns) b = step n b >>= λ b'. steps ns b'
