-- ===== src/Build/Walk/Claims.antt =====
-- What the walk of go/build.go does to the folder it stands in and to the claimed paths.
use jostraca.Common.{
  ◌-◌, ◌≡◌, ◌≢◌, refl, sym, ap, ◌∙◌, inl, inr, Bool, List, [], ◌∷◌, ◌++◌, none, some, arith, Bytes,
  Bool-cases, Option-cases, length, length-append, take, take_front, All, Map, lookup, insert,
  lookup-insert, lookup-insert-ne,
}
use mathlib.Core.Path.{subst}
use jostraca.Fs.Path.{join_parts}
use jostraca.Build.Names.{valid_name, file_path, project_parent}
use jostraca.Build.Walk.{
  kind_none, kind_project, kind_folder, kind_file, Node, Nodes, node, done, next, FolderRef,
  BuildCtx, Result, ok, refused, ◌>>=◌, claim_file, folder_before, folder_after, file_before,
  project_before, project_after, new_build_ctx, step, steps,
}

-- The claims of the paths `ps`, one by one, each of a path that was free.
pub data Claims : Map Bytes → List Bytes → Map Bytes → Type 0 where
  keep : {m : Map Bytes} → Claims m [] m
  claim :
      {m m' : Map Bytes} {ps : List Bytes} (p where_ : Bytes)
      → lookup p m ≡ none
      → Claims (insert p where_ m) ps m'
      → Claims m (p ∷ ps) m'

Claims-append :
    {m m' m'' : Map Bytes} {ps qs : List Bytes}
    → Claims m ps m'
    → Claims m' qs m''
    → Claims m (ps ++ qs) m''
Claims-append keep k = k
Claims-append (claim p w e c) k = claim p w e (Claims-append c k)

-- No two of the paths are equal.
abbrev pub Distinct : List Bytes → Type 0
Distinct [] = Unit
Distinct (p ∷ ps) = All (λ q. q ≢ p) ps × Distinct ps

free_others :
    (p w : Bytes) (m : Map Bytes) (ps : List Bytes)
    → All (λ q. lookup q (insert p w m) ≡ none) ps
    → All (λ q. lookup q m ≡ none) ps × All (λ q. q ≢ p) ps
free_others p w m [] h = (tt, tt)
free_others p w m (q ∷ ps) (h, hs) =
    let (free, other) = free_others p w m ps hs in
    let differs : q ≢ p = λ e.
      absurd (cc (sym (lookup-insert p w m) ∙ ap (λ t. lookup t (insert p w m)) (sym e) ∙ h)) in
    ((sym (lookup-insert-ne q p w m differs) ∙ h, free), (differs, other))

Claims-free :
    {m m' : Map Bytes} {ps : List Bytes} → Claims m ps m' → All (λ q. lookup q m ≡ none) ps
Claims-free keep = tt
Claims-free (claim {m} {m'} {ps} p w e c) = (e, (free_others p w m ps (Claims-free c)).0)

pub Claims-Distinct : {m m' : Map Bytes} {ps : List Bytes} → Claims m ps m' → Distinct ps
Claims-Distinct keep = tt
Claims-Distinct (claim {m} {m'} {ps} p w e c) =
    ((free_others p w m ps (Claims-free c)).1, Claims-Distinct c)

-- A chain that succeeds did so at each link.
bind-ok :
    {A B : Type 0} (r : Result A) (f : A → Result B) (c : B)
    → (r >>= f) ≡ ok c
    → (a : A) × (r ≡ ok a) × (f a ≡ ok c)
bind-ok (ok a) f c e = (a, refl, e)
bind-ok (refused x) f c e = absurd (cc)

ok-eq : {A : Type 0} (a c : A) → ok a ≡ ok c → a ≡ c
ok-eq a c e = cc e

claim_file-Claims :
    (p w : Bytes) (b b' : BuildCtx)
    → claim_file p w b ≡ ok b'
    → (b'.folder ≡ b.folder) × (b'.project ≡ b.project) × Claims b.filepaths (p ∷ []) b'.filepaths
unfolding claim_file
claim_file-Claims p w b b' e = elim (Option-cases (lookup p b.filepaths)) [
  | inr (first, taken) ↦ absurd (ground arith)
  | inl free ↦
      let same : record b { filepaths = insert p w b.filepaths } ≡ b' = ground arith in
      (
        ap (λ z. z.folder) (sym same),
        ap (λ z. z.project) (sym same),
        subst (λ z. Claims b.filepaths (p ∷ []) z.filepaths) same (claim p w free keep),
      )
]

module _ (clean : Bytes → Bytes) (windows : Bool) (st_folder : Bytes) where
  -- The paths of the files below a node, in the order of the walk, `r` being the folder around it.
  unfoldable mutual
    unfolding project_parent file_path

    pub placed : Node → FolderRef → List Bytes
    placed (node kind_none name n_folder path children) r = placed_all children r
    placed (node kind_project name n_folder path children) r =
        placed_all children
          (record { path = []; parent = project_parent clean windows st_folder n_folder })
    placed (node kind_folder name n_folder path children) r =
        placed_all children (record { path = r.path ++ name ∷ []; parent = r.parent })
    placed (node kind_file name n_folder path children) r =
        file_path clean r.parent r.path name ∷ placed_all children r

    pub placed_all : Nodes → FolderRef → List Bytes
    placed_all done r = []
    placed_all (next n ns) r = placed n r ++ placed_all ns r

  -- What a part of the walk does to the state: it comes back to the folder and the project that it
  -- began with, and claims the paths `ps`.
  pub record Walked (b b' : BuildCtx) (ps : List Bytes) : Type 0 where
    pub folder_eq : b'.folder ≡ b.folder
    pub project_eq : b'.project ≡ b.project
    pub claims : Claims b.filepaths ps b'.filepaths

  file_before-Walked :
      (n : Node) (name : Bytes) (path : List Bytes) (b b' : BuildCtx)
      → file_before clean windows st_folder n name path b ≡ ok b'
      → Walked b b' (file_path clean b.folder.parent b.folder.path name ∷ [])
  unfolding file_before
  file_before-Walked n name path b b' e = elim (Bool-cases (valid_name name)) [
    | inr bad ↦ absurd (ground arith)
    | inl good ↦
        let claimed : claim_file (file_path clean b.folder.parent b.folder.path name)
              (join_parts path) (record b { file = some n })
            ≡ ok b' =
          ground arith in
        let (f, p, c) = claim_file-Claims _ _ (record b { file = some n }) b' claimed in
        record { folder_eq = f; project_eq = p; claims = c }
  ]

  folder_before-ok :
      (name : Bytes) (b b' : BuildCtx)
      → folder_before name b ≡ ok b'
      → record b { folder = record { path = b.folder.path ++ name ∷ []; parent = b.folder.parent } }
        ≡ b'
  unfolding folder_before
  folder_before-ok name b b' e = elim (Bool-cases (valid_name name)) [
    | inr bad ↦ absurd (ground arith)
    | inl good ↦ ground arith
  ]

  pop-push :
      (path : List Bytes) (name : Bytes)
      → take (length (path ++ name ∷ []) - 1) (path ++ name ∷ []) ≡ path
  pop-push path name = take_front _ path (name ∷ []) (omega (arith, length-append path (name ∷ [])))

  Walked-trans :
      (b c d : BuildCtx) (ps qs : List Bytes)
      → Walked b c ps
      → Walked c d qs
      → Walked b d (ps ++ qs)
  Walked-trans b c d ps qs v w = record {
    folder_eq = w.folder_eq ∙ v.folder_eq;
    project_eq = w.project_eq ∙ v.project_eq;
    claims = Claims-append v.claims w.claims;
  }

  Walked-ok : (b c d : BuildCtx) (ps : List Bytes) → ok c ≡ ok d → Walked b c ps → Walked b d ps
  Walked-ok b c d ps e w = subst (λ z. Walked b z ps) (ok-eq c d e) w

  -- The children of a project, and of a folder, with the state put back behind them.
  project-Walked :
      (n : Node) (n_folder : Bytes) (b c : BuildCtx) (ps : List Bytes)
      → Walked (project_before clean windows st_folder n n_folder b) c ps
      → Walked b (project_after clean windows st_folder b c) ps
  unfolding project_before project_after
  project-Walked n n_folder b c ps w = record {
    folder_eq = refl;
    project_eq = refl;
    claims = w.claims;
  }

  pop_folder : FolderRef → FolderRef
  pop_folder r = record { path = take (length r.path - 1) r.path; parent = r.parent }

  with_path : Bytes → List Bytes → FolderRef
  with_path parent path = record { path = path; parent = parent }

  folder-Walked :
      (name : Bytes) (b c : BuildCtx) (ps : List Bytes)
      → Walked
          (record b {
            folder = record { path = b.folder.path ++ name ∷ []; parent = b.folder.parent };
          })
          c
          ps
      → Walked b (folder_after c) ps
  unfolding folder_after pop_folder with_path
  folder-Walked name b c ps w = record {
    folder_eq =
        ap pop_folder w.folder_eq ∙ ap (with_path b.folder.parent) (pop-push b.folder.path name);
    project_eq = w.project_eq;
    claims = w.claims;
  }

  mutual
    unfolding step placed

    pub step-Walked :
        (n : Node) (b b' : BuildCtx)
        → step clean windows st_folder n b ≡ ok b'
        → Walked b b' (placed n b.folder)
    step-Walked (node kind_none name n_folder path children) b b' e =
        let (c, e', f) = bind-ok (steps clean windows st_folder children b) _ b' e in
        Walked-ok b _ b' _ f (steps-Walked children b c e')
    step-Walked (node kind_project name n_folder path children) b b' e =
        let n : Node = node kind_project name n_folder path children in
        let start : BuildCtx = project_before clean windows st_folder n n_folder b in
        let (c, e', f) = bind-ok (steps clean windows st_folder children start) _ b' e in
        Walked-ok b _ b' _ f (project-Walked n n_folder b c _ (steps-Walked children start c e'))
    step-Walked (node kind_folder name n_folder path children) b b' e =
        let (start, e', f) = bind-ok (folder_before name b) _ b' e in
        let (c, e'', g) = bind-ok (steps clean windows st_folder children start) _ b' f in
        let opened = sym (folder_before-ok name b start e') in
        Walked-ok b _ b' _ g (
          folder-Walked name b c _ (
            subst (λ z. Walked z c (placed_all children z.folder)) opened
              (steps-Walked children start c e'')))
    step-Walked (node kind_file name n_folder path children) b b' e =
        let n : Node = node kind_file name n_folder path children in
        let (start, e', f) = bind-ok (file_before clean windows st_folder n name path b) _ b' e in
        let (c, e'', g) = bind-ok (steps clean windows st_folder children start) _ b' f in
        let own = file_before-Walked n name path b start e' in
        let below =
          subst (λ r. Walked start c (placed_all children r)) own.folder_eq
            (steps-Walked children start c e'') in
        Walked-ok b _ b' _ g (Walked-trans b start c _ _ own below)

    pub steps-Walked :
        (ns : Nodes) (b b' : BuildCtx)
        → steps clean windows st_folder ns b ≡ ok b'
        → Walked b b' (placed_all ns b.folder)
    steps-Walked done b b' e =
        subst (λ z. Walked b z []) (ok-eq b b' e)
          (record { folder_eq = refl; project_eq = refl; claims = keep })
    steps-Walked (next n ns) b b' e =
        let (c, e', f) = bind-ok (step clean windows st_folder n b) _ b' e in
        let own = step-Walked n b c e' in
        let rest =
          subst (λ r. Walked c b' (placed_all ns r)) own.folder_eq (steps-Walked ns c b' f) in
        Walked-trans b c b' _ _ own rest

  -- A walk that succeeds gives every file a path of its own, which is composed of the project and
  -- the folders around the file, and comes back to the folder that it began in.
  pub step-Distinct :
      (n : Node) (b' : BuildCtx)
      → step clean windows st_folder n (new_build_ctx clean windows st_folder) ≡ ok b'
      → Distinct (placed n (new_build_ctx clean windows st_folder).folder)
        × Claims [] (placed n (new_build_ctx clean windows st_folder).folder) b'.filepaths
        × (b'.folder ≡ (new_build_ctx clean windows st_folder).folder)
  unfolding new_build_ctx
  step-Distinct n b' e =
      let w = step-Walked n (new_build_ctx clean windows st_folder) b' e in
      (Claims-Distinct w.claims, w.claims, w.folder_eq)
