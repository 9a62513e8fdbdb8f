-- ===== src/Handler.antt =====
-- The methods of `fileHandler` in go/filehandler.go that read and write, over the file system in
-- memory, which has an exclusive create and no `Chmod`. The texts of errors and the audit are left
-- out. `Env` holds what does not change in a run and what the Go library and the system give.
pub mod Atomic
pub mod Paths
pub mod Saves
pub mod Run
use jostraca.Common.{
  ℕ, zero, suc, ◌+◌, ◌-◌, Bool, true, false, not, ◌&&◌, ◌||◌, List, [], ◌∷◌, ◌++◌, reverse, Option,
  none, some, Bytes, codes, bytes_eq, has_prefix, ◌==◌, ltb, if◌then◌else◌, length, take, drop, Map,
  lookup, insert,
}
use jostraca.Fs.Path.{slash, root, split, fold, last_slash}
use jostraca.Fs.Mem.{
  MemFs, Result, FileInfo, PathError, Reason, exist, not_exist, not_empty, trim_left, read_file,
  write_file_excl, exists, stat, mkdir_all, remove, rename,
}
use jostraca.Fs.Mem as Mem
use jostraca.Build.Names.{canon_out_path, is_blank}

-- `clean`, `dir` and `ext` are `path.Clean`, `path.Dir` and `path.Ext`. `temp_text` prints the
-- process id, a number of a temporary file, and random digits.
pub record Env : Type 0 where
  pub wd : Option Bytes
  pub now : ℕ
  pub clean : Bytes → Bytes
  pub dir : Bytes → Bytes
  pub ext : Bytes → Bytes
  pub temp_text : ℕ → Bytes
  pub folder : Bytes
  pub duplicate_folder : Bytes
  pub max_depth : ℕ
  pub dryrun : Bool
  pub duplicate : Bool

pub record Handler : Type 0 where
  pub fs : MemFs
  pub created_dirs : Map Bool
  pub tmp_seq : ℕ

pub data HandlerError : Type 0 where
  invalid_path path_too_deep not_directory no_temp_path : Bytes → HandlerError
  fs_error : PathError → HandlerError

pub data Outcome {ℓ} (A : Type ℓ) : Type ℓ where
  done : A → Outcome A
  error : HandlerError → Outcome A

-- A method: its outcome, and the state behind it, which an error has as well.
abbrev pub Method : Type 0 → Type 0
Method A = Handler → Outcome A × Handler

abbrev pub return : {A : Type 0} → A → Method A
return a h = (done a, h)

infixl 5 ◌>>=◌
abbrev pub ◌>>=◌ : {A B : Type 0} → Method A → (A → Method B) → Method B
(m >>= f) h = elim (m h).0 [ done a ↦ f a (m h).1 | error e ↦ (error e, (m h).1) ]

-- `strings.TrimRight(p, "/")`.
unfoldable pub trim_right : Bytes → Bytes
unfolding trim_left
trim_right p = reverse (trim_left (reverse p))

abbrev pub tmp_path_attempts : ℕ
tmp_path_attempts = 9

abbrev pub tmp_suffix : Bytes
tmp_suffix = codes ".jostraca-tmp"

unfoldable pub count_named : List Bytes → ℕ
count_named [] = 0
count_named ([] ∷ segs) = count_named segs
count_named ((c ∷ seg) ∷ segs) = suc (count_named segs)

abbrev pub is_exist : Reason → Bool
is_exist exist = true
is_exist _ = false

module _ (env : Env) where
  unfoldable pub tmppath_for : Bytes → ℕ → Bytes
  tmppath_for p seq = p ++ tmp_suffix ++ codes "-" ++ env.temp_text seq

  unfoldable pub path_depth : Bytes → ℕ
  unfolding count_named split fold
  path_depth p = count_named (split (env.clean (env.dir (fold p))))

  unfoldable pub valid_path : Bytes → Method Unit
  unfolding path_depth
  valid_path p h =
      if is_blank p
      then (error (invalid_path p), h)
      else if ltb 0 env.max_depth && ltb env.max_depth (path_depth p)
      then (error (path_too_deep p), h)
      else (done tt, h)

  unfoldable pub ensure_folder : Bytes → Method Unit
  unfolding bytes_eq lookup insert mkdir_all
  ensure_folder p h =
      if is_blank p || (bytes_eq p (codes ".") || bytes_eq p root)
      then (done tt, h)
      else if env.dryrun
      then (done tt, h)
      else elim (lookup p h.created_dirs) [
        | some b ↦ (done tt, h)
        | none ↦ (
          done tt,
          record h { fs = mkdir_all env.wd h.fs p; created_dirs = insert p true h.created_dirs },
        )
      ]

  unfoldable pub dir_of : Bytes → Bytes
  unfolding trim_right bytes_eq
  dir_of p =
      let trimmed = trim_right p in
      if not (is_blank trimmed) && not (bytes_eq trimmed p) then env.dir trimmed else env.dir p

  unfoldable pub ensure_dir_of : Bytes → Method Unit
  unfolding dir_of ensure_folder
  ensure_dir_of p = ensure_folder (dir_of p)

  -- A failed removal is only logged.
  unfoldable pub remove_temp : Bytes → Handler → Handler
  unfolding remove
  remove_temp tmp h = elim (remove env.wd h.fs tmp) [
    | Mem.ok m ↦ record h { fs = m }
    | Mem.failed e ↦ h
  ]

  -- The loop over the attempts, of which `n` are left.
  unfoldable pub write_temp : ℕ → Bytes → Bytes → Method Bytes
  unfolding write_file_excl tmppath_for remove_temp
  write_temp zero p content h = (error (no_temp_path p), h)
  write_temp (suc n) p content h =
      let cand = tmppath_for p h.tmp_seq in
      let taken : Handler = record h { tmp_seq = h.tmp_seq + 1 } in
      elim (write_file_excl env.wd env.now h.fs cand content) [
        | Mem.ok m ↦ (done cand, record taken { fs = m })
        | Mem.failed e ↦
            let rest = write_temp n p content taken in
            if is_exist e.reason then rest else (error (fs_error e), remove_temp cand taken)
      ]

  -- The directory that a target with a slash at its end names, which must be there.
  unfoldable check_dir : Bytes → Result FileInfo → Method Unit
  check_dir p (Mem.failed e) h = (
    error (
        fs_error
          (record { op = codes "open"; path = tmppath_for p h.tmp_seq; reason = not_exist })),
    record h { tmp_seq = h.tmp_seq + 1 },
  )
  check_dir p (Mem.ok fi) h =
      if fi.is_dir
      then (done tt, h)
      else (error (not_directory (tmppath_for p h.tmp_seq)), record h { tmp_seq = h.tmp_seq + 1 })

  unfoldable pub check_target : Bytes → Method Unit
  unfolding trim_right stat bytes_eq check_dir
  check_target p h =
      let dir = trim_right p in
      if bytes_eq dir p || is_blank dir then (done tt, h) else check_dir p (stat env.wd h.fs dir) h

  unfoldable pub publish : Bytes → Bytes → Method Unit
  unfolding rename remove_temp
  publish p tmp h = elim (rename env.wd h.fs tmp p) [
    | Mem.ok m ↦ (done tt, record h { fs = m })
    | Mem.failed e ↦ (error (fs_error e), remove_temp tmp h)
  ]

  unfoldable pub write_atomic : Bytes → Bytes → Method Unit
  unfolding check_target write_temp publish
  write_atomic p content = do
    _ ← check_target p
    tmp ← write_temp tmp_path_attempts p content
    publish p tmp

  unfoldable pub exists_file : Bytes → Method Bool
  unfolding valid_path exists canon_out_path
  exists_file p = do
    _ ← valid_path p
    λ h. (done (exists env.wd h.fs (canon_out_path env.clean p)), h)

  unfoldable pub read : Bytes → Method Bytes
  unfolding read_file
  read full h = elim (read_file env.wd h.fs full) [
    | Mem.ok b ↦ (done b, h)
    | Mem.failed e ↦ (error (fs_error e), h)
  ]

  unfoldable pub load : Bytes → Bytes → Method Bytes
  unfolding valid_path read
  load p full = do _ ← valid_path p; read full

  unfoldable pub load_file : Bytes → Method Bytes
  unfolding load canon_out_path
  load_file p = load p (canon_out_path env.clean p)

  -- What `saveFile` and `copyFile` end with.
  unfoldable pub put : Bytes → Bytes → Method Unit
  unfolding ensure_dir_of write_atomic
  put full content = do
    _ ← ensure_dir_of full
    if env.dryrun then return tt else write_atomic full content

  unfoldable pub save_file : Bytes → Bytes → Method Unit
  unfolding valid_path put canon_out_path
  save_file p content = do _ ← valid_path p; put (canon_out_path env.clean p) content

  unfoldable pub copy_file : Bytes → Bytes → Method Unit
  unfolding valid_path read put canon_out_path
  copy_file from to = do
    _ ← valid_path from
    _ ← valid_path to
    content ← read (canon_out_path env.clean from)
    put (canon_out_path env.clean to) content

  unfoldable pub write_duplicate : Bytes → Bytes → Method Unit
  unfolding ensure_dir_of write_atomic bytes_eq has_prefix
  write_duplicate rpath content =
      let dup = env.duplicate_folder ++ slash ∷ rpath in
      let top = env.clean env.duplicate_folder in
      let cleaned = env.clean dup in
      if env.dryrun || not env.duplicate
      then return tt
      else if not (bytes_eq cleaned top) && not (has_prefix cleaned (top ++ slash ∷ []))
      then return tt
      else (do _ ← ensure_dir_of dup; write_atomic dup content)

  -- The path with the output folder taken off, on a separator boundary.
  unfoldable pub relative : Bytes → Bytes
  unfolding fold has_prefix trim_left bytes_eq
  relative path =
      let p = fold path in
      if bytes_eq env.folder (codes ".")
      then (if has_prefix p (codes "./") then trim_left (drop 1 p) else p)
      else if bytes_eq env.folder root
      then trim_left p
      else if bytes_eq p env.folder
      then []
      else if has_prefix p (env.folder ++ slash ∷ [])
      then trim_left (drop (length env.folder) p)
      else p

-- `path.Ext` of a base name; a name that is all extension has none.
unfoldable pub annotated_base : Env → Bytes → Bytes → Bytes
unfolding bytes_eq
annotated_base env base kind =
    let ext = if bytes_eq (env.ext base) base then [] else env.ext base in
    let stem = take (length base - length ext) base in stem ++ codes "." ++ kind ++ ext

-- `path.Split` cuts behind the last slash.
unfoldable pub annotated_path : Env → Bytes → Bytes → Bytes
unfolding annotated_base last_slash
annotated_path env target kind = elim (last_slash target) [
  | none ↦ annotated_base env target kind
  | some i ↦ take (i + 1) target ++ annotated_base env (drop (i + 1) target) kind
]
