-- ===== src/Fs/Mem.antt =====
-- `MemFS` of go/fs.go. Every operation runs under the lock, so it is one step on the three maps.
-- `wd` is the working directory and `now` the time of the call.
pub mod Marks
pub mod Parents
pub mod Above
pub mod Laws
pub mod Listing
use jostraca.Common.{
  ℕ, ◌+◌, Bool, true, false, not, ◌&&◌, ◌||◌, List, [], ◌∷◌, ◌++◌, Option, none, some, Bytes, codes,
  bytes_eq, ◌==◌, has_prefix, ltb, if◌then◌else◌, length, take, drop, Map, lookup, erase, insert,
  any_key,
}
use jostraca.Fs.Path.{slash, root, split, mem_clean, last_slash, mem_parent, path_base}

pub record FileInfo : Type 0 where
  pub name : Bytes
  pub size : ℕ
  pub mode : ℕ
  pub mod_time : ℕ
  pub is_dir : Bool

abbrev pub mem_file_mode : ℕ
mem_file_mode = 438

-- `fs.ModeDir | memDirMode`.
abbrev pub mem_dir_mode : ℕ
mem_dir_mode = 2147484159

pub record MemFs : Type 0 where
  pub files : Map Bytes
  pub times : Map ℕ
  pub dirs : Map Bool

abbrev pub new_mem_fs : MemFs
new_mem_fs = record { files = []; times = []; dirs = [] }

pub data Reason : Type 0 where
  not_exist exist not_empty : Reason

pub record PathError : Type 0 where
  pub op : Bytes
  pub path : Bytes
  pub reason : Reason

pub data Result {ℓ} (A : Type ℓ) : Type ℓ where
  ok : A → Result A
  failed : PathError → Result A

abbrev pub fail {ℓ} : {A : Type ℓ} → Bytes → Bytes → Reason → Result A
fail op path reason = failed (record { op = op; path = path; reason = reason })

-- `m.dirs[k]`, where a missing key gives the zero value.
unfoldable pub has_dir : Bytes → Map Bool → Bool
unfolding lookup
has_dir k dirs = elim (lookup k dirs) [ none ↦ false | some b ↦ b ]

-- `strings.TrimLeft(p, "/")`.
unfoldable pub trim_left : Bytes → Bytes
trim_left [] = []
trim_left (c ∷ p) = let rest = trim_left p in if c == slash then rest else c ∷ p

-- The rounds of the loop behind the first, `cur` being what the last one marked.
unfoldable pub mark_rest : Bytes → List Bytes → Map Bool → Map Bool
unfolding insert
mark_rest cur [] dirs = dirs
mark_rest cur (part ∷ parts) dirs =
    let next = cur ++ slash ∷ part in mark_rest next parts (insert next true dirs)

unfoldable pub mark_parts : Bool → List Bytes → Map Bool → Map Bool
unfolding mark_rest
mark_parts abs [] dirs = dirs
mark_parts abs (part ∷ parts) dirs =
    let cur = if abs then slash ∷ part else part in mark_rest cur parts (insert cur true dirs)

unfoldable pub mark_dirs_locked : Bytes → Map Bool → Map Bool
unfolding mark_parts trim_left split has_prefix bytes_eq
mark_dirs_locked p dirs =
    if bytes_eq p [] || bytes_eq p root
    then dirs
    else if bytes_eq (trim_left p) []
    then dirs
    else mark_parts (has_prefix p root) (split (trim_left p)) dirs

-- `if i := strings.LastIndex(cp, "/"); i > 0 { m.markDirsLocked(cp[:i]) }`.
unfoldable pub mark_parents : Bytes → Map Bool → Map Bool
unfolding last_slash mark_dirs_locked
mark_parents cp dirs = elim (last_slash cp) [
  | none ↦ dirs
  | some i ↦ if ltb 0 i then mark_dirs_locked (take i cp) dirs else dirs
]

-- Writing never fails.
unfoldable pub write_locked : ℕ → Bytes → Bytes → MemFs → MemFs
unfolding mark_parents
write_locked now cp data_ m = record {
  files = insert cp data_ m.files;
  times = insert cp now m.times;
  dirs = mark_parents cp m.dirs;
}

module _ (wd : Option Bytes) where
  unfoldable pub read_file : MemFs → Bytes → Result Bytes
  unfolding mem_clean
  read_file m p = elim (lookup (mem_clean wd p) m.files) [
    | none ↦ fail (codes "open") p not_exist
    | some b ↦ ok b
  ]

  unfoldable pub write_file : ℕ → MemFs → Bytes → Bytes → MemFs
  unfolding write_locked
  write_file now m p data_ = write_locked now (mem_clean wd p) data_ m

  unfoldable pub write_file_excl : ℕ → MemFs → Bytes → Bytes → Result MemFs
  unfolding write_locked has_dir
  write_file_excl now m p data_ =
      let cp = mem_clean wd p in
      elim (lookup cp m.files) [
        | some b ↦ fail (codes "open") p exist
        | none ↦
            if has_dir cp m.dirs
            then fail (codes "open") p exist
            else ok (write_locked now cp data_ m)
      ]

  unfoldable pub exists : MemFs → Bytes → Bool
  unfolding has_dir
  exists m p =
      let cp = mem_clean wd p in
      if bytes_eq cp root
      then true
      else elim (lookup cp m.files) [ some b ↦ true | none ↦ has_dir cp m.dirs ]

  unfoldable pub stat : MemFs → Bytes → Result FileInfo
  unfolding path_base
  stat m p =
      let cp = mem_clean wd p in
      if bytes_eq cp root
      then ok (record { name = []; size = 0; mode = mem_dir_mode; mod_time = 0; is_dir = true })
      else elim (lookup cp m.files) [
        | some b ↦ ok (record {
          name = path_base cp;
          size = length b;
          mode = mem_file_mode;
          mod_time = elim (lookup cp m.times) [ none ↦ 0 | some t ↦ t ];
          is_dir = false;
        })
        | none ↦
            if has_dir cp m.dirs
            then ok (record {
              name = path_base cp;
              size = 0;
              mode = mem_dir_mode;
              mod_time = 0;
              is_dir = true;
            })
            else fail (codes "stat") p not_exist
      ]

  unfoldable pub mkdir_all : MemFs → Bytes → MemFs
  unfolding mark_dirs_locked
  mkdir_all m p =
      let cp = mem_clean wd p in
      if bytes_eq cp root then m else record m { dirs = mark_dirs_locked cp m.dirs }

  unfoldable pub remove : MemFs → Bytes → Result MemFs
  unfolding any_key has_dir
  remove m p =
      let cp = mem_clean wd p in
      let prefix = cp ++ slash ∷ [] in
      elim (lookup cp m.files) [
        | some b ↦ ok (record m { files = erase cp m.files; times = erase cp m.times })
        | none ↦
            if has_dir cp m.dirs
            then (if any_key (λ f. has_prefix f prefix) m.files
                  || any_key (λ d. not (bytes_eq d cp) && has_prefix d prefix) m.dirs
                then fail (codes "remove") p not_empty
                else ok (record m { dirs = erase cp m.dirs }))
            else fail (codes "remove") p not_exist
      ]

  unfoldable pub rename : MemFs → Bytes → Bytes → Result MemFs
  unfolding mark_parents
  rename m oldpath newpath =
      let o = mem_clean wd oldpath in
      let n = mem_clean wd newpath in
      elim (lookup o m.files) [
        | none ↦ fail (codes "rename") oldpath not_exist
        | some b ↦
            let t : ℕ = elim (lookup o m.times) [ none ↦ 0 | some t ↦ t ] in
            ok (record {
              files = insert n b (erase o m.files);
              times = insert n t (erase o m.times);
              dirs = mark_parents n m.dirs;
            })
      ]

-- The round of `Vol` that copies the files.
unfoldable pub copy_files : Map Bytes → Map (Option Bytes)
copy_files [] = []
copy_files ((k, v) ∷ files) = (k, some v) ∷ copy_files files

-- `hasChild[k]`: some key has `k` as its parent. An empty parent is never marked.
unfoldable pub has_child : Bytes → MemFs → Bool
unfolding any_key mem_parent bytes_eq
has_child k m =
    let below : Bytes → Bool = λ f. bytes_eq (mem_parent f) k in
    not (bytes_eq k []) && (any_key below m.files || any_key below m.dirs)

-- The last loop of `Vol`.
unfoldable pub add_empty : MemFs → Map Bool → Map (Option Bytes) → Map (Option Bytes)
unfolding has_child insert
add_empty m [] out = out
add_empty m ((k, b) ∷ dirs) out =
    add_empty m dirs
      (if bytes_eq k [] || bytes_eq k root || has_child k m then out else insert k none out)

unfoldable pub vol : MemFs → Map (Option Bytes)
unfolding copy_files add_empty
vol m = add_empty m m.dirs (copy_files m.files)
