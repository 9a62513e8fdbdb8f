-- ===== src/Check.antt =====
-- go/check.go: the file system that `Check` gives a run, memory below the folder that is checked
-- and the committed tree outside it, and the comparison of what the run made with the tree.
pub mod Isolated
pub mod Clean
use jostraca.Common.{
  ℕ, ◌+◌, ◌%◌, Bool, true, false, not, ◌&&◌, ◌||◌, List, [], ◌∷◌, ◌++◌, Option, none, some, Bytes,
  codes, bytes_eq, ◌==◌, has_prefix, if◌then◌else◌, Map, lookup, erase, insert,
}
use jostraca.Fs.Path.{slash, root, mem_clean}
use jostraca.Fs.Mem.{
  MemFs, FileInfo, Result, ok, failed, read_file, write_file, exists, stat, mkdir_all, remove,
  rename,
}
use jostraca.Fs.Mem.Listing.{DirEntry, read_dir, names}

-- The reads of the file system that holds the committed tree.
pub record Base : Type 0 where
  pub read_file : Bytes → Result Bytes
  pub exists : Bytes → Bool
  pub stat : Bytes → Result FileInfo
  pub read_dir : Bytes → Result (List DirEntry)

-- The package path/filepath, with an error of `Abs` as `none`, the order of package sort, the
-- working directory and the clock.
pub record Platform : Type 0 where
  pub to_slash : Bytes → Bytes
  pub from_slash : Bytes → Bytes
  pub is_abs : Bytes → Bool
  pub abs : Bytes → Option Bytes
  pub sort : (Bytes → Bytes → Bool) → List Bytes → List Bytes
  pub sort_strings : List Bytes → List Bytes
  pub wd : Option Bytes
  pub now : ℕ

-- `root` is fixed and `base` is read only; they are parameters below.
pub record ShadowFs : Type 0 where
  pub mem : MemFs
  pub modes : Map ℕ

-- `fs.ModePerm` masks the nine bits.
abbrev pub mode_perm : ℕ → ℕ
mode_perm mode = mode % 512

unfoldable pub shadow_key : Platform → Bytes → Bytes
unfolding mem_clean has_prefix
shadow_key os p =
    let full : Bytes = elim (os.abs (os.from_slash p)) [ none ↦ p | some a ↦ a ] in
    mem_clean os.wd (if not (has_prefix (os.to_slash p) root) && not (os.is_abs p) then full else p)

unfoldable pub under : Bytes → Bytes → Bool
unfolding bytes_eq has_prefix
under top rp = bytes_eq rp top || has_prefix rp (top ++ slash ∷ [])

-- What a run asks of the file system.
pub data Op : Type 0 where
  read_op exists_op stat_op read_dir_op mkdir_op remove_op : Bytes → Op
  write_op rename_op : Bytes → Bytes → Op
  chmod_op : Bytes → ℕ → Op

pub data Response : Type 0 where
  bytes : Result Bytes → Response
  flag : Bool → Response
  info : Result FileInfo → Response
  listing : Result (List DirEntry) → Response
  outcome : Result (Unit {0}) → Response

abbrev pub unit_of : Result MemFs → Result (Unit {0})
unit_of (ok m) = ok tt
unit_of (failed e) = failed e

abbrev pub mem_of : MemFs → Result MemFs → MemFs
mem_of m (ok m') = m'
mem_of m (failed e) = m

module _ (os : Platform) (base : Base) (top : Bytes) where
  -- Memory below the folder, at the key; the committed tree elsewhere, at the path as given.
  abbrev pick : {A : Type 0} → Bytes → (Bytes → A) → (Bytes → A) → A
  pick p in_mem in_base = let rp = shadow_key os p in if under top rp then in_mem rp else in_base p

  -- A mode that was declared for the old path goes with it, whether the renaming succeeds or not.
  unfoldable pub rename_modes : Bytes → Bytes → Map ℕ → Map ℕ
  unfolding lookup insert erase
  rename_modes from to modes = elim (lookup from modes) [
    | none ↦ modes
    | some mode ↦ erase from (insert to mode modes)
  ]

  unfoldable pub respond : Op → ShadowFs → Response × ShadowFs
  unfolding shadow_key under read_file exists stat read_dir write_file mkdir_all remove rename
      rename_modes
  respond (read_op p) s = (bytes (pick p (read_file os.wd s.mem) base.read_file), s)
  respond (exists_op p) s = (flag (pick p (exists os.wd s.mem) base.exists), s)
  respond (stat_op p) s = (info (pick p (stat os.wd s.mem) base.stat), s)
  respond (read_dir_op p) s = (listing (pick p (read_dir os.sort os.wd s.mem) base.read_dir), s)
  respond (write_op p data_) s =
      (outcome (ok tt), record s { mem = write_file os.wd os.now s.mem (shadow_key os p) data_ })
  respond (mkdir_op p) s =
      (outcome (ok tt), record s { mem = mkdir_all os.wd s.mem (shadow_key os p) })
  respond (remove_op p) s =
      let r = remove os.wd s.mem (shadow_key os p) in
      (outcome (unit_of r), record s { mem = mem_of s.mem r })
  respond (rename_op old new) s =
      let from = shadow_key os old in
      let to = shadow_key os new in
      let r = rename os.wd s.mem from to in
      (outcome (unit_of r), record { mem = mem_of s.mem r; modes = rename_modes from to s.modes })
  respond (chmod_op p mode) s =
      (outcome (ok tt), record s { modes = insert (shadow_key os p) (mode_perm mode) s.modes })

-- A run: what it asks next may depend on every answer that it got.
pub data Run {ℓ} (A : Type ℓ) : Type ℓ where
  answer : A → Run A
  ask : Op → (Response → Run A) → Run A

module _ (os : Platform) (base : Base) (top : Bytes) where
  unfoldable pub run {ℓ} : {A : Type ℓ} → Run A → ShadowFs → A × ShadowFs
  unfolding respond
  run (answer a) s = (a, s)
  run (ask op next) s = let (r, s') = respond os base top op s in run (next r) s'

pub data DriftKind : Type 0 where
  missing content mode : DriftKind

-- Bytes that the folder does not hold are `none`, and a mode that does not differ is 0.
pub record Drift : Type 0 where
  pub path : Bytes
  pub kind : DriftKind
  pub generated : Bytes
  pub existing : Option Bytes
  pub mode : ℕ
  pub existing_mode : ℕ

-- `join` is `path.Join`; `folder` is the folder as given and `top` its key.
module _ (os : Platform) (base : Base) (join : Bytes → Bytes → Bytes) (folder top : Bytes) where
  abbrev drift : Bytes → DriftKind → Bytes → Option Bytes → List Drift
  drift p kind gen have =
      record {
        path = p;
        kind = kind;
        generated = gen;
        existing = have;
        mode = 0;
        existing_mode = 0;
      }
      ∷ []

  -- The mode that was declared, if one was, and the file that it is held against, if it can be
  -- asked for its own.
  unfoldable compare_mode : Option ℕ → Result FileInfo → Bytes → Bytes → Bytes → List Drift
  compare_mode none r p gen have = []
  compare_mode (some declared) (failed e) p gen have = []
  compare_mode (some declared) (ok fi) p gen have =
      if mode_perm fi.mode == mode_perm declared
      then []
      else record {
        path = p;
        kind = mode;
        generated = gen;
        existing = some have;
        mode = mode_perm declared;
        existing_mode = mode_perm fi.mode;
      }
        ∷ []

  unfoldable compare_file : Map ℕ → Bytes → Bytes → Result Bytes → List Drift
  unfolding compare_mode lookup mem_clean bytes_eq
  compare_file modes p gen (failed e) = drift p missing gen none
  compare_file modes p gen (ok have) =
      if not (bytes_eq gen have)
      then drift p content gen (some have)
      else compare_mode (lookup (mem_clean os.wd (join top p)) modes) (base.stat (join folder p)) p
          gen have

  -- A round of the loop: a generated file.
  unfoldable check_file : Map ℕ → Bytes → Bytes → List Drift
  unfolding compare_file
  check_file modes p gen = compare_file modes p gen (base.read_file (join folder p))

  -- `files[p]` of each path; a missing key gives nil.
  unfoldable pub check_files : Map Bytes → Map ℕ → List Bytes → List Drift
  unfolding check_file lookup
  check_files files modes [] = []
  check_files files modes (p ∷ checked) =
      check_file modes p (elim (lookup p files) [ none ↦ [] | some gen ↦ gen ])
      ++ check_files files modes checked

  -- The files that the run made are compared by path.
  unfoldable pub check : Map Bytes → Map ℕ → List Drift
  unfolding check_files names
  check files modes = check_files files modes (os.sort_strings (names files))
