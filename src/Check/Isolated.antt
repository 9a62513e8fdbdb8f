-- ===== src/Check/Isolated.antt =====
-- The shadow of go/check.go: what is committed below the folder does not reach a run.
use jostraca.Common.{
  ◌≡◌, refl, ap, ◌∙◌, ◌⊎◌, Bool, true, false, inl, inr, [], ◌∷◌, ◌++◌, some, Bytes, bytes_eq,
  if◌then◌else◌, Bool-cases,
}
use jostraca.Fs.Path.{slash, root, mem_clean}
use jostraca.Fs.Mem.{Result, ok, read_file, exists, stat}
use jostraca.Fs.Mem.Listing.{read_dir}
use jostraca.Fs.Mem.Laws.{read_file-write_file}
use jostraca.Check.{Base, Platform, ShadowFs, shadow_key, under, read_op, write_op, bytes, respond}

-- What the keys below a folder begin with.
abbrev below : Bytes → Bytes
below top = if bytes_eq top root then root else top ++ slash ∷ []

-- A key that is the folder's or below it.
abbrev pub Inside : Bytes → Bytes → Type 0
Inside top key = (key ≡ top) ⊎ ((rest : Bytes) × (key ≡ below top ++ rest))

-- Where a path is for the platform: `filepath.Abs` of a relative path is in the working directory, as
-- `memClean` takes it to be.
abbrev pub Resolves : Platform → Type 0
Resolves os =
    (p a : Bytes) → os.abs (os.from_slash p) ≡ some a → mem_clean os.wd a ≡ mem_clean os.wd p

-- Two committed trees that read the same at every path that is not inside the folder.
pub record AgreeOutside (os : Platform) (top : Bytes) (base base' : Base) : Type 0 where
  pub read_file :
      (p : Bytes) → ¬ Inside top (mem_clean os.wd p) → base.read_file p ≡ base'.read_file p
  pub exists : (p : Bytes) → ¬ Inside top (mem_clean os.wd p) → base.exists p ≡ base'.exists p
  pub stat : (p : Bytes) → ¬ Inside top (mem_clean os.wd p) → base.stat p ≡ base'.stat p
  pub read_dir : (p : Bytes) → ¬ Inside top (mem_clean os.wd p) → base.read_dir p ≡ base'.read_dir p

-- After a write of one path, a path below the folder reads the written bytes where it has the same
-- key, and every other path, below the folder or not, what it read before.
read-write :
    (os : Platform) (base : Base) (top p q d : Bytes) (s : ShadowFs)
    → (respond os base top (read_op q) (respond os base top (write_op p d) s).1).0 ≡ (
        if under top (shadow_key os q)
        then (if bytes_eq (mem_clean os.wd (shadow_key os p)) (mem_clean os.wd (shadow_key os q))
            then bytes (ok d)
            else (respond os base top (read_op q) s).0)
        else bytes (base.read_file q))
unfolding respond
read-write os base top p q d s = elim (Bool-cases (under top (shadow_key os q))) [
  | inr e ↦ rw e
  | inl e ↦ rw e (
      ap bytes (read_file-write_file os.wd os.now s.mem (shadow_key os p) d (shadow_key os q))
      ∙ bytes-if (bytes_eq (mem_clean os.wd (shadow_key os p)) (mem_clean os.wd (shadow_key os q)))
          (ok d) (read_file os.wd s.mem (shadow_key os q)))
]
  where
    bytes-if :
        (c : Bool) (x y : Result Bytes)
        → bytes (if c then x else y) ≡ (if c then bytes x else bytes y)
    bytes-if true x y = refl
    bytes-if false x y = refl
