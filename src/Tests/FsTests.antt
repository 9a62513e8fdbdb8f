-- ===== src/Tests/FsTests.antt =====
-- go/fs.go on small file systems.
use jostraca.Common.{
  ◌≡◌, ◌≢◌, refl, arith, inl, true, false, [], ◌∷◌, Option, none, some, Bytes, codes, if◌then◌else◌,
  bytes_eq, lookup, erase,
}
use jostraca.Fs.Path.{root, mem_clean, mem_parent}
use jostraca.Fs.Mem.{
  MemFs, new_mem_fs, ok, exist, fail, read_file, write_file, write_file_excl, exists, mkdir_all,
  remove, rename, vol,
}
use jostraca.Fs.Mem.Listing.{js_less, read_dir}
use jostraca.Fs.Path.Canonical.{IsCanonical}
use jostraca.Fs.Mem.Parents.{fresh, after, written, made}
use jostraca.Fs.Mem.Above.{Reachable-exists}
use jostraca.Fs.Mem.Laws.{write_file_excl-exists}

abbrev cwd : Option Bytes
cwd = some (codes "/w")

abbrev file : Bytes
file = codes "/a/b"

abbrev other : Bytes
other = codes "c"

abbrev small : MemFs
small = write_file cwd 7 new_mem_fs file (codes "x")

mem_clean_run : mem_clean cwd (codes "a/.//../b\\c") ≡ codes "/w/b/c"
unfolding mem_clean bytes_eq
mem_clean_run = refl

drive_run : mem_clean cwd (codes "C:/a/../../b/") ≡ codes "C:/b"
unfolding mem_clean bytes_eq
drive_run = refl

-- An exclusive write to the root stores a file there, though the root exists.
root_run :
    (exists cwd new_mem_fs root ≡ true)
    × (write_file_excl cwd 7 new_mem_fs root (codes "x")
        ≡ ok (write_file cwd 7 new_mem_fs root (codes "x")))
unfolding exists write_file_excl write_file mem_clean bytes_eq
root_run = (refl, refl)

-- The root of a drive does not exist, though a file below it does.
drive_root_run :
    (exists cwd (write_file cwd 7 new_mem_fs (codes "C:/x") []) (codes "C:/x") ≡ true)
    × (exists cwd (write_file cwd 7 new_mem_fs (codes "C:/x") []) (codes "C:/") ≡ false)
unfolding exists write_file mem_clean bytes_eq erase
drive_root_run = (refl, refl)

vol_run :
    vol (mkdir_all cwd small (codes "/d/e")) ≡ (codes "/d/e", none) ∷ (file, some (codes "x")) ∷ []
unfolding vol mkdir_all write_file mem_clean bytes_eq erase
vol_run = refl

read_run : read_file cwd small (codes "/a/../a/b") ≡ ok (codes "x")
unfolding read_file write_file mem_clean bytes_eq lookup
read_run = refl

js_less_run : js_less (240 ∷ []) (238 ∷ []) ≡ true
unfolding js_less
js_less_run = refl

read_dir_run :
    read_dir (λ less ns. ns) cwd small root ≡ ok (record { name = codes "a"; is_dir = true } ∷ [])
unfolding read_dir write_file mem_clean bytes_eq lookup erase
read_dir_run = refl

abbrev above : Bytes
above = mem_parent (mem_clean cwd file)

above-IsCanonical : IsCanonical above
unfolding mem_parent mem_clean bytes_eq
above-IsCanonical = record {
  before = [];
  parts = codes "a" ∷ [];
  drive_or_none = inl refl;
  proper = (((λ e. cc e), (λ e. cc e), (λ e. cc e), (omega arith, omega arith)), tt);
  form = refl;
}

file-exists : exists cwd (mkdir_all cwd small other) file ≡ true
unfolding exists mkdir_all write_file mem_clean bytes_eq lookup
file-exists = refl

file_key : mem_clean cwd file ≢ root
unfolding mem_clean bytes_eq
file_key e = cc e

Reachable-exists_example :
    exists none (mkdir_all cwd small other) (mem_parent (mem_clean cwd file)) ≡ true
Reachable-exists_example =
    Reachable-exists cwd none file
      (after (after fresh (written cwd 7 new_mem_fs file (codes "x"))) (made cwd small other))
      file_key above-IsCanonical file-exists

write_file_excl-exists_example : write_file_excl cwd 8 small file (codes "y") ≡ (
    if exists cwd small file
    then fail (codes "open") file exist
    else ok (write_file cwd 8 small file (codes "y")))
write_file_excl-exists_example = write_file_excl-exists cwd 8 small file (codes "y") file_key

abbrev removed_small : MemFs
removed_small = record { files = []; times = []; dirs = (codes "/a", true) ∷ [] }

remove_run : remove cwd small file ≡ ok removed_small
unfolding remove write_file mem_clean bytes_eq lookup erase
remove_run = refl

abbrev renamed_small : MemFs
renamed_small = record {
  files = (codes "/w/c", codes "x") ∷ [];
  times = (codes "/w/c", 7) ∷ [];
  dirs = (codes "/w", true) ∷ (codes "/a", true) ∷ [];
}

rename_run : rename cwd small file other ≡ ok renamed_small
unfolding rename write_file mem_clean bytes_eq lookup erase
rename_run = refl
