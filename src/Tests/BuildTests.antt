-- ===== src/Tests/BuildTests.antt =====
-- go/build.go on a small tree.
use jostraca.Common.{
  ◌≡◌, refl, true, false, [], ◌∷◌, ◌++◌, none, some, Bytes, codes, bytes_eq, lookup, erase, arith,
}
use jostraca.Fs.Path.{slash, join_parts, resolve, split}
use jostraca.Build.Names.{is_abs_from_path_on, pieces, valid_name, file_path}
use jostraca.Build.Names.{within_folder, file_excluded, values}
use jostraca.Build.Names.Contained.{IsAt, names_kept, kept, file_path-IsAt}
use jostraca.Build.Names.Within.{within_folder-file_path}
use jostraca.Build.Walk.{
  kind_project, kind_folder, kind_file, Node, node, done, next, BuildCtx, ok, refused,
  duplicate_file_path, new_build_ctx, step,
}
use jostraca.Build.Walk.Claims.{Claims, Distinct, placed, step-Distinct}

-- `path.Clean` on rooted paths.
clean : Bytes → Bytes
clean p = slash ∷ join_parts (resolve (split p) [])

abbrev output : Bytes
output = codes "/o"

abbrev file_a : Node
file_a = node kind_file (codes "a") [] (codes "a" ∷ []) done

abbrev tree : Node
tree =
    node kind_project [] (codes "p") []
      (next (node kind_folder (codes "d") [] [] (next file_a done)) (next file_a done))

abbrev twice : Node
twice = node kind_project [] [] [] (next file_a (next file_a done))

abbrev built : BuildCtx
built = record {
  project = none;
  folder = record { path = []; parent = output };
  file = some file_a;
  filepaths = (codes "/o/p/a", codes "a") ∷ (codes "/o/p/d/a", codes "a") ∷ [];
}

step_run : step clean false output tree (new_build_ctx clean false output) ≡ ok built
unfolding step new_build_ctx clean bytes_eq erase lookup resolve split
step_run = refl

duplicate_run :
    step clean false output twice (new_build_ctx clean false output)
    ≡ refused (duplicate_file_path (codes "/o/a") (codes "a") (codes "a"))
unfolding step new_build_ctx clean bytes_eq erase lookup resolve split
duplicate_run = refl

traversal_run : valid_name (codes "x\\..\\y") ≡ false
unfolding valid_name bytes_eq
traversal_run = refl

drive_run :
    (is_abs_from_path_on (codes "C:\\x") true ≡ true)
    × (is_abs_from_path_on (codes "C:\\x") false ≡ false)
unfolding is_abs_from_path_on
drive_run = (refl, refl)

within_run :
    (within_folder clean false output (codes "/o/a") ≡ true)
    × (within_folder clean false output (codes "/output/a") ≡ false)
unfolding within_folder
within_run = (refl, refl)

exclude_run :
    file_excluded (codes "a" ∷ codes "b" ∷ []) (values (none ∷ some (codes "a/b") ∷ [])) ≡ true
unfolding file_excluded bytes_eq
exclude_run = refl

step-Distinct_example :
    Distinct (placed clean false output tree (new_build_ctx clean false output).folder)
    × Claims []
        (placed clean false output tree (new_build_ctx clean false output).folder)
        built.filepaths
    × (built.folder ≡ (new_build_ctx clean false output).folder)
step-Distinct_example = step-Distinct clean false output tree built step_run

valid_d : valid_name (codes "d") ≡ true
unfolding valid_name bytes_eq
valid_d = refl

file_path-IsAt_example :
    IsAt
      (codes "o" ∷ [])
      (names_kept (codes "d" ∷ []) ++ kept (pieces (codes "d")))
      (file_path clean (slash ∷ join_parts (codes "o" ∷ [])) (codes "d" ∷ []) (codes "d"))
file_path-IsAt_example =
    file_path-IsAt clean (λ p h. unfold clean in refl) (codes "o" ∷ []) (codes "d" ∷ []) (codes "d")
      (((λ e. cc e), (λ e. cc e), (λ e. cc e), ((omega arith, tt), (omega arith, tt))), tt)
      (valid_d, tt) valid_d

within_folder-file_path_example :
    within_folder clean false
      (slash ∷ join_parts (codes "o" ∷ []))
      (file_path clean (slash ∷ join_parts (codes "o" ∷ [])) (codes "d" ∷ []) (codes "d"))
    ≡ true
within_folder-file_path_example =
    within_folder-file_path clean (λ p h. unfold clean in refl) false (codes "o") []
      (codes "d" ∷ []) (codes "d")
      (((λ e. cc e), (λ e. cc e), (λ e. cc e), ((omega arith, tt), (omega arith, tt))), tt)
      (valid_d, tt) valid_d
