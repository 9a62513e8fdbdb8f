-- ===== src/Tests/CheckTests.antt =====
-- The shadow and the comparison of go/check.go on small trees.
use jostraca.Common.{
  ◌≡◌, ◌↔◌, refl, true, false, [], ◌∷◌, ◌++◌, none, some, Bytes, codes, has_prefix, if◌then◌else◌,
  bytes_eq, Map, lookup,
}
use jostraca.Fs.Path.{slash, mem_clean}
use jostraca.Fs.Mem.{new_mem_fs, ok, fail, not_exist}
use jostraca.Check.{
  Base, Platform, ShadowFs, shadow_key, under, read_op, write_op, bytes, Run, answer, ask, run,
  check, content, mode, Response,
}
use jostraca.Check.Clean.{Matches, check-Matches}

abbrev os : Platform
os = record {
  to_slash = λ p. p;
  from_slash = λ p. p;
  is_abs = λ p. has_prefix p (slash ∷ []);
  abs = λ p. some (mem_clean none p);
  sort = λ less xs. xs;
  sort_strings = λ xs. xs;
  wd = none;
  now = 7;
}

abbrev top : Bytes
top = codes "/out"

-- A tree with one text in every file.
abbrev tree : Bytes → Base
tree text = record {
  read_file = λ p. ok text;
  exists = λ p. true;
  stat = λ p. ok (record { name = p; size = 1; mode = 420; mod_time = 0; is_dir = false });
  read_dir = λ p. fail (codes "readdir") p not_exist;
}

abbrev shadow : ShadowFs
shadow = record { mem = new_mem_fs; modes = [] }

abbrev as_bytes : Response → Bytes
as_bytes (bytes (ok b)) = b
as_bytes _ = codes "none"

-- Reads a file below the folder, and writes what it read to another.
abbrev copier : Run Bytes
copier =
    ask (read_op (codes "/out/a"))
      (λ r. ask (write_op (codes "/out/b") (as_bytes r)) (λ u. answer (as_bytes r)))

copied_run : (run os (tree (codes "x")) top copier shadow).0 ≡ codes "none"
unfolding run shadow_key under
copied_run = refl

below_run : under top (codes "/out2/a") ≡ false
unfolding under
below_run = refl

-- A tree whose text is in one file, which is below the folder.
abbrev tree_below : Bytes → Base
tree_below text = record (tree text) {
  read_file = λ p. ok (if bytes_eq p (codes "/out/a") then text else []);
}

abbrev join : Bytes → Bytes → Bytes
join a b = a ++ slash ∷ b

abbrev made : Map Bytes
made = (codes "a", codes "x") ∷ (codes "b", codes "y") ∷ []

-- A mode that the tree does not have, and other bytes.
drift_run :
    check os (tree (codes "x")) join top top made ((codes "/out/a", 493) ∷ [])
    ≡ record {
      path = codes "a";
      kind = mode;
      generated = codes "x";
      existing = some (codes "x");
      mode = 493;
      existing_mode = 420;
    }
      ∷ record {
        path = codes "b";
        kind = content;
        generated = codes "y";
        existing = some (codes "x");
        mode = 0;
        existing_mode = 0;
      }
      ∷ []
unfolding check under shadow_key
drift_run = refl

check-Matches_example :
    (check os (tree (codes "x")) join top top made ((codes "/out/a", 493) ∷ []) ≡ []) ↔ (
      (p gen : Bytes)
      → lookup p made ≡ some gen
      → Matches os (tree (codes "x")) join top top ((codes "/out/a", 493) ∷ []) p gen)
check-Matches_example =
    check-Matches os (tree (codes "x")) join top top made ((codes "/out/a", 493) ∷ [])
      (λ p. (λ m. m, λ m. m))
