-- ===== src/Tests/CopyTests.antt =====
-- The copy walk of go/build.go over a folder with a file and a link to the folder itself.
use jostraca.Common.{
  ◌≡◌, refl, true, false, List, [], ◌∷◌, none, some, inr, Bytes, codes, bytes_eq, arith,
}
use jostraca.Build.Copy.{
  CopyEnv, CopyState, walk_copy_depth, walk_copy, is_visited, realpath_of, unwind, copy_entries,
  unmark, copy_entry, is_folder, put_entry, mark,
}
use jostraca.Build.Copy.Visits.{is_too_deep, walk_copy-shallow}

abbrev Saved : Type 0
Saved = List (Bytes × Bytes)

-- Every folder is the one at `/a`.
abbrev looped : CopyEnv Saved Bytes
looped = record {
  realpath = λ fs p. some (codes "/a");
  read_dir = λ fs p. inr (
      record { name = codes "f"; is_dir = false }
      ∷ record { name = codes "l"; is_dir = true }
      ∷ []);
  stat = λ fs p. none;
  read_file = λ fs p. inr (codes "x");
  sort = λ es. es;
  ignored = λ name rel. false;
  is_bin_ext = λ p. false;
  is_bin_content = λ d. false;
  template = λ d. inr d;
  copy = λ p q fs. (none, fs);
  save_binary = λ p d fs. (none, (p, d) ∷ fs);
  save = λ p d fs. (none, (p, d) ∷ fs);
}

looped_run : walk_copy looped (codes "/a") (codes "/o") [] ≡ (
  none,
  record {
    visited = [];
    warned = (codes "/a/l", codes "/a") ∷ [];
    store = (codes "/o/f", codes "x") ∷ [];
  },
)
unfolding walk_copy walk_copy_depth is_visited unwind copy_entries unmark copy_entry is_folder
    put_entry mark bytes_eq realpath_of
looped_run = refl

abbrev below : CopyState Saved
below = record { visited = codes "/b" ∷ []; warned = []; store = [] }

walk_copy-shallow_example : is_too_deep (walk_copy looped (codes "/a") (codes "/o") []).0 ≡ false
unfolding is_visited realpath_of bytes_eq
walk_copy-shallow_example =
    walk_copy-shallow looped (λ fs. Unit) (codes "/a" ∷ []) (λ name src dst fs g. tt)
      (λ fs p es g e. refl) (omega (arith)) (codes "/a") (codes "/o") [] tt
