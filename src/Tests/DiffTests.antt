-- ===== src/Tests/DiffTests.antt =====
-- go/diff.go on small texts.
use jostraca.Common.{
  ℕ, ◌≡◌, ◌↔◌, refl, true, false, [], ◌∷◌, ◌++◌, none, some, Bytes, codes, bytes_eq, List,
  has_prefix, contains,
}
use jostraca.Diff.Lcs.{Lines, lcs}
use jostraca.Diff.Lcs.Optimal.{IsLongest}
use jostraca.Diff.Lcs.Trim.{lcs-IsLongest}
use jostraca.Diff.Text.{AreLines, newline, lines, join, join-lines}
use jostraca.Diff.Align.{align_lcs}
use jostraca.Diff.Marks.{DiffLabels, DiffSpec, has_line, has_conflicts_labels, labels_of}
use jostraca.Diff.Merge.{State, MergeResult, merged, merge, merge_lines, same_lines, write_conflict}
use jostraca.Diff.Merge.{zip_rows}
use jostraca.Diff.Merge.Chunks.{pieces, conflicts}
use jostraca.Diff.Merge.Cuts.{cuts, Spells}
use jostraca.Diff.Merge.Reference.{merge_lines-cuts}
use jostraca.Diff.Merge.Preserve.{merge_unchanged}
use jostraca.Diff.Hunks.{Hunk, hunks}
use jostraca.Diff.Hunks.Sides.{Alternate, Shows, hunks-Shows}

abbrev line : Bytes → Bytes
line s = s ++ newline ∷ []

abbrev a : Bytes
a = line (codes "a")

abbrev b : Bytes
b = line (codes "b")

abbrev c : Bytes
c = line (codes "c")

abbrev x : Bytes
x = line (codes "x")

abbrev y : Bytes
y = line (codes "y")

abbrev base : Lines
base = a ∷ b ∷ c ∷ []

abbrev mine : Lines
mine = a ∷ x ∷ c ∷ []

abbrev theirs : Lines
theirs = a ∷ y ∷ c ∷ []

lcs_run : lcs (a ∷ b ∷ x ∷ c ∷ b ∷ []) (b ∷ x ∷ y ∷ b ∷ a ∷ []) ≡ b ∷ x ∷ b ∷ []
unfolding lcs bytes_eq
lcs_run = refl

align_run : align_lcs base mine ≡ some 0 ∷ none ∷ some 2 ∷ []
unfolding align_lcs lcs bytes_eq
align_run = refl

lines_run : lines (codes "a" ++ newline ∷ newline ∷ codes "b") ≡ a ∷ (newline ∷ []) ∷ codes "b" ∷ []
unfolding lines
lines_run = refl

abbrev labels : DiffLabels
labels = record { generated = codes "G"; existing = codes "E" }

abbrev spec : DiffSpec ℕ
spec = record { when = 0; last = 0; kind = []; labels = some labels }

abbrev iso : ℕ → Bytes
iso n = codes "now"

conflict_run :
    merge iso (a ++ x ++ c) (a ++ b ++ c) (a ++ y ++ c) spec
    ≡ some (record {
      content =
          a
          ++ line (codes "<<<<<<< E")
          ++ y
          ++ line (codes "=======")
          ++ x
          ++ line (codes ">>>>>>> G")
          ++ c;
      conflict = true;
      outcome = merged;
    })
unfolding merge merge_lines align_lcs lcs lines join bytes_eq has_conflicts_labels has_line
    has_prefix contains same_lines write_conflict labels_of
conflict_run = refl

join-lines_example :
    (join (lines (a ++ codes "b")) ≡ a ++ codes "b") × AreLines (lines (a ++ codes "b"))
join-lines_example = join-lines (a ++ codes "b")

lcs-IsLongest_example : IsLongest base mine (lcs base mine)
lcs-IsLongest_example = lcs-IsLongest base mine

merge_lines-cuts_example :
    (s : State) × (merge_lines labels mine base theirs ≡ some s)
    × (s.out
        ≡ pieces labels
            (cuts (zip_rows base (align_lcs base mine) (align_lcs base theirs)) 0 0 [] mine theirs))
    × (s.conflict
        ≡ conflicts labels
            (cuts (zip_rows base (align_lcs base mine) (align_lcs base theirs)) 0 0 [] mine theirs))
    × Spells
        (cuts (zip_rows base (align_lcs base mine) (align_lcs base theirs)) 0 0 [] mine theirs)
        base
        mine
        theirs
    × ((p q : Lines) → (same_lines p q ≡ true) ↔ (p ≡ q))
merge_lines-cuts_example = merge_lines-cuts labels mine base theirs

merge_unchanged_example :
    (r : MergeResult) × (merge iso (a ++ c) (a ++ c) (a ++ x ++ c) spec ≡ some r)
    × (r.content ≡ a ++ x ++ c)
    × (r.conflict ≡ false)
merge_unchanged_example = merge_unchanged iso (a ++ c) (a ++ x ++ c) spec

hunks-Shows_example :
    (hs : List Hunk) × (hunks mine theirs ≡ some hs)
    × Shows hs mine theirs (lcs mine theirs)
    × Alternate hs
hunks-Shows_example = hunks-Shows mine theirs
