-- ===== src/Save/Merged.antt =====
-- What `saveMerge` of go/filehandler.go relies on of `Merge` in go/diff.go.
use jostraca.Common.{◌≡◌, refl, inl, inr, true, false, some, Bytes, codes, bytes_eq, Bool-cases}
use jostraca.Diff.Text.{lines, join}
use jostraca.Diff.Marks.{DiffSpec, has_conflicts_labels, labels_of}
use jostraca.Diff.Merge.{MergeResult, same, clean, unresolved, merged, merge, custom_labels}
use jostraca.Diff.Merge.Reference.{merge_lines-cuts}
use jostraca.Save.{is_unresolved}

-- `Merge` returns a result, whose content is the existing text where that has conflict markers left.
pub merge-existing :
    {T : Type 0} (iso : T → Bytes) (generated baseline existing : Bytes) (spec : DiffSpec T)
    → (r : MergeResult) × (merge iso generated baseline existing spec ≡ some r)
      × (is_unresolved r.outcome ≡ true → r.content ≡ existing)
unfolding merge
merge-existing iso generated baseline existing spec =
    elim (Bool-cases (bytes_eq generated existing)) [
      | inl e ↦
          (record { content = existing; conflict = false; outcome = same }, rw e refl, λ u. refl)
      | inr e ↦ elim (Bool-cases (bytes_eq existing baseline)) [
        | inl f ↦ (
          record { content = generated; conflict = false; outcome = clean },
          rw (e, f) refl,
          λ u. absurd (cc (u)),
        )
        | inr f ↦ elim (Bool-cases (has_conflicts_labels existing (custom_labels iso spec))) [
          | inl g ↦ (
            record { content = existing; conflict = false; outcome = unresolved },
            rw (e, f, g) refl,
            λ u. refl,
          )
          | inr g ↦
              let (s, ends, out, flag, whole, tests) =
                merge_lines-cuts (labels_of iso spec (codes "merge")) (lines generated)
                  (lines baseline) (lines existing) in
              (
                record { content = join s.out; conflict = s.conflict; outcome = merged },
                rw (e, f, g, ends) refl,
                λ u. absurd (cc (u)),
              )
        ]
      ]
    ]
