-- ===== src/Diff/Marks.antt =====
-- The conflict markers and labels of go/diff.go: `defaultMarks`, `hasLine`, `HasConflicts`,
-- `labelsOf`. A time is of the type `T`, and `iso` is `isoOf`, which the package `time` computes.
use jostraca.Common.{
  Bool, true, false, ◌||◌, List, [], ◌∷◌, ◌++◌, Option, none, some, Bytes, codes, has_prefix,
  contains, if◌then◌else◌, not, ◌&&◌,
}
use jostraca.Diff.Text.{newline}

pub record DiffLabels : Type 0 where
  pub generated : Bytes
  pub existing : Bytes

-- `when` and `last` are the times of the two labels. An empty `kind` is no kind.
pub record DiffSpec (T : Type 0) : Type 0 where
  pub when : T
  pub last : T
  pub kind : Bytes
  pub labels : Option DiffLabels

abbrev pub mark_start : Bytes
mark_start = codes "<<<<<<< "

abbrev pub mark_mid : Bytes
mark_mid = codes "=======" ++ newline ∷ []

abbrev pub mark_end : Bytes
mark_end = codes ">>>>>>> "

abbrev pub label_generated : Bytes
label_generated = codes "GENERATED"

abbrev pub label_existing : Bytes
label_existing = codes "EXISTING"

abbrev pub default_marks : List Bytes
default_marks =
    (mark_start ++ label_existing ++ codes ":")
    ∷ (mark_end ++ label_existing ++ codes ":")
    ∷ (mark_start ++ label_generated ++ codes ":")
    ∷ (mark_end ++ label_generated ++ codes ":")
    ∷ []

unfoldable pub has_line : Bytes → Bytes → Bool
has_line text mark = has_prefix text mark || contains text (newline ∷ mark)

-- The loop over `defaultMarks`.
abbrev pub any_line : Bytes → List Bytes → Bool
any_line text [] = false
any_line text (mark ∷ marks) = has_line text mark || any_line text marks

abbrev pub is_blank : Bytes → Bool
is_blank [] = true
is_blank (c ∷ s) = false

-- One round of the loop over the two custom labels.
abbrev pub has_label : Bytes → Bytes → Bool
has_label text label =
    not (is_blank label)
    && (has_line text (mark_start ++ label ++ newline ∷ [])
        || has_line text (mark_end ++ label ++ newline ∷ []))

unfoldable pub has_conflicts_labels : Bytes → DiffLabels → Bool
has_conflicts_labels text labels =
    any_line text default_marks
    || (has_label text labels.existing || has_label text labels.generated)

pub has_conflicts : Bytes → Bool
has_conflicts text = has_conflicts_labels text (record { generated = []; existing = [] })

-- A call with only the existing label.
pub has_conflicts_label : Bytes → Bytes → Bool
has_conflicts_label text existing =
    has_conflicts_labels text (record { generated = []; existing = existing })

abbrev pub or_default : Bytes → Bytes → Bytes
or_default s d = if is_blank s then d else s

module _ {T : Type 0} (iso : T → Bytes) where
  abbrev format_label : Bytes → T → Bytes → Bytes
  format_label name time kind = name ++ codes ": " ++ iso time ++ codes "/" ++ kind

  unfoldable pub labels_of : DiffSpec T → Bytes → DiffLabels
  labels_of spec default_kind =
      let kind = or_default spec.kind default_kind in
      let generated = format_label label_generated spec.when kind in
      let existing = format_label label_existing spec.last kind in
      elim spec.labels [
        | none ↦ record { generated = generated; existing = existing }
        | some custom ↦ record {
          generated = or_default custom.generated generated;
          existing = or_default custom.existing existing;
        }
      ]
