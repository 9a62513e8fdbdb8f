-- ===== src/Options/Merge.antt =====
-- What a save reads of the options of a call that are put over the builder's.
use jostraca.Common.{
  Map, lookup, lookup-erase-ne, Bool-cases, inl, inr, bytes_eq_iff, arith, ◌∙◌, ap, sym, ◌&&◌, ◌||◌,
  ◌≡◌, refl, Bool, true, false, [], ◌∷◌, Option, none, some, Bytes, codes, bytes_eq,
}
use jostraca.Js.Index.{is_empty}
use jostraca.Save.{ModeBits, bool_or}
use jostraca.Options.{
  put_files, files_of, merge_vol, Options, over_bool, over_text, merge_options, modes_of,
}

over_bool-bool_or :
    (global call : Option Bool) (def : Bool)
    → bool_or (over_bool global call) def ≡ bool_or call (bool_or global def)
over_bool-bool_or global none def = refl
over_bool-bool_or global (some b) def = refl

-- The modes of a call where it gives them, else those that stand below it.
abbrev pub modes_over : {H : Type 0} → Options H → ModeBits → Bool → ModeBits
modes_over call modes true = record {
  write = bool_or call.existing.txt.write modes.write;
  preserve = bool_or call.existing.txt.preserve modes.preserve;
  present = bool_or call.existing.txt.present modes.present;
  diff_mode = bool_or call.existing.txt.diff_mode modes.diff_mode;
  merge_mode = bool_or call.existing.txt.merge_mode modes.merge_mode;
  conflict_fail =
      bytes_eq call.existing.txt.conflict (codes "fail")
      || (is_empty call.existing.txt.conflict && modes.conflict_fail);
}
modes_over call modes false = record {
  write = bool_or call.existing.bin.write modes.write;
  preserve = bool_or call.existing.bin.preserve modes.preserve;
  present = bool_or call.existing.bin.present modes.present;
  diff_mode = false;
  merge_mode = false;
  conflict_fail = false;
}

or_false : (b : Bool) → b ≡ (b || false)
or_false true = refl
or_false false = refl

over_text-fail :
    (global call : Bytes)
    → bytes_eq (over_text global call) (codes "fail")
      ≡ (bytes_eq call (codes "fail") || (is_empty call && bytes_eq global (codes "fail")))
unfolding bytes_eq
over_text-fail global [] = refl
over_text-fail global (c ∷ s) = or_false (bytes_eq (c ∷ s) (codes "fail"))

-- The modes of a file class are those of the call where it gives them, else those that the builder's
-- options have; a conflict fails the run where the call says so, or where it says nothing and the
-- builder's options say so.
pub modes_of-merge_options :
    {H : Type 0} (global call : Options H) (is_text : Bool)
    → modes_of (merge_options global call) is_text
      ≡ modes_over call (modes_of global is_text) is_text
unfolding modes_of merge_options
modes_of-merge_options global call true = λ i. record {
  write = over_bool-bool_or global.existing.txt.write call.existing.txt.write true i;
  preserve = over_bool-bool_or global.existing.txt.preserve call.existing.txt.preserve false i;
  present = over_bool-bool_or global.existing.txt.present call.existing.txt.present false i;
  diff_mode = over_bool-bool_or global.existing.txt.diff_mode call.existing.txt.diff_mode false i;
  merge_mode =
      over_bool-bool_or global.existing.txt.merge_mode call.existing.txt.merge_mode false i;
  conflict_fail = over_text-fail global.existing.txt.conflict call.existing.txt.conflict i;
}
modes_of-merge_options global call false = λ i. record {
  write = over_bool-bool_or global.existing.bin.write call.existing.bin.write true i;
  preserve = over_bool-bool_or global.existing.bin.preserve call.existing.bin.preserve false i;
  present = over_bool-bool_or global.existing.bin.present call.existing.bin.present false i;
  diff_mode = false;
  merge_mode = false;
  conflict_fail = false;
}

abbrev pub first_of : {A : Type 0} → Option A → Option A → Option A
first_of none o = o
first_of (some a) o = some a

lookup-put_files :
    (k : Bytes) (m out : Map (Option Bytes))
    → lookup k (put_files m out) ≡ first_of (lookup k m) (lookup k out)
unfolding put_files lookup
lookup-put_files k [] out = refl
lookup-put_files k ((j, v) ∷ m) out = elim (Bool-cases (bytes_eq j k)) [
  | inl e ↦ rw e refl
  | inr e ↦
      rw
        (
          e,
          lookup-erase-ne k j (put_files m out) (λ h. ground (arith, bytes_eq_iff j k, sym h, e)),
          lookup-put_files k m out,
        )
        refl
]

first_of-none : {A : Type 0} (o : Option A) → first_of o none ≡ o
first_of-none none = refl
first_of-none (some a) = refl

abbrev pub file_at : Bytes → Option (Map (Option Bytes)) → Option (Option Bytes)
file_at k vol = lookup k (files_of vol)

file_at-merge_vol :
    (k : Bytes) (global call : Option (Map (Option Bytes)))
    → file_at k (merge_vol global call) ≡ first_of (file_at k call) (file_at k global)
unfolding merge_vol lookup
file_at-merge_vol k global none = refl
file_at-merge_vol k global (some call) =
    lookup-put_files k call (put_files (files_of global) [])
    ∙ ap (first_of (lookup k call))
        (lookup-put_files k (files_of global) [] ∙ first_of-none (lookup k (files_of global)))

-- Where a call gives a file or a folder at a path, the options that it runs with have that one, and
-- elsewhere they have what the builder's options have there.
pub file_at-merge_options :
    {H : Type 0} (global call : Options H) (k : Bytes)
    → file_at k (merge_options global call).vol
      ≡ first_of (file_at k call.vol) (file_at k global.vol)
unfolding merge_options
file_at-merge_options global call k = file_at-merge_vol k global.vol call.vol
