-- ===== src/Tests/OptionsTests.antt =====
-- go/options.go on small options.
use jostraca.Common.{
  ◌≡◌, refl, ℕ, Bool, true, false, [], ◌∷◌, Option, none, some, inr, codes, lookup, ◌==◌, sym, ap,
  ◌∙◌, bytes_eq,
}
use jostraca.Options.{
  Any, bool_of, text_of, list_of, map_of, host_value, no_anys, any_of, Entries, no_entries, entry,
  get_entry, literal, matches_re, Options, merge_options, modes_of, files_of,
}
use jostraca.Options.Merge.{
  modes_of-merge_options, modes_over, file_at, first_of, file_at-merge_options,
}
use jostraca.Options.Decode.{Schema, is_name_exclude, field_as, as_map}
use jostraca.Options.FromMap.{options_from_map}
use jostraca.Options.With.{
  no_txt, no_bin, no_affix, zero_options, with_folder, with_mem, apply_options,
}
use jostraca.Options.Usable.{options_from_map-usable, all_usable}

-- A host value is a regular expression where it is 1, a file system where it is 2.
abbrev global : Options ℕ
global = record zero_options {
  folder = codes "out";
  existing = record {
    txt = record no_txt { merge_mode = some true; conflict = codes "fail" };
    bin = record no_bin { present = some true };
  };
  vol = some ((codes "a", some (codes "1")) ∷ (codes "b", some (codes "2")) ∷ []);
}

abbrev call : Options ℕ
call = record zero_options {
  existing = record {
    txt = record no_txt { diff_mode = some true; write = some false };
    bin = no_bin;
  };
  vol = some ((codes "b", some (codes "3")) ∷ []);
}

two_options :
    apply_options (with_folder (codes "a") ∷ with_mem ∷ with_folder (codes "b") ∷ [])
    ≡ record (zero_options {H = ℕ}) { folder = codes "b"; mem = some true }
unfolding apply_options
two_options = refl

merged_file :
    lookup (codes "b") (files_of (merge_options global call).vol) ≡ some (some (codes "3"))
unfolding merge_options lookup bytes_eq
merged_file = refl

modes_of-merge_options_example :
    modes_of (merge_options global call) true ≡ modes_over call (modes_of global true) true
modes_of-merge_options_example = modes_of-merge_options global call true

file_at-merge_options_example :
    file_at (codes "b") (merge_options global call).vol
    ≡ first_of (file_at (codes "b") call.vol) (file_at (codes "b") global.vol)
file_at-merge_options_example = file_at-merge_options global call (codes "b")

-- A schema that refuses a map where the check of its names does not hold, and accepts others.
abbrev is_one : ℕ → Bool
is_one n = n == 1

abbrev excluded_ok : Option (Any ℕ) → Bool
excluded_ok none = true
excluded_ok (some x) = is_name_exclude is_one x

abbrev names_ok : Option (Entries ℕ) → Bool
names_ok none = true
names_ok (some n) = excluded_ok (get_entry (codes "exclude") n)

abbrev refusal : Bool → Option ℕ
refusal true = none
refusal false = some 0

abbrev schema : Schema ℕ ℕ
schema = record {
  valid_options = λ m. refusal (names_ok (field_as as_map (codes "name") m));
  valid_existing = λ m. none;
  compile = λ s. inr 1;
  is_fs = λ h. h == 2;
  is_now = λ h. h == 3;
  is_log = λ h. h == 4;
  is_regexp = is_one;
  function = 5;
}

sound : (b : Bool) → refusal b ≡ none → b ≡ true
sound true h = refl
sound false h = absurd (cc)

accepted :
    (m n : Entries ℕ) (x : Any ℕ)
    → schema.valid_options m ≡ none
    → field_as as_map (codes "name") m ≡ some n
    → get_entry (codes "exclude") n ≡ some x
    → is_name_exclude schema.is_regexp x ≡ true
accepted m n x valid e f =
    sym (ap excluded_ok f)
    ∙ sym (ap names_ok e)
    ∙ sound (names_ok (field_as as_map (codes "name") m)) valid

abbrev given : Entries ℕ
given = entry (codes "fs") (host_value 2) (
    entry (codes "mem") (bool_of true) (
      entry (codes "name")
        (map_of (
          entry (codes "exclude")
            (list_of (any_of (text_of (codes "a.js")) (any_of (host_value 1) no_anys))) no_entries))
        no_entries))

abbrev read_options : Options ℕ
read_options = record zero_options {
  fs = some 2;
  mem = some true;
  name = record {
    file = no_affix;
    folder = no_affix;
    exclude = literal (codes "a.js") ∷ matches_re 1 ∷ [];
  };
}

given-read : options_from_map schema given ≡ inr read_options
unfolding options_from_map is_name_exclude
given-read = refl

options_from_map-usable_example : all_usable read_options.name.exclude ≡ true
options_from_map-usable_example =
    options_from_map-usable schema accepted given read_options given-read
