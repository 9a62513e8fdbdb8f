-- ===== src/Tests/SaveTests.antt =====
-- `saveAs` of go/filehandler.go on small files.
use jostraca.Common.{
  ℕ, ◌≡◌, refl, true, false, [], ◌∷◌, ◌++◌, none, some, Bytes, codes, bytes_eq, contains,
  has_prefix,
}
use jostraca.Diff.Text.{newline}
use jostraca.Diff.Merge.{MergeResult, merge}
use jostraca.Save.{
  ModeBits, View, SaveState, protected, spec_of, base_content, is_earlier, save_as,
  with_fingerprint,
}
use jostraca.Save.Target.{holds, merge_target, save_as-protected_target, save_as-merge_target}

abbrev a : Bytes
a = codes "a" ++ newline ∷ []

abbrev b : Bytes
b = codes "b" ++ newline ∷ []

abbrev c : Bytes
c = codes "c" ++ newline ∷ []

abbrev iso : ℕ → Bytes
iso n = codes "now"

abbrev hash : Bytes → Bytes
hash s = s

abbrev write_modes : ModeBits
write_modes = record {
  write = true;
  preserve = false;
  present = true;
  diff_mode = false;
  merge_mode = false;
  conflict_fail = false;
}

abbrev merge_modes : ModeBits
merge_modes = record write_modes { merge_mode = true; conflict_fail = true }

abbrev fresh : View
fresh = record {
  exists = false;
  existing = [];
  duplicate = true;
  dup_content = none;
  within = true;
  prior = [];
}

abbrev edited : View
edited = record fresh { exists = true; existing = a ++ b; dup_content = some a }

abbrev marked : View
marked = record fresh { exists = true; existing = codes "JOSTRACA_PROTECT" }

fingerprint_run :
    with_fingerprint (codes "1" ∷ codes "2" ∷ []) (codes "1") ≡ codes "2" ∷ codes "1" ∷ []
unfolding with_fingerprint bytes_eq
fingerprint_run = refl

marked_protected : protected write_modes marked c ≡ true
unfolding protected contains has_prefix
marked_protected = refl

edited_free : (modes : ModeBits) (s : Bytes) → protected modes edited s ≡ false
unfolding protected contains has_prefix
edited_free modes s = refl

edited_later : is_earlier iso hash 1 2 merge_modes edited (c ++ a) ≡ false
unfolding is_earlier bytes_eq
edited_later = refl

save_as-protected_target_example :
    (s : SaveState) × (save_as iso hash 1 2 write_modes marked c ≡ some s)
    × (holds s.calls (some marked.existing) ≡ some marked.existing)
save_as-protected_target_example =
    save_as-protected_target iso hash 1 2 write_modes marked c refl marked_protected

save_as-merge_target_example :
    (s : SaveState) × (r : MergeResult) × (save_as iso hash 1 2 merge_modes edited (c ++ a)
      ≡ some s)
    × (merge iso
          (c ++ a)
          (base_content iso hash 1 2 merge_modes edited (c ++ a))
          edited.existing
          (spec_of iso hash 1 2 merge_modes edited (c ++ a) (codes "merge"))
        ≡ some r)
    × (holds s.calls (some edited.existing)
        ≡ some (merge_target iso hash 1 2 merge_modes edited (c ++ a) r))
save_as-merge_target_example =
    save_as-merge_target iso hash 1 2 merge_modes edited (c ++ a) refl
      (edited_free merge_modes (c ++ a)) refl refl refl edited_later
