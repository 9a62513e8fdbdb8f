-- ===== src/Tests/BuildMetaTests.antt =====
-- The record of go/buildmeta.go on a few saves.
use jostraca.Common.{◌≡◌, refl, ◌+◌, true, false, [], ◌∷◌, ◌++◌, none, some, Bytes, codes, List}
use jostraca.Js.Index.{is_array_index_key}
use jostraca.BuildMeta.{MetaEntry, new_snapshot, add_all}
use jostraca.BuildMeta.Encode.{Text, newline, write_kv, encode}
use jostraca.BuildMeta.Json.{meta_object, own_order}
use jostraca.BuildMeta.Prior.{
  as_fields, prior_fingerprints, decoded, recorded, prior_fingerprints-meta_object,
}
use jostraca.BuildMeta.Order.{assign_all, add_all-assign_all}

abbrev entry : Bytes → Bytes → MetaEntry
entry path action = record {
  path = path;
  action = action;
  exists = true;
  actions = [];
  protect = false;
  conflict = false;
  when = 1;
  fingerprints = none;
}

abbrev saves : List MetaEntry
saves =
    entry (codes "a") (codes "write")
    ∷ entry (codes "b") (codes "write")
    ∷ entry (codes "a") (codes "merge")
    ∷ []

add_all_run :
    (add_all saves new_snapshot).files
    ≡ entry (codes "a") (codes "merge") ∷ entry (codes "b") (codes "write") ∷ []
unfolding add_all jostraca.Common.bytes_eq jostraca.Common.erase
add_all_run = refl

add_all-assign_all_example : (add_all saves new_snapshot).files ≡ assign_all saves []
add_all-assign_all_example = add_all-assign_all saves

abbrev kept : List Bytes
kept = codes "0123456789abcdef" ∷ codes "x" ∷ []

abbrev files : List MetaEntry
files =
    record (entry (codes "a") (codes "write")) { fingerprints = some kept }
    ∷ entry (codes "b") (codes "write")
    ∷ []

-- Texts whose runes are their bytes, and numbers of one digit.
abbrev text : Text
text = record {
  runes = λ s. s;
  write_rune = λ c. c ∷ [];
  marshal = λ n. (48 + n) ∷ [];
  humanify = λ n. n + 1;
}

empty_log :
    encode text 1 []
    ≡ codes "{"
      ++ (newline
          ++ (write_kv text (codes "foldername") (codes "\".jostraca\"")
              ++ (write_kv text (codes "filename") (codes "\"jostraca.meta.log\"")
                  ++ (write_kv text (codes "last") (codes "1")
                      ++ (write_kv text (codes "hlast") (codes "2")
                          ++ (codes "  \"files\": {}" ++ (newline ++ codes "}")))))))
unfolding encode jostraca.Js.Quote.js_quote jostraca.BuildMeta.Encode.write_runes
empty_log = refl

prior_run : recorded (codes "a") files ≡ codes "0123456789abcdef" ∷ []
unfolding recorded
prior_run = refl

-- Paths that are array indices come first in the object and not in the log.
own_order_run :
    own_order (entry (codes "x") [] ∷ entry (codes "10") [] ∷ entry (codes "9") [] ∷ [])
    ≡ entry (codes "9") [] ∷ entry (codes "10") [] ∷ entry (codes "x") [] ∷ []
unfolding own_order is_array_index_key jostraca.Common.bytes_eq
own_order_run = refl

prior_fingerprints-meta_object_example :
    prior_fingerprints
      (some (as_fields (some (decoded (λ n. n) (meta_object (λ n. n + 1) 1 files)))))
      (codes "a")
    ≡ recorded (codes "a") files
prior_fingerprints-meta_object_example =
    prior_fingerprints-meta_object (λ n. n) (λ n. n + 1) 1 files (codes "a")
