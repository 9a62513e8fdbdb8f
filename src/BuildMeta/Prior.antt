-- ===== src/BuildMeta/Prior.antt =====
-- `priorFingerprints` of go/buildmeta.go, and that it reads what `encode` has recorded.
use jostraca.Common.{
  ℕ, ◌≡◌, refl, ap, Bool, ◌&&◌, ◌||◌, List, [], ◌∷◌, Option, none, some, inl, inr, Bytes, codes,
  bytes_eq, Bool-cases, leb, ◌==◌, if◌then◌else◌, length,
}
use jostraca.Tree.{
  Value, bool_value, number_value, string_value, list_value, map_value, Values, no_values, value,
  Fields, no_fields, field,
}
use jostraca.Util.Deep.{get_field}
use jostraca.Js.Values.{all_of}
use jostraca.BuildMeta.{MetaEntry}
use jostraca.BuildMeta.Json.{
  Json, text_json, number_json, bool_json, array, object, Items, no_items, item, Members,
  no_members, member, texts, members, fingerprint_members, entry_members, file_members, meta_object,
}

-- `fingerprintPattern`.
unfoldable pub is_fingerprint : Bytes → Bool
unfolding all_of
is_fingerprint s =
    length s == 16 && all_of (λ c. (leb 48 c && leb c 57) || (leb 97 c && leb c 102)) s

abbrev pub as_fields : Option Value → Fields
as_fields (some (map_value m)) = m
as_fields v = no_fields

abbrev pub as_values : Option Value → Values
as_values (some (list_value vs)) = vs
as_values v = no_values

unfoldable pub keep_prints : Values → List Bytes
unfolding is_fingerprint
keep_prints no_values = []
keep_prints (value (string_value s) vs) =
    let rest = keep_prints vs in if is_fingerprint s then s ∷ rest else rest
keep_prints (value v vs) = keep_prints vs

unfoldable pub prior_fingerprints : Option Fields → Bytes → List Bytes
unfolding keep_prints get_field
prior_fingerprints none rpath = []
prior_fingerprints (some prev) rpath = keep_prints (
    as_values (
      get_field (codes "fingerprints")
        (as_fields (get_field rpath (as_fields (get_field (codes "files") prev))))))

-- What decoding makes of a value; `float` is the float64 of an integer.
module _ (float : ℕ → ℕ) where
  unfoldable mutual
    pub decoded : Json → Value
    decoded (text_json s) = string_value s
    decoded (number_json n) = number_value (float n)
    decoded (bool_json b) = bool_value b
    decoded (array vs) = list_value (decoded_items vs)
    decoded (object ms) = map_value (decoded_members ms)

    pub decoded_items : Items → Values
    decoded_items no_items = no_values
    decoded_items (item v vs) = value (decoded v) (decoded_items vs)

    pub decoded_members : Members → Fields
    decoded_members no_members = no_fields
    decoded_members (member k v ms) = field k (decoded v) (decoded_members ms)

unfoldable pub true_prints : List Bytes → List Bytes
unfolding is_fingerprint
true_prints [] = []
true_prints (s ∷ ss) = let rest = true_prints ss in if is_fingerprint s then s ∷ rest else rest

abbrev given : Option (List Bytes) → List Bytes
given none = []
given (some fs) = fs

-- The fingerprints that the entry of a path holds.
unfoldable pub recorded : Bytes → List MetaEntry → List Bytes
unfolding true_prints bytes_eq
recorded p [] = []
recorded p (e ∷ es) =
    let rest = recorded p es in
    if bytes_eq e.path p then true_prints (given e.fingerprints) else rest

module _ (float humanify : ℕ → ℕ) where
  keep_prints-texts :
      (ss : List Bytes) → keep_prints (decoded_items float (texts ss)) ≡ true_prints ss
  unfolding keep_prints decoded texts true_prints
  keep_prints-texts [] = refl
  keep_prints-texts (s ∷ ss) =
      ap (λ r. if is_fingerprint s then s ∷ r else r) (keep_prints-texts ss)

  entry_prints :
      (e : MetaEntry)
      → keep_prints (
          as_values (
            get_field
              (codes "fingerprints")
              (decoded_members float (members (entry_members humanify e)))))
        ≡ true_prints (given e.fingerprints)
  unfolding get_field decoded members entry_members fingerprint_members keep_prints true_prints
      bytes_eq
  entry_prints e = go e.fingerprints
    where
      go :
          (fs : Option (List Bytes))
          → keep_prints (
              as_values (
                get_field
                  (codes "fingerprints")
                  (decoded_members float (members (fingerprint_members fs)))))
            ≡ true_prints (given fs)
      go none = refl
      go (some fs) = keep_prints-texts fs

  file_prints :
      (p : Bytes) (es : List MetaEntry)
      → keep_prints (
          as_values (
            get_field
              (codes "fingerprints")
              (as_fields (get_field p (decoded_members float (file_members humanify es))))))
        ≡ recorded p es
  unfolding get_field decoded file_members recorded keep_prints
  file_prints p [] = refl
  file_prints p (e ∷ es) = elim (Bool-cases (bytes_eq e.path p)) [
    | inl h ↦ rw h (entry_prints e)
    | inr h ↦ rw h (file_prints p es)
  ]

-- Where a meta log holds the object of a build, in the form that `encode` gives it, the next build
-- reads of every path the fingerprints that the entry of the path holds, less what does not have the
-- form of a fingerprint, and none of a path that has no entry.
pub prior_fingerprints-meta_object :
    (float humanify : ℕ → ℕ) (now : ℕ) (files : List MetaEntry) (p : Bytes)
    → prior_fingerprints
        (some (as_fields (some (decoded float (meta_object humanify now files)))))
        p
      ≡ recorded p files
unfolding prior_fingerprints decoded meta_object get_field bytes_eq
prior_fingerprints-meta_object float humanify now files p = file_prints float humanify p files
