-- ===== src/BuildMeta/Encode.antt =====
-- `encode` of go/buildmeta.go: the text of the meta log.
use jostraca.Common.{
  ℕ, ◌<◌, ◌≡◌, All, Bool, true, false, List, [], ◌∷◌, ◌++◌, Option, none, some, Bytes, codes,
}
use jostraca.Js.Quote.{js_quote}
use jostraca.BuildMeta.{MetaEntry}

-- What `encode` calls: `runes` is what `range` gives of a string, `write_rune` what `WriteRune` of a
-- builder writes, `marshal` is `json.Marshal` of an integer, `humanify` the digits that `Humanify`
-- makes of a time. A time is the count of milliseconds since 1970 and not below nothing.
pub record Text : Type 0 where
  pub runes : Bytes → List ℕ
  pub write_rune : ℕ → Bytes
  pub marshal : ℕ → Bytes
  pub humanify : ℕ → ℕ

abbrev pub newline : Bytes
newline = 10 ∷ []

-- The bytes below 128 are the runes of a text and are written as they are.
abbrev pub IsUtf8 : Text → Type 0
IsUtf8 text =
    ((s : Bytes) → All (λ c. c < 128) s → text.runes s ≡ s)
    × ((c : ℕ) → c < 128 → text.write_rune c ≡ c ∷ [])

-- The byte that a loop writes behind an element, where it is not the last one.
abbrev pub comma {ℓ} : {A : Type ℓ} → List A → Bytes
comma [] = []
comma (x ∷ rest) = codes ","

abbrev pub json_bool : Bool → Bytes
json_bool true = codes "true"
json_bool false = codes "false"

module _ (text : Text) where
  unfoldable pub write_runes : List ℕ → Bytes
  write_runes [] = []
  write_runes (r ∷ rs) = text.write_rune r ++ write_runes rs

  abbrev pub json_str : Bytes → Bytes
  json_str s = write_runes (js_quote (text.runes s))

  unfoldable pub slice_items : List Bytes → Bytes
  slice_items [] = []
  slice_items (s ∷ ss) =
      codes "        " ++ (json_str s ++ (comma ss ++ (newline ++ slice_items ss)))

  unfoldable pub json_str_slice : List Bytes → Bytes
  unfolding slice_items
  json_str_slice [] = codes "[]"
  json_str_slice (s ∷ ss) = (codes "[" ++ newline) ++ (slice_items (s ∷ ss) ++ codes "      ]")

  unfoldable pub write_fields : List (Bytes × Bytes) → Bytes
  write_fields [] = []
  write_fields ((k, v) ∷ fs) =
      codes "      "
      ++ (json_str k ++ (codes ": " ++ (v ++ (comma fs ++ (newline ++ write_fields fs)))))

  abbrev pub fingerprint_field : Option (List Bytes) → List (Bytes × Bytes)
  fingerprint_field none = []
  fingerprint_field (some fs) = (codes "fingerprints", json_str_slice fs) ∷ []

  unfoldable pub entry_fields : MetaEntry → List (Bytes × Bytes)
  unfolding json_str_slice
  entry_fields e =
      (codes "action", json_str e.action)
      ∷ (codes "path", json_str e.path)
      ∷ (codes "exists", json_bool e.exists)
      ∷ (codes "actions", json_str_slice e.actions)
      ∷ (codes "protect", json_bool e.protect)
      ∷ (codes "conflict", json_bool e.conflict)
      ∷ (codes "when", text.marshal e.when)
      ∷ (codes "hwhen", text.marshal (text.humanify e.when))
      ∷ fingerprint_field e.fingerprints

  unfoldable pub write_entries : List MetaEntry → Bytes
  unfolding write_fields entry_fields
  write_entries [] = []
  write_entries (e ∷ es) =
      codes "    "
      ++ (json_str e.path
          ++ ((codes ": {" ++ newline)
              ++ (write_fields (entry_fields e)
                  ++ (codes "    }" ++ (comma es ++ (newline ++ write_entries es))))))

  abbrev pub write_kv : Bytes → Bytes → Bytes
  write_kv k v = codes "  " ++ (json_str k ++ (codes ": " ++ (v ++ (codes "," ++ newline))))

  abbrev pub write_files : List MetaEntry → Bytes
  write_files [] = codes "}" ++ newline
  write_files (e ∷ es) = newline ++ (write_entries (e ∷ es) ++ (codes "  }" ++ newline))

  -- The name of the key of the files stands in the text as it is.
  unfoldable pub encode : ℕ → List MetaEntry → Bytes
  unfolding write_entries
  encode now files =
      (codes "{" ++ newline)
      ++ (write_kv (codes "foldername") (json_str (codes ".jostraca"))
          ++ (write_kv (codes "filename") (json_str (codes "jostraca.meta.log"))
              ++ (write_kv (codes "last") (text.marshal now)
                  ++ (write_kv (codes "hlast") (text.marshal (text.humanify now))
                      ++ ((codes "  " ++ (34 ∷ (codes "files" ++ (34 ∷ codes ": {"))))
                          ++ (write_files files ++ codes "}"))))))
