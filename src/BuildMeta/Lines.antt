-- ===== src/BuildMeta/Lines.antt =====
-- The meta log of go/buildmeta.go line by line, against `JSON.stringify(meta, null, 2)` of an object
-- whose files stand in the same order.
use jostraca.Common.{
  ℕ, ◌<◌, All, arith, ◌≡◌, refl, sym, ap, ◌∙◌, List, [], ◌∷◌, ◌++◌, append_assoc, Option, none,
  some, Bytes, codes,
}
use jostraca.Js.Quote.{js_quote}
use jostraca.BuildMeta.{MetaEntry}
use jostraca.BuildMeta.Encode.{
  Text, IsUtf8, write_runes, newline, json_bool, json_str, slice_items, json_str_slice,
  write_fields, fingerprint_field, entry_fields, write_entries, write_kv, write_files, encode,
}
use jostraca.BuildMeta.Json.{
  Json, text_json, array, object, stringify, stringify_items, stringify_members, texts, members,
  fingerprint_members, entry_members, file_members, meta_object,
}

module _ (text : Text) where
  slice_items-texts :
      (s : Bytes) (ss : List Bytes)
      → slice_items text (s ∷ ss)
        ≡ stringify_items text (codes "        ") (texts (s ∷ ss)) ++ newline
  unfolding slice_items stringify texts
  slice_items-texts s [] = refl
  slice_items-texts s (r ∷ ss) =
      (λ i.
        codes "        "
        ++ (json_str text s ++ (codes "," ++ (newline ++ slice_items-texts r ss i))))
      ∙ ap (λ t. codes "        " ++ t)
          (sym (
            append_assoc (json_str text s)
              (codes "," ++ (newline ++ stringify_items text (codes "        ") (texts (r ∷ ss))))
              newline))

  json_str_slice-texts :
      (ss : List Bytes)
      → json_str_slice text ss ≡ stringify text (codes "      ") (array (texts ss))
  unfolding json_str_slice stringify texts
  json_str_slice-texts [] = refl
  json_str_slice-texts (s ∷ ss) =
      ap (λ t. (codes "[" ++ newline) ++ t)
        (ap (λ t. t ++ codes "      ]") (slice_items-texts s ss)
          ∙ append_assoc (stringify_items text (codes "        ") (texts (s ∷ ss))) newline
              (codes "      ]"))

  -- Members whose values stand at the indent of an entry.
  shown : List (Bytes × Json) → List (Bytes × Bytes)
  shown [] = []
  shown ((k, v) ∷ ms) = (k, stringify text (codes "      ") v) ∷ shown ms

  line_last : (q v t : Bytes) → q ++ (codes ": " ++ (v ++ t)) ≡ (q ++ (codes ": " ++ v)) ++ t
  line_last q v t = sym (append_assoc q (codes ": " ++ v) t)

  line_more :
      (q v u t : Bytes)
      → q ++ (codes ": " ++ (v ++ (u ++ t))) ≡ (q ++ (codes ": " ++ (v ++ u))) ++ t
  line_more q v u t =
      ap (λ r. q ++ (codes ": " ++ r)) (sym (append_assoc v u t)) ∙ line_last q (v ++ u) t

  write_fields-members :
      (k : Bytes) (v : Json) (ms : List (Bytes × Json))
      → write_fields text (shown ((k, v) ∷ ms))
        ≡ stringify_members text (codes "      ") (members ((k, v) ∷ ms)) ++ newline
  unfolding write_fields shown members stringify
  write_fields-members k v [] =
      ap (λ t. codes "      " ++ t)
        (line_last (json_str text k) (stringify text (codes "      ") v) newline)
  write_fields-members k v ((j, w) ∷ ms) =
      let value = stringify text (codes "      ") v in
      (λ i.
        codes "      "
        ++ (json_str text k
            ++ (codes ": "
                ++ (value ++ (codes "," ++ (newline ++ write_fields-members j w ms i))))))
      ∙ ap (λ t. codes "      " ++ t)
          (line_more (json_str text k) value
            (codes ","
              ++ (newline ++ stringify_members text (codes "      ") (members ((j, w) ∷ ms))))
            newline)

  fingerprint_field-shown :
      (fs : Option (List Bytes)) → fingerprint_field text fs ≡ shown (fingerprint_members fs)
  unfolding shown fingerprint_members
  fingerprint_field-shown none = refl
  fingerprint_field-shown (some fs) = λ i. (codes "fingerprints", json_str_slice-texts fs i) ∷ []

  entry_fields-shown : (e : MetaEntry) → entry_fields text e ≡ shown (entry_members text.humanify e)
  unfolding entry_fields shown entry_members stringify
  entry_fields-shown e = λ i.
      (codes "action", json_str text e.action)
      ∷ (codes "path", json_str text e.path)
      ∷ (codes "exists", json_bool e.exists)
      ∷ (codes "actions", json_str_slice-texts e.actions i)
      ∷ (codes "protect", json_bool e.protect)
      ∷ (codes "conflict", json_bool e.conflict)
      ∷ (codes "when", text.marshal e.when)
      ∷ (codes "hwhen", text.marshal (text.humanify e.when))
      ∷ fingerprint_field-shown e.fingerprints i

  fields-members :
      (e : MetaEntry)
      → write_fields text (entry_fields text e)
        ≡ stringify_members text (codes "      ") (members (entry_members text.humanify e))
          ++ newline
  unfolding entry_members
  fields-members e =
      ap (write_fields text) (entry_fields-shown e)
      ∙ write_fields-members (codes "action") (text_json e.action) _

  wrap :
      (q x t : Bytes)
      → q ++ ((codes ": {" ++ newline) ++ ((x ++ newline) ++ (codes "    }" ++ t)))
        ≡ q
          ++ (codes ": "
              ++ ((codes "{" ++ (newline ++ (x ++ (newline ++ (codes "    " ++ codes "}"))))) ++ t))
  wrap q x t =
      ap (λ r. q ++ ((codes ": {" ++ newline) ++ r))
        (append_assoc x newline (codes "    }" ++ t)
          ∙ sym (append_assoc x (newline ++ codes "    }") t))

  -- The text of an entry, and what stands behind it.
  entry_text :
      (e : MetaEntry) (t : Bytes)
      → json_str text e.path
          ++ ((codes ": {" ++ newline)
              ++ (write_fields text (entry_fields text e) ++ (codes "    }" ++ t)))
        ≡ json_str text e.path
          ++ (codes ": "
              ++ (stringify text (codes "    ") (object (members (entry_members text.humanify e)))
                  ++ t))
  unfolding stringify members entry_members
  entry_text e t =
      (λ i.
        json_str text e.path
        ++ ((codes ": {" ++ newline) ++ (fields-members e i ++ (codes "    }" ++ t))))
      ∙ wrap (json_str text e.path)
          (stringify_members text (codes "      ") (members (entry_members text.humanify e))) t

  entry_value : MetaEntry → Bytes
  entry_value e = stringify text (codes "    ") (object (members (entry_members text.humanify e)))

  write_entries-file_members :
      (e : MetaEntry) (es : List MetaEntry)
      → write_entries text (e ∷ es)
        ≡ stringify_members text (codes "    ") (file_members text.humanify (e ∷ es)) ++ newline
  unfolding write_entries stringify file_members entry_value
  write_entries-file_members e [] =
      ap (λ t. codes "    " ++ t)
        (entry_text e newline ∙ line_last (json_str text e.path) (entry_value e) newline)
  write_entries-file_members e (d ∷ es) =
      let rest = stringify_members text (codes "    ") (file_members text.humanify (d ∷ es)) in
      ap (λ t. codes "    " ++ t)
        (entry_text e (codes "," ++ (newline ++ write_entries text (d ∷ es)))
          ∙ (λ i.
              json_str text e.path
              ++ (codes ": "
                  ++ (entry_value e
                      ++ (codes "," ++ (newline ++ write_entries-file_members d es i)))))
          ∙ line_more (json_str text e.path) (entry_value e) (codes "," ++ (newline ++ rest))
              newline)

  -- A line of the object, where what follows it is known.
  kv_line :
      (k v y r t : Bytes)
      → r ≡ y ++ t
      → write_kv text k v ++ r
        ≡ (codes "  " ++ (json_str text k ++ (codes ": " ++ (v ++ (codes "," ++ (newline ++ y))))))
          ++ t
  kv_line k v y r t e =
      ap (λ s. codes "  " ++ s)
        (sym (line_more (json_str text k) v (codes "," ++ newline) r)
          ∙ (λ i. json_str text k ++ (codes ": " ++ (v ++ (codes "," ++ (newline ++ e i)))))
          ∙ line_more (json_str text k) v (codes "," ++ (newline ++ y)) t)

  close :
      (x : Bytes)
      → ((x ++ newline) ++ (codes "  }" ++ newline)) ++ codes "}"
        ≡ (x ++ (newline ++ (codes "  " ++ codes "}"))) ++ (newline ++ codes "}")
  close x =
      append_assoc (x ++ newline) (codes "  }" ++ newline) (codes "}")
      ∙ append_assoc x newline (codes "  }" ++ (newline ++ codes "}"))
      ∙ sym (append_assoc x (newline ++ codes "  }") (newline ++ codes "}"))

  files_text :
      (files : List MetaEntry)
      → codes ": {" ++ (write_files text files ++ codes "}")
        ≡ (codes ": " ++ stringify text (codes "  ") (object (file_members text.humanify files)))
          ++ (newline ++ codes "}")
  unfolding stringify file_members
  files_text [] = refl
  files_text (e ∷ es) =
      (λ i.
        codes ": {"
        ++ (newline
            ++ ((write_entries-file_members e es i ++ (codes "  }" ++ newline)) ++ codes "}")))
      ∙ ap (λ t. codes ": {" ++ (newline ++ t))
          (close (stringify_members text (codes "    ") (file_members text.humanify (e ∷ es))))

  write_runes-ascii : IsUtf8 text → (s : Bytes) → All (λ c. c < 128) s → write_runes text s ≡ s
  unfolding write_runes
  write_runes-ascii utf8 [] h = refl
  write_runes-ascii utf8 (c ∷ s) (h, hs) = (λ i. utf8.1 c h i ++ write_runes-ascii utf8 s hs i)

  json_str-files : IsUtf8 text → json_str text (codes "files") ≡ codes "\"files\""
  unfolding js_quote
  json_str-files utf8 =
      ap (λ r. write_runes text (js_quote r)) (utf8.0 (codes "files") (omega arith))
      ∙ write_runes-ascii utf8 (codes "\"files\"") (omega arith)

  files_line :
      IsUtf8 text
      → (files : List MetaEntry)
      → (codes "  " ++ (34 ∷ (codes "files" ++ (34 ∷ codes ": {"))))
          ++ (write_files text files ++ codes "}")
        ≡ (codes "  "
            ++ (json_str text (codes "files")
                ++ (codes ": "
                    ++ stringify text (codes "  ") (object (file_members text.humanify files)))))
          ++ (newline ++ codes "}")
  files_line utf8 files =
      ap (λ t. codes "  " ++ (34 ∷ (codes "files" ++ (34 ∷ t)))) (files_text files) ∙ (λ i.
        (codes "  "
          ++ (sym (json_str-files utf8) i
              ++ (codes ": "
                  ++ stringify text (codes "  ") (object (file_members text.humanify files)))))
        ++ (newline ++ codes "}"))

pub encode-meta_object :
    (text : Text)
    → IsUtf8 text
    → (now : ℕ) (files : List MetaEntry)
    → encode text now files ≡ stringify text [] (meta_object text.humanify now files)
unfolding encode stringify meta_object
encode-meta_object text utf8 now files =
    ap (λ t. (codes "{" ++ newline) ++ t)
      (kv_line text (codes "foldername") (json_str text (codes ".jostraca")) _ _
        (newline ++ codes "}")
        (kv_line text (codes "filename") (json_str text (codes "jostraca.meta.log")) _ _
          (newline ++ codes "}")
          (kv_line text (codes "last") (text.marshal now) _ _ (newline ++ codes "}") (
            kv_line text (codes "hlast") (text.marshal (text.humanify now)) _ _
              (newline ++ codes "}") (files_line text utf8 files)))))
