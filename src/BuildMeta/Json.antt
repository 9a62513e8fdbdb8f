-- ===== src/BuildMeta/Json.antt =====
-- The object that the TypeScript keeps of a build, and `JSON.stringify(meta, null, 2)`: what the meta
-- log of go/buildmeta.go is to be.
use jostraca.Common.{
  ℕ, Bool, if◌then◌else◌, leb, List, [], ◌∷◌, ◌++◌, Option, none, some, Bytes, codes,
}
use jostraca.Js.Index.{is_array_index_key, parse_digits}
use jostraca.BuildMeta.{MetaEntry}
use jostraca.BuildMeta.Encode.{Text, newline, json_bool, json_str}

mutual
  pub data Json : Type 0 where
    text_json : Bytes → Json
    number_json : ℕ → Json
    bool_json : Bool → Json
    array : Items → Json
    object : Members → Json

  pub data Items : Type 0 where
    no_items : Items
    item : Json → Items → Items

  pub data Members : Type 0 where
    no_members : Members
    member : Bytes → Json → Members → Members

-- `JSON.stringify` with an indent of two spaces, for a value that stands at an indent.
module _ (text : Text) where
  unfoldable mutual
    pub stringify : Bytes → Json → Bytes
    stringify ind (text_json s) = json_str text s
    stringify ind (number_json n) = text.marshal n
    stringify ind (bool_json b) = json_bool b
    stringify ind (array no_items) = codes "[]"
    stringify ind (array (item v vs)) =
        codes "["
        ++ (newline
            ++ (stringify_items (codes "  " ++ ind) (item v vs) ++ (newline ++ (ind ++ codes "]"))))
    stringify ind (object no_members) = codes "{}"
    stringify ind (object (member k v ms)) =
        codes "{"
        ++ (newline
            ++ (stringify_members (codes "  " ++ ind) (member k v ms)
                ++ (newline ++ (ind ++ codes "}"))))

    pub stringify_items : Bytes → Items → Bytes
    stringify_items ind no_items = []
    stringify_items ind (item v no_items) = ind ++ stringify ind v
    stringify_items ind (item v (item w vs)) =
        ind ++ (stringify ind v ++ (codes "," ++ (newline ++ stringify_items ind (item w vs))))

    pub stringify_members : Bytes → Members → Bytes
    stringify_members ind no_members = []
    stringify_members ind (member k v no_members) =
        ind ++ (json_str text k ++ (codes ": " ++ stringify ind v))
    stringify_members ind (member k v (member j w ms)) =
        ind
        ++ (json_str text k
            ++ (codes ": "
                ++ (stringify ind v
                    ++ (codes "," ++ (newline ++ stringify_members ind (member j w ms))))))

unfoldable pub texts : List Bytes → Items
texts [] = no_items
texts (s ∷ ss) = item (text_json s) (texts ss)

unfoldable pub members : List (Bytes × Json) → Members
members [] = no_members
members ((k, v) ∷ ms) = member k v (members ms)

unfoldable pub fingerprint_members : Option (List Bytes) → List (Bytes × Json)
unfolding texts
fingerprint_members none = []
fingerprint_members (some fs) = (codes "fingerprints", array (texts fs)) ∷ []

module _ (humanify : ℕ → ℕ) where
  unfoldable pub entry_members : MetaEntry → List (Bytes × Json)
  entry_members e =
      (codes "action", text_json e.action)
      ∷ (codes "path", text_json e.path)
      ∷ (codes "exists", bool_json e.exists)
      ∷ (codes "actions", array (texts e.actions))
      ∷ (codes "protect", bool_json e.protect)
      ∷ (codes "conflict", bool_json e.conflict)
      ∷ (codes "when", number_json e.when)
      ∷ (codes "hwhen", number_json (humanify e.when))
      ∷ fingerprint_members e.fingerprints

  unfoldable pub file_members : List MetaEntry → Members
  file_members [] = no_members
  file_members (e ∷ es) = member e.path (object (members (entry_members e))) (file_members es)

  -- The object of a build, with its files in the order of a list.
  unfoldable pub meta_object : ℕ → List MetaEntry → Json
  meta_object now files = object (
      member (codes "foldername") (text_json (codes ".jostraca")) (
        member (codes "filename") (text_json (codes "jostraca.meta.log")) (
          member (codes "last") (number_json now) (
            member (codes "hlast") (number_json (humanify now))
              (member (codes "files") (object (file_members files)) no_members)))))

unfoldable insert_index : MetaEntry → List MetaEntry → List MetaEntry
insert_index e [] = e ∷ []
insert_index e (d ∷ ds) =
    let rest = insert_index e ds in
    if leb (parse_digits 0 e.path) (parse_digits 0 d.path) then e ∷ d ∷ ds else d ∷ rest

-- The entries whose paths are array indices, from the least index to the greatest.
unfoldable pub index_entries : List MetaEntry → List MetaEntry
unfolding insert_index
index_entries [] = []
index_entries (e ∷ es) =
    let rest = index_entries es in if is_array_index_key e.path then insert_index e rest else rest

unfoldable pub other_entries : List MetaEntry → List MetaEntry
other_entries [] = []
other_entries (e ∷ es) =
    let rest = other_entries es in if is_array_index_key e.path then rest else e ∷ rest

-- The order in which a plain object of JavaScript gives its members: the array indices by their
-- numbers, and then the other keys as they were added.
unfoldable pub own_order : List MetaEntry → List MetaEntry
unfolding index_entries other_entries
own_order files = index_entries files ++ other_entries files
