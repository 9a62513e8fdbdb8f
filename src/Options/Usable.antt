-- ===== src/Options/Usable.antt =====
-- What the checks of the schema in go/options.go are for: the decoders behind them find what they
-- take.
use jostraca.Common.{
  ◌≡◌, refl, sym, ap, ◌∙◌, Bool, true, false, not, ◌&&◌, List, [], ◌∷◌, Option, none, some, inl,
  inr, Bytes, codes, bytes_eq, bytes_eq_iff, Bool-cases, arith,
}
use jostraca.Js.Index.{is_empty}
use jostraca.Options.{
  Any, nil_value, bool_of, text_of, bytes_of, files, list_of, map_of, host_value, Anys, no_anys,
  any_of, Entries, no_entries, entry, get_entry, NameOptions, NameMatcher, literal, matches_re,
  Options,
}
use jostraca.Options.Decode.{
  Schema, OptionsError, refused, existing_refused, not_fs, not_now, not_log, OptionsResult, ◌>>=◌,
  as_map, at_field, field_as, name_matcher, name_matchers, exclude_of, decode_name, is_name_entry,
  all_entries, is_name_exclude, decode_cmp,
}
use jostraca.Options.FromMap.{
  assign_entry, vol_as_any, host_as_function, decode, options_from_map, host_at, passed,
  existing_error, map_at, or_empty, with_function,
}

-- A matcher that some name may match: an expression, or a text that is not empty.
abbrev usable : {H : Type 0} → NameMatcher H → Bool
usable (literal s) = not (is_empty s)
usable (matches_re h) = true

abbrev pub all_usable : {H : Type 0} → List (NameMatcher H) → Bool
all_usable [] = true
all_usable (n ∷ ns) = usable n && all_usable ns

module _ {H E : Type 0} (schema : Schema H E) where
  name_matcher-usable :
      (v : Any H) → is_name_entry schema.is_regexp v ≡ true → usable (name_matcher schema v) ≡ true
  unfolding is_name_entry name_matcher
  name_matcher-usable (text_of s) h = h
  name_matcher-usable (host_value x) h = rw h refl
  name_matcher-usable nil_value h = absurd (cc)
  name_matcher-usable (bool_of b) h = absurd (cc)
  name_matcher-usable (bytes_of b) h = absurd (cc)
  name_matcher-usable (files b) h = absurd (cc)
  name_matcher-usable (list_of b) h = absurd (cc)
  name_matcher-usable (map_of b) h = absurd (cc)

  name_matchers-usable :
      (vs : Anys H)
      → all_entries (is_name_entry schema.is_regexp) vs ≡ true
      → all_usable (name_matchers schema vs) ≡ true
  unfolding all_entries name_matchers
  name_matchers-usable no_anys h = refl
  name_matchers-usable (any_of v vs) h =
      let first : is_name_entry schema.is_regexp v ≡ true = ground arith in
      let others : all_entries (is_name_entry schema.is_regexp) vs ≡ true = ground arith in
      rw (name_matcher-usable v first, name_matchers-usable vs others) refl

  exclude_of-usable :
      (v : Any H)
      → is_name_exclude schema.is_regexp v ≡ true
      → all_usable (exclude_of schema (some v)) ≡ true
  unfolding is_name_exclude exclude_of
  exclude_of-usable (list_of vs) h = name_matchers-usable vs h
  exclude_of-usable (text_of s) h = rw (name_matcher-usable (text_of s) h) refl
  exclude_of-usable (host_value x) h = rw (name_matcher-usable (host_value x) h) refl
  exclude_of-usable nil_value h = refl
  exclude_of-usable (bool_of b) h = rw (name_matcher-usable (bool_of b) h) refl
  exclude_of-usable (bytes_of b) h = rw (name_matcher-usable (bytes_of b) h) refl
  exclude_of-usable (files b) h = rw (name_matcher-usable (files b) h) refl
  exclude_of-usable (map_of b) h = rw (name_matcher-usable (map_of b) h) refl

  field-usable :
      (v : Option (Any H))
      → ((x : Any H) → v ≡ some x → is_name_exclude schema.is_regexp x ≡ true)
      → all_usable (exclude_of schema v) ≡ true
  unfolding exclude_of
  field-usable none accepted = refl
  field-usable (some x) accepted = exclude_of-usable x (accepted x refl)

  fields-usable :
      (w : Option (Entries H))
      → ((n : Entries H) (x : Any H)
          → w ≡ some n
          → get_entry (codes "exclude") n ≡ some x
          → is_name_exclude schema.is_regexp x ≡ true)
      → all_usable (decode_name schema (or_empty schema w)).exclude ≡ true
  unfolding decode_name get_entry exclude_of
  fields-usable none accepted = refl
  fields-usable (some n) accepted =
      field-usable (get_entry (codes "exclude") n) (λ x. accepted n x refl)

  -- What a field is after another one is set.
  get_entry-assign_entry :
      (k j : Bytes) (v : Any H) (m : Entries H)
      → bytes_eq j k ≡ false
      → get_entry k (assign_entry j v m) ≡ get_entry k m
  unfolding get_entry assign_entry
  get_entry-assign_entry k j v no_entries h = rw h refl
  get_entry-assign_entry k j v (entry i w m) h = elim (Bool-cases (bytes_eq i j)) [
    | inl e ↦
        let other : bytes_eq i k ≡ false = rw ((bytes_eq_iff i j).0 e) h in rw (e, h, other) refl
    | inr e ↦ rw (e, get_entry-assign_entry k j v m h) refl
  ]

  name-host_as_function :
      (m : Entries H)
      → get_entry (codes "name") (host_as_function schema m) ≡ get_entry (codes "name") m
  unfolding host_as_function
  name-host_as_function m = go (get_entry (codes "fs") m)
    where
      go :
          (o : Option (Any H))
          → get_entry (codes "name") (with_function schema m o) ≡ get_entry (codes "name") m
      go none = refl
      go (some (host_value x)) = elim (Bool-cases (schema.is_fs x)) [
        | inl e ↦ rw e (
            get_entry-assign_entry (codes "name") (codes "fs") (host_value schema.function) m
              (unfold bytes_eq in refl))
        | inr e ↦ rw e refl
      ]
      go (some nil_value) = refl
      go (some (bool_of b)) = refl
      go (some (text_of b)) = refl
      go (some (bytes_of b)) = refl
      go (some (files b)) = refl
      go (some (list_of b)) = refl
      go (some (map_of b)) = refl

  bind_inr :
      {A B : Type 0} (r : OptionsResult E A) (k : A → OptionsResult E B) (b : B)
      → (r >>= k) ≡ inr b
      → (a : A) × (r ≡ inr a) × (k a ≡ inr b)
  bind_inr (inl e) k b h = absurd (cc)
  bind_inr (inr a) k b h = (a, refl, h)

  passed-inr :
      {A : Type 0} (f : E → OptionsError E) (c : Option E) (r : OptionsResult E A) (a : A)
      → passed schema f c r ≡ inr a
      → (c ≡ none) × (r ≡ inr a)
  passed-inr f none r a h = (refl, h)
  passed-inr f (some e) r a h = absurd (cc)

  -- The names of options that were read.
  abbrev name_of : NameOptions H → OptionsResult E (Options H) → NameOptions H
  name_of d (inl e) = d
  name_of d (inr o) = o.name

  decode-name :
      (m : Entries H) (o : Options H)
      → decode schema m ≡ inr o
      → o.name ≡ decode_name schema (map_at schema (codes "name") m)
  unfolding decode
  decode-name m o h =
      let (fs, e, h1) =
        bind_inr (host_at schema schema.is_fs not_fs (get_entry (codes "fs") m)) _ o h in
      let (now, e1, h2) =
        bind_inr (host_at schema schema.is_now not_now (get_entry (codes "now") m)) _ o h1 in
      let (log, e2, h3) =
        bind_inr (host_at schema schema.is_log not_log (get_entry (codes "log") m)) _ o h2 in
      let (ignore, e3, h4) = bind_inr (decode_cmp schema (map_at schema (codes "cmp") m)) _ o h3 in
      sym (ap (name_of o.name) h4)

-- Where the schema accepts a map only if its check holds of what is to be excluded by name, each name
-- that is read from an accepted map to be excluded is an expression or a text that is not empty.
pub options_from_map-usable :
    {H E : Type 0} (schema : Schema H E)
    → ((m n : Entries H) (x : Any H)
        → schema.valid_options m ≡ none
        → field_as as_map (codes "name") m ≡ some n
        → get_entry (codes "exclude") n ≡ some x
        → is_name_exclude schema.is_regexp x ≡ true)
    → (m : Entries H) (o : Options H) → options_from_map schema m ≡ inr o
    → all_usable o.name.exclude ≡ true
unfolding options_from_map
options_from_map-usable schema accepted given o h =
    let m = vol_as_any given in
    let (valid, h1) =
      passed-inr schema refused (schema.valid_options (host_as_function schema m)) _ o h in
    let (valid_existing, h2) =
      passed-inr schema existing_refused
        (existing_error schema (field_as as_map (codes "existing") m)) (decode schema m) o h1 in
    rw (decode-name schema m o h2) (
      fields-usable schema (field_as as_map (codes "name") m) (λ n x e.
        accepted (host_as_function schema m) n x valid
          (ap (at_field as_map) (name-host_as_function schema m) ∙ e)))
