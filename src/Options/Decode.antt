-- ===== src/Options/Decode.antt =====
-- `OptionsFromMap` of go/options.go. The schemas are checked by another package: what it says of a map
-- is a field of `Schema`, and so are the tests on the types of host values and the compiler of
-- regular expressions.
use jostraca.Common.{
  Bool, true, false, not, ◌&&◌, List, [], ◌∷◌, Option, none, some, ◌⊎◌, inl, inr, Bytes, codes,
  if◌then◌else◌,
}
use jostraca.Js.Index.{is_empty}
use jostraca.Options.{
  Any, nil_value, bool_of, text_of, bytes_of, list_of, map_of, host_value, Anys, no_anys, any_of,
  Entries, get_entry, Existing, ExistingTxt, ExistingBin, Control, NameMatcher, literal, matches_re,
  NameAffix, NameOptions,
}

pub record Schema (H E : Type 0) : Type 0 where
  pub valid_options : Entries H → Option E
  pub valid_existing : Entries H → Option E
  pub compile : Bytes → E ⊎ H
  pub is_fs : H → Bool
  pub is_now : H → Bool
  pub is_log : H → Bool
  pub is_regexp : H → Bool
  -- `func() {}`.
  pub function : H

pub data OptionsError (E : Type 0) : Type 0 where
  refused : E → OptionsError E
  existing_refused : E → OptionsError E
  not_fs : OptionsError E
  not_now : OptionsError E
  not_log : OptionsError E
  not_compiled : E → OptionsError E
  not_ignore : OptionsError E

abbrev pub OptionsResult : Type 0 → Type 0 → Type 0
OptionsResult E A = OptionsError E ⊎ A

infixl 5 ◌>>=◌
abbrev pub ◌>>=◌ :
    {E A B : Type 0} → OptionsResult E A → (A → OptionsResult E B) → OptionsResult E B
inl e >>= k = inl e
inr a >>= k = k a

abbrev pub flag_of : Option Bool → Bool
flag_of none = false
flag_of (some b) = b

module _ {H : Type 0} where
  -- The type assertions, `none` where they do not hold.
  abbrev pub as_bool : Any H → Option Bool
  as_bool (bool_of b) = some b
  as_bool v = none

  abbrev pub as_text : Any H → Option Bytes
  as_text (text_of s) = some s
  as_text v = none

  abbrev pub as_map : Any H → Option (Entries H)
  as_map (map_of m) = some m
  as_map v = none

  abbrev pub at_field : {A : Type 0} → (Any H → Option A) → Option (Any H) → Option A
  at_field f none = none
  at_field f (some v) = f v

  abbrev pub field_as : {A : Type 0} → (Any H → Option A) → Bytes → Entries H → Option A
  field_as f k m = at_field f (get_entry k m)

  abbrev pub text_at : Bytes → Entries H → Bytes
  text_at k m = elim (field_as as_text k m) [ none ↦ [] | some s ↦ s ]

  -- `decodeExisting` and `boolPtrField`.
  unfoldable pub decode_txt : Option (Entries H) → ExistingTxt
  unfolding get_entry
  decode_txt none = record {
    write = none;
    preserve = none;
    present = none;
    diff_mode = none;
    merge_mode = none;
    conflict = [];
  }
  decode_txt (some t) = record {
    write = field_as as_bool (codes "write") t;
    preserve = field_as as_bool (codes "preserve") t;
    present = field_as as_bool (codes "present") t;
    diff_mode = field_as as_bool (codes "diff") t;
    merge_mode = field_as as_bool (codes "merge") t;
    conflict = text_at (codes "conflict") t;
  }

  unfoldable pub decode_bin : Option (Entries H) → ExistingBin
  unfolding get_entry
  decode_bin none = record { write = none; preserve = none; present = none }
  decode_bin (some t) = record {
    write = field_as as_bool (codes "write") t;
    preserve = field_as as_bool (codes "preserve") t;
    present = field_as as_bool (codes "present") t;
  }

  unfoldable pub decode_existing : Entries H → Existing
  unfolding decode_txt decode_bin
  decode_existing m = record {
    txt = decode_txt (field_as as_map (codes "txt") m);
    bin = decode_bin (field_as as_map (codes "bin") m);
  }

  unfoldable pub decode_control : Entries H → Control
  unfolding get_entry
  decode_control m = record {
    dryrun = flag_of (field_as as_bool (codes "dryrun") m);
    no_duplicate = elim (field_as as_bool (codes "duplicate") m) [ none ↦ false | some b ↦ not b ];
    version = flag_of (field_as as_bool (codes "version") m);
  }

  module _ {E : Type 0} (schema : Schema H E) where
    unfoldable pub decode_ignore : Any H → OptionsResult E H
    decode_ignore (host_value h) = if schema.is_regexp h then inr h else inl not_ignore
    decode_ignore (text_of s) = elim (schema.compile s) [
      | inl e ↦ inl (not_compiled e)
      | inr h ↦ inr h
    ]
    decode_ignore v = inl not_ignore

    unfoldable pub decode_ignores : Anys H → OptionsResult E (List H)
    unfolding decode_ignore
    decode_ignores no_anys = inr []
    decode_ignores (any_of v vs) =
        let rest = decode_ignores vs in decode_ignore v >>= λ h. rest >>= λ hs. inr (h ∷ hs)

    abbrev pub as_list : Any H → Option (Anys H)
    as_list (list_of vs) = some vs
    as_list v = none

    unfoldable pub decode_cmp : Entries H → OptionsResult E (List H)
    unfolding decode_ignores get_entry
    decode_cmp m = elim (field_as as_map (codes "Copy") m) [
      | none ↦ inr []
      | some cm ↦ elim (field_as as_list (codes "ignore") cm) [
        | none ↦ inr []
        | some vs ↦ decode_ignores vs
      ]
    ]

    unfoldable pub name_matcher : Any H → NameMatcher H
    name_matcher (host_value h) = if schema.is_regexp h then matches_re h else literal []
    name_matcher (text_of s) = literal s
    name_matcher v = literal []

    unfoldable pub name_matchers : Anys H → List (NameMatcher H)
    unfolding name_matcher
    name_matchers no_anys = []
    name_matchers (any_of v vs) = name_matcher v ∷ name_matchers vs

    -- What `decodeName` does with `exclude`.
    unfoldable pub exclude_of : Option (Any H) → List (NameMatcher H)
    unfolding name_matchers
    exclude_of none = []
    exclude_of (some nil_value) = []
    exclude_of (some (list_of vs)) = name_matchers vs
    exclude_of (some v) = name_matcher v ∷ []

    abbrev pub affix_of : Option (Entries H) → NameAffix
    affix_of none = record { prefix = []; suffix = [] }
    affix_of (some m) = record {
      prefix = text_at (codes "prefix") m;
      suffix = text_at (codes "suffix") m;
    }

    unfoldable pub decode_name : Entries H → NameOptions H
    unfolding exclude_of get_entry
    decode_name m = record {
      file = affix_of (field_as as_map (codes "file") m);
      folder = affix_of (field_as as_map (codes "folder") m);
      exclude = exclude_of (get_entry (codes "exclude") m);
    }

  unfoldable pub all_entries : (Any H → Bool) → Anys H → Bool
  all_entries f no_anys = true
  all_entries f (any_of v vs) = f v && all_entries f vs

  -- The checks that the schemas call back.
  unfoldable pub is_vol_seed : Any H → Bool
  is_vol_seed nil_value = true
  is_vol_seed (text_of s) = true
  is_vol_seed (bytes_of s) = true
  is_vol_seed v = false

  unfoldable pub is_log_option : (H → Bool) → Any H → Bool
  is_log_option is_log nil_value = true
  is_log_option is_log (host_value h) = is_log h
  is_log_option is_log v = false

  module _ (is_regexp : H → Bool) where
    unfoldable pub is_ignore_entry : Any H → Bool
    is_ignore_entry (text_of s) = not (is_empty s)
    is_ignore_entry (host_value h) = is_regexp h
    is_ignore_entry v = false

    -- `one` of `isNameExclude`.
    unfoldable pub is_name_entry : Any H → Bool
    is_name_entry (text_of s) = not (is_empty s)
    is_name_entry (host_value h) = is_regexp h
    is_name_entry v = false

    unfoldable pub is_name_exclude : Any H → Bool
    unfolding is_name_entry all_entries
    is_name_exclude (list_of vs) = all_entries is_name_entry vs
    is_name_exclude v = is_name_entry v
