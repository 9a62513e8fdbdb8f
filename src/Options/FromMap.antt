-- ===== src/Options/FromMap.antt =====
-- `OptionsFromMap` of go/options.go itself, for a map that is not nil: the checks, and then the fields one by one.
use jostraca.Common.{
  Bool, [], ◌∷◌, Option, none, some, inl, inr, Bytes, codes, bytes_eq, if◌then◌else◌, Map,
}
use jostraca.Options.{
  Any, nil_value, text_of, bytes_of, files, map_of, host_value, Entries, no_entries, entry,
  get_entry, Options,
}
use jostraca.Options.Decode.{
  Schema, OptionsError, refused, existing_refused, not_fs, not_now, not_log, OptionsResult, ◌>>=◌,
  as_bool, as_map, field_as, text_at, flag_of, decode_existing, decode_control, decode_cmp,
  decode_name,
}

module _ {H : Type 0} where
  -- `out[key] = v` on a copy.
  unfoldable pub assign_entry : Bytes → Any H → Entries H → Entries H
  unfolding bytes_eq
  assign_entry k v no_entries = entry k v no_entries
  assign_entry k v (entry j w m) =
      let rest = assign_entry k v m in if bytes_eq j k then entry k v m else entry j w rest

  unfoldable pub widen : Map (Option Bytes) → Entries H
  widen [] = no_entries
  widen ((k, none) ∷ m) = entry k nil_value (widen m)
  widen ((k, some b) ∷ m) = entry k (bytes_of b) (widen m)

  unfoldable pub vol_as_any : Entries H → Entries H
  unfolding assign_entry widen get_entry
  vol_as_any m = elim (get_entry (codes "vol") m) [
    | some (files vol) ↦ assign_entry (codes "vol") (map_of (widen vol)) m
    | _ ↦ m
  ]

  -- An entry of `vol`: text, bytes or a folder; another value is passed over.
  abbrev pub seed : Bytes → Any H → Map (Option Bytes) → Map (Option Bytes)
  seed k (text_of s) out = (k, some s) ∷ out
  seed k (bytes_of s) out = (k, some s) ∷ out
  seed k nil_value out = (k, none) ∷ out
  seed k v out = out

  -- The keys of a map differ, so their order is free.
  unfoldable pub decode_vol : Entries H → Map (Option Bytes)
  decode_vol no_entries = []
  decode_vol (entry k v m) = seed k v (decode_vol m)

  abbrev pub part : Bytes → Entries H → Any H
  part k ex = elim (get_entry k ex) [ none ↦ map_of no_entries | some v ↦ v ]

  module _ {E : Type 0} (schema : Schema H E) where
    abbrev pub with_function : Entries H → Option (Any H) → Entries H
    with_function m (some (host_value h)) =
        if schema.is_fs h then assign_entry (codes "fs") (host_value schema.function) m else m
    with_function m o = m

    unfoldable pub host_as_function : Entries H → Entries H
    unfolding get_entry
    host_as_function m = with_function m (get_entry (codes "fs") m)

    -- A field that holds a host value; nil is a field that is not given.
    abbrev pub host_at : (H → Bool) → OptionsError E → Option (Any H) → OptionsResult E (Option H)
    host_at f e none = inr none
    host_at f e (some nil_value) = inr none
    host_at f e (some (host_value h)) = if f h then inr (some h) else inl e
    host_at f e (some v) = inl e

    abbrev pub passed :
        {A : Type 0} → (E → OptionsError E) → Option E → OptionsResult E A → OptionsResult E A
    passed f none r = r
    passed f (some e) r = inl (f e)

    abbrev pub existing_error : Option (Entries H) → Option E
    existing_error none = none
    existing_error (some ex) = schema.valid_existing (
        entry (codes "txt") (part (codes "txt") ex)
          (entry (codes "bin") (part (codes "bin") ex) no_entries))

    abbrev pub or_empty : Option (Entries H) → Entries H
    or_empty none = no_entries
    or_empty (some v) = v

    -- A field that is a map is decoded; the zero value is what an empty map gives.
    abbrev pub map_at : Bytes → Entries H → Entries H
    map_at k m = or_empty (field_as as_map k m)

    unfoldable pub decode : Entries H → OptionsResult E (Options H)
    unfolding get_entry decode_cmp decode_name decode_existing decode_control decode_vol
    decode m = host_at schema.is_fs not_fs (get_entry (codes "fs") m) >>= λ fs.
        host_at schema.is_now not_now (get_entry (codes "now") m) >>= λ now.
        host_at schema.is_log not_log (get_entry (codes "log") m) >>= λ log.
        decode_cmp schema (map_at (codes "cmp") m) >>= λ ignore. inr (record {
          folder = text_at (codes "folder") m;
          meta = field_as as_map (codes "meta") m;
          fs = fs;
          now = now;
          log = log;
          debug = text_at (codes "debug") m;
          existing = decode_existing (map_at (codes "existing") m);
          model = field_as as_map (codes "model") m;
          build = field_as as_bool (codes "build") m;
          mem = field_as as_bool (codes "mem") m;
          vol = elim (field_as as_map (codes "vol") m) [
            | none ↦ none
            | some v ↦ some (decode_vol v)
          ];
          ignore = ignore;
          control = decode_control (map_at (codes "control") m);
          name = decode_name schema (map_at (codes "name") m);
          exclude = flag_of (field_as as_bool (codes "exclude") m);
        })

    unfoldable pub options_from_map : Entries H → OptionsResult E (Options H)
    unfolding vol_as_any host_as_function decode
    options_from_map given =
        let m = vol_as_any given in
        passed refused (schema.valid_options (host_as_function m)) (
          passed existing_refused (existing_error (field_as as_map (codes "existing") m))
            (decode m))
