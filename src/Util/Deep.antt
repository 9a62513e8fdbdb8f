-- ===== src/Util/Deep.antt =====
-- `Deep` of go/util.go on decoded values: a null that is passed is a value, and there are no typed
-- slices.
pub mod Precedence
use jostraca.Common.{
  ℕ, zero, suc, Bool, true, false, List, [], ◌∷◌, Option, none, some, Bytes, bytes_eq,
  if◌then◌else◌,
}
use jostraca.Tree.{
  Value, null_value, bool_value, number_value, string_value, list_value, map_value, Values,
  no_values, value, Fields, no_fields, field,
}

unfoldable pub get_field : Bytes → Fields → Option Value
unfolding bytes_eq
get_field k no_fields = none
get_field k (field j v fs) = let rest = get_field k fs in if bytes_eq j k then some v else rest

-- `out[k] = v`.
unfoldable pub set_field : Bytes → Value → Fields → Fields
unfolding bytes_eq
set_field k v no_fields = field k v no_fields
set_field k v (field j w fs) =
    let rest = set_field k v fs in if bytes_eq j k then field k v fs else field j w rest

unfoldable mutual
  unfolding get_field set_field

  pub merge_one : Value → Value → Value
  merge_one dst null_value = null_value
  merge_one dst (bool_value b) = bool_value b
  merge_one dst (number_value n) = number_value n
  merge_one dst (string_value s) = string_value s
  merge_one (map_value dm) (map_value sm) = map_value (merge_fields dm sm)
  merge_one dst (map_value sm) = map_value sm
  merge_one (list_value ds) (list_value ss) = list_value (merge_values ds ss)
  merge_one dst (list_value ss) = list_value ss

  -- The second loop over maps; the keys of a map differ, so their order is free.
  pub merge_fields : Fields → Fields → Fields
  merge_fields dm no_fields = dm
  merge_fields dm (field k v sm) =
      set_field k (elim (get_field k dm) [ none ↦ v | some cur ↦ merge_one cur v ])
        (merge_fields dm sm)

  pub merge_values : Values → Values → Values
  merge_values ds no_values = ds
  merge_values no_values (value s ss) = value s ss
  merge_values (value d ds) (value s ss) = value (merge_one d s) (merge_values ds ss)

unfoldable pub deep : Value → List Value → Value
unfolding merge_one
deep dst [] = dst
deep dst (src ∷ srcs) = deep (merge_one dst src) srcs
