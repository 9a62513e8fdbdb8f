-- ===== src/Tests/GetxTests.antt =====
-- Path expressions on a small value.
use jostraca.Common.{◌≡◌, refl, false, [], ◌∷◌, none, some, Bytes, codes, bytes_eq, arith}
use jostraca.Tree.{
  Value, number_value, string_value, list_value, map_value, no_values, value, no_fields, field,
}
use jostraca.Getx.{Regexps, getx, getx_text, get, walk, is_compare_op}
use jostraca.Getx.Plain.{join_dots, getx_text-get}
use jostraca.Getx.Enough.{walk-enough}
use jostraca.Getx.Filter.{Filtered, Passes, getx-filter}
use jostraca.Tests.JsTests.{runtime}

abbrev regexps : Regexps
regexps = record { match_tokens = λ p. []; has_space = λ p. false; matches = λ p s. none }

abbrev item : Bytes → Value
item x = map_value (field (codes "x") (string_value x) no_fields)

abbrev items : Value
items =
    list_value
      (value (item (codes "a")) (value (number_value 2) (value (item (codes "b")) no_values)))

abbrev root : Value
root = map_value (field (codes "l") items no_fields)

text_run : getx_text runtime regexps root (codes "l.2.x") ≡ some (string_value (codes "b"))
unfolding getx_text bytes_eq
text_run = refl

-- The children whose `x` is `b`, and the value if the `x` of its first child is not `b`.
filter_run :
    getx runtime regexps items (codes "?" ∷ codes "x" ∷ codes "=" ∷ codes "b" ∷ [])
    ≡ some (list_value (value (item (codes "b")) no_values))
unfolding getx bytes_eq
filter_run = refl

getx_text-get_example :
    getx_text runtime regexps root (join_dots (codes "l" ∷ codes "2" ∷ codes "x" ∷ []))
    ≡ get runtime root (join_dots (codes "l" ∷ codes "2" ∷ codes "x" ∷ []))
getx_text-get_example =
    getx_text-get runtime regexps root (codes "l") (codes "2" ∷ codes "x" ∷ []) refl
      ((refl, tt), ((refl, tt), ((refl, tt), tt)))

walk-enough_example :
    walk runtime regexps 1 (some root) none false (codes "l" ∷ [])
    ≡ walk runtime regexps 5 (some root) none false (codes "l" ∷ [])
walk-enough_example =
    walk-enough runtime regexps 1 5 (some root) none false (codes "l" ∷ []) (omega arith)
      (omega arith)

getx-filter_example :
    Filtered
      (Passes runtime regexps (codes "x") (codes "=") (codes "b"))
      items
      (getx runtime regexps items (codes "?" ∷ codes "x" ∷ codes "=" ∷ codes "b" ∷ []))
unfolding bytes_eq
getx-filter_example =
    getx-filter runtime regexps items (codes "x") (codes "=") (codes "b") refl (refl, tt)
      (unfold is_compare_op in refl)
