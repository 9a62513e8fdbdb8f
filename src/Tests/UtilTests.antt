-- ===== src/Tests/UtilTests.antt =====
-- The text helpers of go/util.go on small texts.
use jostraca.Common.{◌≡◌, refl, true, some, bytes_eq, [], ◌∷◌, ◌++◌, Bytes, codes}
use jostraca.Util.Words.{partify, snakify, camelify}
use jostraca.Tree.{
  Value, null_value, bool_value, number_value, list_value, map_value, no_values, value, no_fields,
  field,
}
use jostraca.Util.Deep.{deep}
use jostraca.Util.Deep.Precedence.{key, index, at_end, lacks}
use jostraca.Util.Indent.{unset, count, indent}

abbrev same : Bytes → Bytes
same s = s

parts_run :
    partify (codes "XMLParser-as-aService")
    ≡ codes "Xml" ∷ codes "Parser" ∷ codes "as" ∷ codes "a" ∷ codes "Service" ∷ []
unfolding partify
parts_run = refl

camel_run : camelify same (λ s. 1) (codes "foo-bar_baz") ≡ codes "FooBarBaz"
unfolding camelify
camel_run = refl

snake_run : snakify same (codes "fooBar") ≡ codes "foo_bar"
unfolding snakify
snake_run = refl

indent_run :
    (indent (codes "a" ++ 10 ∷ codes "b" ++ 10 ∷ []) (count 2)
      ≡ codes "  a" ++ 10 ∷ codes "  b" ++ 10 ∷ [])
    × (indent (10 ∷ codes "b") unset ≡ 10 ∷ codes "  b")
unfolding indent
indent_run = (refl, refl)

-- A map with a list and a map under another.
abbrev base : Value
base = map_value (
    field (codes "a") (list_value (value (number_value 1) (value (number_value 2) no_values)))
      (field (codes "b") (map_value (field (codes "c") (bool_value true) no_fields)) no_fields))

abbrev over : Value
over = map_value (
    field (codes "a") (list_value (value (number_value 9) no_values))
      (field (codes "b") null_value no_fields))

deep_run :
    deep base (over ∷ [])
    ≡ map_value (
        field
          (codes "a")
          (list_value (value (number_value 9) (value (number_value 2) no_values)))
          (field (codes "b") null_value no_fields))
unfolding deep
deep_run = refl

second_kept :
    (at_end (key (codes "a") ∷ index 1 ∷ []) base ≡ some (number_value 2))
    × (lacks (key (codes "a") ∷ index 1 ∷ []) over ≡ true)
unfolding at_end lacks bytes_eq
second_kept = (refl, refl)
