-- ===== src/Tree/Props.antt =====
-- The props that a component of go/tree.go gets: `propsMerge` and `copyProps`.
use jostraca.Common.{
  ◌≡◌, refl, ap, ◌∙◌, inl, inr, [], ◌∷◌, Option, none, some, Bytes, bytes_eq, Bool-cases, Map,
  lookup,
}
use mathlib.Core.Path.{ap₂}
use jostraca.Fs.Mem.Laws.{lookup-insert-if}
use jostraca.Tree.{
  Value, null_value, bool_value, number_value, string_value, list_value, map_value, Values,
  no_values, value, Fields, no_fields, field, copy_props, copy_values, copy_fields, put_all,
  props_merge,
}

mutual
  unfolding copy_props

  copy_props-same : (v : Value) → copy_props v ≡ v
  copy_props-same null_value = refl
  copy_props-same (bool_value b) = refl
  copy_props-same (number_value n) = refl
  copy_props-same (string_value s) = refl
  copy_props-same (list_value vs) = ap list_value (copy_values-same vs)
  copy_props-same (map_value fs) = ap map_value (copy_fields-same fs)

  copy_values-same : (vs : Values) → copy_values vs ≡ vs
  copy_values-same no_values = refl
  copy_values-same (value v vs) = ap₂ value (copy_props-same v) (copy_values-same vs)

  copy_fields-same : (fs : Fields) → copy_fields fs ≡ fs
  copy_fields-same no_fields = refl
  copy_fields-same (field k v fs) = ap₂ (field k) (copy_props-same v) (copy_fields-same fs)

-- The first that is there.
abbrev pub first_of : Option Value → Option Value → Option Value
first_of none o = o
first_of (some v) o = some v

lookup-put_all :
    (f : Value → Value)
    → ((v : Value) → f v ≡ v)
    → (k : Bytes) (m out : Map Value)
    → lookup k (put_all f m out) ≡ first_of (lookup k m) (lookup k out)
unfolding put_all lookup
lookup-put_all f same k [] out = refl
lookup-put_all f same k ((j, v) ∷ m) out =
    lookup-insert-if j k (f v) (put_all f m out) ∙ elim (Bool-cases (bytes_eq j k)) [
      | inl e ↦ rw e (ap some (same v))
      | inr e ↦ rw e (lookup-put_all f same k m out)
    ]

-- A component gets each prop from the node's own props where they have it, else from those that the
-- parent binds, else from the defaults.
pub lookup-props_merge :
    (k : Bytes) (defaults inherit props : Map Value)
    → lookup k (props_merge defaults inherit props)
      ≡ first_of (lookup k props) (first_of (lookup k inherit) (lookup k defaults))
unfolding props_merge
lookup-props_merge k defaults inherit props =
    lookup-put_all copy_props copy_props-same k props _
    ∙ ap (first_of (lookup k props)) (
        lookup-put_all (λ v. v) (λ v. refl) k inherit _
        ∙ ap (first_of (lookup k inherit))
            (lookup-put_all (λ v. v) (λ v. refl) k defaults [] ∙ first_of-none (lookup k defaults)))
  where
    first_of-none : (o : Option Value) → first_of o (lookup k []) ≡ o
    first_of-none none = unfold lookup in refl
    first_of-none (some v) = refl
