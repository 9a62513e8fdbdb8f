-- ===== src/Getx/Filter.antt =====
-- Comparisons in a path of go/getx.go: a filter over the children, and a condition on a descendant.
use jostraca.Common.{
  ℕ, suc, ◌≡◌, refl, sym, ap, ◌∙◌, ◌↔◌, inl, inr, Bool, true, false, not, ◌&&◌, [], ◌∷◌, none, some,
  Bytes, codes, bytes_eq, Bool-cases, arith,
}
use mathlib.Core.Path.{fun_ext}
use jostraca.Tree.{
  Value, null_value, bool_value, number_value, string_value, list_value, map_value, Values,
  no_values, value, Fields, no_fields, field,
}
use jostraca.Js.Values.{Runtime, Js, js_prop}
use jostraca.Getx.{
  Regexps, is_compare_op, compare_op, arg_of, is_container, is_nil, is_ident, filter_end,
  filter_node, keep_values, keep_fields, walk, getx,
}
use jostraca.Getx.Compares.{Compares, Compares-compare_op, compare_op-Compares, Known}
use jostraca.Getx.Plain.{IsWord, word_plain}

-- No operator has a word character.
op-ident : (op : Bytes) → is_compare_op op ≡ true → is_ident op ≡ false
unfolding is_compare_op is_ident bytes_eq
op-ident [] h = refl
op-ident (c ∷ []) h = ground (arith, h)
op-ident (c ∷ d ∷ []) h = ground (arith, h)
op-ident (c ∷ d ∷ e ∷ op) h = ground (arith, h)

filter_end-compare :
    (k op a : Bytes) → is_compare_op op ≡ true → filter_end (k ∷ op ∷ a ∷ []) ≡ k ∷ op ∷ a ∷ []
unfolding filter_end
filter_end-compare k op a h = ground (arith, op-ident op h)

not_equals : (t : Bytes) → IsWord t → bytes_eq t (codes "=") ≡ false
unfolding bytes_eq
not_equals [] w = elim w [ ]
not_equals (c ∷ t) (hc, w) = ground (arith, hc)

-- The values that are left are those that `P` holds of, in their order.
pub data Kept (P : Value → Type 0) : Values → Values → Type 0 where
  none_left : Kept P no_values no_values
  keep : {v : Value} {vs ws : Values} → P v → Kept P vs ws → Kept P (value v vs) (value v ws)
  leave : {v : Value} {vs ws : Values} → ¬ P v → Kept P vs ws → Kept P (value v vs) ws

pub data KeptFields (P : Value → Type 0) : Fields → Fields → Type 0 where
  none_left : KeptFields P no_fields no_fields
  keep :
      {k : Bytes} {v : Value} {fs gs : Fields}
      → P v
      → KeptFields P fs gs
      → KeptFields P (field k v fs) (field k v gs)
  leave :
      {k : Bytes} {v : Value} {fs gs : Fields}
      → ¬ P v
      → KeptFields P fs gs
      → KeptFields P (field k v fs) gs

-- The same container with the children that `P` holds of.
pub data Filtered (P : Value → Type 0) : Value → Js → Type 0 where
  of_list : {vs ws : Values} → Kept P vs ws → Filtered P (list_value vs) (some (list_value ws))
  of_map : {fs gs : Fields} → KeptFields P fs gs → Filtered P (map_value fs) (some (map_value gs))

keep_values-Kept :
    (P : Value → Type 0) (test : Value → Bool)
    → ((v : Value) → (test v ≡ true) ↔ P v)
    → (vs : Values) → Kept P vs (keep_values test vs)
unfolding keep_values
keep_values-Kept P test iff no_values = none_left
keep_values-Kept P test iff (value v vs) =
    let rest = keep_values-Kept P test iff vs in
    elim (Bool-cases (test v)) [
      | inl e ↦ rw e (keep ((iff v).0 e) rest)
      | inr e ↦ rw e (leave (λ h. absurd (cc (sym e ∙ (iff v).1 h))) rest)
    ]

keep_fields-KeptFields :
    (P : Value → Type 0) (test : Value → Bool)
    → ((v : Value) → (test v ≡ true) ↔ P v)
    → (fs : Fields) → KeptFields P fs (keep_fields test fs)
unfolding keep_fields
keep_fields-KeptFields P test iff no_fields = none_left
keep_fields-KeptFields P test iff (field k v fs) =
    let rest = keep_fields-KeptFields P test iff fs in
    elim (Bool-cases (test v)) [
      | inl e ↦ rw e (keep ((iff v).0 e) rest)
      | inr e ↦ rw e (leave (λ h. absurd (cc (sym e ∙ (iff v).1 h))) rest)
    ]

filter_node-Filtered :
    (P : Value → Type 0) (test : Value → Bool)
    → ((v : Value) → (test v ≡ true) ↔ P v)
    → (root : Value) → is_container root ≡ true
    → Filtered P root (filter_node test (some root))
unfolding filter_node
filter_node-Filtered P test iff (list_value vs) c = of_list (keep_values-Kept P test iff vs)
filter_node-Filtered P test iff (map_value fs) c = of_map (keep_fields-KeptFields P test iff fs)
filter_node-Filtered P test iff null_value c = absurd (cc)
filter_node-Filtered P test iff (bool_value b) c = absurd (cc)
filter_node-Filtered P test iff (number_value n) c = absurd (cc)
filter_node-Filtered P test iff (string_value t) c = absurd (cc)

module _ (js : Runtime) (re : Regexps) where
  -- What a child passes a filter by: a list or a map whose property compares.
  unfoldable passes : Bytes → Bytes → Bytes → Value → Bool
  passes k op a c = is_container c && compare_op js re (js_prop js (some c) k) op (some (arg_of a))

  -- A list or a map whose property compares.
  pub Passes : Bytes → Bytes → Bytes → Value → Type 0
  Passes k op a c =
      (is_container c ≡ true) × Compares js re (js_prop js (some c) k) (some (arg_of a)) op

  passes-Passes : (k op a : Bytes) (c : Value) → (passes k op a c ≡ true) ↔ Passes k op a c
  unfolding passes Passes Known
  passes-Passes k op a c =
      let x : Js = js_prop js (some c) k in
      (
        λ h. (ground arith, compare_op-Compares js re x (arg_of a) op (ground arith)),
        λ h.
            let one = h.0 in
            let two = Compares-compare_op js re x (arg_of a) op h.1 in rw (one, two) refl,
      )

  walk-compare :
      (f : ℕ) (c : Value) (k op a : Bytes)
      → is_compare_op op ≡ true
      → (is_container c
          && not (is_nil (walk js re (suc (suc f)) (some c) none false (k ∷ op ∷ a ∷ []))))
        ≡ passes k op a c
  unfolding walk passes
  walk-compare f c k op a h =
      elim (Bool-cases (compare_op js re (js_prop js (some c) k) op (some (arg_of a)))) [
        | inl e ↦ rw (h, e) (container c)
        | inr e ↦ rw (h, e) (ground arith)
      ]
    where
      container : (c : Value) → (is_container c && not (is_nil (some c))) ≡ (is_container c && true)
      container (list_value vs) = refl
      container (map_value fs) = refl
      container _ = refl

  walk-filter :
      (f : ℕ) (root : Value) (k op a : Bytes)
      → IsWord k
      → is_compare_op op ≡ true
      → walk js re (suc (suc (suc f))) (some root) none false (codes "?" ∷ k ∷ op ∷ a ∷ [])
        ≡ filter_node (passes k op a) (some root)
  unfolding walk bytes_eq
  walk-filter f root k op a w h =
      let (no_op, no_colon, no_filter) = word_plain k w in
      let ends = filter_end-compare k op a h in
      rw (no_op, no_colon, ends)
        (ap (λ keep. filter_node keep (some root))
          (fun_ext (λ v.
            ap
              (λ ts.
                is_container v && not (is_nil (walk js re (suc (suc f)) (some v) none false ts)))
              ends
            ∙ walk-compare f v k op a h)))

  -- A filter by a comparison gives a list or a map with those of the children that are lists or maps
  -- and whose property compares as the operator says, in their order and under their keys, and with
  -- no other child; the name of the property is a word.
  pub getx-filter :
      (root : Value) (k op a : Bytes)
      → is_container root ≡ true
      → IsWord k
      → is_compare_op op ≡ true
      → Filtered (Passes k op a) root (getx js re root (codes "?" ∷ k ∷ op ∷ a ∷ []))
  unfolding getx
  getx-filter root k op a c w h =
      rw (c, walk-filter 1 root k op a w h)
        (filter_node-Filtered (Passes k op a) (passes k op a) (passes-Passes k op a) root c)
