-- ===== src/Util/Deep/Precedence.antt =====
-- Which of the two values `mergeOne` of go/util.go takes, at every place in them.
use jostraca.Common.{
  ℕ, zero, suc, ◌≡◌, refl, sym, ap, ◌∙◌, ◌⊎◌, inl, inr, Bool, true, false, List, [], ◌∷◌, Option,
  none, some, arith, Bytes, bytes_eq, bytes_eq_iff, if◌then◌else◌, Bool-cases, Option-cases,
}
use jostraca.Fs.Mem.Marks.{bytes_eq-ne}
use jostraca.Tree.{
  Value, null_value, bool_value, number_value, string_value, list_value, map_value, Values,
  no_values, value, Fields, no_fields, field,
}
use jostraca.Util.Deep.{get_field, set_field, merge_one, merge_fields, merge_values}

unfoldable pub get_value : ℕ → Values → Option Value
get_value i no_values = none
get_value zero (value v vs) = some v
get_value (suc i) (value v vs) = get_value i vs

pub data Step : Type 0 where
  key : Bytes → Step
  index : ℕ → Step

-- A member of a map or of a list.
unfoldable pub child : Step → Value → Option Value
unfolding get_field get_value
child (key k) (map_value fs) = get_field k fs
child (index i) (list_value vs) = get_value i vs
child s v = none

-- Whether a value can have such a member.
abbrev pub fits : Step → Value → Bool
fits (key k) (map_value fs) = true
fits (index i) (list_value vs) = true
fits s v = false

-- What stands at the end of some steps.
unfoldable pub at_end : List Step → Value → Option Value
unfolding child
at_end [] v = some v
at_end (s ∷ steps) v = elim (child s v) [ none ↦ none | some w ↦ at_end steps w ]

-- Whether a value ends in front of the steps, in a map or a list that lacks the next.
unfoldable pub lacks : List Step → Value → Bool
unfolding child
lacks [] v = false
lacks (s ∷ steps) v = elim (child s v) [ none ↦ fits s v | some w ↦ lacks steps w ]

abbrev pub is_leaf : Value → Bool
is_leaf (map_value fs) = false
is_leaf (list_value vs) = false
is_leaf v = true

-- What a member of both becomes.
abbrev merged : Option Value → Value → Value
merged none v = v
merged (some cur) v = merge_one cur v

get_field-set_field :
    (k j : Bytes) (v : Value) (fs : Fields)
    → get_field j (set_field k v fs) ≡ (if bytes_eq k j then some v else get_field j fs)
unfolding get_field set_field
get_field-set_field k j v no_fields = elim (Bool-cases (bytes_eq k j)) [
  | inl e ↦ rw e
  | inr e ↦ rw e
]
get_field-set_field k j v (field i w fs) = elim (Bool-cases (bytes_eq i k)) [
  | inl e ↦
      let same : i ≡ k = (bytes_eq_iff i k).0 e in
      elim (Bool-cases (bytes_eq k j)) [
        | inl f ↦ rw (e, f)
        | inr f ↦ rw (e, f, ap (λ z. bytes_eq z j) same ∙ f)
      ]
  | inr e ↦ elim (Bool-cases (bytes_eq i j)) [
    | inl f ↦
        let ne : bytes_eq k j ≡ false = bytes_eq-ne k j (λ q.
          (let clash = (bytes_eq_iff i k).1 ((bytes_eq_iff i j).0 f ∙ sym q) in
            absurd (ground arith))) in
        rw (e, f, ne)
    | inr f ↦ rw (e, f) (get_field-set_field k j v fs)
  ]
]

get_field-merge_fields :
    (k : Bytes) (dm sm : Fields)
    → get_field k (merge_fields dm sm) ≡ elim (get_field k sm) as (λ _. Option Value) [
      | none ↦ get_field k dm
      | some v ↦ some (merged (get_field k dm) v)
    ]
unfolding merge_fields get_field
get_field-merge_fields k dm no_fields = refl
get_field-merge_fields k dm (field j v sm) =
    get_field-set_field j k _ (merge_fields dm sm) ∙ elim (Bool-cases (bytes_eq j k)) [
      | inl e ↦
          let same : get_field j dm ≡ get_field k dm =
            ap (λ z. get_field z dm) ((bytes_eq_iff j k).0 e) in
          rw (e, same) (ap some (merged-elim (get_field k dm) v))
      | inr e ↦ rw e (get_field-merge_fields k dm sm)
    ]
  where
    merged-elim :
        (o : Option Value) (v : Value)
        → elim o as (λ _. Value) [ none ↦ v | some cur ↦ merge_one cur v ] ≡ merged o v
    merged-elim none v = refl
    merged-elim (some cur) v = refl

get_value-merge_values :
    (i : ℕ) (ds ss : Values)
    → get_value i (merge_values ds ss) ≡ elim (get_value i ss) as (λ _. Option Value) [
      | none ↦ get_value i ds
      | some v ↦ some (merged (get_value i ds) v)
    ]
unfolding merge_values get_value
get_value-merge_values i no_values no_values = refl
get_value-merge_values i (value d ds) no_values = refl
get_value-merge_values zero no_values (value s ss) = refl
get_value-merge_values (suc i) no_values (value s ss) = some_or_none (get_value i ss)
  where
    some_or_none :
        (o : Option Value) → o ≡ elim o as (λ _. Option Value) [ none ↦ none | some v ↦ some v ]
    some_or_none none = refl
    some_or_none (some v) = refl
get_value-merge_values zero (value d ds) (value s ss) = refl
get_value-merge_values (suc i) (value d ds) (value s ss) = get_value-merge_values i ds ss

-- A member of the second value is merged into that of the first.
child-merge_one :
    (s : Step) (dst src w : Value)
    → child s src ≡ some w
    → child s (merge_one dst src) ≡ some (merged (child s dst) w)
unfolding child merge_one
child-merge_one (key k) (map_value dm) (map_value sm) w h = get_field-merge_fields k dm sm ∙ rw h
child-merge_one (key k) null_value (map_value sm) w h = h
child-merge_one (key k) (bool_value b) (map_value sm) w h = h
child-merge_one (key k) (number_value n) (map_value sm) w h = h
child-merge_one (key k) (string_value t) (map_value sm) w h = h
child-merge_one (key k) (list_value ds) (map_value sm) w h = h
child-merge_one (index i) (list_value ds) (list_value ss) w h =
    get_value-merge_values i ds ss ∙ rw h
child-merge_one (index i) null_value (list_value ss) w h = h
child-merge_one (index i) (bool_value b) (list_value ss) w h = h
child-merge_one (index i) (number_value n) (list_value ss) w h = h
child-merge_one (index i) (string_value t) (list_value ss) w h = h
child-merge_one (index i) (map_value dm) (list_value ss) w h = h
child-merge_one s dst src w h = absurd (cc)

-- A member that only the first value has stays.
child-merge_kept :
    (s : Step) (dst src d : Value)
    → child s dst ≡ some d
    → child s src ≡ none
    → fits s src ≡ true
    → child s (merge_one dst src) ≡ some d
unfolding child merge_one
child-merge_kept (key k) (map_value dm) (map_value sm) d h n f =
    get_field-merge_fields k dm sm ∙ rw n h
child-merge_kept (index i) (list_value ds) (list_value ss) d h n f =
    get_value-merge_values i ds ss ∙ rw n h
child-merge_kept s dst src d h n f = absurd (cc)

leaf-merge_one : (dst src : Value) → is_leaf src ≡ true → merge_one dst src ≡ src
unfolding merge_one
leaf-merge_one dst null_value h = refl
leaf-merge_one dst (bool_value b) h = refl
leaf-merge_one dst (number_value n) h = refl
leaf-merge_one dst (string_value s) h = refl
leaf-merge_one dst (list_value vs) h = absurd (cc)
leaf-merge_one dst (map_value fs) h = absurd (cc)

right-wins :
    (steps : List Step) (dst src v : Value)
    → at_end steps src ≡ some v
    → is_leaf v ≡ true
    → at_end steps (merge_one dst src) ≡ some v
unfolding at_end
right-wins [] dst src v h leaf =
    let same : src ≡ v = cc in ap some (leaf-merge_one dst src (ap is_leaf same ∙ leaf) ∙ same)
right-wins (s ∷ steps) dst src v h leaf = elim (Option-cases (child s src)) [
  | inl none_there ↦ absurd (cc (rw (none_there, at_end) at h))
  | inr (w, there) ↦
      let below : at_end steps w ≡ some v = rw (there, at_end) at h in
      rw (child-merge_one s dst src w there, at_end)
        (elim (Option-cases (child s dst)) [
          | inl e ↦ rw e below
          | inr (cur, e) ↦ rw e (right-wins steps cur w v below leaf)
        ])
]

left-stays :
    (steps : List Step) (dst src v : Value)
    → at_end steps dst ≡ some v
    → lacks steps src ≡ true
    → at_end steps (merge_one dst src) ≡ some v
unfolding at_end lacks
left-stays [] dst src v h l = absurd (cc)
left-stays (s ∷ steps) dst src v h l = elim (Option-cases (child s dst)) [
  | inl none_there ↦ absurd (cc (rw (none_there, at_end) at h))
  | inr (d, there) ↦
      let below : at_end steps d ≡ some v = rw (there, at_end) at h in
      elim (Option-cases (child s src)) [
        | inl e ↦ rw (child-merge_kept s dst src d there e (rw (e, lacks) at l), at_end) below
        | inr (w, e) ↦
            let lacking : lacks steps w ≡ true = rw (e, lacks) at l in
            rw (child-merge_one s dst src w e, at_end)
              (rw there (left-stays steps d w v below lacking))
      ]
]

-- At the end of a path of keys and indices a deep merge of two values has what stands there in the
-- second, where that is neither a map nor a list, and what stands there in the first, where the
-- second has maps and lists along the path up to one that lacks the next step.
pub merge_one-at_end :
    (steps : List Step) (dst src v : Value)
    → ((at_end steps src ≡ some v) × (is_leaf v ≡ true))
      ⊎ ((at_end steps dst ≡ some v) × (lacks steps src ≡ true))
    → at_end steps (merge_one dst src) ≡ some v
merge_one-at_end steps dst src v (inl (h, leaf)) = right-wins steps dst src v h leaf
merge_one-at_end steps dst src v (inr (h, l)) = left-stays steps dst src v h l
