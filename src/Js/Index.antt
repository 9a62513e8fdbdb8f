-- ===== src/Js/Index.antt =====
-- Array indices as keys: `isArrayIndexKey` of go/util.go and `jsIndex` of go/jsvalue.go. A text of at
-- most ten digits has a value below 2^64, so `strconv.ParseUint` and `strconv.Atoi` do not fail on it.
use jostraca.Common.{
  ℕ, ◌+◌, ◌*◌, ◌-◌, ◌≤◌, ◌<◌, ◌≡◌, refl, sym, ap, ◌∙◌, inl, inr, Bool, true, false, not, ◌&&◌, ◌||◌,
  ◌⊎◌, [], ◌∷◌, Option, none, some, Bytes, codes, bytes_eq, bytes_eq_iff, ltb, leb, ◌==◌,
  if◌then◌else◌, Bool-cases, length, arith,
}

abbrev pub is_digit : ℕ → Bool
is_digit c = leb 48 c && leb c 57

unfoldable pub all_digits : Bytes → Bool
all_digits [] = true
all_digits (c ∷ s) = is_digit c && all_digits s

-- `strconv.ParseUint` on digits, behind those that were read.
unfoldable pub parse_digits : ℕ → Bytes → ℕ
parse_digits acc [] = acc
parse_digits acc (c ∷ s) = parse_digits (acc * 10 + (c - 48)) s

-- 2^32 - 1, which is no index.
abbrev pub max_index : ℕ
max_index = 4294967295

abbrev pub begins_zero : Bytes → Bool
begins_zero [] = false
begins_zero (c ∷ s) = c == 48

abbrev pub is_empty : Bytes → Bool
is_empty [] = true
is_empty (c ∷ s) = false

unfoldable pub is_array_index_key : Bytes → Bool
unfolding all_digits parse_digits bytes_eq
is_array_index_key k =
    if is_empty k || ltb 10 (length k)
    then false
    else if bytes_eq k (codes "0")
    then true
    else if begins_zero k
    then false
    else if not (all_digits k)
    then false
    else ltb (parse_digits 0 k) max_index

unfoldable pub js_index : Bytes → ℕ → Option ℕ
unfolding is_array_index_key
js_index key n =
    if not (is_array_index_key key)
    then none
    else if leb n (parse_digits 0 key)
    then none
    else some (parse_digits 0 key)

-- The digits read so far, the last one first, and the number that they write.
onto : Bytes → Bytes → Bytes
onto [] r = r
onto (c ∷ s) r = onto s (c ∷ r)

value_of : Bytes → ℕ
value_of [] = 0
value_of (c ∷ r) = value_of r * 10 + (c - 48)

parse_digits-value_of : (s r : Bytes) → parse_digits (value_of r) s ≡ value_of (onto s r)
unfolding parse_digits onto value_of
parse_digits-value_of [] r = refl
parse_digits-value_of (c ∷ s) r = parse_digits-value_of s (c ∷ r)

-- Digits of which the first one, which stands last, is not 0.
Canonical : Bytes → Type 0
Canonical [] = Unit
Canonical (c ∷ []) = (48 < c) × (c ≤ 57)
Canonical (c ∷ d ∷ r) = (48 ≤ c) × (c ≤ 57) × Canonical (d ∷ r)

value_of_pos : (c : ℕ) (r : Bytes) → Canonical (c ∷ r) → 0 < value_of (c ∷ r)
unfolding Canonical value_of
value_of_pos c [] h = omega arith
value_of_pos c (d ∷ r) (a, b, h) = omega (arith, value_of_pos d r h)

Canonical-tail : (c : ℕ) (r : Bytes) → Canonical (c ∷ r) → (48 ≤ c) × (c ≤ 57) × Canonical r
unfolding Canonical
Canonical-tail c [] (a, b) = (omega arith, b, tt)
Canonical-tail c (d ∷ r) h = h

value_of-injective : (r q : Bytes) → Canonical r → Canonical q → value_of r ≡ value_of q → r ≡ q
unfolding value_of
value_of-injective [] [] h k e = refl
value_of-injective [] (d ∷ q) h k e = absurd (omega (arith, value_of_pos d q k, e))
value_of-injective (c ∷ r) [] h k e = absurd (omega (arith, value_of_pos c r h, e))
value_of-injective (c ∷ r) (d ∷ q) h k e =
    let (a, b, hr) = Canonical-tail c r h in
    let (a', b', kq) = Canonical-tail d q k in
    let tails = value_of-injective r q hr kq (omega (arith, e)) in
    let heads : c ≡ d = omega (arith, e, ap value_of tails) in cc

onto-Canonical :
    (s r : Bytes) → all_digits s ≡ true → (d : ℕ) → Canonical (d ∷ r) → Canonical (onto s (d ∷ r))
unfolding onto all_digits Canonical
onto-Canonical [] r h d k = k
onto-Canonical (c ∷ s) r h d k =
    onto-Canonical s (d ∷ r) (ground (arith, h)) c (ground (arith, h), ground (arith, h), k)

length-onto : (s r : Bytes) → length (onto s r) ≡ length s + length r
unfolding onto
length-onto [] r = omega arith
length-onto (c ∷ s) r = omega (arith, length-onto s (c ∷ r))

onto-injective : (s t r q : Bytes) → length r ≡ length q → onto s r ≡ onto t q → (s ≡ t) × (r ≡ q)
unfolding onto
onto-injective [] [] r q l e = (refl, e)
onto-injective [] (d ∷ t) r q l e = absurd (omega (arith, l, ap length e, length-onto t (d ∷ q)))
onto-injective (c ∷ s) [] r q l e = absurd (omega (arith, l, ap length e, length-onto s (c ∷ r)))
onto-injective (c ∷ s) (d ∷ t) r q l e =
    let (tails, fronts) = onto-injective s t (c ∷ r) (d ∷ q) (omega (arith, l)) e in (cc, cc)

value_of-onto_pos : (k : Bytes) → Canonical (onto k []) → 0 < length k → 0 < value_of (onto k [])
value_of-onto_pos k h pos = go (onto k []) h (omega (arith, pos, length-onto k []))
  where
    go : (r : Bytes) → Canonical r → 0 < length r → 0 < value_of r
    go [] h pos = absurd (omega (arith, pos))
    go (c ∷ r) h pos = value_of_pos c r h

-- How a key that is read is written: `0`, or digits of which the first is not 0.
abbrev Written : Bytes → Type 0
Written k = (k ≡ codes "0") ⊎ ((0 < length k) × Canonical (onto k []))

-- A key other than `0` holds digits of which the first is not 0.
key-Canonical :
    (k : Bytes)
    → is_empty k ≡ false
    → begins_zero k ≡ false
    → all_digits k ≡ true
    → Canonical (onto k [])
unfolding onto all_digits Canonical
key-Canonical [] e z h = absurd (cc)
key-Canonical (c ∷ []) e z h = ground arith
key-Canonical (c ∷ d ∷ s) e z h =
    onto-Canonical (d ∷ s) [] (ground arith) c (ground arith, ground arith)

-- A key that is read is below both bounds, has the value, and is `0` or canonical.
js_index-value :
    (k : Bytes) (n i : ℕ)
    → js_index k n ≡ some i
    → (i < n) × (i < max_index) × (parse_digits 0 k ≡ i) × Written k
unfolding js_index
js_index-value k n i h = elim (Bool-cases (bytes_eq k (codes "0"))) [
  | inl e ↦
      let zero_key = (bytes_eq_iff k (codes "0")).0 e in
      let value : parse_digits 0 k ≡ 0 = ap (parse_digits 0) zero_key in
      (ground (arith, value), ground (arith, value), ground arith, inl zero_key)
  | inr e ↦ (
    ground arith,
    ground arith,
    ground arith,
    inr (not_empty k (ground arith), key-Canonical k (ground arith) (ground arith) (ground arith)),
  )
]
  where
    not_empty : (k : Bytes) → is_empty k ≡ false → 0 < length k
    not_empty [] e = absurd (cc)
    not_empty (c ∷ s) e = omega arith

-- An array index is below the length and below 2^32 - 1, and no two keys give the same one.
pub js_index-injective :
    (k k' : Bytes) (n m i : ℕ)
    → js_index k n ≡ some i
    → js_index k' m ≡ some i
    → (i < n) × (i < max_index) × (k ≡ k')
unfolding Canonical onto value_of
js_index-injective k k' n m i h h' =
    let (below, small, value, form) = js_index-value k n i h in
    let (below', small', value', form') = js_index-value k' m i h' in
    let same : value_of (onto k []) ≡ value_of (onto k' []) =
      sym (parse_digits-value_of k []) ∙ value ∙ sym value' ∙ parse_digits-value_of k' [] in
    (below, small, same_key k k' form form' same)
  where
    same_key :
        (k k' : Bytes)
        → Written k
        → Written k'
        → value_of (onto k []) ≡ value_of (onto k' [])
        → k ≡ k'
    same_key k k' (inl e) (inl e') same = cc
    same_key k k' (inr (pos, c)) (inr (pos', c')) same =
        (onto-injective k k' [] [] refl (value_of-injective _ _ c c' same)).0
    same_key k k' (inl e) (inr (pos', c')) same =
        absurd (omega (arith, value_of-onto_pos k' c' pos', same, ap (λ t. value_of (onto t [])) e))
    same_key k k' (inr (pos, c)) (inl e') same =
        absurd (omega (arith, value_of-onto_pos k c pos, same, ap (λ t. value_of (onto t [])) e'))
