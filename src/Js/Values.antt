-- ===== src/Js/Values.antt =====
-- JavaScript's coercions and comparisons on decoded values, go/jsvalue.go, with `formatJSNumber` of
-- go/template.go. `none` is `jsUndefined`. A length, an `int` in Go, is the float64 that it is as a
-- number.
pub mod Loose
use jostraca.Common.{
  ℕ, zero, suc, ◌+◌, ◌-◌, ◌/◌, ◌%◌, Bool, true, false, not, ◌&&◌, ◌||◌, List, [], ◌∷◌, ◌++◌, Option,
  none, some, Bytes, codes, bytes_eq, ltb, leb, ◌==◌, if◌then◌else◌, length, take, drop, get_elem?,
}
use jostraca.Tree.{
  Value, null_value, bool_value, number_value, string_value, list_value, map_value, Values,
  no_values, value, Fields,
}
use jostraca.Fs.Mem.Listing.{js_less}
use jostraca.Js.Index.{is_digit, all_digits, is_empty, is_array_index_key, js_index}
use jostraca.Util.Deep.{get_field}

-- Float64 by its bits, and what the Go library does with it: `of_int` is the conversion of an `int`,
-- `format_e` and `format_f` are `strconv.FormatFloat` with these letters and the precision -1,
-- `positional` is `1e-6 <= |f| < 1e21`. `runes` is what `range` gives of a string, `rune_text` the
-- bytes of a rune, `trim_space` the removal by `jsSpaceTrimRE`, `of_radix` the float64 of digits to
-- a base, `same_object` the comparison of two pointers.
pub record Runtime : Type 0 where
  pub nan : ℕ
  pub infinity : ℕ
  pub minus_infinity : ℕ
  pub of_int : ℕ → ℕ
  pub is_nan : ℕ → Bool
  pub float_eq : ℕ → ℕ → Bool
  pub float_lt : ℕ → ℕ → Bool
  pub positional : ℕ → Bool
  pub format_e : ℕ → Bytes
  pub format_f : ℕ → Bytes
  pub parse_float : Bytes → ℕ
  pub of_radix : ℕ → Bytes → ℕ
  pub runes : Bytes → List ℕ
  pub rune_text : ℕ → Bytes
  pub trim_space : Bytes → Bytes
  pub same_object : Value → Value → Bool

abbrev pub Js : Type 0
Js = Option Value

-- The part in front of the first `e` or `E`, and what follows it.
unfoldable pub split_exponent : Bytes → Bytes × Option Bytes
split_exponent [] = ([], none)
split_exponent (c ∷ s) =
    let (front, exp) = split_exponent s in
    if c == 101 || c == 69 then ([], some s) else (c ∷ front, exp)

abbrev pub is_sign : ℕ → Bool
is_sign c = c == 43 || c == 45

-- `strings.TrimLeft(exp, "0")`.
unfoldable pub trim_zeros : Bytes → Bytes
trim_zeros [] = []
trim_zeros (c ∷ s) = let rest = trim_zeros s in if c == 48 then rest else c ∷ s

abbrev pub exponent_text : Bytes → Bytes
exponent_text exp = let rest = trim_zeros exp in if is_empty rest then codes "0" else rest

abbrev pub signed_exponent : Bytes → Bytes
signed_exponent [] = codes "0"
signed_exponent (c ∷ exp) = if is_sign c then c ∷ exponent_text exp else exponent_text (c ∷ exp)

unfoldable pub trim_exponent_zeros : Bytes → Bytes
unfolding split_exponent trim_zeros
trim_exponent_zeros s =
    let (mantissa, exp) = split_exponent s in
    elim exp [ none ↦ s | some e ↦ mantissa ++ (codes "e" ++ signed_exponent e) ]

abbrev pub skip_sign : Bytes → Bytes
skip_sign [] = []
skip_sign (c ∷ s) = if is_sign c then s else c ∷ s

abbrev pub skip_dot : Bytes → Bytes
skip_dot [] = []
skip_dot (c ∷ s) = if c == 46 then s else c ∷ s

-- The number of the digits in front, and what follows them.
unfoldable pub after_digits : Bytes → ℕ × Bytes
after_digits [] = (0, [])
after_digits (c ∷ s) =
    let (n, rest) = after_digits s in if is_digit c then (suc n, rest) else (0, c ∷ s)

abbrev pub is_exponent : Bytes → Bool
is_exponent [] = true
is_exponent (c ∷ s) =
    let digits = skip_sign s in
    (c == 101 || c == 69) && (not (is_empty digits) && all_digits digits)

-- `jsDecimalRE`.
unfoldable pub is_decimal : Bytes → Bool
unfolding after_digits all_digits
is_decimal s =
    let t = skip_sign s in
    let (n, rest) = after_digits t in
    let (k, behind) = after_digits (skip_dot t) in
    if ltb 0 n then is_exponent (after_digits (skip_dot rest)).1 else ltb 0 k && is_exponent behind

unfoldable pub all_of : (ℕ → Bool) → Bytes → Bool
all_of f [] = true
all_of f (c ∷ s) = f c && all_of f s

abbrev pub is_hex : ℕ → Bool
is_hex c = is_digit c || (leb 97 c && leb c 102 || leb 65 c && leb c 70)

-- `jsRadixRE`: the base, where the text is a literal to one.
unfoldable pub radix_of : Bytes → Option ℕ
unfolding all_of
radix_of (z ∷ p ∷ d ∷ s) =
    let digits = d ∷ s in
    if not (z == 48)
    then none
    else if (p == 120 || p == 88) && all_of is_hex digits
    then some 16
    else if (p == 111 || p == 79) && all_of (λ c. leb 48 c && leb c 55) digits
    then some 8
    else if (p == 98 || p == 66) && all_of (λ c. leb 48 c && leb c 49) digits
    then some 2
    else none
radix_of _ = none

pub data Kind : Type 0 where
  undefined_kind null_kind bool_kind number_kind string_kind object_kind : Kind

unfoldable pub js_kind : Js → Kind
js_kind none = undefined_kind
js_kind (some null_value) = null_kind
js_kind (some (bool_value b)) = bool_kind
js_kind (some (number_value n)) = number_kind
js_kind (some (string_value s)) = string_kind
js_kind (some (list_value vs)) = object_kind
js_kind (some (map_value fs)) = object_kind

unfoldable pub values_length : Values → ℕ
values_length no_values = 0
values_length (value v vs) = suc (values_length vs)

unfoldable pub value_at : Values → ℕ → Js
value_at no_values i = none
value_at (value v vs) zero = some v
value_at (value v vs) (suc i) = value_at vs i

unfoldable pub utf16_len : List ℕ → ℕ
utf16_len [] = 0
utf16_len (r ∷ rs) = if leb 65536 r then utf16_len rs + 2 else utf16_len rs + 1

-- `utf16.Encode` of the runes of a string.
unfoldable pub utf16_units : List ℕ → List ℕ
utf16_units [] = []
utf16_units (r ∷ rs) =
    let rest = utf16_units rs in
    if leb 65536 r
    then (55296 + (r - 65536) / 1024) ∷ (56320 + (r - 65536) % 1024) ∷ rest
    else r ∷ rest

abbrev pub bool_eq : Bool → Bool → Bool
bool_eq true b = b
bool_eq false b = not b

abbrev pub is_nullish : Kind → Bool
is_nullish undefined_kind = true
is_nullish null_kind = true
is_nullish _ = false

abbrev pub same_kind : Kind → Kind → Bool
same_kind undefined_kind undefined_kind = true
same_kind null_kind null_kind = true
same_kind bool_kind bool_kind = true
same_kind number_kind number_kind = true
same_kind string_kind string_kind = true
same_kind object_kind object_kind = true
same_kind _ _ = false

module _ (js : Runtime) where
  unfoldable pub format_js_number : ℕ → Bytes
  unfolding trim_exponent_zeros
  format_js_number f =
      if js.is_nan f
      then codes "NaN"
      else if js.float_eq f js.infinity
      then codes "Infinity"
      else if js.float_eq f js.minus_infinity
      then codes "-Infinity"
      else if js.float_eq f (js.of_int 0)
      then codes "0"
      else if not (js.positional f)
      then trim_exponent_zeros (js.format_e f)
      else js.format_f f

  -- `string(utf16.Decode(units[i : i+1]))`: a lone surrogate gives U+FFFD.
  abbrev pub unit_text : ℕ → Bytes
  unit_text u = js.rune_text (if leb 55296 u && ltb u 57344 then 65533 else u)

  unfoldable pub js_string_prop : Bytes → Bytes → Js
  unfolding utf16_len utf16_units js_index
  js_string_prop s key =
      let units = utf16_units (js.runes s) in
      if bytes_eq key (codes "length")
      then some (number_value (js.of_int (utf16_len (js.runes s))))
      else elim (js_index key (length units)) [
        | none ↦ none
        | some i ↦ elim (get_elem? units i) [
          | none ↦ none
          | some u ↦ some (string_value (unit_text u))
        ]
      ]

  unfoldable pub js_prop : Js → Bytes → Js
  unfolding js_string_prop js_index value_at values_length get_field
  js_prop none key = none
  js_prop (some (map_value fs)) key = get_field key fs
  js_prop (some (list_value vs)) key = elim (js_index key (values_length vs)) [
    | some i ↦ value_at vs i
    | none ↦
        if bytes_eq key (codes "length")
        then some (number_value (js.of_int (values_length vs)))
        else none
  ]
  js_prop (some (string_value s)) key = js_string_prop s key
  js_prop (some _) key = none

  unfoldable mutual
    unfolding format_js_number

    pub js_string : Value → Bytes
    js_string null_value = codes "null"
    js_string (bool_value true) = codes "true"
    js_string (bool_value false) = codes "false"
    js_string (number_value n) = format_js_number n
    js_string (string_value s) = s
    js_string (list_value vs) = js_join false vs
    js_string (map_value fs) = codes "[object Object]"

    -- The elements with a comma in front of all but the first; null gives nothing.
    pub js_join : Bool → Values → Bytes
    js_join more no_values = []
    js_join more (value null_value vs) = (if more then codes "," else []) ++ js_join true vs
    js_join more (value v vs) = (if more then codes "," else []) ++ (js_string v ++ js_join true vs)

  abbrev pub js_text : Js → Bytes
  js_text none = codes "undefined"
  js_text (some v) = js_string v

  unfoldable pub js_string_to_number : Bytes → ℕ
  unfolding radix_of is_decimal bytes_eq
  js_string_to_number text =
      let s = js.trim_space text in
      if is_empty s
      then js.of_int 0
      else if bytes_eq s (codes "Infinity") || bytes_eq s (codes "+Infinity")
      then js.infinity
      else if bytes_eq s (codes "-Infinity")
      then js.minus_infinity
      else elim (radix_of s) [
        | some base ↦ js.of_radix base (drop 2 s)
        | none ↦ if is_decimal s then js.parse_float s else js.nan
      ]

  unfoldable pub js_to_primitive : Js → Js
  unfolding js_string
  js_to_primitive (some (list_value vs)) = some (string_value (js_string (list_value vs)))
  js_to_primitive (some (map_value fs)) = some (string_value (js_string (map_value fs)))
  js_to_primitive v = v

  unfoldable pub js_to_number : Js → ℕ
  unfolding js_string_to_number js_string
  js_to_number none = js.nan
  js_to_number (some null_value) = js.of_int 0
  js_to_number (some (bool_value true)) = js.of_int 1
  js_to_number (some (bool_value false)) = js.of_int 0
  js_to_number (some (number_value n)) = n
  js_to_number (some (string_value s)) = js_string_to_number s
  js_to_number (some (list_value vs)) = js_string_to_number (js_string (list_value vs))
  js_to_number (some (map_value fs)) = js_string_to_number (js_string (map_value fs))

  unfoldable pub js_strict_equal : Js → Js → Bool
  js_strict_equal none none = true
  js_strict_equal (some null_value) (some null_value) = true
  js_strict_equal (some (bool_value a)) (some (bool_value b)) = bool_eq a b
  js_strict_equal (some (number_value a)) (some (number_value b)) = js.float_eq a b
  js_strict_equal (some (string_value a)) (some (string_value b)) = bytes_eq a b
  js_strict_equal (some (list_value a)) (some (list_value b)) =
      js.same_object (list_value a) (list_value b)
  js_strict_equal (some (map_value a)) (some (map_value b)) =
      js.same_object (map_value a) (map_value b)
  js_strict_equal _ _ = false

  -- The value of a number, `jsNumberOf`.
  abbrev pub js_number_of : Js → ℕ
  js_number_of (some (number_value n)) = n
  js_number_of _ = js.nan

  -- `jsLooseEqual` within a number of calls.
  unfoldable pub loose_at : ℕ → Js → Js → Bool
  unfolding js_kind js_strict_equal js_string_to_number js_to_number js_to_primitive
  loose_at zero x y = false
  loose_at (suc left) x y =
      let kx = js_kind x in
      let ky = js_kind y in
      let number_x = loose_at left (some (number_value (js_to_number x))) y in
      let number_y = loose_at left x (some (number_value (js_to_number y))) in
      let primitive_x = loose_at left (js_to_primitive x) y in
      let primitive_y = loose_at left x (js_to_primitive y) in
      if same_kind kx ky
      then js_strict_equal x y
      else if is_nullish kx || is_nullish ky
      then is_nullish kx && is_nullish ky
      else if same_kind kx number_kind && same_kind ky string_kind
      then js.float_eq (js_number_of x) (js_string_to_number (js_text y))
      else if same_kind kx string_kind && same_kind ky number_kind
      then js.float_eq (js_string_to_number (js_text x)) (js_number_of y)
      else if same_kind kx bool_kind
      then number_x
      else if same_kind ky bool_kind
      then number_y
      else if same_kind kx object_kind
      then primitive_x
      else if same_kind ky object_kind
      then primitive_y
      else false

  -- A call makes a number of a truth value or a string of an object, so three are enough.
  unfoldable pub js_loose_equal : Js → Js → Bool
  unfolding loose_at
  js_loose_equal x y = loose_at 3 x y

  -- The answer, and whether it is undefined.
  unfoldable pub js_less_than : Js → Js → Bool × Bool
  unfolding js_to_primitive js_kind js_to_number js_less
  js_less_than x y =
      let px = js_to_primitive x in
      let py = js_to_primitive y in
      let nx = js_to_number px in
      let ny = js_to_number py in
      if same_kind (js_kind px) string_kind && same_kind (js_kind py) string_kind
      then (js_less (js_text px) (js_text py), false)
      else if js.is_nan nx || js.is_nan ny
      then (false, true)
      else (js.float_lt nx ny, false)

  unfoldable pub js_truthy : Js → Bool
  js_truthy none = false
  js_truthy (some null_value) = false
  js_truthy (some (bool_value b)) = b
  js_truthy (some (number_value n)) = not (js.float_eq n (js.of_int 0)) && not (js.is_nan n)
  js_truthy (some (string_value s)) = not (is_empty s)
  js_truthy (some _) = true
