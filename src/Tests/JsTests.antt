-- ===== src/Tests/JsTests.antt =====
-- The rules of JavaScript on small values, with whole numbers below a million in place of floats.
use jostraca.Common.{
  ℕ, ◌+◌, ◌<◌, ◌≡◌, refl, true, false, List, [], ◌∷◌, ◌++◌, none, some, Bytes, codes, bytes_eq,
  bytes_eq_iff, ◌≢◌, ltb, ◌==◌, arith,
}
use mathlib.Core.List.{Memᴰ}
use jostraca.Tree.{
  Value, null_value, bool_value, number_value, string_value, list_value, no_values, value,
}
use jostraca.Fs.Mem.Listing.{js_less}
use jostraca.Js.Index.{is_array_index_key, parse_digits, js_index, max_index, js_index-injective}
use jostraca.Js.Order.{lex_less, place, js_less-lex_less}
use jostraca.Js.Values.{Runtime, js_loose_equal, js_string}
use jostraca.Js.Values.Loose.{js_loose_equal_symm}
use jostraca.Js.Quote.{js_quote, read_string, read_string-js_quote}
use jostraca.Tests.InsertionSort.{insertion_sort, by_index, by_text}
use jostraca.Js.Keys.{Distinct, key_order, key_order_unique}

abbrev decimal_digit : ℕ → Bytes
decimal_digit n = (n + 48) ∷ []

abbrev pub runtime : Runtime
runtime = record {
  nan = 1000000;
  infinity = 1000001;
  minus_infinity = 1000002;
  of_int = λ n. n;
  is_nan = λ f. f == 1000000;
  float_eq = λ a b. a == b;
  float_lt = λ a b. ltb a b;
  positional = λ f. true;
  format_e = decimal_digit;
  format_f = decimal_digit;
  parse_float = λ s. parse_digits 0 s;
  of_radix = λ base s. 0;
  runes = λ s. s;
  rune_text = λ r. r ∷ [];
  trim_space = λ s. s;
  same_object = λ v w. false;
}

abbrev list : Value
list =
    list_value
      (value (number_value 1) (value null_value (value (string_value (codes "b")) no_values)))

list_string : js_string runtime list ≡ codes "1,,b"
unfolding js_string
list_string = refl

-- `"1" == true`, and `[1] == 1`.
text_true : js_loose_equal runtime (some (string_value (codes "1"))) (some (bool_value true)) ≡ true
unfolding js_loose_equal bytes_eq parse_digits
text_true = refl

list_one :
    js_loose_equal runtime
      (some (list_value (value (number_value 1) no_values)))
      (some (number_value 1))
    ≡ true
unfolding js_loose_equal bytes_eq parse_digits
list_one = refl

==-symm : (a b : ℕ) → (a == b) ≡ (b == a)
==-symm a b = ground arith

js_loose_equal-symm_example :
    js_loose_equal runtime (some list) (some (bool_value true))
    ≡ js_loose_equal runtime (some (bool_value true)) (some list)
js_loose_equal-symm_example =
    js_loose_equal_symm runtime ==-symm (λ v w. refl) (some list) (some (bool_value true))

index_run : js_index (codes "10") 11 ≡ some 10
unfolding js_index
index_run = refl

no_index_run : js_index (codes "010") 11 ≡ none
unfolding js_index
no_index_run = refl

js_index-injective_example : (10 < 11) × (10 < max_index) × (codes "10" ≡ codes "10")
js_index-injective_example =
    js_index-injective (codes "10") (codes "10") 11 12 10 index_run (unfold js_index in refl)

js_less-lex_less_example :
    js_less (240 ∷ []) (238 ∷ []) ≡ lex_less (place 240 ∷ []) (place 238 ∷ [])
js_less-lex_less_example =
    js_less-lex_less (240 ∷ []) (238 ∷ []) (omega arith, tt) (omega arith, tt)

quote_run : js_quote (codes "a\"\n") ≡ codes "\"a\\\"\\n\""
unfolding js_quote
quote_run = refl

read_string-js_quote_example :
    read_string (js_quote (7 ∷ codes "a\"") ++ codes ",") ≡ some (7 ∷ codes "a\"", codes ",")
read_string-js_quote_example = read_string-js_quote (7 ∷ codes "a\"") (codes ",")

abbrev keys : List Bytes
keys = codes "b" ∷ codes "10" ∷ codes "2" ∷ []

abbrev turned : List Bytes
turned = codes "2" ∷ codes "b" ∷ codes "10" ∷ []

keys_run : key_order insertion_sort keys ≡ codes "2" ∷ codes "10" ∷ codes "b" ∷ []
unfolding key_order insertion_sort js_less is_array_index_key
keys_run = refl

there : (a : Bytes) → Memᴰ a keys → Memᴰ a turned
there a (Memᴰ.head e) = Memᴰ.tail (Memᴰ.head e)
there a (Memᴰ.tail (Memᴰ.head e)) = Memᴰ.tail (Memᴰ.tail (Memᴰ.head e))
there a (Memᴰ.tail (Memᴰ.tail (Memᴰ.head e))) = Memᴰ.head e
there a (Memᴰ.tail (Memᴰ.tail (Memᴰ.tail m))) = elim m [ ]

back : (a : Bytes) → Memᴰ a turned → Memᴰ a keys
back a (Memᴰ.head e) = Memᴰ.tail (Memᴰ.tail (Memᴰ.head e))
back a (Memᴰ.tail (Memᴰ.head e)) = Memᴰ.head e
back a (Memᴰ.tail (Memᴰ.tail (Memᴰ.head e))) = Memᴰ.tail (Memᴰ.head e)
back a (Memᴰ.tail (Memᴰ.tail (Memᴰ.tail m))) = elim m [ ]

-- Neither of two keys with other first bytes is the other.
apart : (a b c : Bytes) → a ≢ b → a ≢ c → ¬ (Memᴰ a (b ∷ c ∷ []))
apart a b c h k (Memᴰ.head e) = h e
apart a b c h k (Memᴰ.tail (Memᴰ.head e)) = k e
apart a b c h k (Memᴰ.tail (Memᴰ.tail m)) = elim m [ ]

alone : (a b : Bytes) → a ≢ b → ¬ (Memᴰ a (b ∷ []))
alone a b h (Memᴰ.head e) = h e
alone a b h (Memᴰ.tail m) = elim m [ ]

differ : (a b : Bytes) → bytes_eq a b ≡ false → a ≢ b
differ a b h e = ground (arith, bytes_eq_iff a b)

keys-Distinct : Distinct keys
unfolding bytes_eq
keys-Distinct = (
  apart _ _ _ (differ _ _ refl) (differ _ _ refl),
  (alone _ _ (differ _ _ refl), (λ m. elim m [ ], tt)),
)

turned-Distinct : Distinct turned
unfolding bytes_eq
turned-Distinct = (
  apart _ _ _ (differ _ _ refl) (differ _ _ refl),
  (alone _ _ (differ _ _ refl), (λ m. elim m [ ], tt)),
)

key_order_unique_example : key_order insertion_sort keys ≡ key_order insertion_sort turned
key_order_unique_example =
    key_order_unique insertion_sort keys turned by_index by_text keys-Distinct turned-Distinct
      (there, back)
