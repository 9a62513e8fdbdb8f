-- ===== src/Js/Quote.antt =====
-- `jsQuote` of go/jsvalue.go, on the runes that `range` gives of a text, and a reader of the literals
-- of JSON.
use jostraca.Common.{
  ℕ, ◌+◌, ◌-◌, ◌*◌, ◌/◌, ◌%◌, ◌<◌, ◌≡◌, refl, ap, ◌∙◌, ◌&&◌, List, [], ◌∷◌, ◌++◌, append_assoc,
  Option, none, some, codes, ltb, leb, ◌==◌, if◌then◌else◌, arith,
}

-- `"0123456789abcdef"[d]`.
abbrev pub hex_digit : ℕ → ℕ
hex_digit d = if ltb d 10 then d + 48 else d + 87

unfoldable pub quote_rune : ℕ → List ℕ
quote_rune r =
    if r == 34
    then codes "\\\""
    else if r == 92
    then codes "\\\\"
    else if r == 8
    then codes "\\b"
    else if r == 12
    then codes "\\f"
    else if r == 10
    then codes "\\n"
    else if r == 13
    then codes "\\r"
    else if r == 9
    then codes "\\t"
    else if ltb r 32
    then codes "\\u00" ++ hex_digit (r / 16) ∷ hex_digit (r % 16) ∷ []
    else r ∷ []

unfoldable pub quote_runes : List ℕ → List ℕ
unfolding quote_rune
quote_runes [] = []
quote_runes (r ∷ rs) = quote_rune r ++ quote_runes rs

unfoldable pub js_quote : List ℕ → List ℕ
unfolding quote_runes
js_quote rs = 34 ∷ (quote_runes rs ++ 34 ∷ [])

-- The value of a hexadecimal digit.
abbrev hex_value : ℕ → Option ℕ
hex_value c =
    if leb 48 c && leb c 57
    then some (c - 48)
    else if leb 97 c && leb c 102
    then some (c - 87)
    else if leb 65 c && leb c 70
    then some (c - 55)
    else none

-- What an escape of one letter stands for.
unfoldable pub escape_of : ℕ → Option ℕ
escape_of c =
    if c == 34
    then some 34
    else if c == 92
    then some 92
    else if c == 47
    then some 47
    else if c == 98
    then some 8
    else if c == 102
    then some 12
    else if c == 110
    then some 10
    else if c == 114
    then some 13
    else if c == 116
    then some 9
    else none

abbrev pub push_rune : ℕ → Option (List ℕ × List ℕ) → Option (List ℕ × List ℕ)
push_rune r none = none
push_rune r (some (rs, rest)) = some (r ∷ rs, rest)

-- Where a reader of literals stands: between runes, behind a backslash, or in an escape by a number,
-- of which so many digits, with this value, are read.
pub data At : Type 0 where
  plain escaped : At
  number : ℕ → ℕ → At

-- A reader of the literals of JSON, from behind the opening quote: what is written, and what follows
-- the closing quote. A bare control character is refused.
unfoldable pub read_literal : At → List ℕ → Option (List ℕ × List ℕ)
unfolding escape_of
read_literal at [] = none
read_literal plain (c ∷ s) =
    let next = read_literal escaped s in
    let more = push_rune c (read_literal plain s) in
    if c == 34 then some ([], s) else if c == 92 then next else if ltb c 32 then none else more
read_literal escaped (c ∷ s) =
    let digits = read_literal (number 0 0) s in
    let more = read_literal plain s in
    if c == 117 then digits else elim (escape_of c) [ none ↦ none | some r ↦ push_rune r more ]
read_literal (number n acc) (c ∷ s) =
    let more = λ (d : ℕ). read_literal (number (n + 1) (acc * 16 + d)) s in
    let last = λ (d : ℕ). push_rune (acc * 16 + d) (read_literal plain s) in
    elim (hex_value c) [ none ↦ none | some d ↦ if n == 3 then last d else more d ]

-- The reader of a literal with its opening quote.
unfoldable pub read_string : List ℕ → Option (List ℕ × List ℕ)
unfolding read_literal
read_string [] = none
read_string (c ∷ s) = if c == 34 then read_literal plain s else none

hex_value-hex_digit : (d : ℕ) → d < 16 → hex_value (hex_digit d) ≡ some d
hex_value-hex_digit d h = ground arith

-- A control character is written by its two digits.
control :
    (r : ℕ) (s : List ℕ)
    → r < 32
    → read_literal plain (codes "\\u00" ++ hex_digit (r / 16) ∷ hex_digit (r % 16) ∷ s)
      ≡ push_rune r (read_literal plain s)
unfolding read_literal
control r s h =
    let whole : (0 * 16 + r / 16) * 16 + r % 16 ≡ r = omega arith in
    rw (hex_value-hex_digit (r / 16) (omega arith), hex_value-hex_digit (r % 16) (omega arith))
      (ap (λ n. push_rune n (read_literal plain s)) whole)

read_literal-quote_rune :
    (r : ℕ) (s : List ℕ)
    → read_literal plain (quote_rune r ++ s) ≡ push_rune r (read_literal plain s)
unfolding read_literal quote_rune
read_literal-quote_rune r s = ground (arith, control r s)

read_literal-quote_runes :
    (rs s : List ℕ) → read_literal plain (quote_runes rs ++ 34 ∷ s) ≡ some (rs, s)
unfolding quote_runes
read_literal-quote_runes [] s = unfold read_literal in refl
read_literal-quote_runes (r ∷ rs) s =
    ap (read_literal plain) (append_assoc (quote_rune r) (quote_runes rs) (34 ∷ s))
    ∙ read_literal-quote_rune r (quote_runes rs ++ 34 ∷ s)
    ∙ ap (push_rune r) (read_literal-quote_runes rs s)

-- A literal of a text, whatever follows it, is read back as the text.
pub read_string-js_quote : (rs s : List ℕ) → read_string (js_quote rs ++ s) ≡ some (rs, s)
unfolding read_string js_quote
read_string-js_quote rs s =
    ap (read_literal plain) (append_assoc (quote_runes rs) (34 ∷ []) s)
    ∙ read_literal-quote_runes rs s
