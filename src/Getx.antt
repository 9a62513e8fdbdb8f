-- ===== src/Getx.antt =====
-- Path expressions on decoded values: go/getx.go, and `Get` of go/util.go. A path is a text, or its
-- tokens. The cache of tokens is left out: it gives what it was given. `match_tokens` is what the
-- expression `getxTokenRE` finds in a text, and `has_space` the expression `jsSpaceRE`; `matches` is
-- `regexp.Compile` and `MatchString`, with `none` for a pattern that is refused.
pub mod Plain
pub mod Enough
pub mod Filter
pub mod Compares
use jostraca.Common.{
  ℕ, zero, suc, ◌+◌, ◌-◌, Bool, true, false, not, ◌&&◌, ◌||◌, List, [], ◌∷◌, ◌++◌, Option, none,
  some, Bytes, codes, bytes_eq, contains, ltb, leb, ◌==◌, if◌then◌else◌, length, take, drop,
}
use jostraca.Tree.{
  Value, null_value, bool_value, string_value, list_value, map_value, Values, no_values, value,
  Fields, no_fields, field,
}
use jostraca.Fs.Path.{push}
use jostraca.Js.Values.{
  Runtime, Js, js_prop, js_text, js_loose_equal, js_strict_equal, js_less_than,
}

pub record Regexps : Type 0 where
  pub match_tokens : Bytes → List Bytes
  pub has_space : Bytes → Bool
  pub matches : Bytes → Bytes → Option Bool

abbrev pub is_word : ℕ → Bool
is_word c = leb 97 c && leb c 122 || (leb 65 c && leb c 90 || (leb 48 c && leb c 57 || c == 95))

abbrev pub push_token : Bytes → List Bytes → List Bytes
push_token [] out = out
push_token (c ∷ tok) out = out ++ (c ∷ tok) ∷ []

-- The loop: the token that is open, and those that are closed.
unfoldable pub plain_loop : Bytes → Bytes → List Bytes → Option (List Bytes)
plain_loop [] tok out = some (push_token tok out)
plain_loop (c ∷ p) tok out =
    let longer = plain_loop p (tok ++ c ∷ []) out in
    let closed = plain_loop p [] (push_token tok out) in
    if is_word c then longer else if c == 46 || c == 32 then closed else none

unfoldable pub tokenize_plain : Bytes → Option (List Bytes)
unfolding plain_loop
tokenize_plain p = plain_loop p [] []

-- The last byte, and what stands in front of it.
unfoldable pub split_last : Bytes → Option (Bytes × ℕ)
split_last [] = none
split_last (c ∷ s) = elim (split_last s) [
  | none ↦ some ([], c)
  | some (front, d) ↦ some (c ∷ front, d)
]

unfoldable pub js_unquote : Bytes → Bytes
unfolding split_last contains
js_unquote [] = []
js_unquote (c ∷ s) = elim (split_last s) [
  | none ↦ c ∷ s
  | some ([], d) ↦ c ∷ s
  | some (x ∷ inner, d) ↦
      if c == 34 && (d == 34 && not (contains (x ∷ inner) (codes "\""))) then x ∷ inner else c ∷ s
]

unfoldable pub is_compare_op : Bytes → Bool
unfolding bytes_eq
is_compare_op t =
    bytes_eq t (codes "=")
    || (bytes_eq t (codes "!=")
        || (bytes_eq t (codes "<")
            || (bytes_eq t (codes "<=")
                || (bytes_eq t (codes ">")
                    || (bytes_eq t (codes ">=")
                        || (bytes_eq t (codes "==") || bytes_eq t (codes "~")))))))

unfoldable pub is_ident : Bytes → Bool
is_ident [] = false
is_ident (c ∷ t) = is_word c || is_ident t

unfoldable pub arg_of : Bytes → Value
unfolding js_unquote bytes_eq
arg_of tok =
    if bytes_eq tok (codes "true")
    then bool_value true
    else if bytes_eq tok (codes "false")
    then bool_value false
    else string_value (js_unquote tok)

abbrev pub is_none : Js → Bool
is_none none = true
is_none (some v) = false

-- Whether an answer is nil, for a caller of `GetX`: absent, or null.
abbrev pub is_nil : Js → Bool
is_nil none = true
is_nil (some null_value) = true
is_nil (some _) = false

-- Where the tokens of a filter end: behind the first of two adjacent ones with a word character.
unfoldable pub filter_end : List Bytes → List Bytes
unfolding is_ident
filter_end [] = []
filter_end (t ∷ []) = t ∷ []
filter_end (t ∷ u ∷ ts) =
    let rest = filter_end (u ∷ ts) in if is_ident t && is_ident u then t ∷ [] else t ∷ rest

unfoldable pub keep_values : (Value → Bool) → Values → Values
keep_values keep no_values = no_values
keep_values keep (value v vs) =
    let rest = keep_values keep vs in if keep v then value v rest else rest

unfoldable pub keep_fields : (Value → Bool) → Fields → Fields
keep_fields keep no_fields = no_fields
keep_fields keep (field k v fs) =
    let rest = keep_fields keep fs in if keep v then field k v rest else rest

unfoldable pub filter_node : (Value → Bool) → Js → Js
unfolding keep_values keep_fields
filter_node keep (some (map_value fs)) = some (map_value (keep_fields keep fs))
filter_node keep (some (list_value vs)) = some (list_value (keep_values keep vs))
filter_node keep _ = none

-- `out` behind a round, where the node is `node'`.
abbrev pub set_out : Bool → Js → Js → Js
set_out ancestry out node' = if ancestry && not (is_none node') then out else node'

abbrev pub is_container : Value → Bool
is_container (list_value vs) = true
is_container (map_value fs) = true
is_container _ = false

-- What is read of the token behind the operator.
abbrev pub arg_at : List Bytes → Js
arg_at [] = none
arg_at (t ∷ ts) = some (arg_of t)

abbrev pub next_is_equals : List Bytes → Bool
next_is_equals [] = false
next_is_equals (t ∷ ts) = bytes_eq t (codes "=")

module _ (js : Runtime) (re : Regexps) where
  unfoldable pub compare_op : Js → Bytes → Js → Bool
  unfolding js_less_than js_loose_equal js_strict_equal bytes_eq
  compare_op val op arg =
      let up = js_less_than js val arg in
      let down = js_less_than js arg val in
      if bytes_eq op (codes "<")
      then not up.1 && up.0
      else if bytes_eq op (codes ">")
      then not down.1 && down.0
      else if bytes_eq op (codes "<=")
      then not down.1 && not down.0
      else if bytes_eq op (codes ">=")
      then not up.1 && not up.0
      else if bytes_eq op (codes "=")
      then js_loose_equal js val arg
      else if bytes_eq op (codes "==")
      then js_strict_equal js val arg
      else if bytes_eq op (codes "!=")
      then not (js_loose_equal js val arg)
      else if bytes_eq op (codes "~")
      then elim (re.matches (elim arg [ none ↦ codes "(?:)" | some a ↦ js_text js (some a) ])
          (js_text js val)) [ none ↦ false | some m ↦ m ]
      else false

  -- The loop of `getxWalk`. A round takes a token at least, so the number of tokens is enough fuel;
  -- the tokens of a filter are fewer, and their walk runs on what is left. The loop ends where the
  -- node is undefined.
  unfoldable pub walk : ℕ → Js → Js → Bool → List Bytes → Js
  unfolding is_compare_op compare_op arg_of bytes_eq filter_end filter_node js_prop
  walk fuel here out ancestry [] = out
  walk zero here out ancestry (t0 ∷ ts) = out
  walk (suc fuel) none out ancestry (t0 ∷ ts) = out
  walk (suc fuel) (some v) out ancestry (t0 ∷ []) =
      if bytes_eq t0 (codes "?")
      then filter_node (λ c. is_container c && not (is_nil (walk fuel (some c) none false [])))
          (some v)
      else set_out ancestry out (js_prop js (some v) t0)
  walk (suc fuel) (some v) out ancestry (t0 ∷ t1 ∷ ts) =
      let here = some v in
      let next = js_prop js here t0 in
      let ftokens = filter_end (t1 ∷ ts) in
      let kept =
        filter_node (λ c. is_container c && not (is_nil (walk fuel (some c) none false ftokens)))
          here in
      let compared =
        if compare_op next t1 (arg_at ts)
        then walk fuel here (set_out ancestry out here) ancestry (drop 1 ts)
        else none in
      let skipped = walk fuel here out true ts in
      let entered =
        walk fuel next (if is_none next then none else if ancestry then out else here) true ts in
      let filtered = walk fuel kept kept ancestry (drop (length ftokens) (t1 ∷ ts)) in
      let back =
        let out' = if is_none next then none else out in walk fuel out' out' false (t1 ∷ ts) in
      let onward = walk fuel next out false (t1 ∷ ts) in
      if is_compare_op t1
      then compared
      else if bytes_eq t1 (codes ":")
      then (if next_is_equals ts then skipped else entered)
      else if bytes_eq t0 (codes "?")
      then filtered
      else if ancestry
      then back
      else onward

  -- `GetX` at tokens.
  unfoldable pub getx : Value → List Bytes → Js
  unfolding walk
  getx root tokens =
      if is_container root then walk (length tokens) (some root) none false tokens else none

  unfoldable pub kept_tokens : List Bytes → List Bytes
  unfolding js_unquote contains
  kept_tokens [] = []
  kept_tokens (t ∷ ts) =
      let rest = kept_tokens ts in
      if contains t (codes ".") || re.has_space t then rest else js_unquote t ∷ rest

  unfoldable pub tokenize : Bytes → List Bytes
  unfolding tokenize_plain kept_tokens
  tokenize p = elim (tokenize_plain p) [
    | some tokens ↦ tokens
    | none ↦ kept_tokens (re.match_tokens p)
  ]

  -- `GetX` at a text.
  unfoldable pub getx_text : Value → Bytes → Js
  unfolding getx tokenize
  getx_text root p = getx root (tokenize p)

-- `strings.Split(path, ".")`.
unfoldable pub split_dots : Bytes → List Bytes
split_dots [] = [] ∷ []
split_dots (c ∷ p) = let rest = split_dots p in if c == 46 then [] ∷ rest else push c rest

module _ (js : Runtime) where
  -- The loop of `Get`: nil ends it, with nil as its answer.
  unfoldable pub get_loop : Js → List Bytes → Js
  unfolding js_prop
  get_loop here [] = here
  get_loop here (p ∷ ps) = if is_nil here then none else get_loop (js_prop js here p) ps

  unfoldable pub get : Value → Bytes → Js
  unfolding get_loop split_dots
  get root path = get_loop (some root) (split_dots path)
