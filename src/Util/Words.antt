-- ===== src/Util/Words.antt =====
-- The words of a name: `Partify` of go/util.go on a string, and the forms that it gives. A string is
-- valid UTF-8, of which the bytes from 128 up are passed through. `unicode_lower` and
-- `unicode_upper` are the rune loops of go/jscase.go, with the tables of package unicode.
pub mod Parts
pub mod Forms
use jostraca.Common.{
  ℕ, zero, suc, ◌+◌, ◌-◌, Bool, true, false, not, ◌&&◌, ◌||◌, List, [], ◌∷◌, ◌++◌, map, Bytes, ltb,
  leb, ◌==◌, if◌then◌else◌, take, drop,
}

abbrev pub is_ascii_upper : ℕ → Bool
is_ascii_upper c = leb 65 c && leb c 90

abbrev pub is_ascii_lower : ℕ → Bool
is_ascii_lower c = leb 97 c && leb c 122

-- The letters of the run of upper case at the front, without the last one where a lower case letter
-- follows it: `end - i`.
unfoldable pub acronym : Bytes → ℕ
acronym [] = 0
acronym (c ∷ []) = if is_ascii_upper c then 1 else 0
acronym (c ∷ d ∷ s) =
    let rest = acronym (d ∷ s) in
    if not (is_ascii_upper c) then 0 else if is_ascii_lower d then 0 else suc rest

-- The loop, where `k` letters of an acronym are still to be made lower case.
unfoldable pub collapse : ℕ → Bytes → Bytes
unfolding acronym
collapse k [] = []
collapse (suc k) (c ∷ s) = (c + 32) ∷ collapse k s
collapse zero (c ∷ s) =
    let n = acronym (c ∷ s) in
    let short = collapse zero s in
    let long = collapse (n - 1) s in
    if not (is_ascii_upper c) || ltb n 2 then c ∷ short else c ∷ long

abbrev pub is_sep : ℕ → Bool
is_sep c = c == 45 || (c == 95 || c == 32)

-- `flush`.
abbrev pub flush_word : Bytes → List Bytes → List Bytes
flush_word [] out = out
flush_word (c ∷ cur) out = out ++ (c ∷ cur) ∷ []

unfoldable pub split_loop : Bytes → Bytes → List Bytes → List Bytes
split_loop [] cur out = flush_word cur out
split_loop (c ∷ s) cur out =
    let at_sep = split_loop s [] (flush_word cur out) in
    let at_upper = split_loop s [] (flush_word cur out ++ (c ∷ []) ∷ []) in
    let other = split_loop s (cur ++ c ∷ []) out in
    if is_sep c then at_sep else if is_ascii_upper c then at_upper else other

abbrev pub is_initial : Bytes → Bool
is_initial (c ∷ []) = is_ascii_upper c
is_initial _ = false

abbrev pub is_tail : Bytes → Bool
is_tail [] = false
is_tail (c ∷ p) = not (is_ascii_upper c)

-- The loop, `prev` being the last part of `out`.
unfoldable pub glue : Bytes → List Bytes → List Bytes
glue prev [] = prev ∷ []
glue prev (p ∷ parts) =
    let joined = glue (prev ++ p) parts in
    let apart = glue p parts in if is_initial prev && is_tail p then joined else prev ∷ apart

unfoldable pub glue_initials : List Bytes → List Bytes
unfolding glue
glue_initials [] = []
glue_initials (p ∷ parts) = glue p parts

unfoldable pub partify : Bytes → List Bytes
unfolding collapse split_loop glue_initials
partify s = glue_initials (split_loop (collapse zero s) [] [])

unfoldable pub is_ascii : Bytes → Bool
is_ascii [] = true
is_ascii (c ∷ s) = ltb c 128 && is_ascii s

abbrev pub lower : ℕ → ℕ
lower c = if is_ascii_upper c then c + 32 else c

abbrev pub upper : ℕ → ℕ
upper c = if is_ascii_lower c then c - 32 else c

-- `strings.Join`.
unfoldable pub join : ℕ → List Bytes → Bytes
join sep [] = []
join sep (p ∷ []) = p
join sep (p ∷ q ∷ parts) = p ++ sep ∷ join sep (q ∷ parts)

-- `unicode_lower` is the rune loop of `jsToLower`.
module _ (unicode_lower : Bytes → Bytes) where
  unfoldable pub js_to_lower : Bytes → Bytes
  unfolding is_ascii
  js_to_lower s = if is_ascii s then map lower s else unicode_lower s

  unfoldable pub snakify : Bytes → Bytes
  unfolding partify js_to_lower join
  snakify s = join 95 (map js_to_lower (partify s))

  unfoldable pub kebabify : Bytes → Bytes
  unfolding partify js_to_lower join
  kebabify s = join 45 (map js_to_lower (partify s))

-- `unicode_upper` is the rune loop of `jsToUpper`, and `rune_size` the length of the first rune of
-- a string that does not begin with an ASCII byte.
module _ (unicode_upper : Bytes → Bytes) (rune_size : Bytes → ℕ) where
  unfoldable pub js_to_upper : Bytes → Bytes
  unfolding is_ascii
  js_to_upper s = if is_ascii s then map upper s else unicode_upper s

  unfoldable pub ucf : Bytes → Bytes
  unfolding js_to_upper
  ucf [] = []
  ucf (c ∷ s) =
      if ltb c 128
      then upper c ∷ s
      else js_to_upper (take (rune_size (c ∷ s)) (c ∷ s)) ++ drop (rune_size (c ∷ s)) (c ∷ s)

  unfoldable pub camel_parts : List Bytes → Bytes
  unfolding ucf
  camel_parts [] = []
  camel_parts (p ∷ parts) = ucf p ++ camel_parts parts

  unfoldable pub camelify : Bytes → Bytes
  unfolding partify camel_parts
  camelify s = camel_parts (partify s)
