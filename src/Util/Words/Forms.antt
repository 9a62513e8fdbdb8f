-- ===== src/Util/Words/Forms.antt =====
-- The snake and the kebab form of go/util.go.
use jostraca.Common.{
  ℕ, zero, ◌<◌, ◌≡◌, ◌≢◌, refl, sym, ap, ◌∙◌, inl, inr, true, false, List, [], ◌∷◌, ◌++◌, map,
  arith, Bytes, Bool-cases, All, All-append, append-nil, append_assoc,
}
use jostraca.Util.Words.{
  is_ascii_upper, collapse, is_sep, flush_word, split_loop, is_initial, glue, glue_initials,
  partify, is_ascii, lower, join, js_to_lower, snakify, kebabify,
}
use jostraca.Util.Words.Parts.{IsPlain, IsWord, Ascii, partify-IsWord}

-- A plain byte that no upper case letter is.
abbrev IsLow : ℕ → Type 0
IsLow c = (is_sep c ≡ false) × (is_ascii_upper c ≡ false) × (c < 128)

abbrev IsLowWord : Bytes → Type 0
IsLowWord p = (p ≢ []) × All IsLow p

lower-IsLow : (c : ℕ) → IsPlain c → IsLow (lower c)
lower-IsLow c (h, k) = elim (Bool-cases (is_ascii_upper c)) [
  | inl e ↦ rw e (ground arith, ground arith, ground arith)
  | inr e ↦ rw e (h, e, k)
]

map-lower-IsLow : (p : Bytes) → All IsPlain p → All IsLow (map lower p)
map-lower-IsLow [] h = tt
map-lower-IsLow (c ∷ p) (h, hs) = (lower-IsLow c h, map-lower-IsLow p hs)

map-lower_id : (p : Bytes) → All IsLow p → map lower p ≡ p
map-lower_id [] h = refl
map-lower_id (c ∷ p) ((s, u, a), hs) = rw u (ap (λ t. c ∷ t) (map-lower_id p hs))

IsPlain-is_ascii : (p : Bytes) → All IsPlain p → is_ascii p ≡ true
unfolding is_ascii
IsPlain-is_ascii [] h = refl
IsPlain-is_ascii (c ∷ p) ((s, a), hs) = ground (arith, IsPlain-is_ascii p hs)

IsLow-IsPlain : (p : Bytes) → All IsLow p → All IsPlain p
IsLow-IsPlain [] h = tt
IsLow-IsPlain (c ∷ p) ((s, u, a), hs) = ((s, a), IsLow-IsPlain p hs)

collapse_id : (s : Bytes) → All (λ c. is_ascii_upper c ≡ false) s → collapse zero s ≡ s
unfolding collapse
collapse_id [] h = refl
collapse_id (c ∷ s) (h, hs) = rw h (ap (λ t. c ∷ t) (collapse_id s hs))

split_loop-word :
    (p s cur : Bytes) (out : List Bytes)
    → All IsLow p
    → split_loop (p ++ s) cur out ≡ split_loop s (cur ++ p) out
unfolding split_loop
split_loop-word [] s cur out h = ap (λ t. split_loop s t out) (sym (append-nil cur))
split_loop-word (c ∷ p) s cur out ((e, u, a), hs) =
    rw (e, u)
      (split_loop-word p s (cur ++ c ∷ []) out hs
        ∙ ap (λ t. split_loop s t out) (append_assoc cur (c ∷ []) p))

flush_word-nonempty : (p : Bytes) (out : List Bytes) → p ≢ [] → flush_word p out ≡ out ++ p ∷ []
flush_word-nonempty [] out h = absurd (h refl)
flush_word-nonempty (c ∷ p) out h = refl

split_loop-join :
    (sep : ℕ) (p : Bytes) (parts out : List Bytes)
    → is_sep sep ≡ true
    → All IsLowWord (p ∷ parts)
    → split_loop (join sep (p ∷ parts)) [] out ≡ out ++ p ∷ parts
unfolding split_loop join
split_loop-join sep p [] out e ((ne, h), hs) =
    ap (λ t. split_loop t [] out) (sym (append-nil p))
    ∙ split_loop-word p [] [] out h
    ∙ flush_word-nonempty p out ne
split_loop-join sep p (q ∷ parts) out e ((ne, h), hs) =
    split_loop-word p (sep ∷ join sep (q ∷ parts)) [] out h
    ∙ rw e (
        split_loop-join sep q parts (flush_word p out) e hs
        ∙ ap (λ t. t ++ q ∷ parts) (flush_word-nonempty p out ne)
        ∙ append_assoc out (p ∷ []) (q ∷ parts))

initial_none : (p : Bytes) → All IsLow p → is_initial p ≡ false
initial_none [] h = refl
initial_none (c ∷ []) ((s, u, a), hs) = u
initial_none (c ∷ d ∷ p) h = refl

glue_id : (p : Bytes) (parts : List Bytes) → All IsLowWord (p ∷ parts) → glue p parts ≡ p ∷ parts
unfolding glue
glue_id p [] h = refl
glue_id p (q ∷ parts) ((ne, h), hs) = rw (initial_none p h) (ap (λ t. p ∷ t) (glue_id q parts hs))

abbrev NoUpper : Bytes → Type 0
NoUpper s = All (λ c. is_ascii_upper c ≡ false) s

IsLow-NoUpper : (p : Bytes) → All IsLow p → NoUpper p
IsLow-NoUpper [] h = tt
IsLow-NoUpper (c ∷ p) ((s, u, a), hs) = (u, IsLow-NoUpper p hs)

join-NoUpper :
    (sep : ℕ) (parts : List Bytes)
    → is_ascii_upper sep ≡ false
    → All IsLowWord parts
    → NoUpper (join sep parts)
unfolding join
join-NoUpper sep [] e h = tt
join-NoUpper sep (p ∷ []) e ((ne, h), hs) = IsLow-NoUpper p h
join-NoUpper sep (p ∷ q ∷ parts) e ((ne, h), hs) =
    All-append (λ c. is_ascii_upper c ≡ false) p (sep ∷ join sep (q ∷ parts)) (IsLow-NoUpper p h)
      (e, join-NoUpper sep (q ∷ parts) e hs)

-- Low words, joined by a separator, are read back.
partify-join :
    (sep : ℕ) (parts : List Bytes)
    → is_sep sep ≡ true
    → All IsLowWord parts
    → partify (join sep parts) ≡ parts
unfolding partify glue_initials
partify-join sep [] e h = unfold join collapse split_loop in refl
partify-join sep (p ∷ parts) e h =
    ap (λ t. glue_initials (split_loop t [] []))
      (collapse_id (join sep (p ∷ parts)) (join-NoUpper sep (p ∷ parts) (ground arith) h))
    ∙ ap glue_initials (split_loop-join sep p parts [] e h)
    ∙ glue_id p parts h

module _ (unicode_lower : Bytes → Bytes) where
  words : Bytes → List Bytes
  words s = map (js_to_lower unicode_lower) (partify s)

  js_to_lower-plain : (p : Bytes) → All IsPlain p → js_to_lower unicode_lower p ≡ map lower p
  unfolding js_to_lower
  js_to_lower-plain p h = rw (IsPlain-is_ascii p h)

  IsWord-low : (p : Bytes) → IsWord p → IsLowWord (js_to_lower unicode_lower p)
  IsWord-low [] (ne, h) = absurd (ne refl)
  IsWord-low (c ∷ p) (ne, h) =
      rw (js_to_lower-plain (c ∷ p) h) ((λ e. cc e), map-lower-IsLow (c ∷ p) h)

  map-IsLowWord :
      (ps : List Bytes) → All IsWord ps → All IsLowWord (map (js_to_lower unicode_lower) ps)
  map-IsLowWord [] h = tt
  map-IsLowWord (p ∷ ps) (h, hs) = (IsWord-low p h, map-IsLowWord ps hs)

  map-js_to_lower_id :
      (ps : List Bytes) → All IsLowWord ps → map (js_to_lower unicode_lower) ps ≡ ps
  map-js_to_lower_id [] h = refl
  map-js_to_lower_id (p ∷ ps) ((ne, h), hs) =
      ap (λ t. t ∷ map (js_to_lower unicode_lower) ps)
        (js_to_lower-plain p (IsLow-IsPlain p h) ∙ map-lower_id p h)
      ∙ ap (λ t. p ∷ t) (map-js_to_lower_id ps hs)

  -- The words of what joins the words of a text.
  words-join :
      (sep : ℕ) (s : Bytes) → is_sep sep ≡ true → Ascii s → words (join sep (words s)) ≡ words s
  unfolding words
  words-join sep s e a =
      let low = map-IsLowWord (partify s) (partify-IsWord s a) in
      ap (map (js_to_lower unicode_lower)) (partify-join sep (words s) e low)
      ∙ map-js_to_lower_id (words s) low

-- The snake and the kebab form of an ASCII text have the same words as the text: each form of either
-- form is that form of the text.
pub kebabify-snakify :
    (unicode_lower : Bytes → Bytes) (s : Bytes)
    → Ascii s
    → (snakify unicode_lower (snakify unicode_lower s) ≡ snakify unicode_lower s)
      × (kebabify unicode_lower (snakify unicode_lower s) ≡ kebabify unicode_lower s)
      × (snakify unicode_lower (kebabify unicode_lower s) ≡ snakify unicode_lower s)
      × (kebabify unicode_lower (kebabify unicode_lower s) ≡ kebabify unicode_lower s)
unfolding snakify kebabify words
kebabify-snakify unicode_lower s a = (
  ap (join 95) (words-join unicode_lower 95 s refl a),
  ap (join 45) (words-join unicode_lower 95 s refl a),
  ap (join 95) (words-join unicode_lower 45 s refl a),
  ap (join 45) (words-join unicode_lower 45 s refl a),
)
