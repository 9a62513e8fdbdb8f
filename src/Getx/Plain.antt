-- ===== src/Getx/Plain.antt =====
-- Paths of words between dots, on which `GetX` of go/getx.go and `Get` of go/util.go agree.
use jostraca.Common.{
  ℕ, zero, suc, ◌==◌, ◌≡◌, refl, sym, ap, ◌∙◌, true, false, List, [], ◌∷◌, ◌++◌, append-nil,
  append_assoc, none, some, Bytes, codes, bytes_eq, length, All, arith,
}
use jostraca.Tree.{Value, null_value}
use jostraca.Js.Values.{Runtime, Js, js_prop}
use jostraca.Getx.{
  Regexps, is_word, push_token, plain_loop, tokenize_plain, is_compare_op, is_container, walk, getx,
  tokenize, getx_text, split_dots, get_loop, get,
}

-- A text of word characters, one at least.
abbrev pub IsWord : Bytes → Type 0
IsWord [] = ⊥
IsWord (c ∷ t) = All (λ c. is_word c ≡ true) (c ∷ t)

-- Texts with a dot between each two.
unfoldable pub join_dots : List Bytes → Bytes
join_dots [] = []
join_dots (t ∷ []) = t
join_dots (t ∷ u ∷ ts) = t ++ 46 ∷ join_dots (u ∷ ts)

plain_loop-word :
    (w p tok : Bytes) (out : List Bytes)
    → All (λ c. is_word c ≡ true) w
    → plain_loop (w ++ p) tok out ≡ plain_loop p (tok ++ w) out
unfolding plain_loop
plain_loop-word [] p tok out h = rw append-nil
plain_loop-word (c ∷ w) p tok out (hc, h) =
    rw (hc) (plain_loop-word w p (tok ++ c ∷ []) out h ∙ rw append_assoc)

push_token-word : (w : Bytes) (out : List Bytes) → IsWord w → push_token w out ≡ out ++ w ∷ []
push_token-word [] out h = elim h [ ]
push_token-word (c ∷ w) out h = refl

word_chars : (t : Bytes) → IsWord t → All (λ c. is_word c ≡ true) t
word_chars [] h = elim h [ ]
word_chars (c ∷ t) h = h

plain_loop-join_dots :
    (t : Bytes) (ts out : List Bytes)
    → All IsWord (t ∷ ts)
    → plain_loop (join_dots (t ∷ ts)) [] out ≡ some (out ++ t ∷ ts)
unfolding plain_loop join_dots
plain_loop-join_dots t [] out (h, hs) =
    ap (λ p. plain_loop p [] out) (sym (append-nil t))
    ∙ plain_loop-word t [] [] out (word_chars t h)
    ∙ ap some (push_token-word t out h)
plain_loop-join_dots t (u ∷ ts) out (h, hs) =
    plain_loop-word t (46 ∷ join_dots (u ∷ ts)) [] out (word_chars t h)
    ∙ ap (plain_loop (join_dots (u ∷ ts)) []) (push_token-word t out h)
    ∙ plain_loop-join_dots u ts (out ++ t ∷ []) hs
    ∙ ap some (append_assoc out (t ∷ []) (u ∷ ts))

split_dots-word :
    (w p : Bytes) → All (λ c. is_word c ≡ true) w → split_dots (w ++ 46 ∷ p) ≡ w ∷ split_dots p
unfolding split_dots
split_dots-word [] p h = refl
split_dots-word (c ∷ w) p (hc, h) =
    let no_dot : (c == 46) ≡ false = ground (arith, hc) in rw (no_dot, split_dots-word w p h)

split_dots-last : (w : Bytes) → All (λ c. is_word c ≡ true) w → split_dots w ≡ w ∷ []
unfolding split_dots
split_dots-last [] h = refl
split_dots-last (c ∷ w) (hc, h) =
    let no_dot : (c == 46) ≡ false = ground (arith, hc) in rw (no_dot, split_dots-last w h)

split_dots-join_dots :
    (t : Bytes) (ts : List Bytes) → All IsWord (t ∷ ts) → split_dots (join_dots (t ∷ ts)) ≡ t ∷ ts
unfolding join_dots
split_dots-join_dots t [] (h, hs) = split_dots-last t (word_chars t h)
split_dots-join_dots t (u ∷ ts) (h, hs) =
    split_dots-word t (join_dots (u ∷ ts)) (word_chars t h)
    ∙ ap (λ rest. t ∷ rest) (split_dots-join_dots u ts hs)

-- A word is no operator and no mark.
pub word_plain :
    (t : Bytes)
    → IsWord t
    → (is_compare_op t ≡ false)
      × (bytes_eq t (codes ":") ≡ false)
      × (bytes_eq t (codes "?") ≡ false)
unfolding is_compare_op bytes_eq
word_plain [] h = elim h [ ]
word_plain (c ∷ t) (hc, h) = (ground (arith, hc), ground (arith, hc), ground (arith, hc))

module _ (js : Runtime) (re : Regexps) where
  walk-none : (fuel : ℕ) (ts : List Bytes) → walk js re fuel none none false ts ≡ none
  unfolding walk
  walk-none fuel [] = refl
  walk-none zero (t ∷ ts) = refl
  walk-none (suc fuel) (t ∷ ts) = refl

  get_loop-none : (ts : List Bytes) → get_loop js none ts ≡ none
  unfolding get_loop
  get_loop-none [] = refl
  get_loop-none (t ∷ ts) = refl

  -- Nil has no properties, so to stop at it and to go on from it give the same.
  get_loop-step :
      (v : Value) (t : Bytes) (ts : List Bytes)
      → get_loop js (js_prop js (some v) t) ts ≡ get_loop js (some v) (t ∷ ts)
  unfolding get_loop js_prop
  get_loop-step null_value t ts = get_loop-none ts
  get_loop-step _ t ts = refl

  walk-words :
      (t : Bytes) (ts : List Bytes) (here : Js)
      → All IsWord (t ∷ ts)
      → walk js re (length (t ∷ ts)) here none false (t ∷ ts) ≡ get_loop js here (t ∷ ts)
  unfolding walk get_loop
  walk-words t ts none h = walk-none (length (t ∷ ts)) (t ∷ ts) ∙ sym (get_loop-none (t ∷ ts))
  walk-words t [] (some v) (h, hs) = rw ((word_plain t h).2, walk) (get_loop-step v t [])
  walk-words t (u ∷ ts) (some v) (h, (k, hs)) =
      let (no_op, no_colon, no_filter) = word_plain u k in
      rw (walk, no_op, no_colon, (word_plain t h).2)
        (walk-words u ts (js_prop js (some v) t) (k, hs) ∙ get_loop-step v t (u ∷ ts))

  tokenize-join_dots :
      (t : Bytes) (ts : List Bytes)
      → All IsWord (t ∷ ts)
      → tokenize js re (join_dots (t ∷ ts)) ≡ t ∷ ts
  unfolding tokenize_plain tokenize
  tokenize-join_dots t ts h = rw (tokenize, plain_loop-join_dots t ts [] h) refl

  -- On a list or a map, and for a path of words between dots, `GetX` and `Get` give the same.
  pub getx_text-get :
      (root : Value) (t : Bytes) (ts : List Bytes)
      → is_container root ≡ true
      → All IsWord (t ∷ ts)
      → getx_text js re root (join_dots (t ∷ ts)) ≡ get js root (join_dots (t ∷ ts))
  unfolding getx_text getx get
  getx_text-get root t ts c h =
      rw (tokenize-join_dots t ts h, c)
        (walk-words t ts (some root) h
          ∙ ap (get_loop js (some root)) (sym (split_dots-join_dots t ts h)))
