-- ===== src/Getx/Enough.antt =====
-- The fuel of the walk of go/getx.go.
use jostraca.Common.{
  ℕ, zero, suc, ◌≤◌, ◌≡◌, refl, ap, ◌∙◌, Bool, true, false, not, ◌&&◌, List, [], ◌∷◌, none, some,
  Bytes, codes, bytes_eq, if◌then◌else◌, length, length-drop, drop, arith,
}
use mathlib.Core.Path.{fun_ext}
use jostraca.Tree.{Value}
use jostraca.Js.Values.{Runtime, Js, js_prop}
use jostraca.Getx.{
  Regexps, is_compare_op, compare_op, arg_at, next_is_equals, is_container, is_none, is_nil,
  set_out, filter_end, filter_node, walk,
}

length-filter_end : (ts : List Bytes) → length (filter_end ts) ≤ length ts
unfolding filter_end
length-filter_end [] = omega arith
length-filter_end (t ∷ []) = omega arith
length-filter_end (t ∷ u ∷ ts) = ground (arith, length-filter_end (u ∷ ts))

filter_node-same :
    (keep keep' : Value → Bool) (here : Js)
    → ((v : Value) → keep v ≡ keep' v)
    → filter_node keep here ≡ filter_node keep' here
filter_node-same keep keep' here same = ap (λ k. filter_node k here) (fun_ext same)

module _ (js : Runtime) (re : Regexps) where
  -- With as much fuel as there are tokens, the amount is free.
  pub walk-enough :
      (f g : ℕ) (here out : Js) (ancestry : Bool) (ts : List Bytes)
      → length ts ≤ f
      → length ts ≤ g
      → walk js re f here out ancestry ts ≡ walk js re g here out ancestry ts
  unfolding walk
  walk-enough f g here out ancestry [] h k = refl
  walk-enough zero g here out ancestry (t0 ∷ ts) h k = absurd (omega (arith, h))
  walk-enough (suc f) zero here out ancestry (t0 ∷ ts) h k = absurd (omega (arith, k))
  walk-enough (suc f) (suc g) none out ancestry (t0 ∷ ts) h k = refl
  walk-enough (suc f) (suc g) (some v) out ancestry (t0 ∷ []) h k = refl
  walk-enough (suc f) (suc g) (some v) out ancestry (t0 ∷ t1 ∷ ts) h k =
      let next = js_prop js (some v) t0 in
      let ftokens = filter_end (t1 ∷ ts) in
      let fewer = length-filter_end (t1 ∷ ts) in
      let filters =
        filter_node-same
          (λ c. is_container c && not (is_nil (walk js re f (some c) none false ftokens)))
          (λ c. is_container c && not (is_nil (walk js re g (some c) none false ftokens))) (some v)
          (λ c.
            ap (λ r. is_container c && not (is_nil r))
              (walk-enough f g (some c) none false ftokens (omega (arith, fewer, h))
                (omega (arith, fewer, k)))) in
      let kept =
        filter_node (λ c. is_container c && not (is_nil (walk js re g (some c) none false ftokens)))
          (some v) in
      let short = length-drop 1 ts in
      let rest = length-drop (length ftokens) (t1 ∷ ts) in
      let out' = if is_none next then none else out in
      let compared =
        walk-enough f g (some v) (set_out ancestry out (some v)) ancestry (drop 1 ts)
          (omega (arith, short, h)) (omega (arith, short, k)) in
      let skipped = walk-enough f g (some v) out true ts (omega (arith, h)) (omega (arith, k)) in
      let entered =
        walk-enough f g next (if is_none next then none else if ancestry then out else some v) true
          ts (omega (arith, h)) (omega (arith, k)) in
      let filtered =
        ap (λ n. walk js re f n n ancestry (drop (length ftokens) (t1 ∷ ts))) filters
        ∙ walk-enough f g kept kept ancestry (drop (length ftokens) (t1 ∷ ts))
            (omega (arith, rest, h)) (omega (arith, rest, k)) in
      let back = walk-enough f g out' out' false (t1 ∷ ts) (omega (arith, h)) (omega (arith, k)) in
      let onward = walk-enough f g next out false (t1 ∷ ts) (omega (arith, h)) (omega (arith, k)) in
      λ i.
        if is_compare_op t1
        then (if compare_op js re next t1 (arg_at ts) then compared i else none)
        else if bytes_eq t1 (codes ":")
        then (if next_is_equals ts then skipped i else entered i)
        else if bytes_eq t0 (codes "?")
        then filtered i
        else if ancestry
        then back i
        else onward i
