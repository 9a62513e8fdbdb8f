-- ===== src/Getx/Compares.antt =====
-- What the operators of `getxCompare` in go/getx.go stand for.
use jostraca.Common.{
  ◌≡◌, refl, sym, ap, ◌∙◌, ◌↔◌, bytes_eq_iff, inl, inr, Bool, true, false, not, ◌&&◌, Option, none,
  some, Bytes, codes, bytes_eq, Bool-cases,
}
use mathlib.Core.Path.{subst}
use jostraca.Tree.{Value}
use jostraca.Js.Values.{Runtime, Js, js_text, js_less_than, js_loose_equal, js_strict_equal}
use jostraca.Getx.{Regexps, compare_op}

module _ (js : Runtime) (re : Regexps) where
  -- The comparison of a property with an argument that an operator stands for: loose and strict
  -- equality, the order, whose other direction answers for `<=` and `>=`, and a regular expression.
  pub data Compares (x y : Js) : Bytes → Type 0 where
    less : js_less_than js x y ≡ (true, false) → Compares x y (codes "<")
    greater : js_less_than js y x ≡ (true, false) → Compares x y (codes ">")
    at_most : js_less_than js y x ≡ (false, false) → Compares x y (codes "<=")
    at_least : js_less_than js x y ≡ (false, false) → Compares x y (codes ">=")
    equal : js_loose_equal js x y ≡ true → Compares x y (codes "=")
    same : js_strict_equal js x y ≡ true → Compares x y (codes "==")
    different : js_loose_equal js x y ≡ false → Compares x y (codes "!=")
    like :
        {a : Value}
        → y ≡ some a
        → re.matches (js_text js y) (js_text js x) ≡ some true
        → Compares x y (codes "~")

  less_both : (r : Bool × Bool) → ((not r.1 && r.0) ≡ true) ↔ (r ≡ (true, false))
  less_both (true, true) = (λ h. absurd (cc h), λ h. absurd (cc (ap (λ r. r.1) h)))
  less_both (true, false) = (λ h. refl, λ h. refl)
  less_both (false, true) = (λ h. absurd (cc h), λ h. absurd (cc (ap (λ r. r.1) h)))
  less_both (false, false) = (λ h. absurd (cc h), λ h. absurd (cc (ap (λ r. r.0) h)))

  neither_both : (r : Bool × Bool) → ((not r.1 && not r.0) ≡ true) ↔ (r ≡ (false, false))
  neither_both (true, true) = (λ h. absurd (cc h), λ h. absurd (cc (ap (λ r. r.1) h)))
  neither_both (true, false) = (λ h. absurd (cc h), λ h. absurd (cc (ap (λ r. r.0) h)))
  neither_both (false, true) = (λ h. absurd (cc h), λ h. absurd (cc (ap (λ r. r.1) h)))
  neither_both (false, false) = (λ h. refl, λ h. refl)

  pub Compares-compare_op :
      (x : Js) (a : Value) (op : Bytes)
      → Compares x (some a) op
      → compare_op js re x op (some a) ≡ true
  unfolding compare_op bytes_eq
  Compares-compare_op x a op (less h) = (less_both _).1 h
  Compares-compare_op x a op (greater h) = (less_both _).1 h
  Compares-compare_op x a op (at_most h) = (neither_both _).1 h
  Compares-compare_op x a op (at_least h) = (neither_both _).1 h
  Compares-compare_op x a op (equal h) = h
  Compares-compare_op x a op (same h) = h
  Compares-compare_op x a op (different h) = rw h refl
  Compares-compare_op x a op (like e h) = rw h refl

  not-true : (b : Bool) → not b ≡ true → b ≡ false
  not-true true h = absurd (cc h)
  not-true false h = refl

  true_match : (o : Option Bool) → (elim o [ none ↦ false | some m ↦ m ]) ≡ true → o ≡ some true
  true_match none h = absurd (cc h)
  true_match (some m) h = ap some h

  -- What the test of each operator says.
  unfoldable pub Known : Js → Value → Bytes → Type 0
  Known x a op = compare_op js re x op (some a) ≡ true → Compares x (some a) op

  Known-less : (x : Js) (a : Value) → Known x a (codes "<")
  unfolding compare_op bytes_eq Known
  Known-less x a h = less ((less_both _).0 h)

  Known-greater : (x : Js) (a : Value) → Known x a (codes ">")
  unfolding compare_op bytes_eq Known
  Known-greater x a h = greater ((less_both _).0 h)

  Known-at_most : (x : Js) (a : Value) → Known x a (codes "<=")
  unfolding compare_op bytes_eq Known
  Known-at_most x a h = at_most ((neither_both _).0 h)

  Known-at_least : (x : Js) (a : Value) → Known x a (codes ">=")
  unfolding compare_op bytes_eq Known
  Known-at_least x a h = at_least ((neither_both _).0 h)

  Known-equal : (x : Js) (a : Value) → Known x a (codes "=")
  unfolding compare_op bytes_eq Known
  Known-equal x a h = equal (h)

  Known-same : (x : Js) (a : Value) → Known x a (codes "==")
  unfolding compare_op bytes_eq Known
  Known-same x a h = same (h)

  Known-different : (x : Js) (a : Value) → Known x a (codes "!=")
  unfolding compare_op bytes_eq Known
  Known-different x a h = different (not-true _ h)

  Known-like : (x : Js) (a : Value) → Known x a (codes "~")
  unfolding compare_op bytes_eq Known
  Known-like x a h = like refl (true_match _ h)

  pub compare_op-Compares : (x : Js) (a : Value) (op : Bytes) → Known x a op
  unfolding compare_op Known
  compare_op-Compares x a op h = elim (Bool-cases (bytes_eq op (codes "<"))) [
    | inl e ↦ subst (Known x a) (sym ((bytes_eq_iff op (codes "<")).0 e)) (Known-less x a) h
    | inr e0 ↦ elim (Bool-cases (bytes_eq op (codes ">"))) [
      | inl e ↦ subst (Known x a) (sym ((bytes_eq_iff op (codes ">")).0 e)) (Known-greater x a) h
      | inr e1 ↦ elim (Bool-cases (bytes_eq op (codes "<="))) [
        | inl e ↦ subst (Known x a) (sym ((bytes_eq_iff op (codes "<=")).0 e)) (Known-at_most x a) h
        | inr e2 ↦ elim (Bool-cases (bytes_eq op (codes ">="))) [
          | inl e ↦
              subst (Known x a) (sym ((bytes_eq_iff op (codes ">=")).0 e)) (Known-at_least x a) h
          | inr e3 ↦ elim (Bool-cases (bytes_eq op (codes "="))) [
            | inl e ↦
                subst (Known x a) (sym ((bytes_eq_iff op (codes "=")).0 e)) (Known-equal x a) h
            | inr e4 ↦ elim (Bool-cases (bytes_eq op (codes "=="))) [
              | inl e ↦
                  subst (Known x a) (sym ((bytes_eq_iff op (codes "==")).0 e)) (Known-same x a) h
              | inr e5 ↦ elim (Bool-cases (bytes_eq op (codes "!="))) [
                | inl e ↦
                    subst (Known x a) (sym ((bytes_eq_iff op (codes "!=")).0 e))
                      (Known-different x a) h
                | inr e6 ↦ elim (Bool-cases (bytes_eq op (codes "~"))) [
                  | inl e ↦
                      subst (Known x a) (sym ((bytes_eq_iff op (codes "~")).0 e)) (Known-like x a) h
                  | inr e7 ↦
                      let none_holds : compare_op js re x op (some a) ≡ false =
                        rw (compare_op, e0, e1, e2, e3, e4, e5, e6, e7) refl in
                      absurd (cc (sym h ∙ none_holds))
                ]
              ]
            ]
          ]
        ]
      ]
    ]
  ]
