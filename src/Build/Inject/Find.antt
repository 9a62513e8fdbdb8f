-- ===== src/Build/Inject/Find.antt =====
-- The first markers and the first region of a text, for `injectAfter` of go/build.go.
use jostraca.Common.{
  ◌≡◌, refl, sym, ap, ◌∙◌, ℕ, ◌≤◌, inl, inr, true, false, ◌&&◌, [], ◌∷◌, ◌++◌, append_assoc, Option,
  none, some, Bytes, has_prefix, has_prefix-append, ◌==◌, Bool-cases, Option-cases, length,
  length-append, drop, drop-length-append, arith,
}
use mathlib.Core.Path.{subst}
use jostraca.Build.Inject.{find, region}

-- A prefix is decided by as many bytes as it has.
has_prefix-append_any :
    (p a b m : Bytes) → length m ≤ length p → has_prefix (p ++ a) m ≡ has_prefix (p ++ b) m
unfolding has_prefix
has_prefix-append_any [] a b [] h = any_nil a ∙ sym (any_nil b)
  where
    any_nil : (t : Bytes) → has_prefix t [] ≡ true
    any_nil [] = refl
    any_nil (c ∷ t) = refl
has_prefix-append_any [] a b (y ∷ m) h = absurd (omega (arith, h))
has_prefix-append_any (x ∷ p) a b [] h = refl
has_prefix-append_any (x ∷ p) a b (y ∷ m) h =
    ap (λ t. (x == y) && t) (has_prefix-append_any p a b m (omega (arith, h)))

prefix-drop : (m s : Bytes) → has_prefix s m ≡ true → s ≡ m ++ drop (length m) s
unfolding has_prefix
prefix-drop [] s h = refl
prefix-drop (y ∷ m) [] h = absurd (cc)
prefix-drop (y ∷ m) (x ∷ s) h =
    let heads : x ≡ y = ground (arith, h) in let tails = prefix-drop m s (ground (arith, h)) in cc

find-prefix : (m s : Bytes) → has_prefix s m ≡ true → find m s ≡ some ([], drop (length m) s)
unfolding find has_prefix
find-prefix [] [] h = refl
find-prefix (y ∷ m) [] h = absurd (cc)
find-prefix m (c ∷ s) h = rw h

find-append : (m z : Bytes) → find m (m ++ z) ≡ some ([], z)
find-append m z =
    find-prefix m (m ++ z) (has_prefix-append m z) ∙ ap (λ t. some ([], t)) (drop-length-append m z)

-- What `find` has found: the text, and that the first marker stays the first one, whatever stands
-- behind it.
Found : Bytes → Bytes → Bytes → Bytes → Type 0
Found m s front rest =
    (s ≡ front ++ (m ++ rest)) × ((z : Bytes) → find m (front ++ (m ++ z)) ≡ some (front, z))

push-Found :
    (m : Bytes) (c : ℕ) (s front rest : Bytes)
    → has_prefix (c ∷ s) m ≡ false
    → Found m s front rest
    → Found m (c ∷ s) (c ∷ front) rest
unfolding Found find
push-Found m c s front rest new (split, again) = (
  ap (λ t. c ∷ t) split,
  λ z.
      let p = c ∷ (front ++ m) in
      let same : has_prefix (c ∷ (front ++ (m ++ z))) m ≡ false =
        ap (λ t. has_prefix (c ∷ t) m) (sym (append_assoc front m z))
        ∙ has_prefix-append_any p z rest m (omega (arith, length-append front m))
        ∙ ap (λ t. has_prefix (c ∷ t) m) (append_assoc front m rest ∙ sym split)
        ∙ new in
      rw (same, again z),
)

Found-at :
    (m s front rest f r : Bytes)
    → ◌≡◌ {A = Option (Bytes × Bytes)} (some (f, r)) (some (front, rest))
    → Found m s f r
    → Found m s front rest
Found-at m s front rest f r e w =
    let fronts : f ≡ front = cc in
    let rests : r ≡ rest = cc in
    subst (λ t. Found m s t rest) fronts (subst (λ t. Found m s f t) rests w)

find-Found : (m s front rest : Bytes) → find m s ≡ some (front, rest) → Found m s front rest
unfolding find
find-Found [] [] front rest h =
    Found-at [] [] front rest [] [] h (unfold Found in (refl, find-append []))
find-Found (y ∷ m) [] front rest h = absurd (cc)
find-Found m (c ∷ s) front rest h = elim (Bool-cases (has_prefix (c ∷ s) m)) [
  | inl e ↦
      Found-at m (c ∷ s) front rest [] (drop (length m) (c ∷ s)) (rw e at h)
        (unfold Found in (prefix-drop m (c ∷ s) e, find-append m))
  | inr e ↦ elim (Option-cases (find m s)) [
    | inl n ↦ absurd (cc (rw (e, n) at h))
    | inr ((f, r), n) ↦
        Found-at m (c ∷ s) front rest (c ∷ f) r (rw (e, n) at h)
          (push-Found m c s f r e (find-Found m s f r n))
  ]
]

pub region-none : (start end s : Bytes) → find start s ≡ none → region start end s ≡ none
unfolding region
region-none start end s n = rw (region, n) refl

pub region_open :
    (start end s front r : Bytes)
    → find start s ≡ some (front, r)
    → find end r ≡ none
    → region start end s ≡ none
unfolding region
region_open start end s front r n k = rw (region, n, k) refl

pub region-some :
    (start end s front r mid rest : Bytes)
    → find start s ≡ some (front, r)
    → find end r ≡ some (mid, rest)
    → region start end s ≡ some (front, mid, rest)
unfolding region
region-some start end s front r mid rest n k = rw (region, n, k) refl

-- A region that is found: how the text is made up, and the region that stands there with another
-- text between the markers, if that text is found whole.
pub record Cut (start end s front mid rest : Bytes) : Type 0 where
  pub split : s ≡ front ++ (start ++ (mid ++ (end ++ rest)))
  pub other :
      (b t : Bytes)
      → find end (b ++ (end ++ t)) ≡ some (b, t)
      → region start end (front ++ (start ++ (b ++ (end ++ t)))) ≡ some (front, b, t)

pub region-Cut :
    (start end s front mid rest : Bytes)
    → region start end s ≡ some (front, mid, rest)
    → Cut start end s front mid rest
unfolding region Found
region-Cut start end s front mid rest h = elim (Option-cases (find start s)) [
  | inl n ↦ absurd (cc (region-none start end s n))
  | inr ((f, r), n) ↦ elim (Option-cases (find end r)) [
    | inl k ↦ absurd (cc (region_open start end s f r n k))
    | inr ((m, q), k) ↦ by_parts f r m q (sym (region-some start end s f r m q n k) ∙ h) n k
  ]
]
  where
    by_parts :
        (f r m q : Bytes)
        → ◌≡◌ {A = Option (Bytes × Bytes × Bytes)} (some (f, m, q)) (some (front, mid, rest))
        → find start s ≡ some (f, r)
        → find end r ≡ some (m, q)
        → Cut start end s front mid rest
    by_parts f r m q e n k =
        let fronts : f ≡ front = cc in
        let mids : m ≡ mid = cc in
        let rests : q ≡ rest = cc in
        let (outer, again) = find-Found start s f r n in
        let (inner, _) = find-Found end r m q k in
        record {
          split =
              outer
              ∙ (λ i. fronts i ++ (start ++ inner i))
              ∙ (λ i. front ++ (start ++ (mids i ++ (end ++ rests i))));
          other = λ b t h. rw (← fronts) (rw (region, again (b ++ (end ++ t)), h) refl);
        }
