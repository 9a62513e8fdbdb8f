-- ===== src/Diff/Hunks/Sides.antt =====
-- `Hunks` of go/diff.go: both sides can be read off the hunks, which alternate.
use mathlib.Core.Path.{ap₂, subst, subst₃}
use jostraca.Common.{
  ◌≡◌, ◌≢◌, refl, sym, ap, ◌∙◌, inl, inr, true, false, List, [], ◌∷◌, ◌++◌, append_assoc,
  append-nil, some, arith, Bytes, bytes_eq, bytes_eq_iff, if◌then◌else◌, Bool-cases,
}
use jostraca.Diff.Lcs.{Lines, lcs}
use jostraca.Diff.Lcs.Sub.{Sub, Sub-rest, Sub-inv}
use jostraca.Diff.Lcs.Trim.{lcs-IsLongest}
use jostraca.Diff.Hunks.{same, change, Hunk, span_to, flush, is_same, push_same, hunks_loop, hunks}

-- What a hunk holds of the generated side, of the existing side, and of the shared lines.
abbrev pub generated_lines : List Hunk → Lines
generated_lines [] = []
generated_lines (h ∷ hs) = h.generated ++ generated_lines hs

abbrev pub existing_lines : List Hunk → Lines
existing_lines [] = []
existing_lines (h ∷ hs) = (if is_same h.kind then h.generated else h.existing) ++ existing_lines hs

abbrev pub shared_lines : List Hunk → Lines
shared_lines [] = []
shared_lines (h ∷ hs) = (if is_same h.kind then h.generated else []) ++ shared_lines hs

-- Adjacent hunks are of different kinds.
abbrev pub Alternate : List Hunk → Type 0
Alternate [] = Unit
Alternate (h ∷ []) = Unit
Alternate (h ∷ h' ∷ hs) = (is_same h.kind ≢ is_same h'.kind) × Alternate (h' ∷ hs)

-- The hunks `hs` show `generated` and `existing`, and share the lines `common`.
pub record Shows (hs : List Hunk) (generated existing common : Lines) : Type 0 where
  pub generated_eq : generated_lines hs ≡ generated
  pub existing_eq : existing_lines hs ≡ existing
  pub shared_eq : shared_lines hs ≡ common

generated_lines-append :
    (hs ks : List Hunk) → generated_lines (hs ++ ks) ≡ generated_lines hs ++ generated_lines ks
generated_lines-append [] ks = refl
generated_lines-append (h ∷ hs) ks =
    rw (generated_lines-append hs ks) (sym (append_assoc h.generated _ _))

existing_lines-append :
    (hs ks : List Hunk) → existing_lines (hs ++ ks) ≡ existing_lines hs ++ existing_lines ks
existing_lines-append [] ks = refl
existing_lines-append (h ∷ hs) ks =
    rw (existing_lines-append hs ks) (sym (append_assoc _ (existing_lines hs) (existing_lines ks)))

shared_lines-append :
    (hs ks : List Hunk) → shared_lines (hs ++ ks) ≡ shared_lines hs ++ shared_lines ks
shared_lines-append [] ks = refl
shared_lines-append (h ∷ hs) ks =
    rw (shared_lines-append hs ks)
      (sym (append_assoc (if is_same h.kind then h.generated else []) _ _))

append_change-Shows :
    (g e : Lines) (hs : List Hunk) (generated existing common : Lines)
    → Shows hs generated existing common
    → Shows
        (hs ++ record { kind = change; generated = g; existing = e } ∷ [])
        (generated ++ g)
        (existing ++ e)
        common
append_change-Shows g e hs generated existing common s =
    let h : Hunk = record { kind = change; generated = g; existing = e } in
    record {
      generated_eq =
          generated_lines-append hs (h ∷ []) ∙ ap₂ (λ x y. x ++ y) s.generated_eq (append-nil g);
      existing_eq =
          existing_lines-append hs (h ∷ []) ∙ ap₂ (λ x y. x ++ y) s.existing_eq (append-nil e);
      shared_eq = shared_lines-append hs (h ∷ []) ∙ append-nil (shared_lines hs) ∙ s.shared_eq;
    }

flush-Shows :
    (g e : Lines) (hs : List Hunk) (generated existing common : Lines)
    → Shows hs generated existing common
    → Shows (flush g e hs) (generated ++ g) (existing ++ e) common
unfolding flush
flush-Shows [] [] hs generated existing common s = rw (append-nil generated, append-nil existing) s
flush-Shows g e hs generated existing common s =
    append_change-Shows g e hs generated existing common s

module _ (line : Bytes) where
  generated_lines-push_same :
      (hs : List Hunk) → generated_lines (push_same line hs) ≡ generated_lines hs ++ line ∷ []
  unfolding push_same
  generated_lines-push_same [] = refl
  generated_lines-push_same (h ∷ []) = elim (Bool-cases (is_same h.kind)) [
    | inl e ↦ rw e (simp append-nil)
    | inr e ↦ rw e (simp append-nil)
  ]
  generated_lines-push_same (h ∷ h' ∷ hs) =
      rw (generated_lines-push_same (h' ∷ hs))
        (sym (append_assoc h.generated (generated_lines (h' ∷ hs)) (line ∷ [])))

  existing_lines-push_same :
      (hs : List Hunk) → existing_lines (push_same line hs) ≡ existing_lines hs ++ line ∷ []
  unfolding push_same
  existing_lines-push_same [] = refl
  existing_lines-push_same (h ∷ []) = elim (Bool-cases (is_same h.kind)) [
    | inl e ↦ rw (e, e) (simp append-nil)
    | inr e ↦ rw (e, e) (simp append-nil)
  ]
  existing_lines-push_same (h ∷ h' ∷ hs) =
      rw (existing_lines-push_same (h' ∷ hs))
        (sym (append_assoc _ (existing_lines (h' ∷ hs)) (line ∷ [])))

  shared_lines-push_same :
      (hs : List Hunk) → shared_lines (push_same line hs) ≡ shared_lines hs ++ line ∷ []
  unfolding push_same
  shared_lines-push_same [] = refl
  shared_lines-push_same (h ∷ []) = elim (Bool-cases (is_same h.kind)) [
    | inl e ↦ rw (e, e) (simp append-nil)
    | inr e ↦ rw (e, e) (simp append-nil)
  ]
  shared_lines-push_same (h ∷ h' ∷ hs) =
      rw (shared_lines-push_same (h' ∷ hs))
        (sym (append_assoc _ (shared_lines (h' ∷ hs)) (line ∷ [])))

  push_same-Shows :
      (hs : List Hunk) (generated existing common : Lines)
      → Shows hs generated existing common
      → Shows
          (push_same line hs)
          (generated ++ line ∷ [])
          (existing ++ line ∷ [])
          (common ++ line ∷ [])
  push_same-Shows hs generated existing common s = record {
    generated_eq = generated_lines-push_same hs ∙ ap (λ w. w ++ line ∷ []) s.generated_eq;
    existing_eq = existing_lines-push_same hs ∙ ap (λ w. w ++ line ∷ []) s.existing_eq;
    shared_eq = shared_lines-push_same hs ∙ ap (λ w. w ++ line ∷ []) s.shared_eq;
  }

-- There is no hunk, or the last one is of shared lines.
abbrev EndsSame : List Hunk → Type 0
EndsSame [] = Unit
EndsSame (h ∷ []) = is_same h.kind ≡ true
EndsSame (h ∷ h' ∷ hs) = EndsSame (h' ∷ hs)

append_change-Alternate :
    (k : Hunk) (hs : List Hunk)
    → is_same k.kind ≡ false
    → Alternate hs
    → EndsSame hs
    → Alternate (hs ++ k ∷ [])
append_change-Alternate k [] e a s = tt
append_change-Alternate k (h ∷ []) e a s = (λ p. cc, tt)
append_change-Alternate k (h ∷ h' ∷ hs) e (d, a) s = (d, append_change-Alternate k (h' ∷ hs) e a s)

flush-Alternate :
    (g e : Lines) (hs : List Hunk) → Alternate hs → EndsSame hs → Alternate (flush g e hs)
unfolding flush
flush-Alternate [] [] hs a s = a
flush-Alternate g e hs a s = append_change-Alternate _ hs refl a s

module _ (line : Bytes) where
  push_same_head :
      (h : Hunk) (hs : List Hunk)
      → (k : Hunk) × (ks : List Hunk) × (push_same line (h ∷ hs) ≡ k ∷ ks)
        × (is_same k.kind ≡ is_same h.kind)
  unfolding push_same
  push_same_head h [] = elim (Bool-cases (is_same h.kind)) [
    | inl e ↦ (record h { generated = h.generated ++ line ∷ [] }, [], rw e, refl)
    | inr e ↦ (h, record { kind = same; generated = line ∷ []; existing = [] } ∷ [], rw e, refl)
  ]
  push_same_head h (h' ∷ hs) = (h, push_same line (h' ∷ hs), refl, refl)

  push_same-Alternate :
      (hs : List Hunk) → Alternate hs → Alternate (push_same line hs) × EndsSame (push_same line hs)
  unfolding push_same
  push_same-Alternate [] a = (tt, refl)
  push_same-Alternate (h ∷ []) a = elim (Bool-cases (is_same h.kind)) [
    | inl e ↦ rw e (tt, e)
    | inr e ↦ rw e ((λ p. cc, tt), refl)
  ]
  push_same-Alternate (h ∷ h' ∷ hs) (d, a) =
      let (k, ks, e, f) = push_same_head h' hs in
      let (b, s) = push_same-Alternate (h' ∷ hs) a in
      subst (λ w. Alternate (h ∷ w) × EndsSame (h ∷ w)) (sym e)
        ((λ p. d (p ∙ f), subst Alternate e b), subst EndsSame e s)

span_to-Sub :
    (c : Bytes) (s xs : Lines)
    → Sub (c ∷ s) xs
    → (front : Lines) × (rest : Lines) × (span_to c xs ≡ (front, c ∷ rest))
      × (xs ≡ front ++ c ∷ rest)
      × Sub s rest
unfolding span_to
span_to-Sub c s [] h = elim h [ ]
span_to-Sub c s (x ∷ xs) h = elim (Bool-cases (bytes_eq x c)) [
  | inl e ↦
      let eq : x ≡ c = (bytes_eq_iff x c).0 e in
      ([], xs, rw (e, eq), ap (λ z. z ∷ xs) eq, Sub-rest h)
  | inr e ↦ elim (Sub-inv h) [
    | inl eq ↦ absurd (ground (arith, bytes_eq_iff x c))
    | inr h' ↦
        let (front, rest, p, q, r) = span_to-Sub c s xs h' in
        (x ∷ front, rest, rw (e, p), ap (λ t. x ∷ t) q, r)
  ]
]

hunks_loop-cons :
    (line u v : Bytes) (common generated existing g gs e es : Lines) (out : List Hunk)
    → span_to line generated ≡ (g, u ∷ gs)
    → span_to line existing ≡ (e, v ∷ es)
    → hunks_loop (line ∷ common) generated existing out
      ≡ hunks_loop common gs es (push_same line (flush g e out))
unfolding hunks_loop
hunks_loop-cons line u v common generated existing g gs e es out p q =
    rw (p, q, hunks_loop) (rw (p, q))

-- A shared line behind `front` is moved over.
move_line :
    (read front rest : Lines) (line : Bytes)
    → ((read ++ front) ++ line ∷ []) ++ rest ≡ read ++ (front ++ line ∷ rest)
move_line read front rest line =
    append_assoc (read ++ front) (line ∷ []) rest ∙ append_assoc read front (line ∷ rest)

hunks_loop-Shows :
    (common generated existing read_g read_e done : Lines) (out : List Hunk)
    → Sub common generated
    → Sub common existing
    → Shows out read_g read_e done
    → Alternate out
    → EndsSame out
    → (hs : List Hunk) × (hunks_loop common generated existing out ≡ some hs)
      × Shows hs (read_g ++ generated) (read_e ++ existing) (done ++ common)
      × Alternate hs
hunks_loop-Shows [] generated existing read_g read_e done out h k s a l = (
  flush generated existing out,
  unfold hunks_loop in refl,
  rw (append-nil done) (flush-Shows generated existing out read_g read_e done s),
  flush-Alternate generated existing out a l,
)
hunks_loop-Shows (line ∷ common) generated existing read_g read_e done out h k s a l =
    let (g, gs, p, p', hg) = span_to-Sub line common generated h in
    let (e, es, q, q', he) = span_to-Sub line common existing k in
    let shown =
      push_same-Shows line (flush g e out) _ _ _ (flush-Shows g e out read_g read_e done s) in
    let (alternate, last) =
      push_same-Alternate line (flush g e out) (flush-Alternate g e out a l) in
    let (hs, r, t, b) =
      hunks_loop-Shows common gs es ((read_g ++ g) ++ line ∷ []) ((read_e ++ e) ++ line ∷ [])
        (done ++ line ∷ []) (push_same line (flush g e out)) hg he shown alternate last in
    (
      hs,
      hunks_loop-cons line line line common generated existing g gs e es out p q ∙ r,
      subst₃ (Shows hs) (move_line read_g g gs line ∙ ap (λ w. read_g ++ w) (sym p'))
          (move_line read_e e es line ∙ ap (λ w. read_e ++ w) (sym q'))
          (append_assoc done (line ∷ []) common) t,
      b,
    )

-- `Hunks` does not panic; both sides can be read off its hunks in full, the shared hunks hold a
-- longest common subsequence, and hunks of shared lines and changed regions alternate.
pub hunks-Shows :
    (generated existing : Lines)
    → (hs : List Hunk) × (hunks generated existing ≡ some hs)
      × Shows hs generated existing (lcs generated existing)
      × Alternate hs
unfolding hunks
hunks-Shows generated existing =
    let l = lcs-IsLongest generated existing in
    hunks_loop-Shows (lcs generated existing) generated existing [] [] [] [] l.in_left l.in_right
      (record { generated_eq = refl; existing_eq = refl; shared_eq = refl }) tt tt
