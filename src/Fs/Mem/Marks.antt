-- ===== src/Fs/Mem/Marks.antt =====
-- `markDirsLocked` of go/fs.go: it keeps what is marked, marks the whole path, and leaves no marked
-- directory without its parent.
use jostraca.Common.{
  ℕ, ◌≤◌, ◌≡◌, ◌≢◌, refl, sym, ap, ◌∙◌, ◌⊎◌, inl, inr, Bool, true, false, List, [], ◌∷◌, ◌++◌,
  append_assoc, append-nil, arith, Bytes, bytes_eq, bytes_eq_iff, ◌==◌, ltb, has_prefix,
  if◌then◌else◌, Bool-cases, Option-cases, length, All, Map, insert, lookup-insert,
  lookup-insert-ne,
}
use mathlib.Core.Path.{subst, ap₂}
use jostraca.Fs.Path.{slash, root, split, push, last_slash, mem_parent}
use jostraca.Fs.Path.Parent.{
  NoSlash, NoDouble, mem_parent-NoSlash, mem_parent-append, mem_parent-some, mem_parent-none,
}
use jostraca.Fs.Mem.{has_dir, trim_left, mark_rest, mark_parts, mark_dirs_locked, mark_parents}

abbrev pub Marked : Bytes → Map Bool → Type 0
Marked k ds = has_dir k ds ≡ true

-- The parent of a path, where it has one, is marked.
abbrev pub ParentMarked : Bytes → Map Bool → Type 0
ParentMarked k ds = (mem_parent k ≡ []) ⊎ Marked (mem_parent k) ds

abbrev pub Closed : Map Bool → Type 0
Closed ds = (k : Bytes) → Marked k ds → ParentMarked k ds

abbrev pub Within : Map Bool → Map Bool → Type 0
Within ds es = (k : Bytes) → Marked k ds → Marked k es

pub ParentMarked-Within :
    (k : Bytes) (ds es : Map Bool) → Within ds es → ParentMarked k ds → ParentMarked k es
ParentMarked-Within k ds es w (inl e) = inl e
ParentMarked-Within k ds es w (inr h) = inr (w (mem_parent k) h)

insert-Marked : (k : Bytes) (ds : Map Bool) → Marked k (insert k true ds)
unfolding has_dir
insert-Marked k ds = rw (lookup-insert k true ds, has_dir)

insert-ne : (j k : Bytes) (ds : Map Bool) → j ≢ k → has_dir j (insert k true ds) ≡ has_dir j ds
unfolding has_dir
insert-ne j k ds h = rw (lookup-insert-ne j k true ds h, has_dir)

pub Bytes-cases : (j k : Bytes) → (j ≡ k) ⊎ (j ≢ k)
Bytes-cases j k = elim (Bool-cases (bytes_eq j k)) [
  | inl e ↦ inl ((bytes_eq_iff j k).0 e)
  | inr e ↦ inr (λ h. ground (arith, (bytes_eq_iff j k).1 h))
]

insert-Within : (k : Bytes) (ds : Map Bool) → Within ds (insert k true ds)
insert-Within k ds j h = elim (Bytes-cases j k) [
  | inl e ↦ subst (λ t. Marked t (insert k true ds)) (sym e) (insert-Marked k ds)
  | inr e ↦ insert-ne j k ds e ∙ h
]

-- A directory is added below a marked one, or with no parent.
insert-Closed :
    (k : Bytes) (ds : Map Bool) → Closed ds → ParentMarked k ds → Closed (insert k true ds)
insert-Closed k ds c h j m = elim (Bytes-cases j k) [
  | inl e ↦
      subst (λ t. ParentMarked t (insert k true ds)) (sym e)
        (ParentMarked-Within _ _ _ (insert-Within k ds) h)
  | inr e ↦ ParentMarked-Within _ _ _ (insert-Within k ds) (c j (sym (insert-ne j k ds e) ∙ m))
]

-- The path that the rounds behind the first end with.
extend : Bytes → List Bytes → Bytes
extend cur [] = cur
extend cur (part ∷ parts) = extend (cur ++ slash ∷ part) parts

extend_first : Bytes → List Bytes → Bytes
unfolding extend
extend_first cur [] = cur
extend_first cur (part ∷ parts) = extend (cur ++ part) parts

extend_first-push :
    (cur : Bytes) (c : ℕ) (parts : List Bytes)
    → extend_first cur (push c parts) ≡ extend_first (cur ++ c ∷ []) parts
unfolding extend_first extend
extend_first-push cur c [] = refl
extend_first-push cur c (part ∷ parts) =
    ap (λ t. extend t parts) (sym (append_assoc cur (c ∷ []) part))

-- A split has a first part.
split-cases : (s : Bytes) → (part : Bytes) × (parts : List Bytes) × (split s ≡ part ∷ parts)
unfolding split
split-cases [] = ([], [], refl)
split-cases (c ∷ s) = elim (Bool-cases (c == slash)) [
  | inl e ↦ ([], split s, rw e)
  | inr e ↦ let (part, parts, p) = split-cases s in (c ∷ part, parts, rw (e, p))
]

extend_first-split : (cur s : Bytes) → extend_first cur (split s) ≡ cur ++ s
unfolding split extend_first extend
extend_first-split cur [] = refl
extend_first-split cur (c ∷ s) = elim (Bool-cases (c == slash)) [
  | inl e ↦
      let (part, parts, p) = split-cases s in
      let is_slash : c ≡ slash = ground arith in
      let here : extend_first (cur ++ slash ∷ []) (split s) ≡ (cur ++ slash ∷ []) ++ s =
        extend_first-split (cur ++ slash ∷ []) s in
      let step : extend (cur ++ []) (split s) ≡ extend_first (cur ++ slash ∷ []) (split s) =
        ap (λ t. extend t (split s)) (append-nil cur)
        ∙ ap (extend cur) p
        ∙ ap (λ t. extend t parts) (sym (append_assoc cur (slash ∷ []) part))
        ∙ ap (extend_first (cur ++ slash ∷ [])) (sym p) in
      rw e (step ∙ here ∙ append_assoc cur (slash ∷ []) s ∙ ap (λ t. cur ++ t ∷ s) (sym is_slash))
  | inr e ↦ rw e (
      extend_first-push cur c (split s)
      ∙ extend_first-split (cur ++ c ∷ []) s
      ∙ append_assoc cur (c ∷ []) s)
]

-- What marking gives: nothing is lost, the path is marked, and all parents are.
pub record Marking (k : Bytes) (ds es : Map Bool) : Type 0 where
  pub within : Within ds es
  pub marked : Marked k es
  pub closed : Closed ds → Closed es

mark_rest-Marking :
    (cur : Bytes) (parts : List Bytes) (ds : Map Bool)
    → All NoSlash parts
    → Marked cur ds
    → Marking (extend cur parts) ds (mark_rest cur parts ds)
unfolding mark_rest extend
mark_rest-Marking cur [] ds h m = record { within = λ k n. n; marked = m; closed = λ c. c }
mark_rest-Marking cur (part ∷ parts) ds (h, hs) m =
    let next : Bytes = cur ++ slash ∷ part in
    let parent : ParentMarked next ds =
      inr (subst (λ t. Marked t ds) (sym (mem_parent-append cur part h)) m) in
    let rest = mark_rest-Marking next parts (insert next true ds) hs (insert-Marked next ds) in
    record {
      within = λ k n. rest.within k (insert-Within next ds k n);
      marked = rest.marked;
      closed = λ c. rest.closed (insert-Closed next ds c parent);
    }

push-NoSlash :
    (c : ℕ) (parts : List Bytes) → c ≢ slash → All NoSlash parts → All NoSlash (push c parts)
push-NoSlash c [] h hs = ((h, tt), tt)
push-NoSlash c (part ∷ parts) h (p, ps) = ((h, p), ps)

split-NoSlash : (s : Bytes) → All NoSlash (split s)
unfolding split
split-NoSlash [] = (tt, tt)
split-NoSlash (c ∷ s) = elim (Bool-cases (c == slash)) [
  | inl e ↦ rw e (tt, split-NoSlash s)
  | inr e ↦ rw e (push-NoSlash c (split s) (ground arith) (split-NoSlash s))
]

-- The slash of an absolute path.
lead : Bool → Bytes
lead true = slash ∷ []
lead false = []

mark_parts-Marking :
    (abs : Bool) (s : Bytes) (ds : Map Bool)
    → Marking (lead abs ++ s) ds (mark_parts abs (split s) ds)
unfolding mark_parts lead extend_first extend
mark_parts-Marking abs s ds =
    let (part, parts, p) = split-cases s in
    let (h, hs) = subst (All NoSlash) p (split-NoSlash s) in
    let whole : extend (lead abs ++ part) parts ≡ lead abs ++ s =
      ap (extend_first (lead abs)) (sym p) ∙ extend_first-split (lead abs) s in
    let cur : Bytes = if abs then slash ∷ part else part in
    let parent : ParentMarked cur ds = inl (elim (Bool-cases abs) [
      | inl e ↦ rw e (mem_parent-append [] part h)
      | inr e ↦ rw e (mem_parent-NoSlash part h)
    ]) in
    let cur_eq : cur ≡ lead abs ++ part = elim (Bool-cases abs) [ inl e ↦ rw e | inr e ↦ rw e ] in
    let rest = mark_rest-Marking cur parts (insert cur true ds) hs (insert-Marked cur ds) in
    rw p (record {
      within = λ k n. rest.within k (insert-Within cur ds k n);
      marked =
          subst (λ t. Marked t (mark_rest cur parts (insert cur true ds)))
            (ap (λ t. extend t parts) cur_eq ∙ whole) rest.marked;
      closed = λ c. rest.closed (insert-Closed cur ds c parent);
    })

trim_left-lead : (p : Bytes) → NoDouble p → p ≡ lead (has_prefix p root) ++ trim_left p
unfolding trim_left lead has_prefix
trim_left-lead [] h = refl
trim_left-lead (c ∷ []) h = elim (Bool-cases (c == slash)) [
  | inl e ↦ rw e (ap (λ z. z ∷ []) (ground arith))
  | inr e ↦ rw e
]
trim_left-lead (c ∷ d ∷ p) h = elim (Bool-cases (c == slash)) [
  | inl e ↦
      let is_slash : c ≡ slash = ground arith in
      elim (Bool-cases (d == slash)) [
        | inl f ↦
            let is_slash' : d ≡ slash = ground arith in
            absurd (h p (ap₂ (λ x y. x ∷ y ∷ p) is_slash is_slash'))
        | inr f ↦ rw e (rw f (ap (λ z. z ∷ d ∷ p) is_slash))
      ]
  | inr e ↦ rw e
]

pub bytes_eq-ne : (s t : Bytes) → s ≢ t → bytes_eq s t ≡ false
bytes_eq-ne s t h = ground (arith, bytes_eq_iff s t, h)

lead-cases : (b : Bool) → (lead b ≡ []) ⊎ (lead b ≡ root)
unfolding lead
lead-cases true = inr refl
lead-cases false = inl refl

pub mark_dirs_locked-Marking :
    (p : Bytes) (ds : Map Bool)
    → p ≢ []
    → p ≢ root
    → NoDouble p
    → Marking p ds (mark_dirs_locked p ds)
unfolding mark_dirs_locked
mark_dirs_locked-Marking p ds nonempty nonroot h =
    let whole = trim_left-lead p h in
    let rest : trim_left p ≢ [] = λ e.
      let bare : p ≡ lead (has_prefix p root) =
        whole ∙ ap (λ t. lead (has_prefix p root) ++ t) e ∙ append-nil _ in
      elim (lead-cases (has_prefix p root)) [
        | inl f ↦ nonempty (bare ∙ f)
        | inr f ↦ nonroot (bare ∙ f)
      ] in
    rw (bytes_eq-ne p [] nonempty, bytes_eq-ne p root nonroot, bytes_eq-ne (trim_left p) [] rest)
      (subst (λ q. Marking q ds (mark_parts (has_prefix p root) (split (trim_left p)) ds))
        (sym whole) (mark_parts-Marking (has_prefix p root) (trim_left p) ds))

front-NoDouble : (p front rest : Bytes) → p ≡ front ++ slash ∷ rest → NoDouble p → NoDouble front
front-NoDouble p front rest e h s f = h (s ++ slash ∷ rest) (e ∙ ap (λ t. t ++ slash ∷ rest) f)

-- What a call with the parent of a key gives.
pub record ParentMarking (cp : Bytes) (ds es : Map Bool) : Type 0 where
  pub within : Within ds es
  pub parent : ParentMarked cp es
  pub closed : Closed ds → Closed es

nil_of_length : (s : Bytes) → length s ≤ 0 → s ≡ []
nil_of_length [] h = refl
nil_of_length (x ∷ s) h = absurd (omega arith)

unmarked : (cp : Bytes) (ds : Map Bool) → mem_parent cp ≡ [] → ParentMarking cp ds ds
unmarked cp ds e = record { within = λ k n. n; parent = inl e; closed = λ c. c }

pub mark_parents-Marking :
    (cp : Bytes) (ds : Map Bool) → NoDouble cp → ParentMarking cp ds (mark_parents cp ds)
unfolding mark_parents
mark_parents-Marking cp ds h = elim (Option-cases (last_slash cp)) [
  | inl absent ↦ rw (absent, mark_parents) (unmarked cp ds (mem_parent-none cp absent))
  | inr (i, found) ↦
      let (rest, p, n, e) = mem_parent-some cp i found in
      elim (Bool-cases (ltb 0 i)) [
        | inl inside ↦
            let nonempty : mem_parent cp ≢ [] = λ f. absurd (ground (arith, ap length f)) in
            let nonroot : mem_parent cp ≢ root = λ f. h rest (p ∙ ap (λ t. t ++ slash ∷ rest) f) in
            let m =
              mark_dirs_locked-Marking (mem_parent cp) ds nonempty nonroot
                (front-NoDouble cp (mem_parent cp) rest p h) in
            rw (found, inside, mark_parents)
              (rw (← e) (record { within = m.within; parent = inr m.marked; closed = m.closed }))
        | inr outside ↦
            let empty : mem_parent cp ≡ [] = nil_of_length (mem_parent cp) (ground arith) in
            rw (found, outside, mark_parents) (unmarked cp ds empty)
      ]
]
