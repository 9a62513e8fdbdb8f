-- ===== src/Build/Copy/Visits.antt =====
-- The set `visited` of the copy walk of go/build.go, and the bound on its depth.
use jostraca.Common.{
  ◌≡◌, refl, sym, ap, ◌∙◌, ℕ, zero, suc, ◌≤◌, ◌<◌, Bool, true, false, List, [], ◌∷◌, Option, none,
  some, ◌⊎◌, inl, inr, Bytes, bytes_eq, bytes_eq_iff, bytes_eq_refl, if◌then◌else◌, Bool-cases,
  length, arith,
}
use jostraca.Fs.Mem.Listing.{DirEntry}
use jostraca.Build.Copy.{
  CopyEnv, CopyState, CopyError, too_deep, failed, CopyResult, max_copy_depth, is_visited, unmark,
  realpath_of, put_entry, lift_error, mark, unwind, copy_entry, copy_entries, walk_copy_depth,
  walk_copy,
}

unmark-absent : (a : Bytes) (xs : List Bytes) → is_visited a xs ≡ false → unmark a xs ≡ xs
unfolding is_visited unmark
unmark-absent a [] h = refl
unmark-absent a (x ∷ xs) h = elim (Bool-cases (bytes_eq a x)) [
  | inl e ↦ ground (arith, e, h)
  | inr e ↦ rw e (ap (λ ys. x ∷ ys) (unmark-absent a xs (ground (arith, e, h))))
]

unmark-mark : (a : Bytes) (xs : List Bytes) → is_visited a xs ≡ false → unmark a (a ∷ xs) ≡ xs
unfolding unmark
unmark-mark a xs h = rw (bytes_eq_refl a) (unmark-absent a xs h)

-- A step from a state comes to a result with the same visited folders. What is said of the store and
-- of the error is given.
record Walked {S E : Type 0} (Good : S → Type 0) (Fine : Option (CopyError E) → Type 0)
    (s : CopyState S) (r : CopyResult S E) : Type 0 where
  visited : r.1.visited ≡ s.visited
  good : Good r.1.store
  fine : Fine r.0

module _ {S E : Type 0} (env : CopyEnv S E) (Good : S → Type 0)
    (Fine : Option (CopyError E) → Type 0) (fine_none : Fine none)
    (fine_failed : (e : E) → Fine (some (failed e)))
    (put : (name src dst : Bytes) (fs : S) → Good fs → Good (put_entry env name src dst fs).1) where
  fine-lift_error : (r : Option E) → Fine (lift_error r)
  fine-lift_error none = fine_none
  fine-lift_error (some e) = fine_failed e

  if-Walked :
      (s : CopyState S) (c : Bool) (x y : CopyResult S E)
      → Walked Good Fine s x
      → Walked Good Fine s y
      → Walked Good Fine s (if c then x else y)
  if-Walked s true x y h k = h
  if-Walked s false x y h k = k

  module _ (descend : Bytes → Bytes → Bytes → CopyState S → CopyResult S E) (vs : List Bytes)
      (down : (from to rel : Bytes) (s : CopyState S)
        → s.visited ≡ vs
        → Good s.store
        → Walked Good Fine s (descend from to rel s)) where
    copy_entry-Walked :
        (from to rel : Bytes) (e : DirEntry) (s : CopyState S)
        → s.visited ≡ vs
        → Good s.store
        → Walked Good Fine s (copy_entry env descend from to rel e s)
    unfolding copy_entry
    copy_entry-Walked from to rel e s v g =
        if-Walked s _ _ _ (record { visited = refl; good = g; fine = fine_none })
          (if-Walked s _ _ _ (down _ _ _ s v g)
            (record { visited = refl; good = put _ _ _ _ g; fine = fine-lift_error _ }))

    copy_entries-Walked :
        (from to rel : Bytes) (es : List DirEntry) (s : CopyState S)
        → s.visited ≡ vs
        → Good s.store
        → Walked Good Fine s (copy_entries env descend from to rel es s)
    unfolding copy_entries
    copy_entries-Walked from to rel [] s v g = record { visited = refl; good = g; fine = fine_none }
    copy_entries-Walked from to rel (e ∷ es) s v g =
        behind_entry (copy_entry env descend from to rel e s)
          (copy_entry-Walked from to rel e s v g) (copy_entries-Walked from to rel es)
      where
        behind_entry :
            (r : CopyResult S E)
            → Walked Good Fine s r
            → ((s' : CopyState S)
                → s'.visited ≡ vs
                → Good s'.store
                → Walked Good Fine s' (copy_entries env descend from to rel es s'))
            → Walked Good Fine s (elim r.0 [
              | none ↦ copy_entries env descend from to rel es r.1
              | some err ↦ (some err, r.1)
            ])
        behind_entry (none, s') w rest =
            let next = rest s' (w.visited ∙ v) w.good in
            record { visited = next.visited ∙ w.visited; good = next.good; fine = next.fine }
        behind_entry (some err, s') w rest = w

  unwind-Walked :
      (real : Bytes) (s : CopyState S) (r : CopyResult S E)
      → is_visited real s.visited ≡ false
      → Walked Good Fine (mark real s) r
      → Walked Good Fine s (unwind real r)
  unfolding unwind mark
  unwind-Walked real s (err, s') new w = record {
    visited = ap (unmark real) w.visited ∙ unmark-mark real s.visited new;
    good = w.good;
    fine = w.fine;
  }

  -- One folder: the walk one level down is good behind a folder that can be read and is new.
  walk-Walked :
      (left : ℕ) (from to rel : Bytes) (s : CopyState S)
      → Good s.store
      → ((es : List DirEntry)
          → env.read_dir s.store from ≡ inr es
          → is_visited (realpath_of env s.store from) s.visited ≡ false
          → (f t r : Bytes) (s' : CopyState S)
          → s'.visited ≡ realpath_of env s.store from ∷ s.visited
          → Good s'.store
          → Walked Good Fine s' (walk_copy_depth env left f t r s'))
      → Walked Good Fine s (walk_copy_depth env (suc left) from to rel s)
  unfolding walk_copy_depth mark
  walk-Walked left from to rel s g down =
      elim (Bool-cases (is_visited (realpath_of env s.store from) s.visited)) [
        | inl seen ↦
            rw (walk_copy_depth, seen) (record { visited = refl; good = g; fine = fine_none })
        | inr new ↦
            rw (walk_copy_depth, new)
              (unwind-Walked (realpath_of env s.store from) s _ new
                (opened (env.read_dir s.store from) (λ es e. down es e new)))
      ]
    where
      opened :
          (listed : E ⊎ List DirEntry)
          → ((es : List DirEntry)
              → listed ≡ inr es
              → (f t r : Bytes) (s' : CopyState S)
              → s'.visited ≡ realpath_of env s.store from ∷ s.visited
              → Good s'.store
              → Walked Good Fine s' (walk_copy_depth env left f t r s'))
          → Walked Good Fine (mark (realpath_of env s.store from) s) (elim listed [
            | inl e ↦ (some (failed e), mark (realpath_of env s.store from) s)
            | inr es ↦
                copy_entries env
                  (walk_copy_depth env left)
                  from
                  to
                  rel
                  (env.sort es)
                  (mark (realpath_of env s.store from) s)
          ])
      opened (inl e) below = record { visited = refl; good = g; fine = fine_failed e }
      opened (inr es) below =
          copy_entries-Walked (walk_copy_depth env left) (realpath_of env s.store from ∷ s.visited)
            (below es refl) from to rel (env.sort es) (mark (realpath_of env s.store from) s) refl g

-- The walk leaves the set of visited folders as it found it, on every way out, errors included.
pub walk_copy_depth-visited :
    {S E : Type 0} (env : CopyEnv S E) (left : ℕ) (from to rel : Bytes) (s : CopyState S)
    → (walk_copy_depth env left from to rel s).1.visited ≡ s.visited
unfolding walk_copy_depth
walk_copy_depth-visited {S} {E} env left from to rel s = (every left from to rel s).visited
  where
    every :
        (left : ℕ) (from to rel : Bytes) (s : CopyState S)
        → Walked (λ fs. Unit) (λ err. Unit) s (walk_copy_depth env left from to rel s)
    every zero from to rel s = record { visited = refl; good = tt; fine = tt }
    every (suc left) from to rel s =
        walk-Walked env (λ fs. Unit) (λ err. Unit) tt (λ e. tt) (λ n a b fs g. tt) left from to rel
          s tt (λ es e new f t r s' v g. every left f t r s')

-- How many of the folders are not visited.
room : List Bytes → List Bytes → ℕ
room [] vs = 0
room (x ∷ xs) vs = let rest = room xs vs in if is_visited x vs then rest else suc rest

room-length : (xs : List Bytes) → room xs [] ≤ length xs
unfolding room is_visited
room-length [] = ground arith
room-length (x ∷ xs) = omega (arith, room-length xs)

room-mark_le : (a : Bytes) (xs vs : List Bytes) → room xs (a ∷ vs) ≤ room xs vs
unfolding room is_visited
room-mark_le a [] vs = ground arith
room-mark_le a (x ∷ xs) vs =
    let le = room-mark_le a xs vs in
    ground (arith, le, Bool-cases (bytes_eq x a), Bool-cases (is_visited x vs))

room-mark :
    (a : Bytes) (xs vs : List Bytes)
    → is_visited a xs ≡ true
    → is_visited a vs ≡ false
    → room xs (a ∷ vs) < room xs vs
unfolding room is_visited
room-mark a [] vs h new = ground (arith, h)
room-mark a (x ∷ xs) vs h new =
    let le = room-mark_le a xs vs in
    elim (Bool-cases (bytes_eq a x)) [
      | inl e ↦
          let same = (bytes_eq_iff a x).0 e in
          let absent = ap (λ y. is_visited y vs) (sym same) ∙ new in
          rw (room, absent, sym same, bytes_eq_refl a) (omega (arith, le))
      | inr e ↦
          let less = room-mark a xs vs (ground (arith, e, h)) new in
          ground (arith, less, Bool-cases (bytes_eq x a), Bool-cases (is_visited x vs))
    ]

pub is_too_deep : {E : Type 0} → Option (CopyError E) → Bool
is_too_deep (some (too_deep p)) = true
is_too_deep _ = false

-- The walk never fails for its depth where a property holds of the store at the start and is kept
-- by what is done with a file, and where, in every store that has it, the folders that can be
-- read have real paths from one list, which is no longer than the depth that the walk allows.
pub walk_copy-shallow :
    {S E : Type 0} (env : CopyEnv S E) (Good : S → Type 0) (reals : List Bytes)
    → ((name src dst : Bytes) (fs : S) → Good fs → Good (put_entry env name src dst fs).1)
    → ((fs : S) (p : Bytes) (es : List DirEntry)
        → Good fs
        → env.read_dir fs p ≡ inr es
        → is_visited (realpath_of env fs p) reals ≡ true)
    → length reals ≤ max_copy_depth
    → (from to : Bytes) (fs : S) → Good fs
    → is_too_deep (walk_copy env from to fs).0 ≡ false
unfolding walk_copy is_too_deep
walk_copy-shallow {S} {E} env Good reals put known short from to fs g =
    (every (suc max_copy_depth) from to [] _ g (omega (arith, room-length reals, short))).fine
  where
    every :
        (left : ℕ) (from to rel : Bytes) (s : CopyState S)
        → Good s.store
        → room reals s.visited < left
        → Walked Good (λ err. is_too_deep err ≡ false) s (walk_copy_depth env left from to rel s)
    every zero from to rel s g lt = absurd (omega (arith, lt))
    every (suc left) from to rel s g lt =
        walk-Walked env Good (λ err. is_too_deep err ≡ false) refl (λ e. refl) put left from to rel
          s g
          (λ es e new f t r s' v g'. every left f t r s' g' (
            rw v (
              let less =
                room-mark (realpath_of env s.store from) reals s.visited (known s.store from es g e)
                  new in
              omega (arith, less, lt))))
