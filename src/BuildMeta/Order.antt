-- ===== src/BuildMeta/Order.antt =====
-- `add` of go/buildmeta.go is an assignment to a key of an object in JavaScript.
use jostraca.Common.{
  ℕ, zero, suc, ◌≡◌, ◌≢◌, refl, sym, ap, ◌∙◌, ◌⊎◌, inl, inr, List, [], ◌∷◌, ◌++◌, none, some, arith,
  Bytes, bytes_eq, bytes_eq_iff, bytes_eq_refl, if◌then◌else◌, Bool-cases, Option-cases, length,
  get_elem?, lookup, insert,
}
use jostraca.Fs.Mem.Marks.{bytes_eq-ne}
use jostraca.Fs.Mem.Laws.{lookup-insert-if}
use jostraca.BuildMeta.{MetaEntry, MetaSnapshot, new_snapshot, set_entry, add, add_all}

-- The reference: a key that is there keeps its place and takes the new value, and a new one comes
-- last.
unfoldable pub assign : MetaEntry → List MetaEntry → List MetaEntry
unfolding bytes_eq
assign e [] = e ∷ []
assign e (f ∷ files) =
    let rest = assign e files in if bytes_eq f.path e.path then e ∷ files else f ∷ rest

unfoldable pub assign_all : List MetaEntry → List MetaEntry → List MetaEntry
unfolding assign
assign_all [] files = files
assign_all (e ∷ es) files = assign_all es (assign e files)

-- The map has the place of each path that is listed, and no other.
record Indexed (s : MetaSnapshot) : Type 0 where
  listed : (i : ℕ) (f : MetaEntry) → get_elem? s.files i ≡ some f → lookup f.path s.by_path ≡ some i
  known :
      (p : Bytes) (i : ℕ)
      → lookup p s.by_path ≡ some i
      → (f : MetaEntry) × (get_elem? s.files i ≡ some f) × (f.path ≡ p)

get_elem?-set_entry :
    (files : List MetaEntry) (i j : ℕ) (e f : MetaEntry)
    → get_elem? (set_entry i e files) j ≡ some f
    → ((i ≡ j) × (f ≡ e)) ⊎ (get_elem? files j ≡ some f)
unfolding set_entry
get_elem?-set_entry [] i j e f h = inr h
get_elem?-set_entry (g ∷ files) zero zero e f h = inl (refl, (cc))
get_elem?-set_entry (g ∷ files) zero (suc j) e f h = inr h
get_elem?-set_entry (g ∷ files) (suc i) zero e f h = inr h
get_elem?-set_entry (g ∷ files) (suc i) (suc j) e f h = elim (get_elem?-set_entry files i j e f h) [
  | inl (p, q) ↦ inl (ap suc p, q)
  | inr r ↦ inr r
]

get_elem?-append :
    (files : List MetaEntry) (e f : MetaEntry) (j : ℕ)
    → get_elem? (files ++ e ∷ []) j ≡ some f
    → ((j ≡ length files) × (f ≡ e)) ⊎ (get_elem? files j ≡ some f)
get_elem?-append [] e f zero h = inl (refl, (cc))
get_elem?-append [] e f (suc j) h = absurd (cc)
get_elem?-append (g ∷ files) e f zero h = inr h
get_elem?-append (g ∷ files) e f (suc j) h = elim (get_elem?-append files e f j h) [
  | inl (p, q) ↦ inl (ap suc p, q)
  | inr r ↦ inr r
]

get_elem?-set_keeps :
    (files : List MetaEntry) (i j : ℕ) (e f : MetaEntry)
    → get_elem? files j ≡ some f
    → ((i ≡ j) × (get_elem? (set_entry i e files) j ≡ some e))
      ⊎ (get_elem? (set_entry i e files) j ≡ some f)
unfolding set_entry
get_elem?-set_keeps [] i j e f h = inr h
get_elem?-set_keeps (g ∷ files) zero zero e f h = inl (refl, refl)
get_elem?-set_keeps (g ∷ files) zero (suc j) e f h = inr h
get_elem?-set_keeps (g ∷ files) (suc i) zero e f h = inr h
get_elem?-set_keeps (g ∷ files) (suc i) (suc j) e f h = elim (get_elem?-set_keeps files i j e f h) [
  | inl (p, q) ↦ inl (ap suc p, q)
  | inr r ↦ inr r
]

get_elem?-append_last :
    (files : List MetaEntry) (e : MetaEntry) → get_elem? (files ++ e ∷ []) (length files) ≡ some e
get_elem?-append_last [] e = refl
get_elem?-append_last (g ∷ files) e = get_elem?-append_last files e

get_elem?-append_front :
    (files : List MetaEntry) (e f : MetaEntry) (j : ℕ)
    → get_elem? files j ≡ some f
    → get_elem? (files ++ e ∷ []) j ≡ some f
get_elem?-append_front [] e f j h = absurd (cc)
get_elem?-append_front (g ∷ files) e f zero h = h
get_elem?-append_front (g ∷ files) e f (suc j) h = get_elem?-append_front files e f j h

-- The entry with the path is assigned, where no entry in front of it has the same.
set_entry-assign :
    (files : List MetaEntry) (i : ℕ) (e f : MetaEntry)
    → get_elem? files i ≡ some f
    → f.path ≡ e.path
    → ((j : ℕ) (g : MetaEntry) → get_elem? files j ≡ some g → g.path ≡ e.path → j ≡ i)
    → set_entry i e files ≡ assign e files
unfolding set_entry assign
set_entry-assign [] i e f h p only = absurd (cc)
set_entry-assign (g ∷ files) zero e f h p only =
    let same : g ≡ f = cc in
    let key : g.path ≡ e.path = ap (λ x. x.path) same ∙ p in rw ((bytes_eq_iff g.path e.path).1 key)
set_entry-assign (g ∷ files) (suc i) e f h p only =
    let ne : g.path ≢ e.path =
      λ q. (let none_in_front = only zero g refl q in absurd (omega (arith, none_in_front))) in
    rw (bytes_eq-ne g.path e.path ne) (
      ap (λ t. g ∷ t)
        (set_entry-assign files i e f h p
          (λ j k there q. (let below = only (suc j) k there q in omega (arith, below)))))

append-assign :
    (files : List MetaEntry) (e : MetaEntry)
    → ((j : ℕ) (g : MetaEntry) → get_elem? files j ≡ some g → g.path ≢ e.path)
    → files ++ e ∷ [] ≡ assign e files
unfolding assign
append-assign [] e h = refl
append-assign (g ∷ files) e h =
    rw (bytes_eq-ne g.path e.path (h zero g refl))
      (ap (λ t. g ∷ t) (append-assign files e (λ j. h (suc j))))

module _ (e : MetaEntry) (s : MetaSnapshot) (indexed : Indexed s) where
  add-known :
      (i : ℕ)
      → lookup e.path s.by_path ≡ some i
      → Indexed (add e s) × ((add e s).files ≡ assign e s.files)
  unfolding add
  add-known i found =
      let (f, here, key) = indexed.known e.path i found in
      let result : MetaSnapshot = record s { files = set_entry i e s.files } in
      let listed : (j : ℕ) (g : MetaEntry)
          → get_elem? result.files j ≡ some g
          → lookup g.path result.by_path ≡ some j =
        λ j g there. elim (get_elem?-set_entry s.files i j e g there) [
          | inl (p, q) ↦ rw (q, sym p) found
          | inr old ↦ indexed.listed j g old
        ] in
      let known : (p : Bytes) (j : ℕ)
          → lookup p result.by_path ≡ some j
          → (g : MetaEntry) × (get_elem? result.files j ≡ some g) × (g.path ≡ p) =
        λ p j l.
          (let (g, there, own) = indexed.known p j l in
            elim (get_elem?-set_keeps s.files i j e g there) [
              | inl (q, new) ↦
                  let same : some f ≡ some g = sym here ∙ ap (get_elem? s.files) q ∙ there in
                  let same' : f ≡ g = cc in (e, new, sym key ∙ ap (λ x. x.path) same' ∙ own)
              | inr old ↦ (g, old, own)
            ]) in
      let only : (j : ℕ) (g : MetaEntry) → get_elem? s.files j ≡ some g → g.path ≡ e.path → j ≡ i =
        λ j g there q.
          (let two : some j ≡ some i =
              sym (indexed.listed j g there) ∙ ap (λ p. lookup p s.by_path) q ∙ found in
            cc) in
      rw (found, add)
        (record { listed = listed; known = known }, set_entry-assign s.files i e f here key only)

  add-new :
      lookup e.path s.by_path ≡ none → Indexed (add e s) × ((add e s).files ≡ assign e s.files)
  unfolding add
  add-new absent =
      let n = length s.files in
      let result : MetaSnapshot = record {
        files = s.files ++ e ∷ [];
        by_path = insert e.path n s.by_path;
      } in
      let other : (p : Bytes) (j : ℕ) → lookup p s.by_path ≡ some j → e.path ≢ p = λ p j l q.
        (let clash : none ≡ some j = sym absent ∙ ap (λ z. lookup z s.by_path) q ∙ l in
          absurd (cc)) in
      let listed : (j : ℕ) (g : MetaEntry)
          → get_elem? result.files j ≡ some g
          → lookup g.path result.by_path ≡ some j =
        λ j g there. elim (get_elem?-append s.files e g j there) [
          | inl (p, q) ↦
              ap (λ x. lookup x.path result.by_path) q
              ∙ lookup-insert-if e.path e.path n s.by_path
              ∙ rw (bytes_eq_refl e.path) (ap some (sym p))
          | inr old ↦
              let l = indexed.listed j g old in
              lookup-insert-if e.path g.path n s.by_path
              ∙ rw (bytes_eq-ne e.path g.path (other g.path j l)) l
        ] in
      let known : (p : Bytes) (j : ℕ)
          → lookup p result.by_path ≡ some j
          → (g : MetaEntry) × (get_elem? result.files j ≡ some g) × (g.path ≡ p) =
        λ p j l.
          (let split = sym (lookup-insert-if e.path p n s.by_path) ∙ l in
            elim (Bool-cases (bytes_eq e.path p)) [
              | inl same ↦
                  let last : some n ≡ some j = rw same at split in
                  let at_n : n ≡ j = cc in
                  (
                    e,
                    ap (get_elem? result.files) (sym at_n) ∙ get_elem?-append_last s.files e,
                    (bytes_eq_iff e.path p).0 same,
                  )
              | inr differs ↦
                  let (g, there, own) = indexed.known p j (rw differs at split) in
                  (g, get_elem?-append_front s.files e g j there, own)
            ]) in
      let fresh : (j : ℕ) (g : MetaEntry) → get_elem? s.files j ≡ some g → g.path ≢ e.path =
        λ j g there q. other g.path j (indexed.listed j g there) (sym q) in
      rw (absent, add) (record { listed = listed; known = known }, append-assign s.files e fresh)

  add-Indexed : Indexed (add e s) × ((add e s).files ≡ assign e s.files)
  add-Indexed = elim (Option-cases (lookup e.path s.by_path)) [
    | inl absent ↦ add-new absent
    | inr (i, found) ↦ add-known i found
  ]

add_all-Indexed :
    (es : List MetaEntry) (s : MetaSnapshot)
    → Indexed s
    → Indexed (add_all es s) × ((add_all es s).files ≡ assign_all es s.files)
unfolding add_all assign_all
add_all-Indexed [] s h = (h, refl)
add_all-Indexed (e ∷ es) s h =
    let (next, step) = add-Indexed e s h in
    let (final, rest) = add_all-Indexed es (add e s) next in (final, rest ∙ ap (assign_all es) step)

-- The entries that a build records come out as the assignments to the keys of one object do: a path
-- keeps the place of its first entry and has the values of its last.
pub add_all-assign_all : (es : List MetaEntry) → (add_all es new_snapshot).files ≡ assign_all es []
unfolding lookup
add_all-assign_all es =
    (add_all-Indexed es new_snapshot
      (record { listed = λ i f h. absurd (cc); known = λ p i h. absurd (cc) })).1
