-- ===== src/Build/Names/Within.antt =====
-- `withinFolder` of go/filehandler.go holds of the paths that go/build.go composes.
use jostraca.Common.{
  ◌≡◌, ◌≢◌, refl, sym, ap, ◌∙◌, inl, inr, Bool, true, false, ◌||◌, List, [], ◌∷◌, ◌++◌,
  append_assoc, append-nil, arith, Bytes, codes, bytes_eq, bytes_eq_iff, has_prefix,
  has_prefix-append, All,
}
use jostraca.Fs.Path.{slash, root, join_parts}
use jostraca.Fs.Path.Canonical.{IsProper}
use jostraca.Fs.Mem.Marks.{bytes_eq-ne}
use jostraca.Build.Names.{valid_name, file_path, within_folder}
use jostraca.Build.Names.Contained.{Cleans, IsAt, file_path-IsAt}

join_parts-append :
    (q r : Bytes) (qs rs : List Bytes)
    → join_parts ((q ∷ qs) ++ r ∷ rs) ≡ join_parts (q ∷ qs) ++ slash ∷ join_parts (r ∷ rs)
unfolding join_parts
join_parts-append q r [] rs = refl
join_parts-append q r (q' ∷ qs) rs =
    ap (λ t. q ++ slash ∷ t) (join_parts-append q' r qs rs)
    ∙ sym (append_assoc q (slash ∷ join_parts (q' ∷ qs)) (slash ∷ join_parts (r ∷ rs)))

join_parts-ne-nil : (q : Bytes) (qs : List Bytes) → IsProper q → join_parts (q ∷ qs) ≢ []
unfolding join_parts
join_parts-ne-nil [] qs (a, b, c, d) e = a refl
join_parts-ne-nil (x ∷ q) [] h e = cc e
join_parts-ne-nil (x ∷ q) (q' ∷ qs) h e = cc e

-- A path that is the folder, or has the folder and a slash as a prefix.
inside : (folder p : Bytes) → Bool
inside folder p = bytes_eq p folder || has_prefix p (folder ++ slash ∷ [])

inside-folder : (folder p : Bytes) → p ≡ folder → inside folder p ≡ true
unfolding inside
inside-folder folder p e = ground (arith, (bytes_eq_iff p folder).1 e)

inside-slash : (folder p rest : Bytes) → p ≡ folder ++ slash ∷ rest → inside folder p ≡ true
unfolding inside
inside-slash folder p rest e =
    let prefix : has_prefix p (folder ++ slash ∷ []) ≡ true =
      ap (λ t. has_prefix t (folder ++ slash ∷ []))
        (e ∙ sym (append_assoc folder (slash ∷ []) rest))
      ∙ has_prefix-append (folder ++ slash ∷ []) rest in
    ground arith

IsAt-inside :
    (q : Bytes) (qs : List Bytes) (p : Bytes) (more : List Bytes)
    → IsAt (q ∷ qs) more p
    → inside (slash ∷ join_parts (q ∷ qs)) p ≡ true
IsAt-inside q qs p [] (inl e) =
    inside-folder _ p (e ∙ ap (λ t. slash ∷ join_parts t) (append-nil (q ∷ qs)))
IsAt-inside q qs p [] (inr e) =
    inside-slash _ p [] (e ∙ ap (λ t. (slash ∷ join_parts t) ++ slash ∷ []) (append-nil (q ∷ qs)))
IsAt-inside q qs p (r ∷ rs) (inl e) =
    inside-slash _ p (join_parts (r ∷ rs)) (e ∙ ap (λ t. slash ∷ t) (join_parts-append q r qs rs))
IsAt-inside q qs p (r ∷ rs) (inr e) = inside-slash _ p (join_parts (r ∷ rs) ++ slash ∷ []) (
    e
    ∙ ap (λ t. (slash ∷ t) ++ slash ∷ []) (join_parts-append q r qs rs)
    ∙ append_assoc (slash ∷ join_parts (q ∷ qs)) (slash ∷ join_parts (r ∷ rs)) (slash ∷ []))

within_folder-other :
    (clean : Bytes → Bytes) (windows : Bool) (folder p : Bytes)
    → bytes_eq folder (codes ".") ≡ false
    → bytes_eq folder root ≡ false
    → within_folder clean windows folder p ≡ inside folder p
unfolding within_folder inside
within_folder-other clean windows folder p a b = rw (a, b)

-- Where the output folder is absolute, clean and not the root, and the project takes it as its own
-- folder, every path that is composed of names that pass the test is within it.
pub within_folder-file_path :
    (clean : Bytes → Bytes) (cleans : Cleans clean) (windows : Bool) (q : Bytes)
    (qs path : List Bytes) (name : Bytes)
    → All IsProper (q ∷ qs)
    → All (λ n. valid_name n ≡ true) path
    → valid_name name ≡ true
    → within_folder clean windows
        (slash ∷ join_parts (q ∷ qs))
        (file_path clean (slash ∷ join_parts (q ∷ qs)) path name)
      ≡ true
within_folder-file_path clean cleans windows q qs path name (h, hs) valid_path valid =
    let folder : Bytes = slash ∷ join_parts (q ∷ qs) in
    let not_root : bytes_eq folder root ≡ false =
      bytes_eq-ne folder root (λ e. join_parts-ne-nil q qs h (cc e)) in
    within_folder-other clean windows folder _ (unfold bytes_eq in refl) not_root
    ∙ IsAt-inside q qs _ _ (file_path-IsAt clean cleans (q ∷ qs) path name (h, hs) valid_path valid)
