-- ===== src/Handler/Paths.antt =====
-- `relative` and `annotatedPath` of go/filehandler.go.
use jostraca.Common.{
  ◌+◌, ◌-◌, ◌≤◌, ◌≡◌, ◌≢◌, sym, ap, ◌∙◌, inl, inr, true, [], ◌∷◌, ◌++◌, append_assoc, arith, Bytes,
  codes, bytes_eq, has_prefix, has_prefix-append, Bool-cases, Option-cases, length, length-append,
  length-take, length-drop, take, drop, drop-length-append,
}
use jostraca.Fs.Path.{slash, root, fold, last_slash}
use jostraca.Fs.Mem.{trim_left}
use jostraca.Fs.Mem.Marks.{bytes_eq-ne}
use jostraca.Handler.{Env, annotated_base, annotated_path, relative}

-- A path that is composed below the output folder gives back, as its path within the folder, what
-- it was composed of: for a folder other than `.` and `/`, a path with no backslash and a part
-- behind the folder that does not begin with a slash.
relative-append :
    (env : Env) (x : Bytes)
    → env.folder ≢ codes "."
    → env.folder ≢ root
    → fold (env.folder ++ slash ∷ x) ≡ env.folder ++ slash ∷ x
    → trim_left x ≡ x
    → relative env (env.folder ++ slash ∷ x) ≡ x
unfolding relative trim_left
relative-append env x not_dot not_root folded trimmed =
    let p = env.folder ++ slash ∷ x in
    let longer : p ≢ env.folder =
      λ e. omega (arith, length-append env.folder (slash ∷ x), ap length e) in
    let prefixed : has_prefix p (env.folder ++ slash ∷ []) ≡ true =
      ap (λ t. has_prefix t (env.folder ++ slash ∷ []))
        (sym (append_assoc env.folder (slash ∷ []) x))
      ∙ has_prefix-append (env.folder ++ slash ∷ []) x in
    rw
      (
        relative,
        folded,
        bytes_eq-ne _ _ not_dot,
        bytes_eq-ne _ _ not_root,
        bytes_eq-ne p env.folder longer,
        prefixed,
      )
      (rw (drop-length-append env.folder (slash ∷ x)) trimmed)

-- Two paths that are composed below the output folder have the same path within it only where they
-- are the same, under the conditions of `relative-append` on both.
relative-injective :
    (env : Env) (x y : Bytes)
    → env.folder ≢ codes "."
    → env.folder ≢ root
    → fold (env.folder ++ slash ∷ x) ≡ env.folder ++ slash ∷ x
    → fold (env.folder ++ slash ∷ y) ≡ env.folder ++ slash ∷ y
    → trim_left x ≡ x
    → trim_left y ≡ y
    → relative env (env.folder ++ slash ∷ x) ≡ relative env (env.folder ++ slash ∷ y)
    → env.folder ++ slash ∷ x ≡ env.folder ++ slash ∷ y
relative-injective env x y not_dot not_root folded_x folded_y trimmed_x trimmed_y e =
    ap (λ t. env.folder ++ slash ∷ t)
      (sym (relative-append env x not_dot not_root folded_x trimmed_x)
        ∙ e
        ∙ relative-append env y not_dot not_root folded_y trimmed_y)

length_with_kind :
    (base kind ext : Bytes)
    → length ext ≤ length base
    → length (take (length base - length ext) base ++ codes "." ++ kind ++ ext)
      ≡ length base + length kind + 1
length_with_kind base kind ext h =
    let stem = take (length base - length ext) base in
    omega (
      arith,
      length-append (stem ++ codes "." ++ kind) ext,
      length-append (stem ++ codes ".") kind,
      length-append stem (codes "."),
      length-take (length base - length ext) base,
    )

length-annotated_base :
    (env : Env) (base kind : Bytes)
    → length (env.ext base) ≤ length base
    → length (annotated_base env base kind) ≡ length base + length kind + 1
unfolding annotated_base
length-annotated_base env base kind h = elim (Bool-cases (bytes_eq (env.ext base) base)) [
  | inl e ↦ rw (e, annotated_base) (length_with_kind base kind [] (omega arith))
  | inr e ↦ rw (e, annotated_base) (length_with_kind base kind (env.ext base) h)
]

-- The path of a copy beside a file is longer than the file's by the kind and a dot, where `path.Ext`
-- gives no more than it was given.
length-annotated_path :
    (env : Env) (target kind : Bytes)
    → ((base : Bytes) → length (env.ext base) ≤ length base)
    → length (annotated_path env target kind) ≡ length target + length kind + 1
unfolding annotated_path
length-annotated_path env target kind h = elim (Option-cases (last_slash target)) [
  | inl e ↦ rw (e, annotated_path) (length-annotated_base env target kind (h target))
  | inr (i, e) ↦
      rw (e, annotated_path)
        (omega (
          arith,
          length-append (take (i + 1) target) (annotated_base env (drop (i + 1) target) kind),
          length-annotated_base env (drop (i + 1) target) kind (h (drop (i + 1) target)),
          length-take (i + 1) target,
          length-drop (i + 1) target,
        ))
]
