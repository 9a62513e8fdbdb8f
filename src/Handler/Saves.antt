-- ===== src/Handler/Saves.antt =====
-- `saveFile`, `copyFile`, `writeDuplicate` and `ensureFolder` of go/filehandler.go over the file
-- system in memory, with and without a dry run.
use jostraca.Common.{
  ◌≡◌, ◌≢◌, ◌⊎◌, refl, ap, ◌∙◌, inl, inr, Bool, true, false, ◌&&◌, ◌||◌, Bytes, codes, bytes_eq,
  if◌then◌else◌, ltb, Bool-cases, Option-cases, lookup,
}
use jostraca.Fs.Path.{root, mem_clean}
use jostraca.Fs.Mem.{MemFs, Result, read_file, mkdir_all, PathError}
use jostraca.Fs.Mem as Mem
use jostraca.Fs.Mem.Laws.{exists-mkdir_all}
use jostraca.Build.Names.{canon_out_path, is_blank}
use jostraca.Handler.{
  Env, Handler, HandlerError, invalid_path, path_too_deep, fs_error, Outcome, done, error, Method,
  ◌>>=◌, return, path_depth, valid_path, ensure_folder, dir_of, ensure_dir_of, write_atomic, read,
  put, save_file, copy_file, write_duplicate,
}
use jostraca.Handler.Atomic.{Written, Written-other, write_atomic-Written}

bind-done :
    {A B : Type 0} (m : Method A) (f : A → Method B) (a : A) (h h' : Handler)
    → m h ≡ (done a, h')
    → (m >>= f) h ≡ f a h'
bind-done {B = B} m f a h h' e =
    ap (λ x. elim x.0 as (λ _. Outcome B × Handler) [ done a ↦ f a x.1 | error e ↦ (error e, x.1) ])
      e

bind-error :
    {A B : Type 0} (m : Method A) (f : A → Method B) (err : HandlerError) (h h' : Handler)
    → m h ≡ (error err, h')
    → (m >>= f) h ≡ (error err, h')
bind-error {B = B} m f err h h' e =
    ap (λ x. elim x.0 as (λ _. Outcome B × Handler) [ done a ↦ f a x.1 | error e ↦ (error e, x.1) ])
      e

-- A method that leaves what every path reads.
pub Quiet : {A : Type 0} → Env → Outcome A × Handler → Handler → Type 0
Quiet env x h = (q : Bytes) → read_file env.wd x.1.fs q ≡ read_file env.wd h.fs q

Quiet-if :
    {A : Type 0} (env : Env) (c : Bool) (x y : Outcome A × Handler) (h : Handler)
    → Quiet env x h
    → Quiet env y h
    → Quiet env (if c then x else y) h
Quiet-if env true x y h hx hy = hx
Quiet-if env false x y h hx hy = hy

valid_path-Quiet : (env : Env) (p : Bytes) (h : Handler) → Quiet env (valid_path env p h) h
unfolding valid_path Quiet
valid_path-Quiet env p h =
    Quiet-if env (is_blank p) _ _ h (λ q. refl)
      (Quiet-if env (ltb 0 env.max_depth && ltb env.max_depth (path_depth env p)) _ _ h (λ q. refl)
        (λ q. refl))

-- Making a folder leaves what every path reads.
ensure_folder-Quiet : (env : Env) (p : Bytes) (h : Handler) → Quiet env (ensure_folder env p h) h
unfolding ensure_folder Quiet
ensure_folder-Quiet env p h =
    Quiet-if env (is_blank p || (bytes_eq p (codes ".") || bytes_eq p root)) _ _ h (λ q. refl)
      (Quiet-if env env.dryrun _ _ h (λ q. refl)
        (elim (Option-cases (lookup p h.created_dirs)) [
          | inl e ↦ rw e (exists-mkdir_all env.wd h.fs p).1
          | inr (b, e) ↦ rw e (λ q. refl)
        ]))

-- `Written` speaks of the reads alone.
Written-from :
    (env : Env) (p content : Bytes) (m m' : MemFs) (x : Outcome (Unit {0}) × Handler)
    → ((q : Bytes) → read_file env.wd m' q ≡ read_file env.wd m q)
    → Written env p content m' x
    → Written env p content m x
unfolding Written
Written-from env p content m m' (done u, h) same w = λ q.
    w q
    ∙ ap (λ r. if bytes_eq (mem_clean env.wd p) (mem_clean env.wd q) then Mem.ok content else r)
        (same q)
Written-from env p content m m' (error e, h) same w = λ q. w q ∙ same q

-- A quiet method in front of a write.
pub Quiet-then_Written :
    {A : Type 0} (env : Env) (p content : Bytes) (h : Handler) (x : Outcome A × Handler)
    (f : A → Method Unit)
    → Quiet env x h
    → ((a : A) (h' : Handler) → Written env p content h'.fs (f a h'))
    → Written env p content h.fs (((λ i. x) >>= f) h)
unfolding Quiet
Quiet-then_Written env p content h (error e, h') f quiet writes = unfold Written in quiet
Quiet-then_Written env p content h (done a, h') f quiet writes =
    Written-from env p content h.fs h'.fs (f a h') quiet (writes a h')

pub ensure_dir_of-Quiet :
    (env : Env) (p : Bytes) (h : Handler) → Quiet env (ensure_dir_of env p h) h
unfolding ensure_dir_of
ensure_dir_of-Quiet env p h = ensure_folder-Quiet env (dir_of env p) h

valid_path-cases :
    (env : Env) (p : Bytes) (h : Handler)
    → (valid_path env p h ≡ (done tt, h))
      ⊎ ((e : HandlerError) × (valid_path env p h ≡ (error e, h)))
unfolding valid_path
valid_path-cases env p h = elim (Bool-cases (is_blank p)) [
  | inl e ↦ inr (invalid_path p, rw (e, valid_path))
  | inr e ↦ elim (Bool-cases (ltb 0 env.max_depth && ltb env.max_depth (path_depth env p))) [
    | inl f ↦ inr (path_too_deep p, rw (e, f, valid_path))
    | inr f ↦ inl (rw (e, f, valid_path))
  ]
]

put-Written :
    (env : Env) (full content : Bytes) (h : Handler)
    → env.dryrun ≡ false
    → Written env full content h.fs (put env full content h)
unfolding put Written
put-Written env full content h dry =
    Quiet-then_Written env full content h (ensure_dir_of env full h)
      (λ u. if env.dryrun then return tt else write_atomic env full content)
      (ensure_dir_of-Quiet env full h) (λ u h'. rw dry (write_atomic-Written env full content h'))

-- Outside a dry run, a save that succeeds leaves the content at each path with the key of the
-- target's output path and what was there at each other path; one that fails leaves every path
-- reading what it did.
pub save_file-Written :
    (env : Env) (p content : Bytes) (h : Handler)
    → env.dryrun ≡ false
    → Written env (canon_out_path env.clean p) content h.fs (save_file env p content h)
unfolding save_file
save_file-Written env p content h dry =
    let full = canon_out_path env.clean p in
    Quiet-then_Written env full content h (valid_path env p h) _ (valid_path-Quiet env p h)
      (λ u h'. put-Written env full content h' dry)

-- Outside a dry run, a copy that succeeds leaves what the source read at each path with the key of
-- the target's output path and what was there at each other path; one that fails leaves every path
-- reading what it did.
pub copy_file-Written :
    (env : Env) (from to content : Bytes) (h : Handler)
    → env.dryrun ≡ false
    → read_file env.wd h.fs (canon_out_path env.clean from) ≡ Mem.ok content
    → Written env (canon_out_path env.clean to) content h.fs (copy_file env from to h)
unfolding copy_file read Written
copy_file-Written env from to content h dry source =
    let full = canon_out_path env.clean to in
    let put_content : Bytes → Method (Unit {0}) = put env full in
    let copy : Method (Unit {0}) = (read env (canon_out_path env.clean from) >>= put_content) in
    elim (valid_path-cases env from h) [
      | inr (e, f) ↦
          rw (bind-error (valid_path env from) (λ u. (valid_path env to >>= λ v. copy)) e h h f)
            (λ q. refl)
      | inl f ↦ elim (valid_path-cases env to h) [
        | inr (e, g) ↦
            rw
              (bind-done (valid_path env from) (λ u. (valid_path env to >>= λ v. copy)) tt h h f
                ∙ bind-error (valid_path env to) (λ v. copy) e h h g)
              (λ q. refl)
        | inl g ↦
            rw
              (bind-done (valid_path env from) (λ u. (valid_path env to >>= λ v. copy)) tt h h f
                ∙ bind-done (valid_path env to) (λ v. copy) tt h h g
                ∙ bind-done (read env (canon_out_path env.clean from)) put_content content h h
                    (rw (source, read)))
              (put-Written env full content h dry)
      ]
    ]

-- A method that changes nothing.
abbrev Keeps : {A : Type 0} → Method A → Type 0
Keeps m = (h : Handler) → (m h).1 ≡ h

bind-Keeps :
    {A B : Type 0} (m : Method A) (f : A → Method B)
    → Keeps m
    → ((a : A) → Keeps (f a))
    → Keeps (m >>= f)
bind-Keeps {A} {B} m f keeps then_keeps h = with_result (m h) (keeps h)
  where
    with_result : (x : Outcome A × Handler) → x.1 ≡ h → (((λ i. x) >>= f) h).1 ≡ h
    with_result (done a, h') e = then_keeps a h' ∙ e
    with_result (error err, h') e = e

valid_path-Keeps : (env : Env) (p : Bytes) → Keeps (valid_path env p)
valid_path-Keeps env p h = elim (valid_path-cases env p h) [
  | inl e ↦ ap (λ x. x.1) e
  | inr (err, e) ↦ ap (λ x. x.1) e
]

read-Keeps : (env : Env) (full : Bytes) → Keeps (read env full)
unfolding read
read-Keeps env full h =
    elim (read_file env.wd h.fs full)
      as (λ r.
        (elim r as (λ _. Outcome Bytes × Handler) [
          | Mem.ok b ↦ (done b, h)
          | Mem.failed e ↦ (error (fs_error e), h)
        ]).1
        ≡ h) [ Mem.ok b ↦ refl | Mem.failed e ↦ refl ]

if-keeps :
    {A : Type 0} (c : Bool) (x y : Outcome A × Handler) (h : Handler)
    → x.1 ≡ h
    → y.1 ≡ h
    → (if c then x else y).1 ≡ h
if-keeps true x y h hx hy = hx
if-keeps false x y h hx hy = hy

-- A method that leaves what the path `q` reads.
abbrev KeepsAt : {A : Type 0} → Env → Bytes → Method A → Type 0
KeepsAt env q m = (h : Handler) → read_file env.wd (m h).1.fs q ≡ read_file env.wd h.fs q

Keeps-KeepsAt : {A : Type 0} (env : Env) (q : Bytes) (m : Method A) → Keeps m → KeepsAt env q m
Keeps-KeepsAt env q m keeps h = ap (λ z. read_file env.wd z.fs q) (keeps h)

bind-KeepsAt :
    {A B : Type 0} (env : Env) (q : Bytes) (m : Method A) (f : A → Method B)
    → KeepsAt env q m
    → ((a : A) → KeepsAt env q (f a))
    → KeepsAt env q (m >>= f)
bind-KeepsAt {A} {B} env q m f keeps then_keeps h = with_result (m h) (keeps h)
  where
    with_result :
        (x : Outcome A × Handler)
        → read_file env.wd x.1.fs q ≡ read_file env.wd h.fs q
        → read_file env.wd (((λ i. x) >>= f) h).1.fs q ≡ read_file env.wd h.fs q
    with_result (done a, h') e = then_keeps a h' ∙ e
    with_result (error err, h') e = e

-- A copy does not touch the paths with other keys than its target's, whatever comes of it.
pub copy_file-other :
    (env : Env) (from to q : Bytes) (h : Handler)
    → env.dryrun ≡ false
    → mem_clean env.wd (canon_out_path env.clean to) ≢ mem_clean env.wd q
    → read_file env.wd (copy_file env from to h).1.fs q ≡ read_file env.wd h.fs q
unfolding copy_file
copy_file-other env from to q h dry ne =
    let put_content : Bytes → Method (Unit {0}) = put env (canon_out_path env.clean to) in
    let source = canon_out_path env.clean from in
    let copy : Method (Unit {0}) = (read env source >>= put_content) in
    let valid : (p : Bytes) → KeepsAt env q (valid_path env p) =
      λ p. Keeps-KeepsAt env q (valid_path env p) (valid_path-Keeps env p) in
    bind-KeepsAt env q (valid_path env from) (λ u. (valid_path env to >>= λ v. copy)) (valid from)
      (λ u.
        bind-KeepsAt env q (valid_path env to) (λ v. copy) (valid to)
          (λ v.
            bind-KeepsAt env q (read env source) put_content
              (Keeps-KeepsAt env q (read env source) (read-Keeps env source))
              (λ b h'.
                Written-other env (canon_out_path env.clean to) b q h'.fs _ ne
                  (put-Written env (canon_out_path env.clean to) b h' dry))))
      h

module _ (env : Env) (dry : env.dryrun ≡ true) where
  ensure_folder-Keeps : (p : Bytes) → Keeps (ensure_folder env p)
  unfolding ensure_folder
  ensure_folder-Keeps p h =
      if-keeps (is_blank p || (bytes_eq p (codes ".") || bytes_eq p root)) _ _ h refl (rw dry refl)

  put-Keeps : (full content : Bytes) → Keeps (put env full content)
  unfolding put ensure_dir_of
  put-Keeps full content =
      bind-Keeps (ensure_dir_of env full)
        (λ u. if env.dryrun then return tt else write_atomic env full content)
        (ensure_folder-Keeps (dir_of env full)) (λ u h. rw dry refl)

  save_file-Keeps : (p content : Bytes) → Keeps (save_file env p content)
  unfolding save_file
  save_file-Keeps p content =
      let full = canon_out_path env.clean p in
      bind-Keeps (valid_path env p) (λ u. put env full content) (valid_path-Keeps env p)
        (λ u. put-Keeps full content)

  copy_file-Keeps : (from to : Bytes) → Keeps (copy_file env from to)
  unfolding copy_file
  copy_file-Keeps from to =
      let put_content : Bytes → Method (Unit {0}) = put env (canon_out_path env.clean to) in
      let source = canon_out_path env.clean from in
      bind-Keeps (valid_path env from)
        (λ u. (valid_path env to >>= λ v. (read env source >>= put_content)))
        (valid_path-Keeps env from)
        (λ u.
          bind-Keeps (valid_path env to) (λ v. (read env source >>= put_content))
            (valid_path-Keeps env to)
            (λ v.
              bind-Keeps (read env source) put_content (read-Keeps env source)
                (put-Keeps (canon_out_path env.clean to))))

  write_duplicate-Keeps : (rpath content : Bytes) → Keeps (write_duplicate env rpath content)
  unfolding write_duplicate
  write_duplicate-Keeps rpath content h = rw dry refl

-- A dry run changes nothing, in the file system and in the handler: not a save, not a copy, not the
-- write of a baseline and not the making of a folder.
pub dryrun_keeps :
    (env : Env) (p from content : Bytes) (h : Handler)
    → env.dryrun ≡ true
    → ((save_file env p content h).1 ≡ h)
      × ((copy_file env from p h).1 ≡ h)
      × ((write_duplicate env p content h).1 ≡ h)
      × ((ensure_folder env p h).1 ≡ h)
dryrun_keeps env p from content h dry = (
  save_file-Keeps env dry p content h,
  copy_file-Keeps env dry from p h,
  write_duplicate-Keeps env dry p content h,
  ensure_folder-Keeps env dry p h,
)
