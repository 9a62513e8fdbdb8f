-- ===== src/Handler/Atomic.antt =====
-- The atomic write of go/filehandler.go: `writeAtomicMode` with `tmppathFor`, `removeTemp` and the
-- renaming of the temporary file.
use jostraca.Common.{
  ℕ, zero, suc, ◌+◌, ◌<◌, ◌≡◌, ◌≢◌, refl, sym, ap, ◌∙◌, ◌⊎◌, inl, inr, Bool, true, false, ◌||◌,
  Option, none, some, arith, Bytes, codes, bytes_eq, bytes_eq_iff, if◌then◌else◌, Bool-cases,
  Option-cases, Map, lookup, erase, insert, lookup-insert, lookup-insert-ne,
}
use jostraca.Fs.Path.{root, mem_clean}
use jostraca.Fs.Mem.{
  MemFs, FileInfo, Result, Reason, exist, fail, has_dir, write_locked, mark_parents, read_file,
  write_file, write_file_excl, exists, stat, remove, rename,
}
use jostraca.Fs.Mem as Mem
use jostraca.Fs.Mem.Marks.{Bytes-cases, bytes_eq-ne}
use jostraca.Fs.Mem.Laws.{
  found, found-if, exists-root, write_file_excl-exists, read_file-found, lookup-insert-if,
  lookup-erase-if,
}
use jostraca.Build.Names.{is_blank}
use jostraca.Handler.{
  Env, Handler, HandlerError, Outcome, done, error, ◌>>=◌, tmppath_for, write_temp, check_target,
  check_dir, publish, write_atomic, tmp_path_attempts, trim_right,
}

-- What an attempt at a temporary file comes to: it is taken, or it is written.
excl-cases :
    (wd : Option Bytes) (now : ℕ) (m : MemFs) (p b : Bytes)
    → (write_file_excl wd now m p b ≡ fail (codes "open") p exist)
      ⊎ ((lookup (mem_clean wd p) m.files ≡ none)
          × (write_file_excl wd now m p b ≡ Mem.ok (write_file wd now m p b)))
unfolding write_file_excl write_file
excl-cases wd now m p b = elim (Option-cases (lookup (mem_clean wd p) m.files)) [
  | inr (c, e) ↦ inl (rw (e, write_file_excl))
  | inl e ↦ elim (Bool-cases (has_dir (mem_clean wd p) m.dirs)) [
    | inl d ↦ inl (ground arith)
    | inr d ↦ inr (e, ground arith)
  ]
]

-- A free name that now holds the content, or an error that leaves the file system.
TempWritten : Env → Bytes → MemFs → Outcome Bytes × Handler → Type 0
TempWritten env content m (done tmp, h) =
    (lookup (mem_clean env.wd tmp) m.files ≡ none)
    × (h.fs ≡ write_file env.wd env.now m tmp content)
TempWritten env content m (error e, h) = h.fs ≡ m

write_temp-TempWritten :
    (env : Env) (n : ℕ) (p content : Bytes) (h : Handler)
    → TempWritten env content h.fs (write_temp env n p content h)
unfolding write_temp TempWritten
write_temp-TempWritten env zero p content h = refl
write_temp-TempWritten env (suc n) p content h =
    let cand = tmppath_for env p h.tmp_seq in
    let taken : Handler = record h { tmp_seq = h.tmp_seq + 1 } in
    elim (excl-cases env.wd env.now h.fs cand content) [
      | inl e ↦ rw (e, write_temp) (write_temp-TempWritten env n p content taken)
      | inr (free, e) ↦ rw (e, write_temp, TempWritten) (free, refl)
    ]

-- What an atomic write of `content` at `p` over `m` comes to, told by the reads alone.
unfoldable pub Written : Env → Bytes → Bytes → MemFs → Outcome (Unit {0}) × Handler → Type 0
Written env p content m (done u, h) =
    (q : Bytes)
    → read_file env.wd h.fs q ≡ (
        if bytes_eq (mem_clean env.wd p) (mem_clean env.wd q)
        then Mem.ok content
        else read_file env.wd m q)
Written env p content m (error e, h) = (q : Bytes) → read_file env.wd h.fs q ≡ read_file env.wd m q

-- A file that is written under a free name and then renamed.
renamed-lookup :
    (c n j content : Bytes) (files : Map Bytes)
    → lookup c files ≡ none
    → lookup j (insert n content (erase c (insert c content files)))
      ≡ (if bytes_eq n j then some content else lookup j files)
renamed-lookup c n j content files free =
    lookup-insert-if n j content (erase c (insert c content files))
    ∙ ap (λ r. if bytes_eq n j then some content else r)
        (lookup-erase-if c j (insert c content files) ∙ elim (Bytes-cases j c) [
          | inl e ↦ rw (e, (bytes_eq_iff c c).1 refl) (sym free)
          | inr ne ↦ rw (bytes_eq-ne c j (λ e. ne (sym e))) (lookup-insert-ne j c content files ne)
        ])

rename-here :
    (wd : Option Bytes) (m : MemFs) (p p' b : Bytes)
    → lookup (mem_clean wd p) m.files ≡ some b
    → (m' : MemFs) × (rename wd m p p' ≡ Mem.ok m')
      × (m'.files ≡ insert (mem_clean wd p') b (erase (mem_clean wd p) m.files))
unfolding rename
rename-here wd m p p' b here =
    let t : ℕ = elim (lookup (mem_clean wd p) m.times) [ none ↦ 0 | some t ↦ t ] in
    let moved : MemFs = record {
      files = insert (mem_clean wd p') b (erase (mem_clean wd p) m.files);
      times = insert (mem_clean wd p') t (erase (mem_clean wd p) m.times);
      dirs = mark_parents (mem_clean wd p') m.dirs;
    } in
    (moved, rw (here, rename), refl)

publish-Written :
    (env : Env) (p tmp content : Bytes) (m : MemFs) (h : Handler)
    → lookup (mem_clean env.wd tmp) m.files ≡ none
    → h.fs ≡ write_file env.wd env.now m tmp content
    → ((publish env p tmp h).0 ≡ done tt) × Written env p content m (publish env p tmp h)
unfolding publish write_file write_locked Written
publish-Written env p tmp content m h free e =
    let o = mem_clean env.wd tmp in
    let n = mem_clean env.wd p in
    let files_eq : h.fs.files ≡ insert o content m.files = ap (λ z. z.files) e in
    let here : lookup o h.fs.files ≡ some content =
      ap (lookup o) files_eq ∙ lookup-insert o content m.files in
    let (m', renamed, files') = rename-here env.wd h.fs tmp p content here in
    let reads : (q : Bytes)
        → read_file env.wd m' q
          ≡ (if bytes_eq n (mem_clean env.wd q) then Mem.ok content else read_file env.wd m q) =
      λ q.
        read_file-found env.wd m' q
        ∙ ap (λ t. found q (lookup (mem_clean env.wd q) t))
            (files' ∙ ap (λ t. insert n content (erase o t)) files_eq)
        ∙ ap (found q) (renamed-lookup o n (mem_clean env.wd q) content m.files free)
        ∙ found-if (bytes_eq n (mem_clean env.wd q)) q content _
        ∙ ap (λ r. if bytes_eq n (mem_clean env.wd q) then Mem.ok content else r)
            (sym (read_file-found env.wd m q)) in
    rw (renamed, publish, Written) (refl, reads)

-- The check of a target keeps the state, or fails and keeps the file system.
Checked : Handler → Outcome (Unit {0}) × Handler → Type 0
Checked h (done u, h') = h ≡ h'
Checked h (error e, h') = h'.fs ≡ h.fs

Checked-if :
    (h : Handler) (c : Bool) (x y : Outcome (Unit {0}) × Handler)
    → Checked h x
    → Checked h y
    → Checked h (if c then x else y)
Checked-if h true x y hx hy = hx
Checked-if h false x y hx hy = hy

check_dir-Checked :
    (env : Env) (p : Bytes) (r : Result FileInfo) (h : Handler) → Checked h (check_dir env p r h)
unfolding check_dir Checked
check_dir-Checked env p (Mem.failed e) h = refl
check_dir-Checked env p (Mem.ok fi) h = Checked-if h fi.is_dir _ _ refl refl

check_target-Checked : (env : Env) (p : Bytes) (h : Handler) → Checked h (check_target env p h)
unfolding check_target Checked
check_target-Checked env p h =
    Checked-if h (bytes_eq (trim_right p) p || is_blank (trim_right p)) _ _ refl
      (check_dir-Checked env p (stat env.wd h.fs (trim_right p)) h)

Written-of_eq :
    (env : Env) (p content : Bytes) (m : MemFs) (e : HandlerError) (h : Handler)
    → h.fs ≡ m
    → Written env p content m (error e, h)
unfolding Written
Written-of_eq env p content m e h same q = ap (λ z. read_file env.wd z q) same

publish_tried :
    (env : Env) (p content : Bytes) (h : Handler) (x : Outcome Bytes × Handler)
    → TempWritten env content h.fs x
    → Written env p content h.fs (((λ i. x) >>= publish env p) h)
unfolding TempWritten
publish_tried env p content h (done tmp, h') t =
    (publish-Written env p tmp content h.fs h' t.0 t.1).1
publish_tried env p content h (error e, h') t = Written-of_eq env p content h.fs e h' t

write-Checked :
    (env : Env) (p content : Bytes) (h : Handler) (x : Outcome (Unit {0}) × Handler)
    → Checked h x
    → Written env p content h.fs
        (((λ i. x) >>= λ u. (write_temp env tmp_path_attempts p content >>= publish env p)) h)
unfolding Checked
write-Checked env p content h (error e, h') t = Written-of_eq env p content h.fs e h' t
write-Checked env p content h (done u, h') t = rw (sym t) (
    publish_tried env p content h (write_temp env tmp_path_attempts p content h)
      (write_temp-TempWritten env tmp_path_attempts p content h))

-- An atomic write that succeeds leaves the content at each path with the key of the target and
-- what was there at each other path; one that fails leaves every path reading what it did.
pub write_atomic-Written :
    (env : Env) (p content : Bytes) (h : Handler)
    → Written env p content h.fs (write_atomic env p content h)
unfolding write_atomic
write_atomic-Written env p content h =
    write-Checked env p content h (check_target env p h) (check_target-Checked env p h)

excl_free :
    (wd : Option Bytes) (now : ℕ) (m : MemFs) (p b : Bytes)
    → exists wd m p ≡ false
    → write_file_excl wd now m p b ≡ Mem.ok (write_file wd now m p b)
excl_free wd now m p b e = elim (Bool-cases (bytes_eq (mem_clean wd p) root)) [
  | inl r ↦ let there = exists-root wd m p r in absurd (ground arith)
  | inr r ↦
      let ne : mem_clean wd p ≢ root =
        λ f. (let same = (bytes_eq_iff (mem_clean wd p) root).1 f in ground arith) in
      rw (write_file_excl-exists wd now m p b ne, e)
]

IsDone : Outcome Bytes × Handler → Type 0
IsDone x = (tmp : Bytes) × (x.0 ≡ done tmp)

write_temp-IsDone :
    (env : Env) (p content : Bytes) (n k : ℕ) (h : Handler)
    → k < n
    → exists env.wd h.fs (tmppath_for env p (h.tmp_seq + k)) ≡ false
    → IsDone (write_temp env n p content h)
unfolding write_temp IsDone
write_temp-IsDone env p content zero k h lt free = absurd (omega arith)
write_temp-IsDone env p content (suc n) zero h lt free =
    let cand = tmppath_for env p h.tmp_seq in
    let first : h.tmp_seq + 0 ≡ h.tmp_seq = omega arith in
    let here : exists env.wd h.fs cand ≡ false =
      ap (λ i. exists env.wd h.fs (tmppath_for env p i)) (sym first) ∙ free in
    rw (excl_free env.wd env.now h.fs cand content here, write_temp) (cand, refl)
write_temp-IsDone env p content (suc n) (suc k) h lt free =
    let cand = tmppath_for env p h.tmp_seq in
    let taken : Handler = record h { tmp_seq = h.tmp_seq + 1 } in
    let next : h.tmp_seq + 1 + k ≡ h.tmp_seq + suc k = omega arith in
    elim (excl-cases env.wd env.now h.fs cand content) [
      | inl e ↦
          rw (e, write_temp)
            (write_temp-IsDone env p content n k taken (omega arith)
              (ap (λ i. exists env.wd h.fs (tmppath_for env p i)) next ∙ free))
      | inr (free, e) ↦ rw (e, write_temp) (cand, refl)
    ]

publish_tried-done :
    (env : Env) (p content : Bytes) (h : Handler) (x : Outcome Bytes × Handler)
    → TempWritten env content h.fs x
    → IsDone x
    → (((λ i. x) >>= publish env p) h).0 ≡ done tt
unfolding TempWritten IsDone
publish_tried-done env p content h (done tmp, h') t d =
    (publish-Written env p tmp content h.fs h' t.0 t.1).0
publish_tried-done env p content h (error e, h') t d = absurd (ground arith)

-- An atomic write succeeds where one of the nine names it may try is free and the target, if it ends
-- in a slash, names a directory that is there.
pub write_atomic-done :
    (env : Env) (p content : Bytes) (h : Handler) (k : ℕ)
    → check_target env p h ≡ (done tt, h)
    → k < tmp_path_attempts
    → exists env.wd h.fs (tmppath_for env p (h.tmp_seq + k)) ≡ false
    → (write_atomic env p content h).0 ≡ done tt
unfolding write_atomic
write_atomic-done env p content h k target lt free =
    ap
      (λ x.
        (((λ i. x) >>= λ u. (write_temp env tmp_path_attempts p content >>= publish env p)) h).0)
      target
    ∙ publish_tried-done env p content h (write_temp env tmp_path_attempts p content h)
        (write_temp-TempWritten env tmp_path_attempts p content h)
        (write_temp-IsDone env p content tmp_path_attempts k h lt free)

-- A path with another key than the target's reads what it did.
pub Written-other :
    (env : Env) (p content q : Bytes) (m : MemFs) (x : Outcome (Unit {0}) × Handler)
    → mem_clean env.wd p ≢ mem_clean env.wd q
    → Written env p content m x
    → read_file env.wd x.1.fs q ≡ read_file env.wd m q
unfolding Written
Written-other env p content q m (done u, h) ne w =
    w q ∙ ap (λ c. if c then Mem.ok content else read_file env.wd m q) (bytes_eq-ne _ _ ne)
Written-other env p content q m (error e, h) ne w = w q
