-- ===== src/Handler/Run.antt =====
-- The calls that `saveAs` of go/filehandler.go makes, carried out by the handler over the file
-- system in memory.
use jostraca.Common.{
  ◌⊎◌, inl, inr, ◌≡◌, ◌≢◌, refl, sym, ap, ◌∙◌, Bool, true, false, not, ◌&&◌, ◌||◌, List, [], ◌∷◌,
  ◌++◌, append-nil, Option, some, Bytes, codes, bytes_eq, bytes_eq_refl, has_prefix, if◌then◌else◌,
}
use jostraca.Fs.Path.{slash, mem_clean}
use jostraca.Fs.Mem.{MemFs, Result, read_file, fail, not_exist}
use jostraca.Fs.Mem as Mem
use jostraca.Fs.Mem.Laws.{found}
use jostraca.Build.Names.{canon_out_path}
use jostraca.Diff.Merge.{MergeResult, merge}
use jostraca.Save.{
  ModeBits, View, SaveState, protected, has_base, base_content, is_earlier, spec_of, save_as, Call,
  copy_old, chmod_unchanged, save_new, write_duplicate,
}
use jostraca.Save as Save
use jostraca.Save.Target.{holds, holds-append, merge_target, save_as-merge_target}
use jostraca.Save.Target.Protect.{holds_front-Spares, save_as-Spares}
use jostraca.Handler.{
  Env, Handler, HandlerError, Outcome, done, error, Method, ◌>>=◌, return, ensure_dir_of, save_file,
  copy_file, annotated_path, write_atomic,
}
use jostraca.Handler as Handler
use jostraca.Handler.Atomic.{Written, Written-other, write_atomic-Written}
use jostraca.Handler.Saves.{
  Quiet-then_Written, ensure_dir_of-Quiet, save_file-Written, copy_file-other,
}

-- One call for the file `p`, whose path within the output folder is `rpath`. The file system in
-- memory has no `Chmod`.
unfoldable pub perform : Env → Bytes → Bytes → Call → Method (Unit {0})
unfolding save_file copy_file Handler.write_duplicate annotated_path
perform env p rpath copy_old = copy_file env p (annotated_path env p (codes "old"))
perform env p rpath chmod_unchanged = return tt
perform env p rpath (Save.save_file b) = save_file env p b
perform env p rpath (save_new b) = save_file env (annotated_path env p (codes "new")) b
perform env p rpath (write_duplicate b) = Handler.write_duplicate env rpath b

-- The calls in order; an error ends the save.
unfoldable pub run_calls : Env → Bytes → Bytes → List Call → Method (Unit {0})
unfolding perform
run_calls env p rpath [] = return tt
run_calls env p rpath (c ∷ cs) = do _ ← perform env p rpath c; run_calls env p rpath cs

write_duplicate-other :
    (env : Env) (rpath content q : Bytes) (h : Handler)
    → mem_clean env.wd (env.duplicate_folder ++ slash ∷ rpath) ≢ mem_clean env.wd q
    → read_file env.wd (Handler.write_duplicate env rpath content h).1.fs q
      ≡ read_file env.wd h.fs q
unfolding Handler.write_duplicate
write_duplicate-other env rpath content q h ne =
    let dup = env.duplicate_folder ++ slash ∷ rpath in
    reads_if (env.dryrun || not env.duplicate) _ _ refl (
      reads_if
        (not (bytes_eq (env.clean dup) (env.clean env.duplicate_folder))
          && not (has_prefix (env.clean dup) (env.clean env.duplicate_folder ++ slash ∷ [])))
        _ _ refl
        (Written-other env dup content q h.fs _ ne (
          Quiet-then_Written env dup content h (ensure_dir_of env dup h)
            (λ u. write_atomic env dup content) (ensure_dir_of-Quiet env dup h)
            (λ u h'. write_atomic-Written env dup content h'))))
  where
    reads_if :
        (c : Bool) (x y : Method (Unit {0}))
        → read_file env.wd (x h).1.fs q ≡ read_file env.wd h.fs q
        → read_file env.wd (y h).1.fs q ≡ read_file env.wd h.fs q
        → read_file env.wd ((if c then x else y) h).1.fs q ≡ read_file env.wd h.fs q
    reads_if true x y hx hy = hx
    reads_if false x y hx hy = hy

-- What the path `full` reads behind a call, when it held `o` in front.
Held : Env → Bytes → Option Bytes → Call → Outcome (Unit {0}) × Handler → Type 0
Held env full o c (done u, h) = read_file env.wd h.fs full ≡ found full (holds (c ∷ []) o)
Held env full o c (error e, h) = read_file env.wd h.fs full ≡ found full o

-- The paths that a save of `p` also writes have other keys.
pub record Apart (env : Env) (p rpath : Bytes) : Type 0 where
  pub old_apart :
      mem_clean env.wd (canon_out_path env.clean (annotated_path env p (codes "old")))
      ≢ mem_clean env.wd (canon_out_path env.clean p)
  pub new_apart :
      mem_clean env.wd (canon_out_path env.clean (annotated_path env p (codes "new")))
      ≢ mem_clean env.wd (canon_out_path env.clean p)
  pub duplicate_apart :
      mem_clean env.wd (env.duplicate_folder ++ slash ∷ rpath)
      ≢ mem_clean env.wd (canon_out_path env.clean p)

module _ (env : Env) (p rpath : Bytes) (dry : env.dryrun ≡ false) (apart : Apart env p rpath) where
  abbrev full : Bytes
  full = canon_out_path env.clean p

  Held-same :
      (o : Option Bytes) (c : Call) (x : Outcome (Unit {0}) × Handler)
      → holds (c ∷ []) o ≡ o
      → read_file env.wd x.1.fs full ≡ found full o
      → Held env full o c x
  unfolding Held
  Held-same o c (done u, h) e r = r ∙ ap (found full) (sym e)
  Held-same o c (error err, h) e r = r

  Held-Written :
      (o : Option Bytes) (b : Bytes) (m : MemFs) (x : Outcome (Unit {0}) × Handler)
      → read_file env.wd m full ≡ found full o
      → Written env full b m x
      → Held env full o (Save.save_file b) x
  unfolding Held Written
  Held-Written o b m (done u, h) r w =
      w full
      ∙ ap (λ c. if c then Mem.ok b else read_file env.wd m full)
          (bytes_eq_refl (mem_clean env.wd full))
  Held-Written o b m (error e, h) r w = w full ∙ r

  perform-Held :
      (c : Call) (o : Option Bytes) (h : Handler)
      → read_file env.wd h.fs full ≡ found full o
      → Held env full o c (perform env p rpath c h)
  unfolding perform
  perform-Held copy_old o h r =
      Held-same o copy_old _ refl
        (copy_file-other env p (annotated_path env p (codes "old")) full h dry apart.old_apart ∙ r)
  perform-Held chmod_unchanged o h r = Held-same o chmod_unchanged (return tt h) refl r
  perform-Held (Save.save_file b) o h r =
      Held-Written o b h.fs _ r (save_file-Written env p b h dry)
  perform-Held (save_new b) o h r =
      let new = annotated_path env p (codes "new") in
      Held-same o (save_new b) _ refl (
        Written-other env (canon_out_path env.clean new) b full h.fs _ apart.new_apart
          (save_file-Written env new b h dry)
        ∙ r)
  perform-Held (write_duplicate b) o h r =
      Held-same o (write_duplicate b) _ refl
        (write_duplicate-other env rpath b full h apart.duplicate_apart ∙ r)

  -- How far a run of calls came, and what the file reads then.
  record Ran (cs : List Call) (o : Option Bytes) (x : Outcome (Unit {0}) × Handler) : Type 0 where
    ran : List Call
    left : List Call
    split : ran ++ left ≡ cs
    reads : read_file env.wd x.1.fs full ≡ found full (holds ran o)
    complete : ((x.0 ≡ done tt) × (left ≡ [])) ⊎ ((e : HandlerError) × (x.0 ≡ error e))

  Ran-step :
      (c : Call) (cs : List Call) (o : Option Bytes) (x : Outcome (Unit {0}) × Handler)
      (h : Handler)
      → Held env full o c x
      → ((o' : Option Bytes) (h' : Handler)
          → read_file env.wd h'.fs full ≡ found full o'
          → Ran cs o' (run_calls env p rpath cs h'))
      → Ran (c ∷ cs) o (((λ i. x) >>= λ u. run_calls env p rpath cs) h)
  unfolding Held
  Ran-step c cs o (error e, h') h held next = record {
    ran = [];
    left = c ∷ cs;
    split = refl;
    reads = held;
    complete = inr (e, refl);
  }
  Ran-step c cs o (done u, h') h held next =
      let rest = next (holds (c ∷ []) o) h' held in
      record {
        ran = c ∷ rest.ran;
        left = rest.left;
        split = ap (λ l. c ∷ l) rest.split;
        reads = rest.reads ∙ ap (found full) (sym (holds-append (c ∷ []) rest.ran o));
        complete = rest.complete;
      }

  run_calls-Ran :
      (cs : List Call) (o : Option Bytes) (h : Handler)
      → read_file env.wd h.fs full ≡ found full o
      → Ran cs o (run_calls env p rpath cs h)
  unfolding run_calls
  run_calls-Ran [] o h r = record {
    ran = [];
    left = [];
    split = refl;
    reads = r;
    complete = inl (refl, refl);
  }
  run_calls-Ran (c ∷ cs) o h r =
      Ran-step c cs o (perform env p rpath c h) h (perform-Held c o h r)
        (λ o' h' r'. run_calls-Ran cs o' h' r')

-- Outside a dry run, where the paths of the `.old` and `.new` copies and of the baseline have other
-- keys than the file, a run of the calls of a save ends with the file reading what it holds after
-- some first part of these calls, and either succeeds behind all of them or fails.
pub run_calls-reads :
    (env : Env) (p rpath : Bytes) (cs : List Call) (o : Option Bytes) (h : Handler)
    → env.dryrun ≡ false
    → Apart env p rpath
    → read_file env.wd h.fs (canon_out_path env.clean p) ≡ found (canon_out_path env.clean p) o
    → (ran left : List Call) × (ran ++ left ≡ cs)
      × (read_file env.wd (run_calls env p rpath cs h).1.fs (canon_out_path env.clean p)
          ≡ found (canon_out_path env.clean p) (holds ran o))
      × (((run_calls env p rpath cs h).0 ≡ done tt) × (left ≡ [])
          ⊎ ((e : HandlerError) × ((run_calls env p rpath cs h).0 ≡ error e)))
run_calls-reads env p rpath cs o h dry apart r =
    let x = run_calls-Ran env p rpath dry apart cs o h r in
    (x.ran, x.left, x.split, x.reads, x.complete)

-- A save in the merge mode, through the handler: under the conditions of `run_calls-reads` and where
-- the view has what the file reads, a run for a file that is not protected and has a baseline, and is
-- not put back to an earlier generate, either fails, or the file reads behind it what the three-way
-- merge of the generated content, the baseline and the file gives, or, where a conflict is made a
-- failure, what it read before.
pub run_merge-reads :
    {T : Type 0} (iso : T → Bytes) (fingerprint : Bytes → Bytes) (when last : T) (modes : ModeBits)
    (view : View) (content : Bytes) (env : Env) (p rpath : Bytes) (h : Handler)
    → env.dryrun ≡ false
    → Apart env p rpath
    → read_file env.wd h.fs (canon_out_path env.clean p) ≡ Mem.ok view.existing
    → view.exists ≡ true
    → protected modes view content ≡ false
    → modes.diff_mode ≡ false
    → modes.merge_mode ≡ true
    → has_base iso fingerprint when last modes view content ≡ true
    → is_earlier iso fingerprint when last modes view content ≡ false
    → (s : SaveState) × (r : MergeResult) × (save_as iso fingerprint when last modes view content
        ≡ some s)
      × (merge iso content
            (base_content iso fingerprint when last modes view content)
            view.existing
            (spec_of iso fingerprint when last modes view content (codes "merge"))
          ≡ some r)
      × (((run_calls env p rpath s.calls h).0 ≡ done tt)
            × (read_file env.wd (run_calls env p rpath s.calls h).1.fs (canon_out_path env.clean p)
                ≡ Mem.ok (merge_target iso fingerprint when last modes view content r))
          ⊎ ((err : HandlerError) × ((run_calls env p rpath s.calls h).0 ≡ error err)))
run_merge-reads iso fingerprint when last modes view content env p rpath h dry apart reads e q d m
      base earlier =
    let full = canon_out_path env.clean p in
    let (s, r, saved, merged, held) =
      save_as-merge_target iso fingerprint when last modes view content e q d m base earlier in
    let (ran, left, split, after, ends) =
      run_calls-reads env p rpath s.calls (some view.existing) h dry apart reads in
    (
      s,
      r,
      saved,
      merged,
      elim ends [
        | inr (err, failed) ↦ inr (err, failed)
        | inl (finished, complete) ↦
            let all : ran ≡ s.calls =
              sym (append-nil ran) ∙ ap (λ l. ran ++ l) (sym complete) ∙ split in
            inl (
              finished,
              after
                  ∙ ap (λ l. found full (holds l (some view.existing))) all
                  ∙ ap (found full) held,
            )
      ],
    )

-- A file on disk that holds the protect marker reads the same behind a save through the handler,
-- whatever the modes are and whether the save succeeds or fails on its way: outside a dry run, where
-- the paths of the copies and of the baseline have other keys than the file and the view has what the
-- file reads.
pub run_protected-reads :
    {T : Type 0} (iso : T → Bytes) (fingerprint : Bytes → Bytes) (when last : T) (modes : ModeBits)
    (view : View) (content : Bytes) (env : Env) (p rpath : Bytes) (h : Handler)
    → env.dryrun ≡ false
    → Apart env p rpath
    → read_file env.wd h.fs (canon_out_path env.clean p) ≡ Mem.ok view.existing
    → view.exists ≡ true
    → protected modes view content ≡ true
    → (s : SaveState) × (save_as iso fingerprint when last modes view content ≡ some s)
      × (read_file env.wd (run_calls env p rpath s.calls h).1.fs (canon_out_path env.clean p)
          ≡ Mem.ok view.existing)
run_protected-reads iso fingerprint when last modes view content env p rpath h dry apart reads e
      marked =
    let full = canon_out_path env.clean p in
    let (s, saved, spares) = save_as-Spares modes view content marked iso fingerprint when last e in
    let (ran, left, split, after, ends) =
      run_calls-reads env p rpath s.calls (some view.existing) h dry apart reads in
    (
      s,
      saved,
      after
          ∙ ap (found full) (holds_front-Spares ran left s.calls (some view.existing) split spares),
    )
