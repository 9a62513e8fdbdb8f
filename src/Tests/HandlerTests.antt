-- ===== src/Tests/HandlerTests.antt =====
-- The file handler of go/filehandler.go on small file systems in memory.
use jostraca.Common.{
  ℕ, ◌+◌, ◌≡◌, ◌≢◌, ◌⊎◌, refl, List, true, false, [], ◌∷◌, ◌++◌, none, some, arith, Bytes, codes,
  bytes_eq, bytes_eq_iff, contains, has_prefix, lookup, length,
}
use jostraca.Fs.Path.{mem_clean, mem_parent}
use jostraca.Fs.Mem.{MemFs, new_mem_fs, read_file, write_file, exists, trim_left}
use jostraca.Fs.Mem as Mem
use jostraca.Fs.Mem.Laws.{found}
use jostraca.Build.Names.{canon_out_path}
use jostraca.Diff.Text.{newline}
use jostraca.Diff.Merge.{MergeResult, merge}
use jostraca.Save.{
  ModeBits, View, SaveState, protected, spec_of, base_content, is_earlier, save_as, Call,
  chmod_unchanged, save_new, write_duplicate,
}
use jostraca.Save as Save
use jostraca.Save.Target.{holds, merge_target}
use jostraca.Handler.{
  HandlerError, error, Env, Handler, Outcome, done, error, tmppath_for, check_target, write_atomic,
  save_file, copy_file, ensure_folder, annotated_path, relative, load_file,
}
use jostraca.Handler as Handler
use jostraca.Handler.Atomic.{Written, write_atomic-Written, write_atomic-done}
use jostraca.Handler.Saves.{dryrun_keeps}
use jostraca.Handler.Run.{Apart, run_calls, run_calls-reads, run_merge-reads, run_protected-reads}

abbrev env : Env
env = record {
  wd = none;
  now = 7;
  clean = λ p. p;
  dir = mem_parent;
  ext = λ base. [];
  temp_text = λ n. (48 + n) ∷ [];
  folder = codes "/out";
  duplicate_folder = codes "/base";
  max_depth = 9;
  dryrun = false;
  duplicate = true;
}

abbrev dry_env : Env
dry_env = record env { dryrun = true }

abbrev a : Bytes
a = codes "a" ++ newline ∷ []

abbrev b : Bytes
b = codes "b" ++ newline ∷ []

abbrev c : Bytes
c = codes "c" ++ newline ∷ []

abbrev target : Bytes
target = codes "/out/x"

abbrev disk : MemFs
disk = record {
  files = (codes "/out/x", a ++ b) ∷ [];
  times = (codes "/out/x", 1) ∷ [];
  dirs = (codes "/out", true) ∷ [];
}

abbrev start : Handler
start = record { fs = disk; created_dirs = []; tmp_seq = 0 }

ne_of : (s t : Bytes) → bytes_eq s t ≡ false → s ≢ t
ne_of s t h e = absurd (ground (arith, (bytes_eq_iff s t).1 e))

-- A run of the code.
written_run : read_file none (write_atomic env target c start).1.fs target ≡ Mem.ok c
unfolding write_atomic read_file
written_run = refl

free_run : exists none disk (tmppath_for env target 0) ≡ false
unfolding exists tmppath_for bytes_eq mem_clean
free_run = refl

target_run : check_target env target start ≡ (done tt, start)
unfolding check_target
target_run = refl

annotated_run : annotated_path env (codes "/out/x") (codes "old") ≡ codes "/out/x.old"
unfolding annotated_path
annotated_run = refl

loaded_run : (load_file env (codes "/out/y") start).1 ≡ start
unfolding load_file mem_parent lookup
loaded_run = refl

write_atomic-Written_example : Written env target c disk (write_atomic env target c start)
write_atomic-Written_example = write_atomic-Written env target c start

write_atomic-done_example : (write_atomic env target c start).0 ≡ done tt
write_atomic-done_example = write_atomic-done env target c start 0 target_run (omega arith) free_run

copy_read : read_file none disk (canon_out_path (λ p. p) target) ≡ Mem.ok (a ++ b)
unfolding read_file canon_out_path lookup
copy_read = refl

dryrun_keeps_example :
    ((save_file dry_env target c start).1 ≡ start)
    × ((copy_file dry_env (codes "/out/y") target start).1 ≡ start)
    × ((Handler.write_duplicate dry_env target c start).1 ≡ start)
    × ((ensure_folder dry_env target start).1 ≡ start)
dryrun_keeps_example = dryrun_keeps dry_env target (codes "/out/y") c start refl

slots-Apart : Apart env target (codes "x")
unfolding mem_clean canon_out_path annotated_path bytes_eq
slots-Apart = record {
  old_apart = ne_of _ _ refl;
  new_apart = ne_of _ _ refl;
  duplicate_apart = ne_of _ _ refl;
}

target_read : read_file none disk (canon_out_path (λ p. p) target) ≡ found target (some (a ++ b))
unfolding read_file canon_out_path lookup
target_read = refl

abbrev calls : List Call
calls = save_new c ∷ Save.save_file c ∷ write_duplicate c ∷ []

-- The run of the calls succeeds.
succeeds_run : (run_calls env target (codes "x") calls start).0 ≡ done tt
unfolding run_calls bytes_eq mem_parent lookup jostraca.Common.erase
succeeds_run = refl

run_calls-reads_example :
    (ran left : List Call) × (ran ++ left ≡ calls)
    × (read_file none
          (run_calls env target (codes "x") calls start).1.fs
          (canon_out_path env.clean target)
        ≡ found (canon_out_path env.clean target) (holds ran (some (a ++ b))))
    × (((run_calls env target (codes "x") calls start).0 ≡ done tt) × (left ≡ [])
        ⊎ ((e : HandlerError) × ((run_calls env target (codes "x") calls start).0 ≡ error e)))
run_calls-reads_example =
    run_calls-reads env target (codes "x") calls (some (a ++ b)) start refl slots-Apart target_read

abbrev iso : ℕ → Bytes
iso n = codes "now"

abbrev hash : Bytes → Bytes
hash s = s

abbrev modes : ModeBits
modes = record {
  write = true;
  preserve = true;
  present = false;
  diff_mode = false;
  merge_mode = true;
  conflict_fail = true;
}

abbrev view : View
view = record {
  exists = true;
  existing = a ++ b;
  duplicate = true;
  dup_content = some a;
  within = true;
  prior = [];
}

view_free : protected modes view (c ++ a) ≡ false
unfolding protected contains has_prefix
view_free = refl

view_later : is_earlier iso hash 1 2 modes view (c ++ a) ≡ false
unfolding is_earlier bytes_eq
view_later = refl

run_merge-reads_example :
    (s : SaveState) × (r : MergeResult) × (save_as iso hash 1 2 modes view (c ++ a) ≡ some s)
    × (merge iso
          (c ++ a)
          (base_content iso hash 1 2 modes view (c ++ a))
          view.existing
          (spec_of iso hash 1 2 modes view (c ++ a) (codes "merge"))
        ≡ some r)
    × (((run_calls env target (codes "x") s.calls start).0 ≡ done tt)
          × (read_file none
                (run_calls env target (codes "x") s.calls start).1.fs
                (canon_out_path env.clean target)
              ≡ Mem.ok (merge_target iso hash 1 2 modes view (c ++ a) r))
        ⊎ ((e : HandlerError) × ((run_calls env target (codes "x") s.calls start).0 ≡ error e)))
run_merge-reads_example =
    run_merge-reads iso hash 1 2 modes view (c ++ a) env target (codes "x") start refl slots-Apart
      copy_read refl view_free refl refl refl view_later

abbrev guarded : Bytes
guarded = codes "JOSTRACA_PROTECT"

abbrev guarded_disk : MemFs
guarded_disk = record {
  files = (codes "/out/x", guarded) ∷ [];
  times = (codes "/out/x", 1) ∷ [];
  dirs = (codes "/out", true) ∷ [];
}

abbrev guarded_start : Handler
guarded_start = record { fs = guarded_disk; created_dirs = []; tmp_seq = 0 }

abbrev guarded_view : View
guarded_view = record view { existing = guarded; dup_content = none }

guarded_read : read_file none guarded_disk (canon_out_path (λ p. p) target) ≡ Mem.ok guarded
unfolding read_file canon_out_path lookup
guarded_read = refl

guarded_marked : protected modes guarded_view c ≡ true
unfolding protected contains has_prefix
guarded_marked = refl

run_protected-reads_example :
    (s : SaveState) × (save_as iso hash 1 2 modes guarded_view c ≡ some s)
    × (read_file none
          (run_calls env target (codes "x") s.calls guarded_start).1.fs
          (canon_out_path env.clean target)
        ≡ Mem.ok guarded)
run_protected-reads_example =
    run_protected-reads iso hash 1 2 modes guarded_view c env target (codes "x") guarded_start refl
      slots-Apart guarded_read refl guarded_marked
