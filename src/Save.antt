-- ===== src/Save.antt =====
-- `saveAs` and `saveMerge` of go/filehandler.go: what a save makes of a file that may be there
-- already. What the code reads is a record, `View`, and what it does is a list of calls of the
-- methods below it, in order; none of these fails. Log and audit texts are left out.
pub mod Merged
pub mod Target
use jostraca.Common.{
  ℕ, ◌-◌, Bool, true, false, not, ◌&&◌, ◌||◌, List, [], ◌∷◌, ◌++◌, Option, none, some, Bytes, codes,
  bytes_eq, contains, ltb, if◌then◌else◌, length, drop,
}
use jostraca.Diff.Marks.{DiffSpec}
use jostraca.Diff.Merge.{MergeResult, MergeOutcome, clean, unresolved, merge, ◌>>=◌}
use jostraca.Diff.Hunks.{DiffResult, diff}

abbrev pub protect_marker : Bytes
protect_marker = codes "JOSTRACA_PROTECT"

abbrev pub fingerprint_history : ℕ
fingerprint_history = 8

pub record ModeBits : Type 0 where
  pub write : Bool
  pub preserve : Bool
  pub present : Bool
  pub diff_mode : Bool
  pub merge_mode : Bool
  pub conflict_fail : Bool

-- The options of a file class; an option that is not given is `none`.
pub record ExistingModes : Type 0 where
  pub write : Option Bool
  pub preserve : Option Bool
  pub present : Option Bool
  pub diff_mode : Option Bool
  pub merge_mode : Option Bool
  pub conflict_fail : Bool

abbrev pub bool_or : Option Bool → Bool → Bool
bool_or none def = def
bool_or (some b) def = b

-- Binary files have no diff, no merge and no conflict option.
unfoldable pub modes_for : ExistingModes → ExistingModes → Bool → ModeBits
modes_for txt bin true = record {
  write = bool_or txt.write true;
  preserve = bool_or txt.preserve false;
  present = bool_or txt.present false;
  diff_mode = bool_or txt.diff_mode false;
  merge_mode = bool_or txt.merge_mode false;
  conflict_fail = txt.conflict_fail;
}
modes_for txt bin false = record {
  write = bool_or bin.write true;
  preserve = bool_or bin.preserve false;
  present = bool_or bin.present false;
  diff_mode = false;
  merge_mode = false;
  conflict_fail = false;
}

-- What a save reads: whether the file is there and what it holds; whether `control.Duplicate()`,
-- and what the duplicate folder holds of the file; whether the path is within the output folder
-- and is not the meta log; and the fingerprints of earlier generates.
pub record View : Type 0 where
  pub exists : Bool
  pub existing : Bytes
  pub duplicate : Bool
  pub dup_content : Option Bytes
  pub within : Bool
  pub prior : List Bytes

-- `copyFile(p, p.old)`, `saveFile(p, ...)`, `saveFile(p.new, ...)`, `chmodUnchanged(p, mode)` and
-- `writeDuplicate(rpath, ...)`.
pub data Call : Type 0 where
  copy_old chmod_unchanged : Call
  save_file save_new write_duplicate : Bytes → Call

pub data Action : Type 0 where
  action_preserve action_present action_diff action_merge action_write action_skip : Action

pub data Failure : Type 0 where
  fail_conflict fail_unresolved fail_nobase : Failure

-- The variables of `saveAs`.
pub record SaveState : Type 0 where
  pub writing : Bool
  pub landed : Bool
  pub conflict : Bool
  pub actions : List Action
  pub failures : List Failure
  pub calls : List Call
  pub fingerprints : Option (List Bytes)

unfoldable pub has_fingerprint : List Bytes → Bytes → Bool
has_fingerprint [] fp = false
has_fingerprint (f ∷ fps) fp = bytes_eq f fp || has_fingerprint fps fp

unfoldable pub without : List Bytes → Bytes → List Bytes
without [] fp = []
without (f ∷ fps) fp = let rest = without fps fp in if bytes_eq f fp then rest else f ∷ rest

unfoldable pub with_fingerprint : List Bytes → Bytes → List Bytes
unfolding without
with_fingerprint fps fp =
    let out = without fps fp ++ fp ∷ [] in
    if ltb fingerprint_history (length out)
    then drop (length out - fingerprint_history) out
    else out

abbrev pub is_unresolved : MergeOutcome → Bool
is_unresolved unresolved = true
is_unresolved _ = false

module _ (modes : ModeBits) (view : View) (content : Bytes) where
  abbrev pub unchanged : Bool
  unchanged = bytes_eq view.existing content

  unfoldable pub protected : Bool
  protected = contains view.existing protect_marker

  unfoldable pub save_preserve : SaveState → SaveState
  unfolding protected
  save_preserve s =
      if not modes.preserve
      then s
      else if protected
      then record s { writing = false }
      else if unchanged
      then s
      else record s {
        calls = s.calls ++ copy_old ∷ [];
        actions = s.actions ++ action_preserve ∷ [];
      }

  unfoldable pub save_present : SaveState → SaveState
  unfolding protected
  save_present s =
      if modes.write && not protected
      then record s { writing = true }
      else if modes.present && not unchanged
      then record s {
        calls = s.calls ++ save_new content ∷ [];
        actions = s.actions ++ action_present ∷ [];
      }
      else s

  -- Where the bytes are equal, in the diff and in the merge mode.
  abbrev pub save_unchanged : SaveState → SaveState
  save_unchanged s = record s {
    writing = false;
    landed = true;
    calls = s.calls ++ chmod_unchanged ∷ [];
  }

  -- The end of `saveAs`: the write or the skip.
  unfoldable pub save_write : SaveState → SaveState
  save_write s =
      let skips : Bool = elim s.actions [ [] ↦ true | a ∷ more ↦ false ] in
      if s.writing
      then record s {
        landed = true;
        actions = s.actions ++ action_write ∷ [];
        calls =
            s.calls
            ++ (if view.exists && unchanged then chmod_unchanged else save_file content) ∷ [];
      }
      else if skips
      then record s { actions = action_skip ∷ [] }
      else s

  unfoldable pub save_duplicate : SaveState → SaveState
  save_duplicate s =
      if view.duplicate && (view.within && s.landed)
      then record s { calls = s.calls ++ write_duplicate content ∷ [] }
      else s

-- `fingerprint` is the hash of the Go library, `iso` prints a time; `when` and `last` are the times
-- of this build and of the last one.
module _ {T : Type 0} (iso : T → Bytes) (fingerprint : Bytes → Bytes) (when last : T)
    (modes : ModeBits) (view : View) (content : Bytes) where
  abbrev pub spec_of : Bytes → DiffSpec T
  spec_of kind = record { when = when; last = last; kind = kind; labels = none }

  unfoldable pub save_diff : SaveState → Option SaveState
  unfolding diff
  save_diff s =
      if unchanged modes view content
      then some (save_unchanged modes view content s)
      else (diff iso content view.existing (spec_of (codes "diff")) >>= λ r. some (record s {
        writing = false;
        landed = true;
        calls = s.calls ++ save_file r.content ∷ [];
        conflict = not (bytes_eq r.content content);
        actions = s.actions ++ action_diff ∷ [];
      }))

  -- `saveMerge` with the result of the merge.
  unfoldable pub save_merge_result : MergeResult → SaveState → SaveState
  save_merge_result r s =
      let is_marked = is_unresolved r.outcome in
      let conflict = r.conflict || is_marked in
      if conflict && modes.conflict_fail
      then record s {
        failures = s.failures ++ (if is_marked then fail_unresolved else fail_conflict) ∷ [];
        landed = false;
        conflict = conflict;
      }
      else if is_marked
      then record s { calls = s.calls ++ chmod_unchanged ∷ []; landed = false; conflict = conflict }
      else record s {
        calls = s.calls ++ save_file r.content ∷ [];
        landed = true;
        conflict = conflict;
      }

  unfoldable pub save_merge : Bytes → Bool → SaveState → Option SaveState
  unfolding merge save_merge_result
  save_merge baseline earlier s =
      if earlier
      then some
          (save_merge_result (record { content = content; conflict = false; outcome = clean }) s)
      else (merge iso content baseline view.existing (spec_of (codes "merge")) >>= λ r.
          some (save_merge_result r s))

  abbrev pub dup_baseline : Option Bytes
  dup_baseline = if view.duplicate then view.dup_content else none

  abbrev pub has_base : Bool
  has_base = elim dup_baseline [ none ↦ false | some b ↦ true ]

  abbrev pub base_content : Bytes
  base_content = elim dup_baseline [ none ↦ [] | some b ↦ b ]

  -- Whether the file is one of its own earlier generates.
  unfoldable pub is_earlier : Bool
  unfolding has_fingerprint
  is_earlier =
      (not has_base || not (bytes_eq base_content view.existing))
      && has_fingerprint view.prior (fingerprint view.existing)

  unfoldable pub save_merging : SaveState → Option SaveState
  unfolding save_merge is_earlier
  save_merging s =
      if unchanged modes view content
      then some (save_unchanged modes view content s)
      else if has_base || is_earlier
      then (save_merge base_content is_earlier (record s { writing = false }) >>= λ t.
          some (record t { actions = t.actions ++ action_merge ∷ [] }))
      else some (
          if modes.conflict_fail
          then record s { writing = false; failures = s.failures ++ fail_nobase ∷ [] }
          else s)

  -- The part under `if exists`.
  unfoldable pub save_existing : SaveState → Option SaveState
  unfolding save_preserve save_present save_diff save_merging protected
  save_existing s =
      let landed = record s { landed = unchanged modes view content } in
      let t = save_present modes view content (save_preserve modes view content landed) in
      if protected modes view content
      then some t
      else if modes.diff_mode
      then save_diff t
      else if modes.merge_mode
      then save_merging t
      else some t

  unfoldable pub save_fingerprints : SaveState → SaveState
  unfolding with_fingerprint
  save_fingerprints s =
      if modes.merge_mode
      then record s {
        fingerprints =
            some
              (if s.landed then with_fingerprint view.prior (fingerprint content) else view.prior);
      }
      else s

  unfoldable pub save_as : Option SaveState
  unfolding save_existing save_write save_duplicate save_fingerprints
  save_as =
      let start : SaveState = record {
        writing = not view.exists;
        landed = false;
        conflict = false;
        actions = [];
        failures = [];
        calls = [];
        fingerprints = none;
      } in
      (if view.exists then save_existing start else some start) >>= λ s.
      some (save_fingerprints (save_duplicate modes view content (save_write modes view content s)))
