-- ===== src/Save/Target.antt =====
-- What a file holds after `saveAs` of go/filehandler.go.
pub mod Protect
use jostraca.Common.{
  ◌≡◌, refl, sym, ap, ◌∙◌, inl, inr, Bool, true, false, not, ◌&&◌, ◌||◌, List, [], ◌∷◌, ◌++◌,
  Option, none, some, arith, Bytes, codes, bytes_eq_iff, if◌then◌else◌, Bool-cases,
}
use jostraca.Diff.Marks.{DiffSpec}
use jostraca.Diff.Merge.{MergeResult, same, merge}
use jostraca.Save.Merged.{merge-existing}
use jostraca.Save.{
  ModeBits, View, Call, copy_old, chmod_unchanged, save_file, save_new, write_duplicate, Action,
  action_merge, SaveState, unchanged, protected, save_preserve, save_present, save_unchanged,
  save_write, save_duplicate, spec_of, save_merge_result, has_base, base_content, is_earlier,
  save_merging, save_existing, save_fingerprints, save_as, is_unresolved,
}

-- What the path holds after some calls.
abbrev pub holds : List Call → Option Bytes → Option Bytes
holds [] o = o
holds (save_file b ∷ calls) o = holds calls (some b)
holds (copy_old ∷ calls) o = holds calls o
holds (chmod_unchanged ∷ calls) o = holds calls o
holds (save_new b ∷ calls) o = holds calls o
holds (write_duplicate b ∷ calls) o = holds calls o

pub holds-append :
    (cs ds : List Call) (o : Option Bytes) → holds (cs ++ ds) o ≡ holds ds (holds cs o)
holds-append [] ds o = refl
holds-append (save_file b ∷ cs) ds o = holds-append cs ds (some b)
holds-append (copy_old ∷ cs) ds o = holds-append cs ds o
holds-append (chmod_unchanged ∷ cs) ds o = holds-append cs ds o
holds-append (save_new b ∷ cs) ds o = holds-append cs ds o
holds-append (write_duplicate b ∷ cs) ds o = holds-append cs ds o

-- A step that leaves the file alone and does not begin to write it.
record Idle (s t : SaveState) : Type 0 where
  target : (o : Option Bytes) → holds t.calls o ≡ holds s.calls o
  writing : s.writing ≡ false → t.writing ≡ false

module _ (modes : ModeBits) (view : View) (content : Bytes) where
  save_preserve-Idle : (s : SaveState) → Idle s (save_preserve modes view content s)
  unfolding save_preserve
  save_preserve-Idle s = elim (Bool-cases (not modes.preserve)) [
    | inl e ↦ rw e (record { target = λ o. refl; writing = λ h. h })
    | inr e ↦ elim (Bool-cases (protected modes view content)) [
      | inl f ↦ rw (e, f) (record { target = λ o. refl; writing = λ h. refl })
      | inr f ↦ elim (Bool-cases (unchanged modes view content)) [
        | inl g ↦ rw (e, f, g) (record { target = λ o. refl; writing = λ h. h })
        | inr g ↦
            rw (e, f, g)
              (record { target = λ o. holds-append s.calls (copy_old ∷ []) o; writing = λ h. h })
      ]
    ]
  ]

  -- `present` never writes the file itself, and `write` decides only where it is not protected.
  save_present-target :
      (s : SaveState) (o : Option Bytes)
      → holds (save_present modes view content s).calls o ≡ holds s.calls o
  unfolding save_present
  save_present-target s o = elim (Bool-cases (modes.write && not (protected modes view content))) [
    | inl e ↦ rw e
    | inr e ↦ elim (Bool-cases (modes.present && not (unchanged modes view content))) [
      | inl f ↦ rw (e, f) (holds-append s.calls (save_new content ∷ []) o)
      | inr f ↦ rw (e, f)
    ]
  ]

  save_present-writing :
      (s : SaveState)
      → (save_present modes view content s).writing
        ≡ ((modes.write && not (protected modes view content)) || s.writing)
  unfolding save_present
  save_present-writing s = elim (Bool-cases (modes.write && not (protected modes view content))) [
    | inl e ↦ rw e
    | inr e ↦ elim (Bool-cases (modes.present && not (unchanged modes view content))) [
      | inl f ↦ rw (e, f)
      | inr f ↦ rw (e, f)
    ]
  ]

  -- What the last steps make of the file.
  abbrev written : Bool → Option Bytes → Option Bytes
  written w o = if w && not (view.exists && unchanged modes view content) then some content else o

  save_write-target :
      (s : SaveState) (o : Option Bytes)
      → holds (save_write modes view content s).calls o ≡ written s.writing (holds s.calls o)
  unfolding save_write
  save_write-target s o = elim (Bool-cases s.writing) [
    | inl e ↦ elim (Bool-cases (view.exists && unchanged modes view content)) [
      | inl f ↦ rw (e, f) (holds-append s.calls (chmod_unchanged ∷ []) o)
      | inr f ↦ rw (e, f) (holds-append s.calls (save_file content ∷ []) o)
    ]
    | inr e ↦ elim (Bool-cases (elim s.actions as (λ _. Bool) [ [] ↦ true | a ∷ more ↦ false ])) [
      | inl f ↦ rw (e, f)
      | inr f ↦ rw (e, f)
    ]
  ]

  save_duplicate-target :
      (s : SaveState) (o : Option Bytes)
      → holds (save_duplicate modes view content s).calls o ≡ holds s.calls o
  unfolding save_duplicate
  save_duplicate-target s o = elim (Bool-cases (view.duplicate && (view.within && s.landed))) [
    | inl e ↦ rw e (holds-append s.calls (write_duplicate content ∷ []) o)
    | inr e ↦ rw e
  ]

module _ {T : Type 0} (iso : T → Bytes) (fingerprint : Bytes → Bytes) (when last : T)
    (modes : ModeBits) (view : View) (content : Bytes) where
  abbrev saved : Option SaveState
  saved = save_as iso fingerprint when last modes view content

  abbrev start : Bool → SaveState
  start w = record {
    writing = w;
    landed = false;
    conflict = false;
    actions = [];
    failures = [];
    calls = [];
    fingerprints = none;
  }

  abbrev finish : SaveState → SaveState
  finish s =
      save_fingerprints iso fingerprint when last modes view content
        (save_duplicate modes view content (save_write modes view content s))

  save_fingerprints-calls :
      (s : SaveState)
      → (save_fingerprints iso fingerprint when last modes view content s).calls ≡ s.calls
  unfolding save_fingerprints
  save_fingerprints-calls s = elim (Bool-cases modes.merge_mode) [ inl e ↦ rw e | inr e ↦ rw e ]

  finish-target :
      (s : SaveState) (o : Option Bytes)
      → holds (finish s).calls o ≡ written modes view content s.writing (holds s.calls o)
  finish-target s o =
      let t : SaveState = save_write modes view content s in
      ap (λ cs. holds cs o) (save_fingerprints-calls (save_duplicate modes view content t))
      ∙ save_duplicate-target modes view content t o
      ∙ save_write-target modes view content s o

  -- The state in front of the choice between diff and merge.
  abbrev prepared : SaveState
  prepared = save_present modes view content (
      save_preserve modes view content
        (record (start false) { landed = unchanged modes view content }))

  prepared-target : (o : Option Bytes) → holds prepared.calls o ≡ o
  prepared-target o =
      save_present-target modes view content _ o
      ∙ (save_preserve-Idle modes view content _).target o

  prepared-writing : prepared.writing ≡ (modes.write && not (protected modes view content))
  prepared-writing =
      let idle =
        (save_preserve-Idle modes view content
            (record (start false) { landed = unchanged modes view content })).writing
          refl in
      save_present-writing modes view content _ ∙ rw idle (ground arith)

  save_as-new : view.exists ≡ false → saved ≡ some (finish (start true))
  unfolding save_as
  save_as-new e = rw e

  save_as-existing :
      (t : SaveState)
      → view.exists ≡ true
      → save_existing iso fingerprint when last modes view content (start false) ≡ some t
      → saved ≡ some (finish t)
  unfolding save_as
  save_as-existing t e h = rw (e, h)

  -- A file that is not there holds the generated content after the save.
  pub save_as-new_target :
      view.exists ≡ false → (s : SaveState) × (saved ≡ some s) × (holds s.calls none ≡ some content)
  save_as-new_target e =
      (finish (start true), save_as-new e, finish-target (start true) none ∙ rw e)

  -- A file on disk that holds the protect marker holds after a save what it held before, whatever
  -- the modes are.
  pub save_as-protected_target :
      view.exists ≡ true
      → protected modes view content ≡ true
      → (s : SaveState) × (saved ≡ some s)
        × (holds s.calls (some view.existing) ≡ some view.existing)
  save_as-protected_target e p =
      let quiet : prepared.writing ≡ false = prepared-writing ∙ rw p (ground arith) in
      (
        finish prepared,
        save_as-existing prepared e (unfold save_existing in rw p),
        finish-target prepared (some view.existing)
            ∙ ap (λ w. written modes view content w (holds prepared.calls (some view.existing)))
                quiet
            ∙ prepared-target (some view.existing),
      )

  -- A file on disk that is not protected holds the generated content after a save in the plain write
  -- mode, with neither diff nor merge, whatever the other modes are.
  pub save_as-write_target :
      view.exists ≡ true
      → protected modes view content ≡ false
      → modes.write ≡ true
      → modes.diff_mode ≡ false
      → modes.merge_mode ≡ false
      → (s : SaveState) × (saved ≡ some s) × (holds s.calls (some view.existing) ≡ some content)
  save_as-write_target e p w d m =
      let writes : prepared.writing ≡ true = prepared-writing ∙ rw (p, w) in
      (
        finish prepared,
        save_as-existing prepared e (unfold save_existing in rw (p, d, m)),
        finish-target prepared (some view.existing)
            ∙ ap (λ x. written modes view content x (holds prepared.calls (some view.existing)))
                writes
            ∙ ap (written modes view content true) (prepared-target (some view.existing))
            ∙ elim (Bool-cases (unchanged modes view content)) [
              | inl f ↦ rw (e, f) (ap some ((bytes_eq_iff view.existing content).0 f))
              | inr f ↦ rw (e, f)
            ],
      )

  -- What the file holds after a merge.
  abbrev pub merge_target : MergeResult → Bytes
  merge_target r =
      if (r.conflict || is_unresolved r.outcome) && modes.conflict_fail
      then view.existing
      else r.content

  save_merge_result-target :
      (r : MergeResult) (s : SaveState)
      → (is_unresolved r.outcome ≡ true → r.content ≡ view.existing)
      → holds s.calls (some view.existing) ≡ some view.existing
      → (holds
            (save_merge_result iso fingerprint when last modes view content r s).calls
            (some view.existing)
          ≡ some (merge_target r))
        × ((save_merge_result iso fingerprint when last modes view content r s).writing ≡ s.writing)
  unfolding save_merge_result
  save_merge_result-target r s u h =
      elim (Bool-cases ((r.conflict || is_unresolved r.outcome) && modes.conflict_fail)) [
        | inl e ↦ rw e (h, refl)
        | inr e ↦ elim (Bool-cases (is_unresolved r.outcome)) [
          | inl f ↦ rw e (
              rw f (
                holds-append s.calls (chmod_unchanged ∷ []) (some view.existing)
                    ∙ h
                    ∙ ap some (sym (u f)),
                refl,
              ))
          | inr f ↦
              rw e
                (rw f (holds-append s.calls (save_file r.content ∷ []) (some view.existing), refl))
        ]
      ]

  save_existing-merging :
      protected modes view content ≡ false
      → modes.diff_mode ≡ false
      → modes.merge_mode ≡ true
      → save_existing iso fingerprint when last modes view content (start false)
        ≡ save_merging iso fingerprint when last modes view content prepared
  unfolding save_existing
  save_existing-merging p d m = rw (p, d, m)

  save_merging-same :
      (s : SaveState)
      → unchanged modes view content ≡ true
      → save_merging iso fingerprint when last modes view content s
        ≡ some (save_unchanged modes view content s)
  unfolding save_merging
  save_merging-same s f = rw f

  save_merging-base :
      (s : SaveState) (r : MergeResult)
      → unchanged modes view content ≡ false
      → has_base iso fingerprint when last modes view content ≡ true
      → is_earlier iso fingerprint when last modes view content ≡ false
      → merge iso content
          (base_content iso fingerprint when last modes view content)
          view.existing
          (spec_of iso fingerprint when last modes view content (codes "merge"))
        ≡ some r
      → (actions : List Action) × (save_merging iso fingerprint when last modes view content s
          ≡ some
              (record (save_merge_result iso fingerprint when last modes view content r
                (record s { writing = false })) { actions = actions }))
  unfolding save_merging
  save_merging-base s r f base earlier merged =
      let t : SaveState =
        save_merge_result iso fingerprint when last modes view content r
          (record s { writing = false }) in
      (t.actions ++ action_merge ∷ [], rw (f, earlier, base) (rw merged))

  -- A file on disk that is not protected and has a baseline, and is not put back to an earlier
  -- generate, holds after a save in the merge mode the content that `Merge` gives for the generated
  -- content, the baseline and the file, or, where the merge conflicts or the file has conflict
  -- markers and the modes make this a failure, what it held before.
  pub save_as-merge_target :
      view.exists ≡ true
      → protected modes view content ≡ false
      → modes.diff_mode ≡ false
      → modes.merge_mode ≡ true
      → has_base iso fingerprint when last modes view content ≡ true
      → is_earlier iso fingerprint when last modes view content ≡ false
      → (s : SaveState) × (r : MergeResult) × (saved ≡ some s)
        × (merge iso content
              (base_content iso fingerprint when last modes view content)
              view.existing
              (spec_of iso fingerprint when last modes view content (codes "merge"))
            ≡ some r)
        × (holds s.calls (some view.existing) ≡ some (merge_target r))
  save_as-merge_target e p d m base earlier = elim (Bool-cases (unchanged modes view content)) [
    | inl f ↦
        let equal : view.existing ≡ content = (bytes_eq_iff view.existing content).0 f in
        let t : SaveState = save_unchanged modes view content prepared in
        (
          finish t,
          record { content = view.existing; conflict = false; outcome = same },
          save_as-existing t e (save_existing-merging p d m ∙ save_merging-same prepared f),
          unfold merge in rw ((bytes_eq_iff content view.existing).1 (sym equal)),
          finish-target t (some view.existing)
              ∙ holds-append prepared.calls (chmod_unchanged ∷ []) (some view.existing)
              ∙ prepared-target (some view.existing),
        )
    | inr f ↦
        let (r, merged, kept) =
          merge-existing iso content (base_content iso fingerprint when last modes view content)
            view.existing (spec_of iso fingerprint when last modes view content (codes "merge")) in
        let (actions, step) = save_merging-base prepared r f base earlier merged in
        let quiet : SaveState = record prepared { writing = false } in
        let (target, idle) =
          save_merge_result-target r quiet kept (prepared-target (some view.existing)) in
        let t : SaveState =
          record (save_merge_result iso fingerprint when last modes view content r quiet) {
            actions = actions;
          } in
        (
          finish t,
          r,
          save_as-existing t e (save_existing-merging p d m ∙ step),
          merged,
          finish-target t (some view.existing)
              ∙ ap (λ w. written modes view content w (holds t.calls (some view.existing))) idle
              ∙ target,
        )
  ]
