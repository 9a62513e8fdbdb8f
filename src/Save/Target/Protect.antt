-- ===== src/Save/Target/Protect.antt =====
-- The calls that `saveAs` of go/filehandler.go makes for a file with the protect marker.
use jostraca.Common.{
  ◌≡◌, refl, ap, ◌∙◌, inl, inr, Bool, true, false, not, ◌&&◌, List, [], ◌∷◌, ◌++◌, Option, some,
  arith, Bytes, Bool-cases, All, All-append,
}
use jostraca.Save.{
  ModeBits, View, Call, save_new, write_duplicate, SaveState, unchanged, protected, save_preserve,
  save_present, save_write, save_duplicate, save_existing, save_as,
}
use jostraca.Save.Target.{
  holds, holds-append, finish, prepared, prepared-writing, save_fingerprints-calls,
  save_as-existing,
}

-- A call that does not write the file itself.
abbrev pub Spares : Call → Type 0
Spares c = (o : Option Bytes) → holds (c ∷ []) o ≡ o

pub holds-Spares : (cs : List Call) (o : Option Bytes) → All Spares cs → holds cs o ≡ o
holds-Spares [] o h = refl
holds-Spares (c ∷ cs) o (h, hs) =
    holds-append (c ∷ []) cs o ∙ ap (holds cs) (h o) ∙ holds-Spares cs o hs

All-front : (xs ys : List Call) → All Spares (xs ++ ys) → All Spares xs
All-front [] ys h = tt
All-front (x ∷ xs) ys (h, hs) = (h, All-front xs ys hs)

-- No first part of such calls writes the file.
pub holds_front-Spares :
    (ran left cs : List Call) (o : Option Bytes)
    → ran ++ left ≡ cs
    → All Spares cs
    → holds ran o ≡ o
holds_front-Spares ran left cs o split h = holds-Spares ran o (All-front ran left (rw split h))

module _ (modes : ModeBits) (view : View) (content : Bytes)
    (marked : protected modes view content ≡ true) where
  save_preserve-Spares :
      (s : SaveState) → All Spares s.calls → All Spares (save_preserve modes view content s).calls
  unfolding save_preserve
  save_preserve-Spares s h = elim (Bool-cases (not modes.preserve)) [
    | inl e ↦ rw e h
    | inr e ↦ rw (e, marked) h
  ]

  save_present-Spares :
      (s : SaveState) → All Spares s.calls → All Spares (save_present modes view content s).calls
  unfolding save_present
  save_present-Spares s h = elim (Bool-cases (modes.write && not (protected modes view content))) [
    | inl e ↦ rw e h
    | inr e ↦ elim (Bool-cases (modes.present && not (unchanged modes view content))) [
      | inl f ↦ rw (e, f) (All-append Spares s.calls (save_new content ∷ []) h ((λ o. refl), tt))
      | inr f ↦ rw (e, f) h
    ]
  ]

  save_write-Spares :
      (s : SaveState)
      → s.writing ≡ false
      → All Spares s.calls
      → All Spares (save_write modes view content s).calls
  unfolding save_write
  save_write-Spares s quiet h =
      elim (Bool-cases (elim s.actions as (λ _. Bool) [ [] ↦ true | a ∷ more ↦ false ])) [
        | inl f ↦ rw (quiet, f) h
        | inr f ↦ rw (quiet, f) h
      ]

  save_duplicate-Spares :
      (s : SaveState) → All Spares s.calls → All Spares (save_duplicate modes view content s).calls
  unfolding save_duplicate
  save_duplicate-Spares s h = elim (Bool-cases (view.duplicate && (view.within && s.landed))) [
    | inl e ↦ rw e (All-append Spares s.calls (write_duplicate content ∷ []) h ((λ o. refl), tt))
    | inr e ↦ rw e h
  ]

  module _ {T : Type 0} (iso : T → Bytes) (fingerprint : Bytes → Bytes) (when last : T) where
    -- A save of a protected file makes no call that writes it.
    pub save_as-Spares :
        view.exists ≡ true
        → (s : SaveState) × (save_as iso fingerprint when last modes view content ≡ some s)
          × All Spares s.calls
    save_as-Spares e =
        let s = prepared iso fingerprint when last modes view content in
        let quiet : s.writing ≡ false =
          prepared-writing iso fingerprint when last modes view content
          ∙ rw marked (ground arith) in
        let front : All Spares s.calls = save_present-Spares _ (save_preserve-Spares _ tt) in
        let written = save_write-Spares s quiet front in
        (
          finish iso fingerprint when last modes view content s,
          save_as-existing iso fingerprint when last modes view content s e
              (unfold save_existing in rw marked),
          rw
              (save_fingerprints-calls iso fingerprint when last modes view content
                (save_duplicate modes view content (save_write modes view content s)))
              (save_duplicate-Spares (save_write modes view content s) written),
        )
