-- ===== src/Common/Maps.antt =====
-- Go maps with string keys as association lists. A key stands in a list once at most where the
-- list comes from these operations.
use mathlib.Core.Path.{◌≡◌, refl}
use mathlib.Core.Logic.{◌≢◌, inl, inr}
use mathlib.Core.Bool.{Bool, false, ◌||◌}
use mathlib.Core.List.{List, [], ◌∷◌}
use mathlib.Core.Option.{Option, none, some}
use native.Mathlib.Omega.{arith}
use jostraca.Common.Tests.{if◌then◌else◌, Bool-cases}
use jostraca.Common.Text.{Bytes, bytes_eq, bytes_eq_iff, bytes_eq_refl}

abbrev pub Map {ℓ} : Type ℓ → Type ℓ
Map A = List (Bytes × A)

module _ {ℓ} {A : Type ℓ} where
  -- `m[k]` with its `ok`.
  unfoldable pub lookup : Bytes → Map A → Option A
  lookup k [] = none
  lookup k ((k', v) ∷ m) = if bytes_eq k' k then some v else lookup k m

  -- `delete(m, k)`.
  unfoldable pub erase : Bytes → Map A → Map A
  erase k [] = []
  erase k ((k', v) ∷ m) = let rest = erase k m in if bytes_eq k' k then rest else (k', v) ∷ rest

  -- `m[k] = v`.
  unfoldable pub insert : Bytes → A → Map A → Map A
  insert k v m = (k, v) ∷ erase k m

  -- Whether some key passes a test.
  unfoldable pub any_key : (Bytes → Bool) → Map A → Bool
  any_key f [] = false
  any_key f ((k, v) ∷ m) = f k || any_key f m

  pub lookup-erase : (k : Bytes) (m : Map A) → lookup k (erase k m) ≡ none
  unfolding lookup erase
  lookup-erase k [] = refl
  lookup-erase k ((k', v) ∷ m) = elim (Bool-cases (bytes_eq k' k)) [
    | inl e ↦ rw e (lookup-erase k m)
    | inr e ↦ rw (e, e) (lookup-erase k m)
  ]

  pub lookup-erase-ne : (j k : Bytes) (m : Map A) → j ≢ k → lookup j (erase k m) ≡ lookup j m
  unfolding lookup erase
  lookup-erase-ne j k [] h = refl
  lookup-erase-ne j k ((k', v) ∷ m) h = elim (Bool-cases (bytes_eq k' k)) [
    | inl e ↦ elim (Bool-cases (bytes_eq k' j)) [
      | inl f ↦ absurd (ground (arith, bytes_eq_iff k' k, bytes_eq_iff k' j, h))
      | inr f ↦ rw (e, f) (lookup-erase-ne j k m h)
    ]
    | inr e ↦ rw (e, lookup-erase-ne j k m h)
  ]

  pub lookup-insert : (k : Bytes) (v : A) (m : Map A) → lookup k (insert k v m) ≡ some v
  unfolding lookup insert
  lookup-insert k v m = rw (bytes_eq_refl k)

  pub lookup-insert-ne :
      (j k : Bytes) (v : A) (m : Map A) → j ≢ k → lookup j (insert k v m) ≡ lookup j m
  unfolding lookup insert
  lookup-insert-ne j k v m h = elim (Bool-cases (bytes_eq k j)) [
    | inl e ↦ absurd (ground (arith, bytes_eq_iff k j, h))
    | inr e ↦ rw e (lookup-erase-ne j k m h)
  ]

  -- A test that holds of no key does not hold of a key that is found.
  pub any_key-lookup :
      (f : Bytes → Bool) (k : Bytes) (v : A) (m : Map A)
      → lookup k m ≡ some v
      → any_key f m ≡ false
      → f k ≡ false
  unfolding lookup any_key
  any_key-lookup f k v [] h n = absurd (cc)
  any_key-lookup f k v ((k', w) ∷ m) h n = elim (Bool-cases (bytes_eq k' k)) [
    | inl e ↦ rw (← (bytes_eq_iff k' k).0 e) (ground arith)
    | inr e ↦ any_key-lookup f k v m (ground arith) (ground arith)
  ]
