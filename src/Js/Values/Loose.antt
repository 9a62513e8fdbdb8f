-- ===== src/Js/Values/Loose.antt =====
-- `jsLooseEqual` of go/jsvalue.go.
use jostraca.Common.{ℕ, suc, ◌≡◌, refl, [], ◌∷◌, Bool, true, false, Bytes, bytes_eq, arith}
use jostraca.Tree.{Value}
use jostraca.Js.Values.{Runtime, Js, bool_eq, js_strict_equal, loose_at, js_loose_equal}

module _ (js : Runtime) where
  -- More calls than three change nothing.
  pub loose_at-enough :
      (left : ℕ) (x y : Js) → loose_at js (suc (suc (suc left))) x y ≡ js_loose_equal js x y
  unfolding js_loose_equal
  loose_at-enough left x y = ground arith

bytes_eq_symm : (s t : Bytes) → bytes_eq s t ≡ bytes_eq t s
unfolding bytes_eq
bytes_eq_symm [] [] = refl
bytes_eq_symm [] (y ∷ t) = refl
bytes_eq_symm (x ∷ s) [] = refl
bytes_eq_symm (x ∷ s) (y ∷ t) = ground (arith, bytes_eq_symm s t)

bool_eq_symm : (a b : Bool) → bool_eq a b ≡ bool_eq b a
bool_eq_symm true true = refl
bool_eq_symm true false = refl
bool_eq_symm false true = refl
bool_eq_symm false false = refl

-- Loose equality is symmetric, where the equality of floats and of pointers is.
pub js_loose_equal_symm :
    (js : Runtime)
    → ((a b : ℕ) → js.float_eq a b ≡ js.float_eq b a)
    → ((v w : Value) → js.same_object v w ≡ js.same_object w v)
    → (x y : Js) → js_loose_equal js x y ≡ js_loose_equal js y x
unfolding js_loose_equal js_strict_equal
js_loose_equal_symm js floats objects x y =
    grind (arith, floats, objects, bytes_eq_symm, bool_eq_symm)
