-- ===== src/Js/Order.antt =====
-- The order of JavaScript on strings, `jsLess` of go/jsvalue.go, as an order on bytes.
use jostraca.Common.{
  ℕ, ◌+◌, ◌-◌, ◌<◌, ◌≡◌, refl, inl, inr, ◌⊎◌, Bool, true, false, [], ◌∷◌, Bytes, ltb, leb, ◌==◌,
  if◌then◌else◌, Bool-cases, map, arith,
}
use jostraca.Fs.Mem.Listing.{lead_less, js_less}

-- The place of a byte: the leads of the characters from U+E000 to U+FFFF, 238 and 239, come behind
-- those of the characters from U+10000 up.
unfoldable pub place : ℕ → ℕ
place c = if leb 240 c then c - 2 else if leb 238 c then c + 16 else c

-- The lexicographic order, a prefix first.
unfoldable pub lex_less : Bytes → Bytes → Bool
lex_less [] [] = false
lex_less [] (y ∷ b) = true
lex_less (x ∷ a) [] = false
lex_less (x ∷ a) (y ∷ b) = let rest = lex_less a b in if x == y then rest else ltb x y

abbrev pub AreBytes : Bytes → Type 0
AreBytes [] = Unit
AreBytes (c ∷ s) = (c < 256) × AreBytes s

lead_less-place :
    (x y : ℕ) → x < 256 → y < 256 → (x ≡ y → ⊥) → lead_less x y ≡ ltb (place x) (place y)
unfolding place
lead_less-place x y h k ne = ground arith

place-injective : (x y : ℕ) → x < 256 → y < 256 → (x == y) ≡ (place x == place y)
unfolding place
place-injective x y h k = ground arith

-- On bytes the order is the lexicographic one by the place of a byte.
pub js_less-lex_less :
    (a b : Bytes) → AreBytes a → AreBytes b → js_less a b ≡ lex_less (map place a) (map place b)
unfolding js_less lex_less
js_less-lex_less [] [] h k = refl
js_less-lex_less [] (y ∷ b) h k = refl
js_less-lex_less (x ∷ a) [] h k = refl
js_less-lex_less (x ∷ a) (y ∷ b) (hx, h) (ky, k) = elim (Bool-cases (x == y)) [
  | inl e ↦ ground (arith, js_less-lex_less a b h k, place-injective x y hx ky)
  | inr e ↦ ground (arith, lead_less-place x y hx ky (ground arith), place-injective x y hx ky)
]

-- Of two texts they are one, or exactly one of them is less.
abbrev pub Compares : Bytes → Bytes → Type 0
Compares a b =
    ((a ≡ b) × (js_less a b ≡ false))
    ⊎ ((js_less a b ≡ true) × (js_less b a ≡ false))
    ⊎ ((js_less a b ≡ false) × (js_less b a ≡ true))

pub compares : (a b : Bytes) → Compares a b
unfolding js_less
compares [] [] = inl (refl, refl)
compares [] (y ∷ b) = inr (inl (refl, refl))
compares (x ∷ a) [] = inr (inr (refl, refl))
compares (x ∷ a) (y ∷ b) = ground (arith, compares a b)

-- The order of two bytes that differ, with what proofs use of it.
lead : ℕ → ℕ → Bool
lead x y = lead_less x y

lead_trans : (x y z : ℕ) → lead x y ≡ true → lead y z ≡ true → lead x z ≡ true
unfolding lead
lead_trans x y z h k = ground arith

lead_asymm : (x y : ℕ) → lead x y ≡ true → lead y x ≡ false
unfolding lead
lead_asymm x y h = ground arith

js_less-cons :
    (x y : ℕ) (a b : Bytes) → js_less (x ∷ a) (y ∷ b) ≡ (if x == y then js_less a b else lead x y)
unfolding js_less lead
js_less-cons x y a b = refl

pub js_less_trans : (a b c : Bytes) → js_less a b ≡ true → js_less b c ≡ true → js_less a c ≡ true
js_less_trans [] [] c h k = unfold js_less in absurd (cc)
js_less_trans [] (y ∷ b) [] h k = unfold js_less in absurd (cc)
js_less_trans [] (y ∷ b) (z ∷ c) h k = unfold js_less in refl
js_less_trans (x ∷ a) [] c h k = unfold js_less in absurd (cc)
js_less_trans (x ∷ a) (y ∷ b) [] h k = unfold js_less in absurd (cc)
js_less_trans (x ∷ a) (y ∷ b) (z ∷ c) h k = ground (
  arith,
  js_less-cons x y a b,
  js_less-cons y z b c,
  js_less-cons x z a c,
  js_less_trans a b c,
  lead_trans x y z,
  lead_asymm x y,
)
