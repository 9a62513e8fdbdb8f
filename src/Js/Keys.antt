-- ===== src/Js/Keys.antt =====
-- `jsKeyOrder` of go/util.go: the keys of a map, the array indices first. `sort` is `sort.Slice`.
use jostraca.Common.{
  ℕ, ◌+◌, ◌≡◌, ◌≢◌, refl, sym, ap, ◌∙◌, ◌⊎◌, inl, inr, Bool, true, false, not, List, [], ◌∷◌, ◌++◌,
  some, Bytes, ltb, if◌then◌else◌, Bool-cases, arith,
}
use mathlib.Core.List.{Memᴰ}
use mathlib.Core.Path.{subst}
use jostraca.Fs.Mem.Listing.{js_less}
use jostraca.Js.Index.{parse_digits, is_array_index_key, js_index, js_index-injective}
use jostraca.Js.Order.{compares}

abbrev pub Sort : Type 0
Sort = (Bytes → Bytes → Bool) → List Bytes → List Bytes

abbrev pub index_less : Bytes → Bytes → Bool
index_less a b = ltb (parse_digits 0 a) (parse_digits 0 b)

-- A part of the keys, as the loop collects it.
unfoldable pub keep_keys : (Bytes → Bool) → List Bytes → List Bytes
keep_keys f [] = []
keep_keys f (k ∷ ks) = let rest = keep_keys f ks in if f k then k ∷ rest else rest

abbrev pub is_other_key : Bytes → Bool
is_other_key k = not (is_array_index_key k)

unfoldable pub key_order : Sort → List Bytes → List Bytes
unfolding keep_keys
key_order sort ks =
    sort index_less (keep_keys is_array_index_key ks) ++ sort js_less (keep_keys is_other_key ks)

abbrev pub SameKeys : List Bytes → List Bytes → Type 0
SameKeys xs ys = ((a : Bytes) → Memᴰ a xs → Memᴰ a ys) × ((a : Bytes) → Memᴰ a ys → Memᴰ a xs)

-- No key stands in a list twice.
abbrev pub Distinct : List Bytes → Type 0
Distinct [] = Unit
Distinct (x ∷ xs) = (¬ (Memᴰ x xs)) × Distinct xs

-- No key is less than one in front of it.
abbrev pub Ordered : (Bytes → Bytes → Bool) → List Bytes → Type 0
Ordered less [] = Unit
Ordered less (x ∷ xs) = ((y : Bytes) → Memᴰ y xs → less y x ≡ false) × Ordered less xs

-- What `sort.Slice` promises of an order.
pub record Sorts (sort : Sort) (less : Bytes → Bytes → Bool) : Type 0 where
  pub same : (xs : List Bytes) → SameKeys (sort less xs) xs
  pub distinct : (xs : List Bytes) → Distinct xs → Distinct (sort less xs)
  pub ordered : (xs : List Bytes) → Ordered less (sort less xs)

-- Keys of one list, of which none is less than another, are one.
abbrev Tells : (Bytes → Bytes → Bool) → List Bytes → Type 0
Tells less xs = (a b : Bytes) → Memᴰ a xs → Memᴰ b xs → less a b ≡ false → less b a ≡ false → a ≡ b

-- What is in a list that begins with another key is in its tail.
in_tail : (a y : Bytes) (ys : List Bytes) → Memᴰ a (y ∷ ys) → a ≢ y → Memᴰ a ys
in_tail a y ys (Memᴰ.head e) ne = absurd (ne e)
in_tail a y ys (Memᴰ.tail m) ne = m

tail_same :
    (x y : Bytes) (xs ys : List Bytes)
    → x ≡ y
    → ¬ (Memᴰ x xs)
    → ((a : Bytes) → Memᴰ a (x ∷ xs) → Memᴰ a (y ∷ ys))
    → (a : Bytes) → Memᴰ a xs
    → Memᴰ a ys
tail_same x y xs ys e nx there a m =
    in_tail a y ys (there a (Memᴰ.tail m)) (λ f. nx (subst (λ k. Memᴰ k xs) (f ∙ sym e) m))

-- A key of an ordered list is its first, or is not less than it.
first :
    (less : Bytes → Bytes → Bool) (a y : Bytes) (ys : List Bytes)
    → ((b : Bytes) → Memᴰ b ys → less b y ≡ false)
    → Memᴰ a (y ∷ ys)
    → (a ≡ y) ⊎ (less a y ≡ false)
first less a y ys ly (Memᴰ.head e) = inl e
first less a y ys ly (Memᴰ.tail m) = inr (ly a m)

Ordered-unique :
    (less : Bytes → Bytes → Bool) (xs ys : List Bytes)
    → Tells less xs
    → Distinct xs
    → Distinct ys
    → Ordered less xs
    → Ordered less ys
    → SameKeys xs ys
    → xs ≡ ys
Ordered-unique less [] [] tells dx dy ox oy same = refl
Ordered-unique less [] (y ∷ ys) tells dx dy ox oy same = elim (same.1 y (Memᴰ.head refl)) [ ]
Ordered-unique less (x ∷ xs) [] tells dx dy ox oy same = elim (same.0 x (Memᴰ.head refl)) [ ]
Ordered-unique less (x ∷ xs) (y ∷ ys) tells (nx, dx) (ny, dy) (lx, ox) (ly, oy) (there, back) =
    let heads : x ≡ y = elim (first less x y ys ly (there x (Memᴰ.head refl))) [
      | inl e ↦ e
      | inr le ↦ elim (first less y x xs lx (back y (Memᴰ.head refl))) [
        | inl e ↦ sym e
        | inr ge ↦ tells x y (Memᴰ.head refl) (back y (Memᴰ.head refl)) le ge
      ]
    ] in
    let tails =
      Ordered-unique less xs ys (λ a b m n. tells a b (Memᴰ.tail m) (Memᴰ.tail n)) dx dy ox oy
        (tail_same x y xs ys heads nx there, tail_same y x ys xs (sym heads) ny back) in
    cc

-- A sort by an order that tells the keys apart does not depend on how they stood before.
sort_unique :
    (sort : Sort) (less : Bytes → Bytes → Bool) (xs ys : List Bytes)
    → Sorts sort less
    → Tells less xs
    → Distinct xs
    → Distinct ys
    → SameKeys xs ys
    → sort less xs ≡ sort less ys
sort_unique sort less xs ys sorts tells dx dy (there, back) =
    let (from, to) = sorts.same xs in
    let (from', to') = sorts.same ys in
    Ordered-unique less (sort less xs) (sort less ys) (λ a b m n. tells a b (from a m) (from b n))
      (sorts.distinct xs dx) (sorts.distinct ys dy) (sorts.ordered xs) (sorts.ordered ys)
      (λ a m. to' a (there a (from a m)), λ a m. to a (back a (from' a m)))

js_less-tells : (a b : Bytes) → js_less a b ≡ false → js_less b a ≡ false → a ≡ b
js_less-tells a b h k = elim (compares a b) [
  | inl (e, f) ↦ e
  | inr (inl (l, g)) ↦ absurd (cc)
  | inr (inr (l, g)) ↦ absurd (cc)
]

index_less-tells :
    (a b : Bytes)
    → is_array_index_key a ≡ true
    → is_array_index_key b ≡ true
    → index_less a b ≡ false
    → index_less b a ≡ false
    → a ≡ b
unfolding js_index
index_less-tells a b h k le ge =
    let i = parse_digits 0 a in
    let same : parse_digits 0 b ≡ i = ground (arith, le, ge) in
    (js_index-injective a b (i + 1) (i + 1) i (read a i h refl) (read b i k same)).2
  where
    read :
        (k : Bytes) (i : ℕ)
        → is_array_index_key k ≡ true
        → parse_digits 0 k ≡ i
        → js_index k (i + 1) ≡ some i
    read k i h e = rw (h, e) (ground arith)

-- An element behind a key that passes is that key, or one of which the rest is known.
behind_kept :
    (f : Bytes → Bool) (k : Bytes) (ks rest : List Bytes) (a : Bytes)
    → f k ≡ true
    → (Memᴰ a rest → Memᴰ a ks × (f a ≡ true))
    → Memᴰ a (k ∷ rest)
    → Memᴰ a (k ∷ ks) × (f a ≡ true)
behind_kept f k ks rest a e ih (Memᴰ.head h) = (Memᴰ.head h, ap f h ∙ e)
behind_kept f k ks rest a e ih (Memᴰ.tail m) = let (n, h) = ih m in (Memᴰ.tail n, h)

keep_keys-mem :
    (f : Bytes → Bool) (ks : List Bytes) (a : Bytes)
    → Memᴰ a (keep_keys f ks)
    → Memᴰ a ks × (f a ≡ true)
unfolding keep_keys
keep_keys-mem f [] a m = elim m [ ]
keep_keys-mem f (k ∷ ks) a m = elim (Bool-cases (f k)) [
  | inl e ↦ behind_kept f k ks (keep_keys f ks) a e (keep_keys-mem f ks a) (rw e at m)
  | inr e ↦ let (n, h) = keep_keys-mem f ks a (rw e at m) in (Memᴰ.tail n, h)
]

mem-keep_keys :
    (f : Bytes → Bool) (ks : List Bytes) (a : Bytes)
    → Memᴰ a ks
    → f a ≡ true
    → Memᴰ a (keep_keys f ks)
unfolding keep_keys
mem-keep_keys f [] a m h = elim m [ ]
mem-keep_keys f (k ∷ ks) a (Memᴰ.head e) h = rw (← e) (rw h (Memᴰ.head refl))
mem-keep_keys f (k ∷ ks) a (Memᴰ.tail m) h = elim (Bool-cases (f k)) [
  | inl e ↦ rw e (Memᴰ.tail (mem-keep_keys f ks a m h))
  | inr e ↦ rw e (mem-keep_keys f ks a m h)
]

keep_keys-Distinct : (f : Bytes → Bool) (ks : List Bytes) → Distinct ks → Distinct (keep_keys f ks)
unfolding keep_keys
keep_keys-Distinct f [] d = tt
keep_keys-Distinct f (k ∷ ks) (n, d) = elim (Bool-cases (f k)) [
  | inl e ↦ rw e (λ m. n (keep_keys-mem f ks k m).0, keep_keys-Distinct f ks d)
  | inr e ↦ rw e (keep_keys-Distinct f ks d)
]

keep_keys-same :
    (f : Bytes → Bool) (xs ys : List Bytes)
    → SameKeys xs ys
    → SameKeys (keep_keys f xs) (keep_keys f ys)
keep_keys-same f xs ys (there, back) = (
  λ a m. let (n, h) = keep_keys-mem f xs a m in mem-keep_keys f ys a (there a n) h,
  λ a m. let (n, h) = keep_keys-mem f ys a m in mem-keep_keys f xs a (back a n) h,
)

-- The order of the keys of a map does not depend on the order in which Go ranges over the map: lists
-- with the same keys, none of them twice, come out alike, for a sort that keeps its promise.
pub key_order_unique :
    (sort : Sort) (xs ys : List Bytes)
    → Sorts sort index_less
    → Sorts sort js_less
    → Distinct xs
    → Distinct ys
    → SameKeys xs ys
    → key_order sort xs ≡ key_order sort ys
unfolding key_order
key_order_unique sort xs ys by_index by_text dx dy same =
    let indices =
      sort_unique sort index_less (keep_keys is_array_index_key xs)
        (keep_keys is_array_index_key ys) by_index
        (λ a b m n.
          index_less-tells a b (keep_keys-mem is_array_index_key xs a m).1
            (keep_keys-mem is_array_index_key xs b n).1)
        (keep_keys-Distinct is_array_index_key xs dx) (keep_keys-Distinct is_array_index_key ys dy)
        (keep_keys-same is_array_index_key xs ys same) in
    let texts =
      sort_unique sort js_less (keep_keys is_other_key xs) (keep_keys is_other_key ys) by_text
        (λ a b m n. js_less-tells a b) (keep_keys-Distinct is_other_key xs dx)
        (keep_keys-Distinct is_other_key ys dy) (keep_keys-same is_other_key xs ys same) in
    λ i. indices i ++ texts i
