-- ===== src/Tests/InsertionSort.antt =====
-- A sort that keeps the promise of `sort.Slice`, for the tests of the order of keys.
use jostraca.Common.{
  ◌≡◌, refl, sym, ◌⊎◌, inl, inr, Bool, true, false, List, [], ◌∷◌, Bytes, if◌then◌else◌, Bool-cases,
  arith,
}
use mathlib.Core.List.{Memᴰ}
use mathlib.Core.List.Memᴰ
use mathlib.Core.Path.{subst}
use jostraca.Fs.Mem.Listing.{js_less}
use jostraca.Js.Order.{compares, js_less_trans}
use jostraca.Js.Keys.{Sort, Sorts, Distinct, Ordered, index_less}

insert : (Bytes → Bytes → Bool) → Bytes → List Bytes → List Bytes
insert less x [] = x ∷ []
insert less x (y ∷ ys) = let rest = insert less x ys in if less y x then y ∷ rest else x ∷ y ∷ ys

unfoldable pub insertion_sort : Sort
unfolding insert
insertion_sort less [] = []
insertion_sort less (x ∷ xs) = insert less x (insertion_sort less xs)

module _ (less : Bytes → Bytes → Bool) where
  -- An element behind the key `y` is `y`, or one of which the rest is known.
  behind :
      (x y : Bytes) (ys rest : List Bytes) (a : Bytes)
      → (Memᴰ a rest → (a ≡ x) ⊎ Memᴰ a ys)
      → Memᴰ a (y ∷ rest)
      → (a ≡ x) ⊎ Memᴰ a (y ∷ ys)
  behind x y ys rest a ih (Memᴰ.head e) = inr (Memᴰ.head e)
  behind x y ys rest a ih (Memᴰ.tail m) = elim (ih m) [ inl e ↦ inl e | inr n ↦ inr (Memᴰ.tail n) ]

  insert-mem :
      (x : Bytes) (ys : List Bytes) (a : Bytes) → Memᴰ a (insert less x ys) → (a ≡ x) ⊎ Memᴰ a ys
  unfolding insert
  insert-mem x [] a m = Memᴰ.cases_cons m
  insert-mem x (y ∷ ys) a m = elim (Bool-cases (less y x)) [
    | inl e ↦ behind x y ys (insert less x ys) a (insert-mem x ys a) (rw e at m)
    | inr e ↦ Memᴰ.cases_cons (rw e at m)
  ]

  mem-insert_head : (x : Bytes) (ys : List Bytes) → Memᴰ x (insert less x ys)
  unfolding insert
  mem-insert_head x [] = Memᴰ.head refl
  mem-insert_head x (y ∷ ys) = elim (Bool-cases (less y x)) [
    | inl e ↦ rw e (Memᴰ.tail (mem-insert_head x ys))
    | inr e ↦ rw e (Memᴰ.head refl)
  ]

  mem-insert : (x : Bytes) (ys : List Bytes) (a : Bytes) → Memᴰ a ys → Memᴰ a (insert less x ys)
  unfolding insert
  mem-insert x [] a m = Memᴰ.tail m
  mem-insert x (y ∷ ys) a (Memᴰ.head h) = elim (Bool-cases (less y x)) [
    | inl e ↦ rw e (Memᴰ.head h)
    | inr e ↦ rw e (Memᴰ.tail (Memᴰ.head h))
  ]
  mem-insert x (y ∷ ys) a (Memᴰ.tail m) = elim (Bool-cases (less y x)) [
    | inl e ↦ rw e (Memᴰ.tail (mem-insert x ys a m))
    | inr e ↦ rw e (Memᴰ.tail (Memᴰ.tail m))
  ]

  sort-mem : (xs : List Bytes) (a : Bytes) → Memᴰ a (insertion_sort less xs) → Memᴰ a xs
  unfolding insertion_sort
  sort-mem [] a m = m
  sort-mem (x ∷ xs) a m = elim (insert-mem x (insertion_sort less xs) a m) [
    | inl e ↦ Memᴰ.head e
    | inr n ↦ Memᴰ.tail (sort-mem xs a n)
  ]

  mem-sort : (xs : List Bytes) (a : Bytes) → Memᴰ a xs → Memᴰ a (insertion_sort less xs)
  unfolding insertion_sort
  mem-sort [] a m = m
  mem-sort (x ∷ xs) a (Memᴰ.head e) =
      subst (λ k. Memᴰ k (insertion_sort less (x ∷ xs))) (sym e)
        (mem-insert_head x (insertion_sort less xs))
  mem-sort (x ∷ xs) a (Memᴰ.tail m) = mem-insert x (insertion_sort less xs) a (mem-sort xs a m)

  insert-Distinct :
      (x : Bytes) (ys : List Bytes) → ¬ (Memᴰ x ys) → Distinct ys → Distinct (insert less x ys)
  unfolding insert
  insert-Distinct x [] n d = (n, d)
  insert-Distinct x (y ∷ ys) n (ny, d) = elim (Bool-cases (less y x)) [
    | inl e ↦ rw e (
      λ m. elim (insert-mem x ys y m) [ inl f ↦ n (Memᴰ.head (sym f)) | inr k ↦ ny k ],
      insert-Distinct x ys (λ k. n (Memᴰ.tail k)) d,
    )
    | inr e ↦ rw e (n, (ny, d))
  ]

  sort-Distinct : (xs : List Bytes) → Distinct xs → Distinct (insertion_sort less xs)
  unfolding insertion_sort
  sort-Distinct [] d = d
  sort-Distinct (x ∷ xs) (n, d) =
      insert-Distinct x (insertion_sort less xs) (λ m. n (sort-mem xs x m)) (sort-Distinct xs d)

  module _ (asymm : (a b : Bytes) → less a b ≡ true → less b a ≡ false)
      (between : (a b c : Bytes) → less a b ≡ false → less b c ≡ false → less a c ≡ false) where
    insert-Ordered :
        (x : Bytes) (ys : List Bytes) → Ordered less ys → Ordered less (insert less x ys)
    unfolding insert
    insert-Ordered x [] o = (λ b m. elim m [ ], tt)
    insert-Ordered x (y ∷ ys) (l, o) = elim (Bool-cases (less y x)) [
      | inl e ↦ rw e (
        λ b m. elim (insert-mem x ys b m) [ inl f ↦ rw f (asymm y x e) | inr k ↦ l b k ],
        insert-Ordered x ys o,
      )
      | inr e ↦ rw e (
        λ b m. elim (Memᴰ.cases_cons m) [ inl f ↦ rw f e | inr k ↦ between b y x (l b k) e ],
        (l, o),
      )
    ]

    sort-Ordered : (xs : List Bytes) → Ordered less (insertion_sort less xs)
    unfolding insertion_sort
    sort-Ordered [] = tt
    sort-Ordered (x ∷ xs) = insert-Ordered x (insertion_sort less xs) (sort-Ordered xs)

    pub insertion_sort-Sorts : Sorts insertion_sort less
    insertion_sort-Sorts = record {
      same = λ xs. (sort-mem xs, mem-sort xs);
      distinct = sort-Distinct;
      ordered = sort-Ordered;
    }

pub by_index : Sorts insertion_sort index_less
by_index = insertion_sort-Sorts index_less (λ a b h. ground arith) (λ a b c h k. ground arith)

pub by_text : Sorts insertion_sort js_less
by_text = insertion_sort-Sorts js_less asymm between
  where
    asymm : (a b : Bytes) → js_less a b ≡ true → js_less b a ≡ false
    asymm a b h = ground (arith, compares a b)

    between : (a b c : Bytes) → js_less a b ≡ false → js_less b c ≡ false → js_less a c ≡ false
    between a b c h k =
        ground (arith, compares a b, compares b c, compares a c, js_less_trans c b a)
