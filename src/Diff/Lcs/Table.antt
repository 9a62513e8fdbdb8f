-- ===== src/Diff/Lcs/Table.antt =====
-- `lcsRow` of go/diff.go against the textbook recursion: cell `j` of the row for `a` and `b` is
-- the length for `a` and the first `j` lines of `b`.
use mathlib.Core.List.{reverse-reverse, reverse-cons, reverse-append}
use native.Mathlib.Numerals.{add-one}
use jostraca.Common.{
  ℕ, zero, suc, ◌+◌, ◌≤◌, ◌≡◌, refl, ap, true, false, List, [], ◌∷◌, ◌++◌, reverse, append-nil,
  append_assoc, arith, Bytes, bytes_eq, if◌then◌else◌, leb, length, length-reverse, take, drop,
  replicate,
}
use jostraca.Diff.Lcs.{Lines, fill, next_row, rows, lcs_row}
use jostraca.Diff.Lcs.Length.{common_length, common_length-reverse}

pub reverse_cons_append {ℓ} :
    {A : Type ℓ} (x : A) (xs ys : List A) → reverse (x ∷ xs) ++ ys ≡ reverse xs ++ x ∷ ys
reverse_cons_append x xs ys = rw (reverse-cons x xs) (append_assoc (reverse xs) (x ∷ []) ys)

-- The cells behind the first, for the read part `rb` and the unread part `b` of the second slice;
-- both read parts stand with their last line first.
cells : Lines → Lines → Lines → List ℕ
cells ra rb [] = []
cells ra rb (y ∷ b) = common_length ra (y ∷ rb) ∷ cells ra (y ∷ rb) b

pub row : Lines → Lines → Lines → List ℕ
row ra rb b = common_length ra rb ∷ cells ra rb b

cell-step :
    (x y : Bytes) (ra rb : Lines)
    → (if bytes_eq x y
        then common_length ra rb + 1
        else if leb (common_length (x ∷ ra) rb) (common_length ra (y ∷ rb))
        then common_length ra (y ∷ rb)
        else common_length (x ∷ ra) rb)
      ≡ common_length (x ∷ ra) (y ∷ rb)
unfolding common_length
cell-step x y ra rb = ground arith

fill-cells :
    (x : Bytes) (ra rb b : Lines)
    → fill x b (common_length ra rb) (cells ra rb b) (common_length (x ∷ ra) rb)
      ≡ cells (x ∷ ra) rb b
unfolding fill cells
fill-cells x ra rb [] = refl
fill-cells x ra rb (y ∷ b) = rw (cell-step x y ra rb, fill-cells x ra (y ∷ rb) b)

common_length-nil : (a : Lines) → common_length a [] ≡ 0
unfolding common_length
common_length-nil [] = refl
common_length-nil (x ∷ a) = refl

next_row-row : (x : Bytes) (ra b : Lines) → next_row x b (row ra [] b) ≡ row (x ∷ ra) [] b
unfolding next_row row
next_row-row x ra b =
    let zeroes : common_length (x ∷ ra) [] ≡ 0 = common_length-nil (x ∷ ra) in
    cc (zeroes, fill-cells x ra [] b)

rows-row : (a ra b : Lines) → rows a b (row ra [] b) ≡ row (reverse a ++ ra) [] b
unfolding rows
rows-row [] ra b = refl
rows-row (x ∷ a) ra b = rw (next_row-row x ra b, reverse_cons_append x a ra) (rows-row a (x ∷ ra) b)

zero_row : (rb b : Lines) → replicate (suc (length b)) 0 ≡ row [] rb b
unfolding row cells common_length
zero_row rb [] = refl
zero_row rb (y ∷ b) = ap (λ t. 0 ∷ t) (zero_row (y ∷ rb) b)

pub lcs_row_forward : (a b : Lines) → lcs_row a b false ≡ row (reverse a) [] b
unfolding lcs_row
lcs_row_forward a b =
    rw (add-one (length b), zero_row [] b) (rw (append-nil (reverse a)) at (rows-row a [] b))

pub lcs_row-reverse : (a b : Lines) → lcs_row a b true ≡ row a [] (reverse b)
unfolding lcs_row
lcs_row-reverse a b =
    rw (add-one (length b), ← length-reverse b, zero_row [] (reverse b))
      (rw (append-nil (reverse (reverse a)), reverse-reverse a) at
        (rows-row (reverse a) [] (reverse b)))

-- The lengths for `a` and each rest of `b`, which is the reversed tail row.
pub suffixes : Lines → Lines → List ℕ
suffixes a [] = common_length a [] ∷ []
suffixes a (y ∷ b) = common_length a (y ∷ b) ∷ suffixes a b

cells-append :
    (a rb c : Lines) (y : Bytes)
    → cells a rb (c ++ y ∷ []) ≡ cells a rb c ++ common_length a (y ∷ (reverse c ++ rb)) ∷ []
unfolding cells
cells-append a rb [] y = refl
cells-append a rb (z ∷ c) y = rw (cells-append a (z ∷ rb) c y, reverse_cons_append z c rb)

row_last :
    (a b : Lines) (y : Bytes)
    → row a [] (reverse (y ∷ b)) ≡ row a [] (reverse b) ++ common_length a (y ∷ b) ∷ []
unfolding row
row_last a b y =
    rw (reverse-cons y b, cells-append a [] (reverse b) y, append-nil, reverse-reverse b)

pub reverse-row : (a b : Lines) → reverse (row a [] (reverse b)) ≡ suffixes a b
unfolding suffixes
reverse-row a [] = unfold row cells in refl
reverse-row a (y ∷ b) = rw (row_last a b y, reverse-append, reverse-row a b)

-- Cell by cell, the sum that `hirschberg` maximises.
unfoldable pub sum_at : List ℕ → List ℕ → ℕ → ℕ
sum_at [] ts i = 0
sum_at (h ∷ hs) [] i = 0
sum_at (h ∷ hs) (t ∷ ts) zero = h + t
sum_at (h ∷ hs) (t ∷ ts) (suc i) = sum_at hs ts i

sum_at-row :
    (ra rb a b : Lines) (k : ℕ)
    → k ≤ length b
    → sum_at (row ra rb b) (suffixes a b) k
      ≡ common_length ra (reverse (take k b) ++ rb) + common_length a (drop k b)
unfolding sum_at row cells suffixes
sum_at-row ra rb a [] zero h = refl
sum_at-row ra rb a [] (suc k) h = absurd (omega arith)
sum_at-row ra rb a (y ∷ b) zero h = refl
sum_at-row ra rb a (y ∷ b) (suc k) h =
    rw (reverse_cons_append y (take k b) rb) (sum_at-row ra (y ∷ rb) a b k (omega arith))

pub sum_at_lem :
    (upper lower b : Lines) (k : ℕ)
    → k ≤ length b
    → sum_at (lcs_row upper b false) (reverse (lcs_row lower b true)) k
      ≡ common_length upper (take k b) + common_length lower (drop k b)
sum_at_lem upper lower b k h =
    rw (lcs_row_forward upper b, lcs_row-reverse lower b, reverse-row lower b)
      (omega (
        arith,
        rw (append-nil (reverse (take k b))) at (sum_at-row (reverse upper) [] lower b k h),
        common_length-reverse upper (take k b),
      ))

cells-length : (ra rb b : Lines) → length (cells ra rb b) ≡ length b
unfolding cells
cells-length ra rb [] = refl
cells-length ra rb (y ∷ b) = ap suc (cells-length ra (y ∷ rb) b)

suffixes-length : (a b : Lines) → length (suffixes a b) ≡ suc (length b)
unfolding suffixes
suffixes-length a [] = refl
suffixes-length a (y ∷ b) = ap suc (suffixes-length a b)

pub row_lengths :
    (upper lower b : Lines)
    → (length (lcs_row upper b false) ≡ length b + 1)
      × (length (reverse (lcs_row lower b true)) ≡ length b + 1)
unfolding row
row_lengths upper lower b =
    rw (lcs_row_forward upper b, lcs_row-reverse lower b, reverse-row lower b)
      (omega (arith, cells-length (reverse upper) [] b), omega (arith, suffixes-length lower b))
