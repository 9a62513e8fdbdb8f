-- ===== src/Diff/Lcs.antt =====
-- `LCS`, `hirschberg` and `lcsRow` of go/diff.go. A line is its bytes; a slice is a list.
pub mod Sub
pub mod Length
pub mod Table
pub mod Split
pub mod Optimal
pub mod Trim
use jostraca.Common.{
  ℕ, zero, suc, ◌+◌, ◌-◌, ◌/◌, Bool, true, false, List, [], ◌∷◌, ◌++◌, reverse, Option, none, some,
  Bytes, bytes_eq, leb, if◌then◌else◌, length, take, drop, slice, replicate,
}

abbrev pub Lines : Type 0
Lines = List Bytes

-- The loop that counts equal lines from the front.
pub common_head : Lines → Lines → ℕ
common_head [] b = 0
common_head (x ∷ a) [] = 0
common_head (x ∷ a) (y ∷ b) = let rest = suc (common_head a b) in if bytes_eq x y then rest else 0

-- The inner loop of `lcsRow`: `p` is `prev[j]`, `q` is `prev[j+1]` and `left` is `cur[j]`.
pub fill : Bytes → Lines → ℕ → List ℕ → ℕ → List ℕ
fill x [] p ps left = []
fill x (y ∷ b) p [] left = []
fill x (y ∷ b) p (q ∷ ps) left =
    let c = if bytes_eq x y then p + 1 else if leb left q then q else left in c ∷ fill x b q ps c

-- One round of the outer loop: the row `prev` gives the row `cur`, whose first cell is 0.
pub next_row : Bytes → Lines → List ℕ → List ℕ
unfolding fill
next_row x b [] = []
next_row x b (p ∷ ps) = 0 ∷ fill x b p ps 0

pub rows : Lines → Lines → List ℕ → List ℕ
unfolding next_row
rows [] b prev = prev
rows (x ∷ a) b prev = rows a b (next_row x b prev)

-- With `reverse` both slices are read from the back.
pub lcs_row : Lines → Lines → Bool → List ℕ
unfolding rows
lcs_row a b true = rows (reverse a) (reverse b) (replicate (length b + 1) 0)
lcs_row a b false = rows a b (replicate (length b + 1) 0)

-- `sum >= best`, where `best` starts at -1, which is `none`.
abbrev pub beats : ℕ → Option ℕ → Bool
beats sum none = true
beats sum (some best) = leb best sum

-- The loop over `k`: cell `k` of the head row is added to cell `len(b)-k` of the tail row, which
-- is cell `k` of its reverse.
pub pick : ℕ → List ℕ → List ℕ → Option ℕ → ℕ → ℕ
pick k [] ts best split = split
pick k (h ∷ hs) [] best split = split
pick k (h ∷ hs) (t ∷ ts) best split =
    let won = beats (h + t) best in
    pick (k + 1) hs ts (if won then some (h + t) else best) (if won then k else split)

pub best_split : Lines → Lines → Lines → ℕ
unfolding pick lcs_row
best_split upper lower b = pick 0 (lcs_row upper b false) (reverse (lcs_row lower b true)) none 0

-- The scan for a single line.
pub occurs : Bytes → Lines → Bool
occurs x [] = false
occurs x (y ∷ b) = let rest = occurs x b in if bytes_eq y x then true else rest

-- The fuel bounds the depth of the halving; the length of `a` is enough.
pub hirschberg : ℕ → Lines → Lines → Lines → Lines
unfolding best_split occurs
hirschberg zero a b out = out
hirschberg (suc n) [] b out = out
hirschberg (suc n) (x ∷ a) [] out = out
hirschberg (suc n) (x ∷ []) (y ∷ b) out = if occurs x (reverse (y ∷ b)) then out ++ x ∷ [] else out
hirschberg (suc n) (x ∷ x' ∷ a) (y ∷ b) out =
    let whole = x ∷ x' ∷ a in
    let mid = length whole / 2 in
    let split = best_split (take mid whole) (drop mid whole) (y ∷ b) in
    hirschberg n (drop mid whole) (drop split (y ∷ b))
      (hirschberg n (take mid whole) (take split (y ∷ b)) out)

unfoldable pub lcs : Lines → Lines → Lines
unfolding common_head hirschberg
lcs [] b = []
lcs (x ∷ a) [] = []
lcs (x ∷ a) (y ∷ b) =
    let a' = x ∷ a in
    let b' = y ∷ b in
    let head = common_head a' b' in
    let tail = common_head (reverse (drop head a')) (reverse (drop head b')) in
    let core = slice head (length a' - tail) a' in
    hirschberg (length core) core (slice head (length b' - tail) b') (take head a')
    ++ drop (length a' - tail) a'
