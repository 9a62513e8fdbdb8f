-- ===== src/Diff/Lcs/Split.antt =====
-- The loop of `hirschberg` in go/diff.go that chooses where to split the second slice.
use jostraca.Common.{
  ℕ, zero, suc, ◌+◌, ◌≤◌, ◌<◌, ◌≡◌, refl, sym, ◌⊎◌, inl, inr, true, false, List, [], ◌∷◌, reverse,
  Option, none, some, arith, Bool-cases, leb, leb→le, length, take, drop,
}
use jostraca.Diff.Lcs.{Lines, lcs_row, pick, best_split}
use jostraca.Diff.Lcs.Length.{common_length}
use jostraca.Diff.Lcs.Table.{sum_at, sum_at_lem, row_lengths}

-- `best` stands above every sum of the lists.
abbrev AllBelow : List ℕ → List ℕ → Option ℕ → Type 0
AllBelow hs ts none = length hs ≡ 0
AllBelow hs ts (some b) = (j : ℕ) → j < length hs → sum_at hs ts j < b

-- `best` does not stand above the sum `s`.
abbrev Reaches : Option ℕ → ℕ → Type 0
Reaches none s = Unit
Reaches (some b) s = b ≤ s

-- Cell `i` holds the greatest sum, and is the last one that does.
pub record IsLastMax (n : ℕ) (f : ℕ → ℕ) (i : ℕ) : Type 0 where
  pub inside : i < n
  pub greatest : (j : ℕ) → j < n → f j ≤ f i
  pub last : (j : ℕ) → j < n → i < j → f j < f i

abbrev Won : ℕ → List ℕ → List ℕ → Option ℕ → ℕ → Type 0
Won k hs ts best r =
    (i : ℕ) × (r ≡ k + i) × Reaches best (sum_at hs ts i) × IsLastMax (length hs) (sum_at hs ts) i

module _ (h t : ℕ) (hs ts : List ℕ) where
  IsLastMax-zero :
      ((j : ℕ) → j < length hs → sum_at hs ts j < h + t)
      → IsLastMax (length (h ∷ hs)) (sum_at (h ∷ hs) (t ∷ ts)) 0
  unfolding sum_at
  IsLastMax-zero below = record {
    inside = omega arith;
    greatest = elim [ zero ↦ λ p. omega arith | suc j ↦ λ p. omega (arith, below j (omega arith)) ];
    last = elim [ zero ↦ λ p q. absurd (omega arith) | suc j ↦ λ p q. below j (omega arith) ];
  }

  IsLastMax-suc :
      (i : ℕ)
      → h + t ≤ sum_at hs ts i
      → IsLastMax (length hs) (sum_at hs ts) i
      → IsLastMax (length (h ∷ hs)) (sum_at (h ∷ hs) (t ∷ ts)) (suc i)
  unfolding sum_at
  IsLastMax-suc i le m = record {
    inside = let fact = m.inside in omega arith;
    greatest = elim [ zero ↦ λ p. le | suc j ↦ λ p. m.greatest j (omega arith) ];
    last = elim [
      | zero ↦ λ p q. absurd (omega arith)
      | suc j ↦ λ p q. m.last j (omega arith) (omega arith)
    ];
  }

abbrev Outcome : ℕ → List ℕ → List ℕ → Option ℕ → ℕ → ℕ → Type 0
Outcome k hs ts best split r = ((r ≡ split) × AllBelow hs ts best) ⊎ Won k hs ts best r

Reaches-mono : (best : Option ℕ) {s s' : ℕ} → Reaches best s → s ≤ s' → Reaches best s'
Reaches-mono none r le = tt
Reaches-mono (some b) r le = omega arith

-- The round that takes the sum of the two heads.
take_head :
    (k h t : ℕ) (hs ts : List ℕ) (best : Option ℕ) {r : ℕ}
    → Reaches best (h + t)
    → Outcome (k + 1) hs ts (some (h + t)) k r
    → Won k (h ∷ hs) (t ∷ ts) best r
unfolding sum_at
take_head k h t hs ts best reach (inl (e, below)) =
    (0, omega arith, reach, IsLastMax-zero h t hs ts below)
take_head k h t hs ts best reach (inr (i, e, le, m)) =
    (suc i, omega arith, Reaches-mono best reach le, IsLastMax-suc h t hs ts i le m)

-- The round that leaves it.
leave_head :
    (k h t b split : ℕ) (hs ts : List ℕ) {r : ℕ}
    → h + t < b
    → Outcome (k + 1) hs ts (some b) split r
    → Outcome k (h ∷ hs) (t ∷ ts) (some b) split r
unfolding sum_at
leave_head k h t b split hs ts lt (inl (e, below)) =
    inl (e, elim [ zero ↦ λ p. lt | suc j ↦ λ p. below j (omega arith) ])
leave_head k h t b split hs ts lt (inr (i, e, le, m)) =
    inr (suc i, omega arith, le, IsLastMax-suc h t hs ts i (omega arith) m)

pick-Outcome :
    (k : ℕ) (hs ts : List ℕ) (best : Option ℕ) (split : ℕ)
    → length hs ≡ length ts
    → Outcome k hs ts best split (pick k hs ts best split)
unfolding pick
pick-Outcome k [] ts none split e = inl (refl, refl)
pick-Outcome k [] ts (some b) split e = inl (refl, λ j p. absurd (omega arith))
pick-Outcome k (h ∷ hs) [] best split e = absurd (omega arith)
pick-Outcome k (h ∷ hs) (t ∷ ts) none split e =
    inr (take_head k h t hs ts none tt (pick-Outcome (k + 1) hs ts (some (h + t)) k (omega arith)))
pick-Outcome k (h ∷ hs) (t ∷ ts) (some b) split e = elim (Bool-cases (leb b (h + t))) [
  | inl won ↦ rw won (
      inr (
        take_head k h t hs ts (some b) (leb→le _ _ won)
          (pick-Outcome (k + 1) hs ts (some (h + t)) k (omega arith))))
  | inr lost ↦ rw lost (
      leave_head k h t b split hs ts (ground arith)
        (pick-Outcome (k + 1) hs ts (some b) split (omega arith)))
]

-- The lines of `upper` and the first `k` lines of `b`, with those of `lower` and the others.
unfoldable pub split_score : Lines → Lines → Lines → ℕ → ℕ
split_score upper lower b k = common_length upper (take k b) + common_length lower (drop k b)

IsLastMax-cong :
    (n n' i i' : ℕ) (f g : ℕ → ℕ)
    → n ≡ n'
    → i' ≡ i
    → ((k : ℕ) → k < n' → f k ≡ g k)
    → IsLastMax n f i
    → IsLastMax n' g i'
IsLastMax-cong n n' i i' f g en ei e m =
    let here : g i' ≡ f i = let hm = m.inside in rw ei (sym (e i (omega arith))) in
    record {
      inside = let hm = m.inside in omega arith;
      greatest = λ j p. omega (arith, here, e j p, m.greatest j (omega arith));
      last = λ j p q. omega (arith, here, e j p, m.last j (omega arith) (omega arith));
    }

-- The split that `hirschberg` chooses has the greatest sum of the two lengths, those of a longest
-- common subsequence of the first half with the lines in front of the split and of the second half
-- with the lines behind it, and of several such splits it is the largest.
pub best_split-IsLastMax :
    (upper lower b : Lines)
    → IsLastMax (length b + 1) (split_score upper lower b) (best_split upper lower b)
unfolding best_split split_score
best_split-IsLastMax upper lower b =
    let (heads, tails) = row_lengths upper lower b in
    elim (pick-Outcome 0 (lcs_row upper b false) (reverse (lcs_row lower b true)) none 0
      (omega arith)) [
        | inl (e, empty) ↦ absurd (omega arith)
        | inr (i, e, le, m) ↦
            IsLastMax-cong _ _ i _ _ _ heads (omega arith)
              (λ k lt. sum_at_lem upper lower b k (omega arith)) m
      ]
