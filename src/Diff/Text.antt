-- ===== src/Diff/Text.antt =====
-- `Lines` of go/diff.go, and `strings.Join` with an empty separator, which undoes it.
use mathlib.Core.Option
use native.Mathlib.Nat.{suc-add}
use jostraca.Common.{
  ℕ, zero, suc, ◌+◌, ◌≤◌, ◌≡◌, ◌≢◌, refl, sym, ap, ◌∙◌, ◌⊎◌, inl, inr, Bool, true, false, [], ◌∷◌,
  ◌++◌, append_assoc, append-nil, Option, none, some, arith, Bytes, ◌==◌, if◌then◌else◌, Bool-cases,
  Option-cases, length, take, drop, length-append,
}
use jostraca.Diff.Lcs.{Lines}

abbrev pub newline : ℕ
newline = 10

-- `strings.IndexByte`.
index_byte : Bytes → ℕ → Option ℕ
index_byte [] c = none
index_byte (x ∷ s) c = if x == c then some 0 else Option.map suc (index_byte s c)

abbrev is_empty : Bytes → Bool
is_empty [] = true
is_empty (x ∷ s) = false

-- The loop of `Lines`; each round but the last takes a byte from `rest`, so its length is fuel
-- enough.
lines_loop : ℕ → Bytes → Lines → Lines
unfolding index_byte
lines_loop zero rest out = out
lines_loop (suc n) rest out = elim (index_byte rest newline) [
  | none ↦ out ++ rest ∷ []
  | some at ↦
      let out' = out ++ take (at + 1) rest ∷ [] in
      let rest' = drop (at + 1) rest in
      let more = lines_loop n rest' out' in if is_empty rest' then out' else more
]

unfoldable pub lines : Bytes → Lines
unfolding lines_loop
lines [] = []
lines (x ∷ s) = lines_loop (length (x ∷ s)) (x ∷ s) []

-- `strings.Join(out, "")`.
unfoldable pub join : Lines → Bytes
join [] = []
join (l ∷ ls) = l ++ join ls

Empty-cases : (s : Bytes) → (s ≡ []) ⊎ ((s ≢ []) × (is_empty s ≡ false))
Empty-cases [] = inl refl
Empty-cases (x ∷ s) = inr (cc, refl)

abbrev pub Lacks : Bytes → Type 0
Lacks [] = Unit
Lacks (x ∷ s) = (x ≢ newline) × Lacks s

-- A line that ends in the only newline that it has.
abbrev pub IsClosed : Bytes → Type 0
IsClosed l = (body : Bytes) × (l ≡ body ++ newline ∷ []) × Lacks body

-- A last line, with no newline.
abbrev pub IsOpen : Bytes → Type 0
IsOpen l = (l ≢ []) × Lacks l

-- Every line but the last is closed, and the last is closed or open.
abbrev pub AreLines : Lines → Type 0
AreLines [] = Unit
AreLines (l ∷ []) = IsClosed l ⊎ IsOpen l
AreLines (l ∷ m ∷ ls) = IsClosed l × AreLines (m ∷ ls)

pub join-append : (a b : Lines) → join (a ++ b) ≡ join a ++ join b
unfolding join
join-append [] b = refl
join-append (l ∷ a) b = rw (join-append a b) (sym (append_assoc l (join a) (join b)))

index_byte-none : (s : Bytes) → index_byte s newline ≡ none → Lacks s
unfolding index_byte
index_byte-none [] h = tt
index_byte-none (x ∷ s) h = ground (arith, index_byte-none s)

index_byte-Lacks : (s : Bytes) → Lacks s → index_byte s newline ≡ none
unfolding index_byte
index_byte-Lacks [] h = refl
index_byte-Lacks (x ∷ s) (h, hs) = ground (arith, index_byte-Lacks s hs)

-- A text with a newline is a closed line and a rest.
index_byte-some :
    (s : Bytes) (at : ℕ)
    → index_byte s newline ≡ some at
    → (body : Bytes) × (rest : Bytes) × (s ≡ body ++ newline ∷ rest)
      × (length body ≡ at)
      × Lacks body
unfolding index_byte
index_byte-some [] at h = absurd (cc)
index_byte-some (x ∷ s) at h = elim (Bool-cases (x == newline)) [
  | inl e ↦ ([], s, ground arith, ground arith, tt)
  | inr e ↦ elim (Option-cases (index_byte s newline)) [
    | inl absent ↦ absurd (ground arith)
    | inr (i, found) ↦
        let (body, rest, p, n, l) = index_byte-some s i found in
        (x ∷ body, rest, ap (λ t. x ∷ t) p, ground arith, (ground arith, l))
  ]
]

index_byte-closed :
    (body rest : Bytes)
    → Lacks body
    → index_byte (body ++ newline ∷ rest) newline ≡ some (length body)
unfolding index_byte
index_byte-closed [] rest h = refl
index_byte-closed (x ∷ body) rest (h, hs) = ground (arith, index_byte-closed body rest hs)

-- The two slices around a newline.
around :
    (body rest : Bytes)
    → (take (length body + 1) (body ++ newline ∷ rest) ≡ body ++ newline ∷ [])
      × (drop (length body + 1) (body ++ newline ∷ rest) ≡ rest)
around [] rest = (refl, refl)
around (x ∷ body) rest =
    let (front, back) = around body rest in rw (suc-add (length body) 1, front) (refl, back)

-- A round of the loop at a closed line, and at an open one.
lines_loop-closed :
    (n : ℕ) (body rest : Bytes) (out : Lines)
    → Lacks body
    → lines_loop (suc n) (body ++ newline ∷ rest) out ≡ (
        if is_empty rest
        then out ++ (body ++ newline ∷ []) ∷ []
        else lines_loop n rest (out ++ (body ++ newline ∷ []) ∷ []))
unfolding lines_loop
lines_loop-closed n body rest out h =
    let (front, back) = around body rest in
    let found = index_byte-closed body rest h in rw (found, lines_loop) (rw (front, back))

lines_loop-open :
    (n : ℕ) (s : Bytes) (out : Lines) → Lacks s → lines_loop (suc n) s out ≡ out ++ s ∷ []
unfolding lines_loop
lines_loop-open n s out h = rw (index_byte-Lacks s h, lines_loop)

AreLines-cons : (l : Bytes) (ls : Lines) → IsClosed l → AreLines ls → AreLines (l ∷ ls)
AreLines-cons l [] h hs = inl h
AreLines-cons l (m ∷ ls) h hs = (h, hs)

lines_loop-join :
    (n : ℕ) (rest : Bytes) (out : Lines)
    → rest ≢ []
    → length rest ≤ n
    → (ls : Lines) × (lines_loop n rest out ≡ out ++ ls) × (join ls ≡ rest) × AreLines ls
unfolding join
lines_loop-join zero [] out h le = absurd (h refl)
lines_loop-join zero (x ∷ rest) out h le = absurd (omega arith)
lines_loop-join (suc n) rest out h le = elim (Option-cases (index_byte rest newline)) [
  | inl absent ↦
      let l = index_byte-none rest absent in
      (rest ∷ [], lines_loop-open n rest out l, append-nil rest, inr (h, l))
  | inr (at, found) ↦
      let (body, r, p, size, l) = index_byte-some rest at found in
      let line : Bytes = body ++ newline ∷ [] in
      let step = ap (λ t. lines_loop (suc n) t out) p ∙ lines_loop-closed n body r out l in
      let whole : line ++ r ≡ rest = append_assoc body (newline ∷ []) r ∙ sym p in
      let closed : IsClosed line = (body, refl, l) in
      elim (Empty-cases r) [
        | inl e ↦ (line ∷ [], step ∙ rw e, ap (λ t. line ++ t) (sym e) ∙ whole, inl closed)
        | inr (nonempty, test) ↦
            let size : length r ≤ n =
              omega (arith, ap length p, length-append body (newline ∷ r)) in
            let (ls, q, j, a) = lines_loop-join n r (out ++ line ∷ []) nonempty size in
            (
              line ∷ ls,
              step ∙ rw test (q ∙ append_assoc out (line ∷ []) ls),
              ap (λ t. line ++ t) j ∙ whole,
              AreLines-cons line ls closed a,
            )
      ]
]

lines_nonempty : (s : Bytes) → is_empty s ≡ false → lines s ≡ lines_loop (length s) s []
unfolding lines
lines_nonempty [] h = absurd (cc)
lines_nonempty (x ∷ s) h = refl

nonzero : (s : Bytes) → is_empty s ≡ false → ¬ (length s ≤ 0)
nonzero [] h le = cc
nonzero (x ∷ s) h le = omega arith

ne-nil : (body : Bytes) → ¬ ([] ≡ body ++ newline ∷ [])
ne-nil [] e = cc
ne-nil (x ∷ body) e = cc

-- Joining the lines of a text gives the text back, and they are lines: each but the last ends in
-- the only newline that it has, and the last is not empty and has at most a final newline.
pub join-lines : (text : Bytes) → (join (lines text) ≡ text) × AreLines (lines text)
unfolding lines
join-lines [] = (unfold join in refl, tt)
join-lines (x ∷ s) =
    let (ls, e, j, a) = lines_loop-join (length (x ∷ s)) (x ∷ s) [] (cc) (omega arith) in
    rw e (j, a)

join_nonempty : (l : Bytes) (ls : Lines) → AreLines (l ∷ ls) → is_empty (join (l ∷ ls)) ≡ false
unfolding join
join_nonempty (x ∷ l) ls h = refl
join_nonempty [] [] (inl (body, e, k)) = absurd (ne-nil body e)
join_nonempty [] [] (inr (h, k)) = absurd (h refl)
join_nonempty [] (m ∷ ls) ((body, e, k), hs) = absurd (ne-nil body e)

lines_loop-AreLines :
    (n : ℕ) (l : Bytes) (ls out : Lines)
    → AreLines (l ∷ ls)
    → length (join (l ∷ ls)) ≤ n
    → lines_loop n (join (l ∷ ls)) out ≡ out ++ l ∷ ls
unfolding join
lines_loop-AreLines zero l ls out h le = absurd (nonzero _ (join_nonempty l ls h) le)
lines_loop-AreLines (suc n) l [] out (inl (body, e, k)) le =
    ap (λ t. lines_loop (suc n) (t ++ []) out) e
    ∙ ap (λ t. lines_loop (suc n) t out) (append_assoc body (newline ∷ []) [])
    ∙ lines_loop-closed n body [] out k
    ∙ ap (λ t. out ++ t ∷ []) (sym e)
lines_loop-AreLines (suc n) l [] out (inr (h, k)) le =
    ap (λ t. lines_loop (suc n) t out) (append-nil l) ∙ lines_loop-open n l out k
lines_loop-AreLines (suc n) l (m ∷ ls) out ((body, e, k), hs) le =
    let rest : Bytes = join (m ∷ ls) in
    let size : length rest ≤ n =
      omega (arith, length-append l rest, ap length e, length-append body (newline ∷ [])) in
    ap (λ t. lines_loop (suc n) (t ++ rest) out) e
    ∙ ap (λ t. lines_loop (suc n) t out) (append_assoc body (newline ∷ []) rest)
    ∙ lines_loop-closed n body rest out k
    ∙ rw (join_nonempty m ls hs) (
        ap (λ t. lines_loop n rest (out ++ t ∷ [])) (sym e)
        ∙ lines_loop-AreLines n m ls (out ++ l ∷ []) hs size
        ∙ append_assoc out (l ∷ []) (m ∷ ls))

-- Splitting what was joined from lines gives these lines back.
pub lines-join : (ls : Lines) → AreLines ls → lines (join ls) ≡ ls
unfolding lines
lines-join [] h = unfold join in refl
lines-join (l ∷ ls) h =
    lines_nonempty (join (l ∷ ls)) (join_nonempty l ls h)
    ∙ lines_loop-AreLines (length (join (l ∷ ls))) l ls [] h (omega arith)
