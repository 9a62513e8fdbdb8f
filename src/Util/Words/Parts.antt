-- ===== src/Util/Words/Parts.antt =====
-- The parts that `Partify` of go/util.go gives.
use jostraca.Common.{
  ℕ, zero, suc, ◌-◌, ◌<◌, ◌≡◌, ◌≢◌, refl, inl, inr, true, false, not, ◌&&◌, ◌||◌, List, [], ◌∷◌,
  ◌++◌, arith, Bytes, ltb, Bool-cases, All, All-append,
}
use jostraca.Util.Words.{
  is_ascii_upper, is_ascii_lower, acronym, collapse, is_sep, flush_word, split_loop, is_initial,
  is_tail, glue, glue_initials, partify,
}

-- A byte that no separator is and that is below 128.
abbrev pub IsPlain : ℕ → Type 0
IsPlain c = (is_sep c ≡ false) × (c < 128)

-- A part: at least one byte, all of them plain.
abbrev pub IsWord : Bytes → Type 0
IsWord p = (p ≢ []) × All IsPlain p

-- The first `k` bytes are upper case letters.
UpperRun : ℕ → Bytes → Type 0
UpperRun zero s = Unit
UpperRun (suc k) [] = Unit
UpperRun (suc k) (c ∷ s) = (is_ascii_upper c ≡ true) × UpperRun k s

acronym-UpperRun : (s : Bytes) → UpperRun (acronym s) s
unfolding acronym UpperRun
acronym-UpperRun [] = tt
acronym-UpperRun (c ∷ []) = elim (Bool-cases (is_ascii_upper c)) [
  | inl e ↦ rw e (e, tt)
  | inr e ↦ rw e tt
]
acronym-UpperRun (c ∷ d ∷ s) = elim (Bool-cases (is_ascii_upper c)) [
  | inr e ↦ rw e tt
  | inl e ↦ elim (Bool-cases (is_ascii_lower d)) [
    | inl f ↦ rw (e, f) tt
    | inr f ↦ rw (e, f) (e, acronym-UpperRun (d ∷ s))
  ]
]

-- The letters behind the first of a run.
UpperRun-tail : (n : ℕ) (c : ℕ) (s : Bytes) → UpperRun n (c ∷ s) → UpperRun (n - 1) s
unfolding UpperRun
UpperRun-tail zero c s h = tt
UpperRun-tail (suc n) c s (h, hs) = rw (pred n) hs
  where
    pred : (n : ℕ) → suc n - 1 ≡ n
    pred n = omega arith

-- Bytes below 128 stay so.
abbrev pub Ascii : Bytes → Type 0
Ascii s = All (λ c. c < 128) s

collapse-Ascii : (k : ℕ) (s : Bytes) → Ascii s → UpperRun k s → Ascii (collapse k s)
unfolding collapse UpperRun
collapse-Ascii k [] h u = tt
collapse-Ascii (suc k) (c ∷ s) (h, hs) (u, us) = (ground arith, collapse-Ascii k s hs us)
collapse-Ascii zero (c ∷ s) (h, hs) u =
    let run = UpperRun-tail (acronym (c ∷ s)) c s (acronym-UpperRun (c ∷ s)) in
    elim (Bool-cases (not (is_ascii_upper c) || ltb (acronym (c ∷ s)) 2)) [
      | inl e ↦ rw e (h, collapse-Ascii zero s hs tt)
      | inr e ↦ rw e (h, collapse-Ascii (acronym (c ∷ s) - 1) s hs run)
    ]

flush_word-IsWord :
    (cur : Bytes) (out : List Bytes)
    → All IsPlain cur
    → All IsWord out
    → All IsWord (flush_word cur out)
flush_word-IsWord [] out h k = k
flush_word-IsWord (c ∷ cur) out h k =
    All-append IsWord out ((c ∷ cur) ∷ []) k (((λ e. cc e), h), tt)

split_loop-IsWord :
    (s cur : Bytes) (out : List Bytes)
    → Ascii s
    → All IsPlain cur
    → All IsWord out
    → All IsWord (split_loop s cur out)
unfolding split_loop
split_loop-IsWord [] cur out a h k = flush_word-IsWord cur out h k
split_loop-IsWord (c ∷ s) cur out (a, rest) h k = elim (Bool-cases (is_sep c)) [
  | inl e ↦
      rw e (split_loop-IsWord s [] (flush_word cur out) rest tt (flush_word-IsWord cur out h k))
  | inr e ↦ elim (Bool-cases (is_ascii_upper c)) [
    | inl f ↦
        rw (e, f)
          (split_loop-IsWord s [] (flush_word cur out ++ (c ∷ []) ∷ []) rest tt (
            All-append IsWord (flush_word cur out) ((c ∷ []) ∷ []) (flush_word-IsWord cur out h k)
              (((λ g. cc g), ((e, a), tt)), tt)))
    | inr f ↦
        rw (e, f)
          (split_loop-IsWord s (cur ++ c ∷ []) out rest
            (All-append IsPlain cur (c ∷ []) h ((e, a), tt)) k)
  ]
]

append-ne-nil : (p q : Bytes) → p ≢ [] → p ++ q ≢ []
append-ne-nil [] q h e = h refl
append-ne-nil (c ∷ p) q h e = cc e

glue-IsWord :
    (prev : Bytes) (parts : List Bytes)
    → IsWord prev
    → All IsWord parts
    → All IsWord (glue prev parts)
unfolding glue
glue-IsWord prev [] h k = (h, tt)
glue-IsWord prev (p ∷ parts) (ne, h) ((pne, ph), ps) =
    elim (Bool-cases (is_initial prev && is_tail p)) [
      | inl e ↦ rw e (
          glue-IsWord (prev ++ p) parts (append-ne-nil prev p ne, All-append IsPlain prev p h ph)
            ps)
      | inr e ↦ rw e ((ne, h), glue-IsWord p parts (pne, ph) ps)
    ]

glue_initials-IsWord : (parts : List Bytes) → All IsWord parts → All IsWord (glue_initials parts)
unfolding glue_initials
glue_initials-IsWord [] h = tt
glue_initials-IsWord (p ∷ parts) (h, hs) = glue-IsWord p parts h hs

-- Every part of an ASCII text has at least one byte, and no separator.
pub partify-IsWord : (s : Bytes) → Ascii s → All IsWord (partify s)
unfolding partify
partify-IsWord s a = glue_initials-IsWord (split_loop (collapse zero s) [] []) (
    split_loop-IsWord (collapse zero s) [] [] (collapse-Ascii zero s a (unfold UpperRun in tt)) tt
      tt)
