-- ===== src/Util/Indent.antt =====
-- `Indent` of go/util.go.
use jostraca.Common.{
  ℕ, ◌≡◌, refl, sym, ap, ◌∙◌, inl, inr, Bool, true, false, ◌||◌, List, [], ◌∷◌, ◌++◌, append-nil,
  Bytes, codes, bytes_eq, ◌==◌, if◌then◌else◌, Bool-cases, replicate, arith,
}
use jostraca.Fs.Path.{push}
use jostraca.Build.Names.{is_blank}

-- `text` is a string or what `String` gives of a value of another kind; a number is floored, with 0
-- for one that is negative, infinite or none.
pub data IndentSpec : Type 0 where
  unset : IndentSpec
  text : Bytes → IndentSpec
  count : ℕ → IndentSpec

unfoldable pub pad_of : IndentSpec → Bytes
pad_of unset = codes "  "
pad_of (text pad) = pad
pad_of (count n) = replicate n 32

-- The loop: a pad behind each newline but the last byte.
unfoldable pub indent_loop : Bytes → Bytes → Bytes
indent_loop pad [] = []
indent_loop pad (c ∷ []) = c ∷ []
indent_loop pad (c ∷ d ∷ src) =
    let rest = indent_loop pad (d ∷ src) in if c == 10 then c ∷ (pad ++ rest) else c ∷ rest

-- Whether the text begins with a newline and goes on.
abbrev pub opens_blank : Bytes → Bool
opens_blank (c ∷ d ∷ src) = c == 10
opens_blank _ = false

unfoldable pub indent : Bytes → IndentSpec → Bytes
unfolding pad_of indent_loop
indent src ind =
    let pad = pad_of ind in
    if is_blank src || is_blank pad
    then src
    else if opens_blank src
    then indent_loop pad src
    else pad ++ indent_loop pad src

-- The lines of a text, each with its newline.
unfoldable pub keep_lines : Bytes → List Bytes
keep_lines [] = []
keep_lines (c ∷ src) = let rest = keep_lines src in if c == 10 then (c ∷ []) ∷ rest else push c rest

unfoldable pub put_lines : Bytes → List Bytes → Bytes
put_lines pad [] = []
put_lines pad (l ∷ ls) = pad ++ (l ++ put_lines pad ls)

-- Every line with the pad in front, save a first line that is blank and has others behind it.
unfoldable pub indented_lines : Bytes → List Bytes → Bytes
unfolding put_lines bytes_eq
indented_lines pad [] = []
indented_lines pad (l ∷ []) = pad ++ l
indented_lines pad (l ∷ m ∷ ls) =
    let rest = put_lines pad (m ∷ ls) in
    if bytes_eq l (10 ∷ []) then l ++ rest else pad ++ (l ++ rest)

keep_lines-cons :
    (c : ℕ) (src : Bytes) → (l : Bytes) × (ls : List Bytes) × (keep_lines (c ∷ src) ≡ l ∷ ls)
unfolding keep_lines
keep_lines-cons c src = elim (Bool-cases (c == 10)) [
  | inl e ↦ (c ∷ [], keep_lines src, rw e)
  | inr e ↦ push_cases (keep_lines src) e
]
  where
    push_cases :
        (rest : List Bytes)
        → (c == 10) ≡ false
        → (l : Bytes) × (ls : List Bytes) × ((if c == 10
              then (c ∷ []) ∷ keep_lines src
              else push c rest)
            ≡ l ∷ ls)
    push_cases [] e = (c ∷ [], [], rw e)
    push_cases (l ∷ ls) e = (c ∷ l, ls, rw e)

abbrev put_rest : Bytes → List Bytes → Bytes
put_rest pad [] = []
put_rest pad (l ∷ ls) = l ++ put_lines pad ls

-- The loop pads every line but the first.
indent_loop-keep_lines : (pad src : Bytes) → indent_loop pad src ≡ put_rest pad (keep_lines src)
unfolding keep_lines indent_loop put_lines
indent_loop-keep_lines pad [] = refl
indent_loop-keep_lines pad (c ∷ []) = elim (Bool-cases (c == 10)) [ inl e ↦ rw e | inr e ↦ rw e ]
indent_loop-keep_lines pad (c ∷ d ∷ src) =
    let (m, ms, k) = keep_lines-cons d src in
    let below : indent_loop pad (d ∷ src) ≡ m ++ put_lines pad ms =
      indent_loop-keep_lines pad (d ∷ src) ∙ ap (put_rest pad) k in
    elim (Bool-cases (c == 10)) [ inl e ↦ rw (e, below, k) | inr e ↦ rw (e, below, k) ]

indent_loop-nil : (src : Bytes) → indent_loop [] src ≡ src
unfolding indent_loop
indent_loop-nil [] = refl
indent_loop-nil (c ∷ []) = refl
indent_loop-nil (c ∷ d ∷ src) = elim (Bool-cases (c == 10)) [
  | inl e ↦ rw e (ap (λ t. c ∷ t) (indent_loop-nil (d ∷ src)))
  | inr e ↦ rw e (ap (λ t. c ∷ t) (indent_loop-nil (d ∷ src)))
]

indented_lines-blank :
    (l : Bytes) (ls : List Bytes) → put_rest [] (l ∷ ls) ≡ indented_lines [] (l ∷ ls)
unfolding indented_lines put_lines
indented_lines-blank l [] = append-nil l
indented_lines-blank l (m ∷ ls) = elim (Bool-cases (bytes_eq l (10 ∷ []))) [
  | inl e ↦ rw e
  | inr e ↦ rw e
]

indented_lines-pad :
    (pad l : Bytes) (ls : List Bytes)
    → bytes_eq l (10 ∷ []) ≡ false
    → indented_lines pad (l ∷ ls) ≡ pad ++ put_rest pad (l ∷ ls)
unfolding indented_lines put_lines
indented_lines-pad pad l [] h = ap (λ t. pad ++ t) (sym (append-nil l))
indented_lines-pad pad l (m ∷ ls) h = rw h

newline-eq : (c : ℕ) (l : Bytes) → (c == 10) ≡ false → bytes_eq (c ∷ l) (10 ∷ []) ≡ false
unfolding bytes_eq
newline-eq c l e = ground arith

-- A text behind its first line is padded as the reference has it.
several-lines :
    (pad : Bytes) (c d : ℕ) (src : Bytes)
    → (if c == 10 then indent_loop pad (c ∷ d ∷ src) else pad ++ indent_loop pad (c ∷ d ∷ src))
      ≡ indented_lines pad (keep_lines (c ∷ d ∷ src))
several-lines pad c d src =
    let (m, ms, k) = keep_lines-cons d src in
    let loop = indent_loop-keep_lines pad (c ∷ d ∷ src) in
    elim (Bool-cases (c == 10)) [
      | inl e ↦
          let lines : keep_lines (c ∷ d ∷ src) ≡ (c ∷ []) ∷ m ∷ ms =
            unfold keep_lines in rw (e, k) in
          let blank : bytes_eq (c ∷ []) (10 ∷ []) ≡ true = unfold bytes_eq in ground arith in
          rw (e, loop, lines) (unfold indented_lines put_lines in rw blank)
      | inr e ↦
          let lines : keep_lines (c ∷ d ∷ src) ≡ (c ∷ m) ∷ ms = unfold keep_lines in rw (e, k) in
          rw (e, loop, lines) (sym (indented_lines-pad pad (c ∷ m) ms (newline-eq c m e)))
    ]

-- Indenting is putting the pad in front of every line, where a first line that is blank and has
-- others behind it gets none.
pub indent-indented_lines :
    (src : Bytes) (ind : IndentSpec) → indent src ind ≡ indented_lines (pad_of ind) (keep_lines src)
unfolding indent
indent-indented_lines src ind = by_pad (pad_of ind) src
  where
    by_pad :
        (pad src : Bytes)
        → (if is_blank src || is_blank pad
            then src
            else if opens_blank src
            then indent_loop pad src
            else pad ++ indent_loop pad src)
          ≡ indented_lines pad (keep_lines src)
    by_pad pad [] = unfold keep_lines indented_lines in refl
    by_pad [] (c ∷ src) =
        let (l, ls, k) = keep_lines-cons c src in
        sym (indent_loop-nil (c ∷ src))
        ∙ indent_loop-keep_lines [] (c ∷ src)
        ∙ ap (put_rest []) k
        ∙ indented_lines-blank l ls
        ∙ ap (indented_lines []) (sym k)
    by_pad (x ∷ pad) (c ∷ []) = elim (Bool-cases (c == 10)) [
      | inl e ↦ unfold keep_lines indented_lines indent_loop in rw e
      | inr e ↦ unfold keep_lines indented_lines indent_loop in rw e
    ]
    by_pad (x ∷ pad) (c ∷ d ∷ src) = several-lines (x ∷ pad) c d src
