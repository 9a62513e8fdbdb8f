-- ===== src/Build/Inject.antt =====
-- `injectAfter` of go/build.go: the text between each two markers of a file is replaced. What it calls
-- of the provider and of the handler are the fields of `InjectEnv`.
mod Find
pub mod Rewrites
pub mod Enough
use jostraca.Common.{
  ◌≡◌, ℕ, zero, suc, ◌+◌, Bool, true, false, not, ◌&&◌, List, [], ◌∷◌, ◌++◌, Option, none, some,
  ◌⊎◌, inl, inr, Bytes, has_prefix, ◌==◌, if◌then◌else◌, length, take, drop,
}

abbrev pub push_front : ℕ → Option (Bytes × Bytes) → Option (Bytes × Bytes)
push_front c none = none
push_front c (some (front, rest)) = some (c ∷ front, rest)

-- `strings.Index`: what stands in front of the first marker, and what stands behind it.
unfoldable pub find : Bytes → Bytes → Option (Bytes × Bytes)
unfolding has_prefix
find m [] = if has_prefix [] m then some ([], []) else none
find m (c ∷ s) =
    let later = push_front c (find m s) in
    if has_prefix (c ∷ s) m then some ([], drop (length m) (c ∷ s)) else later

-- The first region in a text: what is in front of the start marker, between the markers, and behind
-- the end marker.
unfoldable pub region : Bytes → Bytes → Bytes → Option (Bytes × Bytes × Bytes)
unfolding find
region start end s = elim (find start s) [
  | none ↦ none
  | some (front, r) ↦ elim (find end r) [ none ↦ none | some (mid, rest) ↦ some (front, mid, rest) ]
]

abbrev pub is_empty : Bytes → Bool
is_empty [] = true
is_empty (c ∷ s) = false

-- The loop, on the text from `pos` on: what it writes. A round goes on at the end marker; where that
-- is no progress, it passes a rune, whose width `width` gives. The text becomes shorter in each round,
-- so one more than its length is enough fuel.
unfoldable pub inject_loop : (Bytes → ℕ) → Bytes → Bytes → Bytes → ℕ → Bytes → Bytes
unfolding region
inject_loop width start end body zero s = s
inject_loop width start end body (suc fuel) s = elim (region start end s) [
  | none ↦ s
  | some (front, mid, rest) ↦
      let next = end ++ rest in
      let w = width next in
      let passed = take w next ++ inject_loop width start end body fuel (drop w next) in
      let onward = inject_loop width start end body fuel next in
      front
      ++ (start
          ++ (body
              ++ (if is_empty front && (is_empty start && is_empty mid)
                  then (if is_empty next then [] else passed)
                  else onward)))
]

unfoldable pub inject : (Bytes → ℕ) → Bytes → Bytes → Bytes → Bytes → Bytes
unfolding inject_loop
inject width start end body s = inject_loop width start end body (suc (length s)) s

-- `matched`.
unfoldable pub has_region : Bytes → Bytes → Bytes → Bool
unfolding region
has_region start end s = elim (region start end s) [ none ↦ false | some r ↦ true ]

-- `S` is what the provider and the handler keep, `E` their errors; `save` is `fh.save`.
pub record InjectEnv (S E : Type 0) : Type 0 where
  pub exists : S → Bytes → Bool
  pub read_file : S → Bytes → E ⊎ Bytes
  pub save : Bytes → Bytes → S → Option E × S
  pub width : Bytes → ℕ

pub data InjectError (E : Type 0) : Type 0 where
  target_missing : Bytes → InjectError E
  failed : E → InjectError E

abbrev pub lift : {E : Type 0} → Option E → Option (InjectError E)
lift none = none
lift (some e) = some (failed e)

-- The hook of an Inject that is not excluded; a warning is written where no region is found.
unfoldable pub inject_after :
    {S E : Type 0} → InjectEnv S E → Bytes → Bytes → Bytes → Bytes → S → Option (InjectError E) × S
unfolding inject has_region
inject_after env start end full_path body fs =
    if not (env.exists fs full_path)
    then (some (target_missing full_path), fs)
    else elim (env.read_file fs full_path) [
      | inl e ↦ (some (failed e), fs)
      | inr src ↦
          let (r, fs') =
            env.save full_path
              (if has_region start end src then inject env.width start end body src else src) fs in
          (lift r, fs')
    ]
