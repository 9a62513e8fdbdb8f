-- ===== src/Build/Inject/Enough.antt =====
-- That the loop of `injectAfter` in go/build.go comes to an end.
use jostraca.Common.{
  ◌≡◌, refl, sym, ap, ◌∙◌, ℕ, zero, suc, ◌+◌, ◌≤◌, ◌<◌, inl, inr, Bool, true, false, ◌&&◌, [], ◌∷◌,
  ◌++◌, Bytes, if◌then◌else◌, Option-cases, length, length-append, length-drop, take, drop, arith,
}
use jostraca.Build.Inject.{region, is_empty, inject_loop}
use jostraca.Build.Inject.Find.{region-Cut}
use jostraca.Build.Inject.Rewrites.{loop_stops}

-- Where the guard of a round does not hold, the markers or a text between them have a byte.
guard_length :
    (a b c : Bytes)
    → (is_empty a && (is_empty b && is_empty c)) ≡ false
    → 0 < length a + length b + length c
guard_length [] [] [] h = absurd (cc)
guard_length [] [] (x ∷ c) h = omega arith
guard_length [] (x ∷ b) c h = omega arith
guard_length (x ∷ a) b c h = omega arith

-- What a round goes on to, where the walk on a shorter text is the same for two amounts of fuel.
onward_same :
    (width : Bytes → ℕ)
    → ((c : ℕ) (s : Bytes) → 0 < width (c ∷ s))
    → (n : ℕ) (loop loop' : Bytes → Bytes) → ((t : Bytes) → length t < n → loop t ≡ loop' t)
    → (guard : Bool) (next : Bytes) → length next ≤ n
    → (guard ≡ false → length next < n)
    → (if guard
        then (if is_empty next then [] else take (width next) next ++ loop (drop (width next) next))
        else loop next)
      ≡ (if guard
          then (if is_empty next
              then []
              else take (width next) next ++ loop' (drop (width next) next))
          else loop' next)
onward_same width wide n loop loop' same true [] le lt = refl
onward_same width wide n loop loop' same true (c ∷ next) le lt =
    ap (λ t. take (width (c ∷ next)) (c ∷ next) ++ t)
      (same (drop (width (c ∷ next)) (c ∷ next))
        (omega (arith, le, wide c next, length-drop (width (c ∷ next)) (c ∷ next))))
onward_same width wide n loop loop' same false next le lt = same next (lt refl)

-- The loop comes to the same text with every amount of fuel above the length, empty markers included,
-- where a rune has a width.
pub inject_loop-enough :
    (width : Bytes → ℕ) (start end body : Bytes)
    → ((c : ℕ) (s : Bytes) → 0 < width (c ∷ s))
    → (f g : ℕ) (s : Bytes) → length s < f
    → length s < g
    → inject_loop width start end body f s ≡ inject_loop width start end body g s
unfolding inject_loop
inject_loop-enough width start end body wide zero g s h k = absurd (omega (arith, h))
inject_loop-enough width start end body wide (suc f) zero s h k = absurd (omega (arith, k))
inject_loop-enough width start end body wide (suc f) (suc g) s h k =
    elim (Option-cases (region start end s)) [
      | inl n ↦
          loop_stops width start end (suc f) body s n
          ∙ sym (loop_stops width start end (suc g) body s n)
      | inr ((front, mid, rest), n) ↦
          let cut = region-Cut start end s front mid rest n in
          let size : length s ≡ length front + length start + length mid + length (end ++ rest) =
            omega (
              arith,
              ap length cut.split,
              length-append front (start ++ (mid ++ (end ++ rest))),
              length-append start (mid ++ (end ++ rest)),
              length-append mid (end ++ rest),
            ) in
          let guard = is_empty front && (is_empty start && is_empty mid) in
          let next = end ++ rest in
          rw (inject_loop, n)
            (ap (λ t. front ++ (start ++ (body ++ t)))
              (onward_same width wide (length s) (inject_loop width start end body f)
                (inject_loop width start end body g)
                (λ t lt.
                  inject_loop-enough width start end body wide f g t (omega (arith, lt, h))
                    (omega (arith, lt, k)))
                guard next (omega (arith, size))
                (λ e. omega (arith, size, guard_length front start mid e))))
    ]
