-- ===== src/Build/Inject/Rewrites.antt =====
-- What the loop of `injectAfter` in go/build.go writes.
use jostraca.Common.{
  ◌≡◌, refl, sym, ap, ◌∙◌, ℕ, zero, suc, ◌<◌, inl, inr, Bool, true, false, ◌&&◌, [], ◌∷◌, ◌++◌,
  append_assoc, Option, none, some, Bytes, Option-cases, length, length-append, arith,
}
use jostraca.Build.Inject.{find, region, is_empty, inject_loop, inject}
use jostraca.Build.Inject.Find.{region-none, region_open, region-some, Cut, region-Cut}

-- What is found in a text that follows another.
abbrev pub behind : Bytes → Option (Bytes × Bytes) → Option (Bytes × Bytes)
behind m none = none
behind m (some (front, rest)) = some (m ++ front, rest)

guard_false : (a b : Bool) → (a && (false && b)) ≡ false
guard_false true b = refl
guard_false false b = refl

module _ (width : Bytes → ℕ) (start end : Bytes) where
  pub loop_stops :
      (f : ℕ) (body s : Bytes)
      → region start end s ≡ none
      → inject_loop width start end body f s ≡ s
  unfolding inject_loop
  loop_stops zero body s n = refl
  loop_stops (suc f) body s n = rw (inject_loop, n) refl

  module _ (marked : is_empty start ≡ false) where
    loop_round :
        (f : ℕ) (body s front mid rest : Bytes)
        → region start end s ≡ some (front, mid, rest)
        → inject_loop width start end body (suc f) s
          ≡ front ++ (start ++ (body ++ inject_loop width start end body f (end ++ rest)))
    unfolding inject_loop
    loop_round f body s front mid rest n =
        rw (inject_loop, n, marked, guard_false (is_empty front) (is_empty mid)) refl

    start_pos : 0 < length start
    start_pos = go start marked
      where
        go : (m : Bytes) → is_empty m ≡ false → 0 < length m
        go [] h = absurd (cc)
        go (c ∷ m) h = omega arith

    length-rest :
        (s front mid rest : Bytes)
        → Cut start end s front mid rest
        → length (end ++ rest) < length s
    length-rest s front mid rest cut = omega (
      arith,
      start_pos,
      ap length cut.split,
      length-append front (start ++ (mid ++ (end ++ rest))),
      length-append start (mid ++ (end ++ rest)),
      length-append mid (end ++ rest),
    )

    -- The start marker does not begin within the end marker.
    module _ (aside : (y : Bytes) → find start (end ++ y) ≡ behind end (find start y)) where
      -- The loop from an end marker on writes that marker first.
      loop-end :
          (f : ℕ) (body rest : Bytes)
          → (t : Bytes) × (inject_loop width start end body f (end ++ rest) ≡ end ++ t)
      loop-end zero body rest = (rest, unfold inject_loop in refl)
      loop-end (suc f) body rest = elim (Option-cases (find start rest)) [
        | inl n ↦ (
          rest,
          loop_stops (suc f) body (end ++ rest)
              (region-none start end (end ++ rest) (rw (aside rest, n) refl)),
        )
        | inr ((front, r), n) ↦
            let here : find start (end ++ rest) ≡ some (end ++ front, r) =
              aside rest ∙ ap (behind end) n in
            elim (Option-cases (find end r)) [
              | inl k ↦ (
                rest,
                loop_stops (suc f) body (end ++ rest)
                    (region_open start end (end ++ rest) (end ++ front) r here k),
              )
              | inr ((mid, q), k) ↦ (
                front ++ (start ++ (body ++ inject_loop width start end body f (end ++ q))),
                loop_round f body (end ++ rest) (end ++ front) mid q
                      (region-some start end (end ++ rest) (end ++ front) r mid q here k)
                    ∙ append_assoc end front _,
              )
            ]
      ]

      module _ (body : Bytes)
          (whole : (y : Bytes) → find end (body ++ (end ++ y)) ≡ some (body, y)) where
        loop-loop :
            (f g : ℕ) (body' s : Bytes)
            → length s < f
            → length (inject_loop width start end body f s) < g
            → inject_loop width start end body' g (inject_loop width start end body f s)
              ≡ inject_loop width start end body' f s
        loop-loop zero g body' s h k = absurd (omega (arith, h))
        loop-loop (suc f) zero body' s h k = absurd (omega (arith, k))
        loop-loop (suc f) (suc g) body' s h k = elim (Option-cases (region start end s)) [
          | inl n ↦
              ap (inject_loop width start end body' (suc g)) (loop_stops (suc f) body s n)
              ∙ loop_stops (suc g) body' s n
              ∙ sym (loop_stops (suc f) body' s n)
          | inr ((front, mid, rest), n) ↦
              let cut = region-Cut start end s front mid rest n in
              let written = loop_round f body s front mid rest n in
              let tail = inject_loop width start end body f (end ++ rest) in
              let (t, shape) = loop-end f body rest in
              let back = sym shape in
              let again = cut.other body t (whole t) in
              let lengths : length tail < g = omega (
                arith,
                start_pos,
                k,
                ap length written,
                length-append front (start ++ (body ++ tail)),
                length-append start (body ++ tail),
                length-append body tail,
              ) in
              ap (inject_loop width start end body' (suc g))
                (written ∙ (λ i. front ++ (start ++ (body ++ shape i))))
              ∙ loop_round g body' (front ++ (start ++ (body ++ (end ++ t)))) front body t again
              ∙ (λ i. front ++ (start ++ (body' ++ inject_loop width start end body' g (back i))))
              ∙ (λ i.
                  front
                  ++ (start
                      ++ (body'
                          ++ (loop-loop f g body' (end ++ rest)
                              (omega (arith, length-rest s front mid rest cut, h)) lengths i))))
              ∙ sym (loop_round f body' s front mid rest n)
        ]

-- What an Inject writes is what the last one has written: a text that is injected over another gives
-- the same as over the file itself, where the start marker is not empty and does not begin within
-- the end marker, and the end marker is found behind the first text and not within it.
pub inject-inject :
    (width : Bytes → ℕ) (start end body body' s : Bytes)
    → is_empty start ≡ false
    → ((y : Bytes) → find start (end ++ y) ≡ behind end (find start y))
    → ((y : Bytes) → find end (body ++ (end ++ y)) ≡ some (body, y))
    → inject width start end body' (inject width start end body s) ≡ inject width start end body' s
unfolding inject
inject-inject width start end body body' s marked aside whole =
    loop-loop width start end marked aside body whole (suc (length s))
      (suc (length (inject_loop width start end body (suc (length s)) s))) body' s (omega arith)
      (omega arith)
