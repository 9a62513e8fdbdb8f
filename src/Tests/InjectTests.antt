-- ===== src/Tests/InjectTests.antt =====
-- `injectAfter` of go/build.go on small texts.
use jostraca.Common.{ℕ, ◌≡◌, refl, [], ◌++◌, Option, none, some, Bytes, codes, arith}
use jostraca.Build.Inject.{push_front, find, inject, inject_loop}
use jostraca.Build.Inject.Rewrites.{behind, inject-inject}
use jostraca.Build.Inject.Enough.{inject_loop-enough}

abbrev start : Bytes
start = codes "<s>"

abbrev end : Bytes
end = codes "<e>"

-- The width of a rune of ASCII.
abbrev width : Bytes → ℕ
width s = 1

abbrev text : Bytes
text = codes "a<s>1<e>b<s><e>"

two_regions : inject width start end (codes "xy") text ≡ codes "a<s>xy<e>b<s>xy<e>"
unfolding inject
two_regions = refl

-- Empty markers: the loop passes a rune in each round.
empty_markers : inject width [] [] (codes "x") (codes "ab") ≡ codes "xaxbx"
unfolding inject
empty_markers = refl

push_marker :
    (o : Option (Bytes × Bytes)) → push_front 60 (push_front 101 (push_front 62 o)) ≡ behind end o
push_marker none = refl
push_marker (some r) = refl

aside : (y : Bytes) → find start (end ++ y) ≡ behind end (find start y)
unfolding find
aside y = push_marker (find start y)

inject-inject_example :
    inject width start end (codes "z") (inject width start end (codes "xy") text)
    ≡ inject width start end (codes "z") text
unfolding find
inject-inject_example =
    inject-inject width start end (codes "xy") (codes "z") text refl aside (λ y. refl)

inject_loop-enough_example :
    inject_loop width start end (codes "x") 16 text
    ≡ inject_loop width start end (codes "x") 40 text
inject_loop-enough_example =
    inject_loop-enough width start end (codes "x") (λ c s. omega arith) 16 40 text (omega arith)
      (omega arith)
