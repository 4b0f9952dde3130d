-- ===== src/Stats/Rolling/Nanos.antt =====
-- UnixNano on the commit times of a series (internal/stats/rolling.go).
use conbench.Base.{ℕ, ◌-◌, ◌*◌, ◌%◌, ◌^◌, ◌<◌, ◌≤◌, ◌≡◌, true, List, [], ◌∷◌, map, arith, leb, All}
use conbench.Base.Sort.{Ascending, AscendingFrom, contains}
use conbench.Stats.Rolling.{unix_nano}

-- A commit time from 1677-09-21 to 2262-04-11, which UnixNano holds as it is.
abbrev pub IsNanoTime : ℕ → Type 0
IsNanoTime t = (11 * 2 ^ 64 ≤ t) × (t < 12 * 2 ^ 64)

pub unix_nano-leb :
    (a b : ℕ) → IsNanoTime a → IsNanoTime b → leb (unix_nano a) (unix_nano b) ≡ leb a b
unfolding unix_nano
unix_nano-leb a b h k =
    let ra : a % 18446744073709551616 ≡ a - 202914184810805067776 = omega arith in
    let rb : b % 18446744073709551616 ≡ b - 202914184810805067776 = omega arith in
    ground (arith, ra, rb)

AscendingFrom-unix_nano :
    (a : ℕ) (ts : List ℕ)
    → IsNanoTime a
    → All IsNanoTime ts
    → AscendingFrom a ts
    → AscendingFrom (unix_nano a) (map unix_nano ts)
AscendingFrom-unix_nano a [] h all s = tt
AscendingFrom-unix_nano a (t ∷ ts) h all s =
    (ground (arith, unix_nano-leb a t h all.0), AscendingFrom-unix_nano t ts all.0 all.1 s.1)

pub Ascending-unix_nano :
    (ts : List ℕ) → All IsNanoTime ts → Ascending ts → Ascending (map unix_nano ts)
Ascending-unix_nano [] all s = tt
Ascending-unix_nano (t ∷ ts) all s = (omega arith, AscendingFrom-unix_nano t ts all.0 all.1 s.1)

pub All-map_contains :
    (P : ℕ → Type 0) (f : ℕ → ℕ) (is : List ℕ)
    → ((i : ℕ) → contains i is ≡ true → P (f i))
    → All P (map f is)
All-map_contains P f [] h = tt
All-map_contains P f (i ∷ is) h =
    (h i (ground arith), All-map_contains P f is (λ j k. h j (ground arith)))
