-- ===== src/Stats/Reduce.antt =====
-- internal/stats/window.go and aggregates.go: the functions that reduce a window of values.
use conbench.Base.{◌-◌, List, [], ◌∷◌, ltb, ◌==◌, not, if◌then◌else◌, length, get_or, keep}
use conbench.Base.Sort.{sort}
use conbench.Floats.{Floats}

module _ (fl : Floats) where
  open fl use {Float, nan, is_nan, lit, of_ℕ, add, sub, mul, div, sqrt, lt, floor, ceil}

  -- The loop `for _, x := range xs { sum += x }`.
  unfoldable pub sum_from : Float → List Float → Float
  sum_from sum [] = sum
  sum_from sum (x ∷ xs) = sum_from (add sum x) xs

  -- The values that are not NaN.
  unfoldable pub clean : List Float → List Float
  clean xs = keep (λ x. not (is_nan x)) xs

  unfoldable pub mean_skip_nan : List Float → Float
  unfolding sum_from clean
  mean_skip_nan xs =
      let n = length (clean xs) in
      if n == 0 then nan else div (sum_from (lit 0 0) (clean xs)) (of_ℕ n)

  -- The sum of squared differences from `m`.
  unfoldable pub squares_from : Float → Float → List Float → Float
  squares_from m ss [] = ss
  squares_from m ss (x ∷ xs) = let d = sub x m in squares_from m (add ss (mul d d)) xs

  unfoldable pub sample_std_skip_nan : List Float → Float
  unfolding mean_skip_nan squares_from
  sample_std_skip_nan xs =
      let values = clean xs in
      let m = mean_skip_nan values in
      if ltb (length values) 2
      then nan
      else sqrt (div (squares_from m (lit 0 0) values) (of_ℕ (length values - 1)))

  -- `clean[lo] + (clean[hi]-clean[lo])*frac` at the position `pos` of sorted values.
  unfoldable pub interpolate : List Float → Float → Float
  interpolate sorted pos =
      let lo = floor pos in
      let hi = ceil pos in
      let frac = sub pos (of_ℕ lo) in
      if lo == hi
      then get_or sorted lo nan
      else add (get_or sorted lo nan) (mul (sub (get_or sorted hi nan) (get_or sorted lo nan)) frac)

  unfoldable pub quantile_linear : List Float → Float → Float
  unfolding clean interpolate sort
  quantile_linear xs q =
      let sorted = sort lt (clean xs) in
      if length sorted == 0
      then nan
      else if length sorted == 1
      then get_or sorted 0 nan
      else interpolate sorted (mul q (of_ℕ (length sorted - 1)))

  unfoldable pub mean : List Float → Float
  unfolding sum_from
  mean xs = div (sum_from (lit 0 0) xs) (of_ℕ (length xs))

  -- `len(xs)-1` is 0 for one value, and the quotient then a NaN or an infinity of Go's.
  unfoldable pub stddev : List Float → Float → Float
  unfolding squares_from
  stddev xs m = sqrt (div (squares_from m (lit 0 0) xs) (of_ℕ (length xs - 1)))
