-- ===== src/Stats/Window.antt =====
-- internal/stats/window.go: dense ranks, and windows over rows and over distinct commits.
-- The functions that reduce a window are an argument, as in the code.
pub mod Ranks
pub mod Slices
pub mod Windows
use conbench.Base.{
  ℕ, zero, suc, ◌+◌, ◌-◌, ◌≡◌, Bool, true, false, not, ◌&&◌, ◌||◌, Option, none, some, List, [],
  ◌∷◌, map, ltb, leb, ◌==◌, if◌then◌else◌, length, get_or, slice,
}
use conbench.Base.Int.{ℤ, pos, sub_ℕ, leb_ℤ, ltb_ℤ}
use conbench.Base.Maps.{Map, lookup, insert, nat_key}
use conbench.Base.Sort.{sort, sort_search}
use conbench.Base.Range.{range}

-- `i == 0 || v != uniq[i-1]`: the value before, if there is one.
abbrev pub is_new : Option ℕ → ℕ → Bool
is_new none v = true
is_new (some p) v = not (p == v)

-- The loop that fills `rankOf`, over the sorted values.
unfoldable pub fill_ranks : ℕ → Option ℕ → List ℕ → Map ℕ ℕ → Map ℕ ℕ
fill_ranks r prev [] rank_of = rank_of
fill_ranks r prev (v ∷ vs) rank_of =
    let r' = if is_new prev v then r + 1 else r in
    let rank_of' = if is_new prev v then insert v r' rank_of else rank_of in
    fill_ranks r' (some v) vs rank_of'

-- A missing key of a Go map of numbers reads as 0.
abbrev pub or_zero : Option ℕ → ℕ
or_zero none = 0
or_zero (some n) = n

unfoldable pub rank_in : List ℕ → ℕ → ℕ
unfolding fill_ranks
rank_in xs v = or_zero (lookup v (fill_ranks 0 none (sort ltb xs) []))

unfoldable pub dense_rank : List ℕ → List ℕ
dense_rank xs = map (rank_in xs) xs

-- `int` arguments are signed: the callers pass `rank - window`.
unfoldable pub lower_count : List ℕ → ℤ → ℕ
lower_count ranks v = sort_search (length ranks) (λ i. leb_ℤ v (pos (get_or ranks i 0)))

unfoldable pub upper_count : List ℕ → ℤ → ℕ
upper_count ranks v = sort_search (length ranks) (λ i. ltb_ℤ v (pos (get_or ranks i 0)))

-- `lo` and `hi` of the window of a row with rank `rank`.
unfoldable pub window_bounds : List ℕ → ℕ → Bool → ℕ → ℕ × ℕ
window_bounds ranks window true rank =
    (upper_count ranks (sub_ℕ rank window), upper_count ranks (pos rank))
window_bounds ranks window false rank =
    (lower_count ranks (sub_ℕ rank window), lower_count ranks (pos rank))

module _ {ℓ κ} {A : Type ℓ} {B : Type κ} where
  -- `rolling(window, min_periods=1)` over rows; `max(i-window+1, 0)` is truncated subtraction.
  unfoldable pub rolling_row_count : List A → ℕ → (List A → B) → List B
  rolling_row_count xs window reduce =
      map (λ i. let lo = i + 1 - window in reduce (slice lo (i + 1) xs)) (range (length xs))

  unfoldable pub commit_rank_row : B → List A → List ℕ → ℕ → Bool → (List A → B) → ℕ → B
  unfolding window_bounds
  commit_rank_row nan vals ranks window closed_right reduce i =
      let (lo, hi) = window_bounds ranks window closed_right (get_or ranks i 0) in
      if leb hi lo then nan else reduce (slice lo hi vals)

  unfoldable pub rolling_commit_rank : B → List A → List ℕ → ℕ → Bool → (List A → B) → List B
  unfolding commit_rank_row
  rolling_commit_rank nan vals timestamps window closed_right reduce =
      let ranks = dense_rank timestamps in
      map (commit_rank_row nan vals ranks window closed_right reduce) (range (length vals))
