-- ===== src/Stats/Window/Windows.antt =====
-- rollingRowCount and rollingCommitRank (internal/stats/window.go) against direct descriptions of
-- their windows.
use conbench.Base.{
  ℕ, zero, suc, ◌+◌, ◌-◌, ◌≤◌, ◌<◌, ◌≡◌, sym, ◌∙◌, ap, inl, inr, Bool, true, false, ◌&&◌, List, [],
  ◌∷◌, map, arith, ltb, leb, if◌then◌else◌, Bool-cases, length, length-take, length-drop,
  length-map, count_if-le-length, leb→le, min, get_or, slice, take, drop, fun_ext,
}
use conbench.Base.Int.{pos, sub_ℕ, leb_ℤ, ltb_ℤ}
use conbench.Base.Sort.{Ascending, AscendingFrom, contains}
use conbench.Base.Range.{range, map-range, get_or-map-range}
use conbench.Stats.Window.{
  dense_rank, rank_in, window_bounds, commit_rank_row, rolling_commit_rank, rolling_row_count,
}
use conbench.Stats.Window.Ranks.{rank_in_mono}
use conbench.Stats.Window.Slices.{
  lower_count-count_if, upper_count-count_if, aligned, reduce_or, take-nil, slice-aligned,
}

-- The commits of the window of a row with rank `rank`: the last `window` ranks, its own among
-- them if the window is closed on the right, and else those before it.
abbrev pub in_window : ℕ → Bool → ℕ → ℕ → Bool
in_window window true rank r = ltb rank (r + window) && leb r rank
in_window window false rank r = leb rank (r + window) && ltb r rank

window_bounds-aligned {ℓ} :
    {A : Type ℓ} (ranks : List ℕ) (vals : List A) (window : ℕ) (closed_right : Bool) (rank : ℕ)
    → Ascending ranks
    → length ranks ≡ length vals
    → let b = window_bounds ranks window closed_right rank in
      slice b.0 b.1 vals ≡ aligned (in_window window closed_right rank) ranks vals
unfolding window_bounds
window_bounds-aligned ranks vals window true rank s e =
    rw (upper_count-count_if ranks (sub_ℕ rank window) s, upper_count-count_if ranks (pos rank) s)
      (slice-aligned (λ r. leb_ℤ (pos r) (sub_ℕ rank window)) (λ r. leb_ℤ (pos r) (pos rank))
          (λ a b h t. ground arith) (λ a b h t. ground arith) 0 ranks vals (λ r h. ground arith) s e
        ∙ ap (λ t. aligned t ranks vals) (fun_ext λ r. ground arith))
window_bounds-aligned ranks vals window false rank s e =
    rw (lower_count-count_if ranks (sub_ℕ rank window) s, lower_count-count_if ranks (pos rank) s)
      (slice-aligned (λ r. ltb_ℤ (pos r) (sub_ℕ rank window)) (λ r. ltb_ℤ (pos r) (pos rank))
          (λ a b h t. ground arith) (λ a b h t. ground arith) 0 ranks vals (λ r h. ground arith) s e
        ∙ ap (λ t. aligned t ranks vals) (fun_ext λ r. ground arith))

reduce_or-guard {ℓ κ} :
    {A : Type ℓ} {B : Type κ} (nan : B) (reduce : List A → B) (lo hi : ℕ) (w : List A)
    → (leb hi lo ≡ true → length w ≡ 0)
    → (leb hi lo ≡ false → 1 ≤ length w)
    → (if leb hi lo then nan else reduce w) ≡ reduce_or nan reduce w
reduce_or-guard nan reduce lo hi [] e f = elim (Bool-cases (leb hi lo)) [
  | inl t ↦ rw t
  | inr t ↦ absurd (omega (arith, f t))
]
reduce_or-guard nan reduce lo hi (v ∷ vs) e f = elim (Bool-cases (leb hi lo)) [
  | inl t ↦ absurd (omega (arith, e t))
  | inr t ↦ rw t
]

length-slice {ℓ} :
    {A : Type ℓ} (lo hi : ℕ) (xs : List A)
    → length (slice lo hi xs) ≡ min (hi - lo) (length xs - lo)
length-slice lo hi xs = length-take (hi - lo) (drop lo xs) ∙ ap (min (hi - lo)) (length-drop lo xs)

window_bounds-le :
    (ranks : List ℕ) (window : ℕ) (closed_right : Bool) (rank : ℕ)
    → Ascending ranks
    → (window_bounds ranks window closed_right rank).1 ≤ length ranks
unfolding window_bounds
window_bounds-le ranks window true rank s =
    rw (upper_count-count_if ranks (pos rank) s) (count_if-le-length _ ranks)
window_bounds-le ranks window false rank s =
    rw (lower_count-count_if ranks (pos rank) s) (count_if-le-length _ ranks)

module _ {ℓ κ} {A : Type ℓ} {B : Type κ} (nan : B) (reduce : List A → B) where
  commit_rank_row-aligned :
      (ranks : List ℕ) (vals : List A) (window : ℕ) (closed_right : Bool) (i : ℕ)
      → Ascending ranks
      → length ranks ≡ length vals
      → commit_rank_row nan vals ranks window closed_right reduce i
        ≡ reduce_or nan reduce
            (aligned (in_window window closed_right (get_or ranks i 0)) ranks vals)
  unfolding commit_rank_row
  commit_rank_row-aligned ranks vals window closed_right i s e =
      let rank = get_or ranks i 0 in
      let b = window_bounds ranks window closed_right rank in
      let size = length-slice b.0 b.1 vals in
      let fits = window_bounds-le ranks window closed_right rank s in
      reduce_or-guard nan reduce b.0 b.1 (slice b.0 b.1 vals)
        (λ h. size ∙ omega (arith, leb→le b.1 b.0 h)) (λ h. rw size (ground arith))
      ∙ ap (reduce_or nan reduce) (window_bounds-aligned ranks vals window closed_right rank s e)

map-rank_in-AscendingFrom :
    (xs ys : List ℕ) (a : ℕ)
    → contains a xs ≡ true
    → ((v : ℕ) → contains v ys ≡ true → contains v xs ≡ true)
    → AscendingFrom a ys
    → AscendingFrom (rank_in xs a) (map (rank_in xs) ys)
map-rank_in-AscendingFrom xs [] a c sub s = tt
map-rank_in-AscendingFrom xs (y ∷ ys) a c sub s =
    let here = sub y (ground arith) in
    (
      rank_in_mono xs a y c here s.0,
      map-rank_in-AscendingFrom xs ys y here (λ v h. sub v (ground arith)) s.1,
    )

pub dense_rank-Ascending : (xs : List ℕ) → Ascending xs → Ascending (dense_rank xs)
unfolding dense_rank
dense_rank-Ascending [] s = tt
dense_rank-Ascending (x ∷ xs) s =
    (omega arith, map-rank_in-AscendingFrom (x ∷ xs) xs x (ground arith) (λ v h. ground arith) s.1)

pub length-dense_rank : (xs : List ℕ) → length (dense_rank xs) ≡ length xs
unfolding dense_rank
length-dense_rank xs = length-map xs (rank_in xs)

-- For rows in time order, each row's result is the reduction of the values whose commits lie in its
-- window, and `nan` where the window is empty.
pub rolling_commit_rank-windows {ℓ κ} :
    {A : Type ℓ} {B : Type κ} (nan : B) (vals : List A) (timestamps : List ℕ) (window : ℕ)
    (closed_right : Bool) (reduce : List A → B)
    → Ascending timestamps
    → length timestamps ≡ length vals
    → rolling_commit_rank nan vals timestamps window closed_right reduce
      ≡ map
          (λ rank.
            reduce_or nan reduce
              (aligned (in_window window closed_right rank) (dense_rank timestamps) vals))
          (dense_rank timestamps)
unfolding rolling_commit_rank
rolling_commit_rank-windows nan vals timestamps window closed_right reduce s e =
    let ranks = dense_rank timestamps in
    let sizes : length ranks ≡ length vals = length-dense_rank timestamps ∙ e in
    ap (λ f. map f (range (length vals)))
      (fun_ext λ i.
        commit_rank_row-aligned nan reduce ranks vals window closed_right i
          (dense_rank-Ascending timestamps s) sizes)
    ∙ ap
        (λ n.
          map
            (λ i.
              reduce_or nan reduce
                (aligned (in_window window closed_right (get_or ranks i 0)) ranks vals))
            (range n))
        (sym sizes)
    ∙ map-range ranks 0
        (λ rank. reduce_or nan reduce (aligned (in_window window closed_right rank) ranks vals))

-- The last `n` values of a list.
abbrev pub take_last {ℓ} : {A : Type ℓ} → ℕ → List A → List A
take_last n xs = drop (length xs - n) xs

drop-take {ℓ} :
    {A : Type ℓ} (lo hi : ℕ) (xs : List A) → drop lo (take hi xs) ≡ take (hi - lo) (drop lo xs)
drop-take zero hi xs = ap (λ n. take n xs) {x = hi} {y = hi - 0} (omega arith)
drop-take (suc lo) zero xs =
    ap (λ n. take n (drop (suc lo) xs)) {x = 0} {y = 0 - suc lo} (omega arith)
drop-take (suc lo) (suc hi) [] = sym (take-nil _)
drop-take (suc lo) (suc hi) (x ∷ xs) =
    drop-take lo hi xs
    ∙ ap (λ n. take n (drop lo xs)) {x = hi - lo} {y = suc hi - suc lo} (omega arith)

-- A row's result is the reduction of the last `window` values among those up to the row itself.
pub rolling_row_count-take_last {ℓ κ} :
    {A : Type ℓ} {B : Type κ} (xs : List A) (window : ℕ) (reduce : List A → B) (d : B) (i : ℕ)
    → i < length xs
    → get_or (rolling_row_count xs window reduce) i d ≡ reduce (take_last window (take (i + 1) xs))
unfolding rolling_row_count
rolling_row_count-take_last xs window reduce d i h =
    let start : length (take (i + 1) xs) - window ≡ i + 1 - window =
      omega (arith, length-take (i + 1) xs) in
    get_or-map-range (λ k. reduce (slice (k + 1 - window) (k + 1) xs)) d (length xs) i h
    ∙ ap reduce (
        sym (drop-take (i + 1 - window) (i + 1) xs)
        ∙ ap (λ n. drop n (take (i + 1) xs)) (sym start))
