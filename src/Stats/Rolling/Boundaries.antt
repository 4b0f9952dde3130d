-- ===== src/Stats/Rolling/Boundaries.antt =====
-- RollingStatsForSeries (internal/stats/rolling.go): the segment of each point of the input.
use conbench.Base.{
  ℕ, ◌<◌, ◌≡◌, refl, sym, ◌∙◌, ap, Bool, true, false, ◌&&◌, List, [], ◌∷◌, map, arith, ltb, leb,
  length, get_or, replicate, count_if, fun_ext, length-map, length-replicate, All,
}
use conbench.Base.Sort.{Ascending, contains, count_if-sort, sort, sort-Ascending}
use conbench.Base.Range.{range, map-range, length-range, get_or-map-range}
use conbench.Base.Scatter.{
  map-sort, contains-sort_by, contains-range, list_ext, range-below, get_or-All,
}
use conbench.Base.Positions.{
  contains-map, map-contains, count_if-contains, map_id, map-map, count_if-map, count_if_all,
  map-replicate,
}
use conbench.Floats.{Floats}
use conbench.Stats.Window.{dense_rank, rank_in}
use conbench.Stats.Window.Ranks.{rank_in-le_iff}
use conbench.Stats.Window.Windows.{dense_rank-Ascending}
use conbench.Stats.Shifts.{SeriesPoint, scatter, no_point, point_at, stable_order, detect_shifts}
use conbench.Stats.Rolling.{
  RollingStats, segments, series_row, rolling_stats_for_series, no_stats, unix_nano,
}
use conbench.Stats.Rolling.Nanos.{IsNanoTime, unix_nano-leb, Ascending-unix_nano, All-map_contains}
use conbench.Stats.Rolling.Segments.{
  length-scatter, get_or-scatter, map-scatter, count_flagged, segments-count_flagged,
}

-- The flagged rows below a value are counted the same by rank and by value.
count_flagged-count_if :
    (ts : ℕ → ℕ) (begins : ℕ → Bool) (all is : List ℕ) (t : ℕ)
    → contains t all ≡ true
    → ((i : ℕ) → contains i is ≡ true → contains (ts i) all ≡ true)
    → count_flagged (λ k. leb k (rank_in all t)) (map (rank_in all) (map ts is)) (map begins is)
      ≡ count_if (λ i. begins i && leb (ts i) t) is
unfolding count_flagged
count_flagged-count_if ts begins all [] t c sub = refl
count_flagged-count_if ts begins all (i ∷ is) t c sub = ground (
  arith,
  count_flagged-count_if ts begins all is t c (λ j h. sub j (ground arith)),
  rank_in-le_iff all (ts i) t (sub i (ground arith)) c,
)

module _ (fl : Floats) (points : List (SeriesPoint fl.Float))
    (representable : All (λ (p : SeriesPoint fl.Float). IsNanoTime p.commit_timestamp) points) where
  open fl use {Float}

  time : ℕ → ℕ
  time i = (point_at fl points i).commit_timestamp

  nano : ℕ → ℕ
  nano i = unix_nano (time i)

  begins_at : ℕ → Bool
  begins_at i = (point_at fl points i).begins_distribution_change

  order : List ℕ
  order = stable_order fl points false

  by_time : order ≡ sort (λ a b. ltb (time a) (time b)) (range (length points))
  unfolding order stable_order time
  by_time = ap (λ less. sort less (range (length points))) (fun_ext λ a. fun_ext λ b. ground arith)

  times-Ascending : Ascending (map time order)
  times-Ascending =
      rw (by_time, map-sort time (range (length points)))
        (sort-Ascending (map time (range (length points))))

  contains-order : (i : ℕ) → i < length points → contains i order ≡ true
  contains-order i h =
      rw (by_time, contains-sort_by (λ a b. ltb (time a) (time b)) i (range (length points)))
        (contains-range (length points) i h)

  time-IsNanoTime : (i : ℕ) → contains i order ≡ true → IsNanoTime (time i)
  unfolding time
  time-IsNanoTime i h =
      let listed : contains i (range (length points)) ≡ true =
        sym (contains-sort_by (λ a b. ltb (time a) (time b)) i (range (length points)))
        ∙ rw by_time at h in
      get_or-All (λ (p : SeriesPoint Float). IsNanoTime p.commit_timestamp) (no_point fl) points i
        representable (range-below (length points) i listed)

  nanos-Ascending : Ascending (map nano order)
  unfolding nano
  nanos-Ascending = rw (sym (map-map unix_nano time order)) (
      Ascending-unix_nano (map time order) (All-map_contains IsNanoTime time order time-IsNanoTime)
        times-Ascending)

  -- How many boundary points are not later than the point at a position.
  boundaries : ℕ → ℕ
  boundaries idx = count_if (λ i. begins_at i && leb (time i) (time idx)) order

  boundaries-eq :
      (t : ℕ)
      → count_if (λ i. begins_at i && leb (time i) t) order
        ≡ count_if (λ q. q.begins_distribution_change && leb q.commit_timestamp t) points
  unfolding time begins_at
  boundaries-eq t = rw by_time (
      count_if-sort _ (λ i. begins_at i && leb (time i) t) (range (length points))
      ∙ sym (
          count_if-map
            (λ (q : SeriesPoint Float). q.begins_distribution_change && leb q.commit_timestamp t)
            (point_at fl points) (range (length points)))
      ∙ ap (count_if _) (map-range points (no_point fl) (λ q. q) ∙ map_id points))

  boundaries-nano :
      (idx : ℕ)
      → contains idx order ≡ true
      → count_if (λ i. begins_at i && leb (nano i) (nano idx)) order ≡ boundaries idx
  unfolding nano boundaries
  boundaries-nano idx h =
      count_if-contains (λ i. begins_at i && leb (nano i) (nano idx))
        (λ i. begins_at i && leb (time i) (time idx)) order
        λ i k.
          rw (unix_nano-leb (time i) (time idx) (time-IsNanoTime i k) (time-IsNanoTime idx h)) refl

  segments-boundaries :
      segments (dense_rank (map nano order)) (map begins_at order) ≡ map boundaries order
  unfolding dense_rank
  segments-boundaries =
      let tsv = map nano order in
      segments-count_flagged (dense_rank tsv) (map begins_at order)
        (dense_rank-Ascending tsv nanos-Ascending)
      ∙ map-map _ (rank_in tsv) tsv
      ∙ map-map _ nano order
      ∙ map-contains _ boundaries order (λ i c.
        count_flagged-count_if nano begins_at tsv order (nano i) (contains-map nano order i c)
          (λ j k. contains-map nano order j k)
        ∙ boundaries-nano i c)

  length-order : length order ≡ length points
  length-order = rw by_time (
      sym (count_if_all (sort (λ a b. ltb (time a) (time b)) (range (length points))))
      ∙ count_if-sort (λ a b. ltb (time a) (time b)) (λ i. true) (range (length points))
      ∙ count_if_all (range (length points))
      ∙ length-range (length points))

  -- Rows by position that hold a function of the point arrive in the order of the input.
  scatter-order :
      {B : Type 0} (d : B) (f : ℕ → B)
      → scatter order (map f order) (replicate (length points) d) ≡ map f (range (length points))
  scatter-order d f =
      let n = length points in
      let out = replicate n d in
      let size : length out ≡ n = length-replicate n d in
      list_ext d _ _
        (length-scatter order (map f order) out
          ∙ size
          ∙ sym (length-map (range n) f ∙ length-range n))
        (λ i h.
          let inside : i < n = rw (length-scatter order (map f order) out, size) at h in
          get_or-scatter f order out i d (rw size inside)
          ∙ rw (contains-order i inside) (sym (get_or-map-range f d n i inside)))

  rows-segment_id :
      (row : ℕ → RollingStats Float)
      → ((i : ℕ)
          → (row i).segment_id
            ≡ get_or (segments (dense_rank (map nano order)) (map begins_at order)) i 0)
      → map
          (λ (r : RollingStats Float). r.segment_id)
          (scatter order
            (map row (range (length points)))
            (replicate (length points) (no_stats fl)))
        ≡ map boundaries (range (length points))
  rows-segment_id row h =
      let n = length points in
      let segment = segments (dense_rank (map nano order)) (map begins_at order) in
      let column : map (λ i. (row i).segment_id) (range n) ≡ map boundaries order =
        ap (λ f. map f (range n)) (fun_ext h)
        ∙ ap (λ m. map (λ i. get_or segment i 0) (range m))
            (sym (ap length segments-boundaries ∙ length-map order boundaries ∙ length-order))
        ∙ map-range segment 0 (λ s. s)
        ∙ map_id segment
        ∙ segments-boundaries in
      map-scatter (λ (r : RollingStats Float). r.segment_id) order (map row (range n))
        (replicate n (no_stats fl))
      ∙ ap
          (λ rows.
            scatter order rows
              (map (λ (r : RollingStats Float). r.segment_id) (replicate n (no_stats fl))))
          (map-map _ row (range n) ∙ column)
      ∙ ap (scatter order (map boundaries order))
          (map-replicate (λ (r : RollingStats Float). r.segment_id) n (no_stats fl))
      ∙ scatter-order 0 boundaries

-- When every commit time is one that UnixNano holds as it is, the segment of every point, in the
-- order of the input, is the number of points that begin a distribution change and are committed no
-- later than it. So points with one commit time share a segment, wherever among them a boundary is
-- marked.
pub rolling_stats_for_series-segment_id :
    (fl : Floats) (points : List (SeriesPoint fl.Float)) (include_current : Bool) (commits : ℕ)
    → All (λ (p : SeriesPoint fl.Float). IsNanoTime p.commit_timestamp) points
    → map
        (λ (r : RollingStats fl.Float). r.segment_id)
        (rolling_stats_for_series fl points include_current commits)
      ≡ map
          (λ (p : SeriesPoint fl.Float).
            count_if
              (λ (q : SeriesPoint fl.Float).
                q.begins_distribution_change && leb q.commit_timestamp p.commit_timestamp)
              points)
          points
unfolding rolling_stats_for_series order nano series_row time begins_at boundaries
rolling_stats_for_series-segment_id fl points include_current commits inside =
    rows-segment_id fl points inside
      (series_row fl points (detect_shifts fl points commits) (stable_order fl points false)
        include_current commits)
      (λ i. refl)
    ∙ ap (λ f. map f (range (length points)))
        (fun_ext λ i. boundaries-eq fl points inside (time fl points inside i))
    ∙ map-range points (no_point fl) (λ (p : SeriesPoint fl.Float).
      count_if
        (λ (q : SeriesPoint fl.Float).
          q.begins_distribution_change && leb q.commit_timestamp p.commit_timestamp)
        points)
