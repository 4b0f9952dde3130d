-- ===== src/Stats/Window/Ranks.antt =====
-- The ranks of denseRank (internal/stats/window.go).
use conbench.Base.{
  ℕ, ◌+◌, ◌-◌, ◌≤◌, ◌<◌, ◌≡◌, refl, sym, ◌∙◌, ◌↔◌, inl, inr, true, ◌&&◌, ◌||◌, Option, none, some,
  List, [], ◌∷◌, arith, ltb, leb, ◌==◌, if◌then◌else◌, Bool-cases,
}
use conbench.Base.Maps.{Map, lookup, insert, lookup-insert, nat_key}
use conbench.Base.Sort.{
  sort, sort-Ascending, Ascending, AscendingFrom, AscendingFrom-weaken, contains, contains-sort,
}
use conbench.Stats.Window.{is_new, fill_ranks, or_zero, rank_in}

-- How many of the sorted values `vs`, after `prev`, are new and at most `v`.
news : Option ℕ → List ℕ → ℕ → ℕ
news prev [] v = 0
news prev (w ∷ ws) v = (if is_new prev w && leb w v then 1 else 0) + news (some w) ws v

-- Values above `v` leave its entry alone.
lookup-fill_ranks_below :
    (r p v : ℕ) (vs : List ℕ) (m : Map ℕ ℕ)
    → AscendingFrom p vs
    → v ≤ p
    → lookup v (fill_ranks r (some p) vs m) ≡ lookup v m
unfolding fill_ranks
lookup-fill_ranks_below r p v [] m s h = refl
lookup-fill_ranks_below r p v (w ∷ ws) m s h = elim (Bool-cases (p == w)) [
  | inl old ↦ rw old (lookup-fill_ranks_below r w v ws m s.1 (omega (arith, s.0)))
  | inr new ↦ rw new (
      lookup-fill_ranks_below (r + 1) w v ws (insert w (r + 1) m) s.1 (omega (arith, s.0))
      ∙ ground (arith, lookup-insert w v (r + 1) m))
]

news_below : (p v : ℕ) (vs : List ℕ) → AscendingFrom p vs → v ≤ p → news (some p) vs v ≡ 0
unfolding news
news_below p v [] s h = refl
news_below p v (w ∷ ws) s h = ground (arith, news_below w v ws)

pub contains-AscendingFrom :
    (p v : ℕ) (vs : List ℕ) → AscendingFrom p vs → contains v vs ≡ true → p ≤ v
contains-AscendingFrom p v [] s h = absurd (cc)
contains-AscendingFrom p v (w ∷ ws) s h = ground (arith, contains-AscendingFrom w v ws)

lookup-fill_ranks :
    (r p v : ℕ) (vs : List ℕ) (m : Map ℕ ℕ)
    → AscendingFrom p vs
    → lookup p m ≡ some r
    → (v == p || contains v vs) ≡ true
    → lookup v (fill_ranks r (some p) vs m) ≡ some (r + news (some p) vs v)
unfolding fill_ranks news
lookup-fill_ranks r p v [] m s e h = ground arith
lookup-fill_ranks r p v (w ∷ ws) m s e h = elim (Bool-cases (p == w)) [
  | inl old ↦
      let same : p ≡ w = ground arith in
      let found = lookup-fill_ranks r w v ws m s.1 (rw same at e) (ground arith) in
      rw old (ground (arith, found))
  | inr new ↦ rw new (elim (Bool-cases (v == p)) [
    | inl here ↦
        let unseen =
          lookup-fill_ranks_below (r + 1) w v ws (insert w (r + 1) m) s.1 (ground arith) in
        let none_new = news_below w v ws s.1 (ground arith) in
        ground (arith, unseen, none_new, lookup-insert w v (r + 1) m)
    | inr later ↦
        let found =
          lookup-fill_ranks (r + 1) w v ws (insert w (r + 1) m) s.1
            (ground (arith, lookup-insert w w (r + 1) m)) (ground arith) in
        ground (arith, found, contains-AscendingFrom w v ws s.1)
  ])
]

-- The rank of a value that stands in the list, by the sorted list.
rank_in-eq-news :
    (xs : List ℕ) (v : ℕ) → contains v xs ≡ true → rank_in xs v ≡ news none (sort ltb xs) v
unfolding rank_in fill_ranks news
rank_in-eq-news xs v h = go (sort ltb xs) (sort-Ascending xs) (contains-sort v xs ∙ h)
  where
    go :
        (s : List ℕ)
        → Ascending s
        → contains v s ≡ true
        → or_zero (lookup v (fill_ranks 0 none s [])) ≡ news none s v
    go [] a c = absurd (cc)
    go (w ∷ ws) a c =
        let found =
          lookup-fill_ranks 1 w v ws (insert w 1 []) a.1
            (ground (arith, lookup-insert {V = ℕ} w w 1 [])) (ground arith) in
        ground (arith, found, contains-AscendingFrom w v ws a.1)

news_mono : (prev : Option ℕ) (vs : List ℕ) (a b : ℕ) → a ≤ b → news prev vs a ≤ news prev vs b
unfolding news
news_mono prev [] a b h = omega arith
news_mono prev (w ∷ ws) a b h = ground (arith, news_mono (some w) ws a b h)

news-lt_from :
    (p a b : ℕ) (vs : List ℕ)
    → AscendingFrom p vs
    → a < b
    → p < b
    → contains b vs ≡ true
    → news (some p) vs a < news (some p) vs b
unfolding news
news-lt_from p a b [] s h k c = absurd (cc)
news-lt_from p a b (w ∷ ws) s h k c = elim (Bool-cases (w == b)) [
  | inl here ↦ ground (arith, news_mono (some w) ws a b)
  | inr later ↦ ground (arith, news-lt_from w a b ws, contains-AscendingFrom w b ws s.1)
]

news-lt :
    (a b : ℕ) (vs : List ℕ)
    → Ascending vs
    → a < b
    → contains b vs ≡ true
    → news none vs a < news none vs b
unfolding news
news-lt a b [] s h c = absurd (cc)
news-lt a b (w ∷ ws) s h c = elim (Bool-cases (w == b)) [
  | inl here ↦ ground (arith, news_mono (some w) ws a b)
  | inr later ↦ ground (arith, news-lt_from w a b ws, contains-AscendingFrom w b ws s.1)
]

news_gapless :
    (prev : Option ℕ) (vs : List ℕ) (b r : ℕ)
    → Ascending vs
    → 1 ≤ r
    → r ≤ news prev vs b
    → (a : ℕ) × (contains a vs ≡ true) × (news prev vs a ≡ r)
unfolding news
news_gapless prev [] b r s l h = absurd (omega arith)
news_gapless prev (w ∷ ws) b r s l h = elim (Bool-cases (is_new prev w)) [
  | inr old ↦
      let (a, c, e) =
        news_gapless (some w) ws b r (AscendingFrom-weaken 0 w ws (omega arith) s.1) l
          (ground arith) in
      (a, ground arith, ground arith)
  | inl new ↦ elim (Bool-cases (leb r 1)) [
    | inl first ↦ (w, ground arith, ground (arith, news_below w w ws s.1))
    | inr more ↦
        let low : w ≤ b = ground (arith, news_below w b ws s.1) in
        let (a, c, e) =
          news_gapless (some w) ws b (r - 1) (AscendingFrom-weaken 0 w ws (omega arith) s.1)
            (ground arith) (ground arith) in
        (a, ground arith, ground (arith, contains-AscendingFrom w a ws s.1))
  ]
]

module _ (xs : List ℕ) where
  pub rank_in_mono :
      (a b : ℕ) → contains a xs ≡ true → contains b xs ≡ true → a ≤ b → rank_in xs a ≤ rank_in xs b
  rank_in_mono a b ca cb h =
      rw (rank_in-eq-news xs a ca, rank_in-eq-news xs b cb) (news_mono none (sort ltb xs) a b h)

  pub rank_in-lt :
      (a b : ℕ) → contains a xs ≡ true → contains b xs ≡ true → a < b → rank_in xs a < rank_in xs b
  rank_in-lt a b ca cb h =
      rw (rank_in-eq-news xs a ca, rank_in-eq-news xs b cb)
        (news-lt a b (sort ltb xs) (sort-Ascending xs) h (contains-sort b xs ∙ cb))

-- Among the values of a list, ranks are ordered as the values are; so equal values, and only
-- they, share a rank.
pub rank_in-le_iff :
    (xs : List ℕ) (a b : ℕ)
    → contains a xs ≡ true
    → contains b xs ≡ true
    → (rank_in xs a ≤ rank_in xs b) ↔ (a ≤ b)
rank_in-le_iff xs a b ca cb = (
  (λ h. elim (Bool-cases (leb a b)) [
    | inl le ↦ ground arith
    | inr gt ↦ absurd (omega (arith, rank_in-lt xs b a cb ca (ground arith)))
  ]),
  rank_in_mono xs a b ca cb,
)

-- Every number from 1 up to a rank is the rank of some value of the list.
pub rank_in_gapless :
    (xs : List ℕ) (b r : ℕ)
    → contains b xs ≡ true
    → 1 ≤ r
    → r ≤ rank_in xs b
    → (a : ℕ) × (contains a xs ≡ true) × (rank_in xs a ≡ r)
rank_in_gapless xs b r c l h =
    let s = sort ltb xs in
    let (a, m, e) =
      news_gapless none s b r (sort-Ascending xs) l (rw (← rank_in-eq-news xs b c) h) in
    let inside : contains a xs ≡ true = sym (contains-sort a xs) ∙ m in
    (a, inside, rank_in-eq-news xs a inside ∙ e)
