-- ===== src/Stats/Rolling/Segments.antt =====
-- The segments of a series (internal/stats/rolling.go), and the way from time order back to the
-- order of the input.
use conbench.Base.{
  ℕ, zero, suc, ◌+◌, ◌-◌, ◌<◌, ◌≡◌, refl, ◌∙◌, ap, inl, inr, Bool, true, false, ◌&&◌, List, [], ◌∷◌,
  map, arith, leb, length, get_or, set, replicate, if◌then◌else◌, Bool-cases, length-set,
  length-replicate, All, ◌==◌, ==_iff, ◌||◌, ◌⊎◌,
}
use conbench.Base.Sort.{Ascending, contains}
use conbench.Base.Scatter.{get_or-set, All-get_or}
use conbench.Stats.Shifts.{scatter}
use conbench.Stats.Rolling.{tally, accumulate, segments}
use conbench.Stats.Window.Slices.{get_or-AscendingFrom}

module _ {ℓ} {A : Type ℓ} where
  pub length-scatter : (is : List ℕ) (rows out : List A) → length (scatter is rows out) ≡ length out
  unfolding scatter
  length-scatter [] rows out = refl
  length-scatter (i ∷ is) [] out = refl
  length-scatter (i ∷ is) (row ∷ rows) out =
      length-scatter is rows (set out i row) ∙ length-set out i row

  -- Rows computed from their positions arrive at these positions.
  pub get_or-scatter :
      (f : ℕ → A) (is : List ℕ) (out : List A) (i : ℕ) (d : A)
      → i < length out
      → get_or (scatter is (map f is) out) i d ≡ (if contains i is then f i else get_or out i d)
  unfolding scatter
  get_or-scatter f [] out i d h = refl
  get_or-scatter f (k ∷ ks) out i d h = elim (Bool-cases (contains i ks)) [
    | inl e ↦
        get_or-scatter f ks (set out k (f k)) i d (rw (length-set out k (f k)) h)
        ∙ rw e (ground arith)
    | inr e ↦
        get_or-scatter f ks (set out k (f k)) i d (rw (length-set out k (f k)) h)
        ∙ rw e (get_or-set out i k (f k) d h ∙ at_head (Bool-cases (k == i)))
  ]
    where
      at_head :
          ((k == i) ≡ true) ⊎ ((k == i) ≡ false)
          → (if k == i then f k else get_or out i d)
            ≡ (if k == i || false then f i else get_or out i d)
      at_head (inl e) = rw e (ap f ((==_iff k i).0 e))
      at_head (inr e) = rw e

module _ {ℓ κ} {A : Type ℓ} {B : Type κ} (g : A → B) where
  map-set : (out : List A) (i : ℕ) (v : A) → map g (set out i v) ≡ set (map g out) i (g v)
  map-set [] i v = refl
  map-set (x ∷ xs) zero v = refl
  map-set (x ∷ xs) (suc i) v = ap (λ r. g x ∷ r) (map-set xs i v)

  pub map-scatter :
      (is : List ℕ) (rows out : List A)
      → map g (scatter is rows out) ≡ scatter is (map g rows) (map g out)
  unfolding scatter
  map-scatter [] rows out = refl
  map-scatter (i ∷ is) [] out = refl
  map-scatter (i ∷ is) (row ∷ rows) out =
      map-scatter is rows (set out i row) ∙ ap (scatter is (map g rows)) (map-set out i row)

-- How many of the flagged rows have a rank that passes the test.
unfoldable pub count_flagged : (ℕ → Bool) → List ℕ → List Bool → ℕ
count_flagged p (r ∷ rs) (b ∷ bs) = (if b && p r then 1 else 0) + count_flagged p rs bs
count_flagged p rs bs = 0

prefix_sum : List ℕ → ℕ → ℕ
prefix_sum [] r = 0
prefix_sum (x ∷ xs) zero = x
prefix_sum (x ∷ xs) (suc r) = x + prefix_sum xs r

get_or-accumulate :
    (s : ℕ) (xs : List ℕ) (r : ℕ)
    → r < length xs
    → get_or (accumulate s xs) r 0 ≡ s + prefix_sum xs r
unfolding accumulate prefix_sum
get_or-accumulate s [] r h = absurd (omega arith)
get_or-accumulate s (x ∷ xs) zero h = refl
get_or-accumulate s (x ∷ xs) (suc r) h = omega (arith, get_or-accumulate (s + x) xs r (omega arith))

prefix_sum-bump :
    (cum : List ℕ) (k r : ℕ)
    → k < length cum
    → prefix_sum (set cum k (get_or cum k 0 + 1)) r ≡ prefix_sum cum r + (if leb k r then 1 else 0)
unfolding prefix_sum
prefix_sum-bump [] k r h = absurd (omega arith)
prefix_sum-bump (x ∷ xs) zero zero h = ground arith
prefix_sum-bump (x ∷ xs) zero (suc r) h = ground arith
prefix_sum-bump (x ∷ xs) (suc k) zero h = ground arith
prefix_sum-bump (x ∷ xs) (suc k) (suc r) h = ground (arith, prefix_sum-bump xs k r)

prefix_sum-zeros : (n r : ℕ) → prefix_sum (replicate n 0) r ≡ 0
unfolding prefix_sum
prefix_sum-zeros zero r = refl
prefix_sum-zeros (suc n) zero = refl
prefix_sum-zeros (suc n) (suc r) = omega (arith, prefix_sum-zeros n r)

length-tally : (rs : List ℕ) (bs : List Bool) (cum : List ℕ) → length (tally rs bs cum) ≡ length cum
unfolding tally
length-tally [] bs cum = refl
length-tally (r ∷ rs) [] cum = refl
length-tally (r ∷ rs) (true ∷ bs) cum = length-tally rs bs _ ∙ length-set cum r (get_or cum r 0 + 1)
length-tally (r ∷ rs) (false ∷ bs) cum = length-tally rs bs cum

prefix_sum-tally :
    (rs : List ℕ) (bs : List Bool) (cum : List ℕ) (r : ℕ)
    → All (λ k. k < length cum) rs
    → prefix_sum (tally rs bs cum) r ≡ prefix_sum cum r + count_flagged (λ k. leb k r) rs bs
unfolding tally count_flagged
prefix_sum-tally [] bs cum r h = omega arith
prefix_sum-tally (k ∷ ks) [] cum r h = omega arith
prefix_sum-tally (k ∷ ks) (true ∷ bs) cum r h =
    let cum' = set cum k (get_or cum k 0 + 1) in
    let rest = prefix_sum-tally ks bs cum' r (rw (length-set cum k (get_or cum k 0 + 1)) h.1) in
    ground (arith, rest, prefix_sum-bump cum k r h.0)
prefix_sum-tally (k ∷ ks) (false ∷ bs) cum r h = omega (arith, prefix_sum-tally ks bs cum r h.1)

length-accumulate : (s : ℕ) (xs : List ℕ) → length (accumulate s xs) ≡ length xs
unfolding accumulate
length-accumulate s [] = refl
length-accumulate s (x ∷ xs) = ap suc (length-accumulate (s + x) xs)

last-bound :
    (ranks : List ℕ) → Ascending ranks → All (λ r. r < get_or ranks (length ranks - 1) 0 + 1) ranks
last-bound ranks s =
    All-get_or (λ r. r < get_or ranks (length ranks - 1) 0 + 1) 0 ranks
      λ i h.
        let (_, order) =
          get_or-AscendingFrom 0 ranks i (length ranks - 1) s (omega arith) (omega arith) in
        omega arith

map-All {ℓ} :
    {B : Type ℓ} (P : ℕ → Type 0) (f g : ℕ → B) (xs : List ℕ)
    → All P xs
    → ((x : ℕ) → P x → f x ≡ g x)
    → map f xs ≡ map g xs
map-All P f g [] a h = refl
map-All P f g (x ∷ xs) a h = rw (h x a.0, map-All P f g xs a.1 h)

-- Over ascending ranks the segment of a row is the number of flagged rows whose rank is at most its
-- own.
pub segments-count_flagged :
    (ranks : List ℕ) (begins : List Bool)
    → Ascending ranks
    → segments ranks begins ≡ map (λ r. count_flagged (λ k. leb k r) ranks begins) ranks
unfolding segments
segments-count_flagged ranks begins s =
    let size = get_or ranks (length ranks - 1) 0 + 1 in
    let cum = replicate size 0 in
    let inside : All (λ r. r < length cum) ranks =
      rw (length-replicate size (zero)) (last-bound ranks s) in
    map-All (λ r. r < length cum) (λ r. get_or (accumulate 0 (tally ranks begins cum)) r 0)
      (λ r. count_flagged (λ k. leb k r) ranks begins) ranks inside
      λ r h.
        let at =
          get_or-accumulate 0 (tally ranks begins cum) r (rw (length-tally ranks begins cum) h) in
        omega (arith, at, prefix_sum-tally ranks begins cum r inside, prefix_sum-zeros size r)
