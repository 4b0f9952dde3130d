-- ===== src/Base/Range.antt =====
-- `for i := range n`: the positions of a slice, and a loop that fills a slice by position.
use conbench.Base.{
  ℕ, zero, suc, ◌+◌, ◌<◌, ◌≡◌, refl, ap, List, [], ◌∷◌, map, arith, length, get_or, ◌∙◌,
}

unfoldable pub range_from : ℕ → ℕ → List ℕ
range_from i zero = []
range_from i (suc n) = i ∷ range_from (suc i) n

unfoldable pub range : ℕ → List ℕ
unfolding range_from
range n = range_from 0 n

map-range_from-suc {ℓ} :
    {B : Type ℓ} (f : ℕ → B) (i n : ℕ)
    → map f (range_from (suc i) n) ≡ map (λ k. f (suc k)) (range_from i n)
unfolding range_from
map-range_from-suc f i zero = refl
map-range_from-suc f i (suc n) = ap (λ r. f (suc i) ∷ r) (map-range_from-suc f (suc i) n)

map-range_from_get {ℓ κ} :
    {A : Type ℓ} {B : Type κ} (xs : List A) (d : A) (f : A → B)
    → map (λ i. f (get_or xs i d)) (range_from 0 (length xs)) ≡ map f xs
unfolding range_from
map-range_from_get [] d f = refl
map-range_from_get (x ∷ xs) d f =
    ap (λ r. f x ∷ r)
      (map-range_from-suc (λ i. f (get_or (x ∷ xs) i d)) 0 (length xs) ∙ map-range_from_get xs d f)

-- Reading every position of a slice is a map over the slice.
pub map-range {ℓ κ} :
    {A : Type ℓ} {B : Type κ} (xs : List A) (d : A) (f : A → B)
    → map (λ i. f (get_or xs i d)) (range (length xs)) ≡ map f xs
unfolding range
map-range xs d f = map-range_from_get xs d f

length-range_from : (i n : ℕ) → length (range_from i n) ≡ n
unfolding range_from
length-range_from i zero = refl
length-range_from i (suc n) = ap suc (length-range_from (suc i) n)

pub length-range : (n : ℕ) → length (range n) ≡ n
unfolding range
length-range n = length-range_from 0 n

get_or-range_from {ℓ} :
    {B : Type ℓ} (f : ℕ → B) (d : B) (i n k : ℕ)
    → k < n
    → get_or (map f (range_from i n)) k d ≡ f (i + k)
unfolding range_from
get_or-range_from f d i zero k h = absurd (omega arith)
get_or-range_from f d i (suc n) zero h = ap f (omega arith)
get_or-range_from f d i (suc n) (suc k) h =
    get_or-range_from f d (suc i) n k (omega arith) ∙ ap f (omega arith)

pub get_or-map-range {ℓ} :
    {B : Type ℓ} (f : ℕ → B) (d : B) (n k : ℕ) → k < n → get_or (map f (range n)) k d ≡ f k
unfolding range
get_or-map-range f d n k h = get_or-range_from f d 0 n k h ∙ ap f (omega arith)
