-- ===== src/Base/Scatter.antt =====
-- Lists compared position by position, and sorting by a key.
use conbench.Base.{
  ℕ, zero, suc, ◌+◌, ◌≤◌, ◌<◌, ◌≡◌, refl, ◌∙◌, ap, inl, inr, Bool, true, List, [], ◌∷◌, map, arith,
  ltb, length, get_or, set, if◌then◌else◌, Bool-cases, ◌==◌, All,
}
use conbench.Base.Sort.{sort, insert_sorted, contains, contains-count_if, count_if-sort}
use conbench.Base.Range.{range, range_from}

pub list_ext {ℓ} :
    {A : Type ℓ} (d : A) (xs ys : List A)
    → length xs ≡ length ys
    → ((i : ℕ) → i < length xs → get_or xs i d ≡ get_or ys i d)
    → xs ≡ ys
list_ext d [] [] e h = refl
list_ext d [] (y ∷ ys) e h = absurd (omega arith)
list_ext d (x ∷ xs) [] e h = absurd (omega arith)
list_ext d (x ∷ xs) (y ∷ ys) e h =
    let heads : x ≡ y = h 0 (omega arith) in
    rw (heads, list_ext d xs ys (omega arith) (λ i k. h (suc i) (omega arith))) refl

module _ {ℓ} {A : Type ℓ} (key : A → ℕ) where
  map-insert_sorted :
      (x : A) (ys : List A)
      → map key (insert_sorted (λ a b. ltb (key a) (key b)) x ys)
        ≡ insert_sorted ltb (key x) (map key ys)
  unfolding insert_sorted
  map-insert_sorted x [] = refl
  map-insert_sorted x (y ∷ ys) = elim (Bool-cases (ltb (key y) (key x))) [
    | inl e ↦ rw e (ap (λ r. key y ∷ r) (map-insert_sorted x ys))
    | inr e ↦ rw e
  ]

  -- The keys of a list that is sorted by key are the sorted keys.
  pub map-sort :
      (xs : List A) → map key (sort (λ a b. ltb (key a) (key b)) xs) ≡ sort ltb (map key xs)
  unfolding sort
  map-sort [] = refl
  map-sort (x ∷ xs) = map-insert_sorted x _ ∙ ap (insert_sorted ltb (key x)) (map-sort xs)

pub contains-sort_by :
    (less : ℕ → ℕ → Bool) (v : ℕ) (xs : List ℕ) → contains v (sort less xs) ≡ contains v xs
contains-sort_by less v xs = rw (
  contains-count_if v (sort less xs),
  contains-count_if v xs,
  count_if-sort less (λ x. x == v) xs,
)

contains-range_from : (i n v : ℕ) → i ≤ v → v < i + n → contains v (range_from i n) ≡ true
unfolding range_from
contains-range_from i zero v l h = absurd (omega arith)
contains-range_from i (suc n) v l h = ground (arith, contains-range_from (suc i) n v)

pub contains-range : (n v : ℕ) → v < n → contains v (range n) ≡ true
unfolding range
contains-range n v h = contains-range_from 0 n v (omega arith) (omega arith)

range_from-below : (i n v : ℕ) → contains v (range_from i n) ≡ true → v < i + n
unfolding range_from
range_from-below i zero v h = absurd cc
range_from-below i (suc n) v h = elim (Bool-cases (i == v)) [
  | inl e ↦ let same : i ≡ v = ground arith in omega arith
  | inr e ↦
      let rest : v < suc i + n = range_from-below (suc i) n v (ground (arith, e, h)) in omega arith
]

pub range-below : (n v : ℕ) → contains v (range n) ≡ true → v < n
unfolding range
range-below n v h = let below : v < 0 + n = range_from-below 0 n v h in omega arith

pub get_or-set {ℓ} :
    {A : Type ℓ} (xs : List A) (i k : ℕ) (v d : A)
    → i < length xs
    → get_or (set xs k v) i d ≡ (if k == i then v else get_or xs i d)
get_or-set [] i k v d h = absurd (omega arith)
get_or-set (x ∷ xs) zero zero v d h = refl
get_or-set (x ∷ xs) zero (suc k) v d h = ground arith
get_or-set (x ∷ xs) (suc i) zero v d h = ground arith
get_or-set (x ∷ xs) (suc i) (suc k) v d h = get_or-set xs i k v d (omega arith) ∙ ground arith

pub All-get_or {ℓ} :
    {A : Type ℓ} (P : A → Type 0) (d : A) (xs : List A)
    → ((i : ℕ) → i < length xs → P (get_or xs i d))
    → All P xs
All-get_or P d [] h = tt
All-get_or P d (x ∷ xs) h = (h 0 (omega arith), All-get_or P d xs (λ i k. h (suc i) (omega arith)))

pub get_or-All {ℓ} :
    {A : Type ℓ} (P : A → Type 0) (d : A) (xs : List A) (i : ℕ)
    → All P xs
    → i < length xs
    → P (get_or xs i d)
get_or-All P d [] i h k = absurd (omega arith)
get_or-All P d (x ∷ xs) zero h k = h.0
get_or-All P d (x ∷ xs) (suc i) h k = get_or-All P d xs i h.1 (omega arith)
