-- ===== src/Base/Sort.antt =====
-- Go's stable sort and its binary search (sort.SliceStable, slices.Sort, sort.Search), as the code
-- uses them.
use conbench.Base.{
  ℕ, zero, suc, ◌+◌, ◌/◌, ◌≤◌, ◌<◌, ◌≡◌, refl, Bool, true, false, List, [], ◌∷◌, arith, ltb,
  if◌then◌else◌, count_if, ◌||◌, ◌==◌, Bool-cases, inl, inr, All,
}

module _ {ℓ} {A : Type ℓ} (less : A → A → Bool) where
  -- In front of the first item that is not less than `x`, so that ties keep their order.
  unfoldable pub insert_sorted : A → List A → List A
  insert_sorted x [] = x ∷ []
  insert_sorted x (y ∷ ys) =
      let rest = insert_sorted x ys in if less y x then y ∷ rest else x ∷ y ∷ ys

  unfoldable pub sort : List A → List A
  unfolding insert_sorted
  sort [] = []
  sort (x ∷ xs) = insert_sorted x (sort xs)

  count_if-insert_sorted :
      (p : A → Bool) (x : A) (xs : List A) → count_if p (insert_sorted x xs) ≡ count_if p (x ∷ xs)
  unfolding insert_sorted
  count_if-insert_sorted p x [] = refl
  count_if-insert_sorted p x (y ∷ ys) = ground (arith, count_if-insert_sorted p x ys)

  -- Sorting keeps every item as often as it stood there.
  pub count_if-sort : (p : A → Bool) (xs : List A) → count_if p (sort xs) ≡ count_if p xs
  unfolding sort
  count_if-sort p [] = refl
  count_if-sort p (x ∷ xs) =
      ground (arith, count_if-insert_sorted p x (sort xs), count_if-sort p xs)

module _ {ℓ} {A : Type ℓ} (P : A → Type 0) (less : A → A → Bool) where
  All-insert_sorted : (x : A) (xs : List A) → P x → All P xs → All P (insert_sorted less x xs)
  unfolding insert_sorted
  All-insert_sorted x [] p all = (p, tt)
  All-insert_sorted x (y ∷ ys) p all = elim (Bool-cases (less y x)) [
    | inl e ↦ rw e (all.0, All-insert_sorted x ys p all.1)
    | inr e ↦ rw e (p, all)
  ]

  pub All-sort : (xs : List A) → All P xs → All P (sort less xs)
  unfolding sort
  All-sort [] all = tt
  All-sort (x ∷ xs) all = All-insert_sorted x (sort less xs) all.0 (All-sort xs all.1)

-- Ascending lists of numbers.
abbrev pub AscendingFrom : ℕ → List ℕ → Type 0
AscendingFrom a [] = Unit {0}
AscendingFrom a (x ∷ xs) = (a ≤ x) × AscendingFrom x xs

abbrev pub Ascending : List ℕ → Type 0
Ascending xs = AscendingFrom 0 xs

pub AscendingFrom-weaken : (a b : ℕ) (xs : List ℕ) → a ≤ b → AscendingFrom b xs → AscendingFrom a xs
AscendingFrom-weaken a b [] h s = tt
AscendingFrom-weaken a b (x ∷ xs) h s = (omega arith, s.1)

AscendingFrom-insert_sorted :
    (a x : ℕ) (xs : List ℕ) → a ≤ x → AscendingFrom a xs → AscendingFrom a (insert_sorted ltb x xs)
unfolding insert_sorted
AscendingFrom-insert_sorted a x [] h s = (h, tt)
AscendingFrom-insert_sorted a x (y ∷ ys) h s = elim (Bool-cases (ltb y x)) [
  | inl e ↦ rw e (s.0, AscendingFrom-insert_sorted y x ys (ground arith) s.1)
  | inr e ↦ rw e (h, (ground arith, s.1))
]

pub sort-Ascending : (xs : List ℕ) → Ascending (sort ltb xs)
unfolding sort
sort-Ascending [] = tt
sort-Ascending (x ∷ xs) =
    AscendingFrom-insert_sorted 0 x (sort ltb xs) (omega arith) (sort-Ascending xs)

abbrev pub contains : ℕ → List ℕ → Bool
contains v [] = false
contains v (x ∷ xs) = x == v || contains v xs

pub contains-count_if : (v : ℕ) (xs : List ℕ) → contains v xs ≡ ltb 0 (count_if (λ x. x == v) xs)
contains-count_if v [] = refl
contains-count_if v (x ∷ xs) = ground (arith, contains-count_if v xs)

pub contains-sort : (v : ℕ) (xs : List ℕ) → contains v (sort ltb xs) ≡ contains v xs
contains-sort v xs =
    rw (
      contains-count_if v (sort ltb xs),
      contains-count_if v xs,
      count_if-sort ltb (λ x. x == v) xs,
    )

-- sort.Search: the loop `for i < j`, with fuel for its rounds.
unfoldable pub search_loop : ℕ → (ℕ → Bool) → ℕ → ℕ → ℕ
search_loop zero f i j = i
search_loop (suc n) f i j =
    let h = (i + j) / 2 in
    let lower = search_loop n f i h in
    let upper = search_loop n f (h + 1) j in if ltb i j then (if f h then lower else upper) else i

unfoldable pub sort_search : ℕ → (ℕ → Bool) → ℕ
unfolding search_loop
sort_search n f = search_loop n f 0 n

-- A test that, once passed, stays passed.
abbrev pub StaysTrue : ℕ → (ℕ → Bool) → Type 0
StaysTrue n f = (a b : ℕ) → a ≤ b → b < n → f a ≡ true → f b ≡ true

-- `r` is the first position below `n` at which the test passes, or `n`.
pub record IsFirst (n : ℕ) (f : ℕ → Bool) (r : ℕ) : Type 0 where
  pub in_range : r ≤ n
  pub before : (k : ℕ) → k < r → f k ≡ false
  pub after : (k : ℕ) → r ≤ k → k < n → f k ≡ true

module _ (n : ℕ) (f : ℕ → Bool) (stays : StaysTrue n f) where
  search_loop-IsFirst :
      (fuel i j : ℕ)
      → j ≤ i + fuel
      → i ≤ j
      → j ≤ n
      → ((k : ℕ) → k < i → f k ≡ false)
      → ((k : ℕ) → j ≤ k → k < n → f k ≡ true)
      → IsFirst n f (search_loop fuel f i j)
  unfolding search_loop
  search_loop-IsFirst zero i j e l b lo hi = record {
    in_range = omega arith;
    before = lo;
    after = λ k p q. hi k (omega arith) q;
  }
  search_loop-IsFirst (suc fuel) i j e l b lo hi = elim (Bool-cases (ltb i j)) [
    | inr stop ↦
        rw stop
          (record { in_range = omega arith; before = lo; after = λ k p q. hi k (ground arith) q })
    | inl more ↦
        let h : ℕ = (i + j) / 2 in
        let below : i < j = ground arith in
        let mid : h < j = omega arith in
        rw more (elim (Bool-cases (f h)) [
          | inl p ↦ rw p (
              search_loop-IsFirst fuel i h (omega arith) (omega arith) (omega arith) lo
                (λ k q r. stays h k q r p))
          | inr p ↦ rw p (
              search_loop-IsFirst fuel (h + 1) j (omega arith) (omega arith) b
                (λ k q. elim (Bool-cases (f k)) [
                  | inr r ↦ r
                  | inl r ↦ absurd (cc (stays k h (omega arith) (omega arith) r))
                ])
                hi)
        ])
  ]

  -- Fuel `n` is enough: the range loses at least one position a round.
  pub sort_search-IsFirst : IsFirst n f (sort_search n f)
  unfolding sort_search
  sort_search-IsFirst =
      search_loop-IsFirst n 0 n (omega arith) (omega arith) (omega arith)
        (λ k q. absurd (omega arith)) (λ k p q. absurd (omega arith))
