-- ===== src/Base/Positions.antt =====
-- Lists of positions under map, count_if and contains.
use conbench.Base.{
  ℕ, zero, suc, ◌≡◌, refl, ap, inl, inr, Bool, true, List, [], ◌∷◌, map, arith, length, replicate,
  count_if, Bool-cases, ◌==◌, ==_iff,
}
use conbench.Base.Sort.{contains}

pub contains-map :
    (f : ℕ → ℕ) (is : List ℕ) (i : ℕ) → contains i is ≡ true → contains (f i) (map f is) ≡ true
contains-map f [] i h = cc
contains-map f (k ∷ ks) i h = elim (Bool-cases (k == i)) [
  | inl e ↦ ground (arith, ap f ((==_iff k i).0 e))
  | inr e ↦ ground (arith, contains-map f ks i)
]

pub map-contains {ℓ} :
    {B : Type ℓ} (f g : ℕ → B) (is : List ℕ)
    → ((i : ℕ) → contains i is ≡ true → f i ≡ g i)
    → map f is ≡ map g is
map-contains f g [] h = refl
map-contains f g (i ∷ is) h =
    rw (h i (ground arith), map-contains f g is (λ j k. h j (ground arith))) refl

pub count_if-contains :
    (p q : ℕ → Bool) (is : List ℕ)
    → ((i : ℕ) → contains i is ≡ true → p i ≡ q i)
    → count_if p is ≡ count_if q is
count_if-contains p q [] h = refl
count_if-contains p q (i ∷ is) h =
    rw (h i (ground arith), count_if-contains p q is (λ j k. h j (ground arith))) refl

pub map_id {ℓ} : {A : Type ℓ} (xs : List A) → map (λ x. x) xs ≡ xs
map_id [] = refl
map_id (x ∷ xs) = ap (λ r. x ∷ r) (map_id xs)

pub map-map {ℓ κ ι} :
    {A : Type ℓ} {B : Type κ} {C : Type ι} (f : B → C) (g : A → B) (xs : List A)
    → map f (map g xs) ≡ map (λ x. f (g x)) xs
map-map f g [] = refl
map-map f g (x ∷ xs) = ap (λ r. f (g x) ∷ r) (map-map f g xs)

pub count_if-map {ℓ κ} :
    {A : Type ℓ} {B : Type κ} (p : B → Bool) (f : A → B) (xs : List A)
    → count_if p (map f xs) ≡ count_if (λ x. p (f x)) xs
count_if-map p f [] = refl
count_if-map p f (x ∷ xs) = ground (arith, count_if-map p f xs)

pub count_if_all {ℓ} : {A : Type ℓ} (xs : List A) → count_if (λ x. true) xs ≡ length xs
count_if_all [] = refl
count_if_all (x ∷ xs) = ap suc (count_if_all xs)

pub map-replicate {ℓ κ} :
    {A : Type ℓ} {B : Type κ} (f : A → B) (n : ℕ) (a : A)
    → map f (replicate n a) ≡ replicate n (f a)
map-replicate f zero a = refl
map-replicate f (suc n) a = ap (λ r. f a ∷ r) (map-replicate f n a)
