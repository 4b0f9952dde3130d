-- ===== src/Stats/Window/Slices.antt =====
-- lowerCount and upperCount (internal/stats/window.go), and slices of an ascending list.
use conbench.Base.{
  ℕ, zero, suc, ◌≤◌, ◌<◌, ◌≡◌, refl, sym, ◌∙◌, ap, inl, inr, Bool, true, false, not, ◌&&◌, List, [],
  ◌∷◌, arith, if◌then◌else◌, Bool-cases, length, get_or, slice, take, drop, count_if, fun_ext,
}
use conbench.Base.Int.{ℤ, pos, leb_ℤ, ltb_ℤ}
use conbench.Base.Sort.{Ascending, AscendingFrom, IsFirst, sort_search, sort_search-IsFirst}
use conbench.Stats.Window.{lower_count, upper_count}

-- A test that, once failed along a list of numbers, stays failed.
abbrev pub Falls : (ℕ → Bool) → Type 0
Falls p = (a b : ℕ) → a ≤ b → p b ≡ true → p a ≡ true

Falls-below : (p : ℕ → Bool) → Falls p → (a b : ℕ) → a ≤ b → p a ≡ false → p b ≡ false
Falls-below p f a b h e = elim (Bool-cases (p b)) [ inl t ↦ absurd (cc (f a b h t)) | inr r ↦ r ]

count_if_none :
    (p : ℕ → Bool) (a : ℕ) (ranks : List ℕ)
    → Falls p
    → AscendingFrom a ranks
    → p a ≡ false
    → count_if p ranks ≡ 0
count_if_none p a [] f s h = refl
count_if_none p a (r ∷ rs) f s h =
    let fails = Falls-below p f a r s.0 h in rw fails (count_if_none p r rs f s.1 fails)

pub get_or-AscendingFrom :
    (a : ℕ) (ranks : List ℕ) (i j : ℕ)
    → AscendingFrom a ranks
    → i ≤ j
    → j < length ranks
    → (a ≤ get_or ranks i 0) × (get_or ranks i 0 ≤ get_or ranks j 0)
get_or-AscendingFrom a [] i j s h k = absurd (omega arith)
get_or-AscendingFrom a (r ∷ rs) zero zero s h k = omega arith
get_or-AscendingFrom a (r ∷ rs) (suc i) zero s h k = absurd (omega arith)
get_or-AscendingFrom a (r ∷ rs) zero (suc j) s h k =
    omega (arith, get_or-AscendingFrom r rs j j s.1 (omega arith) (omega arith))
get_or-AscendingFrom a (r ∷ rs) (suc i) (suc j) s h k =
    omega (arith, get_or-AscendingFrom r rs i j s.1 (omega arith) (omega arith))

-- In an ascending list the first position at which a falling test fails counts those that pass.
IsFirst-count_if :
    (p : ℕ → Bool) (a : ℕ) (ranks : List ℕ) (n : ℕ)
    → Falls p
    → AscendingFrom a ranks
    → IsFirst (length ranks) (λ i. not (p (get_or ranks i 0))) n
    → n ≡ count_if p ranks
IsFirst-count_if p a [] n f s h = omega (arith, h.in_range)
IsFirst-count_if p a (r ∷ rs) zero f s h =
    let fails : p r ≡ false = ground (arith, h.after 0 (omega arith) (omega arith)) in
    rw fails (sym (count_if_none p r rs f s.1 fails))
IsFirst-count_if p a (r ∷ rs) (suc n) f s h =
    let holds : p r ≡ true = ground (arith, h.before 0 (omega arith)) in
    let rest = IsFirst-count_if p r rs n f s.1 (record {
      in_range = omega (arith, h.in_range);
      before = λ k q. h.before (suc k) (omega arith);
      after = λ k q t. h.after (suc k) (omega arith) (omega arith);
    }) in
    rw holds (ap suc rest)

search-count_if :
    (p : ℕ → Bool) (ranks : List ℕ)
    → Falls p
    → Ascending ranks
    → sort_search (length ranks) (λ i. not (p (get_or ranks i 0))) ≡ count_if p ranks
search-count_if p ranks f s = IsFirst-count_if p 0 ranks _ f s (
    sort_search-IsFirst (length ranks) (λ i. not (p (get_or ranks i 0)))
      λ a b h k t.
        let (_, order) = get_or-AscendingFrom 0 ranks a b s h k in
        elim (Bool-cases (p (get_or ranks b 0))) [
          | inl e ↦ absurd (cc (f _ _ order e, t))
          | inr e ↦ rw e
        ])

pub lower_count-count_if :
    (ranks : List ℕ) (v : ℤ)
    → Ascending ranks
    → lower_count ranks v ≡ count_if (λ r. ltb_ℤ (pos r) v) ranks
unfolding lower_count
lower_count-count_if ranks v s =
    ap (sort_search (length ranks)) (fun_ext λ i. ground arith)
    ∙ search-count_if (λ r. ltb_ℤ (pos r) v) ranks (λ a b h t. ground arith) s

pub upper_count-count_if :
    (ranks : List ℕ) (v : ℤ)
    → Ascending ranks
    → upper_count ranks v ≡ count_if (λ r. leb_ℤ (pos r) v) ranks
unfolding upper_count
upper_count-count_if ranks v s =
    ap (sort_search (length ranks)) (fun_ext λ i. ground arith)
    ∙ search-count_if (λ r. leb_ℤ (pos r) v) ranks (λ a b h t. ground arith) s

-- The values whose aligned rank passes a test.
abbrev pub aligned {ℓ} : {A : Type ℓ} → (ℕ → Bool) → List ℕ → List A → List A
aligned p [] vals = []
aligned p (r ∷ rs) [] = []
aligned p (r ∷ rs) (v ∷ vs) = if p r then v ∷ aligned p rs vs else aligned p rs vs

abbrev pub reduce_or {ℓ κ} : {A : Type ℓ} {B : Type κ} → B → (List A → B) → List A → B
reduce_or nan reduce [] = nan
reduce_or nan reduce (v ∷ vs) = reduce (v ∷ vs)

pub take-nil {ℓ} : {A : Type ℓ} (n : ℕ) → take {A = A} n [] ≡ []
take-nil zero = refl
take-nil (suc n) = refl

module _ {ℓ} {A : Type ℓ} (p q : ℕ → Bool) (fp : Falls p) (fq : Falls q) where
  take-aligned :
      (a : ℕ) (ranks : List ℕ) (vals : List A)
      → AscendingFrom a ranks
      → p a ≡ false
      → take (count_if q ranks) vals ≡ aligned (λ r. not (p r) && q r) ranks vals
  take-aligned a [] vals s h = refl
  take-aligned a (r ∷ rs) [] s h = take-nil _
  take-aligned a (r ∷ rs) (v ∷ vs) s h =
      let fails : p r ≡ false = Falls-below p fp a r s.0 h in
      let rest = take-aligned r rs vs s.1 fails in
      elim (Bool-cases (q r)) [
        | inl holds ↦ rw (fails, holds) (ap (λ l. v ∷ l) rest)
        | inr stop ↦
            let empty = count_if_none q r rs fq s.1 stop in
            rw (fails, stop, empty) (ap (λ n. take n vs) (sym empty) ∙ rest)
      ]

  -- Between the counts of two falling tests stand the values that pass the second only.
  pub slice-aligned :
      (a : ℕ) (ranks : List ℕ) (vals : List A)
      → ((r : ℕ) → p r ≡ true → q r ≡ true)
      → AscendingFrom a ranks
      → length ranks ≡ length vals
      → slice (count_if p ranks) (count_if q ranks) vals
        ≡ aligned (λ r. not (p r) && q r) ranks vals
  slice-aligned a [] [] i s e = refl
  slice-aligned a [] (v ∷ vs) i s e = absurd (omega arith)
  slice-aligned a (r ∷ rs) [] i s e = absurd (omega arith)
  slice-aligned a (r ∷ rs) (v ∷ vs) i s e = elim (Bool-cases (p r)) [
    | inl skip ↦
        rw (skip, i r skip)
          (ap (λ n. take n (drop (count_if p rs) vs)) (omega arith)
            ∙ slice-aligned r rs vs i s.1 (omega arith))
    | inr fails ↦
        let lo : count_if p (r ∷ rs) ≡ 0 = count_if_none p r (r ∷ rs) fp (omega arith, s.1) fails in
        ap (λ n. slice n (count_if q (r ∷ rs)) (v ∷ vs)) lo
        ∙ ap (λ n. take n (v ∷ vs)) (omega arith)
        ∙ take-aligned r (r ∷ rs) (v ∷ vs) (omega arith, s.1) fails
  ]
