-- ===== src/Stats/Summary/Laws.antt =====
-- The single value summary (internal/stats/svs.go): what the best of the measurements is.
use conbench.Base.{
  ◌≡◌, refl, inl, inr, Bool, true, false, Option, none, some, List, [], ◌∷◌, map, String,
  Bool-cases, if◌then◌else◌, All,
}
use conbench.Base.Results.{ok}
use conbench.Floats.{Floats}
use conbench.Units
use conbench.Stats.Summary.{
  has_null, is_failed, dereference, measurements, min_from, max_from, single_value_summary,
  svs_mode_best,
}
use mathlib.Core.List.{Memᴰ}

module _ {ℓ} {A : Type ℓ} where
  has_null-map-some : (ds : List (Option A)) → has_null ds ≡ false → map some (dereference ds) ≡ ds
  unfolding has_null dereference
  has_null-map-some [] h = refl
  has_null-map-some (none ∷ ds) h = cc
  has_null-map-some (some d ∷ ds) h = rw (has_null-map-some ds h)

  -- A result that has not failed has a unit, no error, and measurements that are all of its data; a
  -- failed one has no measurements.
  pub measurements-of_success :
      (unit : Option String) (values : Option (List (Option A))) (has_error : Bool)
      → (is_failed unit values has_error ≡ false
          → (has_error ≡ false) × (values ≡ some (map some (measurements unit values has_error))))
        × (is_failed unit values has_error ≡ true → measurements unit values has_error ≡ [])
  unfolding measurements
  measurements-of_success (some u) (some (some v ∷ vs)) false =
      ((λ h. (refl, rw h (rw (has_null-map-some vs h)))), λ h. rw h)
  measurements-of_success (some u) (some (none ∷ vs)) false = ((λ h. cc), λ h. refl)
  measurements-of_success (some u) (some []) false = ((λ h. cc), λ h. refl)
  measurements-of_success (some u) (some vs) true = ((λ h. cc), λ h. refl)
  measurements-of_success (some u) none e = ((λ h. cc), λ h. refl)
  measurements-of_success none vs e = ((λ h. cc), λ h. refl)

-- Over a strict order of the values, such as `<` or `>` of floats that are not NaN.
module _ {ℓ} {A : Type ℓ} (better : A → A → Bool) where
  -- `m` is one of the values, and none is better.
  pub record IsBest (m : A) (xs : List A) : Type ℓ where
    pub member : Memᴰ m xs
    pub unbeaten : All (λ x. better x m ≡ false) xs

  best_from : A → List A → A
  best_from m [] = m
  best_from m (x ∷ xs) = best_from (if better x m then x else m) xs

  module _ (IsNumber : A → Type 0) (asymm : (x y : A) → better x y ≡ true → better y x ≡ false)
      (split : (x y z : A)
        → IsNumber y
        → better x z ≡ true
        → better x y ≡ false
        → better y z ≡ true) where
    irrefl : (x : A) → better x x ≡ false
    irrefl x = elim (Bool-cases (better x x)) [ inl h ↦ asymm x x h | inr h ↦ h ]

    -- What does not beat `x` is not beaten by what `x` does not beat.
    unbeaten_trans :
        (x m r : A) → IsNumber m → better x m ≡ false → better m r ≡ false → better x r ≡ false
    unbeaten_trans x m r n h k = elim (Bool-cases (better x r)) [
      | inl e ↦ absurd (cc (split x m r n e h))
      | inr e ↦ e
    ]

    best_from-IsBest :
        (m : A) (xs : List A) → IsNumber m → All IsNumber xs → IsBest (best_from m xs) (m ∷ xs)
    unfolding best_from
    best_from-IsBest m [] n ns = record { member = Memᴰ.head refl; unbeaten = (irrefl m, tt) }
    best_from-IsBest m (x ∷ xs) n ns = elim (Bool-cases (better x m)) [
      | inl e ↦
          let ih = best_from-IsBest x xs ns.0 ns.1 in
          rw e (record {
            member = Memᴰ.tail ih.member;
            unbeaten = (unbeaten_trans m x _ ns.0 (asymm x m e) ih.unbeaten.0, ih.unbeaten);
          })
      | inr e ↦
          let ih = best_from-IsBest m xs n ns.1 in
          rw e (record {
            member = behind ih.member;
            unbeaten = (ih.unbeaten.0, (unbeaten_trans x m _ n e ih.unbeaten.0, ih.unbeaten.1));
          })
    ]
      where
        behind : {r : A} → Memᴰ r (m ∷ xs) → Memᴰ r (m ∷ x ∷ xs)
        behind (Memᴰ.head p) = Memᴰ.head p
        behind (Memᴰ.tail t) = Memᴰ.tail (Memᴰ.tail t)

module _ (fl : Floats) where
  open fl use {Float, nan, is_nan, lt}

  abbrev pub gt : Float → Float → Bool
  gt x y = lt y x

  abbrev IsNumber : Float → Type 0
  IsNumber x = is_nan x ≡ false

  gt_split : (x y z : Float) → IsNumber y → gt x z ≡ true → gt x y ≡ false → gt y z ≡ true
  gt_split x y z n h k = elim (Bool-cases (lt z y)) [
    | inl e ↦ e
    | inr e ↦ absurd (cc (fl.lt_split z y x n h e))
  ]

  min_from-eq : (m : Float) (xs : List Float) → min_from fl m xs ≡ best_from lt m xs
  unfolding min_from best_from
  min_from-eq m [] = refl
  min_from-eq m (x ∷ xs) = min_from-eq (if lt x m then x else m) xs

  max_from-eq : (m : Float) (xs : List Float) → max_from fl m xs ≡ best_from gt m xs
  unfolding max_from best_from
  max_from-eq m [] = refl
  max_from-eq m (x ∷ xs) = max_from-eq (if lt m x then x else m) xs

  -- In best mode the summary of measurements that are numbers, in a known unit, is a measurement
  -- that no other beats: the least where less is better, and else the greatest.
  pub single_value_summary-IsBest :
      (x : Float) (xs : List Float) (unit : String) (less : Bool)
      → All (λ y. is_nan y ≡ false) (x ∷ xs)
      → Units.less_is_better unit ≡ some less
      → (m : Float) × (single_value_summary fl (x ∷ xs) (some unit) svs_mode_best ≡ ok m)
        × IsBest (if less then lt else gt) m (x ∷ xs)
  unfolding single_value_summary
  single_value_summary-IsBest x xs unit true n h = (
    min_from fl x xs,
    rw h refl,
    rw (min_from-eq x xs) (best_from-IsBest lt IsNumber fl.lt_asymm fl.lt_split x xs n.0 n.1),
  )
  single_value_summary-IsBest x xs unit false n h = (
    max_from fl x xs,
    rw h refl,
    rw (max_from-eq x xs)
        (best_from-IsBest gt IsNumber (λ a b. fl.lt_asymm b a) gt_split x xs n.0 n.1),
  )
