-- ===== src/Base/Maps.antt =====
-- Go maps as association lists: a write puts the key in front of a list without it, a read of a
-- missing key gives `none`. The program never relies on the order in which a map is walked.
use mathlib.Core.Path.{◌≡◌, refl}
use mathlib.Core.Logic.{◌↔◌, inl, inr}
use mathlib.Core.Bool.{Bool, true}
use mathlib.Core.Option.{Option, none, some}
use mathlib.Core.List.{List, [], ◌∷◌}
use Prim.Native.Nat.{ℕ, ◌+◌, ◌≤◌}
use Prim.Native.String.{String}
use native.Mathlib.Omega.{arith}
use text.Mathlib.Text.{◌==◌ as str_eq}
use text.Mathlib.TextEquality.{eq_iff}
use conbench.Base.Tests.{◌==◌, ==_iff, if◌then◌else◌, Bool-cases}

-- Equality of keys as the code tests it.
pub record KeyEq {ℓ} (K : Type ℓ) : Type ℓ where
  pub beq : K → K → Bool
  pub beq_iff : (a b : K) → (beq a b ≡ true) ↔ (a ≡ b)

instance abbrev pub nat_key : KeyEq ℕ
nat_key = record { beq = ◌==◌; beq_iff = ==_iff }

instance abbrev pub string_key : KeyEq String
string_key = record { beq = str_eq; beq_iff = eq_iff }

abbrev pub Map {ℓ κ} : Type ℓ → Type κ → Type (ℓ ⊔ κ)
Map K V = List (K × V)

abbrev pub weight_of {κ} : {V : Type κ} → (V → ℕ) → Option V → ℕ
weight_of weight none = 0
weight_of weight (some v) = weight v

module _ {ℓ κ} {K : Type ℓ} {V : Type κ} ⦃e : KeyEq K⦄ where
  unfoldable pub lookup : K → Map K V → Option V
  lookup k [] = none
  lookup k ((j, v) ∷ m) = if e.beq j k then some v else lookup k m

  unfoldable pub insert : K → V → Map K V → Map K V
  insert k v [] = (k, v) ∷ []
  insert k v ((j, w) ∷ m) = if e.beq j k then (k, v) ∷ m else (j, w) ∷ insert k v m

  pub lookup-insert :
      (k j : K) (v : V) (m : Map K V)
      → lookup j (insert k v m) ≡ (if e.beq k j then some v else lookup j m)
  unfolding lookup insert
  lookup-insert k j v [] = refl
  lookup-insert k j v ((i, w) ∷ m) =
      ground (arith, e.beq_iff k j, e.beq_iff i k, e.beq_iff i j, lookup-insert k j v m)

  -- Go's `delete(m, k)`.
  unfoldable pub remove : K → Map K V → Map K V
  remove k [] = []
  remove k ((j, w) ∷ m) = let rest = remove k m in if e.beq j k then rest else (j, w) ∷ rest

  pub lookup-remove :
      (k j : K) (m : Map K V) → lookup j (remove k m) ≡ (if e.beq k j then none else lookup j m)
  unfolding lookup remove
  lookup-remove k j [] = ground arith
  lookup-remove k j ((i, w) ∷ m) =
      ground (arith, e.beq_iff k j, e.beq_iff i k, e.beq_iff i j, lookup-remove k j m)

  module _ (weight : V → ℕ) where
    unfoldable pub total : Map K V → ℕ
    total [] = 0
    total ((j, w) ∷ m) = weight w + total m

    pub total-insert :
        (k : K) (v : V) (m : Map K V)
        → total (insert k v m) + weight_of weight (lookup k m) ≡ total m + weight v
    unfolding lookup insert total
    total-insert k v [] = omega arith
    total-insert k v ((i, w) ∷ m) = ground (arith, total-insert k v m)

    pub total-remove :
        (k : K) (m : Map K V) → total (remove k m) + weight_of weight (lookup k m) ≤ total m
    unfolding lookup remove total
    total-remove k [] = omega arith
    total-remove k ((i, w) ∷ m) = elim (Bool-cases (e.beq i k)) [
      | inl h ↦ rw h omega (arith, total-remove k m)
      | inr h ↦ rw h omega (arith, total-remove k m)
    ]
