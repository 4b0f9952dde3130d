-- ===== src/Floats.antt =====
-- Go's float64 as an interface: its type, the operations that the code calls, and the facts of IEEE
-- 754 that the proofs use. No rounding is modelled, and no law relates sums, products and
-- quotients to exact numbers. `whole_floats` meets the interface by integers with a NaN.
use conbench.Base.{
  ℕ, zero, suc, ◌+◌, ◌*◌, ◌/◌, ◌^◌, ◌≡◌, refl, Bool, true, false, Option, none, some, arith, ltb,
  not, if◌then◌else◌, ◌&&◌,
}
use conbench.Base.Int.{ℤ, pos, negsuc, pos_part, neg_part, sub_ℕ, ltb_ℤ}
use conbench.Base.Sort.{sort_search}

pub record Floats : Type 1 where
  pub Float : Type 0
  pub nan : Float
  pub is_nan : Float → Bool
  -- `lit m k` is the literal m / 10^k.
  pub lit : ℕ → ℕ → Float
  -- float64(n) of a length or a count.
  pub of_ℕ : ℕ → Float
  pub add : Float → Float → Float
  pub sub : Float → Float → Float
  pub mul : Float → Float → Float
  pub div : Float → Float → Float
  pub neg : Float → Float
  pub abs : Float → Float
  pub sqrt : Float → Float
  -- The operators `<` and `==`.
  pub lt : Float → Float → Bool
  pub eq : Float → Float → Bool
  -- int(math.Floor(x)) and int(math.Ceil(x)), at 0 ≤ x.
  pub floor : Float → ℕ
  pub ceil : Float → ℕ
  pub is_nan-nan : is_nan nan ≡ true
  -- An order with a NaN on a side is false.
  pub lt-not_nan : (x y : Float) → lt x y ≡ true → (is_nan x ≡ false) × (is_nan y ≡ false)
  pub lt_asymm : (x y : Float) → lt x y ≡ true → lt y x ≡ false
  -- Of three numbers, x < z puts the middle one above x or below z.
  pub lt_split : (x y z : Float) → is_nan y ≡ false → lt x z ≡ true → lt x y ≡ false → lt y z ≡ true
  pub neg_neg : (x : Float) → neg (neg x) ≡ x
  pub lt-neg_zero : (x : Float) → lt (lit 0 0) (neg x) ≡ lt x (lit 0 0)
  -- The two zeros compare alike.
  pub lt-neg_of_zero : (t x : Float) → eq x (lit 0 0) ≡ true → lt t (neg x) ≡ lt t x
  pub is_nan-neg : (x : Float) → is_nan (neg x) ≡ is_nan x
  pub mul-neg : (x y : Float) → mul (neg x) y ≡ neg (mul x y)
  pub is_nan-zero : is_nan (lit 0 0) ≡ false

-- Operations on integers with a NaN, for the concrete instance.
abbrev lift₂ : (ℤ → ℤ → Option ℤ) → Option ℤ → Option ℤ → Option ℤ
lift₂ f (some a) (some b) = f a b
lift₂ f a b = none

abbrev neg_ℤ : ℤ → ℤ
neg_ℤ a = sub_ℕ (neg_part a) (pos_part a)

abbrev neg_whole : Option ℤ → Option ℤ
neg_whole none = none
neg_whole (some a) = some (neg_ℤ a)

abbrev abs_whole : Option ℤ → Option ℤ
abs_whole none = none
abs_whole (some a) = some (pos (pos_part a + neg_part a))

abbrev sqrt_whole : Option ℤ → Option ℤ
sqrt_whole none = none
sqrt_whole (some (negsuc n)) = none
sqrt_whole (some (pos n)) = some (pos (sort_search n (λ k. ltb n ((k + 1) * (k + 1)))))

abbrev quot_ℤ : ℤ → ℤ → Option ℤ
quot_ℤ (pos a) (pos b) = if ltb 0 b then some (pos (a / b)) else none
quot_ℤ (pos a) (negsuc b) = some (neg_ℤ (pos (a / suc b)))
quot_ℤ (negsuc a) (pos b) = if ltb 0 b then some (neg_ℤ (pos (suc a / b))) else none
quot_ℤ (negsuc a) (negsuc b) = some (pos (suc a / suc b))

abbrev mul_ℤ : ℤ → ℤ → ℤ
mul_ℤ (pos a) (pos b) = pos (a * b)
mul_ℤ (pos a) (negsuc b) = neg_ℤ (pos (a * suc b))
mul_ℤ (negsuc a) (pos b) = neg_ℤ (pos (suc a * b))
mul_ℤ (negsuc a) (negsuc b) = pos (suc a * suc b)

abbrev lt_whole : Option ℤ → Option ℤ → Bool
lt_whole (some a) (some b) = ltb_ℤ a b
lt_whole a b = false

abbrev eq_whole : Option ℤ → Option ℤ → Bool
eq_whole (some a) (some b) = not (ltb_ℤ a b) && not (ltb_ℤ b a)
eq_whole a b = false

abbrev is_none : Option ℤ → Bool
is_none none = true
is_none (some a) = false

abbrev whole_part : Option ℤ → ℕ
whole_part none = 0
whole_part (some a) = pos_part a

pub lt-not_nan_whole :
    (x y : Option ℤ) → lt_whole x y ≡ true → (is_none x ≡ false) × (is_none y ≡ false)
lt-not_nan_whole (some a) (some b) h = (refl, refl)
lt-not_nan_whole none y h = cc
lt-not_nan_whole (some a) none h = cc

pub lt_asymm_whole : (x y : Option ℤ) → lt_whole x y ≡ true → lt_whole y x ≡ false
lt_asymm_whole (some a) (some b) h = ground arith
lt_asymm_whole none y h = cc
lt_asymm_whole (some a) none h = cc

pub lt_split_whole :
    (x y z : Option ℤ)
    → is_none y ≡ false
    → lt_whole x z ≡ true
    → lt_whole x y ≡ false
    → lt_whole y z ≡ true
lt_split_whole (some a) (some b) (some c) n h k = ground arith
lt_split_whole none y z n h k = cc
lt_split_whole (some a) none z n h k = cc
lt_split_whole (some a) (some b) none n h k = cc

pub neg_neg_whole : (x : Option ℤ) → neg_whole (neg_whole x) ≡ x
neg_neg_whole none = refl
neg_neg_whole (some a) = ground arith

pub lt-neg_zero_whole :
    (x : Option ℤ) → lt_whole (some (pos 0)) (neg_whole x) ≡ lt_whole x (some (pos 0))
lt-neg_zero_whole none = refl
lt-neg_zero_whole (some a) = ground arith

pub lt-neg_of_zero_whole :
    (t x : Option ℤ) → eq_whole x (some (pos 0)) ≡ true → lt_whole t (neg_whole x) ≡ lt_whole t x
lt-neg_of_zero_whole t none h = cc
lt-neg_of_zero_whole none (some a) h = refl
lt-neg_of_zero_whole (some b) (some a) h = ground arith

pub is_nan-neg_whole : (x : Option ℤ) → is_none (neg_whole x) ≡ is_none x
is_nan-neg_whole none = refl
is_nan-neg_whole (some a) = refl

pub mul-neg_whole :
    (x y : Option ℤ)
    → lift₂ (λ a b. some (mul_ℤ a b)) (neg_whole x) y
      ≡ neg_whole (lift₂ (λ a b. some (mul_ℤ a b)) x y)
mul-neg_whole none y = refl
mul-neg_whole (some a) none = refl
mul-neg_whole (some (pos zero)) (some (pos b)) = ground arith
mul-neg_whole (some (pos (suc a))) (some (pos b)) = ground arith
mul-neg_whole (some (pos zero)) (some (negsuc b)) = ground arith
mul-neg_whole (some (pos (suc a))) (some (negsuc b)) = ground arith
mul-neg_whole (some (negsuc a)) (some (pos b)) = ground arith
mul-neg_whole (some (negsuc a)) (some (negsuc b)) = ground arith

abbrev pub whole_floats : Floats
whole_floats = record {
  Float = Option ℤ;
  nan = none;
  is_nan = is_none;
  lit = λ m k. some (pos (m / 10 ^ k));
  of_ℕ = λ n. some (pos n);
  add = lift₂ (λ a b. some (sub_ℕ (pos_part a + pos_part b) (neg_part a + neg_part b)));
  sub = lift₂ (λ a b. some (sub_ℕ (pos_part a + neg_part b) (neg_part a + pos_part b)));
  mul = lift₂ (λ a b. some (mul_ℤ a b));
  div = lift₂ quot_ℤ;
  neg = neg_whole;
  abs = abs_whole;
  sqrt = sqrt_whole;
  lt = lt_whole;
  eq = eq_whole;
  floor = whole_part;
  ceil = whole_part;
  is_nan-nan = refl;
  lt-not_nan = lt-not_nan_whole;
  lt_asymm = lt_asymm_whole;
  lt_split = lt_split_whole;
  neg_neg = neg_neg_whole;
  lt-neg_zero = lt-neg_zero_whole;
  lt-neg_of_zero = lt-neg_of_zero_whole;
  is_nan-neg = is_nan-neg_whole;
  mul-neg = mul-neg_whole;
  is_nan-zero = refl;
}
