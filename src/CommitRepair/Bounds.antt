-- ===== src/CommitRepair/Bounds.antt =====
-- The limit of a repair (internal/commitrepair/repair.go) and its conversion to int32.
use conbench.Base.{ℕ, ◌+◌, ◌%◌, ◌≤◌, ◌<◌, ◌≡◌, refl, ap, Bool, true, false, arith, ltb}
use conbench.Base.Int.{ℤ, pos, negsuc, pos_part, leb_ℤ}
use conbench.Base.Results.{ok, refuse_if, bind-ok}
use conbench.CommitRepair.Cursors.{RepairError, limit_not_positive, limit_too_large}
use conbench.CommitRepair.{RepairOptions, check_options, candidate_params, int32, max_int32}

int32-small : (n : ℕ) → n < 2147483648 → int32 n ≡ pos n
unfolding int32
int32-small n h =
    let small : n % 4294967296 ≡ n = omega arith in
    let fits : ltb (n % 4294967296) 2147483648 ≡ true = ground (arith, small) in
    rw fits (ap pos small)

refuse_if-ok : (b : Bool) (e : RepairError) (u : Unit {0}) → refuse_if b e ≡ ok u → b ≡ false
refuse_if-ok true e u h = cc
refuse_if-ok false e u h = refl

-- Options that pass the checks have a limit of at least one, and the store is asked for one candidate
-- more than the limit: the conversion to int32 does not wrap.
pub check_options-limit_plus_one :
    (opts : RepairOptions) (u : Unit {0})
    → check_options opts ≡ ok u
    → (1 ≤ pos_part opts.limit)
      × ((candidate_params opts).limit_plus_one ≡ pos (pos_part opts.limit + 1))
unfolding check_options
check_options-limit_plus_one opts u h =
    bind-ok (refuse_if (leb_ℤ opts.limit (pos 0)) limit_not_positive) _ h λ a low h'.
      bind-ok (refuse_if (leb_ℤ (pos max_int32) opts.limit) limit_too_large) _ h' λ b high h''.
        let above : leb_ℤ opts.limit (pos 0) ≡ false =
          refuse_if-ok (leb_ℤ opts.limit (pos 0)) limit_not_positive a low in
        let below : leb_ℤ (pos max_int32) opts.limit ≡ false =
          refuse_if-ok (leb_ℤ (pos max_int32) opts.limit) limit_too_large b high in
        by_limit opts.limit above below
  where
    by_limit :
        (l : ℤ)
        → leb_ℤ l (pos 0) ≡ false
        → leb_ℤ (pos max_int32) l ≡ false
        → (1 ≤ pos_part l) × (int32 (pos_part l + 1) ≡ pos (pos_part l + 1))
    by_limit (pos n) above below = (ground arith, int32-small (n + 1) (ground arith))
    by_limit (negsuc n) above below = absurd (ground arith)
