-- ===== src/Stats/Shifts/Flags.antt =====
-- detectShifts (internal/stats/rolling.go): which shifts are steps and which are outliers.
use conbench.Base.{
  ℕ, zero, suc, ◌≡◌, refl, ◌∙◌, ap, Bool, false, not, ◌&&◌, List, [], ◌∷◌, arith, get_or,
}
use conbench.Stats.Shifts.{ShiftFlags, flag_rows, next_shift}

abbrev pub no_flags : ShiftFlags
no_flags = record { is_step = false; is_outlier = false }

abbrev pub shift_at : List Bool → ℕ → Bool
shift_at shifts i = get_or shifts i false

-- isShift[i-1], false in front of the first row.
abbrev pub shift_before : List Bool → ℕ → Bool
shift_before shifts zero = false
shift_before shifts (suc i) = shift_at shifts i

next_shift-get : (ss : List Bool) → next_shift ss ≡ get_or ss 0 false
next_shift-get [] = refl
next_shift-get (s ∷ ss) = refl

abbrev before_or : Bool → List Bool → ℕ → Bool
before_or p shifts zero = p
before_or p shifts (suc i) = shift_at shifts i

before_or_cons : (s : Bool) (ss : List Bool) (i : ℕ) → before_or s ss i ≡ shift_at (s ∷ ss) i
before_or_cons s ss zero = refl
before_or_cons s ss (suc i) = refl

abbrev row : List Bool → ℕ → Bool → ShiftFlags
row ss i prev = record {
  is_step = shift_at ss i && (not (shift_at ss (suc i)) && not prev);
  is_outlier = shift_at ss i && shift_at ss (suc i);
}

flag_rows_from :
    (p : Bool) (shifts : List Bool) (i : ℕ)
    → get_or (flag_rows (p && next_shift shifts) shifts) i no_flags ≡ record {
      is_step = shift_at shifts i && (not (shift_at shifts (suc i)) && not (before_or p shifts i));
      is_outlier = shift_at shifts i && shift_at shifts (suc i);
    }
unfolding flag_rows
flag_rows_from p [] i = refl
flag_rows_from p (s ∷ ss) zero = ground (arith, next_shift-get ss)
flag_rows_from p (s ∷ ss) (suc i) = flag_rows_from s ss i ∙ ap (row ss i) (before_or_cons s ss i)

-- In the order of time a row is an outlier exactly if it is a shift and the next row is one too,
-- and a step exactly if it is a shift and neither the row before nor the next row is one.
pub flag_rows-get_or :
    (shifts : List Bool) (i : ℕ)
    → get_or (flag_rows false shifts) i no_flags ≡ record {
      is_step = shift_at shifts i && (not (shift_at shifts (suc i)) && not (shift_before shifts i));
      is_outlier = shift_at shifts i && shift_at shifts (suc i);
    }
flag_rows-get_or shifts zero = flag_rows_from false shifts zero
flag_rows-get_or shifts (suc i) = flag_rows_from false shifts (suc i)
