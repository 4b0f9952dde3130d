-- ===== src/Service/Baselines/Preference.antt =====
-- Which candidate findBaselineRun takes, by the reasons of the runs (internal/service/ci_report.go).
use conbench.Base.{Bool, true, not, ◌||◌, List, [], ◌∷◌, any}
use conbench.Service.Baselines.{BaselineCandidate}

abbrev pub has_same_reason : List BaselineCandidate → Bool
has_same_reason cs = any (λ (c : BaselineCandidate). c.same_reason) cs

-- The first of a list has the contender's reason if any has it.
abbrev pub leads : List BaselineCandidate → Bool
leads [] = true
leads (c ∷ cs) = not (has_same_reason cs) || c.same_reason
