-- ===== src/Service/Alerts/Filter.antt =====
-- automatedAlertReport (internal/service/alerts.go): which rows decide an alert.
use conbench.Base.{
  ℕ, ◌≡◌, refl, sym, ◌∙◌, ap, inl, inr, Bool, true, false, ◌&&◌, List, [], ◌∷◌, arith, ltb, ◌==◌,
  ==_iff, if◌then◌else◌, count_if-le-length, length, length-keep, keep, Bool-cases,
}
use conbench.Service.Report.{
  Report, Summary, Comparison, ReportStatus, skipped, derive_summary, derive_status,
}
use conbench.Service.Report.Status.{
  IsFresh, derive_summary-Counts, derive_status-rows, status_of_rows, is_incomplete,
}
use conbench.Service.Alerts.{automated_alert_report, is_automated, filtered_summary}

-- A report as the code assembles it: its summary and status are derived from its rows.
pub record IsDerived (s : Summary) (r : Report) : Type 0 where
  pub fresh : IsFresh s
  pub counted : s.contender_results ≡ length r.comparisons
  pub summary_derived : r.summary ≡ derive_summary r.comparisons s
  pub status_derived : r.status ≡ derive_status r.summary

keep_all {ℓ} :
    {A : Type ℓ} (p : A → Bool) (xs : List A) → length (keep p xs) ≡ length xs → keep p xs ≡ xs
keep_all p [] h = refl
keep_all p (x ∷ xs) h = elim (Bool-cases (p x)) [
  | inl e ↦ rw e (ap (λ r. x ∷ r) (keep_all p xs (ground arith)))
  | inr e ↦ absurd (ground (arith, length-keep p xs, count_if-le-length p xs))
]

abbrev pub kept_rows : Report → List Comparison
kept_rows r = keep is_automated r.comparisons

abbrev with_rows : Summary → ℕ → Summary
with_rows s n = record s { contender_results = n }

-- The status of an alert report by its kept rows.
abbrev pub alert_status : Summary → Report → ReportStatus
alert_status s r =
    if length (kept_rows r) == 0 && ltb 0 (length r.comparisons)
    then skipped
    else status_of_rows (record s { contender_results = length (kept_rows r) }) (kept_rows r)

is_incomplete_ext :
    (s t : Summary)
    → s.missing_runs ≡ t.missing_runs
    → s.commitless_runs ≡ t.commitless_runs
    → s.contender_results ≡ t.contender_results
    → s.baseline_action_err ≡ t.baseline_action_err
    → is_incomplete s ≡ is_incomplete t
is_incomplete_ext s t a b c d = rw (a, b, c, d)

status_of_rows_ext :
    (s t : Summary) (cs : List Comparison)
    → is_incomplete s ≡ is_incomplete t
    → status_of_rows s cs ≡ status_of_rows t cs
status_of_rows_ext s t cs e = rw e

untouched_status :
    (s : Summary) (r : Report)
    → IsDerived s r
    → length (kept_rows r) ≡ length r.comparisons
    → r.status ≡ status_of_rows (with_rows s (length (kept_rows r))) (kept_rows r)
untouched_status s r d e =
    d.status_derived
    ∙ ap derive_status d.summary_derived
    ∙ derive_status-rows r.comparisons s d.fresh
    ∙ status_of_rows_ext s (with_rows s (length (kept_rows r))) r.comparisons (
        is_incomplete_ext s (with_rows s (length (kept_rows r))) refl refl (d.counted ∙ sym e) refl)
    ∙ ap (status_of_rows (with_rows s (length (kept_rows r))))
        (sym (keep_all is_automated r.comparisons e))

filtered_status :
    (s : Summary) (r : Report)
    → IsDerived s r
    → let n = length (kept_rows r) in
      derive_status (derive_summary (kept_rows r) (filtered_summary r.summary n))
      ≡ status_of_rows (with_rows s n) (kept_rows r)
filtered_status s r d =
    let n = length (kept_rows r) in
    let c = derive_summary-Counts r.comparisons s in
    derive_status-rows (kept_rows r) (filtered_summary r.summary n) (omega arith)
    ∙ status_of_rows_ext (filtered_summary r.summary n) (with_rows s n) (kept_rows r) (
        is_incomplete_ext (filtered_summary r.summary n) (with_rows s n)
          (ap (λ (t : Summary). t.missing_runs) d.summary_derived ∙ c.missing_runs_kept)
          (ap (λ (t : Summary). t.commitless_runs) d.summary_derived ∙ c.commitless_runs_kept) refl
          (ap (λ (t : Summary). t.baseline_action_err) d.summary_derived
            ∙ c.baseline_action_err_kept))

none_dropped : (n m : ℕ) → n ≡ m → (n == 0 && ltb 0 m) ≡ false
none_dropped n m e = ground arith

some_dropped : (n m : ℕ) → (n == m) ≡ false → (n == 0) ≡ true → ltb 0 m ≡ true
some_dropped n m e z = ground arith

-- For a report whose summary and status are derived from its rows, the status on which an alert is
-- raised or resolved is `skipped` if there are rows and the contender of each begins a distribution
-- change; else it is the status of the rows whose contender begins none, together with what else
-- makes the report incomplete.
pub automated_alert_report-status :
    (s : Summary) (r : Report)
    → IsDerived s r
    → (automated_alert_report r).status ≡ alert_status s r
unfolding automated_alert_report
automated_alert_report-status s r d =
    elim (Bool-cases (length (kept_rows r) == length r.comparisons)) [
      | inl same ↦
          let e = (==_iff (length (kept_rows r)) (length r.comparisons)).0 same in
          rw same (
            untouched_status s r d e
            ∙ rw (none_dropped (length (kept_rows r)) (length r.comparisons) e))
      | inr fewer ↦ elim (Bool-cases (length (kept_rows r) == 0)) [
        | inl gone ↦
            rw (fewer, gone, some_dropped (length (kept_rows r)) (length r.comparisons) fewer gone)
        | inr rest ↦ rw (fewer, rest) (rw rest at (filtered_status s r d))
      ]
    ]
