-- ===== src/Service/Selection/Laws.antt =====
-- The runs of a CI report and the ids that are missing (internal/service/ci_report.go).
use conbench.Base.{
  ◌≡◌, refl, ◌∙◌, inl, inr, Bool, true, false, not, ◌&&◌, ◌||◌, Option, none, some, List, [], ◌∷◌,
  String, str_eq, str_eq_iff, if◌then◌else◌, length, ◌==◌, arith, Bool-cases, All, ap,
}
use conbench.Base.Results.{Result, ok, err}
use conbench.Service.Selection.{
  UrlStrings, RunStore, RunRow, SelectionQuery, RunSelection, ReportError, invalid, member, has_run,
  missing_from, missing_run_ids, filter_runs_by_ids, on_commit_rows, on_id_rows,
  select_commit_mode_runs, select_run_only_runs, select_ci_report_runs, all_agree, row_agrees,
  normalize_repo_url, commit_selection, id_selection, is_nil, same_repository, same_sha,
}

-- One id of the list, the loop being at `x`.
missing_from-same :
    (x : String) (rows : List RunRow) (seen xs : List String)
    → member x (missing_from rows seen xs)
      ≡ member x xs && (not (has_run x rows) && not (member x seen))
    → member x (missing_from rows seen (x ∷ xs)) ≡ (not (has_run x rows) && not (member x seen))
unfolding missing_from
missing_from-same x rows seen xs here =
    let itself : str_eq x x ≡ true = (str_eq_iff x x).1 refl in
    elim (Bool-cases (has_run x rows || member x seen)) [
      | inl met ↦ rw met (ground (arith, here, met))
      | inr fresh ↦ rw (fresh, itself) (ground (arith, fresh))
    ]

member-missing_from :
    (id : String) (rows : List RunRow) (seen ids : List String)
    → member id (missing_from rows seen ids)
      ≡ member id ids && (not (has_run id rows) && not (member id seen))
unfolding missing_from
member-missing_from id rows seen [] = refl
member-missing_from id rows seen (x ∷ xs) =
    let here = member-missing_from id rows seen xs in
    let there = member-missing_from id rows (x ∷ seen) xs in
    elim (Bool-cases (str_eq id x)) [
      | inl same ↦
          let e = (str_eq_iff id x).0 same in
          rw same (rw (e) (missing_from-same x rows seen xs (rw e at here)))
      | inr other ↦ elim (Bool-cases (has_run x rows || member x seen)) [
        | inl met ↦ rw (met, other) here
        | inr fresh ↦ rw (fresh, other) (rw other at there)
      ]
    ]

has_run-filter_runs_by_ids :
    (id : String) (rows : List RunRow) (ids : List String)
    → has_run id (filter_runs_by_ids rows ids) ≡ has_run id rows && member id ids
unfolding filter_runs_by_ids
has_run-filter_runs_by_ids id [] ids = refl
has_run-filter_runs_by_ids id (row ∷ rows) ids =
    let rest = has_run-filter_runs_by_ids id rows ids in
    elim (Bool-cases (str_eq id row.run_id)) [
      | inl same ↦
          let e = (str_eq_iff id row.run_id).0 same in
          let itself : str_eq row.run_id row.run_id ≡ true =
            (str_eq_iff row.run_id row.run_id).1 refl in
          elim (Bool-cases (member row.run_id ids)) [
            | inl kept ↦ rw (e, kept, itself) refl
            | inr dropped ↦ rw (e, dropped, itself) (rw (e, dropped) at rest ∙ ground arith)
          ]
      | inr other ↦ elim (Bool-cases (member row.run_id ids)) [
        | inl kept ↦ rw (kept, other) rest
        | inr dropped ↦ rw (dropped, other) rest
      ]
    ]

member-missing_run_ids :
    (id : String) (rows : List RunRow) (ids : List String)
    → member id (missing_run_ids ids rows) ≡ member id ids && not (has_run id rows)
unfolding missing_run_ids
member-missing_run_ids id rows ids = member-missing_from id rows [] ids ∙ ground arith

abbrev pub distinct : List String → Bool
distinct [] = true
distinct (x ∷ xs) = not (member x xs) && distinct xs

missing_from-distinct :
    (rows : List RunRow) (seen ids : List String) → distinct (missing_from rows seen ids) ≡ true
unfolding missing_from
missing_from-distinct rows seen [] = refl
missing_from-distinct rows seen (x ∷ xs) =
    let itself : str_eq x x ≡ true = (str_eq_iff x x).1 refl in
    elim (Bool-cases (has_run x rows || member x seen)) [
      | inl met ↦ rw met (missing_from-distinct rows seen xs)
      | inr fresh ↦ rw fresh (
          ground (
            arith,
            member-missing_from x rows (x ∷ seen) xs,
            itself,
            missing_from-distinct rows (x ∷ seen) xs,
          ))
    ]

-- What the ids of a selection say of its runs.
abbrev pub Splits : List String → RunSelection → Type 0
Splits ids sel =
    ((id : String) → member id sel.missing_run_ids ≡ member id ids && not (has_run id sel.runs))
    × (distinct sel.missing_run_ids ≡ true)

module _ (strings : UrlStrings) (store : RunStore) where
  on_commit_rows-Splits :
      (q : SelectionQuery) (answer : Result String (List RunRow)) (sel : RunSelection)
      → (length q.run_ids == 0) ≡ false
      → on_commit_rows strings store q answer ≡ ok sel
      → Splits q.run_ids sel
  unfolding missing_run_ids
  on_commit_rows-Splits q (err e) sel some_ids h = cc
  on_commit_rows-Splits q (ok rows) sel some_ids h =
      let e : commit_selection strings store q rows ≡ sel = cc in
      rw (← e) (
        rw some_ids (
          (λ id.
              member-missing_run_ids id rows q.run_ids
              ∙ ground (arith, has_run-filter_runs_by_ids id rows q.run_ids)),
          missing_from-distinct rows [] q.run_ids,
        ))

  -- A selection that succeeds is one by commit or one by ids.
  select_ci_report_runs-ok :
      {C : Type 0} (q : SelectionQuery) (sel : RunSelection)
      → select_ci_report_runs strings store q ≡ ok sel
      → (select_commit_mode_runs strings store q ≡ ok sel → C)
      → (select_run_only_runs strings store q.run_ids ≡ ok sel → C)
      → C
  unfolding select_ci_report_runs
  select_ci_report_runs-ok {C = C} q sel h by_commit by_ids =
      let has_repo = not (str_eq (strings.trim_space q.repository) "") in
      let has_commit = not (str_eq (strings.trim_space q.commit_sha) "") in
      by_tests ((has_repo && not has_commit) || (not has_repo && has_commit))
        (not has_repo && not (not (length q.run_ids == 0))) has_repo
        (invalid "repository and commit_sha must be provided together")
        (invalid "provide repository and commit_sha or run_ids") h
    where
      by_tests :
          (halves nothing repo : Bool) (a b : ReportError)
          → (if halves
              then err a
              else if nothing
              then err b
              else if repo
              then select_commit_mode_runs strings store q
              else select_run_only_runs strings store q.run_ids)
            ≡ ok sel
          → C
      by_tests true nothing repo x y h = cc
      by_tests false true repo x y h = cc
      by_tests false false true x y h = by_commit h
      by_tests false false false x y h = by_ids h

  on_id_rows-ok :
      {C : Type 0} (ids : List String) (answer : Result String (List RunRow)) (sel : RunSelection)
      → ((row : RunRow) (rows : List RunRow)
          → all_agree strings
              (normalize_repo_url strings row.commit_repo_url)
              row.commit_sha
              (row ∷ rows)
            ≡ true
          → id_selection strings store ids row rows ≡ sel
          → C)
      → on_id_rows strings store ids answer ≡ ok sel
      → C
  on_id_rows-ok ids (err e) sel f h = cc
  on_id_rows-ok ids (ok []) sel f h = cc
  on_id_rows-ok ids (ok (row ∷ rows)) sel f h =
      elim (Bool-cases (
        all_agree strings (normalize_repo_url strings row.commit_repo_url) row.commit_sha
          (row ∷ rows))) [
            | inl agree ↦ let h' = rw agree at h in f row rows agree cc
            | inr differ ↦ let h' = rw differ at h in cc
          ]

-- Where run ids are given and runs are selected, by a commit or by the ids alone: the missing ids
-- are those of the given ids that no selected run has, each of them once.
pub select_ci_report_runs-Splits :
    (strings : UrlStrings) (store : RunStore) (q : SelectionQuery) (sel : RunSelection)
    → (length q.run_ids == 0) ≡ false
    → select_ci_report_runs strings store q ≡ ok sel
    → ((id : String)
        → member id sel.missing_run_ids ≡ member id q.run_ids && not (has_run id sel.runs))
      × (distinct sel.missing_run_ids ≡ true)
unfolding select_commit_mode_runs select_run_only_runs missing_run_ids
select_ci_report_runs-Splits strings store q sel some_ids h =
    select_ci_report_runs-ok strings store q sel h
      (on_commit_rows-Splits strings store q _ sel some_ids)
      (on_id_rows-ok strings store q.run_ids _ sel λ row rows agree e. rw (← e) (
        (λ id. member-missing_run_ids id (row ∷ rows) q.run_ids),
        missing_from-distinct (row ∷ rows) [] q.run_ids,
      ))

row_agrees-sha :
    (strings : UrlStrings) (repository : String) (sha : Option String) (row : RunRow)
    → row_agrees strings repository sha row ≡ true
    → (normalize_repo_url strings row.commit_repo_url ≡ repository) × (row.commit_sha ≡ sha)
unfolding row_agrees
row_agrees-sha strings repository sha row h = (
  (str_eq_iff (normalize_repo_url strings row.commit_repo_url) repository).0 (ground arith),
  by_sha sha row.commit_sha (ground arith),
)
  where
    by_sha :
        (sha own : Option String)
        → (if is_nil sha
            then is_nil own
            else same_repository strings repository row.commit_repository && same_sha own sha)
          ≡ true
        → own ≡ sha
    by_sha none none h = refl
    by_sha none (some a) h = cc
    by_sha (some b) none h = absurd (ground arith)
    by_sha (some b) (some a) h = ap some ((str_eq_iff a b).0 (ground arith))

all_agree-All :
    (strings : UrlStrings) (repository : String) (sha : Option String) (rows : List RunRow)
    → all_agree strings repository sha rows ≡ true
    → All
        (λ (row : RunRow).
          (normalize_repo_url strings row.commit_repo_url ≡ repository) × (row.commit_sha ≡ sha))
        rows
all_agree-All strings repository sha [] h = tt
all_agree-All strings repository sha (row ∷ rows) h = (
  row_agrees-sha strings repository sha row (ground arith),
  all_agree-All strings repository sha rows (ground arith),
)

-- Runs that are selected by their ids alone all have the repository and the commit of the
-- selection, or all have no commit, as the selection then has.
pub select_run_only_runs-All :
    (strings : UrlStrings) (store : RunStore) (run_ids : List String) (sel : RunSelection)
    → select_run_only_runs strings store run_ids ≡ ok sel
    → All
        (λ (row : RunRow).
          (normalize_repo_url strings row.commit_repo_url ≡ sel.repository)
          × (row.commit_sha ≡ sel.commit_sha))
        sel.runs
unfolding select_run_only_runs
select_run_only_runs-All strings store run_ids sel h =
    on_id_rows-ok strings store run_ids (store.runs_by_ids run_ids) sel
      (λ row rows agree e. rw (← e) (
        all_agree-All strings (normalize_repo_url strings row.commit_repo_url) row.commit_sha
          (row ∷ rows) agree))
      h
