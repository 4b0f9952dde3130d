-- ===== src/Service/Baselines/Sources.antt =====
-- Where the candidates of findBaselineRun come from (internal/service/ci_report.go).
use conbench.Base.{
  ℕ, suc, ◌≡◌, ◌≢◌, ◌⊎◌, ◌↔◌, refl, sym, ◌∙◌, ap, inl, inr, Bool, true, false, Option, none, some,
  List, [], ◌∷◌, ◌++◌, String, str_eq, str_eq_iff, if◌then◌else◌, length, ◌==◌, map, Bool-cases,
  All, All-append,
}
use conbench.Base.Maps.{Map, lookup, insert, lookup-insert, string_key}
use conbench.Base.Results.{Result, ok, err, ◌>>=◌, bind-ok}
use conbench.Service.Selection.{UrlStrings, RunRow, normalize_repo_url}
use conbench.Service.Baselines.{
  CommitRow, BaselineCandidate, BaselineStore, meta_commit_id, same_string_ptr, asked, eligible,
  with_commit, run_meta, run_key_string, latest_by_run_key, is_contender,
}
use conbench.Service.Baselines.Search.{
  no_run, or_no_run, candidate_of, candidates_at, candidates_from,
}

abbrev pub Among : {A : Type 0} → A → List A → Type 0
Among a [] = ⊥
Among a (x ∷ xs) = (a ≡ x) ⊎ Among a xs

-- Two reasons that may be missing are the same exactly if both are missing or both are one text.
same_string_ptr_iff : (a b : Option String) → (same_string_ptr a b ≡ true) ↔ (a ≡ b)
same_string_ptr_iff none none = ((λ h. refl), (λ h. refl))
same_string_ptr_iff none (some b) = ((λ h. absurd cc), (λ h. absurd cc))
same_string_ptr_iff (some a) none = ((λ h. absurd cc), (λ h. absurd cc))
same_string_ptr_iff (some a) (some b) =
    ((λ h. ap some ((str_eq_iff a b).0 h)), (λ h. (str_eq_iff a b).1 cc))

pub asked-ok : {A : Type 0} (r : Result String A) (a : A) → asked r ≡ ok a → r ≡ ok a
asked-ok (err e) a h = absurd cc
asked-ok (ok b) a h = let same : b ≡ a = cc in ap ok same

-- A row with a commit that is not the contender's own.
abbrev pub IsOther : RunRow → RunRow → Type 0
IsOther contender run =
    (id : String) × (run.commit_id ≡ some id)
    × ((run.run_id ≢ contender.run_id) ⊎ (contender.commit_id ≢ some id))

pub no_entry : {V : Type 0} (P : V → Type 0) (key : String) (v : V) → lookup key [] ≡ some v → P v
unfolding lookup
no_entry P key v e = absurd cc

module _ (strings : UrlStrings) (string_lt : String → String → Bool) (store : BaselineStore)
    (contender : RunRow) where
  not_contender :
      (run : RunRow) (id : String)
      → is_contender strings string_lt store contender run id ≡ false
      → (run.run_id ≢ contender.run_id) ⊎ (contender.commit_id ≢ some id)
  not_contender run id h = elim (Bool-cases (str_eq run.run_id contender.run_id)) [
    | inl same ↦
        let other : same_string_ptr (some id) contender.commit_id ≡ false = rw same at h in
        inr (λ e.
          let own : same_string_ptr (some id) contender.commit_id ≡ true =
            (same_string_ptr_iff (some id) contender.commit_id).1 (sym e) in
          absurd (cc (own, other)))
    | inr differs ↦ inl (λ e.
        let same : str_eq run.run_id contender.run_id ≡ true =
          (str_eq_iff run.run_id contender.run_id).1 e in
        absurd (cc (same, differs)))
  ]

  with_commit-All :
      (P : RunRow → Type 0) (run : RunRow) (c : Option String) (rest : List (RunRow × String))
      → run.commit_id ≡ c
      → (IsOther contender run → P run)
      → All (λ (q : RunRow × String). P q.0) rest
      → All
          (λ (q : RunRow × String). P q.0)
          (with_commit strings string_lt store contender run c rest)
  with_commit-All P run none rest e h all = all
  with_commit-All P run (some id) rest e h all =
      elim (Bool-cases (is_contender strings string_lt store contender run id)) [
        | inl own ↦ rw own all
        | inr other ↦ rw other (h (id, e, not_contender run id other), all)
      ]

  -- A property of the listed rows that may be a baseline.
  eligible-All :
      (P : RunRow → Type 0) (runs : List RunRow)
      → ((run : RunRow) → Among run runs → IsOther contender run → P run)
      → All (λ (q : RunRow × String). P q.0) (eligible strings string_lt store contender runs)
  eligible-All P [] h = tt
  eligible-All P (run ∷ runs) h =
      with_commit-All P run run.commit_id _ refl (h run (inl refl))
        (eligible-All P runs (λ r m o. h r (inr m) o))

  run_meta-All :
      (P : RunRow → Type 0) (kept : List (RunRow × String)) (m : Map String RunRow)
      → All (λ (q : RunRow × String). P q.0) kept
      → ((key : String) (run : RunRow) → lookup key m ≡ some run → P run)
      → (key : String) (run : RunRow)
      → lookup key (run_meta strings string_lt store kept m) ≡ some run
      → P run
  run_meta-All P [] m all h = h
  run_meta-All P ((run, id) ∷ kept) m all h =
      let here : String = run_key_string strings string_lt store run.run_id id in
      run_meta-All P kept (insert here run m) all.1 λ key found e.
        elim (Bool-cases (str_eq here key)) [
          | inl same ↦
              let read = rw same at (lookup-insert here key run m) in
              let both : some run ≡ some found = sym read ∙ e in
              let equal : run ≡ found = cc in rw (← equal) all.0
          | inr other ↦
              let read = rw other at (lookup-insert here key run m) in h key found (sym read ∙ e)
        ]

  -- A candidate stands at one of the ancestors; it is a run that the store lists for its commit, in the contender's repository, with a
  -- commit and not the contender itself, or stands for a row that the store was not asked for; its
  -- flag says whether that run has the contender's reason.
  pub record IsFrom (ancestry : List CommitRow) (d : BaselineCandidate) : Type 0 where
    pub own_ancestor : Among d.commit ancestry
    pub runs : List RunRow
    pub run : RunRow
    pub listed :
        store.runs_by_commit
          (normalize_repo_url strings contender.commit_repo_url)
          d.commit.commit_sha
        ≡ ok runs
    pub among : (Among run runs × IsOther contender run) ⊎ (run ≡ no_run)
    pub own_id : d.run_id ≡ run.run_id
    pub own_commit : d.commit_id ≡ meta_commit_id run.commit_id
    pub reason : (d.same_reason ≡ true) ↔ (contender.run_reason ≡ run.run_reason)

  candidate_of-IsFrom :
      (c : CommitRow) (depth : ℕ) (runs : List RunRow)
      → store.runs_by_commit (normalize_repo_url strings contender.commit_repo_url) c.commit_sha
        ≡ ok runs
      → (m : Map String RunRow)
      → ((key : String) (run : RunRow)
          → lookup key m ≡ some run
          → Among run runs × IsOther contender run)
      → (entry : String × ℕ)
      → IsFrom (c ∷ []) (candidate_of strings string_lt store contender c depth m entry)
  candidate_of-IsFrom c depth runs listed m h (key, ts) = record {
    own_ancestor = inl refl;
    runs = runs;
    run = or_no_run (lookup key m);
    listed = listed;
    among = known (lookup key m) (h key);
    own_id = refl;
    own_commit = refl;
    reason = same_string_ptr_iff contender.run_reason (or_no_run (lookup key m)).run_reason;
  }
    where
      known :
          (r : Option RunRow)
          → ((run : RunRow) → r ≡ some run → Among run runs × IsOther contender run)
          → (Among (or_no_run r) runs × IsOther contender (or_no_run r)) ⊎ (or_no_run r ≡ no_run)
      known none k = inr refl
      known (some run) k = inl (k run refl)

  All-candidates :
      (c : CommitRow) (depth : ℕ) (runs : List RunRow)
      → store.runs_by_commit (normalize_repo_url strings contender.commit_repo_url) c.commit_sha
        ≡ ok runs
      → (m : Map String RunRow)
      → ((key : String) (run : RunRow)
          → lookup key m ≡ some run
          → Among run runs × IsOther contender run)
      → (entries : List (String × ℕ))
      → All
          (IsFrom (c ∷ []))
          (map (candidate_of strings string_lt store contender c depth m) entries)
  All-candidates c depth runs listed m h [] = tt
  All-candidates c depth runs listed m h (entry ∷ entries) = (
    candidate_of-IsFrom c depth runs listed m h entry,
    All-candidates c depth runs listed m h entries,
  )

  candidates_at-IsFrom :
      (fingerprints : List String) (c : CommitRow) (depth : ℕ) (found : List BaselineCandidate)
      → candidates_at strings string_lt store contender fingerprints c depth ≡ ok found
      → All (IsFrom (c ∷ [])) found
  unfolding candidates_at
  candidates_at-IsFrom fingerprints c depth found e =
      bind-ok
        (asked (
          store.runs_by_commit (normalize_repo_url strings contender.commit_repo_url) c.commit_sha))
        _ e
        λ runs answer rest.
          by_size runs (asked-ok _ runs answer)
            (length (eligible strings string_lt store contender runs) == 0) rest
    where
      by_size :
          (runs : List RunRow)
          → store.runs_by_commit (normalize_repo_url strings contender.commit_repo_url) c.commit_sha
            ≡ ok runs
          → (none_kept : Bool)
          → (if none_kept
              then ok []
              else asked (
                  store.result_rows (
                    map
                      (λ (r : RunRow × String). (r.0.run_id, r.1))
                      (eligible strings string_lt store contender runs)))
                >>= λ rows. ok (
                    map
                      (candidate_of strings string_lt store contender c depth (
                        run_meta strings string_lt store
                          (eligible strings string_lt store contender runs)
                          []))
                      (latest_by_run_key strings string_lt store fingerprints rows [])))
            ≡ ok found
          → All (IsFrom (c ∷ [])) found
      by_size runs listed true k = let same : [] ≡ found = cc in rw (← same) tt
      by_size runs listed false k =
          let kept = eligible strings string_lt store contender runs in
          let P : RunRow → Type 0 = λ run. Among run runs × IsOther contender run in
          bind-ok
            (asked (store.result_rows (map (λ (r : RunRow × String). (r.0.run_id, r.1)) kept))) _ k
            λ rows read built.
              let m = run_meta strings string_lt store kept [] in
              let entries = latest_by_run_key strings string_lt store fingerprints rows [] in
              let same : map (candidate_of strings string_lt store contender c depth m) entries
                  ≡ found =
                cc in
              rw (← same) (
                All-candidates c depth runs listed m
                  (run_meta-All P kept [] (eligible-All P runs (λ run a o. (a, o))) (no_entry P))
                  entries)

  IsFrom-weaken :
      (xs ys : List CommitRow)
      → ((a : CommitRow) → Among a xs → Among a ys)
      → (found : List BaselineCandidate) → All (IsFrom xs) found
      → All (IsFrom ys) found
  IsFrom-weaken xs ys within [] all = tt
  IsFrom-weaken xs ys within (d ∷ found) all =
      let h = all.0 in
      (
        record {
          own_ancestor = within d.commit h.own_ancestor;
          runs = h.runs;
          run = h.run;
          listed = h.listed;
          among = h.among;
          own_id = h.own_id;
          own_commit = h.own_commit;
          reason = h.reason;
        },
        IsFrom-weaken xs ys within found all.1,
      )

  -- Every candidate of the search is from a run of its commit.
  pub candidates_from-IsFrom :
      (fingerprints : List String) (depth : ℕ) (ancestry : List CommitRow)
      (found : List BaselineCandidate)
      → candidates_from strings string_lt store contender fingerprints depth ancestry ≡ ok found
      → All (IsFrom ancestry) found
  unfolding candidates_from
  candidates_from-IsFrom fingerprints depth [] found e =
      let same : [] ≡ found = cc in rw (← same) tt
  candidates_from-IsFrom fingerprints depth (c ∷ cs) found e =
      bind-ok (candidates_at strings string_lt store contender fingerprints c depth) _ e
        λ here at_c rest.
          bind-ok (candidates_from strings string_lt store contender fingerprints (suc depth) cs) _
            rest
            λ there searched joined.
              let same : here ++ there ≡ found = cc in
              rw (← same) (
                All-append (IsFrom (c ∷ cs)) here there
                  (IsFrom-weaken (c ∷ []) (c ∷ cs) (λ a h. at_head a h) here
                    (candidates_at-IsFrom fingerprints c depth here at_c))
                  (IsFrom-weaken cs (c ∷ cs) (λ a h. inr h) there
                    (candidates_from-IsFrom fingerprints (suc depth) cs there searched)))
    where
      at_head : (a : CommitRow) → Among a (c ∷ []) → Among a (c ∷ cs)
      at_head a (inl same) = inl same
      at_head a (inr none_left) = absurd none_left
