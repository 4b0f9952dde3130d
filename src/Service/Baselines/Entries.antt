-- ===== src/Service/Baselines/Entries.antt =====
-- The entries that the loop over the runs writes (internal/service/ci_report.go).
use conbench.Base.{
  ◌≡◌, refl, sym, ◌∙◌, inl, inr, Bool, true, false, Option, none, some, List, [], ◌∷◌, String,
  str_eq, str_eq_iff, Bool-cases, All,
}
use conbench.Base.Maps.{Map, lookup, insert, lookup-insert, string_key}
use conbench.Base.Results.{Result, ok, bind-ok}
use conbench.Service.Selection.{RunRow, ReportError}
use conbench.Service.Baselines.{BaselineSelection}
use conbench.Service.Baselines.Sources.{Among, no_entry}
use conbench.Service.Baselines.Select.{collect}

abbrev is_some {ℓ} : {A : Type ℓ} → Option A → Bool
is_some none = false
is_some (some a) = true

-- The run's id has an entry, and the entry is right for a run of the list with that id.
abbrev pub HasSelection :
    (RunRow → BaselineSelection → Type 0)
    → List RunRow
    → Map String BaselineSelection
    → RunRow
    → Type 0
HasSelection R runs result run =
    (s : BaselineSelection) × (other : RunRow) × (lookup run.run_id result ≡ some s)
    × Among other runs
    × (other.run_id ≡ run.run_id)
    × R other s

module _ (R : RunRow → BaselineSelection → Type 0)
    (select : RunRow → Result ReportError BaselineSelection)
    (each : (run : RunRow) (s : BaselineSelection) → select run ≡ ok s → R run s) where
  -- Every entry is right for a run of the list.
  abbrev AllRight : List RunRow → Map String BaselineSelection → Type 0
  AllRight runs m =
      (id : String) (s : BaselineSelection)
      → lookup id m ≡ some s
      → (other : RunRow) × Among other runs × (other.run_id ≡ id) × R other s

  insert-AllRight :
      (runs : List RunRow) (run : RunRow) (s : BaselineSelection) (m : Map String BaselineSelection)
      → Among run runs
      → R run s
      → AllRight runs m
      → AllRight runs (insert run.run_id s m)
  insert-AllRight runs run s m among right h j t found = elim (Bool-cases (str_eq run.run_id j)) [
    | inl same ↦
        let read = rw same at (lookup-insert run.run_id j s m) in
        let both : some s ≡ some t = sym read ∙ found in
        let equal : s ≡ t = cc in (run, among, (str_eq_iff run.run_id j).0 same, rw (← equal) right)
    | inr other ↦
        let read = rw other at (lookup-insert run.run_id j s m) in h j t (sym read ∙ found)
  ]

  collect-AllRight :
      (all runs : List RunRow) (m result : Map String BaselineSelection)
      → ((run : RunRow) → Among run runs → Among run all)
      → AllRight all m
      → collect select runs m ≡ ok result
      → AllRight all result
  unfolding collect
  collect-AllRight all [] m result within h e = let same : m ≡ result = cc in rw (← same) h
  collect-AllRight all (run ∷ runs) m result within h e =
      bind-ok (select run) _ e λ s selected rest.
        collect-AllRight all runs (insert run.run_id s m) result (λ r a. within r (inr a))
          (insert-AllRight all run s m (within run (inl refl)) (each run s selected) h) rest

  collect-keeps :
      (runs : List RunRow) (m result : Map String BaselineSelection) (id : String)
      → collect select runs m ≡ ok result
      → is_some (lookup id m) ≡ true
      → is_some (lookup id result) ≡ true
  unfolding collect
  collect-keeps [] m result id e h = let same : m ≡ result = cc in rw (← same) h
  collect-keeps (run ∷ runs) m result id e h = bind-ok (select run) _ e λ s selected rest.
      collect-keeps runs (insert run.run_id s m) result id rest
        (elim (Bool-cases (str_eq run.run_id id)) [
          | inl same ↦ rw (lookup-insert run.run_id id s m, same) refl
          | inr other ↦ rw (lookup-insert run.run_id id s m, other) h
        ])

  collect-All :
      (runs : List RunRow) (m result : Map String BaselineSelection)
      → collect select runs m ≡ ok result
      → All (λ (run : RunRow). is_some (lookup run.run_id result) ≡ true) runs
  unfolding collect
  collect-All [] m result e = tt
  collect-All (run ∷ runs) m result e = bind-ok (select run) _ e λ s selected rest.
      let own : str_eq run.run_id run.run_id ≡ true = (str_eq_iff run.run_id run.run_id).1 refl in
      (
        collect-keeps runs (insert run.run_id s m) result run.run_id rest
            (rw (lookup-insert run.run_id run.run_id s m, own) refl),
        collect-All runs (insert run.run_id s m) result rest,
      )

  some_entry :
      (runs : List RunRow) (result : Map String BaselineSelection) (run : RunRow)
      → AllRight runs result
      → is_some (lookup run.run_id result) ≡ true
      → HasSelection R runs result run
  some_entry runs result run h = by_entry (lookup run.run_id result) refl
    where
      by_entry :
          (e : Option BaselineSelection)
          → lookup run.run_id result ≡ e
          → is_some e ≡ true
          → HasSelection R runs result run
      by_entry none read k = absurd cc
      by_entry (some s) read k =
          let right = h run.run_id s read in (s, right.0, read, right.1, right.2, right.3)

  every_entry :
      (runs rest : List RunRow) (result : Map String BaselineSelection)
      → AllRight runs result
      → All (λ (run : RunRow). is_some (lookup run.run_id result) ≡ true) rest
      → All (HasSelection R runs result) rest
  every_entry runs [] result h all = tt
  every_entry runs (run ∷ rest) result h all =
      (some_entry runs result run h all.0, every_entry runs rest result h all.1)

  -- Where the loop succeeds, every run has an entry that is right.
  pub collect-HasSelection :
      (runs : List RunRow) (result : Map String BaselineSelection)
      → collect select runs [] ≡ ok result
      → All (HasSelection R runs result) runs
  collect-HasSelection runs result e =
      every_entry runs runs result
        (collect-AllRight runs runs [] result (λ run a. a)
          (λ id.
            no_entry (λ s. (other : RunRow) × Among other runs × (other.run_id ≡ id) × R other s)
              id)
          e)
        (collect-All runs [] result e)
