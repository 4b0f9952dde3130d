-- ===== src/Lib.antt =====
-- Conbench: the analysis of benchmark results, the alerts that follow from it, and the repair of
-- commit metadata.
--
-- Benchmark results form a series per fingerprint. The statistics (internal/stats) turn a series into
-- rolling means and deviations and a pair of results into verdicts; the CI report (internal/service)
-- collects the verdicts of a run into a summary and a status; the evaluation of alert rules
-- (internal/service) moves each rule between its two states on that status, through the alert
-- tables (internal/db), and the events of those moves are delivered to channels under leases; a repair
-- (internal/commitrepair) fills in the metadata of commits, and a backfiller (internal/commit) catches
-- up default branches from GitHub. Requests are authorized by tokens and signed sessions (internal/auth).
--
-- Base: what the files share. Lists, tests and signed integers over the native numbers, maps as
-- association lists, sorting and sort.Search, ranges, and Go's (value, error) results. sort.Search over
-- n positions gets n as fuel, and the interval shrinks at every step; `sort_search-IsFirst` of
-- Base/Sort says that this is enough.
-- Floats: float64 as an interface with laws of IEEE 754; rounding is not modelled. `whole_floats` meets
-- it.
-- Units: internal/units/units.go.
-- Stats/Window: denseRank, rollingRowCount, rollingCommitRank, lowerCount and upperCount of
-- internal/stats/window.go. Stats/Reduce: its reductions and those of internal/stats/aggregates.go that
-- they need. Stats/Shifts: detectShifts and stableOrder of internal/stats/rolling.go. Stats/Rolling: the
-- rest of that file; the rows of the table that RollingStatsForSeries sorts are followed back to the
-- input. Stats/Verdict: internal/stats/verdict.go. Stats/Summary: internal/stats/svs.go.
-- A time in the statistics is a number of nanoseconds from one that is earlier than the first that the
-- database can hold. UnixNano wraps it around at 2^64, as the code does; IsNanoTime are the times from
-- 1677-09-21 to 2262-04-11, which it holds as they are. The panic of the code at an index past the end,
-- which takes other commit times, is not modelled.
-- Service/Report: the types, deriveSummaryFromComparisons, deriveStatus, deriveStatusReason and
-- attachComparisonsToRuns of internal/service/ci_report.go. Service/Selection: the runs that a report is
-- about (selectCIReportRuns), with NormalizeRepoURL of internal/commit/commit.go. Service/Baselines: the
-- search for a baseline run among ancestors (Search; Sources says where its candidates come from, and
-- Preference which it takes) and the selections of baselines (Select; Entries, Found and Given hold their
-- proofs), over reads of a store and the order of strings as parameters. Columns that are only shown are left out.
-- Service/Alerts: internal/service/alerts.go. The store, the reporter and the clock act on a World that
-- the theorems leave open.
-- Db/AlertRules: TouchAlertRuleEvaluation and TransitionAlertRule of internal/db/store.go with their SQL
-- (internal/db/alert.sql.go), over a table keyed by the rule's id. It implements the store of
-- Service/Alerts.
-- Db/Deliveries: the delivery table with its statements (internal/db/store.go, internal/db/alert.sql.go);
-- each statement is one step, and the order of ids and genID are parameters. Holds and Between say which
-- statements keep a delivery from being claimed, Later what a claim after them gives.
-- Service/Delivery: AlertDeliveryDispatcher.Deliver of internal/service/alert_delivery.go over a store, a
-- sender and a clock on an open World; Service/Delivery/Tables is the store over Db/Deliveries.
-- Service/Delivery/Senders: the messages of that file; Service/Delivery/Posts: its senders over HTTP and the
-- recipients of an email. SMTP is left out.
-- Commit/Backfill: the Backfiller of internal/commit/backfill.go as steps under its mutex: Enqueue, the end
-- of a round of runLoop, and Shutdown. What a job does between two steps is in Commit/Window.
-- Commit/Client: getJSON, attempt, token and handle403 of internal/commit/github_client.go. The network,
-- the waits and the source of tokens act on an open World; the retry loop has fuel for its rounds, one
-- for each attempt up to the deadline of the context and one for a renewed token.
-- Commit/Endpoints: the requests of the same file with parseCommit and firstLine240; the paging loop has
-- fuel for its pages, and one more than the commits fill is enough. Commit/Providers: the providers of
-- internal/commit/github.go, local.go and map.go. Commit/Window: runOne, sinceBound and insertOne of
-- internal/commit/backfill.go. JSON, URLs and dates are parameters.
-- CommitRepair: internal/commitrepair. CommitRepair/Cursors: cursor.go; JSON and base64 are parameters.
-- CommitRepair/Run: Repairer.Run, its loop as recursion on the list of candidates; the context, the
-- store, the enricher and the queue act on an open World.
-- Auth: internal/auth. Auth models Sign and Verify of signed.go and session.go and ResolvePrincipal of
-- auth.go with its helpers, over bytes; base64, HMAC, SHA-256 and numbers in text are parameters, and any
-- failed lookup of a token is a miss, as in the code. The end of a session is held as
-- time.Unix holds it, with the int64 that wraps around. Auth/Signed, Auth/Accepted and Auth/Resolves
-- hold the proofs.
-- Examples: runs on small inputs.
--
-- Not modelled: the HTTP handlers, the command line, the generated queries outside the alert tables, SMTP,
-- OIDC and the minting of tokens, the sources of GitHub tokens, and the parts of the service that read and
-- ingest results. A Go int is unbounded here where it counts items
-- in memory; the one conversion to int32 (CommitRepair) is written out.
pub mod Base
pub mod Floats
pub mod Units
pub mod Stats
pub mod Service
pub mod Db
pub mod Commit
pub mod Auth
pub mod CommitRepair
pub mod Examples
