-- ===== src/Commit/Window/Inserts.antt =====
-- Which commits a job of the backfiller inserts (Backfiller.runOne, internal/commit/backfill.go).
use conbench.Commit.Client.{Client}
