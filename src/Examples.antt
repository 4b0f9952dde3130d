-- ===== src/Examples.antt =====
-- Runs of the models on small inputs.
mod SeriesRuns
mod WindowRuns
mod AlertRuns
mod AuthRuns
mod CommitRuns
mod DeliveryRuns
mod RepairRuns
mod ReportRuns
