-- ===== src/Commit.antt =====
-- internal/commit: the backfill of default branches, the access to GitHub, and the providers of
-- commit metadata.
pub mod Backfill
pub mod Client
pub mod Endpoints
pub mod Providers
pub mod Window
