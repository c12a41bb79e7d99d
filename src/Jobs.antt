-- ===== src/Jobs.antt =====
-- app/jobs: the entry points that run apart from the API.
pub mod Sweep
pub mod Publish
pub mod Reconcile
