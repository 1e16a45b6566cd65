-- ===== src/Gsp.antt =====
-- The connection to GSTN through a GSP (backend/app/gsp).
pub mod Retry
pub mod Rows
pub mod Consent
pub mod Live
pub mod Reload
pub mod Pull
pub mod Periods
pub mod Scheduler
