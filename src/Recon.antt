-- ===== src/Recon.antt =====
-- The reconciliation engine (backend/app/engines/reconciliation).
pub mod Lines
pub mod Score
pub mod Passes
pub mod Summary
