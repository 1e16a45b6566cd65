-- ===== src/Scoring.antt =====
-- The readiness score (backend/app/engines/scoring).
pub mod Inputs
pub mod Calculator
pub mod Bounds
pub mod Blockers
