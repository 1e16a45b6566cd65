-- ===== src/Validation.antt =====
-- The validation engine (backend/app/engines/validation).
pub mod Gstin
pub mod Context
pub mod Rules
