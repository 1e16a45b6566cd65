-- ===== src/Filings.antt =====
-- The filings (backend/app/filings).
pub mod Service
pub mod Gstr3b
pub mod Gstr1
