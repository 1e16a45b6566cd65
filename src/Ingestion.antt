-- ===== src/Ingestion.antt =====
-- Ingestion (backend/app/ingestion).
pub mod Numbers
pub mod Money
pub mod Invoice
pub mod Csv
pub mod Gstr2b
