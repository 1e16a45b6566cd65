-- ===== src/Reminders.antt =====
-- The reminders (backend/app/reminders).
pub mod Log
pub mod Notify
pub mod Sweep
