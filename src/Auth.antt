-- ===== src/Auth.antt =====
-- Accounts and the protection against guessing (backend/app/auth, backend/app/gsp/lockout.py).
pub mod Redis
pub mod Lockout
pub mod RateLimit
pub mod Tables
pub mod Accounts
pub mod Locking
