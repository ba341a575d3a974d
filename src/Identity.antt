-- ===== src/Identity.antt =====
-- Accounts and their credentials: backend/app/modules/identity and backend/app/core/security.py.
pub mod Tokens
pub mod Accounts
pub mod People
