-- ===== src/Domain.antt =====
-- The domain layer: backend/app/domain. Every other part stands on these modules.
pub mod Enums
pub mod StateMachines
pub mod Ledger
pub mod TurnPolicy
pub mod Session
pub mod Privacy
