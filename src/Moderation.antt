-- ===== src/Moderation.antt =====
-- The moderator of a live discussion: backend/app/modules/moderation.
pub mod Commands
pub mod State
pub mod Turns
pub mod Handlers
pub mod Answers
pub mod Loop
pub mod Soundness
pub mod Behaviour
pub mod Orchestrator
