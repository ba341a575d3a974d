-- ===== src/Moderation/Behaviour.antt =====
-- What single commands of a live discussion bring about (backend/app/modules/moderation/runner.py).
pub mod Closing
pub mod Removal
pub mod Silence
pub mod Stuck
pub mod Teardown
