-- ===== src/Voice.antt =====
-- The sound of a discussion: backend/app/modules/voice.
pub mod Mixer
