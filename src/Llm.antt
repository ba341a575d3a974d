-- ===== src/Llm.antt =====
-- The chain of language models: backend/app/infrastructure/llm.
pub mod Quota
pub mod Failures
pub mod Monitor
pub mod Router
