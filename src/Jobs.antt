-- ===== src/Jobs.antt =====
-- The durable job runtime, src/agentic_security/jobs/.
pub mod Models
pub mod Tables
pub mod Queue
pub mod Pipeline
pub mod Runtime
pub mod Executor
pub mod Worker
pub mod Examples
