-- ===== src/Derivations.antt =====
-- src/agentic_security/derivations.py: what is derived from stored evidence under ASI-1.0.
pub mod Examples
pub mod Age
pub mod Scope
pub mod Independence
pub mod Support
pub mod Autonomy
pub mod Panel
