-- ===== src/Changes.antt =====
-- src/agentic_security/changes/: detection, classification and human review of changes.
pub mod Examples
pub mod Detection
pub mod Classification
pub mod Review
