-- ===== src/Judge.antt =====
-- src/submissions/judge/judge-engine.service.ts: running code in containers and comparing outputs.
mod Examples
pub mod Output
pub mod Execution
pub mod Languages
pub mod Settings
