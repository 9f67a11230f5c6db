-- ===== src/Submissions.antt =====
-- src/submissions: accepting, judging and showing submissions.
mod Examples
mod Samples
pub mod Controller
pub mod Pipeline
pub mod Processor
pub mod Retries
pub mod Service
