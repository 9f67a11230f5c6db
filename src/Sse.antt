-- ===== src/Sse.antt =====
-- src/sse: the streams of events that follow a submission.
mod Examples
pub mod Events
pub mod Service
pub mod Controller
