-- ===== src/Leaderboard.antt =====
-- src/leaderboard: the ICPC-style live standings.
mod Examples
pub mod Gateway
pub mod Standings
