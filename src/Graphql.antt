-- ===== src/Graphql.antt =====
-- src/graphql/resolvers/standings.resolver.ts: the standings by best score, and submissions in detail.
mod Examples
pub mod Detail
pub mod Standings
