-- ===== src/Policy.antt =====
-- shared/policy/policy-model.ts: the policy model, its matching and the reference evaluator.
pub mod Model
pub mod Match
pub mod Evaluate
pub mod Ranking
pub mod Decisions
pub mod Verdicts
pub mod Guarantees
pub mod Pruning
pub mod Hosts
pub mod Tightening
pub mod Chain
pub mod Playlists
pub mod Limits
