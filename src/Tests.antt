-- ===== src/Tests.antt =====
-- Tests of the policy core, and the theorems at concrete inputs.
mod Evaluator
mod Days
mod Limits
mod Names
mod Services
mod Windows
mod Filters
mod Accounts
