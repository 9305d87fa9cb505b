-- ===== src/Windows.antt =====
-- windows/extension: the browser extension that enforces a snapshot on Windows, and its port of
-- the shared evaluator.
pub mod Hosts
pub mod Filters
pub mod YouTube
pub mod Evaluate
pub mod Resolver
pub mod Worker
