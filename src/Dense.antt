-- ===== src/Dense.antt =====
-- predictor_dense.go: transition counts of routes in one flat matrix, and predictions from a row of it.
pub mod Matrix
pub mod Sessions
pub mod Hydrate
pub mod Candidates
pub mod Ops
mod Runs
