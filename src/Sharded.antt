-- ===== src/Sharded.antt =====
-- sharded_store.go: the whole store, its shards and the hash of the keys.
pub mod Codec
pub mod Shard
pub mod Arena
pub mod Invariant
pub mod Reads
pub mod Writes
pub mod Ops
pub mod Laws
pub mod Removal
pub mod Sizes
pub mod Ideal
pub mod InStep
pub mod Refinement
mod Runs
