-- ===== src/Subblock.antt =====
-- crates/executor/host/src/subblock/mod.rs: how the host cuts a block into subblocks.
pub mod Gas
mod Tests
