-- ===== src/Client.antt =====
-- crates/executor/client: what is proved inside the virtual machine, and the checks of its inputs.
pub mod Block
pub mod Output
pub mod Aggregation
pub mod Witness
pub mod Execution
mod Tests
