-- ===== src/State/Proofs/Transition.antt =====
-- crates/mpt/src/mpt.rs: `transition_proofs_to_tries`, with the leaves that `add_orphaned_leafs`
-- adds.
use pico_subblock.State.Proofs.Rooted.{Rooted}
use pico_subblock.State.Proofs.Used.{Keeps}
