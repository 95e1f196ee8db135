-- ===== src/Lib.antt =====
-- Verification of pico-subblock: the sparse Merkle Patricia trie and the states made of it, the
-- execution of subblocks around the EVM, the aggregation of their proofs, the cut of a block into
-- subblocks, and the databases that the host executes on.
--
-- The host cuts a block into subblocks by gas and prepares, for each, its input and the part of the
-- state trie that it reads. The program in the virtual machine executes a subblock on that sparse
-- trie and commits its input and its output. The aggregation program checks the proofs of all
-- subblocks and that they follow on each other, and returns the header of the block.
--
-- Path: the nibble paths of crates/mpt/src/mpt.rs (`to_nibs`, `to_encoded_path`, `lcp`,
-- `prefix_nibs`, the flag test of `decode`). Path/Codec has the round trips, Path/Split the cases
-- of two paths that meet.
-- Mpt: `MptNode` of crates/mpt/src/mpt.rs. A branch's array of 16 is a list of places (`Children`).
-- An operation on `&mut self` returns its Boolean and the node that it leaves; a failed one has
-- written nothing but caches, so an error carries no node. A panic (`unwrap`, an index out of
-- range, `unreachable!`) is a third outcome of `Result`. Mpt/Get, Mpt/Insert and Mpt/Delete have
-- the operations; Mpt/Valid has the shape of tries and the map from nibble paths to values that a
-- trie stands for, Mpt/Uniform the tries with keys of one length and the digests that hide a key,
-- Mpt/Hidden what happens there, Mpt/Get/Entries the list of all values of a trie.
-- Mpt/Hash: `encode`, `length`, `reference` and `hash` with the cache of references as part of a
-- node; `fill` is the effect of `reference` on the caches, and Mpt/Hash/Root has the root of a trie
-- as the Yellow Paper defines it. Mpt/Touched: `get_with_touched`, `delete_with_touched` and
-- `prune_unmarked_nodes`; the caches that the first fills on its way are not carried along
-- (`reference` gives the same with them). Mpt/Proof: `mpt_from_proof`, `is_not_included`,
-- `shorten_node_path` and `node_from_digest`.
-- Client: `SubblockOutput` (Client/Output, with Client/Output/Pieces for what requests are made of)
-- and `execute_aggregation` (Client/Aggregation) of crates/executor/client/src/io.rs and lib.rs.
-- The types of reth are records of the fields that the code names, and `other` is what it only
-- carries along and compares. Client/Witness: `witness_db` and the reads of `TrieDB`, on
-- `EthereumState` of crates/mpt/src/lib.rs.
-- Mpt/Decode: `decode` of crates/mpt/src/mpt.rs over the items of an RLP input; Mpt/Decode/Toy has
-- a small codec on which the tests run. Mpt/Resolve: `resolve_nodes`.
-- State: `EthereumState` of crates/mpt/src/lib.rs. State.antt has the state and `update`,
-- State/Prune `get_touched_nodes` and `prune`, State/Proofs `proofs_to_tries` and
-- `transition_proofs_to_tries` of mpt.rs with the constructors of lib.rs that call them. A map is a
-- list of entries, of which the first with a key counts. State/ExecutionWitness is
-- `build_validated_tries` of execution_witness.rs, on `for_each_leaves` (Mpt/Leaves).
-- Client/Execution: `ClientExecutor::execute` and `execute_subblock` of
-- crates/executor/client/src/lib.rs, and `SubblockHostOutput::validate` of io.rs, on the witness
-- database and the states above.
-- Subblock: `compute_subblock_gas_limits` of crates/executor/host/src/subblock/mod.rs, on `u64`
-- with wrap-around (Prelude/Word).
-- RpcDb: crates/storage/rpc-db. RpcDb.antt is state.rs and RpcDb/Basic is basic.rs, where a fetch
-- returns its answer and the database it leaves; RpcDb/Reachable has the sequences of calls.
-- RpcDb/Witness is execution_witness.rs.
--
-- Parameters: alloy_rlp and Keccak in Mpt/Hash (`External`, with `IsDocumented` for the lengths
-- that alloy_rlp and Keccak promise); the rlp crate in Mpt/Decode (`Rlp`, with the laws of a parser
-- that reads what alloy_rlp writes); the paths of the crate nybbles in Mpt/Leaves (`Nibbles`); in
-- Client/Block (`External`) bincode, Sha256, the check of a proof, the bloom filter, reth's
-- consensus checks and trie roots; in Client/Witness (`Decoders`) and State (`Encoders`) the codecs
-- of accounts and words; in Client/Execution (`Evm`) the recovery of senders, the execution by the
-- EVM, the checks after it and the hashed changes; in RpcDb/Basic (`Provider`) the answers of the
-- RPC provider, and in RpcDb/Witness (`Calls`) the codecs, the hash of a header and the provider's
-- codes. Each law of a parameter that a theorem needs is among its hypotheses.
--
-- Recursion is structural but for four places. `chunks` of Client/Output has the length of the data
-- as fuel, which is enough since no chunk is empty. `decode` has the length of the input, which is
-- enough since an item is shorter than the list it is in. `resolve_nodes` follows the digests of a
-- store, which may go in a circle: the source then overflows its stack, and the model, whose fuel
-- runs out, panics; a store in which digests lead to lower ranks has fuel that is enough. The loop
-- of `for_each_leaves` has the number of nodes.
--
-- Not modelled: in crates/mpt the printing of nodes; in crates/executor the hooks of precompiles
-- (custom.rs), the profiling macros, and the pipelines of the host (asynchronous RPC, EVM runs and
-- files); in crates/storage/rpc-db the request for an execution witness, the cache files and the
-- tokio runtime around the fetches; crates/primitives, the command line and the programs of bin,
-- which are file I/O and proving.
--
-- The check of a proof takes place only in the virtual machine: the model has it always.
pub mod Prelude
pub mod Result
pub mod Path
pub mod Mpt
pub mod Subblock
pub mod State
pub mod RpcDb
pub mod Client
