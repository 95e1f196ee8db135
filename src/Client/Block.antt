-- ===== src/Client/Block.antt =====
-- Blocks and the inputs and outputs of subblocks (crates/executor/client/src/io.rs). The types of
-- reth are records of the fields that this code names; `other` stands for the fields that it only
-- carries along and compares.
use native.Mathlib.Decide.{ℕ_discrete}
use pico_subblock.Prelude.{ℕ, zero, suc, Bool, Option, List, [], ◌∷◌}

abbrev pub Bytes : Type 0
Bytes = List ℕ

pub record Header : Type 0 where
  pub parent_hash : Bytes
  pub ommers_hash : Bytes
  pub state_root : Bytes
  pub transactions_root : Bytes
  pub receipts_root : Bytes
  pub withdrawals_root : Option Bytes
  pub logs_bloom : Bytes
  pub number : ℕ
  pub requests_hash : Option Bytes
  pub other : Bytes

-- Ommers and withdrawals are given by their encodings, and so is a transaction.
pub record Block : Type 0 where
  pub header : Header
  pub transactions : List Bytes
  pub ommers : List Bytes
  pub withdrawals : Option (List Bytes)

pub record Receipt : Type 0 where
  pub cumulative_gas_used : ℕ
  pub bloom : Bytes
  pub other : Bytes

-- A `BTreeMap<u64, B256>`, as the list of its entries in the order of the keys.
abbrev pub BlockHashes : Type 0
BlockHashes = List (ℕ × Bytes)

pub record SubblockInput : Type 0 where
  pub current_block : Block
  pub block_hashes : BlockHashes
  pub bytecodes : List Bytes
  pub is_first_subblock : Bool
  pub is_last_subblock : Bool
  pub starting_gas_used : ℕ

pub record SubblockOutput : Type 0 where
  pub input_state_root : Bytes
  pub output_state_root : Bytes
  pub logs_bloom : Bytes
  pub receipts : List Receipt
  pub requests : List Bytes

pub record AggregationInput : Type 0 where
  pub current_block : Block
  pub ancestor_headers : List Header

unfoldable pub Bytes_discrete : Discrete Bytes
Bytes_discrete = hlevel (ℕ_discrete)

unfoldable pub Option_Bytes_discrete : Discrete (Option Bytes)
Option_Bytes_discrete = hlevel (ℕ_discrete)

unfoldable pub Header_discrete : Discrete Header
Header_discrete = hlevel (ℕ_discrete)

unfoldable pub Bodies_discrete : Discrete (List Bytes)
Bodies_discrete = hlevel (ℕ_discrete)

unfoldable pub Withdrawals_discrete : Discrete (Option (List Bytes))
Withdrawals_discrete = hlevel (ℕ_discrete)

unfoldable pub BlockHashes_discrete : Discrete BlockHashes
BlockHashes_discrete = hlevel (ℕ_discrete)

-- crates/executor/client/src/error.rs, without the values that its messages print.
pub data ClientError : Type 0 where
  signature_recovery_failed : ClientError
  mismatched_state_root : ClientError
  mismatched_storage_root : ClientError
  missing_bytecode : ClientError
  missing_trie : ClientError
  invalid_header_block_number : ℕ → ℕ → ClientError
  invalid_header_parent_hash : Bytes → Bytes → ClientError
  post_execution_error : ClientError
  block_execution_error : ClientError
  mpt_error : ClientError
  deserialization_error : ClientError
  invalid_subblock_output : ClientError
  invalid_state_diff : ClientError

-- What the client calls in other crates: Keccak of a header's RLP, Sha256, the check of a proof by
-- the virtual machine (for a key and a digest), the two reads of a committed value, the blooms, the
-- consensus checks after execution, and the three roots.
pub record External : Type 0 where
  pub hash_slow : Header → Bytes
  pub sha256 : Bytes → Bytes
  pub verify_proof : List ℕ → Bytes → Bool
  pub read_input : Bytes → Option (SubblockInput × Bytes)
  pub read_output : Bytes → Option (SubblockOutput × Bytes)
  pub accrue_bloom : Bytes → Bytes → Bytes
  pub validate : Header → List Receipt → List Bytes → Bool
  pub ommers_root : List Bytes → Bytes
  pub transaction_root : List Bytes → Bytes
  pub withdrawals_root : List Bytes → Bytes

unfoldable pub zeros : ℕ → Bytes
zeros zero = []
zeros (suc n) = 0 ∷ zeros n
