-- ===== src/Client/Execution.antt =====
-- `ClientExecutor::execute` and `execute_subblock` of crates/executor/client/src/lib.rs, and
-- `SubblockHostOutput::validate` of io.rs. The EVM and reth's types around it are the parameter
-- `Evm`.
pub mod Sound
pub mod Validated
mod Tests
use native.Mathlib.Decide.{ℕ_discrete}
use pico_subblock.Prelude.{
  ℕ, zero, suc, Bool, true, false, not, Option, none, some, List, [], ◌∷◌, if◌then◌else◌, get_elem?,
}
use pico_subblock.Result.{Result, ok, err, panic, ◌>>=◌, ◌>>◌, assert_dec, unwrap, unwrap_ok}
use pico_subblock.Mpt.{B256}
use pico_subblock.State.{
  EthereumState, Account, HashedPostState, Encoders, update, state_root, after_hash,
}
use pico_subblock.Client.Block.{
  Bytes, Header, Block, Receipt, BlockHashes, SubblockInput, SubblockOutput, ClientError, External,
  Bytes_discrete, zeros,
}
use pico_subblock.Client.Witness.{TrieDb, Decoders, WitnessInput, require, by_hash, witness_db}

pub record ClientExecutorInput : Type 0 where
  pub current_block : Block
  pub ancestor_headers : List Header
  pub parent_state : EthereumState
  pub bytecodes : List Bytes

-- A block with the senders of its transactions, as the EVM takes it.
pub record BlockWithSenders : Type 0 where
  pub inner : Block
  pub senders : List Bytes
  pub is_first_subblock : Bool
  pub is_last_subblock : Bool
  pub starting_gas_used : ℕ

-- `BlockExecutionOutput`; the bundle of state changes is its encoding.
pub record BlockExecutionOutput : Type 0 where
  pub state : Bytes
  pub receipts : List Receipt
  pub requests : List Bytes

-- What is called in reth: the recovery of senders, the execution of a block on a database, the
-- checks after it, the hashed changes of a bundle, and the test for an empty account.
pub record Evm : Type 0 where
  pub try_into_recovered : Block → Option BlockWithSenders
  pub execute : BlockWithSenders → TrieDb → Result ClientError BlockExecutionOutput
  pub validate_block : BlockWithSenders → List Receipt → List Bytes → Bool
  pub hash_state : Bytes → HashedPostState
  pub is_empty : Account → Bool

unfoldable pub SubblockOutput_discrete : Discrete SubblockOutput
SubblockOutput_discrete = hlevel (ℕ_discrete)

-- `ok_or(..)?`
abbrev pub ok_or {ℓ} : {A : Type ℓ} → Option A → ClientError → Result ClientError A
ok_or none e = err e
ok_or (some a) e = ok a

-- `if !b { return Err(e); }` of a check in reth
abbrev pub check : Bool → ClientError → Result ClientError (Unit {0})
check true e = ok tt
check false e = err e

-- `accounts.retain(|_, v| v.map(|acc| !acc.is_empty()).unwrap_or(true))`
unfoldable pub retain :
    (Account → Bool) → List (B256 × Option Account) → List (B256 × Option Account)
retain is_empty [] = []
retain is_empty ((address, none) ∷ accounts) = (address, none) ∷ retain is_empty accounts
retain is_empty ((address, some account) ∷ accounts) =
    let rest = retain is_empty accounts in
    if is_empty account then rest else (address, some account) ∷ rest

module _ (tries : pico_subblock.Mpt.Hash.External) (enc : Encoders) (ext : External)
    (decoders : Decoders) (evm : Evm) where
  -- `receipts.iter().for_each(|r| logs_bloom.accrue_bloom(&r.bloom()))`
  unfoldable pub accrue_blooms : Bytes → List Receipt → Bytes
  accrue_blooms logs_bloom [] = logs_bloom
  accrue_blooms logs_bloom (r ∷ receipts) =
      accrue_blooms (ext.accrue_bloom logs_bloom r.bloom) receipts

  -- The hashed changes of an execution, without its empty accounts.
  unfoldable pub hashed_changes : BlockExecutionOutput → HashedPostState
  unfolding retain
  hashed_changes output = record {
    accounts = retain evm.is_empty (evm.hash_state output.state).accounts;
    storages = (evm.hash_state output.state).storages;
  }

  -- `ancestor_headers[0]`
  unfoldable pub parent_header : ClientExecutorInput → Result ClientError Header
  parent_header input = unwrap (get_elem? input.ancestor_headers 0)

  -- `impl WitnessInput for ClientExecutorInput`
  unfoldable pub witness_input : ClientExecutorInput → Header → WitnessInput
  witness_input input parent = record {
    state = input.parent_state;
    state_anchor = parent.state_root;
    bytecodes = input.bytecodes;
    current_header = input.current_block.header;
    ancestor_headers = input.ancestor_headers;
  }

  -- The caches that `witness_db` fills are not carried along: `update` and `state_root` give the
  -- same with them.
  unfoldable pub execute : ClientExecutorInput → Result ClientError Header
  unfolding parent_header witness_input hashed_changes
  execute input = do
    parent ← parent_header input
    trie_db ←
        unwrap_ok {E' = ClientError} (witness_db tries ext decoders (witness_input input parent))
    block ← ok_or (evm.try_into_recovered input.current_block) ClientError.signature_recovery_failed
    output ← evm.execute block trie_db
    check (evm.validate_block block output.receipts output.requests)
          ClientError.post_execution_error
        >> (do
          parent_state ←
              unwrap_ok {E' = ClientError}
                (update tries enc input.parent_state (hashed_changes output))
          require
                (Bytes_discrete (state_root tries parent_state)
                  input.current_block.header.state_root)
                ClientError.mismatched_state_root
              >> ok (record input.current_block.header {
                state_root = state_root tries parent_state;
              }))

  -- The output, and the state that the call leaves.
  unfoldable pub execute_subblock :
      SubblockInput → EthereumState → Result ClientError (SubblockOutput × EthereumState)
  unfolding accrue_blooms hashed_changes by_hash
  execute_subblock input input_state = do
    let state : EthereumState = record {
      state_trie = after_hash tries input_state.state_trie;
      storage_tries = input_state.storage_tries;
    }
    block ← ok_or (evm.try_into_recovered input.current_block) ClientError.signature_recovery_failed
    output ←
        evm.execute
          (record block {
            is_first_subblock = input.is_first_subblock;
            is_last_subblock = input.is_last_subblock;
            starting_gas_used = input.starting_gas_used;
          })
          (record {
            inner = state;
            block_hashes = input.block_hashes;
            bytecode_by_hash = by_hash tries ext decoders input.bytecodes;
          })
    after ← unwrap_ok {E' = ClientError} (update tries enc state (hashed_changes output))
    ok (
      record {
        input_state_root = state_root tries input_state;
        output_state_root = state_root tries after;
        logs_bloom = accrue_blooms (zeros 256) output.receipts;
        receipts = output.receipts;
        requests = output.requests;
      },
      after,
    )

  module _ (read_state : Bytes → Option EthereumState) where
    -- One turn of the loop of `validate`: `states[i]` and `outputs[i]` panic out of range.
    unfoldable pub validate_subblock :
        SubblockInput → Option Bytes → Option SubblockOutput → Result ClientError (Unit {0})
    unfolding execute_subblock
    validate_subblock input state_bytes expected = do
      bytes ← unwrap state_bytes
      state ← unwrap (read_state bytes)
      r ← execute_subblock input state
      output ← unwrap expected
      elim (SubblockOutput_discrete r.0 output) [
        | yes same ↦ ok tt
        | no differ ↦
            (assert_dec (Bytes_discrete r.0.input_state_root output.input_state_root)
              >> assert_dec (Bytes_discrete r.0.output_state_root output.output_state_root)
              >> err ClientError.invalid_subblock_output)
      ]

    unfoldable pub validate :
        ℕ → List SubblockInput → List Bytes → List SubblockOutput → Result ClientError (Unit {0})
    unfolding validate_subblock
    validate i [] states outputs = ok tt
    validate i (input ∷ inputs) states outputs =
        validate_subblock input (get_elem? states i) (get_elem? outputs i)
        >> validate (suc i) inputs states outputs
