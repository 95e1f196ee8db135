-- ===== src/RpcDb/Witness.antt =====
-- crates/storage/rpc-db/src/execution_witness.rs: `ExecutionWitnessRpcDb`, which reads from the
-- tries of an execution witness. A failed read has written nothing, so an error carries no
-- database.
pub mod Requests
mod Tests
use pico_subblock.Prelude.{ℕ, ◌==◌, if◌then◌else◌, Option, none, some, List, [], ◌∷◌}
use pico_subblock.Result.{Result, ok, err, panic, ◌>>=◌, unwrap, unwrap_ok}
use pico_subblock.Mpt.{Error, MptNode}
use pico_subblock.Mpt.Get.{get}
use pico_subblock.State.{EthereumState, TrieAccount, lookup}
use pico_subblock.Client.Block.{Header}
use pico_subblock.RpcDb.{
  Bytes, AccountInfo, RpcDbState, empty_state, lookup_slot, slots_of, put_account, put_slot, clear,
}
use pico_subblock.RpcDb.Basic.{BundleAccount, put_changes}

pub record ExecutionWitnessState : Type 0 where
  pub state : EthereumState
  pub codes : List (Bytes × Bytes)
  pub ancestor_headers : List (ℕ × Header)

pub record ExecutionWitnessRpcDb : Type 0 where
  pub full_state : ExecutionWitnessState
  pub subblock_state : RpcDbState
  pub persistent_state : RpcDbState

-- The errors of revm's `ProviderError` that occur.
pub data ProviderError : Type 0 where
  trie_witness_error : ProviderError
  rlp : ProviderError

-- What is called: Keccak, the bytes of a slot, the decoders, the hash of a header, the provider's
-- codes, and `AccountInfo::default()` with the code hash zero.
pub record Calls : Type 0 where
  pub keccak : Bytes → Bytes
  pub slot_bytes : ℕ → Bytes
  pub decode_account : Bytes → Option TrieAccount
  pub decode_word : Bytes → Option ℕ
  pub hash_slow : Header → Bytes
  pub get_code_at : Bytes → Option Bytes
  pub absent : AccountInfo

-- `map_err` of a read of the state trie
abbrev pub or_witness_error {ℓ} : {A : Type ℓ} → Result Error A → Result ProviderError A
or_witness_error (ok a) = ok a
or_witness_error (err e) = err trie_witness_error
or_witness_error panic = panic

-- `decode(..)?`
abbrev pub or_rlp {ℓ} : {A : Type ℓ} → Option A → Result ProviderError A
or_rlp none = err rlp
or_rlp (some a) = ok a

-- `ancestor_headers.get(&number)`
unfoldable pub header_at : List (ℕ × Header) → ℕ → Option Header
header_at [] number = none
header_at ((n, h) ∷ headers) number =
    let rest = header_at headers number in if n == number then some h else rest

abbrev pub with_read : ExecutionWitnessRpcDb → RpcDbState → ExecutionWitnessRpcDb
with_read db state = record db { subblock_state = state }

module _ (calls : Calls) where
  open calls use {keccak, slot_bytes, decode_account, decode_word, hash_slow, get_code_at, absent}

  unfoldable pub code_by_hash_ref : ExecutionWitnessRpcDb → Bytes → Result ProviderError Bytes
  unfolding lookup
  code_by_hash_ref db code_hash = elim (lookup db.full_state.codes code_hash) [
    | none ↦ err trie_witness_error
    | some code ↦ ok code
  ]

  -- A code that is missing is asked of the provider, whose failure panics.
  unfoldable pub code_of : ExecutionWitnessRpcDb → Bytes → Bytes → Result ProviderError Bytes
  unfolding code_by_hash_ref
  code_of db address code_hash = elim (code_by_hash_ref db code_hash) [
    | ok code ↦ ok code
    | err e ↦ unwrap (get_code_at address)
    | panic ↦ panic
  ]

  -- The account in the state trie.
  unfoldable pub trie_account : ExecutionWitnessRpcDb → Bytes → Result ProviderError AccountInfo
  unfolding get code_of
  trie_account db address = do
    value ← or_witness_error (get db.full_state.state.state_trie (keccak address))
    elim value [
      | none ↦ ok absent
      | some bytes ↦ do
        account ← or_rlp (decode_account bytes)
        code ← code_of db address account.code_hash
        ok (record {
          nonce = account.nonce;
          balance = account.balance;
          code_hash = account.code_hash;
          code = some code;
        })
    ]

  -- What `basic_ref` answers: a changed account, or that of the trie.
  unfoldable pub account_of : ExecutionWitnessRpcDb → Bytes → Result ProviderError AccountInfo
  unfolding trie_account lookup
  account_of db address = elim (lookup db.persistent_state.accounts address) [
    | some info ↦ ok info
    | none ↦ trie_account db address
  ]

  unfoldable pub basic_ref :
      ExecutionWitnessRpcDb → Bytes → Result ProviderError (AccountInfo × ExecutionWitnessRpcDb)
  unfolding account_of put_account
  basic_ref db address = do
    info ← account_of db address
    ok (info, with_read db (put_account db.subblock_state address info))

  -- The slot in the storage trie of its account, zero if either is missing.
  unfoldable pub trie_slot : ExecutionWitnessRpcDb → Bytes → ℕ → Result ProviderError ℕ
  unfolding get lookup
  trie_slot db address index = elim (lookup db.full_state.state.storage_tries (keccak address)) [
    | none ↦ ok 0
    | some trie ↦ do
      value ← unwrap_ok {E' = ProviderError} (get trie (keccak (slot_bytes index)))
      elim value [ none ↦ ok 0 | some bytes ↦ or_rlp (decode_word bytes) ]
  ]

  unfoldable pub slot_value : ExecutionWitnessRpcDb → Bytes → ℕ → Result ProviderError ℕ
  unfolding trie_slot slots_of lookup_slot
  slot_value db address index =
      elim (lookup_slot (slots_of db.persistent_state.storage address) index) [
        | some value ↦ ok value
        | none ↦ trie_slot db address index
      ]

  unfoldable pub storage_ref :
      ExecutionWitnessRpcDb → Bytes → ℕ → Result ProviderError (ℕ × ExecutionWitnessRpcDb)
  unfolding slot_value put_slot
  storage_ref db address index = do
    value ← slot_value db address index
    ok (value, with_read db (put_slot db.subblock_state address index value))

  unfoldable pub block_hash_ref : ExecutionWitnessRpcDb → ℕ → Result ProviderError Bytes
  unfolding header_at
  block_hash_ref db number = elim (header_at db.full_state.ancestor_headers number) [
    | none ↦ err trie_witness_error
    | some header ↦ ok (hash_slow header)
  ]

module _ (default_info : AccountInfo) where
  unfoldable pub update_state_diffs :
      ExecutionWitnessRpcDb → List (Bytes × BundleAccount) → ExecutionWitnessRpcDb
  unfolding put_changes
  update_state_diffs db state_diffs = record db {
    persistent_state = put_changes default_info db.persistent_state state_diffs;
  }

unfoldable pub advance_subblock : ExecutionWitnessRpcDb → ExecutionWitnessRpcDb
unfolding clear
advance_subblock db = record db { subblock_state = clear db.subblock_state }
