-- ===== src/State/ExecutionWitness.antt =====
-- crates/mpt/src/execution_witness.rs: the tries of a state from the nodes of an execution witness.
-- The hash maps are lists of entries, of which the first with a key counts.
pub mod Validated
mod Tests
use pico_subblock.Prelude.{
  ℕ, suc, Bool, true, false, not, Option, none, some, List, [], ◌∷◌, ◌==◌, length,
}
use pico_subblock.Result.{
  Result, ok, err, panic, ◌>>=◌, ◌>>◌, assert, assert_dec, unwrap, unwrap_ok,
}
use pico_subblock.Mpt.{B256, MptNode, MptNodeData, from_data, is_digest}
use pico_subblock.Mpt.Hash.{External, hash}
use pico_subblock.Mpt.Decode.{Rlp, decode}
use pico_subblock.Mpt.Leaves.{Nibbles, count, for_each_leaves}
use pico_subblock.Mpt.Resolve.{Store, resolve_nodes}
use pico_subblock.State.{EthereumState, TrieAccount, lookup, set_entry, get_rlp, after_hash}
use pico_subblock.State.Prune.{B256_discrete}
use pico_subblock.State.Proofs.{insert_nodes}

-- The messages of `validate_storage_tries`.
pub data WitnessError : Type 0 where
  account_decoding : WitnessError
  account_not_found : WitnessError
  mismatched_root : B256 → B256 → B256 → WitnessError

-- The nodes of the witness by reference and by hash, and the root node.
pub record NodeMaps : Type 0 where
  pub node_map : Store
  pub node_by_hash : List (B256 × MptNode)
  pub root_node : Option MptNode

abbrev pub no_nodes : NodeMaps
no_nodes = record { node_map = []; node_by_hash = []; root_node = none }

-- `if hash == pre_state_root { root_node = Some(node.clone()); }`
abbrev pub choose_root : B256 → B256 → MptNode → Option MptNode → Option MptNode
choose_root pre_state_root h n root_node = elim (B256_discrete h pre_state_root) [
  | yes same ↦ some n
  | no differ ↦ root_node
]

-- `root_node.unwrap_or_else(|| MptNodeData::Digest(pre_state_root).into())`
abbrev pub root_or_digest : B256 → Option MptNode → MptNode
root_or_digest pre_state_root none = from_data (MptNodeData.digest pre_state_root)
root_or_digest pre_state_root (some n) = n

-- An account that is there, or the error of a message.
abbrev pub found_account : Option TrieAccount → Result WitnessError TrieAccount
found_account none = err account_not_found
found_account (some account) = ok account

-- `map_err` of `get_rlp`, whatever its error is
abbrev pub or_message {ℓ κ} : {E : Type ℓ} {A : Type κ} → Result E A → Result WitnessError A
or_message (ok a) = ok a
or_message (err e) = err account_decoding
or_message panic = panic

-- `if storage_root != actual_hash { return Err(..); }`
abbrev pub check_root : B256 → B256 → B256 → Result WitnessError (Unit {0})
check_root hashed_address storage_root actual_hash = elim (B256_discrete storage_root actual_hash) [
  | yes same ↦ ok tt
  | no differ ↦ err (mismatched_root hashed_address storage_root actual_hash)
]

module _ (ext : External) (parser : Rlp) (nibbles : Nibbles)
    (decode_account : List ℕ → Option TrieAccount) where
  -- The loop over the encoded nodes.
  unfoldable pub index_nodes : B256 → List (List ℕ) → NodeMaps → Result WitnessError NodeMaps
  unfolding insert_nodes set_entry
  index_nodes pre_state_root [] maps = ok maps
  index_nodes pre_state_root (encoded ∷ state) maps = do
    n ← unwrap_ok (decode parser encoded)
    index_nodes pre_state_root state (record {
      node_map = insert_nodes ext parser maps.node_map (n ∷ []);
      node_by_hash = set_entry maps.node_by_hash (ext.keccak encoded) n;
      root_node = choose_root pre_state_root (ext.keccak encoded) n maps.root_node;
    })

  -- The closure of `for_each_leaves`, over the leaves: `B256::from_slice` panics on another length.
  unfoldable pub raw_storage_tries :
      List (List ℕ × List ℕ) → Result WitnessError (List (B256 × B256))
  raw_storage_tries [] = ok []
  raw_storage_tries ((key, value) ∷ leaves) = do
    account ← unwrap (decode_account value)
    assert (length key == 32)
        >> (do rest ← raw_storage_tries leaves; ok ((key, account.storage_root) ∷ rest))

  -- The loop that builds the storage tries.
  unfoldable pub build_storage_tries :
      ℕ
      → NodeMaps
      → List (B256 × B256)
      → List (B256 × MptNode)
      → Result WitnessError (List (B256 × MptNode))
  unfolding lookup set_entry is_digest resolve_nodes
  build_storage_tries fuel maps [] storage_tries = ok storage_tries
  build_storage_tries fuel maps ((hashed_address, storage_root) ∷ raw) storage_tries =
      elim (lookup maps.node_by_hash storage_root) [
        | none ↦ build_storage_tries fuel maps raw storage_tries
        | some root_node ↦ do
          storage_trie ← unwrap (resolve_nodes maps.node_map fuel root_node)
          assert (not (is_digest storage_trie))
              >> build_storage_tries fuel maps raw
                  (set_entry storage_tries hashed_address storage_trie)
      ]

  unfoldable pub validate_state_trie : MptNode → B256 → Result WitnessError (Unit {0})
  validate_state_trie state_trie pre_state_root =
      assert_dec (B256_discrete (hash ext state_trie) pre_state_root)

  unfoldable pub validate_storage_tries :
      MptNode → List (B256 × MptNode) → Result WitnessError (Unit {0})
  unfolding get_rlp
  validate_storage_tries state_trie [] = ok tt
  validate_storage_tries state_trie ((hashed_address, storage_trie) ∷ storage_tries) = do
    read ← or_message (get_rlp decode_account state_trie hashed_address)
    account ← found_account read
    check_root hashed_address account.storage_root (hash ext storage_trie)
        >> validate_storage_tries state_trie storage_tries

  -- The caches that `hash` fills in the checks.
  unfoldable pub after_hashes : List (B256 × MptNode) → List (B256 × MptNode)
  unfolding after_hash
  after_hashes [] = []
  after_hashes ((key, trie) ∷ tries) = (key, after_hash ext trie) ∷ after_hashes tries

  -- Fuel is that of `resolve_nodes`, whose recursion overflows the stack without it; the loop of
  -- `for_each_leaves` has its own. `witness.state` is the list of encoded nodes.
  unfoldable pub build_validated_tries :
      ℕ → List (List ℕ) → B256 → Result WitnessError EthereumState
  unfolding index_nodes resolve_nodes count for_each_leaves raw_storage_tries build_storage_tries
      validate_state_trie validate_storage_tries after_hashes after_hash
  build_validated_tries fuel witness pre_state_root = do
    maps ← index_nodes pre_state_root witness no_nodes
    state_trie ←
        unwrap (resolve_nodes maps.node_map fuel (root_or_digest pre_state_root maps.root_node))
    leaves ← for_each_leaves nibbles panic (count state_trie) ((state_trie, []) ∷ [])
    raw ← raw_storage_tries leaves
    storage_tries ← build_storage_tries fuel maps raw []
    validate_state_trie state_trie pre_state_root
        >> validate_storage_tries state_trie storage_tries
        >> ok (record {
          state_trie = after_hash ext state_trie;
          storage_tries = after_hashes storage_tries;
        })

  -- `EthereumState::from_execution_witness` of lib.rs
  unfoldable pub from_execution_witness :
      ℕ → List (List ℕ) → B256 → Result WitnessError EthereumState
  unfolding build_validated_tries
  from_execution_witness fuel witness pre_state_root =
      unwrap_ok (build_validated_tries fuel witness pre_state_root)
