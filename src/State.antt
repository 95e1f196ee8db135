-- ===== src/State.antt =====
-- crates/mpt/src/lib.rs: `EthereumState`, the state trie with the storage tries, and its update by
-- a `HashedPostState`. The types of reth (`HashedPostState`, `HashedStorage`, `Account`,
-- `TrieAccount`) are records of the fields that this code names. A hash map is the list of its
-- entries in the order in which it is walked.
pub mod Filled
pub mod Slots
pub mod Accounts
pub mod Update
pub mod Prune
pub mod Pruned
pub mod Roots
pub mod Proofs
pub mod ExecutionWitness
mod Tests
use pico_subblock.Prelude.{
  ℕ, Bool, true, false, Option, none, some, List, [], ◌∷◌, beq, ◌==◌, if◌then◌else◌,
}
use pico_subblock.Result.{Result, ok, err, panic, ◌>>=◌, unwrap_ok}
use pico_subblock.Path.{to_nibs}
use pico_subblock.Mpt.{B256, Error, MptNode, node, null, branch, leaf, extension, clear, default}
use pico_subblock.Mpt.{MptNodeData}
use pico_subblock.Mpt.Get.{get}
use pico_subblock.Mpt.Insert.{insert_internal}
use pico_subblock.Mpt.Delete.{delete}
use pico_subblock.Mpt.Hash.{External, hash, fill}

-- The storage tries are a map from hashed addresses.
pub record EthereumState : Type 0 where
  pub state_trie : MptNode
  pub storage_tries : List (B256 × MptNode)

pub record TrieAccount : Type 0 where
  pub nonce : ℕ
  pub balance : ℕ
  pub storage_root : B256
  pub code_hash : B256

-- reth's `Account`; `bytecode_hash` is what `get_bytecode_hash` answers.
pub record Account : Type 0 where
  pub nonce : ℕ
  pub balance : ℕ
  pub bytecode_hash : B256

pub record HashedStorage : Type 0 where
  pub wiped : Bool
  pub storage : List (B256 × ℕ)

pub record HashedPostState : Type 0 where
  pub accounts : List (B256 × Option Account)
  pub storages : List (B256 × HashedStorage)

-- The RLP encodings of accounts and of words, of alloy_rlp.
pub record Encoders : Type 0 where
  pub encode_account : TrieAccount → List ℕ
  pub encode_word : ℕ → List ℕ

-- A lookup in a map, given as the list of its entries.
unfoldable pub lookup {ℓ} : {A : Type ℓ} → List (B256 × A) → B256 → Option A
lookup [] key = none
lookup ((k, a) ∷ entries) key = let rest = lookup entries key in if beq k key then some a else rest

-- A write in a map: it replaces the entry of the key, or adds one.
unfoldable pub set_entry {ℓ} : {A : Type ℓ} → List (B256 × A) → B256 → A → List (B256 × A)
set_entry [] key a = (key, a) ∷ []
set_entry ((k, b) ∷ entries) key a =
    let rest = set_entry entries key a in if beq k key then (key, a) ∷ entries else (k, b) ∷ rest

-- `get_rlp` of crates/mpt/src/mpt.rs
unfoldable pub get_rlp {ℓ} :
    {A : Type ℓ} → (List ℕ → Option A) → MptNode → List ℕ → Result Error (Option A)
get_rlp decode n key = do
  value ← get n key
  elim value [
    | none ↦ ok none
    | some b ↦ elim (decode b) [ some a ↦ ok (some a) | none ↦ err Error.rlp ]
  ]

-- `insert_rlp` of crates/mpt/src/mpt.rs, with the value encoded: unlike `insert` it does not refuse
-- an empty value.
unfoldable pub insert_rlp : MptNode → List ℕ → List ℕ → Result Error (Bool × MptNode)
insert_rlp n key value = insert_internal n (to_nibs key) value

-- `get(hashed_address).cloned().unwrap_or_else(|| HashedStorage::new(false))`
unfoldable pub storage_of : List (B256 × HashedStorage) → B256 → HashedStorage
unfolding lookup
storage_of storages address = elim (lookup storages address) [
  | some storage ↦ storage
  | none ↦ record { wiped = false; storage = [] }
]

-- `entry(..).or_default()`
unfoldable pub trie_of : List (B256 × MptNode) → B256 → MptNode
unfolding lookup
trie_of tries address = elim (lookup tries address) [ some trie ↦ trie | none ↦ default ]

unfoldable pub state_account : Account → B256 → TrieAccount
state_account account storage_root = record {
  nonce = account.nonce;
  balance = account.balance;
  storage_root = storage_root;
  code_hash = account.bytecode_hash;
}

module _ (ext : External) where
  -- The node after a call of `hash`, which fills the caches of all but an empty node.
  unfoldable pub after_hash : MptNode → MptNode
  after_hash (node null c) = node null c
  after_hash (node (branch cs) c) = fill ext (node (branch cs) c)
  after_hash (node (leaf prefix value) c) = fill ext (node (leaf prefix value) c)
  after_hash (node (extension prefix n) c) = fill ext (node (extension prefix n) c)
  after_hash (node (MptNodeData.digest d) c) = fill ext (node (MptNodeData.digest d) c)

module _ (ext : External) (enc : Encoders) where
  open enc use {encode_account, encode_word}

  -- One turn of the loop over the slots; the `unwrap`s panic on an error.
  unfoldable pub update_slot : MptNode → B256 × ℕ → Result Error MptNode
  unfolding insert_rlp
  update_slot trie (key, value) = do
    r ← unwrap_ok (if value == 0 then delete trie key else insert_rlp trie key (encode_word value))
    ok r.1

  unfoldable pub update_slots : MptNode → List (B256 × ℕ) → Result Error MptNode
  unfolding update_slot
  update_slots trie [] = ok trie
  update_slots trie (slot ∷ slots) = do trie' ← update_slot trie slot; update_slots trie' slots

  unfoldable pub update_storage : HashedStorage → MptNode → Result Error MptNode
  unfolding update_slots
  update_storage state_storage storage_trie =
      update_slots (if state_storage.wiped then clear storage_trie else storage_trie)
        state_storage.storage

  -- One turn of the loop over the accounts.
  unfoldable pub update_account :
      List (B256 × HashedStorage)
      → EthereumState
      → B256 × Option Account
      → Result Error EthereumState
  unfolding storage_of trie_of update_storage after_hash state_account insert_rlp set_entry
  update_account storages state (address, some account) = do
    storage_trie ←
        update_storage (storage_of storages address) (trie_of state.storage_tries address)
    r ← unwrap_ok (
        insert_rlp state.state_trie address
          (encode_account (state_account account (hash ext storage_trie))))
    ok (record {
      state_trie = r.1;
      storage_tries = set_entry state.storage_tries address (after_hash ext storage_trie);
    })
  update_account storages state (address, none) = do
    r ← unwrap_ok (delete state.state_trie address)
    ok (record state { state_trie = r.1 })

  unfoldable pub update_accounts :
      List (B256 × HashedStorage)
      → EthereumState
      → List (B256 × Option Account)
      → Result Error EthereumState
  unfolding update_account
  update_accounts storages state [] = ok state
  update_accounts storages state (entry ∷ entries) = do
    state' ← update_account storages state entry
    update_accounts storages state' entries

  unfoldable pub update : EthereumState → HashedPostState → Result Error EthereumState
  unfolding update_accounts
  update state post_state = update_accounts post_state.storages state post_state.accounts

unfoldable pub state_root : External → EthereumState → B256
state_root ext state = hash ext state.state_trie
