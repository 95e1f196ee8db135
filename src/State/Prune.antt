-- ===== src/State/Prune.antt =====
-- crates/mpt/src/lib.rs: `EthereumState::prune` and `get_touched_nodes`. A `HashSet` of references
-- is the list of its elements, some of them repeated.
use native.Mathlib.Decide.{ℕ_discrete}
use mathlib.Core.List.{List, [], ◌∷◌, ◌++◌}
use pico_subblock.Prelude.{ℕ, Bool, true, false, Option, none, some, ltb, ◌==◌, if◌then◌else◌}
use pico_subblock.Result.{Result, ok, ◌>>=◌, ◌>>◌, assert_dec, unwrap, unwrap_ok}
use pico_subblock.Mpt.{B256, Error, MptNode, MptNodeReference}
use pico_subblock.Mpt.Hash.{External, hash}
use pico_subblock.Mpt.Touched.{get_with_touched, prune_unmarked_nodes}
use pico_subblock.Mpt.Touched.Delete.{delete_with_touched}
use pico_subblock.State.{
  EthereumState, Account, HashedStorage, HashedPostState, lookup, set_entry, storage_of, after_hash,
}

unfoldable pub B256_discrete : Discrete B256
B256_discrete = hlevel (ℕ_discrete)

abbrev pub Refs : Type 0
Refs = List MptNodeReference

abbrev pub StorageRefs : Type 0
StorageRefs = List (B256 × Refs)

-- `a <= b` for slices of bytes
unfoldable pub leb_bytes : B256 → B256 → Bool
leb_bytes [] b = true
leb_bytes (x ∷ a) [] = false
leb_bytes (x ∷ a) (y ∷ b) = let rest = leb_bytes a b in if x == y then rest else ltb x y

-- `sorted_by(|a, b| a.0.cmp(b.0))`
unfoldable pub insert_sorted {ℓ} : {A : Type ℓ} → B256 × A → List (B256 × A) → List (B256 × A)
unfolding leb_bytes
insert_sorted e [] = e ∷ []
insert_sorted e (f ∷ entries) =
    let rest = insert_sorted e entries in if leb_bytes e.0 f.0 then e ∷ f ∷ entries else f ∷ rest

unfoldable pub sorted {ℓ} : {A : Type ℓ} → List (B256 × A) → List (B256 × A)
unfolding insert_sorted
sorted [] = []
sorted (e ∷ entries) = insert_sorted e (sorted entries)

-- `entry(address).or_default()` of a set of references, read
unfoldable pub refs_of : StorageRefs → B256 → Refs
unfolding lookup
refs_of storage_refs address = elim (lookup storage_refs address) [ some refs ↦ refs | none ↦ [] ]

-- The clone of the state that the walk changes, and the references gathered so far.
pub record Walk : Type 0 where
  pub state : EthereumState
  pub account_refs : Refs
  pub storage_refs : StorageRefs

module _ (ext : External) where
  -- A slot of the post state: a zero is deleted, another value is read.
  unfoldable pub touch_slot : MptNode × Refs → B256 × ℕ → Result Error (MptNode × Refs)
  touch_slot (trie, refs) (key, value) =
      if value == 0
      then (do r ← unwrap_ok (delete_with_touched ext trie key); ok (r.0.1, refs ++ r.1))
      else (do r ← unwrap_ok (get_with_touched ext trie key); ok (trie, refs ++ r.1))

  unfoldable pub touch_slots : MptNode × Refs → List (B256 × ℕ) → Result Error (MptNode × Refs)
  unfolding touch_slot
  touch_slots t [] = ok t
  touch_slots t (slot ∷ slots) = do t' ← touch_slot t slot; touch_slots t' slots

  -- The read of an account in the state trie.
  unfoldable pub read_account : Walk → B256 → Result Error Walk
  read_account w address = do
    r ← unwrap_ok (get_with_touched ext w.state.state_trie address)
    ok (record w { account_refs = w.account_refs ++ r.1 })

  -- An account of the post state. Where it has no storage trie nothing is marked.
  unfoldable pub touch_account :
      List (B256 × HashedStorage) → Walk → B256 × Option Account → Result Error Walk
  unfolding lookup refs_of storage_of set_entry touch_slots read_account
  touch_account storages w (address, some account) = elim (lookup w.state.storage_tries address) [
    | none ↦ ok w
    | some trie ↦ do
      t ← touch_slots (trie, refs_of w.storage_refs address) (storage_of storages address).storage
      read_account
          (record {
            state = record {
              state_trie = w.state.state_trie;
              storage_tries = set_entry w.state.storage_tries address t.0;
            };
            account_refs = w.account_refs;
            storage_refs = set_entry w.storage_refs address t.1;
          })
          address
  ]
  touch_account storages w (address, none) = do
    r ← unwrap_ok (delete_with_touched ext w.state.state_trie address)
    ok (record {
      state = record { state_trie = r.0.1; storage_tries = w.state.storage_tries };
      account_refs = w.account_refs ++ r.1;
      storage_refs = w.storage_refs;
    })

  unfoldable pub touch_accounts :
      List (B256 × HashedStorage) → Walk → List (B256 × Option Account) → Result Error Walk
  unfolding touch_account
  touch_accounts storages w [] = ok w
  touch_accounts storages w (entry ∷ entries) = do
    w' ← touch_account storages w entry
    touch_accounts storages w' entries

  -- The keys of an account that were read.
  unfoldable pub touch_keys : MptNode → B256 → StorageRefs → List B256 → Result Error StorageRefs
  unfolding refs_of set_entry
  touch_keys trie address storage_refs [] = ok storage_refs
  touch_keys trie address storage_refs (key ∷ keys) = do
    r ← unwrap_ok (get_with_touched ext trie key)
    touch_keys trie address (set_entry storage_refs address (refs_of storage_refs address ++ r.1))
        keys

  unfoldable pub touch_read : Walk → B256 × List B256 → Result Error Walk
  unfolding lookup touch_keys read_account
  touch_read w (address, keys) = elim (lookup w.state.storage_tries address) [
    | some trie ↦ do
      storage_refs ← touch_keys trie address w.storage_refs keys
      read_account (record w { storage_refs = storage_refs }) address
    | none ↦ read_account w address
  ]

  unfoldable pub touch_reads : Walk → List (B256 × List B256) → Result Error Walk
  unfolding touch_read
  touch_reads w [] = ok w
  touch_reads w (entry ∷ entries) = do w' ← touch_read w entry; touch_reads w' entries

  unfoldable pub get_touched_nodes :
      EthereumState → HashedPostState → List (B256 × List B256) → Result Error Walk
  unfolding sorted touch_accounts touch_reads
  get_touched_nodes state post_state touched_state = do
    w ←
        touch_accounts post_state.storages
          (record { state = state; account_refs = []; storage_refs = [] })
          (sorted post_state.accounts)
    touch_reads w touched_state

  -- A trie pruned, with its hash taken before and after.
  unfoldable pub prune_trie : MptNode → Refs → Result Error MptNode
  unfolding after_hash
  prune_trie trie refs =
      let pruned = prune_unmarked_nodes ext (after_hash ext trie) refs in
      assert_dec (B256_discrete (hash ext trie) (hash ext pruned)) >> ok (after_hash ext pruned)

  unfoldable pub prune_storage :
      List (B256 × MptNode) → StorageRefs → Result Error (List (B256 × MptNode))
  unfolding lookup set_entry prune_trie
  prune_storage tries [] = ok tries
  prune_storage tries ((address, refs) ∷ storage_refs) = do
    trie ← unwrap (lookup tries address)
    pruned ← prune_trie trie refs
    prune_storage (set_entry tries address pruned) storage_refs

  unfoldable pub prune :
      EthereumState → HashedPostState → List (B256 × List B256) → Result Error EthereumState
  unfolding get_touched_nodes prune_storage prune_trie
  prune state state_diff touched_state = do
    w ← get_touched_nodes state state_diff touched_state
    state_trie ← prune_trie state.state_trie w.account_refs
    storage_tries ← prune_storage state.storage_tries w.storage_refs
    ok (record { state_trie = state_trie; storage_tries = storage_tries })
