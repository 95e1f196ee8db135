-- ===== src/RpcDb/Basic.antt =====
-- crates/storage/rpc-db/src/basic.rs: `BasicRpcDb`, which reads through two stores of what it knows
-- to an RPC provider. A call returns its result and the database it leaves.
use pico_subblock.Prelude.{ℕ, Option, none, some, List, [], ◌∷◌, min}
use pico_subblock.State.{lookup}
use pico_subblock.RpcDb.{
  Bytes, AccountInfo, RpcDbState, empty_state, lookup_slot, slots_of, put_account, put_slot, clear,
}

-- Without the messages and what they wrap.
pub data RpcDbError : Type 0 where
  transport : RpcDbError
  get_proof_error : Bytes → RpcDbError
  get_code_error : Bytes → RpcDbError
  get_storage_error : Bytes → ℕ → RpcDbError
  get_block_error : ℕ → RpcDbError
  block_not_found : ℕ → RpcDbError
  preimage_not_found : RpcDbError
  other : RpcDbError

pub record Proof : Type 0 where
  pub nonce : ℕ
  pub balance : ℕ
  pub code_hash : Bytes

-- The provider, for the block of the database: an answer is a function of the question, and `none`
-- a failed request. A block that is not found is `some none`.
pub record Provider : Type 0 where
  pub get_proof : Bytes → Option Proof
  pub get_code_at : Bytes → Option Bytes
  pub get_storage_at : Bytes → ℕ → Option ℕ
  pub get_block_hash : ℕ → Option (Option Bytes)

pub record BasicRpcDb : Type 0 where
  pub block_hashes : List (ℕ × Bytes)
  pub subblock_data : RpcDbState
  pub persistent_data : RpcDbState
  pub cache_data : RpcDbState
  pub oldest_ancestor : ℕ

pub data Fetched {ℓ} (A : Type ℓ) : Type ℓ where
  ok : A → Fetched A
  err : RpcDbError → Fetched A

-- `BasicRpcDb::new`, with the cache that is loaded from a file, if there is one.
unfoldable pub new : ℕ → Option RpcDbState → BasicRpcDb
new block loaded = record {
  block_hashes = [];
  subblock_data = empty_state;
  persistent_data = empty_state;
  cache_data = elim loaded [ some cache ↦ cache | none ↦ empty_state ];
  oldest_ancestor = block;
}

-- What was read, taken down for the subblock, and in the cache if it came from the provider.
abbrev pub with_subblock : BasicRpcDb → RpcDbState → BasicRpcDb
with_subblock db data' = record db { subblock_data = data' }

abbrev pub with_both : BasicRpcDb → RpcDbState → RpcDbState → BasicRpcDb
with_both db data' cache = record db { subblock_data = data'; cache_data = cache }

module _ (provider : Provider) where
  open provider use {get_proof, get_code_at, get_storage_at, get_block_hash}

  -- The account as the provider has it.
  unfoldable pub ask_account : Bytes → Fetched AccountInfo
  ask_account address = elim (get_proof address) [
    | none ↦ err (get_proof_error address)
    | some proof ↦ elim (get_code_at address) [
      | none ↦ err (get_code_error address)
      | some code ↦ ok (record {
        nonce = proof.nonce;
        balance = proof.balance;
        code_hash = proof.code_hash;
        code = some code;
      })
    ]
  ]

  unfoldable pub fetch_account_info : BasicRpcDb → Bytes → Fetched AccountInfo × BasicRpcDb
  unfolding lookup put_account ask_account
  fetch_account_info db address = elim (lookup db.persistent_data.accounts address) [
    | some info ↦ (ok info, with_subblock db (put_account db.subblock_data address info))
    | none ↦ elim (lookup db.cache_data.accounts address) [
      | some info ↦ (ok info, with_subblock db (put_account db.subblock_data address info))
      | none ↦ elim (ask_account address) [
        | err e ↦ (err e, db)
        | ok info ↦ (
          ok info,
          with_both db (put_account db.subblock_data address info)
              (put_account db.cache_data address info),
        )
      ]
    ]
  ]

  unfoldable pub fetch_storage_at : BasicRpcDb → Bytes → ℕ → Fetched ℕ × BasicRpcDb
  unfolding slots_of lookup_slot put_slot
  fetch_storage_at db address index =
      elim (lookup_slot (slots_of db.persistent_data.storage address) index) [
        | some value ↦ (ok value, with_subblock db (put_slot db.subblock_data address index value))
        | none ↦ elim (lookup_slot (slots_of db.cache_data.storage address) index) [
          | some value ↦
              (ok value, with_subblock db (put_slot db.subblock_data address index value))
          | none ↦ elim (get_storage_at address index) [
            | none ↦ (err (get_storage_error address index), db)
            | some value ↦ (
              ok value,
              with_both db (put_slot db.subblock_data address index value)
                  (put_slot db.cache_data address index value),
            )
          ]
        ]
      ]

  unfoldable pub fetch_block_hash : BasicRpcDb → ℕ → Fetched Bytes × BasicRpcDb
  fetch_block_hash db number = elim (get_block_hash number) [
    | none ↦ (err (get_block_error number), db)
    | some none ↦ (err (block_not_found number), db)
    | some (some hash) ↦ (
      ok hash,
      record db {
        oldest_ancestor = min number db.oldest_ancestor;
        block_hashes = (number, hash) ∷ db.block_hashes;
      },
    )
  ]

-- A changed account of a `BundleState`: its info, none if it is destroyed, and its changed slots
-- with their present values.
pub record BundleAccount : Type 0 where
  pub info : Option AccountInfo
  pub storage : List (ℕ × ℕ)

unfoldable pub put_slots : RpcDbState → Bytes → List (ℕ × ℕ) → RpcDbState
unfolding put_slot
put_slots state address [] = state
put_slots state address ((k, v) ∷ slots) = put_slots (put_slot state address k v) address slots

module _ (default_info : AccountInfo) where
  -- `AccountInfo::default()` for a destroyed account
  abbrev pub info_or_default : Option AccountInfo → AccountInfo
  info_or_default none = default_info
  info_or_default (some info) = info

  unfoldable pub put_changes : RpcDbState → List (Bytes × BundleAccount) → RpcDbState
  unfolding put_account put_slots
  put_changes state [] = state
  put_changes state ((address, account) ∷ accounts) =
      put_changes
        (put_slots (put_account state address (info_or_default account.info)) address
          account.storage)
        accounts

  unfoldable pub update_state_diffs : BasicRpcDb → List (Bytes × BundleAccount) → BasicRpcDb
  unfolding put_changes
  update_state_diffs db state_diffs = record db {
    persistent_data = put_changes db.persistent_data state_diffs;
  }

unfoldable pub advance_subblock : BasicRpcDb → BasicRpcDb
unfolding clear
advance_subblock db = record db { subblock_data = clear db.subblock_data }
