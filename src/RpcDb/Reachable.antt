-- ===== src/RpcDb/Reachable.antt =====
-- crates/storage/rpc-db/src/basic.rs: the databases that the calls of `BasicRpcDb` lead to, with
-- the reads that succeeded since the last `advance_subblock`, and what is taken down of them.
use pico_subblock.Prelude.{ℕ, ◌≡◌, Option, some, List, [], ◌∷◌}
use pico_subblock.State.Pruned.{Has}
use pico_subblock.RpcDb.{Bytes, AccountInfo, RpcDbState}
use pico_subblock.RpcDb.Basic.{
  RpcDbError, Provider, BasicRpcDb, BundleAccount, ok, err, new, fetch_account_info,
  fetch_storage_at, fetch_block_hash, update_state_diffs, advance_subblock,
}
use pico_subblock.RpcDb.Entries.{HasSlot}
use pico_subblock.RpcDb.Hashes.{hash_of}
use pico_subblock.RpcDb.Faithful.{IsFaithful}

-- A read of an account, of a slot, or of the hash of a block.
pub data Read : Type 0 where
  account : Bytes → Read
  storage : Bytes → ℕ → Read
  block_hash : ℕ → Read

module _ (provider : Provider) (default_info : AccountInfo) (block : ℕ) where
  -- A failed call leaves a database as well. The cache that is loaded at the start holds answers of
  -- the provider.
  pub data Reachable : BasicRpcDb → List Read → Type 0 where
    started :
        {db : BasicRpcDb} (loaded : Option RpcDbState)
        → db ≡ new block loaded
        → IsFaithful provider db.cache_data
        → Reachable db []
    account_read :
        {db after : BasicRpcDb} {log : List Read} (a : Bytes) (info : AccountInfo)
        → Reachable db log
        → fetch_account_info provider db a ≡ (ok info, after)
        → Reachable after (account a ∷ log)
    account_failed :
        {db after : BasicRpcDb} {log : List Read} (a : Bytes) (e : RpcDbError)
        → Reachable db log
        → fetch_account_info provider db a ≡ (err e, after)
        → Reachable after log
    slot_read :
        {db after : BasicRpcDb} {log : List Read} (a : Bytes) (k v : ℕ)
        → Reachable db log
        → fetch_storage_at provider db a k ≡ (ok v, after)
        → Reachable after (storage a k ∷ log)
    slot_failed :
        {db after : BasicRpcDb} {log : List Read} (a : Bytes) (k : ℕ) (e : RpcDbError)
        → Reachable db log
        → fetch_storage_at provider db a k ≡ (err e, after)
        → Reachable after log
    hash_read :
        {db after : BasicRpcDb} {log : List Read} (n : ℕ) (h : Bytes)
        → Reachable db log
        → fetch_block_hash provider db n ≡ (ok h, after)
        → Reachable after (block_hash n ∷ log)
    hash_failed :
        {db after : BasicRpcDb} {log : List Read} (n : ℕ) (e : RpcDbError)
        → Reachable db log
        → fetch_block_hash provider db n ≡ (err e, after)
        → Reachable after log
    updated :
        {db after : BasicRpcDb} {log : List Read} (state_diffs : List (Bytes × BundleAccount))
        → Reachable db log
        → after ≡ update_state_diffs default_info db state_diffs
        → Reachable after log
    advanced :
        {db after : BasicRpcDb} {log : List Read}
        → Reachable db log
        → after ≡ advance_subblock db
        → Reachable after []

-- What is taken down of a read.
abbrev pub TakenDown : BasicRpcDb → Read → Type 0
TakenDown db (account a) = Has db.subblock_data.accounts a
TakenDown db (storage a k) = HasSlot db.subblock_data a k
TakenDown db (block_hash n) = (h : Bytes) × (hash_of db.block_hashes n ≡ some h)

abbrev pub AllTakenDown : BasicRpcDb → List Read → Type 0
AllTakenDown db [] = Unit
AllTakenDown db (r ∷ log) = TakenDown db r × AllTakenDown db log

pub keep-AllTakenDown :
    (db after : BasicRpcDb) (log : List Read)
    → ((r : Read) → TakenDown db r → TakenDown after r)
    → AllTakenDown db log
    → AllTakenDown after log
keep-AllTakenDown db after [] keep t = tt
keep-AllTakenDown db after (r ∷ log) keep t = (keep r t.0, keep-AllTakenDown db after log keep t.1)
