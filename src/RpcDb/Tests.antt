-- ===== src/RpcDb/Tests.antt =====
-- crates/storage/rpc-db: a database of block 10, two reads, a block hash, a failed read, an update,
-- and the next subblock.
use pico_subblock.Prelude.{◌≡◌, refl, none, some, List, [], ◌∷◌, beq, if◌then◌else◌}
use pico_subblock.State.{lookup}
use pico_subblock.RpcDb.{Bytes, AccountInfo, slots_of, lookup_slot, state_requests, bytecodes}
use pico_subblock.RpcDb.Basic.{
  Provider, BasicRpcDb, BundleAccount, ok, err, get_proof_error, new, fetch_account_info,
  fetch_storage_at, fetch_block_hash, update_state_diffs, advance_subblock,
}
use pico_subblock.RpcDb.Faithful.{IsFaithful}
use pico_subblock.RpcDb.Reachable.{
  Read, account, storage, block_hash, Reachable, started, account_read, slot_read, hash_read,
}
use pico_subblock.RpcDb.Complete.{IsComplete, Reachable-IsComplete}
use pico_subblock.RpcDb.Changed.{AreDistinctChanges, AreChanged, update_state_diffs-AreChanged}

abbrev provider : Provider
provider = record {
  get_proof = λ a.
      if beq a (9 ∷ []) then none else some (record { nonce = 1; balance = 2; code_hash = 5 ∷ [] });
  get_code_at = λ a. some (96 ∷ a);
  get_storage_at = λ a k. some k;
  get_block_hash = λ n. some (some (n ∷ []));
}

abbrev default_info : AccountInfo
default_info = record { nonce = 0; balance = 0; code_hash = []; code = none }

abbrev info : AccountInfo
info = record { nonce = 1; balance = 2; code_hash = 5 ∷ []; code = some (96 ∷ 1 ∷ []) }

abbrev changed : AccountInfo
changed = record { nonce = 4; balance = 2; code_hash = 5 ∷ []; code = none }

abbrev diffs : List (Bytes × BundleAccount)
diffs =
    (1 ∷ [], record { info = some changed; storage = (7, 70) ∷ [] })
    ∷ (2 ∷ [], record { info = none; storage = [] })
    ∷ []

abbrev at_start : BasicRpcDb
at_start = new 10 none

abbrev with_account : BasicRpcDb
with_account = (fetch_account_info provider at_start (1 ∷ [])).1

abbrev with_slot : BasicRpcDb
with_slot = (fetch_storage_at provider with_account (1 ∷ []) 7).1

abbrev with_hash : BasicRpcDb
with_hash = (fetch_block_hash provider with_slot 8).1

abbrev at_second : BasicRpcDb
at_second = advance_subblock (update_state_diffs default_info with_hash diffs)

abbrev log : List Read
log = block_hash 8 ∷ storage (1 ∷ []) 7 ∷ account (1 ∷ []) ∷ []

empty-IsFaithful : IsFaithful provider at_start.cache_data
unfolding new lookup slots_of lookup_slot
empty-IsFaithful = record {
  accounts = λ a i e. absurd (cc (e));
  slots = λ a k v e. absurd (cc (e));
}

failed_read :
    fetch_account_info provider with_hash (9 ∷ []) ≡ (err (get_proof_error (9 ∷ [])), with_hash)
unfolding fetch_account_info fetch_block_hash fetch_storage_at new beq
failed_read = refl

requests : state_requests with_hash.subblock_data ≡ (1 ∷ [], 7 ∷ []) ∷ (1 ∷ [], 7 ∷ []) ∷ []
unfolding state_requests fetch_block_hash fetch_storage_at fetch_account_info new beq
requests = refl

codes : bytecodes (λ c. c) with_hash.subblock_data ≡ (96 ∷ 1 ∷ []) ∷ []
unfolding bytecodes fetch_block_hash fetch_storage_at fetch_account_info new beq
codes = refl

oldest : with_hash.oldest_ancestor ≡ 8
unfolding fetch_block_hash fetch_storage_at fetch_account_info new beq
oldest = refl

changed_account : (fetch_account_info provider at_second (1 ∷ [])).0 ≡ ok changed
unfolding fetch_account_info advance_subblock update_state_diffs fetch_block_hash fetch_storage_at
    new beq
changed_account = refl

changed_slot : (fetch_storage_at provider at_second (1 ∷ []) 7).0 ≡ ok 70
unfolding fetch_storage_at advance_subblock update_state_diffs fetch_block_hash fetch_account_info
    new beq
changed_slot = refl

destroyed_account : (fetch_account_info provider at_second (2 ∷ [])).0 ≡ ok default_info
unfolding fetch_account_info advance_subblock update_state_diffs fetch_block_hash fetch_storage_at
    new beq
destroyed_account = refl

no_requests : state_requests at_second.subblock_data ≡ []
unfolding state_requests advance_subblock
no_requests = refl

account_step : fetch_account_info provider at_start (1 ∷ []) ≡ (ok info, with_account)
unfolding fetch_account_info new beq
account_step = refl

slot_step : fetch_storage_at provider with_account (1 ∷ []) 7 ≡ (ok 7, with_slot)
unfolding fetch_storage_at fetch_account_info new beq
slot_step = refl

hash_step : fetch_block_hash provider with_slot 8 ≡ (ok (8 ∷ []), with_hash)
unfolding fetch_block_hash
hash_step = refl

reached : Reachable provider default_info 10 with_hash log
reached =
    hash_read {db = with_slot} 8 (8 ∷ [])
      (slot_read {db = with_account} (1 ∷ []) 7 7
        (account_read {db = at_start} (1 ∷ []) info (started none refl empty-IsFaithful)
          account_step)
        slot_step)
      hash_step

Reachable-IsComplete_example : IsComplete provider default_info 10 with_hash log
Reachable-IsComplete_example = Reachable-IsComplete provider default_info 10 with_hash log reached

diffs-AreDistinctChanges : AreDistinctChanges diffs
unfolding lookup lookup_slot beq
diffs-AreDistinctChanges = (refl, (refl, tt), (refl, tt, tt))

update_state_diffs-AreChanged_example :
    AreChanged default_info provider diffs at_start (update_state_diffs default_info at_start diffs)
update_state_diffs-AreChanged_example =
    update_state_diffs-AreChanged default_info provider at_start diffs empty-IsFaithful
      diffs-AreDistinctChanges
