-- ===== src/RpcDb/Complete.antt =====
-- crates/storage/rpc-db/src/basic.rs: what `BasicRpcDb` holds after any calls, and what it asks for
-- of the tries.
use pico_subblock.Prelude.{ℕ, ◌≡◌, refl, sym, subst, true, Option, some, List, [], ◌∷◌, ◌≤◌, arith}
use pico_subblock.State.{lookup}
use pico_subblock.State.Pruned.{Has}
use pico_subblock.RpcDb.{Bytes, AccountInfo, RpcDbState, state_requests}
use pico_subblock.RpcDb.Basic.{
  Provider, BasicRpcDb, BundleAccount, Fetched, ok, err, new, fetch_account_info, fetch_storage_at,
  update_state_diffs, advance_subblock,
}
use pico_subblock.RpcDb.Entries.{HasSlot, slot-HasSlot, includes, account-requested, slot-requested}
use pico_subblock.RpcDb.Faithful.{IsFaithful, expected_account, expected_slot}
use pico_subblock.RpcDb.Recorded.{
  Recorded, AccountRead, SlotRead, fetch_account_info-AccountRead, fetch_storage_at-SlotRead,
}
use pico_subblock.RpcDb.Hashes.{hash_of, AreHashes, HashRead, fetch_block_hash-HashRead}
use pico_subblock.RpcDb.Reachable.{
  Read, account, storage, block_hash, Reachable, started, account_read, account_failed, slot_read,
  slot_failed, hash_read, hash_failed, updated, advanced, TakenDown, AllTakenDown,
  keep-AllTakenDown,
}

module _ (provider : Provider) (default_info : AccountInfo) (block : ℕ) where
  record Holds (db : BasicRpcDb) (log : List Read) : Type 0 where
    faithful : IsFaithful provider db.cache_data
    hashes : AreHashes provider db
    oldest : db.oldest_ancestor ≤ block
    taken_down : AllTakenDown db log

  -- A fetch of an account or a slot keeps what holds.
  recorded-Holds :
      (db after : BasicRpcDb) (log : List Read)
      → Recorded provider db after
      → Holds db log
      → Holds after log
  recorded-Holds db after log r h = record {
    faithful = r.faithful h.faithful;
    hashes = record {
      given = λ n g e. h.hashes.given n g (subst (λ x. hash_of x n ≡ some g) r.block_hashes e);
      oldest = λ n g e.
          subst (λ x. x ≤ n) (sym r.oldest_ancestor)
            (h.hashes.oldest n g (subst (λ x. hash_of x n ≡ some g) r.block_hashes e));
    };
    oldest = subst (λ x. x ≤ block) (sym r.oldest_ancestor) h.oldest;
    taken_down = keep-AllTakenDown db after log keep h.taken_down;
  }
    where
      keep : (r' : Read) → TakenDown db r' → TakenDown after r'
      keep (account a) t = r.accounts a t
      keep (storage a k) t = r.slots a k t
      keep (block_hash n) t = (t.0, subst (λ x. hash_of x n ≡ some t.0) (sym r.block_hashes) t.1)

  hash-Holds :
      (db after : BasicRpcDb) (log : List Read) (n : ℕ) (x : Fetched Bytes)
      → HashRead provider db n (x, after)
      → Holds db log
      → Holds after log
  hash-Holds db after log n x r h = record {
    faithful = subst (IsFaithful provider) (sym r.cache) h.faithful;
    hashes = r.hashes h.hashes;
    oldest = let le = r.older in let le' = h.oldest in ground arith;
    taken_down = keep-AllTakenDown db after log keep h.taken_down;
  }
    where
      keep : (r' : Read) → TakenDown db r' → TakenDown after r'
      keep (account a) t = subst (λ s. Has s.accounts a) (sym r.subblock) t
      keep (storage a k) t = subst (λ s. HasSlot s a k) (sym r.subblock) t
      keep (block_hash m) t = r.kept m t

  new-Holds :
      (db : BasicRpcDb) (loaded : Option RpcDbState)
      → db ≡ new block loaded
      → IsFaithful provider db.cache_data
      → Holds db []
  unfolding new hash_of
  new-Holds db loaded e f = record {
    faithful = f;
    hashes =
        subst (AreHashes provider) (sym e)
          (record { given = λ n g x. absurd (cc (x)); oldest = λ n g x. absurd (cc (x)) });
    oldest = subst (λ x. x.oldest_ancestor ≤ block) (sym e) (ground arith);
    taken_down = tt;
  }

  updated-Holds :
      (db : BasicRpcDb) (log : List Read) (diffs : List (Bytes × BundleAccount))
      → Holds db log
      → Holds (update_state_diffs default_info db diffs) log
  unfolding update_state_diffs
  updated-Holds db log diffs h = record {
    faithful = h.faithful;
    hashes = record { given = h.hashes.given; oldest = h.hashes.oldest };
    oldest = h.oldest;
    taken_down =
        keep-AllTakenDown db (update_state_diffs default_info db diffs) log keep h.taken_down;
  }
    where
      keep : (r : Read) → TakenDown db r → TakenDown (update_state_diffs default_info db diffs) r
      keep (account a) t = t
      keep (storage a k) t = t
      keep (block_hash n) t = t

  advanced-Holds :
      (db : BasicRpcDb) (log : List Read) → Holds db log → Holds (advance_subblock db) []
  unfolding advance_subblock
  advanced-Holds db log h = record {
    faithful = h.faithful;
    hashes = record { given = h.hashes.given; oldest = h.hashes.oldest };
    oldest = h.oldest;
    taken_down = tt;
  }

  take :
      {db : BasicRpcDb} {log : List Read} (r : Read)
      → Holds db log
      → TakenDown db r
      → Holds db (r ∷ log)
  take r h t = record {
    faithful = h.faithful;
    hashes = h.hashes;
    oldest = h.oldest;
    taken_down = (t, h.taken_down);
  }

  Reachable-Holds :
      (db : BasicRpcDb) (log : List Read)
      → Reachable provider default_info block db log
      → Holds db log
  Reachable-Holds db [] (started loaded e f) = new-Holds db loaded e f
  Reachable-Holds after _ (account_read {db} {log} a info r e) =
      let h = Reachable-Holds db log r in
      let read =
        subst (AccountRead provider db a) e
          (fetch_account_info-AccountRead provider db a h.faithful) in
      take (account a) (recorded-Holds db after log read.recorded h)
        (info, read.taken_down info refl)
  Reachable-Holds after log (account_failed {db} a x r e) =
      let h = Reachable-Holds db log r in
      let read =
        subst (AccountRead provider db a) e
          (fetch_account_info-AccountRead provider db a h.faithful) in
      recorded-Holds db after log read.recorded h
  Reachable-Holds after _ (slot_read {db} {log} a k v r e) =
      let h = Reachable-Holds db log r in
      let read =
        subst (SlotRead provider db a k) e (fetch_storage_at-SlotRead provider db a k h.faithful) in
      take (storage a k) (recorded-Holds db after log read.recorded h)
        (slot-HasSlot after.subblock_data a k v (read.taken_down v refl))
  Reachable-Holds after log (slot_failed {db} a k x r e) =
      let h = Reachable-Holds db log r in
      let read =
        subst (SlotRead provider db a k) e (fetch_storage_at-SlotRead provider db a k h.faithful) in
      recorded-Holds db after log read.recorded h
  Reachable-Holds after _ (hash_read {db} {log} n g r e) =
      let h = Reachable-Holds db log r in
      let read = subst (HashRead provider db n) e (fetch_block_hash-HashRead provider db n) in
      take (block_hash n) (hash-Holds db after log n (ok g) read h) (g, read.taken_down g refl)
  Reachable-Holds after log (hash_failed {db} n x r e) =
      hash-Holds db after log n (err x)
        (subst (HashRead provider db n) e (fetch_block_hash-HashRead provider db n))
        (Reachable-Holds db log r)
  Reachable-Holds after log (updated {db} diffs r e) =
      subst (λ x. Holds x log) (sym e) (updated-Holds db log diffs (Reachable-Holds db log r))
  Reachable-Holds after [] (advanced {db} {log} r e) =
      subst (λ x. Holds x []) (sym e) (advanced-Holds db log (Reachable-Holds db log r))

  -- What is asked for of a read: its account, its slot with its account, or the hash of its block,
  -- which is then not older than the oldest ancestor.
  abbrev pub Requested : BasicRpcDb → Read → Type 0
  Requested db (account a) = Has (state_requests db.subblock_data) a
  Requested db (storage a k) =
      (keys : List ℕ) × (lookup (state_requests db.subblock_data) a ≡ some keys)
      × (includes keys k ≡ true)
  Requested db (block_hash n) =
      (h : Bytes) × (hash_of db.block_hashes n ≡ some h)
      × (provider.get_block_hash n ≡ some (some h))
      × (db.oldest_ancestor ≤ n)

  abbrev pub AllRequested : BasicRpcDb → List Read → Type 0
  AllRequested db [] = Unit
  AllRequested db (r ∷ log) = Requested db r × AllRequested db log

  all_requested :
      (db : BasicRpcDb) (log : List Read)
      → AreHashes provider db
      → AllTakenDown db log
      → AllRequested db log
  all_requested db [] a t = tt
  all_requested db (account b ∷ log) a t =
      (account-requested db.subblock_data b t.0, all_requested db log a t.1)
  all_requested db (storage b k ∷ log) a t =
      (slot-requested db.subblock_data b k t.0, all_requested db log a t.1)
  all_requested db (block_hash n ∷ log) a t =
      ((t.0.0, t.0.1, a.given n t.0.0 t.0.1, a.oldest n t.0.0 t.0.1), all_requested db log a t.1)

  pub record IsComplete (db : BasicRpcDb) (log : List Read) : Type 0 where
    pub requested : AllRequested db log
    pub accounts :
        (a : Bytes) → (fetch_account_info provider db a).0 ≡ expected_account provider db a
    pub slots :
        (a : Bytes) (k : ℕ) → (fetch_storage_at provider db a k).0 ≡ expected_slot provider db a k
    pub oldest : db.oldest_ancestor ≤ block

  -- After any calls, each account and each slot that was read since the last `advance_subblock` is
  -- in the requests for the state, each block hash that was read is recorded as the provider gave
  -- it and is of a block not older than the oldest ancestor, which is not later than the block of
  -- the database; and the next read of an account or a slot gives what the changes of earlier
  -- subblocks say, or else what the provider answers, an error included, whatever the caches hold.
  -- The cache that is loaded at the start has to hold answers of the provider.
  pub Reachable-IsComplete :
      (db : BasicRpcDb) (log : List Read)
      → Reachable provider default_info block db log
      → IsComplete db log
  Reachable-IsComplete db log r =
      let h = Reachable-Holds db log r in
      record {
        requested = all_requested db log h.hashes h.taken_down;
        accounts = λ a. (fetch_account_info-AccountRead provider db a h.faithful).answer;
        slots = λ a k. (fetch_storage_at-SlotRead provider db a k h.faithful).answer;
        oldest = h.oldest;
      }
