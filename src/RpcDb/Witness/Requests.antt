-- ===== src/RpcDb/Witness/Requests.antt =====
-- crates/storage/rpc-db/src/execution_witness.rs: what a sequence of reads asks for of the tries.
use pico_subblock.Prelude.{ℕ, ◌≡◌, refl, ap, sym, ◌∙◌, subst, true, some, List, [], ◌∷◌}
use pico_subblock.Result.{Result, ok, ◌>>=◌}
use pico_subblock.Result.Passed.{after_bind, ok_injective}
use pico_subblock.State.{lookup}
use pico_subblock.State.Pruned.{Has}
use pico_subblock.RpcDb.{Bytes, AccountInfo, put_account, put_slot, state_requests}
use pico_subblock.RpcDb.Entries.{
  HasSlot, HasSlot-put_account, HasSlot-put_slot, put_slot-HasSlot, put_account-Has,
  Has-set_account, account-requested, slot-requested, includes,
}
use pico_subblock.RpcDb.Faithful.{accounts-put_slot}
use pico_subblock.RpcDb.Reachable.{Read, account, storage, block_hash}
use pico_subblock.RpcDb.Witness.{
  ExecutionWitnessRpcDb, ProviderError, Calls, with_read, account_of, basic_ref, slot_value,
  storage_ref, block_hash_ref,
}

module _ (calls : Calls) where
  -- The reads of a subblock, one after the other; each gives its answer to the EVM.
  unfoldable pub read_all :
      ExecutionWitnessRpcDb → List Read → Result ProviderError ExecutionWitnessRpcDb
  unfolding basic_ref storage_ref block_hash_ref
  read_all db [] = ok db
  read_all db (account a ∷ reads) = do r ← basic_ref calls db a; read_all r.1 reads
  read_all db (storage a k ∷ reads) = do r ← storage_ref calls db a k; read_all r.1 reads
  read_all db (block_hash n ∷ reads) = do h ← block_hash_ref calls db n; read_all db reads

  -- A read adds to what was taken down, and leaves the tries and the changes alone.
  pub record Grown (before after : ExecutionWitnessRpcDb) : Type 0 where
    pub full_state : after.full_state ≡ before.full_state
    pub persistent_state : after.persistent_state ≡ before.persistent_state
    pub accounts :
        (a : Bytes) → Has before.subblock_state.accounts a → Has after.subblock_state.accounts a
    pub slots :
        (a : Bytes) (k : ℕ) → HasSlot before.subblock_state a k → HasSlot after.subblock_state a k

  Grown-refl : (db : ExecutionWitnessRpcDb) → Grown db db
  Grown-refl db = record {
    full_state = refl;
    persistent_state = refl;
    accounts = λ a h. h;
    slots = λ a k h. h;
  }

  Grown-trans : (a b c : ExecutionWitnessRpcDb) → Grown a b → Grown b c → Grown a c
  Grown-trans a b c g h = record {
    full_state = h.full_state ∙ g.full_state;
    persistent_state = h.persistent_state ∙ g.persistent_state;
    accounts = λ x p. h.accounts x (g.accounts x p);
    slots = λ x k p. h.slots x k (g.slots x k p);
  }

  account-Grown :
      (db : ExecutionWitnessRpcDb) (a : Bytes) (info : AccountInfo)
      → Grown db (with_read db (put_account db.subblock_state a info))
  account-Grown db a info = record {
    full_state = refl;
    persistent_state = refl;
    accounts = λ b h. Has-set_account db.subblock_state a b info h;
    slots = λ b k h. HasSlot-put_account db.subblock_state a b info k h;
  }

  slot-Grown :
      (db : ExecutionWitnessRpcDb) (a : Bytes) (k v : ℕ)
      → Grown db (with_read db (put_slot db.subblock_state a k v))
  slot-Grown db a k v = record {
    full_state = refl;
    persistent_state = refl;
    accounts = λ b h.
        subst (λ (x : List (Bytes × AccountInfo)). Has x b)
          (sym (accounts-put_slot db.subblock_state a k v)) h;
    slots = λ b j h. HasSlot-put_slot db.subblock_state a b k v j h;
  }

  -- An account that was read is in the requests, and a slot with its address.
  abbrev pub Asked : ExecutionWitnessRpcDb → Read → Type 0
  Asked db (account a) = Has (state_requests db.subblock_state) a
  Asked db (storage a k) =
      (keys : List ℕ) × (lookup (state_requests db.subblock_state) a ≡ some keys)
      × (includes keys k ≡ true)
  Asked db (block_hash n) = Unit

  abbrev pub AllAsked : ExecutionWitnessRpcDb → List Read → Type 0
  AllAsked db [] = Unit
  AllAsked db (r ∷ reads) = Asked db r × AllAsked db reads

  -- When a sequence of reads succeeds, every account and every slot that was read is in the
  -- requests for the state that are made afterwards, what was taken down before is still there, and
  -- neither the tries of the witness nor the changes of earlier subblocks are touched.
  pub read_all-AllAsked :
      (reads : List Read) (db after : ExecutionWitnessRpcDb)
      → read_all db reads ≡ ok after
      → AllAsked after reads × Grown db after
  unfolding read_all basic_ref storage_ref
  read_all-AllAsked [] db after e = (tt, subst (Grown db) (ok_injective e) (Grown-refl db))
  read_all-AllAsked (account a ∷ reads) db after e =
      let r = after_bind (basic_ref calls db a) _ after e in
      let i = after_bind (account_of calls db a) _ r.0 r.1 in
      let next = with_read db (put_account db.subblock_state a i.0) in
      let same : next ≡ r.0.1 = ap (λ x. x.1) (ok_injective i.2) in
      let rest = read_all-AllAsked reads r.0.1 after r.2 in
      let grown = subst (λ x. Grown x after) (sym same) rest.1 in
      (
        (
          account-requested after.subblock_state a
              (grown.accounts a (put_account-Has db.subblock_state a i.0)),
          rest.0,
        ),
        Grown-trans db next after (account-Grown db a i.0) grown,
      )
  read_all-AllAsked (storage a k ∷ reads) db after e =
      let r = after_bind (storage_ref calls db a k) _ after e in
      let v = after_bind (slot_value calls db a k) _ r.0 r.1 in
      let next = with_read db (put_slot db.subblock_state a k v.0) in
      let same : next ≡ r.0.1 = ap (λ x. x.1) (ok_injective v.2) in
      let rest = read_all-AllAsked reads r.0.1 after r.2 in
      let grown = subst (λ x. Grown x after) (sym same) rest.1 in
      (
        (
          slot-requested after.subblock_state a k
              (grown.slots a k (put_slot-HasSlot db.subblock_state a k v.0)),
          rest.0,
        ),
        Grown-trans db next after (slot-Grown db a k v.0) grown,
      )
  read_all-AllAsked (block_hash n ∷ reads) db after e =
      let h = after_bind (block_hash_ref calls db n) _ after e in
      let rest = read_all-AllAsked reads db after h.2 in ((tt, rest.0), rest.1)
