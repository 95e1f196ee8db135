-- ===== src/RpcDb/Recorded.antt =====
-- crates/storage/rpc-db/src/basic.rs: what the fetches of `BasicRpcDb` answer, and what they take
-- down.
use pico_subblock.Prelude.{
  ℕ, ◌≡◌, refl, ap, sym, ◌∙◌, some, ==_refl, beq_refl, Option-cases, inl, inr, ◌⊎◌,
}
use pico_subblock.State.{lookup}
use pico_subblock.State.Pruned.{Has}
use pico_subblock.RpcDb.{Bytes, AccountInfo, RpcDbState, put_account, put_slot}
use pico_subblock.RpcDb.Basic.{
  RpcDbError, Provider, BasicRpcDb, Fetched, ok, err, with_subblock, ask_account,
  fetch_account_info, fetch_storage_at,
}
use pico_subblock.RpcDb.Entries.{
  slot, slot-put_slot, HasSlot, HasSlot-put_account, HasSlot-put_slot, account-put_account,
  Has-set_account,
}
use pico_subblock.RpcDb.Faithful.{
  ask_slot, IsFaithful, expected_account, expected_slot, put_account-IsFaithful,
  put_slot-IsFaithful,
}

Fetched-cases {ℓ} :
    {A : Type ℓ} (r : Fetched A) → ((a : A) × (r ≡ ok a)) ⊎ ((e : RpcDbError) × (r ≡ err e))
Fetched-cases (ok a) = inl (a, refl)
Fetched-cases (err e) = inr (e, refl)

Has-put_slot :
    (state : RpcDbState) (a b : Bytes) (k v : ℕ)
    → Has state.accounts b
    → Has (put_slot state a k v).accounts b
unfolding put_slot
Has-put_slot state a b k v h = h

module _ (provider : Provider) where
  open provider use {get_storage_at}

  -- What a call does besides answering: it leaves the changes alone, keeps the cache faithful,
  -- keeps what was taken down, and takes down what it answers.
  pub record Recorded (db after : BasicRpcDb) : Type 0 where
    pub persistent : after.persistent_data ≡ db.persistent_data
    pub block_hashes : after.block_hashes ≡ db.block_hashes
    pub oldest_ancestor : after.oldest_ancestor ≡ db.oldest_ancestor
    pub faithful : IsFaithful provider db.cache_data → IsFaithful provider after.cache_data
    pub accounts :
        (a : Bytes) → Has db.subblock_data.accounts a → Has after.subblock_data.accounts a
    pub slots : (a : Bytes) (k : ℕ) → HasSlot db.subblock_data a k → HasSlot after.subblock_data a k

  -- The answer of a call is as expected, and what it answers is among what it leaves.
  pub record AccountRead (db : BasicRpcDb) (a : Bytes) (r : Fetched AccountInfo × BasicRpcDb)
      : Type 0 where
    pub answer : r.0 ≡ expected_account provider db a
    pub recorded : Recorded db r.1
    pub taken_down :
        (info : AccountInfo) → r.0 ≡ ok info → lookup r.1.subblock_data.accounts a ≡ some info

  pub record SlotRead (db : BasicRpcDb) (a : Bytes) (k : ℕ) (r : Fetched ℕ × BasicRpcDb)
      : Type 0 where
    pub answer : r.0 ≡ expected_slot provider db a k
    pub recorded : Recorded db r.1
    pub taken_down : (v : ℕ) → r.0 ≡ ok v → slot r.1.subblock_data a k ≡ some v

  unchanged : (db : BasicRpcDb) → Recorded db db
  unchanged db = record {
    persistent = refl;
    block_hashes = refl;
    oldest_ancestor = refl;
    faithful = λ f. f;
    accounts = λ a h. h;
    slots = λ a k h. h;
  }

  account_taken :
      (db : BasicRpcDb) (a : Bytes) (info : AccountInfo)
      → Recorded db (with_subblock db (put_account db.subblock_data a info))
  account_taken db a info = record {
    persistent = refl;
    block_hashes = refl;
    oldest_ancestor = refl;
    faithful = λ f. f;
    accounts = λ b h. Has-set_account db.subblock_data a b info h;
    slots = λ b k h. HasSlot-put_account db.subblock_data a b info k h;
  }

  slot_taken :
      (db : BasicRpcDb) (a : Bytes) (k v : ℕ)
      → Recorded db (with_subblock db (put_slot db.subblock_data a k v))
  slot_taken db a k v = record {
    persistent = refl;
    block_hashes = refl;
    oldest_ancestor = refl;
    faithful = λ f. f;
    accounts = λ b h. Has-put_slot db.subblock_data a b k v h;
    slots = λ b j h. HasSlot-put_slot db.subblock_data a b k v j h;
  }

  account_now :
      (state : RpcDbState) (a : Bytes) (info i : AccountInfo)
      → ok info ≡ ok i
      → lookup (put_account state a info).accounts a ≡ some i
  account_now state a info i e =
      let e' : info ≡ i = cc (e) in
      account-put_account state a a info ∙ rw (beq_refl a) (ap some e')

  -- What is known already is answered and taken down.
  known_account :
      (db : BasicRpcDb) (a : Bytes) (info : AccountInfo)
      → ok info ≡ expected_account provider db a
      → AccountRead db a (ok info, with_subblock db (put_account db.subblock_data a info))
  known_account db a info e = record {
    answer = e;
    recorded = account_taken db a info;
    taken_down = λ i x. account_now db.subblock_data a info i x;
  }

  pub fetch_account_info-AccountRead :
      (db : BasicRpcDb) (a : Bytes)
      → IsFaithful provider db.cache_data
      → AccountRead db a (fetch_account_info provider db a)
  unfolding fetch_account_info
  fetch_account_info-AccountRead db a f =
      elim (Option-cases (lookup db.persistent_data.accounts a)) [
        | inr (info, known) ↦
            rw (fetch_account_info, known)
              (known_account db a info (rw (expected_account, known) refl))
        | inl unknown ↦ elim (Option-cases (lookup db.cache_data.accounts a)) [
          | inr (info, cached) ↦
              rw (fetch_account_info, unknown, cached)
                (known_account db a info
                  (rw (expected_account, unknown) (sym (f.accounts a info cached))))
          | inl new ↦ elim (Fetched-cases (ask_account provider a)) [
            | inr (e, failed) ↦
                rw (fetch_account_info, unknown, new, failed)
                  (record {
                    answer = rw (expected_account, unknown) (sym failed);
                    recorded = unchanged db;
                    taken_down = λ i x. absurd (cc (x));
                  })
            | inl (info, asked) ↦
                rw (fetch_account_info, unknown, new, asked)
                  (record {
                    answer = rw (expected_account, unknown) (sym asked);
                    recorded = record {
                      persistent = refl;
                      block_hashes = refl;
                      oldest_ancestor = refl;
                      faithful = λ g. put_account-IsFaithful provider db.cache_data a info g asked;
                      accounts = λ b h. Has-set_account db.subblock_data a b info h;
                      slots = λ b k h. HasSlot-put_account db.subblock_data a b info k h;
                    };
                    taken_down = λ i x. account_now db.subblock_data a info i x;
                  })
          ]
        ]
      ]

  slot_now :
      (state : RpcDbState) (a : Bytes) (k v w : ℕ)
      → ok v ≡ ok w
      → slot (put_slot state a k v) a k ≡ some w
  slot_now state a k v w e =
      let e' : v ≡ w = cc (e) in
      slot-put_slot state a a k v k ∙ rw (beq_refl a, ==_refl k) (ap some e')

  known_slot :
      (db : BasicRpcDb) (a : Bytes) (k v : ℕ)
      → ok v ≡ expected_slot provider db a k
      → SlotRead db a k (ok v, with_subblock db (put_slot db.subblock_data a k v))
  known_slot db a k v e = record {
    answer = e;
    recorded = slot_taken db a k v;
    taken_down = λ w x. slot_now db.subblock_data a k v w x;
  }

  pub fetch_storage_at-SlotRead :
      (db : BasicRpcDb) (a : Bytes) (k : ℕ)
      → IsFaithful provider db.cache_data
      → SlotRead db a k (fetch_storage_at provider db a k)
  unfolding fetch_storage_at
  fetch_storage_at-SlotRead db a k f = elim (Option-cases (slot db.persistent_data a k)) [
    | inr (v, known) ↦
        rw (fetch_storage_at, known) (known_slot db a k v (rw (expected_slot, known) refl))
    | inl unknown ↦ elim (Option-cases (slot db.cache_data a k)) [
      | inr (v, cached) ↦
          rw (fetch_storage_at, unknown, cached)
            (known_slot db a k v
              (rw (expected_slot, unknown) (rw (ask_slot, f.slots a k v cached) refl)))
      | inl new ↦ elim (Option-cases (get_storage_at a k)) [
        | inl failed ↦
            rw (fetch_storage_at, unknown, new, failed)
              (record {
                answer = rw (expected_slot, unknown) (rw (ask_slot, failed) refl);
                recorded = unchanged db;
                taken_down = λ w x. absurd (cc (x));
              })
        | inr (v, asked) ↦
            rw (fetch_storage_at, unknown, new, asked)
              (record {
                answer = rw (expected_slot, unknown) (rw (ask_slot, asked) refl);
                recorded = record {
                  persistent = refl;
                  block_hashes = refl;
                  oldest_ancestor = refl;
                  faithful = λ g. put_slot-IsFaithful provider db.cache_data a k v g asked;
                  accounts = λ b h. Has-put_slot db.subblock_data a b k v h;
                  slots = λ b j h. HasSlot-put_slot db.subblock_data a b k v j h;
                };
                taken_down = λ w x. slot_now db.subblock_data a k v w x;
              })
      ]
    ]
  ]
