-- ===== src/RpcDb/Faithful.antt =====
-- crates/storage/rpc-db/src/basic.rs: a cache that holds answers of the provider, and what a read
-- is expected to give.
use pico_subblock.Prelude.{
  ℕ, ◌≡◌, refl, sym, ◌∙◌, subst, none, some, ◌==◌, ==_iff, beq, eq_of_beq, Bool-cases, inl, inr,
}
use pico_subblock.State.{lookup}
use pico_subblock.RpcDb.{Bytes, AccountInfo, RpcDbState, put_account, put_slot}
use pico_subblock.RpcDb.Basic.{
  Provider, BasicRpcDb, Fetched, ok, err, get_storage_error, ask_account,
}
use pico_subblock.RpcDb.Entries.{slot, slot-put_slot, account-put_account}

pub accounts-put_slot :
    (state : RpcDbState) (a : Bytes) (k v : ℕ) → (put_slot state a k v).accounts ≡ state.accounts
unfolding put_slot
accounts-put_slot state a k v = refl

storage-put_account :
    (state : RpcDbState) (a : Bytes) (info : AccountInfo)
    → (put_account state a info).storage ≡ state.storage
unfolding put_account
storage-put_account state a info = refl

module _ (provider : Provider) where
  open provider use {get_storage_at}

  -- The slot as the provider has it.
  abbrev pub ask_slot : Bytes → ℕ → Fetched ℕ
  ask_slot address index = elim (get_storage_at address index) [
    | none ↦ err (get_storage_error address index)
    | some value ↦ ok value
  ]

  -- The cache holds what the provider answers.
  pub record IsFaithful (cache : RpcDbState) : Type 0 where
    pub accounts :
        (a : Bytes) (info : AccountInfo)
        → lookup cache.accounts a ≡ some info
        → ask_account provider a ≡ ok info
    pub slots : (a : Bytes) (k v : ℕ) → slot cache a k ≡ some v → get_storage_at a k ≡ some v

  -- What a read gives by the changes of earlier subblocks and the provider alone.
  abbrev pub expected_account : BasicRpcDb → Bytes → Fetched AccountInfo
  expected_account db address = elim (lookup db.persistent_data.accounts address) [
    | some info ↦ ok info
    | none ↦ ask_account provider address
  ]

  abbrev pub expected_slot : BasicRpcDb → Bytes → ℕ → Fetched ℕ
  expected_slot db address index = elim (slot db.persistent_data address index) [
    | some value ↦ ok value
    | none ↦ ask_slot address index
  ]

  pub put_account-IsFaithful :
      (cache : RpcDbState) (a : Bytes) (info : AccountInfo)
      → IsFaithful cache
      → ask_account provider a ≡ ok info
      → IsFaithful (put_account cache a info)
  unfolding put_account
  put_account-IsFaithful cache a info f e = record {
    accounts = λ b i x. elim (Bool-cases (beq a b)) [
      | inl same ↦
          let now : lookup (put_account cache a info).accounts b ≡ some info =
            account-put_account cache a b info ∙ rw same refl in
          let i' : info ≡ i = cc (now, x) in
          subst (λ c. ask_account provider c ≡ ok i) (eq_of_beq a b same)
            (subst (λ y. ask_account provider a ≡ ok y) i' e)
      | inr other ↦
          let now : lookup (put_account cache a info).accounts b ≡ lookup cache.accounts b =
            account-put_account cache a b info ∙ rw other refl in
          f.accounts b i (sym now ∙ x)
    ];
    slots = f.slots;
  }

  pub put_slot-IsFaithful :
      (cache : RpcDbState) (a : Bytes) (k v : ℕ)
      → IsFaithful cache
      → get_storage_at a k ≡ some v
      → IsFaithful (put_slot cache a k v)
  put_slot-IsFaithful cache a k v f e = record {
    accounts = λ b i x.
        f.accounts b i (subst (λ c. lookup c b ≡ some i) (accounts-put_slot cache a k v) x);
    slots = λ b j w x. elim (Bool-cases (beq a b)) [
      | inl same ↦ elim (Bool-cases (k == j)) [
        | inl kj ↦
            let now : slot (put_slot cache a k v) b j ≡ some v =
              slot-put_slot cache a b k v j ∙ rw (same, kj) refl in
            let w' : v ≡ w = cc (now, x) in
            let k' : k ≡ j = (==_iff k j).0 kj in
            subst (λ c. get_storage_at c j ≡ some w) (eq_of_beq a b same)
              (subst (λ i. get_storage_at a i ≡ some w) k'
                (subst (λ y. get_storage_at a k ≡ some y) w' e))
        | inr n ↦
            let now : slot (put_slot cache a k v) b j ≡ slot cache b j =
              slot-put_slot cache a b k v j ∙ rw (same, n) refl in
            f.slots b j w (sym now ∙ x)
      ]
      | inr other ↦
          let now : slot (put_slot cache a k v) b j ≡ slot cache b j =
            slot-put_slot cache a b k v j ∙ rw other refl in
          f.slots b j w (sym now ∙ x)
    ];
  }
