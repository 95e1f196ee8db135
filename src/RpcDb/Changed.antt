-- ===== src/RpcDb/Changed.antt =====
-- crates/storage/rpc-db/src/basic.rs: what `BasicRpcDb` reads after `update_state_diffs`.
use pico_subblock.Prelude.{
  ℕ, ◌≡◌, refl, ap, sym, ◌∙◌, subst, Option, none, some, List, [], ◌∷◌, ◌==◌, ==_iff, beq,
  eq_of_beq, if◌then◌else◌, Bool-cases, inl, inr,
}
use pico_subblock.State.{lookup}
use pico_subblock.RpcDb.{Bytes, AccountInfo, Slots, RpcDbState, lookup_slot, put_account, put_slot}
use pico_subblock.RpcDb.Basic.{
  Provider, BasicRpcDb, BundleAccount, Fetched, ok, put_slots, info_or_default, put_changes,
  update_state_diffs, fetch_account_info, fetch_storage_at,
}
use pico_subblock.RpcDb.Entries.{slot, slot-put_slot, account-put_account}
use pico_subblock.RpcDb.Faithful.{IsFaithful, expected_account, expected_slot, accounts-put_slot}
use pico_subblock.RpcDb.Recorded.{fetch_account_info-AccountRead, fetch_storage_at-SlotRead}

-- Each slot once, and each account once: the state of a bundle is a map of maps.
abbrev pub AreDistinctSlots : Slots → Type 0
AreDistinctSlots [] = Unit
AreDistinctSlots ((k, v) ∷ slots) = (lookup_slot slots k ≡ none) × AreDistinctSlots slots

abbrev pub AreDistinctChanges : List (Bytes × BundleAccount) → Type 0
AreDistinctChanges [] = Unit
AreDistinctChanges ((address, account) ∷ accounts) =
    (lookup accounts address ≡ none)
    × AreDistinctSlots account.storage
    × AreDistinctChanges accounts

-- What is given, or else what was there.
abbrev pub over {ℓ} : {A : Type ℓ} → Option A → Option A → Option A
over none old = old
over (some a) old = some a

slot-put_slots :
    (slots : Slots) (state : RpcDbState) (a b : Bytes) (j : ℕ)
    → AreDistinctSlots slots
    → slot (put_slots state a slots) b j
      ≡ (if beq a b then over (lookup_slot slots j) (slot state b j) else slot state b j)
unfolding put_slots lookup_slot
slot-put_slots [] state a b j d = elim (Bool-cases (beq a b)) [
  | inl same ↦ rw same refl
  | inr other ↦ rw other refl
]
slot-put_slots ((k, v) ∷ slots) state a b j d =
    let rest = slot-put_slots slots (put_slot state a k v) a b j d.1 in
    let now = slot-put_slot state a b k v j in
    elim (Bool-cases (beq a b)) [
      | inl same ↦
          let rest' = rw same at rest in
          let now' = rw same at now in
          elim (Bool-cases (k == j)) [
            | inl kj ↦
                let missing : lookup_slot slots j ≡ none =
                  subst (λ i. lookup_slot slots i ≡ none) ((==_iff k j).0 kj) d.0 in
                rw (same, kj) (rest' ∙ rw missing (now' ∙ rw kj refl))
            | inr n ↦ rw (same, n) (rest' ∙ ap (over (lookup_slot slots j)) (now' ∙ rw n refl))
          ]
      | inr other ↦
          let rest' = rw other at rest in let now' = rw other at now in rw other (rest' ∙ now')
    ]

accounts-put_slots :
    (slots : Slots) (state : RpcDbState) (a : Bytes)
    → (put_slots state a slots).accounts ≡ state.accounts
unfolding put_slots
accounts-put_slots [] state a = refl
accounts-put_slots ((k, v) ∷ slots) state a =
    accounts-put_slots slots (put_slot state a k v) a ∙ accounts-put_slot state a k v

slot-put_account :
    (state : RpcDbState) (a b : Bytes) (info : AccountInfo) (j : ℕ)
    → slot (put_account state a info) b j ≡ slot state b j
unfolding put_account
slot-put_account state a b info j = refl

module _ (default_info : AccountInfo) where
  abbrev pub new_info : Option BundleAccount → Option AccountInfo
  new_info none = none
  new_info (some account) = some (info_or_default default_info account.info)

  abbrev pub new_slot : Option BundleAccount → ℕ → Option ℕ
  new_slot none j = none
  new_slot (some account) j = lookup_slot account.storage j

  account-put_changes :
      (diffs : List (Bytes × BundleAccount)) (state : RpcDbState) (b : Bytes)
      → AreDistinctChanges diffs
      → lookup (put_changes default_info state diffs).accounts b
        ≡ over (new_info (lookup diffs b)) (lookup state.accounts b)
  unfolding put_changes lookup
  account-put_changes [] state b d = refl
  account-put_changes ((a, account) ∷ diffs) state b d =
      let info = info_or_default default_info account.info in
      let step = put_slots (put_account state a info) a account.storage in
      let rest = account-put_changes diffs step b d.2 in
      let now : lookup step.accounts b ≡ (if beq a b then some info else lookup state.accounts b) =
        ap (λ (x : List (Bytes × AccountInfo)). lookup x b)
          (accounts-put_slots account.storage (put_account state a info) a)
        ∙ account-put_account state a b info in
      elim (Bool-cases (beq a b)) [
        | inl same ↦
            let now' = rw same at now in
            let missing : lookup diffs b ≡ none =
              subst (λ c. lookup diffs c ≡ none) (eq_of_beq a b same) d.0 in
            rw same (rest ∙ rw missing now')
        | inr other ↦
            let now' = rw other at now in
            rw other (rest ∙ ap (over (new_info (lookup diffs b))) now')
      ]

  slot-put_changes :
      (diffs : List (Bytes × BundleAccount)) (state : RpcDbState) (b : Bytes) (j : ℕ)
      → AreDistinctChanges diffs
      → slot (put_changes default_info state diffs) b j
        ≡ over (new_slot (lookup diffs b) j) (slot state b j)
  unfolding put_changes lookup
  slot-put_changes [] state b j d = refl
  slot-put_changes ((a, account) ∷ diffs) state b j d =
      let info = info_or_default default_info account.info in
      let step = put_slots (put_account state a info) a account.storage in
      let rest = slot-put_changes diffs step b j d.2 in
      let now = slot-put_slots account.storage (put_account state a info) a b j d.1 in
      let before = slot-put_account state a b info j in
      elim (Bool-cases (beq a b)) [
        | inl same ↦
            let now' = rw same at now in
            let missing : lookup diffs b ≡ none =
              subst (λ c. lookup diffs c ≡ none) (eq_of_beq a b same) d.0 in
            rw same (rest ∙ rw missing (now' ∙ ap (over (lookup_slot account.storage j)) before))
        | inr other ↦
            let now' = rw other at now in
            rw other (rest ∙ ap (over (new_slot (lookup diffs b) j)) (now' ∙ before))
      ]

  module _ (provider : Provider) where
    -- What is read after an update: what the changes say, and else what was read before.
    abbrev pub account_after : Option BundleAccount → Fetched AccountInfo → Fetched AccountInfo
    account_after none before = before
    account_after (some account) before = ok (info_or_default default_info account.info)

    abbrev pub slot_after : Option ℕ → Fetched ℕ → Fetched ℕ
    slot_after none before = before
    slot_after (some value) before = ok value

    pub record AreChanged (diffs : List (Bytes × BundleAccount)) (before after : BasicRpcDb)
        : Type 0 where
      pub accounts :
          (a : Bytes)
          → (fetch_account_info provider after a).0
            ≡ account_after (lookup diffs a) (fetch_account_info provider before a).0
      pub slots :
          (a : Bytes) (k : ℕ)
          → (fetch_storage_at provider after a k).0
            ≡ slot_after (new_slot (lookup diffs a) k) (fetch_storage_at provider before a k).0

    read_account :
        (before after : BasicRpcDb) (a : Bytes) (o : Option BundleAccount)
        → lookup after.persistent_data.accounts a
          ≡ over (new_info o) (lookup before.persistent_data.accounts a)
        → expected_account provider after a ≡ account_after o (expected_account provider before a)
    read_account before after a none e = rw (expected_account, e) refl
    read_account before after a (some account) e = rw (expected_account, e) refl

    read_slot :
        (before after : BasicRpcDb) (a : Bytes) (k : ℕ) (o : Option ℕ)
        → slot after.persistent_data a k ≡ over o (slot before.persistent_data a k)
        → expected_slot provider after a k ≡ slot_after o (expected_slot provider before a k)
    read_slot before after a k none e = rw (expected_slot, e) refl
    read_slot before after a k (some v) e = rw (expected_slot, e) refl

    -- After `update_state_diffs`, where the cache holds answers of the provider and the changes
    -- name each account and each slot once, a fetch of a changed account gives its new info, or the
    -- default if it is destroyed, a fetch of a changed slot its new value, and any other fetch what
    -- it gave before.
    pub update_state_diffs-AreChanged :
        (db : BasicRpcDb) (diffs : List (Bytes × BundleAccount))
        → IsFaithful provider db.cache_data
        → AreDistinctChanges diffs
        → AreChanged diffs db (update_state_diffs default_info db diffs)
    unfolding update_state_diffs
    update_state_diffs-AreChanged db diffs f d =
        let after = update_state_diffs default_info db diffs in
        record {
          accounts = λ a.
              (fetch_account_info-AccountRead provider after a f).answer
              ∙ read_account db after a (lookup diffs a)
                  (account-put_changes diffs db.persistent_data a d)
              ∙ ap (account_after (lookup diffs a))
                  (sym (fetch_account_info-AccountRead provider db a f).answer);
          slots = λ a k.
              (fetch_storage_at-SlotRead provider after a k f).answer
              ∙ read_slot db after a k (new_slot (lookup diffs a) k)
                  (slot-put_changes diffs db.persistent_data a k d)
              ∙ ap (slot_after (new_slot (lookup diffs a) k))
                  (sym (fetch_storage_at-SlotRead provider db a k f).answer);
        }
