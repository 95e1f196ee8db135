-- ===== src/State/Pruned.antt =====
-- crates/mpt/src/lib.rs: `EthereumState::prune` keeps the roots, so that its assertions hold.
use mathlib.Core.List.{List, [], ◌∷◌, ◌++◌}
use pico_subblock.Prelude.{
  ◌≡◌, refl, sym, ◌∙◌, subst, false, Option, none, some, beq, beq_refl, eq_of_beq, Bool-cases,
  Option-cases, inl, inr,
}
use pico_subblock.Result.{ok, unwrap_ok}
use pico_subblock.Result.Passed.{after_bind, ok_injective}
use pico_subblock.Mpt.{B256, MptNode}
use pico_subblock.Mpt.Hash.{External}
use pico_subblock.Mpt.Touched.{get_with_touched}
use pico_subblock.Mpt.Touched.Delete.{delete_with_touched}
use pico_subblock.State.{
  EthereumState, Account, HashedStorage, HashedPostState, lookup, set_entry, storage_of,
}
use pico_subblock.State.Accounts.{lookup-set_entry}
use pico_subblock.State.Prune.{
  Refs, StorageRefs, Walk, refs_of, sorted, touch_slots, read_account, touch_account,
  touch_accounts, touch_keys, touch_read, touch_reads, get_touched_nodes,
}

-- The map has an entry for the key.
abbrev pub Has {ℓ} : {A : Type ℓ} → List (B256 × A) → B256 → Type ℓ
Has {A = A} entries key = (a : A) × (lookup entries key ≡ some a)

-- Each address has one set of references, and has a storage trie.
abbrev pub Covers : List (B256 × MptNode) → StorageRefs → Type 0
Covers tries [] = Unit
Covers tries ((address, refs) ∷ storage_refs) =
    (lookup storage_refs address ≡ none) × Has tries address × Covers tries storage_refs

pub unlike : (a b : B256) → beq a b ≡ false → beq b a ≡ false
unlike a b other = elim (Bool-cases (beq b a)) [
  | inl same ↦ let e : b ≡ a = eq_of_beq b a same in absurd (cc (other, e, beq_refl a))
  | inr n ↦ n
]

Covers-set_entry :
    (tries : List (B256 × MptNode)) (storage_refs : StorageRefs) (key : B256) (refs : Refs)
    → Covers tries storage_refs
    → Has tries key
    → Covers tries (set_entry storage_refs key refs)
unfolding set_entry lookup
Covers-set_entry tries [] key refs c h = (refl, h, tt)
Covers-set_entry tries ((k, r) ∷ rest) key refs c h = elim (Bool-cases (beq k key)) [
  | inl same ↦
      let e : k ≡ key = eq_of_beq k key same in
      rw same ((subst (λ x. lookup rest x ≡ none) e c.0, h, c.2))
  | inr other ↦ rw other (
      (
        lookup-set_entry rest key refs k ∙ rw (unlike k key other) c.0,
        c.1,
        Covers-set_entry tries rest key refs c.2 h,
      ))
]

Has-set_entry :
    (tries : List (B256 × MptNode)) (key : B256) (n : MptNode) (j : B256)
    → Has tries key
    → Has (set_entry tries key n) j
    → Has tries j
Has-set_entry tries key n j h x = elim (Bool-cases (beq key j)) [
  | inl same ↦ subst (Has tries) (eq_of_beq key j same) h
  | inr other ↦ (x.0, sym (lookup-set_entry tries key n j ∙ rw other refl) ∙ x.1)
]

module _ (ext : External) (state : EthereumState) where
  -- What the walk over the touched nodes keeps.
  pub record Walking (w : Walk) : Type 0 where
    pub covers : Covers state.storage_tries w.storage_refs
    pub keys :
        (address : B256) → Has w.state.storage_tries address → Has state.storage_tries address

  read_account-Walking :
      (w after : Walk) (address : B256)
      → Walking w
      → read_account ext w address ≡ ok after
      → Walking after
  unfolding read_account
  read_account-Walking w after address h e =
      let a = after_bind (unwrap_ok (get_with_touched ext w.state.state_trie address)) _ after e in
      subst Walking (ok_injective a.2) (record { covers = h.covers; keys = h.keys })

  touch_account-Walking :
      (storages : List (B256 × HashedStorage)) (w after : Walk) (address : B256)
      (entry : Option Account)
      → Walking w
      → touch_account ext storages w (address, entry) ≡ ok after
      → Walking after
  unfolding touch_account
  touch_account-Walking storages w after address none h e =
      let a =
        after_bind (unwrap_ok (delete_with_touched ext w.state.state_trie address)) _ after e in
      subst Walking (ok_injective a.2) (record { covers = h.covers; keys = h.keys })
  touch_account-Walking storages w after address (some account) h e =
      elim (Option-cases (lookup w.state.storage_tries address)) [
        | inl absent ↦ let e' = rw (absent, touch_account) at e in subst Walking (ok_injective e') h
        | inr (trie, found) ↦
            let e' = rw (found, touch_account) at e in
            let a =
              after_bind
                (touch_slots ext (trie, refs_of w.storage_refs address)
                  (storage_of storages address).storage)
                _ after e' in
            let known = h.keys address (trie, found) in
            read_account-Walking _ after address
              (record {
                covers =
                    Covers-set_entry state.storage_tries w.storage_refs address a.0.1 h.covers
                      known;
                keys = λ j x.
                    h.keys j (Has-set_entry w.state.storage_tries address a.0.0 j (trie, found) x);
              })
              a.2
      ]

  touch_accounts-Walking :
      (storages : List (B256 × HashedStorage)) (entries : List (B256 × Option Account))
      (w after : Walk)
      → Walking w
      → touch_accounts ext storages w entries ≡ ok after
      → Walking after
  unfolding touch_accounts
  touch_accounts-Walking storages [] w after h e = subst Walking (ok_injective e) h
  touch_accounts-Walking storages ((address, entry) ∷ entries) w after h e =
      let a = after_bind (touch_account ext storages w (address, entry)) _ after e in
      touch_accounts-Walking storages entries a.0 after
        (touch_account-Walking storages w a.0 address entry h a.1) a.2

  touch_keys-Covers :
      (trie : MptNode) (address : B256) (keys : List B256) (storage_refs after : StorageRefs)
      → Covers state.storage_tries storage_refs
      → Has state.storage_tries address
      → touch_keys ext trie address storage_refs keys ≡ ok after
      → Covers state.storage_tries after
  unfolding touch_keys
  touch_keys-Covers trie address [] storage_refs after c h e =
      subst (Covers state.storage_tries) (ok_injective e) c
  touch_keys-Covers trie address (key ∷ keys) storage_refs after c h e =
      let a = after_bind (unwrap_ok (get_with_touched ext trie key)) _ after e in
      touch_keys-Covers trie address keys _ after
        (Covers-set_entry state.storage_tries storage_refs address
          (refs_of storage_refs address ++ a.0.1) c h)
        h a.2

  touch_read-Walking :
      (w after : Walk) (address : B256) (keys : List B256)
      → Walking w
      → touch_read ext w (address, keys) ≡ ok after
      → Walking after
  unfolding touch_read
  touch_read-Walking w after address keys h e =
      elim (Option-cases (lookup w.state.storage_tries address)) [
        | inl absent ↦
            let e' = rw (absent, touch_read) at e in read_account-Walking w after address h e'
        | inr (trie, found) ↦
            let e' = rw (found, touch_read) at e in
            let a = after_bind (touch_keys ext trie address w.storage_refs keys) _ after e' in
            read_account-Walking _ after address
              (record {
                covers =
                    touch_keys-Covers trie address keys w.storage_refs a.0 h.covers
                      (h.keys address (trie, found)) a.1;
                keys = h.keys;
              })
              a.2
      ]

  touch_reads-Walking :
      (entries : List (B256 × List B256)) (w after : Walk)
      → Walking w
      → touch_reads ext w entries ≡ ok after
      → Walking after
  unfolding touch_reads
  touch_reads-Walking [] w after h e = subst Walking (ok_injective e) h
  touch_reads-Walking ((address, keys) ∷ entries) w after h e =
      let a = after_bind (touch_read ext w (address, keys)) _ after e in
      touch_reads-Walking entries a.0 after (touch_read-Walking w a.0 address keys h a.1) a.2

  pub get_touched_nodes-Walking :
      (post_state : HashedPostState) (touched_state : List (B256 × List B256)) (w : Walk)
      → get_touched_nodes ext state post_state touched_state ≡ ok w
      → Walking w
  unfolding get_touched_nodes
  get_touched_nodes-Walking post_state touched_state w e =
      let a =
        after_bind (touch_accounts ext post_state.storages _ (sorted post_state.accounts)) _ w e in
      touch_reads-Walking touched_state a.0 w
        (touch_accounts-Walking post_state.storages (sorted post_state.accounts) _ a.0
          (record { covers = tt; keys = λ j x. x }) a.1)
        a.2
