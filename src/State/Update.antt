-- ===== src/State/Update.antt =====
-- crates/mpt/src/lib.rs: `EthereumState::update` against the map that the post state describes.
use pico_subblock.Prelude.{
  ℕ, ◌≡◌, refl, ap, sym, ◌∙◌, subst, Option, none, some, List, [], ◌∷◌, beq, eq_of_beq,
  if◌then◌else◌, All, Bool-cases, inl, inr,
}
use pico_subblock.Result.{ok}
use pico_subblock.Result.Passed.{after_bind, ok_injective}
use pico_subblock.Path.{IsByte}
use pico_subblock.Mpt.{B256, MptNode}
use pico_subblock.Mpt.Get.{get}
use pico_subblock.Mpt.Delete.{delete}
use pico_subblock.Mpt.Hash.{External, hash}
use pico_subblock.State.{
  EthereumState, Account, HashedStorage, HashedPostState, Encoders, lookup, set_entry, insert_rlp,
  storage_of, trie_of, after_hash, state_account, update_storage, update_account, update_accounts,
  update,
}
use pico_subblock.State.Filled.{after_hash-Filled, hash-after_hash}
use pico_subblock.State.Slots.{
  IsEncoder, Value, written_slot, insert_rlp-Wrote, delete-Wrote, after_unwrap_ok,
}
use pico_subblock.State.Accounts.{
  AreDistinct, AreKeys, SoundState, Updated, expected_account, expected_slot, trie_of-set_entry,
  IsSound-set_entry, update_storage-Slots,
}

module _ (ext : External) (enc : Encoders) (laws : IsEncoder enc) where
  open enc use {encode_account, encode_word}

  abbrev encoded : Account → MptNode → List ℕ
  encoded account trie = encode_account (state_account account (hash ext trie))

  -- An account that is written.
  written :
      (storages : List (B256 × HashedStorage)) (before after : EthereumState) (k : B256)
      (account : Account)
      → SoundState ext enc before
      → All IsByte k
      → All (λ slot. All IsByte slot.0) (storage_of storages k).storage
      → update_account ext enc storages before (k, some account) ≡ ok after
      → Updated ext enc storages ((k, some account) ∷ []) before after
  unfolding update_account expected_account expected_slot lookup
  written storages before after k account s hk hs e =
      let trie = trie_of before.storage_tries k in
      let a = after_bind (update_storage ext enc (storage_of storages k) trie) _ after e in
      let updated =
        update_storage-Slots ext enc laws (storage_of storages k) trie a.0 (s.storage k) hs a.1 in
      let b =
        after_unwrap_ok ext (insert_rlp before.state_trie k (encoded account a.0)) _ after a.2 in
      let wrote =
        insert_rlp-Wrote ext before.state_trie k (encoded account a.0) b.0 s.state_trie hk
          (laws.account _) b.1 in
      let filled = after_hash-Filled ext a.0 in
      let state : EthereumState = record {
        state_trie = b.0.1;
        storage_tries = set_entry before.storage_tries k (after_hash ext a.0);
      } in
      let at = trie_of-set_entry before.storage_tries k (after_hash ext a.0) in
      subst (Updated ext enc storages ((k, some account) ∷ []) before) (ok_injective b.2) (record {
        sound = record {
          state_trie = wrote.sound;
          storage =
              IsSound-set_entry ext enc before.storage_tries k (after_hash ext a.0) s.storage
                (filled.valid updated.0.0, filled.coherent updated.0.1);
        };
        accounts = λ j hj. elim (Bool-cases (beq k j)) [
          | inl same ↦
              let root = ap (hash ext) (at j ∙ rw same refl) ∙ hash-after_hash ext a.0 in
              let read = rw same at (wrote.reads j hj) in
              rw same
                (read ∙ ap (λ r. ok (some (encode_account (state_account account r)))) (sym root))
          | inr other ↦ let read = rw other at (wrote.reads j hj) in rw other read
        ];
        slots = λ j key hj. elim (Bool-cases (beq k j)) [
          | inl same ↦
              let e' : k ≡ j = eq_of_beq k j same in
              let trie' = ap (λ n. get n key) (at j ∙ rw same refl) in
              rw same (
                trie'
                ∙ filled.reads key
                ∙ updated.1 key hj
                ∙ ap
                    (λ x. written_slot encode_word (storage_of storages x).storage key (
                      if (storage_of storages x).wiped
                      then ok none
                      else get (trie_of before.storage_tries x) key))
                    e')
          | inr other ↦ let trie' = ap (λ n. get n key) (at j ∙ rw other refl) in rw other trie'
        ];
        others = λ j h. elim (Bool-cases (beq k j)) [
          | inl same ↦ let h' = rw same at h in absurd (cc)
          | inr other ↦ at j ∙ rw other refl
        ];
      })

  -- An account that is deleted: its storage trie stays.
  deleted :
      (storages : List (B256 × HashedStorage)) (before after : EthereumState) (k : B256)
      → SoundState ext enc before
      → All IsByte k
      → update_account ext enc storages before (k, none) ≡ ok after
      → Updated ext enc storages ((k, none) ∷ []) before after
  unfolding update_account expected_account expected_slot lookup
  deleted storages before after k s hk e =
      let b = after_unwrap_ok ext (delete before.state_trie k) _ after e in
      let wrote = delete-Wrote ext before.state_trie k b.0 s.state_trie hk b.1 in
      subst (Updated ext enc storages ((k, none) ∷ []) before) (ok_injective b.2) (record {
        sound = record { state_trie = wrote.sound; storage = s.storage };
        accounts = λ j hj. elim (Bool-cases (beq k j)) [
          | inl same ↦ let read = rw same at (wrote.reads j hj) in rw same read
          | inr other ↦ let read = rw other at (wrote.reads j hj) in rw other read
        ];
        slots = λ j key hj. elim (Bool-cases (beq k j)) [
          | inl same ↦ rw same refl
          | inr other ↦ rw other refl
        ];
        others = λ j h. refl;
      })

  one :
      (storages : List (B256 × HashedStorage)) (before after : EthereumState) (k : B256)
      (entry : Option Account)
      → SoundState ext enc before
      → All IsByte k
      → All (λ slot. All IsByte slot.0) (storage_of storages k).storage
      → update_account ext enc storages before (k, entry) ≡ ok after
      → Updated ext enc storages ((k, entry) ∷ []) before after
  one storages before after k none s hk hs e = deleted storages before after k s hk e
  one storages before after k (some account) s hk hs e =
      written storages before after k account s hk hs e

  -- `expected_account` for an entry, with the storage trie given.
  now : Option Account → MptNode → Value → Value
  now none n old = ok none
  now (some account) n old = ok (some (encoded account n))

  now_lem :
      (after : EthereumState) (entry : Option Account) (j : B256) (old : Value)
      → expected_account ext enc after j (some entry) old
        ≡ now entry (trie_of after.storage_tries j) old
  unfolding expected_account now
  now_lem after none j old = refl
  now_lem after (some account) j old = refl

  nothing :
      (storages : List (B256 × HashedStorage)) (state : EthereumState)
      → SoundState ext enc state
      → Updated ext enc storages [] state state
  unfolding expected_account expected_slot lookup
  nothing storages state s = record {
    sound = s;
    accounts = λ j hj. refl;
    slots = λ j key hj. refl;
    others = λ j h. refl;
  }

  -- One entry, and then others for other addresses.
  then_others :
      (storages : List (B256 × HashedStorage)) (k : B256) (entry : Option Account)
      (entries : List (B256 × Option Account)) (before middle after : EthereumState)
      → lookup entries k ≡ none
      → Updated ext enc storages ((k, entry) ∷ []) before middle
      → Updated ext enc storages entries middle after
      → Updated ext enc storages ((k, entry) ∷ entries) before after
  unfolding lookup expected_account expected_slot
  then_others storages k entry entries before middle after h first rest = record {
    sound = rest.sound;
    accounts = λ j hj. elim (Bool-cases (beq k j)) [
      | inl same ↦
          let e' : k ≡ j = eq_of_beq k j same in
          let h' : lookup entries j ≡ none = subst (λ x. lookup entries x ≡ none) e' h in
          let a = rw h' at (rest.accounts j hj) in
          let b = rw same at (first.accounts j hj) in
          let trie = rest.others j h' in
          rw same (
            a
            ∙ b
            ∙ now_lem middle entry j (get before.state_trie j)
            ∙ ap (λ n. now entry n (get before.state_trie j)) (sym trie)
            ∙ sym (now_lem after entry j (get before.state_trie j)))
      | inr other ↦
          let b = rw other at (first.accounts j hj) in
          rw other (rest.accounts j hj ∙ ap (expected_account ext enc after j (lookup entries j)) b)
    ];
    slots = λ j key hj. elim (Bool-cases (beq k j)) [
      | inl same ↦
          let e' : k ≡ j = eq_of_beq k j same in
          let h' : lookup entries j ≡ none = subst (λ x. lookup entries x ≡ none) e' h in
          let a = rw h' at (rest.slots j key hj) in
          let b = rw same at (first.slots j key hj) in rw same (a ∙ b)
      | inr other ↦
          let b = rw other at (first.slots j key hj) in
          rw other (
            rest.slots j key hj
            ∙ ap (expected_slot ext enc (storage_of storages j) (lookup entries j) key) b)
    ];
    others = λ j e. elim (Bool-cases (beq k j)) [
      | inl same ↦ let wrong = rw same at e in absurd (cc)
      | inr other ↦
          let e' = rw other at e in let b = first.others j (rw other refl) in rest.others j e' ∙ b
    ];
  }

  update_accounts-Updated :
      (storages : List (B256 × HashedStorage)) (entries : List (B256 × Option Account))
      (before after : EthereumState)
      → SoundState ext enc before
      → AreDistinct entries
      → AreKeys storages entries
      → update_accounts ext enc storages before entries ≡ ok after
      → Updated ext enc storages entries before after
  unfolding update_accounts
  update_accounts-Updated storages [] before after s d k e =
      subst (Updated ext enc storages [] before) (ok_injective e) (nothing storages before s)
  update_accounts-Updated storages ((address, entry) ∷ entries) before after s d k e =
      let a = after_bind (update_account ext enc storages before (address, entry)) _ after e in
      let first = one storages before a.0 address entry s k.0 k.1 a.1 in
      then_others storages address entry entries before a.0 after d.0 first
        (update_accounts-Updated storages entries a.0 after first.sound d.1 k.2 a.2)

  -- When `update` returns, on a state whose tries are valid and have right caches and a post state
  -- with one entry for each address, and keys of bytes, then the tries are again valid with right
  -- caches. Every account reads as the post state says, with the hash of its storage trie as the
  -- storage root, or as nothing if it is deleted, and as before if the post state does not name it.
  -- Every slot of a written account reads as the writes to it say, zero as nothing and after a wipe
  -- from nothing, and every slot of another account as before.
  pub update-Updated :
      (before after : EthereumState) (post_state : HashedPostState)
      → SoundState ext enc before
      → AreDistinct post_state.accounts
      → AreKeys post_state.storages post_state.accounts
      → update ext enc before post_state ≡ ok after
      → Updated ext enc post_state.storages post_state.accounts before after
  unfolding update
  update-Updated before after post_state s d k e =
      update_accounts-Updated post_state.storages post_state.accounts before after s d k e
