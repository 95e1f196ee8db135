-- ===== src/State/Tests.antt =====
-- An example of a state, its update and its pruning.
use pico_subblock.Prelude.{
  ℕ, suc, ◌≡◌, refl, subst, Bool-cases, inl, inr, none, some, [], ◌∷◌, length, false, beq, List,
  arith,
}
use pico_subblock.Result.{ok}
use pico_subblock.Path.{to_nibs, prefix_nibs, to_encoded_path}
use pico_subblock.Mpt.{MptNode, node, leaf, default}
use pico_subblock.Mpt.Insert.{insert_internal}
use pico_subblock.Mpt.Delete.{delete, delete_internal}
use pico_subblock.Mpt.Hash.{External, empty_root, hash, reference, fill}
use pico_subblock.Mpt.Hash.Cache.{IsCoherent, fill-IsCoherent_lem}
use pico_subblock.Mpt.Touched.{get_with_touched, get_internal_with_touched}
use pico_subblock.State.{
  EthereumState, HashedPostState, Encoders, lookup, trie_of, storage_of, update, state_root,
}
use pico_subblock.State.Slots.{IsEncoder}
use pico_subblock.State.Accounts.{SoundState, Updated}
use pico_subblock.State.Update.{update-Updated}
use pico_subblock.State.Prune.{prune, get_touched_nodes, Walk}
use pico_subblock.State.Roots.{prune-roots}

abbrev external : External
external = record {
  keccak = λ b. empty_root;
  empty_string_code = 0x80;
  list_header = λ n. 0xc0 ∷ [];
  encode_string = λ b. 0x80 ∷ b;
  string_length = λ b. suc (length b);
  length_of_length = λ n. 1;
}

abbrev encoders : Encoders
encoders = record { encode_account = λ a. a.nonce ∷ a.balance ∷ []; encode_word = λ v. v ∷ [] }

encoders-IsEncoder : IsEncoder encoders
encoders-IsEncoder = record { account = λ a. omega arith; word = λ v. omega arith }

abbrev empty_state : EthereumState
empty_state = record { state_trie = default; storage_tries = [] }

empty_state-SoundState : SoundState external encoders empty_state
unfolding trie_of lookup
empty_state-SoundState = record { state_trie = (tt, (tt, tt)); storage = λ a. (tt, (tt, tt)) }

-- One account is written, with a slot, and another is deleted.
abbrev post_state : HashedPostState
post_state = record {
  accounts =
      (0x71 ∷ [], some (record { nonce = 1; balance = 2; bytecode_hash = [] }))
      ∷ (0x72 ∷ [], none)
      ∷ [];
  storages = (0x71 ∷ [], record { wiped = false; storage = (0x11 ∷ [], 5) ∷ [] }) ∷ [];
}

abbrev account_leaf : MptNode
account_leaf = node (leaf (0x20 ∷ 0x71 ∷ []) (1 ∷ 2 ∷ [])) none

abbrev slot_leaf : MptNode
slot_leaf = node (leaf (0x20 ∷ 0x11 ∷ []) (5 ∷ [])) none

abbrev updated_state : EthereumState
updated_state = record {
  state_trie = account_leaf;
  storage_tries = (0x71 ∷ [], fill external slot_leaf) ∷ [];
}

updated : update external encoders empty_state post_state ≡ ok updated_state
unfolding update insert_internal to_nibs to_encoded_path storage_of trie_of lookup beq delete
    delete_internal prefix_nibs
updated = refl

update-Updated_example :
    Updated external encoders post_state.storages post_state.accounts empty_state updated_state
unfolding lookup storage_of beq
update-Updated_example =
    update-Updated external encoders encoders-IsEncoder empty_state updated_state post_state
      empty_state-SoundState (refl, (refl, tt))
      ((omega arith, tt), ((omega arith, tt), tt), ((omega arith, tt), tt, tt)) updated

-- Nothing has changed, and one slot of the account was read.
abbrev no_change : HashedPostState
no_change = record { accounts = []; storages = [] }

abbrev pruned_walk : Walk
pruned_walk = record {
  state = updated_state;
  account_refs = reference external account_leaf ∷ [];
  storage_refs = (0x71 ∷ [], reference external (fill external slot_leaf) ∷ []) ∷ [];
}

walked :
    get_touched_nodes external updated_state no_change ((0x71 ∷ [], (0x11 ∷ []) ∷ []) ∷ [])
    ≡ ok pruned_walk
unfolding get_touched_nodes get_with_touched lookup beq to_nibs prefix_nibs
    get_internal_with_touched fill
walked = refl

leaf-IsCoherent :
    (address : List ℕ) (n : MptNode)
    → lookup updated_state.storage_tries address ≡ some n
    → IsCoherent external n
unfolding lookup
leaf-IsCoherent address n e = elim (Bool-cases (beq (0x71 ∷ []) address)) [
  | inl same ↦
      let e' = rw same at e in
      let e'' : fill external slot_leaf ≡ n = cc (e') in
      subst (IsCoherent external) e'' (fill-IsCoherent_lem external slot_leaf (tt, tt))
  | inr other ↦ let e' = rw other at e in absurd (cc)
]

prune-roots_example :
    (after : EthereumState) × (prune external updated_state no_change
        ((0x71 ∷ [], (0x11 ∷ []) ∷ []) ∷ [])
      ≡ ok after)
    × (state_root external after ≡ state_root external updated_state)
    × ((address : List ℕ)
        → hash external (trie_of after.storage_tries address)
          ≡ hash external (trie_of updated_state.storage_tries address))
prune-roots_example =
    prune-roots external updated_state no_change ((0x71 ∷ [], (0x11 ∷ []) ∷ []) ∷ []) pruned_walk
      (tt, tt) leaf-IsCoherent walked
