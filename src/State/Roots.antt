-- ===== src/State/Roots.antt =====
-- crates/mpt/src/lib.rs: `EthereumState::prune` ends as its walk does, and keeps the roots.
use mathlib.Core.List.{List, [], ◌∷◌}
use pico_subblock.Prelude.{
  ◌≡◌, refl, ap, sym, ◌∙◌, none, some, beq, eq_of_beq, Bool-cases, inl, inr,
}
use pico_subblock.Result.{ok, ◌>>◌, assert_dec}
use pico_subblock.Mpt.{B256, Error, MptNode}
use pico_subblock.Mpt.Hash.{External, hash}
use pico_subblock.Mpt.Hash.Cache.{IsCoherent}
use pico_subblock.Mpt.Touched.{prune_unmarked_nodes}
use pico_subblock.Mpt.Touched.Prune.{hash-prune}
use pico_subblock.State.{
  EthereumState, HashedPostState, lookup, set_entry, trie_of, after_hash, state_root,
}
use pico_subblock.State.Filled.{after_hash-Filled, hash-after_hash}
use pico_subblock.State.Accounts.{lookup-set_entry, trie_of-set_entry}
use pico_subblock.State.Prune.{
  B256_discrete, Refs, StorageRefs, Walk, get_touched_nodes, prune_trie, prune_storage, prune,
}
use pico_subblock.State.Pruned.{Covers, get_touched_nodes-Walking, unlike}

assert_dec_holds {ℓ} : {P : Type ℓ} (d : Dec P) → P → assert_dec {E = Error} d ≡ ok tt
assert_dec_holds (yes p) q = refl
assert_dec_holds (no n) q = absurd (n q)

module _ (ext : External) where
  prune_trie-hash :
      (n : MptNode) (refs : Refs)
      → IsCoherent ext n
      → (m : MptNode) × (prune_trie ext n refs ≡ ok m) × (hash ext m ≡ hash ext n)
  unfolding prune_trie
  prune_trie-hash n refs h =
      let pruned = prune_unmarked_nodes ext (after_hash ext n) refs in
      let same : hash ext pruned ≡ hash ext n =
        (hash-prune ext (after_hash ext n) refs ((after_hash-Filled ext n).coherent h)).0
        ∙ hash-after_hash ext n in
      (
        after_hash ext pruned,
        ap (λ m. m >> ok (after_hash ext pruned))
            (assert_dec_holds (B256_discrete (hash ext n) (hash ext pruned)) (sym same)),
        hash-after_hash ext pruned ∙ same,
      )

  -- The storage tries that are still to be pruned are there, and their caches are right.
  abbrev Ready : List (B256 × MptNode) → StorageRefs → Type 0
  Ready tries [] = Unit
  Ready tries ((address, refs) ∷ storage_refs) =
      (lookup storage_refs address ≡ none)
      × ((n : MptNode) × (lookup tries address ≡ some n) × IsCoherent ext n)
      × Ready tries storage_refs

  Covers-Ready :
      (tries : List (B256 × MptNode)) (storage_refs : StorageRefs)
      → ((address : B256) (n : MptNode) → lookup tries address ≡ some n → IsCoherent ext n)
      → Covers tries storage_refs
      → Ready tries storage_refs
  Covers-Ready tries [] h c = tt
  Covers-Ready tries ((address, refs) ∷ rest) h c =
      (c.0, (c.1.0, c.1.1, h address c.1.0 c.1.1), Covers-Ready tries rest h c.2)

  Ready-set_entry :
      (tries : List (B256 × MptNode)) (storage_refs : StorageRefs) (key : B256) (n : MptNode)
      → lookup storage_refs key ≡ none
      → Ready tries storage_refs
      → Ready (set_entry tries key n) storage_refs
  unfolding lookup
  Ready-set_entry tries [] key n e r = tt
  Ready-set_entry tries ((k, refs) ∷ rest) key n e r = elim (Bool-cases (beq k key)) [
    | inl same ↦ let wrong = rw same at e in absurd (cc)
    | inr other ↦
        let e' = rw other at e in
        let kept = lookup-set_entry tries key n k ∙ rw (unlike k key other) refl in
        (r.0, (r.1.0, kept ∙ r.1.1, r.1.2), Ready-set_entry tries rest key n e' r.2)
  ]

  trie_of-lookup :
      (tries : List (B256 × MptNode)) (key : B256) (n : MptNode)
      → lookup tries key ≡ some n
      → trie_of tries key ≡ n
  unfolding trie_of
  trie_of-lookup tries key n e = rw (e, trie_of) refl

  prune_storage-hash :
      (tries : List (B256 × MptNode)) (storage_refs : StorageRefs)
      → Ready tries storage_refs
      → (after : List (B256 × MptNode)) × (prune_storage ext tries storage_refs ≡ ok after)
        × ((address : B256) → hash ext (trie_of after address) ≡ hash ext (trie_of tries address))
  unfolding prune_storage
  prune_storage-hash tries [] r = (tries, refl, λ address. refl)
  prune_storage-hash tries ((k, refs) ∷ rest) r =
      let found = r.1.1 in
      let pruned = prune_trie-hash r.1.0 refs r.1.2 in
      let next =
        prune_storage-hash (set_entry tries k pruned.0) rest
          (Ready-set_entry tries rest k pruned.0 r.0 r.2) in
      (
        next.0,
        rw found (rw pruned.1 next.1),
        λ j.
            next.2 j
            ∙ ap (hash ext) (trie_of-set_entry tries k pruned.0 j)
            ∙ elim (Bool-cases (beq k j)) [
              | inl same ↦
                  let e : k ≡ j = eq_of_beq k j same in
                  rw same (
                    pruned.2
                    ∙ ap (hash ext) (sym (trie_of-lookup tries k r.1.0 found))
                    ∙ ap (λ x. hash ext (trie_of tries x)) e)
              | inr other ↦ rw other refl
            ],
      )

  -- Where the caches of all tries agree with their data, `prune` returns whenever its walk over the
  -- touched nodes does: its assertions hold, and each storage trie that it prunes is there. The
  -- state root and the hash of every storage trie are those of before.
  pub prune-roots :
      (state : EthereumState) (state_diff : HashedPostState)
      (touched_state : List (B256 × List B256)) (w : Walk)
      → IsCoherent ext state.state_trie
      → ((address : B256) (n : MptNode)
          → lookup state.storage_tries address ≡ some n
          → IsCoherent ext n)
      → get_touched_nodes ext state state_diff touched_state ≡ ok w
      → (after : EthereumState) × (prune ext state state_diff touched_state ≡ ok after)
        × (state_root ext after ≡ state_root ext state)
        × ((address : B256)
            → hash ext (trie_of after.storage_tries address)
              ≡ hash ext (trie_of state.storage_tries address))
  unfolding prune state_root
  prune-roots state state_diff touched_state w h hs e =
      let covers = (get_touched_nodes-Walking ext state state_diff touched_state w e).covers in
      let trie = prune_trie-hash state.state_trie w.account_refs h in
      let tries =
        prune_storage-hash state.storage_tries w.storage_refs
          (Covers-Ready state.storage_tries w.storage_refs hs covers) in
      (
        record { state_trie = trie.0; storage_tries = tries.0 },
        rw e (rw trie.1 (rw tries.1 refl)),
        trie.2,
        tries.2,
      )
