-- ===== src/State/ExecutionWitness/Validated.antt =====
-- crates/mpt/src/execution_witness.rs: what `build_validated_tries` has checked of the tries it
-- returns.
use pico_subblock.Prelude.{
  ℕ, ◌≡◌, refl, ap, sym, ◌∙◌, subst, true, not, Option, none, some, List, [], ◌∷◌, beq, Bool-cases,
  Option-cases, inl, inr, All,
}
use pico_subblock.Result.{Result, ok, err, panic, ◌>>=◌, ◌>>◌, assert_dec, unwrap_ok}
use pico_subblock.Result.Passed.{after_bind, after_check, after_assert, after_unwrap, ok_injective}
use pico_subblock.Mpt.{
  B256, Error, MptNode, MptNodeData, node, null, branch, leaf, extension, is_digest,
}
use pico_subblock.Mpt.Hash.{External, hash, fill, fill_data}
use pico_subblock.Mpt.Hash.Cache.{IsCoherent}
use pico_subblock.Mpt.Decode.{Rlp, decode}
use pico_subblock.Mpt.Leaves.{Nibbles, count, for_each_leaves}
use pico_subblock.Mpt.Resolve.{resolve_nodes}
use pico_subblock.Mpt.Resolve.Keeps.{IsIndexed, resolve_nodes-Same}
use pico_subblock.State.{EthereumState, TrieAccount, lookup, set_entry, get_rlp, after_hash}
use pico_subblock.State.Filled.{after_hash-Filled, hash-after_hash}
use pico_subblock.State.Prune.{B256_discrete}
use pico_subblock.State.Proofs.Decoded.{decode-IsCoherent, insert_nodes-IsIndexed}
use pico_subblock.State.ExecutionWitness.{
  WitnessError, mismatched_root, NodeMaps, no_nodes, index_nodes, root_or_digest, raw_storage_tries,
  build_storage_tries, validate_state_trie, or_message, found_account, check_root,
  validate_storage_tries, after_hashes, build_validated_tries,
}

All-set_entry {ℓ κ} :
    {A : Type ℓ} (P : B256 × A → Type κ) (entries : List (B256 × A)) (key : B256) (a : A)
    → All P entries
    → P (key, a)
    → All P (set_entry entries key a)
unfolding set_entry
All-set_entry P [] key a h p = (p, tt)
All-set_entry P ((k, b) ∷ entries) key a h p = elim (Bool-cases (beq k key)) [
  | inl same ↦ rw same (p, h.1)
  | inr other ↦ rw other (h.0, All-set_entry P entries key a h.1 p)
]

All-lookup {ℓ κ} :
    {A : Type ℓ} (P : A → Type κ) (entries : List (B256 × A)) (key : B256) (a : A)
    → All (λ (p : B256 × A). P p.1) entries
    → lookup entries key ≡ some a
    → P a
unfolding lookup
All-lookup P [] key a h e = absurd (cc)
All-lookup P ((k, b) ∷ entries) key a h e = elim (Bool-cases (beq k key)) [
  | inl same ↦ let e' = rw same at e in let ba : b ≡ a = cc (e') in subst P ba h.0
  | inr other ↦ let e' = rw other at e in All-lookup P entries key a h.1 e'
]

of_unwrapped :
    {A : Type 0} (m : Result Error A) (a : A) → unwrap_ok {E' = WitnessError} m ≡ ok a → m ≡ ok a
of_unwrapped (ok x) a h = ap ok (ok_injective h)
of_unwrapped (err e) a h = absurd (cc)
of_unwrapped panic a h = absurd (cc)

of_message : {A : Type 0} (m : Result Error A) (a : A) → or_message m ≡ ok a → m ≡ ok a
of_message (ok x) a h = ap ok (ok_injective h)
of_message (err e) a h = absurd (cc)
of_message panic a h = absurd (cc)

of_assert_dec {ℓ} : {P : Type ℓ} (d : Dec P) → assert_dec {E = WitnessError} d ≡ ok tt → P
of_assert_dec (yes p) e = p
of_assert_dec (no n) e = absurd (cc)

module _ (ext : External) (parser : Rlp) (nibbles : Nibbles)
    (decode_account : List ℕ → Option TrieAccount) where
  -- The nodes of a witness have right caches.
  record AreIndexed (maps : NodeMaps) : Type 0 where
    node_map : IsIndexed ext maps.node_map
    by_hash : All (λ (p : B256 × MptNode). IsCoherent ext p.1) maps.node_by_hash
    root : (root : B256) → IsCoherent ext (root_or_digest root maps.root_node)

  index_nodes-AreIndexed :
      (root : B256) (witness : List (List ℕ)) (maps after : NodeMaps)
      → AreIndexed maps
      → index_nodes ext parser nibbles decode_account root witness maps ≡ ok after
      → AreIndexed after
  unfolding index_nodes
  index_nodes-AreIndexed root [] maps after h e = subst AreIndexed (ok_injective e) h
  index_nodes-AreIndexed root (encoded ∷ witness) maps after h e =
      let a = after_bind (unwrap_ok (decode parser encoded)) _ after e in
      let c =
        decode-IsCoherent ext parser encoded a.0 (of_unwrapped (decode parser encoded) a.0 a.1) in
      index_nodes-AreIndexed root witness _ after
        (record {
          node_map = insert_nodes-IsIndexed ext parser (a.0 ∷ []) maps.node_map (c, tt) h.node_map;
          by_hash = All-set_entry _ maps.node_by_hash (ext.keccak encoded) a.0 h.by_hash c;
          root = λ r.
              chosen (B256_discrete (ext.keccak encoded) root) a.0 maps.root_node r c (h.root r);
        })
        a.2
    where
      chosen :
          (d : Dec (ext.keccak encoded ≡ root)) (n : MptNode) (o : Option MptNode) (r : B256)
          → IsCoherent ext n
          → IsCoherent ext (root_or_digest r o)
          → IsCoherent ext (root_or_digest r (elim d [ yes same ↦ some n | no differ ↦ o ]))
      chosen (yes same) n o r c h = c
      chosen (no differ) n o r c h = h

  abbrev IsRight : B256 × MptNode → Type 0
  IsRight p = IsCoherent ext p.1 × (not (is_digest p.1) ≡ true)

  storage_tries-AreRight :
      (fuel : ℕ) (maps : NodeMaps) (raw : List (B256 × B256)) (tries after : List (B256 × MptNode))
      → AreIndexed maps
      → All IsRight tries
      → build_storage_tries ext parser nibbles decode_account fuel maps raw tries ≡ ok after
      → All IsRight after
  unfolding build_storage_tries
  storage_tries-AreRight fuel maps [] tries after m h e = subst (All IsRight) (ok_injective e) h
  storage_tries-AreRight fuel maps ((address, root) ∷ raw) tries after m h e =
      elim (Option-cases (lookup maps.node_by_hash root)) [
        | inl missing ↦
            let e' = rw (build_storage_tries, missing) at e in
            storage_tries-AreRight fuel maps raw tries after m h e'
        | inr (n, found) ↦
            let e' = rw (build_storage_tries, found) at e in
            let a = after_unwrap (resolve_nodes maps.node_map fuel n) _ after e' in
            let b = after_assert (not (is_digest a.0)) _ after a.2 in
            let c = All-lookup (IsCoherent ext) maps.node_by_hash root n m.by_hash found in
            let s = resolve_nodes-Same ext maps.node_map m.node_map fuel n a.0 c a.1 in
            storage_tries-AreRight fuel maps raw (set_entry tries address a.0) after m
              (All-set_entry IsRight tries address a.0 h (s.1, b.0)) b.1
      ]

  -- The storage trie of an account of the state trie: its hash is the storage root of the account,
  -- its root node is there, and its caches are right.
  pub record IsStorageOf (state_trie : MptNode) (entry : B256 × MptNode) : Type 0 where
    pub account : TrieAccount
    pub read : get_rlp decode_account state_trie entry.0 ≡ ok (some account)
    pub root : hash ext entry.1 ≡ account.storage_root
    pub coherent : IsCoherent ext entry.1
    pub resolved : not (is_digest entry.1) ≡ true

  is_digest-after_hash : (n : MptNode) → is_digest (after_hash ext n) ≡ is_digest n
  unfolding after_hash is_digest fill fill_data
  is_digest-after_hash (node null c) = refl
  is_digest-after_hash (node (branch cs) none) = refl
  is_digest-after_hash (node (branch cs) (some r)) = refl
  is_digest-after_hash (node (leaf prefix value) none) = refl
  is_digest-after_hash (node (leaf prefix value) (some r)) = refl
  is_digest-after_hash (node (extension prefix n) none) = refl
  is_digest-after_hash (node (extension prefix n) (some r)) = refl
  is_digest-after_hash (node (MptNodeData.digest d) none) = refl
  is_digest-after_hash (node (MptNodeData.digest d) (some r)) = refl

  get_rlp-after_hash :
      (n : MptNode) (key : List ℕ)
      → get_rlp decode_account (after_hash ext n) key ≡ get_rlp decode_account n key
  unfolding get_rlp
  get_rlp-after_hash n key =
      ap
        (λ r. r >>= λ value. elim value [
          | none ↦ ok none
          | some b ↦ elim (decode_account b) [ some a ↦ ok (some a) | none ↦ err Error.rlp ]
        ])
        ((after_hash-Filled ext n).reads key)

  of_found_account :
      (o : Option TrieAccount) (a : TrieAccount) → found_account o ≡ ok a → o ≡ some a
  of_found_account none a e = absurd (cc)
  of_found_account (some b) a e = ap some (ok_injective e)

  of_check_root : (address root hash : B256) → check_root address root hash ≡ ok tt → root ≡ hash
  of_check_root address root hash e = go (B256_discrete root hash) e
    where
      go :
          (d : Dec (root ≡ hash))
          → ◌≡◌ {A = Result WitnessError (Unit {0})}
              (elim d [ yes same ↦ ok tt | no differ ↦ err (mismatched_root address root hash) ])
              (ok tt)
          → root ≡ hash
      go (yes same) e = same
      go (no differ) e = absurd (cc)

  validated :
      (state_trie : MptNode) (tries : List (B256 × MptNode))
      → All IsRight tries
      → validate_storage_tries ext parser nibbles decode_account state_trie tries ≡ ok tt
      → All
          (IsStorageOf (after_hash ext state_trie))
          (after_hashes ext parser nibbles decode_account tries)
  unfolding validate_storage_tries after_hashes
  validated state_trie [] h e = tt
  validated state_trie ((address, trie) ∷ tries) h e =
      let a = after_bind (or_message (get_rlp decode_account state_trie address)) _ tt e in
      let b = after_bind (found_account a.0) _ tt a.2 in
      let c = after_check (check_root address b.0.storage_root (hash ext trie)) _ tt b.2 in
      (
        record {
          account = b.0;
          read =
              get_rlp-after_hash state_trie address
              ∙ of_message (get_rlp decode_account state_trie address) a.0 a.1
              ∙ ap ok (of_found_account a.0 b.0 b.1);
          root =
              hash-after_hash ext trie
              ∙ sym (of_check_root address b.0.storage_root (hash ext trie) c.0);
          coherent = (after_hash-Filled ext trie).coherent h.0.0;
          resolved = ap not (is_digest-after_hash trie) ∙ h.0.1;
        },
        validated state_trie tries h.1 c.1,
      )

  pub record Validated (pre_state_root : B256) (state : EthereumState) : Type 0 where
    pub root : hash ext state.state_trie ≡ pre_state_root
    pub coherent : IsCoherent ext state.state_trie
    pub storage_tries : All (IsStorageOf state.state_trie) state.storage_tries

  none-AreIndexed : AreIndexed no_nodes
  none-AreIndexed = record { node_map = tt; by_hash = tt; root = λ r. (tt, tt) }

  -- When `build_validated_tries` returns a state, the hash of its state trie is the root that was
  -- asked for, each of its storage tries belongs to an account that reads from the state trie, has
  -- the storage root of that account as its hash, and is not a digest alone, and the caches of all
  -- tries are right: nothing is assumed of the witness.
  pub build_validated_tries-Validated :
      (fuel : ℕ) (witness : List (List ℕ)) (pre_state_root : B256) (state : EthereumState)
      → build_validated_tries ext parser nibbles decode_account fuel witness pre_state_root
        ≡ ok state
      → Validated pre_state_root state
  unfolding build_validated_tries validate_state_trie
  build_validated_tries-Validated fuel witness root state e =
      let a =
        after_bind (index_nodes ext parser nibbles decode_account root witness no_nodes) _ state
          e in
      let m = index_nodes-AreIndexed root witness no_nodes a.0 none-AreIndexed a.1 in
      let b =
        after_unwrap (resolve_nodes a.0.node_map fuel (root_or_digest root a.0.root_node)) _ state
          a.2 in
      let s =
        resolve_nodes-Same ext a.0.node_map m.node_map fuel (root_or_digest root a.0.root_node) b.0
          (m.root root) b.1 in
      let l = after_bind (for_each_leaves nibbles panic (count b.0) ((b.0, []) ∷ [])) _ state b.2 in
      let r = after_bind (raw_storage_tries ext parser nibbles decode_account l.0) _ state l.2 in
      let t =
        after_bind (build_storage_tries ext parser nibbles decode_account fuel a.0 r.0 []) _ state
          r.2 in
      let right = storage_tries-AreRight fuel a.0 r.0 [] t.0 m tt t.1 in
      let c =
        after_check
          (assert_dec (B256_discrete (hash ext b.0) root)
            >> validate_storage_tries ext parser nibbles decode_account b.0 t.0)
          _ state t.2 in
      let d = after_check (assert_dec (B256_discrete (hash ext b.0) root)) _ tt c.0 in
      subst (Validated root) (ok_injective c.1) (record {
        root = hash-after_hash ext b.0 ∙ of_assert_dec (B256_discrete (hash ext b.0) root) d.0;
        coherent = (after_hash-Filled ext b.0).coherent s.1;
        storage_tries = validated b.0 t.0 right d.1;
      })
