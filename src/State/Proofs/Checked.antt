-- ===== src/State/Proofs/Checked.antt =====
-- crates/mpt/src/mpt.rs: the parts of `proofs_to_tries` and `transition_proofs_to_tries`, and what
-- each has checked.
use pico_subblock.Prelude.{
  ℕ, ◌≡◌, refl, sym, ◌∙◌, subst, ◌⊎◌, inl, inr, some, List, [], ◌∷◌, beq, beq_refl, eq_of_beq, All,
  Bool-cases,
}
use pico_subblock.Result.{ok, err, ◌>>=◌, unwrap_ok}
use pico_subblock.Result.Passed.{after_bind, after_unwrap, ok_injective}
use pico_subblock.Mpt.{B256, MptNode}
use pico_subblock.Mpt.Hash.{External, hash}
use pico_subblock.Mpt.Hash.Cache.{IsCoherent}
use pico_subblock.Mpt.Decode.{Rlp, parse_proof}
use pico_subblock.Mpt.Resolve.{resolve_nodes}
use pico_subblock.Mpt.Resolve.Keeps.{IsIndexed, resolve_nodes-Same}
use pico_subblock.Mpt.Proof.{FromProofError, mpt_from_proof, node_from_digest}
use pico_subblock.State.{lookup, set_entry, after_hash}
use pico_subblock.State.Filled.{after_hash-Filled, hash-after_hash}
use pico_subblock.State.Accounts.{lookup-set_entry}
use pico_subblock.State.Pruned.{Has}
use pico_subblock.State.Prune.{B256_discrete}
use pico_subblock.State.Proofs.{
  AccountProof, StorageProof, Gathered, nothing_gathered, first_or, add_proof, add_storage_proofs,
  resolve_checked, storage_mismatch, storage_trie,
}
use pico_subblock.State.Proofs.Used.{
  of_unwrapped, IsUsed, HasNodes, proofs_of, add_storage_proofs-HasNodes, resolved-IsUsed,
}
use pico_subblock.State.Proofs.Decoded.{parse_proof-All, insert_nodes-IsIndexed}

Has-write :
    (tries : List (B256 × MptNode)) (key : B256) (n : MptNode) (j : B256)
    → Has tries j
    → Has (set_entry tries key n) j
Has-write tries key n j x = elim (Bool-cases (beq key j)) [
  | inl same ↦ (n, lookup-set_entry tries key n j ∙ rw same refl)
  | inr other ↦ (x.0, lookup-set_entry tries key n j ∙ rw other x.1)
]

module _ (ext : External) (parser : Rlp) where
  -- The root and the nodes gathered have right caches, and each node stands under its reference.
  abbrev pub IsGood : Gathered → Type 0
  IsGood g = IsCoherent ext g.root × IsIndexed ext g.nodes

  -- The trie of a root for which these proofs are given: without any it is the node of the root;
  -- else it has that hash, holds every node of the proofs, and its caches are right.
  abbrev pub IsAnchored : MptNode → B256 → List (List (List ℕ)) → Type 0
  IsAnchored trie root [] = trie ≡ node_from_digest root
  IsAnchored trie root (p ∷ proofs) =
      IsCoherent ext trie × (hash ext trie ≡ root) × All (IsUsed ext parser trie) (p ∷ proofs)

  pub nothing-IsGood : IsGood nothing_gathered
  nothing-IsGood = ((tt, tt), tt)

  first_or-IsCoherent :
      (nodes : List MptNode) (n : MptNode)
      → All (IsCoherent ext) nodes
      → IsCoherent ext n
      → IsCoherent ext (first_or nodes n)
  unfolding first_or
  first_or-IsCoherent [] n h k = k
  first_or-IsCoherent (m ∷ nodes) n h k = h.0

  pub add_proof-IsGood :
      (g after : Gathered) (proof : List (List ℕ))
      → IsGood g
      → add_proof ext parser g proof ≡ ok after
      → IsGood after
  unfolding add_proof
  add_proof-IsGood g after proof h e =
      let a = after_bind (unwrap_ok (parse_proof parser proof)) _ after e in
      let b = after_bind (unwrap_ok (mpt_from_proof ext a.0)) _ after a.2 in
      let all =
        parse_proof-All ext parser proof a.0 (of_unwrapped (parse_proof parser proof) a.0 a.1) in
      subst IsGood (ok_injective b.2) (
        (
          first_or-IsCoherent a.0 g.root all h.0,
          insert_nodes-IsIndexed ext parser a.0 g.nodes all h.1,
        ))

  pub add_storage_proofs-IsGood :
      (proofs : List StorageProof) (g after : Gathered)
      → IsGood g
      → add_storage_proofs ext parser g proofs ≡ ok after
      → IsGood after
  unfolding add_storage_proofs
  add_storage_proofs-IsGood [] g after h e = subst IsGood (ok_injective e) h
  add_storage_proofs-IsGood (p ∷ proofs) g after h e =
      let a = after_bind (add_proof ext parser g p.proof) _ after e in
      add_storage_proofs-IsGood proofs a.0 after (add_proof-IsGood g a.0 p.proof h a.1) a.2

  checked :
      (trie m : MptNode) (root : B256) (mismatch : B256 → FromProofError)
      (d : Dec (hash ext trie ≡ root))
      → elim d [ yes same ↦ ok (after_hash ext trie) | no differ ↦ err (mismatch (hash ext trie)) ]
        ≡ ok m
      → (after_hash ext trie ≡ m) × (hash ext trie ≡ root)
  checked trie m root mismatch (yes same) e = (ok_injective e, same)
  checked trie m root mismatch (no differ) e = absurd (cc)

  pub resolve_checked-IsAnchored :
      (fuel : ℕ) (g : Gathered) (root : B256) (mismatch : B256 → FromProofError) (m : MptNode)
      (p : List (List ℕ)) (proofs : List (List (List ℕ)))
      → IsGood g
      → All (HasNodes ext parser g.nodes) (p ∷ proofs)
      → resolve_checked ext parser fuel g root mismatch ≡ ok m
      → IsAnchored m root (p ∷ proofs)
  unfolding resolve_checked
  resolve_checked-IsAnchored fuel g root mismatch m p proofs h u e =
      let a = after_unwrap (resolve_nodes g.nodes fuel g.root) _ m e in
      let c = checked a.0 m root mismatch (B256_discrete (hash ext a.0) root) a.2 in
      let s = resolve_nodes-Same ext g.nodes h.1 fuel g.root a.0 h.0 a.1 in
      subst (λ x. IsAnchored x root (p ∷ proofs)) c.0
        ((
          (after_hash-Filled ext a.0).coherent s.1,
          hash-after_hash ext a.0 ∙ c.1,
          resolved-IsUsed ext parser g.nodes fuel g.root a.0 (p ∷ proofs) a.1 u,
        ))

  pub storage_trie-IsAnchored :
      (fuel : ℕ) (address : List ℕ) (proof : AccountProof) (m : MptNode)
      → storage_trie ext parser fuel address proof ≡ ok m
      → IsAnchored m proof.storage_root (proofs_of ext parser proof.storage_proofs)
  unfolding storage_trie
  storage_trie-IsAnchored fuel address proof m e = cases proof.storage_proofs e
    where
      cases :
          (l : List StorageProof)
          → elim l [
            | [] ↦ ok (node_from_digest proof.storage_root)
            | p ∷ proofs ↦
                (add_storage_proofs ext parser nothing_gathered (p ∷ proofs) >>= λ g.
                resolve_checked ext parser fuel g proof.storage_root
                  (storage_mismatch ext parser address proof.storage_root))
          ]
            ≡ ok m
          → IsAnchored m proof.storage_root (proofs_of ext parser l)
      cases [] e = sym (ok_injective e)
      cases (p ∷ proofs) e =
          let a = after_bind (add_storage_proofs ext parser nothing_gathered (p ∷ proofs)) _ m e in
          resolve_checked-IsAnchored fuel a.0 proof.storage_root
            (storage_mismatch ext parser address proof.storage_root) m p.proof
            (proofs_of ext parser proofs)
            (add_storage_proofs-IsGood (p ∷ proofs) nothing_gathered a.0 nothing-IsGood a.1)
            (add_storage_proofs-HasNodes ext parser (p ∷ proofs) nothing_gathered a.0 a.1).1 a.2

  -- The trie is that of one of the accounts.
  abbrev pub IsOf : List (List ℕ × AccountProof) → B256 → MptNode → Type 0
  IsOf [] key trie = ⊥
  IsOf ((address, proof) ∷ proofs) key trie =
      ((ext.keccak address ≡ key)
        × IsAnchored trie proof.storage_root (proofs_of ext parser proof.storage_proofs))
      ⊎ IsOf proofs key trie

  -- What a loop over the accounts has done with the storage tries.
  pub record Collected (proofs : List (List ℕ × AccountProof))
      (before after : List (B256 × MptNode)) : Type 0 where
    pub old_or_of :
        (key : B256) (trie : MptNode)
        → lookup after key ≡ some trie
        → (lookup before key ≡ some trie) ⊎ IsOf proofs key trie
    pub kept : (key : B256) → Has before key → Has after key
    pub present : All (λ (p : List ℕ × AccountProof). Has after (ext.keccak p.0)) proofs

  pub Collected-step :
      (address : List ℕ) (proof : AccountProof) (proofs : List (List ℕ × AccountProof))
      (before after : List (B256 × MptNode)) (trie : MptNode)
      → IsAnchored trie proof.storage_root (proofs_of ext parser proof.storage_proofs)
      → Collected proofs (set_entry before (ext.keccak address) trie) after
      → Collected ((address, proof) ∷ proofs) before after
  Collected-step address proof proofs before after trie h c = record {
    old_or_of = λ key t e. elim (c.old_or_of key t e) [
      | inr of ↦ inr (inr of)
      | inl old ↦ elim (Bool-cases (beq (ext.keccak address) key)) [
        | inl same ↦
            let now : lookup (set_entry before (ext.keccak address) trie) key ≡ some trie =
              lookup-set_entry before (ext.keccak address) trie key ∙ rw same refl in
            let x : some trie ≡ some t = sym now ∙ old in
            let t' : trie ≡ t = cc (x) in
            inr (
              inl (
                eq_of_beq (ext.keccak address) key same,
                subst
                    (λ y.
                      IsAnchored y proof.storage_root (proofs_of ext parser proof.storage_proofs))
                    t' h,
              ))
        | inr other ↦
            let now : lookup (set_entry before (ext.keccak address) trie) key ≡ lookup before key =
              lookup-set_entry before (ext.keccak address) trie key ∙ rw other refl in
            inl (sym now ∙ old)
      ]
    ];
    kept = λ key x. c.kept key (Has-write before (ext.keccak address) trie key x);
    present = (
      c.kept (ext.keccak address) (
        trie,
        lookup-set_entry before (ext.keccak address) trie (ext.keccak address)
            ∙ rw (beq_refl (ext.keccak address)) refl,
      ),
      c.present,
    );
  }
