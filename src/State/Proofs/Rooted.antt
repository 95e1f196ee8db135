-- ===== src/State/Proofs/Rooted.antt =====
-- crates/mpt/src/mpt.rs: what `proofs_to_tries` and `transition_proofs_to_tries` have checked of
-- the tries that they return.
use pico_subblock.Prelude.{ℕ, ◌≡◌, refl, inl, inr, some, List, [], ◌∷◌, All}
use pico_subblock.Mpt.{B256, MptNode}
use pico_subblock.Mpt.Hash.{External}
use pico_subblock.Mpt.Decode.{Rlp}
use pico_subblock.Mpt.Proof.{node_from_digest}
use pico_subblock.State.{EthereumState, lookup}
use pico_subblock.State.Pruned.{Has}
use pico_subblock.State.Proofs.{AccountProof}
use pico_subblock.State.Proofs.Checked.{IsAnchored, IsOf, Collected}

-- The proofs of the accounts in the state trie.
abbrev pub account_proofs : List (List ℕ × AccountProof) → List (List (List ℕ))
account_proofs [] = []
account_proofs ((address, proof) ∷ proofs) = proof.proof ∷ account_proofs proofs

module _ (ext : External) (parser : Rlp) where
  -- The tries that were asked for: the state trie has the root, each storage trie is that of one of
  -- the accounts with the root that its proof gives, and each account has one. What is said of a
  -- trie depends on the proofs that are given for it.
  pub record Rooted (root : B256) (proofs : List (List ℕ × AccountProof)) (state : EthereumState)
      : Type 0 where
    pub state_trie : IsAnchored ext parser state.state_trie root (account_proofs proofs)
    pub storage_tries :
        (key : B256) (trie : MptNode)
        → lookup state.storage_tries key ≡ some trie
        → IsOf ext parser proofs key trie
    pub present :
        All (λ (p : List ℕ × AccountProof). Has state.storage_tries (ext.keccak p.0)) proofs

  pub from_Collected :
      (root : B256) (proofs : List (List ℕ × AccountProof)) (state : EthereumState)
      → IsAnchored ext parser state.state_trie root (account_proofs proofs)
      → Collected ext parser proofs [] state.storage_tries
      → Rooted root proofs state
  unfolding lookup
  from_Collected root proofs state h c = record {
    state_trie = h;
    storage_tries =
        λ key trie e. elim (c.old_or_of key trie e) [ inl old ↦ absurd (cc (old)) | inr of ↦ of ];
    present = c.present;
  }

  pub nothing_asked :
      (root : B256)
      → Rooted root [] (record { state_trie = node_from_digest root; storage_tries = [] })
  unfolding lookup
  nothing_asked root = record {
    state_trie = refl;
    storage_tries = λ key trie e. absurd (cc (e));
    present = tt;
  }
