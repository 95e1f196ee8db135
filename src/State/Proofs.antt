-- ===== src/State/Proofs.antt =====
-- crates/mpt/src/mpt.rs: the tries of a state from EIP-1186 proofs (`proofs_to_tries`,
-- `transition_proofs_to_tries`, `add_orphaned_leafs`). reth's `AccountProof` and `StorageProof` are
-- records of the fields that are read. Where `resolve_nodes` does not return, its recursion
-- overflows the stack: that is a panic.
pub mod Decoded
pub mod Used
pub mod Checked
pub mod Rooted
pub mod Transition
mod Tests
use pico_subblock.Prelude.{ℕ, Bool, true, false, Option, none, some, List, [], ◌∷◌, if◌then◌else◌}
use pico_subblock.Result.{Result, ok, err, panic, ◌>>=◌, unwrap, unwrap_ok}
use pico_subblock.Mpt.{B256, Error, MptNode, MptNodeReference, default}
use pico_subblock.Mpt.Hash.{External, reference, fill, hash}
use pico_subblock.Mpt.Decode.{Rlp, parse_proof}
use pico_subblock.Mpt.Resolve.{Store, resolve_nodes}
use pico_subblock.Mpt.Proof.{
  FromProofError, decoding_error, mismatched_storage_root, mismatched_state_root, mpt_from_proof,
  is_not_included, shorten_node_path, node_from_digest,
}
use pico_subblock.State.{EthereumState, lookup, set_entry, after_hash}
use pico_subblock.State.Prune.{B256_discrete}

pub record StorageProof : Type 0 where
  pub key : B256
  pub proof : List (List ℕ)

pub record AccountProof : Type 0 where
  pub proof : List (List ℕ)
  pub storage_root : B256
  pub storage_proofs : List StorageProof

-- `?` on a decoding error
abbrev pub or_decoding {ℓ} : {A : Type ℓ} → Result Error A → Result FromProofError A
or_decoding (ok a) = ok a
or_decoding (err e) = err (decoding_error e)
or_decoding panic = panic

-- The root node and the nodes by reference, as they are gathered from the proofs.
pub record Gathered : Type 0 where
  pub root : MptNode
  pub nodes : Store

abbrev pub nothing_gathered : Gathered
nothing_gathered = record { root = default; nodes = [] }

-- `if let Some(node) = proof_nodes.first()`
unfoldable pub first_or : List MptNode → MptNode → MptNode
first_or [] root = root
first_or (n ∷ nodes) root = n

unfoldable pub last : List MptNode → Option MptNode
last [] = none
last (n ∷ []) = some n
last (n ∷ m ∷ nodes) = last (m ∷ nodes)

module _ (ext : External) (parser : Rlp) where
  -- `nodes.insert(node.reference(), node)` for each: the call fills the cache of the node.
  unfoldable pub insert_nodes : Store → List MptNode → Store
  insert_nodes store [] = store
  insert_nodes store (n ∷ nodes) = insert_nodes ((reference ext n, fill ext n) ∷ store) nodes

  -- A proof, whose nodes must fit together.
  unfoldable pub add_proof : Gathered → List (List ℕ) → Result FromProofError Gathered
  unfolding first_or insert_nodes
  add_proof g proof = do
    nodes ← unwrap_ok (parse_proof parser proof)
    trie ← unwrap_ok {E' = FromProofError} (mpt_from_proof ext nodes)
    ok (record { root = first_or nodes g.root; nodes = insert_nodes g.nodes nodes })

  unfoldable pub add_storage_proofs : Gathered → List StorageProof → Result FromProofError Gathered
  unfolding add_proof
  add_storage_proofs g [] = ok g
  add_storage_proofs g (p ∷ proofs) = do g' ← add_proof g p.proof; add_storage_proofs g' proofs

  -- `resolve_nodes`, and the test of the hash. The caches that the test fills stay.
  unfoldable pub resolve_checked :
      ℕ → Gathered → B256 → (B256 → FromProofError) → Result FromProofError MptNode
  unfolding after_hash
  resolve_checked fuel g root mismatch = do
    trie ← unwrap (resolve_nodes g.nodes fuel g.root)
    elim (B256_discrete (hash ext trie) root) [
      | yes same ↦ ok (after_hash ext trie)
      | no differ ↦ err (mismatch (hash ext trie))
    ]

  abbrev pub storage_mismatch : List ℕ → B256 → B256 → FromProofError
  storage_mismatch address expected found = mismatched_storage_root address found expected

  abbrev pub state_mismatch : B256 → B256 → FromProofError
  state_mismatch expected found = mismatched_state_root found expected

  -- The storage trie of an account.
  unfoldable pub storage_trie : ℕ → List ℕ → AccountProof → Result FromProofError MptNode
  unfolding add_storage_proofs resolve_checked
  storage_trie fuel address proof = elim proof.storage_proofs [
    | [] ↦ ok (node_from_digest proof.storage_root)
    | p ∷ proofs ↦ do
      g ← add_storage_proofs nothing_gathered (p ∷ proofs)
      resolve_checked fuel g proof.storage_root (storage_mismatch address proof.storage_root)
  ]

  -- The loop over the accounts.
  unfoldable pub add_accounts :
      ℕ
      → Gathered
      → List (B256 × MptNode)
      → List (List ℕ × AccountProof)
      → Result FromProofError (Gathered × List (B256 × MptNode))
  unfolding add_proof storage_trie
  add_accounts fuel g storage [] = ok (g, storage)
  add_accounts fuel g storage ((address, proof) ∷ proofs) = do
    g' ← add_proof g proof.proof
    trie ← storage_trie fuel address proof
    add_accounts fuel g' (set_entry storage (ext.keccak address) trie) proofs

  unfoldable pub proofs_to_tries :
      ℕ → B256 → List (List ℕ × AccountProof) → Result FromProofError EthereumState
  unfolding add_accounts resolve_checked
  proofs_to_tries fuel state_root [] =
      ok (record { state_trie = node_from_digest state_root; storage_tries = [] })
  proofs_to_tries fuel state_root (p ∷ proofs) = do
    r ← add_accounts fuel nothing_gathered [] (p ∷ proofs)
    state_trie ← resolve_checked fuel r.0 state_root (state_mismatch state_root)
    ok (record { state_trie = state_trie; storage_tries = r.1 })

  unfoldable pub add_orphaned_leafs : List ℕ → List (List ℕ) → Store → Result FromProofError Store
  unfolding last insert_nodes
  add_orphaned_leafs key [] store = ok store
  add_orphaned_leafs key (bytes ∷ proof) store = do
    nodes ← or_decoding (parse_proof parser (bytes ∷ proof))
    excluded ← is_not_included ext (ext.keccak key) nodes
    if excluded
        then (do
          leaf ← unwrap (last nodes)
          shortened ← unwrap_ok (shorten_node_path leaf)
          ok (insert_nodes store shortened))
        else ok store

  unfoldable pub add_orphaned_slots : List StorageProof → Store → Result FromProofError Store
  unfolding add_orphaned_leafs
  add_orphaned_slots [] store = ok store
  add_orphaned_slots (p ∷ proofs) store = do
    store' ← add_orphaned_leafs p.key p.proof store
    add_orphaned_slots proofs store'

  unfoldable pub transition_storage_trie :
      ℕ → List ℕ → AccountProof → AccountProof → Result FromProofError MptNode
  unfolding add_storage_proofs resolve_checked add_orphaned_slots
  transition_storage_trie fuel address proof fini_proofs = elim proof.storage_proofs [
    | [] ↦ ok (node_from_digest proof.storage_root)
    | p ∷ proofs ↦ do
      g ← add_storage_proofs nothing_gathered (p ∷ proofs)
      nodes ← add_orphaned_slots fini_proofs.storage_proofs g.nodes
      resolve_checked fuel (record { root = g.root; nodes = nodes }) proof.storage_root
          (storage_mismatch address proof.storage_root)
  ]

  unfoldable pub add_transition_accounts :
      ℕ
      → List (List ℕ × AccountProof)
      → Gathered
      → List (B256 × MptNode)
      → List (List ℕ × AccountProof)
      → Result FromProofError (Gathered × List (B256 × MptNode))
  unfolding add_proof add_orphaned_leafs transition_storage_trie lookup set_entry
  add_transition_accounts fuel fini g storage [] = ok (g, storage)
  add_transition_accounts fuel fini g storage ((address, proof) ∷ proofs) = do
    g' ← add_proof g proof.proof
    fini_proofs ← unwrap (lookup fini address)
    nodes ← add_orphaned_leafs address fini_proofs.proof g'.nodes
    trie ← transition_storage_trie fuel address proof fini_proofs
    add_transition_accounts fuel fini (record { root = g'.root; nodes = nodes })
        (set_entry storage (ext.keccak address) trie) proofs

  unfoldable pub transition_proofs_to_tries :
      ℕ
      → B256
      → List (List ℕ × AccountProof)
      → List (List ℕ × AccountProof)
      → Result FromProofError EthereumState
  unfolding add_transition_accounts resolve_checked
  transition_proofs_to_tries fuel state_root [] proofs =
      ok (record { state_trie = node_from_digest state_root; storage_tries = [] })
  transition_proofs_to_tries fuel state_root (p ∷ parent_proofs) proofs = do
    r ← add_transition_accounts fuel proofs nothing_gathered [] (p ∷ parent_proofs)
    state_trie ← resolve_checked fuel r.0 state_root (state_mismatch state_root)
    ok (record { state_trie = state_trie; storage_tries = r.1 })
