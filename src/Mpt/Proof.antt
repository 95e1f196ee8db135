-- ===== src/Mpt/Proof.antt =====
-- crates/mpt/src/mpt.rs: tries from EIP-1186 proofs (`mpt_from_proof`, `is_not_included`,
-- `shorten_node_path`). `FromProofError` is in crates/mpt/src/lib.rs.
pub mod Root
pub mod Exclusion
use pico_subblock.Prelude.{
  ℕ, zero, suc, ◌+◌, Bool, true, false, ◌||◌, Option, none, some, List, [], ◌∷◌, beq, if◌then◌else◌,
  drop, length,
}
use pico_subblock.Result.{Result, ok, err, panic, ◌>>=◌, unwrap_ok}
use pico_subblock.Path.{to_encoded_path, prefix_nibs}
use pico_subblock.Mpt.{
  B256, Error, MptNode, MptNodeData, MptNodeReference, Children, node, null, branch, leaf,
  extension, nil, vacant, child, from_data, default,
}
use pico_subblock.Mpt.Get.{get}
use pico_subblock.Mpt.Hash.{External, reference, fill, empty_root}

pub data FromProofError : Type 0 where
  node_not_found_by_hash : ℕ → FromProofError
  node_has_invalid_successor : ℕ → FromProofError
  node_cannot_have_children : ℕ → FromProofError
  mismatched_storage_root : List ℕ → B256 → B256 → FromProofError
  mismatched_state_root : B256 → B256 → FromProofError
  decoding_error : Error → FromProofError

-- `matches!(child.as_data(), MptNodeData::Digest(d) if d == child_ref)`
unfoldable pub is_digest_of : B256 → MptNode → Bool
is_digest_of child_ref (node (MptNodeData.digest d) c) = beq d child_ref
is_digest_of child_ref (node _ c) = false

-- `children.iter_mut().flatten().find(..)`, and the write where a child is found.
unfoldable pub replace_child : Children → B256 → MptNode → Option Children
unfolding is_digest_of
replace_child nil child_ref replacement = none
replace_child (vacant cs) child_ref replacement = elim (replace_child cs child_ref replacement) [
  | none ↦ none
  | some ds ↦ some (vacant ds)
]
replace_child (child n cs) child_ref replacement =
    let later : Option Children = elim (replace_child cs child_ref replacement) [
      | none ↦ none
      | some ds ↦ some (child n ds)
    ] in
    if is_digest_of child_ref n then some (child replacement cs) else later

-- Node `i` with the child that is referred to by `child_ref` replaced.
unfoldable pub resolved : ℕ → MptNodeData → B256 → MptNode → Result FromProofError MptNode
unfolding replace_child
resolved i (branch cs) child_ref replacement = elim (replace_child cs child_ref replacement) [
  | some ds ↦ ok (from_data (branch ds))
  | none ↦ err (node_has_invalid_successor i)
]
resolved i (extension prefix n) child_ref replacement =
    if is_digest_of child_ref n
    then ok (from_data (extension prefix replacement))
    else err (node_has_invalid_successor i)
resolved i null child_ref replacement = err (node_cannot_have_children i)
resolved i (leaf prefix value) child_ref replacement = err (node_cannot_have_children i)
resolved i (MptNodeData.digest d) child_ref replacement = err (node_cannot_have_children i)

-- `B256::ZERO`
abbrev pub zero_digest : B256
zero_digest =
    0 ∷ 0 ∷ 0 ∷ 0 ∷ 0 ∷ 0 ∷ 0 ∷ 0 ∷ 0 ∷ 0 ∷ 0 ∷ 0 ∷ 0 ∷ 0 ∷ 0 ∷ 0 ∷ 0 ∷ 0 ∷ 0 ∷ 0 ∷ 0 ∷ 0 ∷ 0 ∷ 0
    ∷ 0 ∷ 0 ∷ 0 ∷ 0 ∷ 0 ∷ 0 ∷ 0 ∷ 0 ∷ []

-- `impl From<B256> for MptNode` and `node_from_digest`
unfoldable pub node_from_digest : B256 → MptNode
node_from_digest digest =
    if beq digest empty_root || beq digest zero_digest
    then default
    else from_data (MptNodeData.digest digest)

unfoldable pub is_none : Option (List ℕ) → Bool
is_none none = true
is_none (some value) = false

module _ (ext : External) where
  -- One turn of the loop, with the node made from what follows. `reference` fills the cache of the
  -- replacement.
  unfoldable pub attach : ℕ → MptNode → MptNode → Result FromProofError MptNode
  unfolding resolved
  attach i (node d c) replacement = elim (reference ext replacement) [
    | MptNodeReference.digest child_ref ↦ resolved i d child_ref (fill ext replacement)
    | MptNodeReference.bytes b ↦ err (node_not_found_by_hash (i + 1))
  ]

  -- The loop, from the last node to node `i`: the value of `next`.
  unfoldable pub from_node : ℕ → List MptNode → Result FromProofError (Option MptNode)
  unfolding attach
  from_node i [] = ok none
  from_node i (n ∷ nodes) = do
    next ← from_node (i + 1) nodes
    elim next [
      | none ↦ ok (some n)
      | some replacement ↦ (do r ← attach i n replacement; ok (some r))
    ]

  -- `next.unwrap_or_default()`
  unfoldable pub mpt_from_proof : List MptNode → Result FromProofError MptNode
  unfolding from_node
  mpt_from_proof nodes = do
    next ← from_node 0 nodes
    elim next [ none ↦ ok default | some n ↦ ok n ]

  -- The two `unwrap`s panic on an error.
  unfoldable pub is_not_included : List ℕ → List MptNode → Result FromProofError Bool
  unfolding mpt_from_proof is_none
  is_not_included key nodes = do
    trie ← unwrap_ok (mpt_from_proof nodes)
    value ← unwrap_ok (get trie key)
    ok (is_none value)

-- `for i in 0..=nibs.len()`: what each start of the path gives.
unfoldable pub suffixes : List ℕ → List (List ℕ)
suffixes [] = [] ∷ []
suffixes (n ∷ nibs) = (n ∷ nibs) ∷ suffixes nibs

unfoldable pub leaves_of : List (List ℕ) → List ℕ → List MptNode
leaves_of [] value = []
leaves_of (p ∷ paths) value =
    from_data (leaf (to_encoded_path p true) value) ∷ leaves_of paths value

unfoldable pub extensions_of : List (List ℕ) → MptNode → List MptNode
extensions_of [] n = []
extensions_of (p ∷ paths) n =
    from_data (extension (to_encoded_path p false) n) ∷ extensions_of paths n

unfoldable pub shorten_node_path : MptNode → Result Error (List MptNode)
unfolding suffixes leaves_of extensions_of
shorten_node_path (node null c) = ok []
shorten_node_path (node (branch cs) c) = ok []
shorten_node_path (node (MptNodeData.digest d) c) = ok []
shorten_node_path (node (leaf prefix value) c) = do
  nibs ← prefix_nibs prefix
  ok (leaves_of (suffixes nibs) value)
shorten_node_path (node (extension prefix n) c) = do
  nibs ← prefix_nibs prefix
  ok (extensions_of (suffixes nibs) n)
