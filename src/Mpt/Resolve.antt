-- ===== src/Mpt/Resolve.antt =====
-- crates/mpt/src/mpt.rs: `resolve_nodes`. The node store is a hash map: the list of what was
-- inserted, the latest first. The recursion has fuel: for a store with a cycle the source does not
-- return.
pub mod Keeps
pub mod Returns
mod Tests
use pico_subblock.Prelude.{
  ℕ, zero, suc, Bool, true, false, Option, none, some, List, [], ◌∷◌, if◌then◌else◌,
}
use pico_subblock.Mpt.{
  MptNode, MptNodeData, MptNodeReference, Children, node, null, branch, leaf, extension, nil,
  vacant, child, from_data,
}
use pico_subblock.Mpt.Hash.{External, reference, fill}
use pico_subblock.Mpt.Touched.{same_reference}

abbrev pub Store : Type 0
Store = List (MptNodeReference × MptNode)

-- `node_store.get(..)`
unfoldable pub stored : Store → MptNodeReference → Option MptNode
unfolding same_reference
stored [] r = none
stored ((s, n) ∷ store) r = let rest = stored store r in if same_reference s r then some n else rest

-- `.map(|node| Box::new(resolve_nodes(node, ..)))` over the children
unfoldable pub resolve_children : (MptNode → Option MptNode) → Children → Option Children
resolve_children rec nil = some nil
resolve_children rec (vacant cs) = elim (resolve_children rec cs) [
  | none ↦ none
  | some ds ↦ some (vacant ds)
]
resolve_children rec (child n cs) = elim (rec n) [
  | none ↦ none
  | some m ↦ elim (resolve_children rec cs) [ none ↦ none | some ds ↦ some (child m ds) ]
]

-- `none`: the fuel is used up.
unfoldable pub resolve_nodes : Store → ℕ → MptNode → Option MptNode
unfolding stored resolve_children
resolve_nodes store zero n = none
resolve_nodes store (suc f) (node null c) = some (node null c)
resolve_nodes store (suc f) (node (leaf prefix value) c) = some (node (leaf prefix value) c)
resolve_nodes store (suc f) (node (branch cs) c) =
    elim (resolve_children (λ n. resolve_nodes store f n) cs) [
      | none ↦ none
      | some ds ↦ some (from_data (branch ds))
    ]
resolve_nodes store (suc f) (node (extension prefix target) c) =
    elim (resolve_nodes store f target) [
      | none ↦ none
      | some n ↦ some (from_data (extension prefix n))
    ]
resolve_nodes store (suc f) (node (MptNodeData.digest digest) c) =
    let found = λ (n : MptNode). resolve_nodes store f n in
    elim (stored store (MptNodeReference.digest digest)) [
      | some n ↦ found n
      | none ↦ some (node (MptNodeData.digest digest) c)
    ]
