-- ===== src/Mpt/Touched.antt =====
-- crates/mpt/src/mpt.rs: `get_with_touched`, which reports the references of the nodes that it
-- meets, and `prune_unmarked_nodes`, which keeps the nodes with the references of a set.
-- `reference` fills caches below the node; `get_with_touched` leaves the node as it was otherwise,
-- and its model does not carry those caches along.
pub mod Prune
pub mod Reads
pub mod Inline
pub mod Delete
use native.Mathlib.Decide.{ℕ_discrete}
use pico_subblock.Prelude.{
  ℕ, zero, suc, Bool, true, false, not, ◌&&◌, ◌||◌, Option, none, some, List, [], ◌∷◌, ◌++◌, beq,
  if◌then◌else◌,
}
use pico_subblock.Result.{Result, ok, err, panic, ◌>>=◌}
use pico_subblock.Path.{to_nibs, prefix_nibs, strip_prefix}
use pico_subblock.Mpt.{
  Error, MptNode, MptNodeData, MptNodeReference, Children, node, null, branch, leaf, extension, nil,
  vacant, child,
}
use pico_subblock.Mpt.Hash.{External, reference, hash}

-- What a call reports: the value, and the touched references, those of deeper nodes first.
abbrev pub Report : Type 0
Report = Option (List ℕ) × List MptNodeReference

-- `result.push(my_reference)`
abbrev pub with_reference : MptNodeReference → Report → Report
with_reference r (v, touched) = (v, touched ++ (r ∷ []))

unfoldable pub same_reference : MptNodeReference → MptNodeReference → Bool
same_reference (MptNodeReference.bytes a) (MptNodeReference.bytes b) = beq a b
same_reference (MptNodeReference.digest a) (MptNodeReference.digest b) = beq a b
same_reference (MptNodeReference.bytes a) (MptNodeReference.digest b) = false
same_reference (MptNodeReference.digest a) (MptNodeReference.bytes b) = false

-- `HashSet::contains`, the set given as a list.
unfoldable pub contains : List MptNodeReference → MptNodeReference → Bool
unfolding same_reference
contains [] r = false
contains (s ∷ refs) r = same_reference s r || contains refs r

module _ (ext : External) where
  unfoldable mutual
    pub get_internal_with_touched : MptNode → List ℕ → Result Error Report
    get_internal_with_touched (node null c) key = ok (none, reference ext (node null c) ∷ [])
    get_internal_with_touched (node (branch cs) c) [] =
        ok (none, reference ext (node (branch cs) c) ∷ [])
    get_internal_with_touched (node (branch cs) c) (i ∷ tail) =
        get_child_with_touched (reference ext (node (branch cs) c)) cs i tail
    get_internal_with_touched (node (leaf prefix value) c) key = do
      nibs ← prefix_nibs prefix
      ok (
          if beq nibs key
          then (some value, reference ext (node (leaf prefix value) c) ∷ [])
          else (none, reference ext (node (leaf prefix value) c) ∷ []))
    get_internal_with_touched (node (extension prefix n) c) key = do
      nibs ← prefix_nibs prefix
      elim (strip_prefix key nibs) [
        | some tail ↦ (do
          r ← get_internal_with_touched n tail
          ok (with_reference (reference ext (node (extension prefix n) c)) r))
        | none ↦ ok (none, reference ext (node (extension prefix n) c) ∷ [])
      ]
    get_internal_with_touched (node (MptNodeData.digest d) c) key = ok (none, [])

    -- `nodes[i]`, below the branch with the given reference
    pub get_child_with_touched : MptNodeReference → Children → ℕ → List ℕ → Result Error Report
    get_child_with_touched my nil i tail = panic
    get_child_with_touched my (vacant cs) zero tail = ok (none, my ∷ [])
    get_child_with_touched my (child n cs) zero tail = do
      r ← get_internal_with_touched n tail
      ok (with_reference my r)
    get_child_with_touched my (vacant cs) (suc i) tail = get_child_with_touched my cs i tail
    get_child_with_touched my (child n cs) (suc i) tail = get_child_with_touched my cs i tail

  unfoldable pub get_with_touched : MptNode → List ℕ → Result Error Report
  get_with_touched n key = get_internal_with_touched n (to_nibs key)

  -- `self.data = MptNodeData::Digest(self.hash())`, with the cache that `reference` has filled.
  abbrev pub unmarked : MptNode → MptNode
  unmarked n = node (MptNodeData.digest (hash ext n)) (some (reference ext n))

  -- A node that goes keeps the cache that `reference` has filled; one that stays loses its own.
  unfoldable mutual
    unfolding contains

    pub prune_unmarked_nodes : MptNode → List MptNodeReference → MptNode
    prune_unmarked_nodes (node null c) touched_refs = node null c
    prune_unmarked_nodes (node (branch cs) c) touched_refs =
        let kept = node (branch (prune_children cs touched_refs)) none in
        if contains touched_refs (reference ext (node (branch cs) c))
        then kept
        else unmarked (node (branch cs) c)
    prune_unmarked_nodes (node (leaf prefix value) c) touched_refs = node (leaf prefix value) none
    prune_unmarked_nodes (node (extension prefix n) c) touched_refs =
        let kept = node (extension prefix (prune_unmarked_nodes n touched_refs)) none in
        if contains touched_refs (reference ext (node (extension prefix n) c))
        then kept
        else unmarked (node (extension prefix n) c)
    prune_unmarked_nodes (node (MptNodeData.digest d) c) touched_refs =
        if contains touched_refs (reference ext (node (MptNodeData.digest d) c))
        then node (MptNodeData.digest d) none
        else unmarked (node (MptNodeData.digest d) c)

    pub prune_children : Children → List MptNodeReference → Children
    prune_children nil touched_refs = nil
    prune_children (vacant cs) touched_refs = vacant (prune_children cs touched_refs)
    prune_children (child n cs) touched_refs =
        child (prune_unmarked_nodes n touched_refs) (prune_children cs touched_refs)
