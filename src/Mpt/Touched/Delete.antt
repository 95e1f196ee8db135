-- ===== src/Mpt/Touched/Delete.antt =====
-- `delete_with_touched` of crates/mpt/src/mpt.rs: the deletion of `delete`, with the references of
-- the nodes that it meets, as they were before it changed them. `self.reference()` fills the cache
-- of the node and, where that was empty, those below it. The child that the call goes on with fills
-- its own first, which gives the same whether it was filled before or not.
-- As elsewhere an error carries no node, so that the caches filled before it are not part of it.
use pico_subblock.Prelude.{
  ℕ, zero, suc, Bool, true, false, Option, none, some, List, [], ◌∷◌, ◌++◌, beq, if◌then◌else◌,
}
use pico_subblock.Result.{Result, ok, err, panic, ◌>>=◌}
use pico_subblock.Path.{to_nibs, prefix_nibs, strip_prefix}
use pico_subblock.Mpt.{
  Error, node_not_resolved, value_in_branch, MptNode, MptNodeData, MptNodeReference, Children, node,
  null, branch, leaf, extension, nil, vacant, child,
}
use pico_subblock.Mpt.Hash.{External, reference, fill, fill_children}
use pico_subblock.Mpt.Delete.{remaining, finish_branch, finish_extension, put_back}

-- What `delete` gives, with the touched references.
abbrev pub Deleting : Type 0
Deleting = (Bool × MptNode) × List MptNodeReference

module _ (ext : External) where
  -- `total_touched.push(orphan.reference())`, if one child is left.
  unfoldable pub orphan_reference : List (ℕ × MptNode) → List MptNodeReference
  orphan_reference [] = []
  orphan_reference ((i, orphan) ∷ []) = reference ext orphan ∷ []
  orphan_reference ((i, first) ∷ second ∷ rest) = []

  unfoldable pub orphans : Bool × Children → List MptNodeReference
  unfolding orphan_reference
  orphans (false, cs) = []
  orphans (true, cs) = orphan_reference (remaining cs 0)

  -- `orphan.reference()` fills the caches of the one child that is left.
  unfoldable pub fill_orphan : Bool × Children → Bool × Children
  unfolding fill_children
  fill_orphan (false, cs) = (false, cs)
  fill_orphan (true, cs) = elim (remaining cs 0) [
    | [] ↦ (true, cs)
    | orphan ∷ [] ↦ (true, fill_children ext cs)
    | first ∷ second ∷ rest ↦ (true, cs)
  ]

  -- What `self.reference()` does below a node with the given cache: nothing if there is one.
  abbrev pub warm : Option MptNodeReference → MptNode → MptNode
  warm none n = fill ext n
  warm (some r) n = n

  abbrev pub warm_children : Option MptNodeReference → Children → Children
  warm_children none cs = fill_children ext cs
  warm_children (some r) cs = cs

  unfoldable mutual
    unfolding orphans fill_orphan

    pub delete_internal_with_touched : MptNode → List ℕ → Result Error Deleting
    delete_internal_with_touched (node null c) key =
        ok ((false, node null (some (reference ext (node null c)))), [])
    delete_internal_with_touched (node (branch cs) c) [] = err value_in_branch
    delete_internal_with_touched (node (branch cs) c) (i ∷ tail) = do
      let my = reference ext (node (branch cs) c)
      r ← delete_child_with_touched c cs i tail
      n ← finish_branch (some my) (fill_orphan r.0)
      ok (n, my ∷ (r.1 ++ orphans r.0))
    delete_internal_with_touched (node (leaf prefix value) c) key = do
      let my = reference ext (node (leaf prefix value) c)
      nibs ← prefix_nibs prefix
      ok (
          if beq nibs key
          then ((true, node null none), my ∷ [])
          else ((false, node (leaf prefix value) (some my)), my ∷ []))
    delete_internal_with_touched (node (extension prefix n) c) key = do
      let my = reference ext (node (extension prefix n) c)
      nibs ← prefix_nibs prefix
      elim (strip_prefix key nibs) [
        | none ↦ ok ((false, node (extension prefix (warm c n)) (some my)), my ∷ [])
        | some tail ↦ (do
          r ← delete_internal_with_touched n tail
          m ← finish_extension prefix nibs (some my) r.0
          ok (m, my ∷ r.1))
      ]
    delete_internal_with_touched (node (MptNodeData.digest d) c) key = err (node_not_resolved d)

    -- The deletion in `children[i]` below a branch with the cache `c`; a `None` reports nothing.
    pub delete_child_with_touched :
        Option MptNodeReference
        → Children
        → ℕ
        → List ℕ
        → Result Error ((Bool × Children) × List MptNodeReference)
    delete_child_with_touched c nil i tail = panic
    delete_child_with_touched c (vacant cs) zero tail =
        ok ((false, vacant (warm_children c cs)), [])
    delete_child_with_touched c (child n cs) zero tail = do
      r ← delete_internal_with_touched n tail
      ok (put_back r.0 (warm_children c cs), r.1)
    delete_child_with_touched c (vacant cs) (suc i) tail = do
      r ← delete_child_with_touched c cs i tail
      ok ((r.0.0, vacant r.0.1), r.1)
    delete_child_with_touched c (child n cs) (suc i) tail = do
      r ← delete_child_with_touched c cs i tail
      ok ((r.0.0, child (warm c n) r.0.1), r.1)

  unfoldable pub delete_with_touched : MptNode → List ℕ → Result Error Deleting
  delete_with_touched n key = delete_internal_with_touched n (to_nibs key)
