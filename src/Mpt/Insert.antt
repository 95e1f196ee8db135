-- ===== src/Mpt/Insert.antt =====
-- `insert` of crates/mpt/src/mpt.rs. The call returns its Boolean and the node that it leaves.
-- Where it fails the Rust code has written nothing, so an error carries no node.
pub mod Fork
pub mod Leaf
pub mod Extension
pub mod Lookup
pub mod Reads
pub mod Total
pub mod Coherent
use pico_subblock.Prelude.{
  ℕ, zero, suc, ◌+◌, Bool, true, false, ◌&&◌, ◌||◌, Option, none, some, List, [], ◌∷◌, beq, ◌==◌,
  ltb, if◌then◌else◌, length, take, drop,
}
use pico_subblock.Result.{Result, ok, err, panic, ◌>>=◌}
use pico_subblock.Path.{to_nibs, to_encoded_path, prefix_nibs, lcp, index}
use pico_subblock.Mpt.{
  Error, node_not_resolved, value_in_branch, MptNode, MptNodeReference, MptNodeData, Children, node,
  null, branch, leaf, extension, digest, nil, vacant, child, from_data, no_children, set_child,
}

-- A branch of two children at the first nibbles where the paths differ, below an extension for
-- their common prefix when there is one.
unfoldable pub fork_branch : List ℕ → List ℕ → ℕ → MptNode → MptNode → Result Error MptNodeData
fork_branch self_nibs key common old new = do
  i ← index self_nibs common
  children ← set_child no_children i old
  j ← index key common
  children' ← set_child children j new
  ok (
      if ltb 0 common
      then extension (to_encoded_path (take common self_nibs) false) (from_data (branch children'))
      else branch children')

-- The leaf's path is `self_nibs`.
unfoldable pub insert_at_leaf :
    List ℕ
    → List ℕ
    → List ℕ
    → Option MptNodeReference
    → List ℕ
    → List ℕ
    → Result Error (Bool × MptNode)
insert_at_leaf self_nibs prefix old_value cached key value = do
  let common = lcp self_nibs key
  let split = common + 1
  if common == length self_nibs && common == length key
      then (if beq old_value value
          then ok (false, node (leaf prefix old_value) cached)
          else ok (true, node (leaf prefix value) none))
      else if common == length self_nibs || common == length key
      then err value_in_branch
      else do
        data' ←
            fork_branch self_nibs key common
              (from_data (leaf (to_encoded_path (drop split self_nibs) true) old_value))
              (from_data (leaf (to_encoded_path (drop split key) true) value))
        ok (true, node data' none)

unfoldable pub insert_leaf :
    List ℕ → List ℕ → Option MptNodeReference → List ℕ → List ℕ → Result Error (Bool × MptNode)
unfolding insert_at_leaf fork_branch
insert_leaf prefix old_value cached key value = do
  self_nibs ← prefix_nibs prefix
  insert_at_leaf self_nibs prefix old_value cached key value

-- The extension's own part of the insertion, where the paths part inside its prefix.
unfoldable pub split_extension :
    List ℕ → MptNode → List ℕ → ℕ → List ℕ → Result Error (Bool × MptNode)
unfolding fork_branch
split_extension self_nibs existing key common value = do
  let split = common + 1
  let old =
      if ltb split (length self_nibs)
      then from_data (extension (to_encoded_path (drop split self_nibs) false) existing)
      else existing
  data' ←
      fork_branch self_nibs key common old
        (from_data (leaf (to_encoded_path (drop split key) true) value))
  ok (true, node data' none)

unfoldable mutual
  pub insert_internal : MptNode → List ℕ → List ℕ → Result Error (Bool × MptNode)
  insert_internal (node null c) key value =
      ok (true, node (leaf (to_encoded_path key true) value) none)
  insert_internal (node (branch cs) c) [] value = err value_in_branch
  insert_internal (node (branch cs) c) (i ∷ tail) value = do
    r ← insert_child cs i tail value
    ok (r.0, node (branch r.1) (if r.0 then none else c))
  insert_internal (node (leaf prefix old_value) c) key value =
      insert_leaf prefix old_value c key value
  insert_internal (node (extension prefix existing) c) key value = do
    self_nibs ← prefix_nibs prefix
    let common = lcp self_nibs key
    if common == length self_nibs
        then (do
          r ← insert_internal existing (drop common key) value
          ok (r.0, node (extension prefix r.1) (if r.0 then none else c)))
        else if common == length key
        then err value_in_branch
        else split_extension self_nibs existing key common value
  insert_internal (node (digest d) c) key value = err (node_not_resolved d)

  -- The insertion into `children[i]`: a `None` gets a new leaf.
  pub insert_child : Children → ℕ → List ℕ → List ℕ → Result Error (Bool × Children)
  insert_child nil i tail value = panic
  insert_child (vacant cs) zero tail value =
      ok (true, child (from_data (leaf (to_encoded_path tail true) value)) cs)
  insert_child (child n cs) zero tail value = do
    r ← insert_internal n tail value
    ok (r.0, child r.1 cs)
  insert_child (vacant cs) (suc i) tail value = do
    r ← insert_child cs i tail value
    ok (r.0, vacant r.1)
  insert_child (child n cs) (suc i) tail value = do
    r ← insert_child cs i tail value
    ok (r.0, child n r.1)

-- `panic!("value must not be empty")`
unfoldable pub insert : MptNode → List ℕ → List ℕ → Result Error (Bool × MptNode)
insert n key [] = panic
insert n key (v ∷ value) = insert_internal n (to_nibs key) (v ∷ value)
