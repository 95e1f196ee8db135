-- ===== src/Mpt/Delete.antt =====
-- `delete` of crates/mpt/src/mpt.rs. The call returns its Boolean and the node that it leaves.
-- Where it fails the Rust code has written nothing, so an error carries no node.
pub mod Reshape
pub mod Outcome
pub mod Lookup
pub mod Reads
pub mod Total
pub mod Coherent
use pico_subblock.Prelude.{
  ℕ, zero, suc, ◌+◌, Bool, true, false, Option, none, some, List, [], ◌∷◌, ◌++◌, beq, if◌then◌else◌,
}
use pico_subblock.Result.{Result, ok, err, panic, ◌>>=◌}
use pico_subblock.Path.{to_nibs, to_encoded_path, prefix_nibs, strip_prefix}
use pico_subblock.Mpt.{
  Error, node_not_resolved, value_in_branch, MptNode, MptNodeReference, MptNodeData, Children, node,
  null, branch, leaf, extension, digest, nil, vacant, child, from_data, is_empty,
}

-- `children.iter().enumerate().filter(|(_, n)| n.is_some())`, from index `i`
unfoldable pub remaining : Children → ℕ → List (ℕ × MptNode)
remaining nil i = []
remaining (vacant cs) i = remaining cs (i + 1)
remaining (child n cs) i = (i, n) ∷ remaining cs (i + 1)

-- The branch has one child left: the child takes its place, its path grown by the branch's nibble.
unfoldable pub adopt : ℕ → MptNode → Result Error MptNodeData
adopt i (node (leaf prefix value) c) = do
  nibs ← prefix_nibs prefix
  ok (leaf (to_encoded_path (i ∷ nibs) true) value)
adopt i (node (extension prefix n) c) = do
  nibs ← prefix_nibs prefix
  ok (extension (to_encoded_path (i ∷ nibs) false) n)
adopt i (node (branch cs) c) = ok (extension (to_encoded_path (i ∷ []) false) (node (branch cs) c))
adopt i (node (digest d) c) = ok (extension (to_encoded_path (i ∷ []) false) (node (digest d) c))
adopt i (node null c) = panic

-- `remaining.next().unwrap()`, and the conversion if `remaining.next().is_none()`
unfoldable pub collapse : Children → List (ℕ × MptNode) → Result Error MptNodeData
unfolding adopt
collapse cs [] = panic
collapse cs ((i, orphan) ∷ []) = adopt i orphan
collapse cs ((i, first) ∷ second ∷ rest) = ok (branch cs)

-- What an extension becomes after a deletion below it.
unfoldable pub merge_extension : List ℕ → List ℕ → MptNode → Result Error MptNodeData
merge_extension prefix self_nibs (node null c) = ok null
merge_extension prefix self_nibs (node (leaf p value) c) = do
  nibs ← prefix_nibs p
  ok (leaf (to_encoded_path (self_nibs ++ nibs) true) value)
merge_extension prefix self_nibs (node (extension p n) c) = do
  nibs ← prefix_nibs p
  ok (extension (to_encoded_path (self_nibs ++ nibs) false) n)
merge_extension prefix self_nibs (node (branch cs) c) = ok (extension prefix (node (branch cs) c))
merge_extension prefix self_nibs (node (digest d) c) = ok (extension prefix (node (digest d) c))

-- The rest of the call for a branch and for an extension, after the call on the child.
unfoldable pub finish_branch :
    Option MptNodeReference → Bool × Children → Result Error (Bool × MptNode)
unfolding remaining collapse
finish_branch c (false, cs) = ok (false, node (branch cs) c)
finish_branch c (true, cs) = do data' ← collapse cs (remaining cs 0); ok (true, node data' none)

unfoldable pub finish_extension :
    List ℕ → List ℕ → Option MptNodeReference → Bool × MptNode → Result Error (Bool × MptNode)
unfolding merge_extension
finish_extension prefix self_nibs c (false, n) = ok (false, node (extension prefix n) c)
finish_extension prefix self_nibs c (true, n) = do
  data' ← merge_extension prefix self_nibs n
  ok (true, node data' none)

-- `if node.is_empty() { *child = None; }`
unfoldable pub put_back : Bool × MptNode → Children → Bool × Children
put_back (false, n) cs = (false, child n cs)
put_back (true, n) cs = (true, if is_empty n then vacant cs else child n cs)

unfoldable mutual
  unfolding finish_branch finish_extension put_back

  pub delete_internal : MptNode → List ℕ → Result Error (Bool × MptNode)
  delete_internal (node null c) key = ok (false, node null c)
  delete_internal (node (branch cs) c) [] = err value_in_branch
  delete_internal (node (branch cs) c) (i ∷ tail) = do r ← delete_child cs i tail; finish_branch c r
  delete_internal (node (leaf prefix value) c) key = do
    self_nibs ← prefix_nibs prefix
    ok (if beq self_nibs key then (true, node null none) else (false, node (leaf prefix value) c))
  delete_internal (node (extension prefix n) c) key = do
    self_nibs ← prefix_nibs prefix
    elim (strip_prefix key self_nibs) [
      | none ↦ ok (false, node (extension prefix n) c)
      | some tail ↦ delete_internal n tail >>= finish_extension prefix self_nibs c
    ]
  delete_internal (node (digest d) c) key = err (node_not_resolved d)

  -- The deletion in `children[i]`.
  pub delete_child : Children → ℕ → List ℕ → Result Error (Bool × Children)
  delete_child nil i tail = panic
  delete_child (vacant cs) zero tail = ok (false, vacant cs)
  delete_child (child n cs) zero tail = do r ← delete_internal n tail; ok (put_back r cs)
  delete_child (vacant cs) (suc i) tail = do r ← delete_child cs i tail; ok (r.0, vacant r.1)
  delete_child (child n cs) (suc i) tail = do r ← delete_child cs i tail; ok (r.0, child n r.1)

unfoldable pub delete : MptNode → List ℕ → Result Error (Bool × MptNode)
delete n key = delete_internal n (to_nibs key)
