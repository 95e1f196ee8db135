-- ===== src/Mpt/Leaves.antt =====
-- crates/mpt/src/mpt.rs: `for_each_leaves`. The paths are those of the crate nybbles, as lists of
-- their nibbles.
pub mod Fuel
use pico_subblock.Prelude.{ℕ, zero, suc, ◌+◌, Option, List, [], ◌∷◌}
use pico_subblock.Result.{Result, ok, panic, ◌>>=◌, unwrap}
use pico_subblock.Path.{prefix_nibs}
use pico_subblock.Mpt.{
  MptNode, MptNodeData, Children, node, null, branch, leaf, extension, nil, vacant, child,
}

-- `push`, `extend` by `from_nibbles`, and `pack`; `none` where a path has no room left.
pub record Nibbles : Type 0 where
  pub push : List ℕ → ℕ → Option (List ℕ)
  pub extend : List ℕ → List ℕ → Option (List ℕ)
  pub pack : List ℕ → List ℕ

abbrev pub Stack : Type 0
Stack = List (MptNode × List ℕ)

unfoldable mutual
  -- The nodes of a trie, one turn of the loop for each.
  pub count : MptNode → ℕ
  count (node null c) = 1
  count (node (branch cs) c) = suc (count_children cs)
  count (node (leaf prefix value) c) = 1
  count (node (extension prefix n) c) = suc (count n)
  count (node (MptNodeData.digest d) c) = 1

  pub count_children : Children → ℕ
  count_children nil = 0
  count_children (vacant cs) = count_children cs
  count_children (child n cs) = count n + count_children cs

module _ {ℓ} {E : Type ℓ} (nibbles : Nibbles) where
  open nibbles use {push, extend, pack}

  -- The loop over the children of a branch, from place `i` on.
  unfoldable pub push_children : List ℕ → ℕ → Children → Stack → Result E Stack
  push_children path i nil stack = ok stack
  push_children path i (vacant cs) stack = push_children path (suc i) cs stack
  push_children path i (child n cs) stack = do
    new_path ← unwrap (push path i)
    push_children path (suc i) cs ((n, new_path) ∷ stack)

  -- The calls of `f`, in order. The stack has its top first. The recursion has fuel, one for each
  -- turn, and answers `out` without it.
  module _ (out : Result E (List (List ℕ × List ℕ))) where
    unfoldable pub for_each_leaves : ℕ → Stack → Result E (List (List ℕ × List ℕ))
    unfolding push_children
    for_each_leaves fuel [] = ok []
    for_each_leaves zero ((n, path) ∷ stack) = out
    for_each_leaves (suc fuel) ((node null c, path) ∷ stack) = for_each_leaves fuel stack
    for_each_leaves (suc fuel) ((node (MptNodeData.digest d) c, path) ∷ stack) =
        for_each_leaves fuel stack
    for_each_leaves (suc fuel) ((node (branch cs) c, path) ∷ stack) = do
      stack' ← push_children path 0 cs stack
      for_each_leaves fuel stack'
    for_each_leaves (suc fuel) ((node (leaf prefix value) c, path) ∷ stack) = do
      nibs ← prefix_nibs prefix
      full_path ← unwrap (extend path nibs)
      rest ← for_each_leaves fuel stack
      ok ((pack full_path, value) ∷ rest)
    for_each_leaves (suc fuel) ((node (extension prefix n) c, path) ∷ stack) = do
      nibs ← prefix_nibs prefix
      new_path ← unwrap (extend path nibs)
      for_each_leaves fuel ((n, new_path) ∷ stack)
