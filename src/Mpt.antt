-- ===== src/Mpt.antt =====
-- crates/mpt/src/mpt.rs: the node of the sparse Merkle Patricia trie and its plain observers.
-- A byte is a number, a `Vec<u8>` a list of them, a `B256` the list of its 32 bytes.
pub mod Get
pub mod Insert
pub mod Delete
pub mod Valid
pub mod Slots
pub mod Uniform
pub mod Hidden
pub mod Outline
pub mod Hash
pub mod Touched
pub mod Decode
pub mod Leaves
pub mod Resolve
pub mod Proof
mod Tests
use pico_subblock.Prelude.{ℕ, zero, suc, ◌+◌, Bool, true, false, Option, none, some, List, [], ◌∷◌}
use pico_subblock.Result.{Result, ok, panic, ◌>>=◌}
use pico_subblock.Path.{prefix_nibs}

abbrev pub B256 : Type 0
B256 = List ℕ

pub data Error : Type 0 where
  node_not_resolved : B256 → Error
  value_in_branch : Error
  rlp : Error
  legacy_rlp : Error

pub data MptNodeReference : Type 0 where
  bytes : List ℕ → MptNodeReference
  digest : B256 → MptNodeReference

-- `node` holds the data and the cached reference. `Children` is the array of 16 optional boxes:
-- `vacant` is a `None`, `child` a `Some`.
mutual
  pub data MptNode : Type 0 where
    node : MptNodeData → Option MptNodeReference → MptNode

  pub data MptNodeData : Type 0 where
    null : MptNodeData
    branch : Children → MptNodeData
    leaf : List ℕ → List ℕ → MptNodeData
    extension : List ℕ → MptNode → MptNodeData
    digest : B256 → MptNodeData

  pub data Children : Type 0 where
    nil : Children
    vacant : Children → Children
    child : MptNode → Children → Children

-- `impl From<MptNodeData> for MptNode`
abbrev pub from_data : MptNodeData → MptNode
from_data d = node d none

-- `MptNode::default()`
abbrev pub default : MptNode
default = from_data null

unfoldable pub as_data : MptNode → MptNodeData
as_data (node d c) = d

unfoldable pub is_empty : MptNode → Bool
is_empty (node null c) = true
is_empty (node _ c) = false

unfoldable pub is_digest : MptNode → Bool
is_digest (node (digest d) c) = true
is_digest (node _ c) = false

unfoldable pub nibs : MptNode → Result Error (List ℕ)
nibs (node null c) = ok []
nibs (node (branch cs) c) = ok []
nibs (node (digest d) c) = ok []
nibs (node (leaf prefix value) c) = prefix_nibs prefix
nibs (node (extension prefix n) c) = prefix_nibs prefix

-- `clear`: the data and the cache are reset.
unfoldable pub clear : MptNode → MptNode
clear n = node null none

-- The number of traversable nodes.
unfoldable mutual
  pub size : MptNode → ℕ
  size (node null c) = 0
  size (node (branch cs) c) = size_children cs + 1
  size (node (leaf prefix value) c) = 1
  size (node (extension prefix n) c) = size n + 1
  size (node (digest d) c) = 0

  pub size_children : Children → ℕ
  size_children nil = 0
  size_children (vacant cs) = size_children cs
  size_children (child n cs) = size n + size_children cs

-- `Default::default()` of the array: 16 times `None`.
abbrev pub no_children : Children
no_children = vacant (
    vacant (
      vacant (
        vacant (
          vacant (
            vacant (
              vacant (
                vacant
                  (vacant (vacant (vacant (vacant (vacant (vacant (vacant (vacant nil)))))))))))))))

-- `children[i] = Some(..)`, which panics out of range
unfoldable pub set_child : Children → ℕ → MptNode → Result Error Children
set_child nil i n = panic
set_child (vacant cs) zero n = ok (child n cs)
set_child (child m cs) zero n = ok (child n cs)
set_child (vacant cs) (suc i) n = ◌>>=◌ (set_child cs i n) (λ cs'. ok (vacant cs'))
set_child (child m cs) (suc i) n = ◌>>=◌ (set_child cs i n) (λ cs'. ok (child m cs'))
