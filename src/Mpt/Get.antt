-- ===== src/Mpt/Get.antt =====
-- `get` of crates/mpt/src/mpt.rs: the descent along the nibbles of a key.
use pico_subblock.Prelude.{ℕ, zero, suc, Option, none, some, List, [], ◌∷◌, beq, if◌then◌else◌}
pub mod Find
pub mod Entries
use pico_subblock.Result.{Result, ok, panic, ◌>>=◌}
use pico_subblock.Path.{to_nibs, prefix_nibs, strip_prefix}
use pico_subblock.Mpt.{
  Error, MptNode, Children, node, null, branch, leaf, extension, digest, nil, vacant, child,
}

unfoldable mutual
  pub get_internal : MptNode → List ℕ → Result Error (Option (List ℕ))
  get_internal (node null c) key = ok none
  get_internal (node (branch cs) c) [] = ok none
  get_internal (node (branch cs) c) (i ∷ tail) = get_child cs i tail
  get_internal (node (leaf prefix value) c) key = do
    self_nibs ← prefix_nibs prefix
    ok (if beq self_nibs key then some value else none)
  get_internal (node (extension prefix n) c) key = do
    self_nibs ← prefix_nibs prefix
    elim (strip_prefix key self_nibs) [ some tail ↦ get_internal n tail | none ↦ ok none ]
  get_internal (node (digest d) c) key = ok none

  -- `match nodes[i] { Some(node) => node.get_internal(tail), None => Ok(None) }`
  pub get_child : Children → ℕ → List ℕ → Result Error (Option (List ℕ))
  get_child nil i tail = panic
  get_child (vacant cs) zero tail = ok none
  get_child (child n cs) zero tail = get_internal n tail
  get_child (vacant cs) (suc i) tail = get_child cs i tail
  get_child (child n cs) (suc i) tail = get_child cs i tail

unfoldable pub get : MptNode → List ℕ → Result Error (Option (List ℕ))
get n key = get_internal n (to_nibs key)
