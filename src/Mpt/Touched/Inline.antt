-- ===== src/Mpt/Touched/Inline.antt =====
-- `prune_unmarked_nodes` of crates/mpt/src/mpt.rs on a branch with a short encoding.
use pico_subblock.Prelude.{◌≡◌, ap, false, Option, List, ℕ}
use pico_subblock.Mpt.{MptNodeReference, Children, node, branch}
use pico_subblock.Mpt.Hash.{External, reference, hash, hash_reference, calc_reference, outline}
use pico_subblock.Mpt.Hash.Cache.{without_caches}
use pico_subblock.Mpt.Touched.{contains, prune_unmarked_nodes}

module _ (ext : External) where
  open ext use {keccak}

  -- A branch that is not kept and that its parent holds inline, by bytes, is referred to by its
  -- hash once the caches are dropped: not by the reference that its parent's encoding had for it.
  pub reference-prune_inline :
      (cs : Children) (c : Option MptNodeReference) (refs : List MptNodeReference) (b : List ℕ)
      → reference ext (node (branch cs) c) ≡ MptNodeReference.bytes b
      → contains refs (reference ext (node (branch cs) c)) ≡ false
      → reference ext (without_caches (prune_unmarked_nodes ext (node (branch cs) c) refs))
        ≡ MptNodeReference.digest (keccak b)
  unfolding prune_unmarked_nodes reference hash calc_reference outline hash_reference
  reference-prune_inline cs c refs b e gone =
      rw gone (ap (λ r. MptNodeReference.digest (hash_reference ext r)) e)
