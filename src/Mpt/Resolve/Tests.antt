-- ===== src/Mpt/Resolve/Tests.antt =====
-- An example of a store: a digest that stands for a leaf.
use pico_subblock.Prelude.{
  ℕ, ◌≡◌, ◌≤◌, refl, subst, none, some, [], ◌∷◌, beq, Bool-cases, inl, inr, arith,
}
use pico_subblock.Mpt.{B256, MptNode, MptNodeData, MptNodeReference, node, leaf}
use pico_subblock.Mpt.Hash.{empty_root, reference, calc_reference}
use pico_subblock.Mpt.Touched.{same_reference}
use pico_subblock.Mpt.Decode.Toy.{toy, header_of, string_of}
use pico_subblock.Mpt.Resolve.{Store, stored, resolve_nodes}
use pico_subblock.Mpt.Resolve.Keeps.{IsIndexed, Same, resolve_nodes-Same}
use pico_subblock.Mpt.Resolve.Returns.{IsBelow, IsRanked, resolve_nodes-returns}

abbrev long_leaf : MptNode
long_leaf = node (leaf (0x32 ∷ []) empty_root) none

abbrev store : Store
store = (MptNodeReference.digest empty_root, long_leaf) ∷ []

abbrev root : MptNode
root = node (MptNodeData.digest empty_root) none

store-IsIndexed : IsIndexed toy store
unfolding reference calc_reference header_of string_of
store-IsIndexed = (refl, (tt, tt), tt)

resolved : resolve_nodes store 3 root ≡ some long_leaf
unfolding resolve_nodes beq
resolved = refl

resolve_nodes-Same_example : Same toy root long_leaf
resolve_nodes-Same_example =
    resolve_nodes-Same toy store store-IsIndexed 3 root long_leaf (tt, tt) resolved

store-IsRanked : IsRanked store (λ (d : B256). 0)
unfolding stored
store-IsRanked d n e =
    elim (Bool-cases
      (same_reference (MptNodeReference.digest empty_root) (MptNodeReference.digest d))) [
        | inl same ↦
            let e' = rw same at e in
            let n' : long_leaf ≡ n = cc (e') in subst (IsBelow store (λ (d : B256). 0) 0) n' tt
        | inr other ↦ let e' = rw other at e in absurd (cc)
      ]

resolve_nodes-returns_example :
    (f : ℕ) × (m : MptNode) × ((g : ℕ) → f ≤ g → resolve_nodes store g root ≡ some m)
resolve_nodes-returns_example =
    resolve_nodes-returns store (λ (d : B256). 0) 1 root store-IsRanked (omega arith)
