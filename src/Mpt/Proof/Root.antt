-- ===== src/Mpt/Proof/Root.antt =====
-- `mpt_from_proof` of crates/mpt/src/mpt.rs and the references of the nodes of a proof.
use pico_subblock.Prelude.{
  ℕ, ◌+◌, ◌≡◌, refl, ap, sym, ◌∙◌, true, Option, none, some, List, [], ◌∷◌, eq_of_beq, All,
  Bool-cases, inl, inr,
}
use pico_subblock.Result.{ok, err, ◌>>=◌}
use pico_subblock.Result.Passed.{after_bind, ok_injective}
use pico_subblock.Mpt.{
  B256, MptNode, MptNodeData, MptNodeReference, Children, node, null, branch, leaf, extension, nil,
  vacant, child, from_data,
}
use pico_subblock.Mpt.Outline.{Outline}
use pico_subblock.Mpt.Hash.{External, reference, outline, references, calc_reference, fill}
use pico_subblock.Mpt.Hash.Cache.{IsCoherent, AreCoherent, fill-IsCoherent_lem, reference-fill}
use pico_subblock.Mpt.Touched.Prune.{reference-IsCoherent}
use pico_subblock.Mpt.Proof.{
  FromProofError, is_digest_of, replace_child, resolved, attach, from_node, mpt_from_proof,
}

module _ (ext : External) where
  -- A digest refers by itself.
  reference-is_digest_of :
      (n : MptNode) (d : B256)
      → IsCoherent ext n
      → is_digest_of d n ≡ true
      → reference ext n ≡ MptNodeReference.digest d
  unfolding is_digest_of calc_reference outline
  reference-is_digest_of (node (MptNodeData.digest e) c) d h same =
      reference-IsCoherent ext (MptNodeData.digest e) c h
      ∙ ap MptNodeReference.digest (eq_of_beq e d same)
  reference-is_digest_of (node null c) d h same = absurd (cc)
  reference-is_digest_of (node (branch cs) c) d h same = absurd (cc)
  reference-is_digest_of (node (leaf p v) c) d h same = absurd (cc)
  reference-is_digest_of (node (extension p n) c) d h same = absurd (cc)

  -- The children with one replaced: the references are the same, and the caches right.
  abbrev Replaced : Children → Option Children → Type 0
  Replaced cs none = Unit
  Replaced cs (some ds) = (references ext ds ≡ references ext cs) × AreCoherent ext ds

  replace_child-Replaced :
      (cs : Children) (d : B256) (r : MptNode)
      → AreCoherent ext cs
      → IsCoherent ext r
      → reference ext r ≡ MptNodeReference.digest d
      → Replaced cs (replace_child cs d r)
  unfolding replace_child references
  replace_child-Replaced nil d r h k e = tt
  replace_child-Replaced (vacant cs) d r h k e =
      later (replace_child cs d r) (replace_child-Replaced cs d r h k e)
    where
      later :
          (o : Option Children)
          → Replaced cs o
          → Replaced (vacant cs) (elim o [ none ↦ none | some ds ↦ some (vacant ds) ])
      later none x = tt
      later (some ds) x = (ap (λ rs. none ∷ rs) x.0, x.1)
  replace_child-Replaced (child n cs) d r h k e = elim (Bool-cases (is_digest_of d n)) [
    | inl found ↦ rw found (
      ap (λ x. some x ∷ references ext cs) (e ∙ sym (reference-is_digest_of n d h.0 found)),
      (k, h.1),
    )
    | inr other ↦ rw other (later (replace_child cs d r) (replace_child-Replaced cs d r h.1 k e))
  ]
    where
      later :
          (o : Option Children)
          → Replaced cs o
          → Replaced (child n cs) (elim o [ none ↦ none | some ds ↦ some (child n ds) ])
      later none x = tt
      later (some ds) x = (ap (λ rs. some (reference ext n) ∷ rs) x.0, (h.0, x.1))

  -- The node that a turn of the loop makes for `n`.
  abbrev Stands : MptNode → MptNode → Type 0
  Stands n m = (reference ext m ≡ reference ext n) × IsCoherent ext m

  resolved-Stands :
      (i : ℕ) (d : MptNodeData) (c : Option MptNodeReference) (e : B256) (r m : MptNode)
      → IsCoherent ext (node d c)
      → IsCoherent ext r
      → reference ext r ≡ MptNodeReference.digest e
      → resolved i d e r ≡ ok m
      → Stands (node d c) m
  unfolding resolved reference outline
  resolved-Stands i (branch cs) c e r m h k q x =
      made (replace_child cs e r) (replace_child-Replaced cs e r h.1 k q) x
    where
      made :
          (o : Option Children)
          → Replaced cs o
          → elim o [
            | some ds ↦ ok (from_data (branch ds))
            | none ↦ err (FromProofError.node_has_invalid_successor i)
          ]
            ≡ ok m
          → Stands (node (branch cs) c) m
      made none y x = absurd (cc)
      made (some ds) y x =
          let m' : node (branch ds) none ≡ m = ok_injective x in
          rw (← m') (
            ap (λ z. calc_reference ext (Outline.branch z)) y.0
                ∙ sym (reference-IsCoherent ext (branch cs) c h),
            (tt, y.1),
          )
  resolved-Stands i (extension p n) c e r m h k q x = elim (Bool-cases (is_digest_of e n)) [
    | inl found ↦
        let x' : ok (node (extension p r) none) ≡ ok m = rw found at x in
        let m' : node (extension p r) none ≡ m = ok_injective x' in
        rw (← m') (
          ap (λ z. calc_reference ext (Outline.extension p z))
                (q ∙ sym (reference-is_digest_of n e h.1 found))
              ∙ sym (reference-IsCoherent ext (extension p n) c h),
          (tt, k),
        )
    | inr other ↦
        let x' : err (FromProofError.node_has_invalid_successor i) ≡ ok m = rw other at x in
        absurd (cc)
  ]
  resolved-Stands i null c e r m h k q x = absurd (cc)
  resolved-Stands i (leaf p v) c e r m h k q x = absurd (cc)
  resolved-Stands i (MptNodeData.digest d) c e r m h k q x = absurd (cc)

  attach-Stands :
      (i : ℕ) (n r m : MptNode)
      → IsCoherent ext n
      → IsCoherent ext r
      → attach ext i n r ≡ ok m
      → Stands n m
  unfolding attach
  attach-Stands i (node d c) r m h k x = cases (reference ext r) refl x
    where
      cases :
          (q : MptNodeReference)
          → reference ext r ≡ q
          → elim q [
            | MptNodeReference.digest child_ref ↦ resolved i d child_ref (fill ext r)
            | MptNodeReference.bytes b ↦ err (FromProofError.node_not_found_by_hash (i + 1))
          ]
            ≡ ok m
          → Stands (node d c) m
      cases (MptNodeReference.bytes b) e x = absurd (cc)
      cases (MptNodeReference.digest e) q x =
          resolved-Stands i d c e (fill ext r) m h (fill-IsCoherent_lem ext r k)
            (reference-fill ext r ∙ q) x

  -- What the loop has when it comes to the node `n`.
  from_node-Stands :
      (i : ℕ) (n : MptNode) (nodes : List MptNode) (o : Option MptNode)
      → IsCoherent ext n
      → All (IsCoherent ext) nodes
      → from_node ext i (n ∷ nodes) ≡ ok o
      → (m : MptNode) × (o ≡ some m) × Stands n m
  unfolding from_node
  from_node-Stands i n [] o h k x = let o' : some n ≡ o = ok_injective x in (n, sym o', (refl, h))
  from_node-Stands i n (n' ∷ nodes) o h k x =
      let a = after_bind (from_node ext (i + 1) (n' ∷ nodes)) _ o x in
      let s = from_node-Stands (i + 1) n' nodes a.0 k.0 k.1 a.1 in
      let x' : (attach ext i n s.0 >>= λ r. ok (some r)) ≡ ok o = rw s.1 at a.2 in
      let b = after_bind (attach ext i n s.0) (λ r. ok (some r)) o x' in
      (b.0, sym (ok_injective b.2), attach-Stands i n s.0 b.0 h s.2.1 b.1)

  -- When a proof of at least one node gives a trie, and the caches of its nodes agree with their
  -- data, then the trie has the reference of the first node, and its caches agree with its data:
  -- the nodes are put together without a change to the root hash.
  pub mpt_from_proof-Stands :
      (n : MptNode) (nodes : List MptNode) (trie : MptNode)
      → All (IsCoherent ext) (n ∷ nodes)
      → mpt_from_proof ext (n ∷ nodes) ≡ ok trie
      → (reference ext trie ≡ reference ext n) × IsCoherent ext trie
  unfolding mpt_from_proof
  mpt_from_proof-Stands n nodes trie h x =
      let a = after_bind (from_node ext 0 (n ∷ nodes)) _ trie x in
      let s = from_node-Stands 0 n nodes a.0 h.0 h.1 a.1 in
      let x' : ok s.0 ≡ ok trie = rw s.1 at a.2 in
      let same : s.0 ≡ trie = ok_injective x' in rw (← same) s.2
