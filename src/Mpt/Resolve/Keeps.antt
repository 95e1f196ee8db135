-- ===== src/Mpt/Resolve/Keeps.antt =====
-- crates/mpt/src/mpt.rs: `resolve_nodes` keeps the reference of a node, which is what its debug
-- assertion on the hashes says.
use pico_subblock.Prelude.{
  ℕ, zero, suc, ◌≡◌, refl, ap, ap₂, sym, ◌∙◌, subst, Option, none, some, List, [], ◌∷◌, true,
  eq_of_beq, Bool-cases, Option-cases, inl, inr,
}
use pico_subblock.Mpt.{
  MptNode, MptNodeData, MptNodeReference, Children, node, null, branch, leaf, extension, nil,
  vacant, child,
}
use pico_subblock.Mpt.Outline.{Outline}
use pico_subblock.Mpt.Hash.{External, reference, outline, references, calc_reference}
use pico_subblock.Mpt.Hash.Cache.{IsCoherent, AreCoherent}
use pico_subblock.Mpt.Touched.{same_reference}
use pico_subblock.Mpt.Touched.Prune.{reference-IsCoherent}
use pico_subblock.Mpt.Resolve.{Store, stored, resolve_children, resolve_nodes}

eq_of_same_reference : (r s : MptNodeReference) → same_reference r s ≡ true → r ≡ s
unfolding same_reference
eq_of_same_reference (MptNodeReference.bytes a) (MptNodeReference.bytes b) e =
    ap MptNodeReference.bytes (eq_of_beq a b e)
eq_of_same_reference (MptNodeReference.digest a) (MptNodeReference.digest b) e =
    ap MptNodeReference.digest (eq_of_beq a b e)
eq_of_same_reference (MptNodeReference.bytes a) (MptNodeReference.digest b) e = absurd (cc)
eq_of_same_reference (MptNodeReference.digest a) (MptNodeReference.bytes b) e = absurd (cc)

module _ (ext : External) where
  -- Each node is stored under its own reference, and its caches are right.
  abbrev pub IsIndexed : Store → Type 0
  IsIndexed [] = Unit
  IsIndexed ((r, n) ∷ store) = (reference ext n ≡ r) × IsCoherent ext n × IsIndexed store

  -- `m` is referred to as `n` is, and its caches are right.
  abbrev pub Same : MptNode → MptNode → Type 0
  Same n m = (reference ext m ≡ reference ext n) × IsCoherent ext m

  stored-Indexed :
      (store : Store) (r : MptNodeReference) (n : MptNode)
      → IsIndexed store
      → stored store r ≡ some n
      → (reference ext n ≡ r) × IsCoherent ext n
  unfolding stored
  stored-Indexed [] r n h e = absurd (cc)
  stored-Indexed ((s, m) ∷ store) r n h e = elim (Bool-cases (same_reference s r)) [
    | inl same ↦
        let e' = rw same at e in
        let m' : m ≡ n = cc (e') in
        subst (λ x. (reference ext x ≡ r) × IsCoherent ext x) m'
          (h.0 ∙ eq_of_same_reference s r same, h.1)
    | inr other ↦ let e' = rw other at e in stored-Indexed store r n h.2 e'
  ]

  module _ (store : Store) (indexed : IsIndexed store) where
    children-Same :
        (rec : MptNode → Option MptNode) (cs ds : Children)
        → ((n m : MptNode) → IsCoherent ext n → rec n ≡ some m → Same n m)
        → AreCoherent ext cs
        → resolve_children rec cs ≡ some ds
        → (references ext ds ≡ references ext cs) × AreCoherent ext ds
    unfolding resolve_children references
    children-Same rec nil ds f h e =
        let e' : nil ≡ ds = cc (e) in
        subst (λ x. (references ext x ≡ []) × AreCoherent ext x) e' (refl, tt)
    children-Same rec (vacant cs) ds f h e = elim (Option-cases (resolve_children rec cs)) [
      | inl out ↦ let e' = rw out at e in absurd (cc)
      | inr (xs, found) ↦
          let e' = rw found at e in
          let ds' : vacant xs ≡ ds = cc (e') in
          let r = children-Same rec cs xs f h found in
          subst (λ x. (references ext x ≡ none ∷ references ext cs) × AreCoherent ext x) ds'
            (ap (λ l. none ∷ l) r.0, r.1)
    ]
    children-Same rec (child n cs) ds f h e = elim (Option-cases (rec n)) [
      | inl out ↦ let e' = rw (resolve_children, out) at e in absurd (cc)
      | inr (m, one) ↦
          let e1 = rw (resolve_children, one) at e in
          elim (Option-cases (resolve_children rec cs)) [
            | inl out ↦ let e' = rw out at e1 in absurd (cc)
            | inr (xs, found) ↦
                let e' = rw found at e1 in
                let ds' : child m xs ≡ ds = cc (e') in
                let r = children-Same rec cs xs f h.1 found in
                let s = f n m h.0 one in
                subst
                  (λ x.
                    (references ext x ≡ some (reference ext n) ∷ references ext cs)
                    × AreCoherent ext x)
                  ds' (ap₂ (λ y l. some y ∷ l) s.0 r.0, (s.1, r.1))
          ]
    ]

    digest_reference :
        (digest : List ℕ) (c : Option MptNodeReference)
        → IsCoherent ext (node (MptNodeData.digest digest) c)
        → reference ext (node (MptNodeData.digest digest) c) ≡ MptNodeReference.digest digest
    unfolding calc_reference outline
    digest_reference digest c h = reference-IsCoherent ext (MptNodeData.digest digest) c h

    -- Where each node of the store stands under its own reference, and the caches agree with the
    -- data, a node that is resolved keeps its reference, and so its hash, and its caches agree
    -- again.
    pub resolve_nodes-Same :
        (f : ℕ) (n m : MptNode) → IsCoherent ext n → resolve_nodes store f n ≡ some m → Same n m
    unfolding resolve_nodes reference outline
    resolve_nodes-Same zero n m h e = absurd (cc)
    resolve_nodes-Same (suc f) (node null c) m h e =
        let e' : node null c ≡ m = cc (e) in subst (Same (node null c)) e' (refl, h)
    resolve_nodes-Same (suc f) (node (leaf prefix value) c) m h e =
        let e' : node (leaf prefix value) c ≡ m = cc (e) in
        subst (Same (node (leaf prefix value) c)) e' (refl, h)
    resolve_nodes-Same (suc f) (node (branch cs) c) m h e =
        elim (Option-cases (resolve_children (λ n. resolve_nodes store f n) cs)) [
          | inl out ↦ let e' = rw (out, resolve_nodes) at e in absurd (cc)
          | inr (ds, found) ↦
              let e' = rw (found, resolve_nodes) at e in
              let m' : node (branch ds) none ≡ m = cc (e') in
              let r =
                children-Same (λ n. resolve_nodes store f n) cs ds (λ n x. resolve_nodes-Same f n x)
                  h.1 found in
              subst (Same (node (branch cs) c)) m' (
                ap (λ l. calc_reference ext (Outline.branch l)) r.0
                    ∙ sym (reference-IsCoherent ext (branch cs) c h),
                (tt, r.1),
              )
        ]
    resolve_nodes-Same (suc f) (node (extension prefix target) c) m h e =
        elim (Option-cases (resolve_nodes store f target)) [
          | inl out ↦ let e' = rw (out, resolve_nodes) at e in absurd (cc)
          | inr (n, found) ↦
              let e' = rw (found, resolve_nodes) at e in
              let m' : node (extension prefix n) none ≡ m = cc (e') in
              let r = resolve_nodes-Same f target n h.1 found in
              subst (Same (node (extension prefix target) c)) m' (
                ap (λ l. calc_reference ext (Outline.extension prefix l)) r.0
                    ∙ sym (reference-IsCoherent ext (extension prefix target) c h),
                (tt, r.1),
              )
        ]
    resolve_nodes-Same (suc f) (node (MptNodeData.digest digest) c) m h e =
        elim (Option-cases (stored store (MptNodeReference.digest digest))) [
          | inl out ↦
              let e' = rw (out, resolve_nodes) at e in
              let m' : node (MptNodeData.digest digest) c ≡ m = cc (e') in
              subst (Same (node (MptNodeData.digest digest) c)) m' (refl, h)
          | inr (n, found) ↦
              let e' = rw (found, resolve_nodes) at e in
              let s = stored-Indexed store (MptNodeReference.digest digest) n indexed found in
              let r = resolve_nodes-Same f n m s.1 e' in
              (r.0 ∙ s.0 ∙ sym (digest_reference digest c h), r.1)
        ]
