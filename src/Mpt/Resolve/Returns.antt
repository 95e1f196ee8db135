-- ===== src/Mpt/Resolve/Returns.antt =====
-- crates/mpt/src/mpt.rs: `resolve_nodes` returns, on a store with no cycle.
use pico_subblock.Prelude.{
  ℕ, zero, suc, ◌+◌, ◌≤◌, ◌<◌, ◌≡◌, refl, Option, some, arith, Option-cases, inl, inr,
}
use pico_subblock.Mpt.{
  B256, MptNode, MptNodeData, MptNodeReference, Children, node, null, branch, leaf, extension, nil,
  vacant, child, from_data,
}
use pico_subblock.Mpt.Resolve.{Store, stored, resolve_children, resolve_nodes}

module _ (store : Store) where
  -- With more fuel the answer is the same.
  children-more :
      (rec rec' : MptNode → Option MptNode) (cs ds : Children)
      → ((n m : MptNode) → rec n ≡ some m → rec' n ≡ some m)
      → resolve_children rec cs ≡ some ds
      → resolve_children rec' cs ≡ some ds
  unfolding resolve_children
  children-more rec rec' nil ds f e = e
  children-more rec rec' (vacant cs) ds f e = elim (Option-cases (resolve_children rec cs)) [
    | inl out ↦ let e' = rw out at e in absurd (cc)
    | inr (xs, found) ↦ let e' = rw found at e in rw (children-more rec rec' cs xs f found) e'
  ]
  children-more rec rec' (child n cs) ds f e = elim (Option-cases (rec n)) [
    | inl out ↦ let e' = rw (resolve_children, out) at e in absurd (cc)
    | inr (m, one) ↦
        let e1 = rw (resolve_children, one) at e in
        elim (Option-cases (resolve_children rec cs)) [
          | inl out ↦ let e' = rw out at e1 in absurd (cc)
          | inr (xs, found) ↦
              let e' = rw found at e1 in
              rw (resolve_children, f n m one) (rw (children-more rec rec' cs xs f found) e')
        ]
  ]

  resolve_nodes-more :
      (f g : ℕ) (n m : MptNode)
      → f ≤ g
      → resolve_nodes store f n ≡ some m
      → resolve_nodes store g n ≡ some m
  unfolding resolve_nodes
  resolve_nodes-more zero g n m l e = absurd (cc)
  resolve_nodes-more (suc f) zero n m l e = absurd (omega arith)
  resolve_nodes-more (suc f) (suc g) (node null c) m l e = e
  resolve_nodes-more (suc f) (suc g) (node (leaf prefix value) c) m l e = e
  resolve_nodes-more (suc f) (suc g) (node (branch cs) c) m l e =
      elim (Option-cases (resolve_children (λ n. resolve_nodes store f n) cs)) [
        | inl out ↦ let e' = rw (out, resolve_nodes) at e in absurd (cc)
        | inr (ds, found) ↦
            let e' = rw (found, resolve_nodes) at e in
            let more =
              children-more (λ n. resolve_nodes store f n) (λ n. resolve_nodes store g n) cs ds
                (λ n x. resolve_nodes-more f g n x (omega arith)) found in
            rw (more, resolve_nodes) e'
      ]
  resolve_nodes-more (suc f) (suc g) (node (extension prefix target) c) m l e =
      elim (Option-cases (resolve_nodes store f target)) [
        | inl out ↦ let e' = rw (out, resolve_nodes) at e in absurd (cc)
        | inr (n, found) ↦
            let e' = rw (found, resolve_nodes) at e in
            rw (resolve_nodes-more f g target n (omega arith) found, resolve_nodes) e'
      ]
  resolve_nodes-more (suc f) (suc g) (node (MptNodeData.digest digest) c) m l e =
      elim (Option-cases (stored store (MptNodeReference.digest digest))) [
        | inl out ↦ let e' = rw (out, resolve_nodes) at e in rw (out, resolve_nodes) e'
        | inr (n, found) ↦
            let e' = rw (found, resolve_nodes) at e in
            rw (found, resolve_nodes) (resolve_nodes-more f g n m (omega arith) e')
      ]

  -- Some amount of fuel is enough.
  abbrev pub Resolves : MptNode → Type 0
  Resolves n = (f : ℕ) × (m : MptNode) × (resolve_nodes store f n ≡ some m)

  abbrev ChildrenResolve : Children → Type 0
  ChildrenResolve cs =
      (f : ℕ) × (ds : Children) × (resolve_children (λ n. resolve_nodes store f n) cs ≡ some ds)

  module _ (rank : B256 → ℕ) where
    -- Every digest in the node is of a rank below `k`.
    abbrev mutual
      pub IsBelow : ℕ → MptNode → Type 0
      IsBelow k (node null c) = Unit
      IsBelow k (node (branch cs) c) = AreBelow k cs
      IsBelow k (node (leaf prefix value) c) = Unit
      IsBelow k (node (extension prefix n) c) = IsBelow k n
      IsBelow k (node (MptNodeData.digest d) c) = rank d < k

      AreBelow : ℕ → Children → Type 0
      AreBelow k nil = Unit
      AreBelow k (vacant cs) = AreBelow k cs
      AreBelow k (child n cs) = IsBelow k n × AreBelow k cs

    -- The store has no cycle: what is stored for a digest holds only digests of a lower rank.
    abbrev pub IsRanked : Type 0
    IsRanked =
        (d : B256) (n : MptNode)
        → stored store (MptNodeReference.digest d) ≡ some n
        → IsBelow (rank d) n

    module _ (ranked : IsRanked) (k : ℕ)
        (lower : (j : ℕ) → j < k → (n : MptNode) → IsBelow j n → Resolves n) where
      digest-Resolves :
          (digest : B256) (c : Option MptNodeReference)
          → rank digest < k
          → Resolves (node (MptNodeData.digest digest) c)
      unfolding resolve_nodes
      digest-Resolves digest c h =
          elim (Option-cases (stored store (MptNodeReference.digest digest))) [
            | inl out ↦ (1, node (MptNodeData.digest digest) c, rw (out, resolve_nodes) refl)
            | inr (n, found) ↦
                let r = lower (rank digest) h n (ranked digest n found) in
                (suc r.0, r.1, rw (found, resolve_nodes) r.2)
          ]

      mutual
        unfolding resolve_nodes resolve_children

        resolves : (n : MptNode) → IsBelow k n → Resolves n
        resolves (node null c) h = (1, node null c, refl)
        resolves (node (branch cs) c) h =
            let r = children_resolve cs h in
            (suc r.0, from_data (branch r.1), rw (resolve_nodes, r.2) refl)
        resolves (node (leaf prefix value) c) h = (1, node (leaf prefix value) c, refl)
        resolves (node (extension prefix n) c) h =
            let r = resolves n h in
            (suc r.0, from_data (extension prefix r.1), rw (resolve_nodes, r.2) refl)
        resolves (node (MptNodeData.digest digest) c) h = digest-Resolves digest c h

        children_resolve : (cs : Children) → AreBelow k cs → ChildrenResolve cs
        children_resolve nil h = (0, nil, refl)
        children_resolve (vacant cs) h =
            let r = children_resolve cs h in (r.0, vacant r.1, rw r.2 refl)
        children_resolve (child n cs) h =
            let r = resolves n h.0 in
            let s = children_resolve cs h.1 in
            let r' = resolve_nodes-more r.0 (r.0 + s.0) n r.1 (omega arith) r.2 in
            let s' =
              children-more (λ m. resolve_nodes store s.0 m)
                (λ m. resolve_nodes store (r.0 + s.0) m) cs s.1
                (λ m x. resolve_nodes-more s.0 (r.0 + s.0) m x (omega arith)) s.2 in
            (r.0 + s.0, child r.1 s.1, rw (resolve_children, r') (rw s' refl))

    all_resolve : (k j : ℕ) → IsRanked → j < k → (n : MptNode) → IsBelow j n → Resolves n
    all_resolve zero j ranked l n h = absurd (omega arith)
    all_resolve (suc k) j ranked l n h =
        resolves ranked j (λ i li m x. all_resolve k i ranked (omega arith) m x) n h

    -- On a store with no cycle, where what is stored for a digest holds only digests of a lower
    -- rank, the recursion returns on every node: with some amount of fuel, and with any more, it
    -- gives one node.
    pub resolve_nodes-returns :
        (k : ℕ) (n : MptNode)
        → IsRanked
        → IsBelow k n
        → (f : ℕ) × (m : MptNode) × ((g : ℕ) → f ≤ g → resolve_nodes store g n ≡ some m)
    resolve_nodes-returns k n ranked h =
        let r = all_resolve (suc k) k ranked (omega arith) n h in
        (r.0, r.1, λ g l. resolve_nodes-more r.0 g n r.1 l r.2)
