-- ===== src/State/Proofs/Used.antt =====
-- crates/mpt/src/mpt.rs: the nodes of proofs end up in the trie. What is gathered of a proof stays
-- in the store, and `resolve_nodes` leaves no digest of a node that is in the store.
use pico_subblock.Prelude.{
  ℕ, zero, suc, ◌≡◌, refl, ap, sym, ◌∙◌, subst, Bool, true, false, ◌||◌, Option, none, some, List,
  [], ◌∷◌, beq, beq_refl, eq_of_beq, All, Bool-cases, Option-cases, inl, inr,
}
use pico_subblock.Result.{Result, ok, err, panic, unwrap_ok}
use pico_subblock.Result.Passed.{after_bind, ok_injective}
use pico_subblock.Mpt.{
  B256, Error, MptNode, MptNodeData, MptNodeReference, Children, node, null, branch, leaf,
  extension, nil, vacant, child,
}
use pico_subblock.Mpt.Hash.{External, reference, fill, fill_children}
use pico_subblock.Mpt.Decode.{Rlp, parse_proof}
use pico_subblock.Mpt.Touched.{same_reference}
use pico_subblock.Mpt.Resolve.{Store, stored, resolve_children, resolve_nodes}
use pico_subblock.Mpt.Proof.{FromProofError, mpt_from_proof}
use pico_subblock.State.{after_hash}
use pico_subblock.State.Proofs.{
  StorageProof, Gathered, or_decoding, insert_nodes, add_proof, add_storage_proofs,
}

pub of_unwrapped {ℓ} :
    {E : Type ℓ} {A : Type 0} (m : Result E A) (a : A)
    → unwrap_ok {E' = FromProofError} m ≡ ok a
    → m ≡ ok a
of_unwrapped (ok x) a h = ap ok (ok_injective h)
of_unwrapped (err e) a h = absurd (cc)
of_unwrapped panic a h = absurd (cc)

pub of_decoded : {A : Type 0} (m : Result Error A) (a : A) → or_decoding m ≡ ok a → m ≡ ok a
of_decoded (ok x) a h = ap ok (ok_injective h)
of_decoded (err e) a h = absurd (cc)
of_decoded panic a h = absurd (cc)

-- Whether a digest stands in a trie for a part that is not there.
abbrev mutual
  pub holds_digest : MptNode → B256 → Bool
  holds_digest (node null c) d = false
  holds_digest (node (branch cs) c) d = hold_digest cs d
  holds_digest (node (leaf prefix value) c) d = false
  holds_digest (node (extension prefix n) c) d = holds_digest n d
  holds_digest (node (MptNodeData.digest e) c) d = beq e d

  pub hold_digest : Children → B256 → Bool
  hold_digest nil d = false
  hold_digest (vacant cs) d = hold_digest cs d
  hold_digest (child n cs) d = holds_digest n d || hold_digest cs d

-- Whether the store has a node for a digest.
abbrev pub IsStored : Store → B256 → Type 0
IsStored store d = (n : MptNode) × (stored store (MptNodeReference.digest d) ≡ some n)

module _ (store : Store) (d : B256) (known : IsStored store d) where
  children-resolved :
      (rec : MptNode → Option MptNode) (cs ds : Children)
      → ((n m : MptNode) → rec n ≡ some m → holds_digest m d ≡ false)
      → resolve_children rec cs ≡ some ds
      → hold_digest ds d ≡ false
  unfolding resolve_children
  children-resolved rec nil ds f e =
      let e' : nil ≡ ds = cc (e) in subst (λ x. hold_digest x d ≡ false) e' refl
  children-resolved rec (vacant cs) ds f e = elim (Option-cases (resolve_children rec cs)) [
    | inl out ↦ let e' = rw out at e in absurd (cc)
    | inr (xs, found) ↦
        let e' = rw found at e in
        let ds' : vacant xs ≡ ds = cc (e') in
        subst (λ x. hold_digest x d ≡ false) ds' (children-resolved rec cs xs f found)
  ]
  children-resolved rec (child n cs) ds f e = elim (Option-cases (rec n)) [
    | inl out ↦ let e' = rw (resolve_children, out) at e in absurd (cc)
    | inr (m, one) ↦
        let e1 = rw (resolve_children, one) at e in
        elim (Option-cases (resolve_children rec cs)) [
          | inl out ↦ let e' = rw out at e1 in absurd (cc)
          | inr (xs, found) ↦
              let e' = rw found at e1 in
              let ds' : child m xs ≡ ds = cc (e') in
              subst (λ x. hold_digest x d ≡ false) ds'
                (rw (f n m one) (children-resolved rec cs xs f found))
        ]
  ]

  -- A node that is resolved holds no digest of a node of the store.
  pub resolve_nodes-resolved :
      (f : ℕ) (n m : MptNode) → resolve_nodes store f n ≡ some m → holds_digest m d ≡ false
  unfolding resolve_nodes
  resolve_nodes-resolved zero n m e = absurd (cc)
  resolve_nodes-resolved (suc f) (node null c) m e =
      let e' : node null c ≡ m = cc (e) in subst (λ x. holds_digest x d ≡ false) e' refl
  resolve_nodes-resolved (suc f) (node (leaf prefix value) c) m e =
      let e' : node (leaf prefix value) c ≡ m = cc (e) in
      subst (λ x. holds_digest x d ≡ false) e' refl
  resolve_nodes-resolved (suc f) (node (branch cs) c) m e =
      elim (Option-cases (resolve_children (λ n. resolve_nodes store f n) cs)) [
        | inl out ↦ let e' = rw (out, resolve_nodes) at e in absurd (cc)
        | inr (ds, found) ↦
            let e' = rw (found, resolve_nodes) at e in
            let m' : node (branch ds) none ≡ m = cc (e') in
            subst (λ x. holds_digest x d ≡ false) m'
              (children-resolved (λ n. resolve_nodes store f n) cs ds
                (λ n m x. resolve_nodes-resolved f n m x) found)
      ]
  resolve_nodes-resolved (suc f) (node (extension prefix target) c) m e =
      elim (Option-cases (resolve_nodes store f target)) [
        | inl out ↦ let e' = rw (out, resolve_nodes) at e in absurd (cc)
        | inr (n, found) ↦
            let e' = rw (found, resolve_nodes) at e in
            let m' : node (extension prefix n) none ≡ m = cc (e') in
            subst (λ x. holds_digest x d ≡ false) m' (resolve_nodes-resolved f target n found)
      ]
  resolve_nodes-resolved (suc f) (node (MptNodeData.digest g) c) m e =
      elim (Option-cases (stored store (MptNodeReference.digest g))) [
        | inl out ↦
            let e' = rw (out, resolve_nodes) at e in
            let m' : node (MptNodeData.digest g) c ≡ m = cc (e') in
            subst (λ x. holds_digest x d ≡ false) m'
              (elim (Bool-cases (beq g d)) [
                | inl same ↦
                    let out' : stored store (MptNodeReference.digest d) ≡ none =
                      subst (λ x. stored store (MptNodeReference.digest x) ≡ none)
                        (eq_of_beq g d same) out in
                    let both = sym out' ∙ known.1 in absurd (cc (both))
                | inr other ↦ other
              ])
        | inr (n, found) ↦
            let e' = rw (found, resolve_nodes) at e in resolve_nodes-resolved f n m e'
      ]

same_reference_refl : (r : MptNodeReference) → same_reference r r ≡ true
unfolding same_reference
same_reference_refl (MptNodeReference.bytes b) = beq_refl b
same_reference_refl (MptNodeReference.digest d) = beq_refl d

IsStored-insert :
    (store : Store) (r : MptNodeReference) (n : MptNode) (d : B256)
    → IsStored store d
    → IsStored ((r, n) ∷ store) d
unfolding stored
IsStored-insert store r n d h = elim (Bool-cases (same_reference r (MptNodeReference.digest d))) [
  | inl same ↦ (n, rw same refl)
  | inr other ↦ (h.0, rw other h.1)
]

module _ (ext : External) (parser : Rlp) where
  mutual
    unfolding fill

    holds_digest-fill : (n : MptNode) (d : B256) → holds_digest (fill ext n) d ≡ holds_digest n d
    holds_digest-fill (node null none) d = refl
    holds_digest-fill (node (branch cs) none) d = hold_digest-fill cs d
    holds_digest-fill (node (leaf prefix value) none) d = refl
    holds_digest-fill (node (extension prefix n) none) d = holds_digest-fill n d
    holds_digest-fill (node (MptNodeData.digest e) none) d = refl
    holds_digest-fill (node x (some r)) d = refl

    hold_digest-fill :
        (cs : Children) (d : B256) → hold_digest (fill_children ext cs) d ≡ hold_digest cs d
    hold_digest-fill nil d = refl
    hold_digest-fill (vacant cs) d = hold_digest-fill cs d
    hold_digest-fill (child n cs) d = rw (holds_digest-fill n d, hold_digest-fill cs d) refl

  pub holds_digest-after_hash :
      (n : MptNode) (d : B256) → holds_digest (after_hash ext n) d ≡ holds_digest n d
  unfolding after_hash
  holds_digest-after_hash (node null c) d = refl
  holds_digest-after_hash (node (branch cs) c) d = holds_digest-fill (node (branch cs) c) d
  holds_digest-after_hash (node (leaf prefix value) c) d =
      holds_digest-fill (node (leaf prefix value) c) d
  holds_digest-after_hash (node (extension prefix n) c) d =
      holds_digest-fill (node (extension prefix n) c) d
  holds_digest-after_hash (node (MptNodeData.digest e) c) d =
      holds_digest-fill (node (MptNodeData.digest e) c) d

  abbrev pub Keeps : Store → Store → Type 0
  Keeps before after = (d : B256) → IsStored before d → IsStored after d

  -- The store has each node of the proof that is referred to by a digest.
  abbrev pub HasNodes : Store → List (List ℕ) → Type 0
  HasNodes store proof =
      (nodes : List MptNode) × (parse_proof parser proof ≡ ok nodes)
      × All
          (λ (n : MptNode).
            (d : B256) → reference ext n ≡ MptNodeReference.digest d → IsStored store d)
          nodes

  -- Each node of the proof that is referred to by a digest is in the trie: the digest does not
  -- stand for it.
  abbrev pub IsUsed : MptNode → List (List ℕ) → Type 0
  IsUsed trie proof =
      (nodes : List MptNode) × (parse_proof parser proof ≡ ok nodes)
      × All
          (λ (n : MptNode).
            (d : B256) → reference ext n ≡ MptNodeReference.digest d → holds_digest trie d ≡ false)
          nodes

  All-map {ℓ κ} :
      {P : MptNode → Type ℓ} {Q : MptNode → Type κ} (nodes : List MptNode)
      → ((n : MptNode) → P n → Q n)
      → All P nodes
      → All Q nodes
  All-map [] f h = tt
  All-map (n ∷ nodes) f h = (f n h.0, All-map nodes f h.1)

  pub keep-HasNodes :
      (before after : Store) (proof : List (List ℕ))
      → Keeps before after
      → HasNodes before proof
      → HasNodes after proof
  keep-HasNodes before after proof k h = (h.0, h.1, All-map h.0 (λ n x d e. k d (x d e)) h.2)

  pub keep_all-HasNodes :
      (before after : Store) (proofs : List (List (List ℕ)))
      → Keeps before after
      → All (HasNodes before) proofs
      → All (HasNodes after) proofs
  keep_all-HasNodes before after [] k h = tt
  keep_all-HasNodes before after (p ∷ proofs) k h =
      (keep-HasNodes before after p k h.0, keep_all-HasNodes before after proofs k h.1)

  pub insert_nodes-Keeps :
      (nodes : List MptNode) (store : Store) → Keeps store (insert_nodes ext parser store nodes)
  unfolding insert_nodes
  insert_nodes-Keeps [] store d h = h
  insert_nodes-Keeps (n ∷ nodes) store d h =
      insert_nodes-Keeps nodes ((reference ext n, fill ext n) ∷ store) d
        (IsStored-insert store (reference ext n) (fill ext n) d h)

  inserted :
      (nodes : List MptNode) (store : Store)
      → All
          (λ (n : MptNode).
            (d : B256)
            → reference ext n ≡ MptNodeReference.digest d
            → IsStored (insert_nodes ext parser store nodes) d)
          nodes
  unfolding insert_nodes stored
  inserted [] store = tt
  inserted (n ∷ nodes) store = (
    λ d e.
        insert_nodes-Keeps nodes ((reference ext n, fill ext n) ∷ store) d
          (fill ext n, rw (e, same_reference_refl (MptNodeReference.digest d)) refl),
    inserted nodes ((reference ext n, fill ext n) ∷ store),
  )

  pub add_proof-HasNodes :
      (g after : Gathered) (proof : List (List ℕ))
      → add_proof ext parser g proof ≡ ok after
      → Keeps g.nodes after.nodes × HasNodes after.nodes proof
  unfolding add_proof
  add_proof-HasNodes g after proof e =
      let a = after_bind (unwrap_ok (parse_proof parser proof)) _ after e in
      let b = after_bind (unwrap_ok (mpt_from_proof ext a.0)) _ after a.2 in
      let read = of_unwrapped (parse_proof parser proof) a.0 a.1 in
      subst (λ (x : Gathered). Keeps g.nodes x.nodes × HasNodes x.nodes proof) (ok_injective b.2)
        ((insert_nodes-Keeps a.0 g.nodes, (a.0, read, inserted a.0 g.nodes)))

  abbrev pub proofs_of : List StorageProof → List (List (List ℕ))
  proofs_of [] = []
  proofs_of (p ∷ proofs) = p.proof ∷ proofs_of proofs

  pub add_storage_proofs-HasNodes :
      (proofs : List StorageProof) (g after : Gathered)
      → add_storage_proofs ext parser g proofs ≡ ok after
      → Keeps g.nodes after.nodes × All (HasNodes after.nodes) (proofs_of proofs)
  unfolding add_storage_proofs
  add_storage_proofs-HasNodes [] g after e =
      subst (λ (x : Gathered). Keeps g.nodes x.nodes × Unit {0}) (ok_injective e) ((λ d h. h), tt)
  add_storage_proofs-HasNodes (p ∷ proofs) g after e =
      let a = after_bind (add_proof ext parser g p.proof) _ after e in
      let one = add_proof-HasNodes g a.0 p.proof a.1 in
      let rest = add_storage_proofs-HasNodes proofs a.0 after a.2 in
      (
        λ d h. rest.0 d (one.0 d h),
        (keep-HasNodes a.0.nodes after.nodes p.proof rest.0 one.1, rest.1),
      )

  -- A trie that is resolved from a store holds no digest of a proof that the store has.
  pub resolved-IsUsed :
      (store : Store) (fuel : ℕ) (n m : MptNode) (proofs : List (List (List ℕ)))
      → resolve_nodes store fuel n ≡ some m
      → All (HasNodes store) proofs
      → All (IsUsed (after_hash ext m)) proofs
  resolved-IsUsed store fuel n m [] e h = tt
  resolved-IsUsed store fuel n m (p ∷ proofs) e h = (
    (
      h.0.0,
      h.0.1,
      All-map h.0.0
          (λ x k d r.
            holds_digest-after_hash m d ∙ resolve_nodes-resolved store d (k d r) fuel n m e)
          h.0.2,
    ),
    resolved-IsUsed store fuel n m proofs e h.1,
  )
