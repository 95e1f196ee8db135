-- ===== src/State/Proofs/Decoded.antt =====
-- crates/mpt/src/mpt.rs: a node that is decoded has no caches, and the nodes that a proof adds to a
-- store stand under their own references.
use pico_subblock.Prelude.{
  ℕ, zero, suc, ◌≡◌, ap, ◌∙◌, subst, List, [], ◌∷◌, ◌==◌, length, take, All, Bool-cases, inl, inr,
}
use pico_subblock.Result.{Result, ok, err, panic, ◌>>◌, assert}
use pico_subblock.Result.Passed.{after_bind, after_assert, ok_injective}
use pico_subblock.Path.{marks_extension}
use pico_subblock.Mpt.{Error, MptNode, MptNodeData, Children, branch, from_data, default}
use pico_subblock.Mpt.Hash.{External, reference, fill}
use pico_subblock.Mpt.Hash.Cache.{IsCoherent, AreCoherent, fill-IsCoherent_lem, reference-fill}
use pico_subblock.Mpt.Decode.{
  Prototype, Rlp, or_legacy, is_absent, at, val_at, decode_pair, decode_child, push,
  decode_children, decode_branch, decode_digest, decode_as, decode_fuel, decode, parse_proof,
}
use pico_subblock.Mpt.Resolve.{Store}
use pico_subblock.Mpt.Resolve.Keeps.{IsIndexed}
use pico_subblock.State.Proofs.{insert_nodes}

module _ (ext : External) (parser : Rlp) where
  abbrev Reads : (List ℕ → Result Error MptNode) → Type 0
  Reads rec = (i : List ℕ) (n : MptNode) → rec i ≡ ok n → IsCoherent ext n

  pair-IsCoherent :
      (rec : List ℕ → Result Error MptNode) (rlp : List ℕ)
      → Reads rec
      → Reads (decode_pair parser rec)
  unfolding decode_pair
  pair-IsCoherent rec rlp h i n e =
      let a = after_bind (val_at parser i 0) _ n e in
      let b = after_bind (marks_extension a.0) _ n a.2 in
      elim (Bool-cases b.0) [
        | inl yes_extension ↦
            let e' = rw yes_extension at b.2 in
            let c = after_bind (at parser i 1) _ n e' in
            let d = after_bind (rec c.0) _ n c.2 in
            subst (IsCoherent ext) (ok_injective d.2) ((tt, h c.0 d.0 d.1))
        | inr no_extension ↦
            let e' = rw no_extension at b.2 in
            let c = after_bind (val_at parser i 1) _ n e' in
            subst (IsCoherent ext) (ok_injective c.2) ((tt, tt))
      ]

  children-AreCoherent :
      (rec : List ℕ → Result Error MptNode) (l : List (List ℕ)) (cs : Children)
      → Reads rec
      → decode_children parser rec l ≡ ok cs
      → AreCoherent ext cs
  unfolding decode_children decode_child
  children-AreCoherent rec [] cs h e = subst (AreCoherent ext) (ok_injective e) tt
  children-AreCoherent rec (i ∷ l) cs h e =
      let a = after_bind (decode_child parser rec i) _ cs e in
      let b = after_bind (decode_children parser rec l) _ cs a.2 in
      let rest = children-AreCoherent rec l b.0 h b.1 in
      let p = after_bind (or_legacy (parser.prototype i)) _ a.0 a.1 in
      elim (Bool-cases (is_absent p.0)) [
        | inl absent ↦
            let e' = rw absent at p.2 in
            let o = ok_injective e' in
            subst (AreCoherent ext) (ap (λ x. push x b.0) o ∙ ok_injective b.2) rest
        | inr present ↦
            let e' = rw present at p.2 in
            let q = after_bind (rec i) _ a.0 e' in
            subst (AreCoherent ext) (ap (λ x. push x b.0) (ok_injective q.2) ∙ ok_injective b.2)
              ((h i q.0 q.1, rest))
      ]

  of_value :
      (v : List ℕ) (k m : Result Error MptNode) (n : MptNode)
      → elim v [ [] ↦ k | b ∷ bytes ↦ err Error.legacy_rlp ] ≡ ok n
      → k ≡ ok n
  of_value [] k m n e = e
  of_value (b ∷ v) k m n e = absurd (cc)

  branch-IsCoherent :
      (rec : List ℕ → Result Error MptNode) → Reads rec → Reads (decode_branch parser rec)
  unfolding decode_branch
  branch-IsCoherent rec h i n e =
      let a = after_bind (decode_children parser rec (take 16 (parser.items i))) _ n e in
      let b = after_bind (val_at parser i 16) _ n a.2 in
      let full = length (take 16 (parser.items i)) == 16 in
      let c = of_value b.0 (assert full >> ok (from_data (branch a.0))) panic n b.2 in
      let d = after_assert full (ok (from_data (branch a.0))) n c in
      subst (IsCoherent ext) (ok_injective d.1)
        ((tt, children-AreCoherent rec (take 16 (parser.items i)) a.0 h a.1))

  digest-IsCoherent : Reads (decode_digest parser)
  unfolding decode_digest
  digest-IsCoherent i n e =
      let a = after_bind (or_legacy (parser.as_val i)) _ n e in
      let d = after_assert (length a.0 == 32) (ok (from_data (MptNodeData.digest a.0))) n a.2 in
      subst (IsCoherent ext) (ok_injective d.1) ((tt, tt))

  default-IsCoherent :
      (n : MptNode) → ◌≡◌ {A = Result Error MptNode} (ok default) (ok n) → IsCoherent ext n
  default-IsCoherent n e = subst (IsCoherent ext) (ok_injective e) ((tt, tt))

  as-IsCoherent :
      (rec : List ℕ → Result Error MptNode) (i : List ℕ) (p : Prototype) (n : MptNode)
      → Reads rec
      → decode_as parser rec i p ≡ ok n
      → IsCoherent ext n
  unfolding decode_as
  as-IsCoherent rec i Prototype.null n h e = default-IsCoherent n e
  as-IsCoherent rec i (Prototype.of_data k) n h e = elim (Bool-cases (k == 0)) [
    | inl z ↦ let e' = rw z at e in default-IsCoherent n e'
    | inr nz ↦
        let e1 = rw nz at e in
        elim (Bool-cases (k == 32)) [
          | inl w ↦ let e' = rw w at e1 in digest-IsCoherent i n e'
          | inr nw ↦ let e' = rw nw at e1 in absurd (cc)
        ]
  ]
  as-IsCoherent rec i (Prototype.of_list k) n h e = elim (Bool-cases (k == 2)) [
    | inl z ↦ let e' = rw z at e in pair-IsCoherent rec i h i n e'
    | inr nz ↦
        let e1 = rw nz at e in
        elim (Bool-cases (k == 17)) [
          | inl w ↦ let e' = rw w at e1 in branch-IsCoherent rec h i n e'
          | inr nw ↦ let e' = rw nw at e1 in absurd (cc)
        ]
  ]

  fuel-IsCoherent : (f : ℕ) → Reads (decode_fuel parser f)
  unfolding decode_fuel
  fuel-IsCoherent zero i n e = absurd (cc)
  fuel-IsCoherent (suc f) i n e =
      let a = after_bind (or_legacy (parser.prototype i)) _ n e in
      as-IsCoherent (λ j. decode_fuel parser f j) i a.0 n (λ j m x. fuel-IsCoherent f j m x) a.2

  pub decode-IsCoherent : (i : List ℕ) (n : MptNode) → decode parser i ≡ ok n → IsCoherent ext n
  unfolding decode
  decode-IsCoherent i n e = fuel-IsCoherent (suc (length i)) i n e

  pub parse_proof-All :
      (proof : List (List ℕ)) (nodes : List MptNode)
      → parse_proof parser proof ≡ ok nodes
      → All (IsCoherent ext) nodes
  unfolding parse_proof
  parse_proof-All [] nodes e = subst (All (IsCoherent ext)) (ok_injective e) tt
  parse_proof-All (bytes ∷ proof) nodes e =
      let a = after_bind (decode parser bytes) _ nodes e in
      let b = after_bind (parse_proof parser proof) _ nodes a.2 in
      subst (All (IsCoherent ext)) (ok_injective b.2)
        ((decode-IsCoherent bytes a.0 a.1, parse_proof-All proof b.0 b.1))

  pub insert_nodes-IsIndexed :
      (nodes : List MptNode) (store : Store)
      → All (IsCoherent ext) nodes
      → IsIndexed ext store
      → IsIndexed ext (insert_nodes ext parser store nodes)
  unfolding insert_nodes
  insert_nodes-IsIndexed [] store h s = s
  insert_nodes-IsIndexed (n ∷ nodes) store h s =
      insert_nodes-IsIndexed nodes ((reference ext n, fill ext n) ∷ store) h.1
        (reference-fill ext n, fill-IsCoherent_lem ext n h.0, s)
