-- ===== src/Mpt/Delete/Coherent.antt =====
-- `delete` of crates/mpt/src/mpt.rs and the caches of references.
use pico_subblock.Prelude.{
  ℕ, zero, suc, ◌+◌, ◌<◌, ◌≡◌, refl, Bool, true, false, Option, none, some, List, [], ◌∷◌, arith,
  All, beq, Bool-cases, inl, inr,
}
use pico_subblock.Result.{Result, ok, err, panic, ◌>>=◌}
use pico_subblock.Path.{IsNibble, IsByte, to_nibs, strip_prefix}
use pico_subblock.Path.Codec.{IsPath, to_nibs-IsNibble}
use pico_subblock.Path.Split.{strip_prefix-IsNibble}
use pico_subblock.Mpt.{
  Error, MptNode, MptNodeReference, Children, node, null, branch, leaf, extension, digest, nil,
  vacant, child, is_empty,
}
use pico_subblock.Mpt.Valid.{IsValid, AreValid, path_of, prefix_nibs-path_of, width}
use pico_subblock.Mpt.Hash.{External}
use pico_subblock.Mpt.Hash.Cache.{IsCoherent, AreCoherent}
use pico_subblock.Mpt.Insert.Coherent.{Keeps, KeepsAt, past_vacant, past_child}
use pico_subblock.Mpt.Delete.{
  remaining, adopt, collapse, merge_extension, finish_branch, finish_extension, put_back,
  delete_internal, delete_child, delete,
}
use pico_subblock.Mpt.Delete.Reshape.{remaining-Sole}
use pico_subblock.Mpt.Delete.Outcome.{Deletion, DeletionAt}
use pico_subblock.Mpt.Delete.Lookup.{delete_internal_outcome, delete_child_outcome}

module _ (ext : External) where
  remaining-IsCoherent :
      (cs : Children) (k i : ℕ) (orphan : MptNode)
      → AreCoherent ext cs
      → remaining cs k ≡ (i, orphan) ∷ []
      → IsCoherent ext orphan
  unfolding remaining
  remaining-IsCoherent nil k i orphan u e = absurd (cc)
  remaining-IsCoherent (vacant cs) k i orphan u e = remaining-IsCoherent cs (k + 1) i orphan u e
  remaining-IsCoherent (child n cs) k i orphan u e = let same : n ≡ orphan = cc in rw (← same) u.0

  adopt-Keeps :
      (i : ℕ) (orphan : MptNode)
      → IsValid orphan
      → IsCoherent ext orphan
      → Keeps ext (adopt i orphan >>= λ d. ok (true, node d none))
  unfolding adopt
  adopt-Keeps i (node null c) v u = tt
  adopt-Keeps i (node (leaf prefix value) c) v u = rw (prefix_nibs-path_of prefix v) (tt, tt)
  adopt-Keeps i (node (extension prefix n) c) v u = rw (prefix_nibs-path_of prefix v.0) (tt, u.1)
  adopt-Keeps i (node (branch cs) c) v u = (tt, u)
  adopt-Keeps i (node (digest d) c) v u = (tt, u)

  collapse-Keeps :
      (ds : Children) (rest : List (ℕ × MptNode))
      → AreValid ds
      → AreCoherent ext ds
      → remaining ds 0 ≡ rest
      → Keeps ext (collapse ds rest >>= λ d. ok (true, node d none))
  unfolding collapse
  collapse-Keeps ds [] v u e = tt
  collapse-Keeps ds ((i, orphan) ∷ []) v u e =
      adopt-Keeps i orphan (remaining-Sole ds 0 i orphan v e).valid
        (remaining-IsCoherent ds 0 i orphan u e)
  collapse-Keeps ds ((i, first) ∷ second ∷ rest) v u e = (tt, u)

  in_branch :
      (cs : Children) (c : Option MptNodeReference) (i : ℕ) (key : List ℕ)
      (m : Result Error (Bool × Children))
      → DeletionAt cs i key m
      → IsCoherent ext (node (branch cs) c)
      → KeepsAt ext m
      → Keeps ext (m >>= finish_branch c)
  unfolding finish_branch
  in_branch cs c i key (ok (false, ds)) d h k = rw (d.unchanged refl) h
  in_branch cs c i key (ok (true, ds)) d h k = collapse-Keeps ds (remaining ds 0) d.valid k refl
  in_branch cs c i key (err e) d h k = tt
  in_branch cs c i key panic d h k = tt

  at_child :
      (cs : Children) (m : Result Error (Bool × MptNode))
      → AreCoherent ext cs
      → Keeps ext m
      → KeepsAt ext (m >>= λ r. ok (put_back r cs))
  unfolding put_back
  at_child cs (ok (false, n)) u h = (h, u)
  at_child cs (ok (true, n)) u h = elim (Bool-cases (is_empty n)) [
    | inl gone ↦ rw gone u
    | inr kept ↦ rw kept (h, u)
  ]
  at_child cs (err e) u h = tt
  at_child cs panic u h = tt

  merge-Keeps :
      (prefix : List ℕ) (m : MptNode)
      → IsValid m
      → IsCoherent ext m
      → Keeps ext (merge_extension prefix (path_of prefix) m >>= λ d. ok (true, node d none))
  unfolding merge_extension
  merge-Keeps prefix (node null c) v u = (tt, tt)
  merge-Keeps prefix (node (leaf p value) c) v u = rw (prefix_nibs-path_of p v) (tt, tt)
  merge-Keeps prefix (node (extension p n) c) v u = rw (prefix_nibs-path_of p v.0) (tt, u.1)
  merge-Keeps prefix (node (branch cs) c) v u = (tt, u)
  merge-Keeps prefix (node (digest d) c) v u = (tt, u)

  in_extension :
      (prefix : List ℕ) (n : MptNode) (c : Option MptNodeReference) (key : List ℕ)
      (m : Result Error (Bool × MptNode))
      → Deletion n key m
      → IsCoherent ext (node (extension prefix n) c)
      → Keeps ext m
      → Keeps ext (m >>= finish_extension prefix (path_of prefix) c)
  unfolding finish_extension
  in_extension prefix n c key (ok (false, k)) d h u = rw (d.unchanged refl) h
  in_extension prefix n c key (ok (true, k)) d h u = merge-Keeps prefix k d.valid u
  in_extension prefix n c key (err e) d h u = tt
  in_extension prefix n c key panic d h u = tt

  at_extension :
      (prefix : List ℕ) (n : MptNode) (c : Option MptNodeReference) (key : List ℕ)
      → IsValid (node (extension prefix n) c)
      → IsCoherent ext (node (extension prefix n) c)
      → All IsNibble key
      → ((t : List ℕ) → All IsNibble t → Keeps ext (delete_internal n t))
      → Keeps ext (delete_internal (node (extension prefix n) c) key)
  unfolding delete_internal
  at_extension prefix n c key v u h below_n =
      rw (prefix_nibs-path_of prefix v.0) (cases (strip_prefix key (path_of prefix)) refl)
    where
      cases :
          (o : Option (List ℕ))
          → strip_prefix key (path_of prefix) ≡ o
          → Keeps ext (elim o [
            | none ↦ ok (false, node (extension prefix n) c)
            | some tail ↦ delete_internal n tail >>= finish_extension prefix (path_of prefix) c
          ])
      cases none q = u
      cases (some t) q =
          let nibbles = strip_prefix-IsNibble key (path_of prefix) t h q in
          in_extension prefix n c t (delete_internal n t) (delete_internal_outcome n t v.3 nibbles)
            u (below_n t nibbles)

  at_leaf :
      (prefix value : List ℕ) (c : Option MptNodeReference) (key : List ℕ)
      → IsPath prefix
      → IsCoherent ext (node (leaf prefix value) c)
      → Keeps ext (delete_internal (node (leaf prefix value) c) key)
  unfolding delete_internal
  at_leaf prefix value c key v u =
      rw (prefix_nibs-path_of prefix v) (elim (Bool-cases (beq (path_of prefix) key)) [
        | inl same ↦ rw same (tt, tt)
        | inr other ↦ rw other u
      ])

  mutual
    unfolding delete_internal width

    delete_internal-Keeps :
        (n : MptNode) (key : List ℕ)
        → IsValid n
        → IsCoherent ext n
        → All IsNibble key
        → Keeps ext (delete_internal n key)
    delete_internal-Keeps (node null c) key v u k = u
    delete_internal-Keeps (node (branch cs) c) [] v u k = tt
    delete_internal-Keeps (node (branch cs) c) (i ∷ tail) v u k =
        in_branch cs c i tail (delete_child cs i tail)
          (delete_child_outcome cs i tail v.0 (omega arith) k.1) u
          (delete_child-KeepsAt cs i tail v.0 (omega arith) u.1 k.1)
    delete_internal-Keeps (node (leaf prefix value) c) key v u k = at_leaf prefix value c key v u
    delete_internal-Keeps (node (extension prefix n) c) key v u k =
        at_extension prefix n c key v u k (λ t q. delete_internal-Keeps n t v.3 u.1 q)
    delete_internal-Keeps (node (digest d) c) key v u k = tt

    delete_child-KeepsAt :
        (cs : Children) (i : ℕ) (key : List ℕ)
        → AreValid cs
        → i < width cs
        → AreCoherent ext cs
        → All IsNibble key
        → KeepsAt ext (delete_child cs i key)
    delete_child-KeepsAt nil i key v b u k = elim b [ ]
    delete_child-KeepsAt (vacant cs) zero key v b u k = u
    delete_child-KeepsAt (child n cs) zero key v b u k =
        at_child cs (delete_internal n key) u.1 (delete_internal-Keeps n key v.1 u.0 k)
    delete_child-KeepsAt (vacant cs) (suc i) key v b u k =
        past_vacant ext (delete_child cs i key) (delete_child-KeepsAt cs i key v (omega arith) u k)
    delete_child-KeepsAt (child n cs) (suc i) key v b u k =
        past_child ext n (delete_child cs i key) u.0
          (delete_child-KeepsAt cs i key v.2 (omega arith) u.1 k)

  -- If every cached reference agrees with the data it stands beside, that holds again after a
  -- deletion that returns, on a valid trie and with a key of bytes.
  pub delete-IsCoherent :
      (n : MptNode) (key : List ℕ)
      → IsValid n
      → IsCoherent ext n
      → All IsByte key
      → Keeps ext (delete n key)
  unfolding delete
  delete-IsCoherent n key v u k = delete_internal-Keeps n (to_nibs key) v u (to_nibs-IsNibble key k)
