-- ===== src/Mpt/Insert/Coherent.antt =====
-- `insert` of crates/mpt/src/mpt.rs and the caches of references.
use mathlib.Core.List.{append-nil}
use native.Mathlib.Numerals.{add-one}
use pico_subblock.Prelude.{
  ℕ, zero, suc, ◌<◌, ◌≡◌, refl, ◌∙◌, Bool, true, false, Option, none, List, [], ◌∷◌, ◌++◌, ◌==◌,
  if◌then◌else◌, length, drop, arith, All, All-append_right, beq, Bool-cases, inl, inr, longer,
  ==_refl, drop-suc-length_append, drop-length_append, zero-ltb-suc,
}
use pico_subblock.Result.{Result, ok, err, panic, ◌>>=◌}
use pico_subblock.Path.{IsNibble, IsByte, to_nibs, lcp, to_encoded_path}
use pico_subblock.Path.Codec.{to_nibs-IsNibble}
use pico_subblock.Path.Split.{Meet, within, beyond, fork, meet}
use pico_subblock.Mpt.{
  Error, value_in_branch, MptNode, MptNodeReference, Children, node, null, branch, leaf, extension,
  digest, nil, vacant, child, from_data, no_children,
}
use pico_subblock.Mpt.Valid.{
  IsValid, AreValid, path_of, path_of-IsNibble, prefix_nibs-path_of, width,
}
use pico_subblock.Mpt.Uniform.{fork_branch_lem, forked, two_children, written}
use pico_subblock.Mpt.Hash.{External}
use pico_subblock.Mpt.Hash.Cache.{IsCoherent, AreCoherent}
use pico_subblock.Mpt.Insert.{
  insert, insert_internal, insert_child, insert_leaf, insert_at_leaf, split_extension, fork_branch,
}
use pico_subblock.Mpt.Insert.Leaf.{Insertion}
use pico_subblock.Mpt.Insert.Lookup.{InsertionAt, insert_internal_outcome, insert_child_outcome}
use pico_subblock.Mpt.Insert.Extension.{rest_of, rest_of-lem}

module _ (ext : External) where
  -- A call that returns leaves a node whose caches are right.
  abbrev pub Keeps : Result Error (Bool × MptNode) → Type 0
  Keeps (ok r) = IsCoherent ext r.1
  Keeps (err e) = Unit
  Keeps panic = Unit

  abbrev pub KeepsAt : Result Error (Bool × Children) → Type 0
  KeepsAt (ok r) = AreCoherent ext r.1
  KeepsAt (err e) = Unit
  KeepsAt panic = Unit

  written-AreCoherent :
      (cs : Children) (i : ℕ) (n : MptNode)
      → AreCoherent ext cs
      → IsCoherent ext n
      → AreCoherent ext (written cs i n)
  written-AreCoherent nil i n u h = tt
  written-AreCoherent (vacant cs) zero n u h = (h, u)
  written-AreCoherent (child m cs) zero n u h = (h, u.1)
  written-AreCoherent (vacant cs) (suc i) n u h = written-AreCoherent cs i n u h
  written-AreCoherent (child m cs) (suc i) n u h = (u.0, written-AreCoherent cs i n u.1 h)

  forked-Coherent :
      (p : List ℕ) (cs : Children) → AreCoherent ext cs → IsCoherent ext (node (forked p cs) none)
  forked-Coherent [] cs u = (tt, u)
  forked-Coherent (a ∷ p) cs u = rw (zero-ltb-suc (length p)) (tt, (tt, u))

  fork-Keeps :
      (p r s : List ℕ) (x y : ℕ) (old new : MptNode)
      → All IsNibble (p ++ x ∷ r)
      → All IsNibble (p ++ y ∷ s)
      → IsCoherent ext old
      → IsCoherent ext new
      → Keeps (
          fork_branch (p ++ x ∷ r) (p ++ y ∷ s) (length p) old new >>= λ data'.
          ok (true, node data' none))
  fork-Keeps p r s x y old new hs hk uo un =
      rw
        (fork_branch_lem p r s x y old new (All-append_right IsNibble p (x ∷ r) hs).0
          (All-append_right IsNibble p (y ∷ s) hk).0)
        (forked-Coherent p (two_children x old y new) (
          written-AreCoherent (written no_children x old) y new
            (written-AreCoherent no_children x old tt uo) un))

  at_leaf :
      (self prefix old_value : List ℕ) (c : Option MptNodeReference) (key value : List ℕ)
      → IsCoherent ext (node (leaf prefix old_value) c)
      → All IsNibble self
      → All IsNibble key
      → Keeps (insert_at_leaf self prefix old_value c key value)
  unfolding insert_at_leaf
  at_leaf self prefix old_value c key value h hs hk = cases (meet self key)
    where
      unchanged : Keeps (
          if beq old_value value
          then ok (false, node (leaf prefix old_value) c)
          else ok (true, node (leaf prefix value) none))
      unchanged = elim (Bool-cases (beq old_value value)) [
        | inl same ↦ rw same h
        | inr other ↦ rw other (tt, tt)
      ]

      cases : Meet self key → Keeps (insert_at_leaf self prefix old_value c key value)
      cases (within [] k q) =
          let k' : key ≡ self = k ∙ append-nil self in rw (q, k', ==_refl (length self)) unchanged
      cases (within (z ∷ r) k q) = rw (q, k, longer self z r, ==_refl (length self)) tt
      cases (beyond x r k q) = rw (q, k, longer key x r, ==_refl (length key)) tt
      cases (fork p x r y s k m n q) =
          rw
            (
              q,
              k,
              m,
              longer p x r,
              longer p y s,
              add-one,
              drop-suc-length_append p x r,
              drop-suc-length_append p y s,
            )
            (fork-Keeps p r s x y (from_data (leaf (to_encoded_path r true) old_value))
              (from_data (leaf (to_encoded_path s true) value)) (rw k at hs) (rw m at hk) (tt, tt)
              (tt, tt))

  rest_of-IsCoherent : (r : List ℕ) (n : MptNode) → IsCoherent ext n → IsCoherent ext (rest_of r n)
  rest_of-IsCoherent [] n h = h
  rest_of-IsCoherent (z ∷ r) n h = (tt, h)

  in_branch :
      (cs : Children) (c : Option MptNodeReference) (i : ℕ) (key value : List ℕ)
      (m : Result Error (Bool × Children))
      → InsertionAt cs i key value m
      → IsCoherent ext (node (branch cs) c)
      → KeepsAt m
      → Keeps (m >>= λ r. ok (r.0, node (branch r.1) (if r.0 then none else c)))
  in_branch cs c i key value (ok (true, ds)) d h k = (tt, k)
  in_branch cs c i key value (ok (false, ds)) d h k = rw (d.unchanged refl) h
  in_branch cs c i key value (err e) d h k = tt
  in_branch cs c i key value panic d h k = tt

  in_extension :
      (prefix : List ℕ) (n : MptNode) (c : Option MptNodeReference) (key value : List ℕ)
      (m : Result Error (Bool × MptNode))
      → Insertion n key value m
      → IsCoherent ext (node (extension prefix n) c)
      → Keeps m
      → Keeps (m >>= λ r. ok (r.0, node (extension prefix r.1) (if r.0 then none else c)))
  in_extension prefix n c key value (ok (true, k)) d h u = (tt, u)
  in_extension prefix n c key value (ok (false, k)) d h u = rw (d.unchanged refl) h
  in_extension prefix n c key value (err e) d h u = tt
  in_extension prefix n c key value panic d h u = tt

  at_child :
      (cs : Children) (m : Result Error (Bool × MptNode))
      → AreCoherent ext cs
      → Keeps m
      → KeepsAt (m >>= λ r. ok (r.0, child r.1 cs))
  at_child cs (ok r) u h = (h, u)
  at_child cs (err e) u h = tt
  at_child cs panic u h = tt

  pub past_vacant :
      (m : Result Error (Bool × Children)) → KeepsAt m → KeepsAt (m >>= λ r. ok (r.0, vacant r.1))
  past_vacant (ok r) h = h
  past_vacant (err e) h = tt
  past_vacant panic h = tt

  pub past_child :
      (n : MptNode) (m : Result Error (Bool × Children))
      → IsCoherent ext n
      → KeepsAt m
      → KeepsAt (m >>= λ r. ok (r.0, child n r.1))
  past_child n (ok r) u h = (u, h)
  past_child n (err e) u h = tt
  past_child n panic u h = tt

  at_extension :
      (prefix : List ℕ) (n : MptNode) (c : Option MptNodeReference) (key value : List ℕ)
      → IsValid (node (extension prefix n) c)
      → IsCoherent ext (node (extension prefix n) c)
      → All IsNibble key
      → ((t : List ℕ) → All IsNibble t → Keeps (insert_internal n t value))
      → Keeps (insert_internal (node (extension prefix n) c) key value)
  unfolding insert_internal split_extension
  at_extension prefix n c key value v h k below_n =
      rw (prefix_nibs-path_of prefix v.0)
        (cases (path_of prefix) key (path_of-IsNibble prefix v.0) k (meet (path_of prefix) key))
    where
      cases :
          (self k : List ℕ)
          → All IsNibble self
          → All IsNibble k
          → Meet self k
          → Keeps (
              if lcp self k == length self
              then (insert_internal n (drop (lcp self k) k) value >>= λ r.
                  ok (r.0, node (extension prefix r.1) (if r.0 then none else c)))
              else if lcp self k == length k
              then err value_in_branch
              else split_extension self n k (lcp self k) value)
      cases self k hs hk (within r m w) =
          let hr = All-append_right IsNibble self r (rw m at hk) in
          rw (w, ==_refl (length self), m, drop-length_append self r)
            (in_extension prefix n c r value (insert_internal n r value)
              (insert_internal_outcome n r value v.3 hr) h (below_n r hr))
      cases self k hs hk (beyond x r m w) = rw (w, m, longer k x r, ==_refl (length k)) tt
      cases self k hs hk (fork p x r y s m o d w) =
          rw
            (
              w,
              m,
              o,
              longer p x r,
              longer p y s,
              add-one,
              drop-suc-length_append p x r,
              drop-suc-length_append p y s,
              rest_of-lem p x r n,
            )
            (fork-Keeps p r s x y (rest_of r n) (from_data (leaf (to_encoded_path s true) value))
              (rw m at hs) (rw o at hk) (rest_of-IsCoherent r n h.1) (tt, tt))

  mutual
    unfolding insert_internal insert_leaf width

    insert_internal-Keeps :
        (n : MptNode) (key value : List ℕ)
        → IsValid n
        → IsCoherent ext n
        → All IsNibble key
        → Keeps (insert_internal n key value)
    insert_internal-Keeps (node null c) key value v h k = (tt, tt)
    insert_internal-Keeps (node (branch cs) c) [] value v h k = tt
    insert_internal-Keeps (node (branch cs) c) (i ∷ tail) value v h k =
        in_branch cs c i tail value (insert_child cs i tail value)
          (insert_child_outcome cs i tail value v.0 (omega arith) k.1) h
          (insert_child-KeepsAt cs i tail value v.0 (omega arith) h.1 k.1)
    insert_internal-Keeps (node (leaf prefix old_value) c) key value v h k =
        rw (prefix_nibs-path_of prefix v)
          (at_leaf (path_of prefix) prefix old_value c key value h (path_of-IsNibble prefix v) k)
    insert_internal-Keeps (node (extension prefix n) c) key value v h k =
        at_extension prefix n c key value v h k (λ t q. insert_internal-Keeps n t value v.3 h.1 q)
    insert_internal-Keeps (node (digest d) c) key value v h k = tt

    insert_child-KeepsAt :
        (cs : Children) (i : ℕ) (key value : List ℕ)
        → AreValid cs
        → i < width cs
        → AreCoherent ext cs
        → All IsNibble key
        → KeepsAt (insert_child cs i key value)
    insert_child-KeepsAt nil i key value v b h k = elim b [ ]
    insert_child-KeepsAt (vacant cs) zero key value v b h k = ((tt, tt), h)
    insert_child-KeepsAt (child n cs) zero key value v b h k =
        at_child cs (insert_internal n key value) h.1 (insert_internal-Keeps n key value v.1 h.0 k)
    insert_child-KeepsAt (vacant cs) (suc i) key value v b h k =
        past_vacant (insert_child cs i key value)
          (insert_child-KeepsAt cs i key value v (omega arith) h k)
    insert_child-KeepsAt (child n cs) (suc i) key value v b h k =
        past_child n (insert_child cs i key value) h.0
          (insert_child-KeepsAt cs i key value v.2 (omega arith) h.1 k)

  -- If every cached reference agrees with the data it stands beside, that holds again after an
  -- insertion that returns, on a valid trie and with a key of bytes: each node on the changed path
  -- has its cache emptied.
  pub insert-IsCoherent :
      (n : MptNode) (key value : List ℕ)
      → IsValid n
      → IsCoherent ext n
      → All IsByte key
      → Keeps (insert n key value)
  unfolding insert
  insert-IsCoherent n key [] v h k = tt
  insert-IsCoherent n key (b ∷ value) v h k =
      insert_internal-Keeps n (to_nibs key) (b ∷ value) v h (to_nibs-IsNibble key k)
