-- ===== src/Mpt/Delete/Total.antt =====
-- When `delete` of crates/mpt/src/mpt.rs fails, over keys of one length.
use pico_subblock.Prelude.{
  ℕ, zero, suc, ◌+◌, ◌≤◌, ◌<◌, ◌≡◌, refl, ap, ◌∙◌, Bool, true, false, Option, none, some, List, [],
  ◌∷◌, ◌++◌, length, arith, length-append, All, All-append, beq, Bool-cases, inl, inr,
}
use pico_subblock.Result.{Result, ok, err, panic, ◌>>=◌}
use pico_subblock.Path.{IsNibble, IsByte, to_nibs, strip_prefix}
use pico_subblock.Path.Codec.{IsPath, to_nibs-IsNibble}
use pico_subblock.Path.Split.{append_of_strip_prefix, strip_prefix-IsNibble}
use pico_subblock.Mpt.{
  B256, Error, node_not_resolved, value_in_branch, rlp, legacy_rlp, MptNode, MptNodeReference,
  Children, node, null, branch, leaf, extension, digest, nil, vacant, child, is_empty,
}
use pico_subblock.Mpt.Valid.{
  IsValid, AreValid, path_of, path_of-to_encoded_path, path_of-IsNibble, prefix_nibs-path_of, width,
  occupied,
}
use pico_subblock.Mpt.Uniform.{IsUniform, AreUniform, hidden, hidden_child}
use pico_subblock.Mpt.Insert.Total.{Ends, EndsAt, past_vacant, past_child}
use pico_subblock.Mpt.Delete.{
  remaining, adopt, collapse, merge_extension, finish_branch, finish_extension, put_back,
  delete_internal, delete_child, delete,
}
use pico_subblock.Mpt.Delete.Reshape.{length-remaining, remaining-Sole}
use pico_subblock.Mpt.Delete.Outcome.{Deletion, DeletionAt}
use pico_subblock.Mpt.Delete.Lookup.{delete_internal_outcome, delete_child_outcome}

remaining-IsUniform :
    (cs : Children) (k i : ℕ) (orphan : MptNode) (l : ℕ)
    → AreUniform cs l
    → remaining cs k ≡ (i, orphan) ∷ []
    → IsUniform orphan l
unfolding remaining
remaining-IsUniform nil k i orphan l u e = absurd (cc)
remaining-IsUniform (vacant cs) k i orphan l u e = remaining-IsUniform cs (k + 1) i orphan l u e
remaining-IsUniform (child n cs) k i orphan l u e = let same : n ≡ orphan = cc in rw (← same) u.0

adopt-Ends :
    (i : ℕ) (orphan : MptNode) (l : ℕ)
    → IsNibble i
    → is_empty orphan ≡ false
    → IsValid orphan
    → IsUniform orphan l
    → Ends none (suc l) (adopt i orphan >>= λ d. ok (true, node d none))
unfolding adopt is_empty
adopt-Ends i (node null c) l h f v u = absurd (cc)
adopt-Ends i (node (leaf prefix value) c) l h f v u = rw (prefix_nibs-path_of prefix v) (
  refl,
  ap length (path_of-to_encoded_path (i ∷ path_of prefix) true (h, path_of-IsNibble prefix v))
      ∙ ap suc u,
)
adopt-Ends i (node (extension prefix n) c) l h f v u =
    let path =
      path_of-to_encoded_path (i ∷ path_of prefix) false (h, path_of-IsNibble prefix v.0) in
    rw (prefix_nibs-path_of prefix v.0) (refl, (u.0, omega (arith, ap length path, u.1), u.2))
adopt-Ends i (node (branch cs) c) l h f v u =
    let path = path_of-to_encoded_path (i ∷ []) false (h, tt) in
    (refl, (l, omega (arith, ap length path), u))
adopt-Ends i (node (digest d) c) l h f v u =
    let path = path_of-to_encoded_path (i ∷ []) false (h, tt) in
    (refl, (l, omega (arith, ap length path), tt))

collapse-Ends :
    (ds : Children) (rest : List (ℕ × MptNode)) (l : ℕ)
    → AreValid ds
    → width ds ≡ 16
    → 1 ≤ occupied ds
    → AreUniform ds l
    → remaining ds 0 ≡ rest
    → Ends none (suc l) (collapse ds rest >>= λ d. ok (true, node d none))
unfolding collapse
collapse-Ends ds [] l v w n u e = absurd (omega (arith, length-remaining ds 0, ap length e))
collapse-Ends ds ((i, orphan) ∷ []) l v w n u e =
    let s = remaining-Sole ds 0 i orphan v e in
    adopt-Ends i orphan l (omega (arith, s.high)) s.filled s.valid
      (remaining-IsUniform ds 0 i orphan l u e)
collapse-Ends ds ((i, first) ∷ second ∷ rest) l v w n u e = (refl, u)

in_branch :
    (cs : Children) (c : Option MptNodeReference) (i : ℕ) (key : List ℕ) (o : Option B256) (l : ℕ)
    (m : Result Error (Bool × Children))
    → width cs ≡ 16
    → 2 ≤ occupied cs
    → DeletionAt cs i key m
    → EndsAt o l m
    → Ends o (suc l) (m >>= finish_branch c)
unfolding finish_branch
in_branch cs c i key o l (ok (false, ds)) w two d h = h
in_branch cs c i key o l (ok (true, ds)) w two d h = rw h.0 (
    collapse-Ends ds (remaining ds 0) l d.valid (d.same_width ∙ w) (omega (arith, d.count)) h.1
      refl)
in_branch cs c i key o l (err (node_not_resolved x)) w two d h = h
in_branch cs c i key o l (err value_in_branch) w two d h = h
in_branch cs c i key o l (err rlp) w two d h = h
in_branch cs c i key o l (err legacy_rlp) w two d h = h
in_branch cs c i key o l panic w two d h = h

at_child :
    (o : Option B256) (l : ℕ) (cs : Children) (m : Result Error (Bool × MptNode))
    → AreUniform cs l
    → Ends o l m
    → EndsAt o l (m >>= λ r. ok (put_back r cs))
unfolding put_back
at_child o l cs (ok (false, n)) u h = (h.0, (h.1, u))
at_child o l cs (ok (true, n)) u h = elim (Bool-cases (is_empty n)) [
  | inl gone ↦ rw gone (h.0, u)
  | inr kept ↦ rw kept (h.0, (h.1, u))
]
at_child o l cs (err (node_not_resolved d)) u h = h
at_child o l cs (err value_in_branch) u h = h
at_child o l cs (err rlp) u h = h
at_child o l cs (err legacy_rlp) u h = h
at_child o l cs panic u h = h

merge-Ends :
    (prefix : List ℕ) (m : MptNode) (rest l : ℕ)
    → All IsNibble (path_of prefix)
    → IsValid m
    → length (path_of prefix) + rest ≡ l
    → IsUniform m rest
    → Ends none l (merge_extension prefix (path_of prefix) m >>= λ d. ok (true, node d none))
unfolding merge_extension
merge-Ends prefix (node null c) rest l h v e u = (refl, tt)
merge-Ends prefix (node (leaf p value) c) rest l h v e u =
    let nibbles = All-append IsNibble (path_of prefix) (path_of p) h (path_of-IsNibble p v) in
    let path = path_of-to_encoded_path (path_of prefix ++ path_of p) true nibbles in
    rw (prefix_nibs-path_of p v)
      (refl, omega (arith, ap length path, length-append (path_of prefix) (path_of p)))
merge-Ends prefix (node (extension p n) c) rest l h v e u =
    let nibbles = All-append IsNibble (path_of prefix) (path_of p) h (path_of-IsNibble p v.0) in
    let path = path_of-to_encoded_path (path_of prefix ++ path_of p) false nibbles in
    rw (prefix_nibs-path_of p v.0) (
      refl,
      (u.0, omega (arith, ap length path, length-append (path_of prefix) (path_of p), u.1), u.2),
    )
merge-Ends prefix (node (branch cs) c) rest l h v e u = (refl, (rest, e, u))
merge-Ends prefix (node (digest d) c) rest l h v e u = (refl, (rest, e, tt))

in_extension :
    (prefix : List ℕ) (n : MptNode) (c : Option MptNodeReference) (key : List ℕ) (o : Option B256)
    (rest l : ℕ) (m : Result Error (Bool × MptNode))
    → All IsNibble (path_of prefix)
    → length (path_of prefix) + rest ≡ l
    → Deletion n key m
    → Ends o rest m
    → Ends o l (m >>= finish_extension prefix (path_of prefix) c)
unfolding finish_extension
in_extension prefix n c key o rest l (ok (false, k)) p e d h = (h.0, (rest, e, h.1))
in_extension prefix n c key o rest l (ok (true, k)) p e d h =
    rw h.0 (merge-Ends prefix k rest l p d.valid e h.1)
in_extension prefix n c key o rest l (err (node_not_resolved x)) p e d h = h
in_extension prefix n c key o rest l (err value_in_branch) p e d h = h
in_extension prefix n c key o rest l (err rlp) p e d h = h
in_extension prefix n c key o rest l (err legacy_rlp) p e d h = h
in_extension prefix n c key o rest l panic p e d h = h

at_extension :
    (prefix : List ℕ) (n : MptNode) (c : Option MptNodeReference) (key : List ℕ) (rest l : ℕ)
    → IsValid (node (extension prefix n) c)
    → All IsNibble key
    → length key ≡ l
    → length (path_of prefix) + rest ≡ l
    → IsUniform n rest
    → ((t : List ℕ)
        → All IsNibble t
        → length t ≡ rest
        → Ends (hidden n t) rest (delete_internal n t))
    → Ends
        (hidden (node (extension prefix n) c) key)
        l
        (delete_internal (node (extension prefix n) c) key)
unfolding delete_internal hidden
at_extension prefix n c key rest l v h lk e u below_n =
    rw (prefix_nibs-path_of prefix v.0) (cases (strip_prefix key (path_of prefix)) refl)
  where
    cases :
        (o : Option (List ℕ))
        → strip_prefix key (path_of prefix) ≡ o
        → Ends
            (elim o [ some tail ↦ hidden n tail | none ↦ none ])
            l
            (elim o [
              | none ↦ ok (false, node (extension prefix n) c)
              | some tail ↦ delete_internal n tail >>= finish_extension prefix (path_of prefix) c
            ])
    cases none q = (refl, (rest, e, u))
    cases (some t) q =
        let nibbles = strip_prefix-IsNibble key (path_of prefix) t h q in
        in_extension prefix n c t (hidden n t) rest l (delete_internal n t)
          (path_of-IsNibble prefix v.0) e (delete_internal_outcome n t v.3 nibbles)
          (below_n t nibbles (
            omega (
              arith,
              ap length (append_of_strip_prefix key (path_of prefix) t q),
              length-append (path_of prefix) t,
            )))

at_leaf :
    (prefix value : List ℕ) (c : Option MptNodeReference) (key : List ℕ) (l : ℕ)
    → IsPath prefix
    → length (path_of prefix) ≡ l
    → Ends none l (delete_internal (node (leaf prefix value) c) key)
unfolding delete_internal
at_leaf prefix value c key l v u =
    rw (prefix_nibs-path_of prefix v) (elim (Bool-cases (beq (path_of prefix) key)) [
      | inl same ↦ rw same (refl, tt)
      | inr other ↦ rw other (refl, u)
    ])

mutual
  unfolding delete_internal hidden width

  delete_internal-Ends :
      (n : MptNode) (key : List ℕ) (l : ℕ)
      → IsValid n
      → IsUniform n l
      → All IsNibble key
      → length key ≡ l
      → Ends (hidden n key) l (delete_internal n key)
  delete_internal-Ends (node null c) key l v u k e = (refl, tt)
  delete_internal-Ends (node (branch cs) c) [] zero v u k e = u
  delete_internal-Ends (node (branch cs) c) [] (suc l) v u k e = absurd (omega arith)
  delete_internal-Ends (node (branch cs) c) (i ∷ tail) zero v u k e = absurd u
  delete_internal-Ends (node (branch cs) c) (i ∷ tail) (suc l) v u k e =
      in_branch cs c i tail (hidden_child cs i tail) l (delete_child cs i tail) v.1 v.2
        (delete_child_outcome cs i tail v.0 (omega arith) k.1)
        (delete_child-EndsAt cs i tail l v.0 (omega arith) u k.1 (omega arith))
  delete_internal-Ends (node (leaf prefix value) c) key l v u k e = at_leaf prefix value c key l v u
  delete_internal-Ends (node (extension prefix n) c) key l v u k e =
      at_extension prefix n c key u.0 l v k e u.1 u.2
        (λ t h q. delete_internal-Ends n t u.0 v.3 u.2 h q)
  delete_internal-Ends (node (digest d) c) key l v u k e = refl

  delete_child-EndsAt :
      (cs : Children) (i : ℕ) (key : List ℕ) (l : ℕ)
      → AreValid cs
      → i < width cs
      → AreUniform cs l
      → All IsNibble key
      → length key ≡ l
      → EndsAt (hidden_child cs i key) l (delete_child cs i key)
  delete_child-EndsAt nil i key l v b u k e = elim b [ ]
  delete_child-EndsAt (vacant cs) zero key l v b u k e = (refl, u)
  delete_child-EndsAt (child n cs) zero key l v b u k e =
      at_child (hidden n key) l cs (delete_internal n key) u.1
        (delete_internal-Ends n key l v.1 u.0 k e)
  delete_child-EndsAt (vacant cs) (suc i) key l v b u k e =
      past_vacant (hidden_child cs i key) l (delete_child cs i key)
        (delete_child-EndsAt cs i key l v (omega arith) u k e)
  delete_child-EndsAt (child n cs) (suc i) key l v b u k e =
      past_child (hidden_child cs i key) l n (delete_child cs i key) u.0
        (delete_child-EndsAt cs i key l v.2 (omega arith) u.1 k e)

-- On a valid trie whose keys all have `l` nibbles, and with a key of that length, `delete` succeeds
-- exactly when the descent for the key ends in no digest, and the keys that are left have `l`
-- nibbles; when it ends in a digest, the error names that digest. It never answers `ValueInBranch`,
-- and never panics.
pub delete-Ends :
    (n : MptNode) (key : List ℕ) (l : ℕ)
    → IsValid n
    → IsUniform n l
    → All IsByte key
    → length (to_nibs key) ≡ l
    → Ends (hidden n (to_nibs key)) l (delete n key)
unfolding delete
delete-Ends n key l v u k e = delete_internal-Ends n (to_nibs key) l v u (to_nibs-IsNibble key k) e
