-- ===== src/Mpt/Insert/Total.antt =====
-- When `insert` of crates/mpt/src/mpt.rs fails, over keys of one length.
use mathlib.Core.List.{append-nil}
use native.Mathlib.Numerals.{add-one}
use pico_subblock.Prelude.{
  ℕ, zero, suc, ◌+◌, ◌≤◌, ◌<◌, ◌≡◌, refl, ap, ◌∙◌, subst, Bool, true, false, Option, none, some,
  List, [], ◌∷◌, ◌++◌, ◌==◌, if◌then◌else◌, length, drop, arith, length-append, All,
  All-append_left, All-append_right, beq, Bool-cases, inl, inr, longer, ==_refl,
  drop-suc-length_append, drop-length_append,
}
use pico_subblock.Result.{Result, ok, err, panic, ◌>>=◌}
use pico_subblock.Path.{IsNibble, IsByte, to_nibs, lcp, strip_prefix, to_encoded_path}
use pico_subblock.Path.Codec.{to_nibs-IsNibble}
use pico_subblock.Path.Split.{
  Meet, within, beyond, fork, meet, strip_prefix-append, strip_prefix-append_right,
}
use pico_subblock.Mpt.{
  B256, Error, node_not_resolved, value_in_branch, rlp, legacy_rlp, MptNode, MptNodeReference,
  Children, node, null, branch, leaf, extension, digest, nil, vacant, child, from_data,
}
use pico_subblock.Mpt.Valid.{
  IsValid, AreValid, path_of, path_of-to_encoded_path, path_of-IsNibble, prefix_nibs-path_of, width,
}
use pico_subblock.Mpt.Uniform.{
  IsUniform, AreUniform, hidden, hidden_child, fork_branch-IsUniform, fork_branch_lem, forked,
  two_children,
}
use pico_subblock.Mpt.Insert.{
  insert, insert_internal, insert_child, insert_leaf, insert_at_leaf, split_extension, fork_branch,
}
use pico_subblock.Mpt.Insert.Extension.{rest_of, rest_of-lem}

-- How a call of `insert_internal` ends, where the keys have `l` nibbles: with a result exactly
-- where no digest hides the key, and the keys keep their length; else with the error that names the
-- digest.
abbrev pub Ends : Option B256 → ℕ → Result Error (Bool × MptNode) → Type 0
Ends o l (ok r) = (o ≡ none) × IsUniform r.1 l
Ends o l (err (node_not_resolved d)) = o ≡ some d
Ends o l (err value_in_branch) = ⊥
Ends o l (err rlp) = ⊥
Ends o l (err legacy_rlp) = ⊥
Ends o l panic = ⊥

abbrev pub EndsAt : Option B256 → ℕ → Result Error (Bool × Children) → Type 0
EndsAt o l (ok r) = (o ≡ none) × AreUniform r.1 l
EndsAt o l (err (node_not_resolved d)) = o ≡ some d
EndsAt o l (err value_in_branch) = ⊥
EndsAt o l (err rlp) = ⊥
EndsAt o l (err legacy_rlp) = ⊥
EndsAt o l panic = ⊥

new_leaf-IsUniform :
    (l value : List ℕ) (k : ℕ)
    → All IsNibble l
    → length l ≡ k
    → IsUniform (from_data (leaf (to_encoded_path l true) value)) k
new_leaf-IsUniform l value k h e = ap length (path_of-to_encoded_path l true h) ∙ e

-- A fork, whose result is `ok (true, ..)`.
fork-Ends :
    (p r s : List ℕ) (x y : ℕ) (old new : MptNode) (k l : ℕ)
    → All IsNibble (p ++ x ∷ r)
    → All IsNibble (p ++ y ∷ s)
    → IsUniform old k
    → IsUniform new k
    → length p + suc k ≡ l
    → Ends none l (
        fork_branch (p ++ x ∷ r) (p ++ y ∷ s) (length p) old new >>= λ data'.
        ok (true, node data' none))
fork-Ends p r s x y old new k l hs hk uo un e =
    let xr = All-append_right IsNibble p (x ∷ r) hs in
    let ys = All-append_right IsNibble p (y ∷ s) hk in
    rw (fork_branch_lem p r s x y old new xr.0 ys.0) (
      refl,
      subst (IsUniform (node (forked p (two_children x old y new)) none)) e
          (fork_branch-IsUniform p x y old new k (All-append_left IsNibble p (x ∷ r) hs) uo un),
    )

same_length :
    (p r s : List ℕ) (x y : ℕ) (l : ℕ)
    → length (p ++ x ∷ r) ≡ l
    → length (p ++ y ∷ s) ≡ l
    → length s ≡ length r
same_length p r s x y l e f = omega (arith, length-append p (x ∷ r), length-append p (y ∷ s))

-- A path is no longer than another of its length.
not_longer : (p : List ℕ) (x : ℕ) (r : List ℕ) (l : ℕ) → length p ≡ l → length (p ++ x ∷ r) ≡ l → ⊥
not_longer p x r l e f = omega (arith, length-append p (x ∷ r))

at_leaf :
    (self prefix old_value : List ℕ) (c : Option MptNodeReference) (key value : List ℕ) (l : ℕ)
    → path_of prefix ≡ self
    → All IsNibble self
    → All IsNibble key
    → length self ≡ l
    → length key ≡ l
    → Ends none l (insert_at_leaf self prefix old_value c key value)
unfolding insert_at_leaf
at_leaf self prefix old_value c key value l e hs hk ls lk = cases (meet self key)
  where
    unchanged : Ends none l (
        if beq old_value value
        then ok (false, node (leaf prefix old_value) c)
        else ok (true, node (leaf prefix value) none))
    unchanged = elim (Bool-cases (beq old_value value)) [
      | inl same ↦ rw same (refl, ap length e ∙ ls)
      | inr other ↦ rw other (refl, ap length e ∙ ls)
    ]

    cases : Meet self key → Ends none l (insert_at_leaf self prefix old_value c key value)
    cases (within [] k q) =
        let k' : key ≡ self = k ∙ append-nil self in rw (q, k', ==_refl (length self)) unchanged
    cases (within (z ∷ r) k q) = absurd (not_longer self z r l ls (rw k at lk))
    cases (beyond x r k q) = absurd (not_longer key x r l lk (rw k at ls))
    cases (fork p x r y s k m n q) =
        let lr : length (p ++ x ∷ r) ≡ l = rw k at ls in
        let lt : length (p ++ y ∷ s) ≡ l = rw m at lk in
        let nr : All IsNibble (p ++ x ∷ r) = rw k at hs in
        let nt : All IsNibble (p ++ y ∷ s) = rw m at hk in
        rw
          (
            q,
            k,
            m,
            longer p x r,
            longer p y s,
            add-one,
            drop-suc-length_append p x r,
            drop-suc-length_append p y s,
          )
          (fork-Ends p r s x y (from_data (leaf (to_encoded_path r true) old_value))
            (from_data (leaf (to_encoded_path s true) value)) (length r) l nr nt
            (new_leaf-IsUniform r old_value (length r) (All-append_right IsNibble p (x ∷ r) nr).1
              refl)
            (new_leaf-IsUniform s value (length r) (All-append_right IsNibble p (y ∷ s) nt).1
              (same_length p r s x y l lr lt))
            (omega (arith, length-append p (x ∷ r))))

rest_of-IsUniform :
    (r : List ℕ) (existing : MptNode) (rest k : ℕ)
    → All IsNibble r
    → IsUniform existing rest
    → length r + rest ≡ k
    → IsUniform (rest_of r existing) k
rest_of-IsUniform [] existing rest k h u e = subst (IsUniform existing) (omega arith) u
rest_of-IsUniform (z ∷ r) existing rest k h u e =
    (rest, rw (path_of-to_encoded_path (z ∷ r) false h) e, u)

strip-fork :
    (p r s : List ℕ) (x y : ℕ) → (x == y) ≡ false → strip_prefix (p ++ y ∷ s) (p ++ x ∷ r) ≡ none
unfolding strip_prefix
strip-fork p r s x y n =
    rw (strip_prefix-append_right (p ++ y ∷ s) p (x ∷ r), strip_prefix-append p (y ∷ s))
      (ground arith)

split-Ends :
    (prefix : List ℕ) (n : MptNode) (p r s : List ℕ) (x y : ℕ) (value : List ℕ) (rest l : ℕ)
    → All IsNibble (p ++ x ∷ r)
    → All IsNibble (p ++ y ∷ s)
    → length (p ++ x ∷ r) + rest ≡ l
    → length (p ++ y ∷ s) ≡ l
    → IsUniform n rest
    → Ends none l (split_extension (p ++ x ∷ r) n (p ++ y ∷ s) (length p) value)
unfolding split_extension
split-Ends prefix n p r s x y value rest l hs hk e f u =
    rw (add-one, drop-suc-length_append p x r, drop-suc-length_append p y s, rest_of-lem p x r n)
      (fork-Ends p r s x y (rest_of r n) (from_data (leaf (to_encoded_path s true) value))
        (length s) l hs hk
        (rest_of-IsUniform r n rest (length s) (All-append_right IsNibble p (x ∷ r) hs).1 u
          (omega (arith, length-append p (x ∷ r), length-append p (y ∷ s))))
        (new_leaf-IsUniform s value (length s) (All-append_right IsNibble p (y ∷ s) hk).1 refl)
        (omega (arith, length-append p (y ∷ s))))

-- The wrappers of `insert_internal` around the call below.
in_branch :
    (o : Option B256) (l : ℕ) (c : Option MptNodeReference) (m : Result Error (Bool × Children))
    → EndsAt o l m
    → Ends o (suc l) (m >>= λ r. ok (r.0, node (branch r.1) (if r.0 then none else c)))
in_branch o l c (ok r) h = h
in_branch o l c (err (node_not_resolved d)) h = h
in_branch o l c (err value_in_branch) h = h
in_branch o l c (err rlp) h = h
in_branch o l c (err legacy_rlp) h = h
in_branch o l c panic h = h

at_child :
    (o : Option B256) (l : ℕ) (cs : Children) (m : Result Error (Bool × MptNode))
    → AreUniform cs l
    → Ends o l m
    → EndsAt o l (m >>= λ r. ok (r.0, child r.1 cs))
at_child o l cs (ok r) u h = (h.0, (h.1, u))
at_child o l cs (err (node_not_resolved d)) u h = h
at_child o l cs (err value_in_branch) u h = h
at_child o l cs (err rlp) u h = h
at_child o l cs (err legacy_rlp) u h = h
at_child o l cs panic u h = h

pub past_vacant :
    (o : Option B256) (l : ℕ) (m : Result Error (Bool × Children))
    → EndsAt o l m
    → EndsAt o l (m >>= λ r. ok (r.0, vacant r.1))
past_vacant o l (ok r) h = h
past_vacant o l (err (node_not_resolved d)) h = h
past_vacant o l (err value_in_branch) h = h
past_vacant o l (err rlp) h = h
past_vacant o l (err legacy_rlp) h = h
past_vacant o l panic h = h

pub past_child :
    (o : Option B256) (l : ℕ) (n : MptNode) (m : Result Error (Bool × Children))
    → IsUniform n l
    → EndsAt o l m
    → EndsAt o l (m >>= λ r. ok (r.0, child n r.1))
past_child o l n (ok r) u h = (h.0, (u, h.1))
past_child o l n (err (node_not_resolved d)) u h = h
past_child o l n (err value_in_branch) u h = h
past_child o l n (err rlp) u h = h
past_child o l n (err legacy_rlp) u h = h
past_child o l n panic u h = h

in_extension :
    (prefix : List ℕ) (c : Option MptNodeReference) (o : Option B256) (rest l : ℕ)
    (m : Result Error (Bool × MptNode))
    → length (path_of prefix) + rest ≡ l
    → Ends o rest m
    → Ends o l (m >>= λ r. ok (r.0, node (extension prefix r.1) (if r.0 then none else c)))
in_extension prefix c o rest l (ok r) e h = (h.0, (rest, e, h.1))
in_extension prefix c o rest l (err (node_not_resolved d)) e h = h
in_extension prefix c o rest l (err value_in_branch) e h = h
in_extension prefix c o rest l (err rlp) e h = h
in_extension prefix c o rest l (err legacy_rlp) e h = h
in_extension prefix c o rest l panic e h = h

at_extension :
    (prefix : List ℕ) (n : MptNode) (c : Option MptNodeReference) (key value : List ℕ) (rest l : ℕ)
    → IsValid (node (extension prefix n) c)
    → All IsNibble key
    → length key ≡ l
    → length (path_of prefix) + rest ≡ l
    → IsUniform n rest
    → ((t : List ℕ)
        → All IsNibble t
        → length t ≡ rest
        → Ends (hidden n t) rest (insert_internal n t value))
    → Ends
        (hidden (node (extension prefix n) c) key)
        l
        (insert_internal (node (extension prefix n) c) key value)
unfolding insert_internal hidden
at_extension prefix n c key value rest l v h lk e u below_n = rw (prefix_nibs-path_of prefix v.0) (
    cases (path_of prefix) key (path_of-IsNibble prefix v.0) refl h lk e
      (meet (path_of prefix) key))
  where
    cases :
        (self k : List ℕ)
        → All IsNibble self
        → path_of prefix ≡ self
        → All IsNibble k
        → length k ≡ l
        → length self + rest ≡ l
        → Meet self k
        → Ends
            (elim (strip_prefix k self) [ some tail ↦ hidden n tail | none ↦ none ])
            l
            (if lcp self k == length self
              then (insert_internal n (drop (lcp self k) k) value >>= λ r.
                  ok (r.0, node (extension prefix r.1) (if r.0 then none else c)))
              else if lcp self k == length k
              then err value_in_branch
              else split_extension self n k (lcp self k) value)
    cases self k hs q hk lk ls (within r m w) =
        rw (w, ==_refl (length self), m, drop-length_append self r, strip_prefix-append self r)
          (in_extension prefix c (hidden n r) rest l (insert_internal n r value)
            (ap (λ (p : List ℕ). length p + rest) q ∙ ls)
            (below_n r (All-append_right IsNibble self r (rw m at hk)) (
              let lr : length (self ++ r) ≡ l = rw m at lk in omega (arith, length-append self r))))
    cases self k hs q hk lk ls (beyond x r m w) = absurd (
        let lr : length (k ++ x ∷ r) + rest ≡ l = rw m at ls in
        omega (arith, length-append k (x ∷ r)))
    cases self k hs q hk lk ls (fork p x r y s m o d w) =
        rw (w, m, o, longer p x r, longer p y s, strip-fork p r s x y d)
          (split-Ends prefix n p r s x y value rest l (rw m at hs) (rw o at hk) (rw m at ls)
            (rw o at lk) u)

mutual
  unfolding insert_internal insert_leaf hidden width

  insert_internal-Ends :
      (n : MptNode) (key value : List ℕ) (l : ℕ)
      → IsValid n
      → IsUniform n l
      → All IsNibble key
      → length key ≡ l
      → Ends (hidden n key) l (insert_internal n key value)
  insert_internal-Ends (node null c) key value l v u k e =
      (refl, new_leaf-IsUniform key value l k e)
  insert_internal-Ends (node (branch cs) c) [] value zero v u k e = u
  insert_internal-Ends (node (branch cs) c) [] value (suc l) v u k e = absurd (omega arith)
  insert_internal-Ends (node (branch cs) c) (i ∷ tail) value zero v u k e = absurd u
  insert_internal-Ends (node (branch cs) c) (i ∷ tail) value (suc l) v u k e =
      in_branch (hidden_child cs i tail) l c (insert_child cs i tail value)
        (insert_child-EndsAt cs i tail value l v.0 (omega arith) u k.1 (omega arith))
  insert_internal-Ends (node (leaf prefix old_value) c) key value l v u k e =
      rw (prefix_nibs-path_of prefix v) (
        at_leaf (path_of prefix) prefix old_value c key value l refl (path_of-IsNibble prefix v) k u
          e)
  insert_internal-Ends (node (extension prefix n) c) key value l v u k e =
      at_extension prefix n c key value u.0 l v k e u.1 u.2
        (λ t h q. insert_internal-Ends n t value u.0 v.3 u.2 h q)
  insert_internal-Ends (node (digest d) c) key value l v u k e = refl

  insert_child-EndsAt :
      (cs : Children) (i : ℕ) (key value : List ℕ) (l : ℕ)
      → AreValid cs
      → i < width cs
      → AreUniform cs l
      → All IsNibble key
      → length key ≡ l
      → EndsAt (hidden_child cs i key) l (insert_child cs i key value)
  insert_child-EndsAt nil i key value l v b u k e = elim b [ ]
  insert_child-EndsAt (vacant cs) zero key value l v b u k e =
      (refl, (new_leaf-IsUniform key value l k e, u))
  insert_child-EndsAt (child n cs) zero key value l v b u k e =
      at_child (hidden n key) l cs (insert_internal n key value) u.1
        (insert_internal-Ends n key value l v.1 u.0 k e)
  insert_child-EndsAt (vacant cs) (suc i) key value l v b u k e =
      past_vacant (hidden_child cs i key) l (insert_child cs i key value)
        (insert_child-EndsAt cs i key value l v (omega arith) u k e)
  insert_child-EndsAt (child n cs) (suc i) key value l v b u k e =
      past_child (hidden_child cs i key) l n (insert_child cs i key value) u.0
        (insert_child-EndsAt cs i key value l v.2 (omega arith) u.1 k e)

-- On a valid trie whose keys all have `l` nibbles, and with a key of that length and a value that
-- is not empty, `insert` succeeds exactly when the descent for the key ends in no digest, and the
-- keys of the new trie have `l` nibbles again; when it ends in a digest, the error names that
-- digest. It never answers `ValueInBranch`, and never panics.
pub insert-Ends :
    (n : MptNode) (key value : List ℕ) (l : ℕ)
    → IsValid n
    → IsUniform n l
    → All IsByte key
    → length (to_nibs key) ≡ l
    → 1 ≤ length value
    → Ends (hidden n (to_nibs key)) l (insert n key value)
unfolding insert
insert-Ends n key [] l v u k e h = elim h [ ]
insert-Ends n key (b ∷ value) l v u k e h =
    insert_internal-Ends n (to_nibs key) (b ∷ value) l v u (to_nibs-IsNibble key k) e
