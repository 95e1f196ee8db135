-- ===== src/Mpt/Touched/Reads.antt =====
-- crates/mpt/src/mpt.rs: what a pruned trie still answers.
use pico_subblock.Prelude.{
  ℕ, zero, suc, ◌≡◌, ap, sym, subst, ◌∙◌, true, Option, none, some, List, [], ◌∷◌, ◌++◌, All,
  All-append_left, All-append_right, Bool-cases, inl, inr,
}
use pico_subblock.Result.{Result, ok, err, panic, ◌>>=◌}
use pico_subblock.Result.Passed.{after_bind, ok_injective}
use pico_subblock.Path.{to_nibs, prefix_nibs, strip_prefix}
use pico_subblock.Mpt.{
  Error, MptNode, MptNodeData, MptNodeReference, Children, node, null, branch, leaf, extension, nil,
  vacant, child,
}
use pico_subblock.Mpt.Get.{get, get_internal, get_child}
use pico_subblock.Mpt.Hash.{External, reference}
use pico_subblock.Mpt.Touched.{
  Report, with_reference, contains, get_internal_with_touched, get_child_with_touched,
  get_with_touched, prune_unmarked_nodes, prune_children,
}
use pico_subblock.Mpt.Touched.Prune.{get_internal-touched, value_of}

-- The references are all in the set.
abbrev pub AreKept : List MptNodeReference → List MptNodeReference → Type 0
AreKept refs touched = All (λ r. contains refs r ≡ true) touched

-- What is left of a report when the node's own reference is taken off: it was kept, and so were the
-- others.
taken_off :
    (m : Result Error Report) (my : MptNodeReference) (refs : List MptNodeReference)
    (v : Option (List ℕ)) (touched : List MptNodeReference)
    → (m >>= λ r. ok (with_reference my r)) ≡ ok (v, touched)
    → AreKept refs touched
    → (contains refs my ≡ true) × ((t : List MptNodeReference) × (m ≡ ok (v, t)) × AreKept refs t)
taken_off m my refs v touched e k =
    let a = after_bind m (λ r. ok (with_reference my r)) (v, touched) e in
    let same : (a.0.0, a.0.1 ++ (my ∷ [])) ≡ (v, touched) = ok_injective a.2 in
    let all : AreKept refs (a.0.1 ++ (my ∷ [])) = rw (ap (λ x. x.1) same) k in
    let value : a.0.0 ≡ v = ap (λ x. x.0) same in
    (
      (All-append_right (λ r. contains refs r ≡ true) a.0.1 (my ∷ []) all).0,
      (
        a.0.1,
        a.1 ∙ ap (λ x. ok (x, a.0.1)) value,
        All-append_left (λ r. contains refs r ≡ true) a.0.1 (my ∷ []) all,
      ),
    )

-- A report of one reference.
single :
    (w v : Option (List ℕ)) (my : MptNodeReference) (refs touched : List MptNodeReference)
    → ◌≡◌ {A = Result Error Report} (ok (w, my ∷ [])) (ok (v, touched))
    → AreKept refs touched
    → (contains refs my ≡ true) × (w ≡ v)
single w v my refs touched e k =
    let same : (w, my ∷ []) ≡ (v, touched) = ok_injective e in
    let all : AreKept refs (my ∷ []) = subst (AreKept refs) (sym (ap (λ x. x.1) same)) k in
    (all.0, ap (λ x. x.0) same)

module _ (ext : External) where
  at_extension :
      (prefix : List ℕ) (n : MptNode) (key : List ℕ) (my : MptNodeReference)
      (refs : List MptNodeReference) (v : Option (List ℕ)) (touched : List MptNodeReference)
      (m : Result Error (List ℕ))
      → ◌≡◌ {A = Result Error Report}
          (◌>>=◌ {B = Report} m (λ nibs. elim (strip_prefix key nibs) [
            | some tail ↦ (get_internal_with_touched ext n tail >>= λ x. ok (with_reference my x))
            | none ↦ ok (none, my ∷ [])
          ]))
          (ok (v, touched))
      → AreKept refs touched
      → ((t : List ℕ) (u : List MptNodeReference)
          → get_internal_with_touched ext n t ≡ ok (v, u)
          → AreKept refs u
          → get_internal (prune_unmarked_nodes ext n refs) t ≡ ok v)
      → (contains refs my ≡ true)
        × ((m >>= λ nibs. elim (strip_prefix key nibs) [
          | some tail ↦ get_internal (prune_unmarked_nodes ext n refs) tail
          | none ↦ ok none
        ])
            ≡ ok v)
  at_extension prefix n key my refs v touched (err y) e k f = absurd (cc)
  at_extension prefix n key my refs v touched panic e k f = absurd (cc)
  at_extension prefix n key my refs v touched (ok nibs) e k f = cases (strip_prefix key nibs) e
    where
      cases :
          (o : Option (List ℕ))
          → ◌≡◌ {A = Result Error Report}
              (elim o [
                | some tail ↦
                    (get_internal_with_touched ext n tail >>= λ x. ok (with_reference my x))
                | none ↦ ok (none, my ∷ [])
              ])
              (ok (v, touched))
          → (contains refs my ≡ true)
            × (elim o [
              | some tail ↦ get_internal (prune_unmarked_nodes ext n refs) tail
              | none ↦ ok none
            ]
                ≡ ok v)
      cases none e = let s = single none v my refs touched e k in (s.0, ap ok s.1)
      cases (some tail) e =
          let s = taken_off (get_internal_with_touched ext n tail) my refs v touched e k in
          (s.0, f tail s.1.0 s.1.1 s.1.2)

  mutual
    unfolding get_internal get_internal_with_touched prune_unmarked_nodes

    get_internal-prune :
        (n : MptNode) (key : List ℕ) (refs : List MptNodeReference) (v : Option (List ℕ))
        (touched : List MptNodeReference)
        → get_internal_with_touched ext n key ≡ ok (v, touched)
        → AreKept refs touched
        → get_internal (prune_unmarked_nodes ext n refs) key ≡ ok v
    get_internal-prune (node null c) key refs v touched e k =
        ap ok (single none v (reference ext (node null c)) refs touched e k).1
    get_internal-prune (node (branch cs) c) [] refs v touched e k =
        let s = single none v (reference ext (node (branch cs) c)) refs touched e k in
        rw s.0 (ap ok s.1)
    get_internal-prune (node (branch cs) c) (i ∷ tail) refs v touched e k =
        let s = get_child-prune (reference ext (node (branch cs) c)) cs i tail refs v touched e k in
        rw s.0 s.1
    get_internal-prune (node (leaf prefix value) c) key refs v touched e k =
        get_internal-touched ext (node (leaf prefix value) c) key ∙ ap value_of e
    get_internal-prune (node (extension prefix n) c) key refs v touched e k =
        let s =
          at_extension prefix n key (reference ext (node (extension prefix n) c)) refs v touched
            (prefix_nibs prefix) e k (λ t u. get_internal-prune n t refs v u) in
        rw s.0 s.1
    get_internal-prune (node (MptNodeData.digest d) c) key refs v touched e k =
        let same : none ≡ v =
          let s : ◌≡◌ {A = Report} (none, []) (v, touched) = ok_injective e in ap (λ x. x.0) s in
        elim (Bool-cases (contains refs (reference ext (node (MptNodeData.digest d) c)))) [
          | inl kept ↦ rw kept (ap ok same)
          | inr gone ↦ rw gone (ap ok same)
        ]

    get_child-prune :
        (my : MptNodeReference) (cs : Children) (i : ℕ) (tail : List ℕ)
        (refs : List MptNodeReference) (v : Option (List ℕ)) (touched : List MptNodeReference)
        → get_child_with_touched ext my cs i tail ≡ ok (v, touched)
        → AreKept refs touched
        → (contains refs my ≡ true) × (get_child (prune_children ext cs refs) i tail ≡ ok v)
    get_child-prune my nil i tail refs v touched e k = absurd (cc)
    get_child-prune my (vacant cs) zero tail refs v touched e k =
        let s = single none v my refs touched e k in (s.0, ap ok s.1)
    get_child-prune my (child n cs) zero tail refs v touched e k =
        let s = taken_off (get_internal_with_touched ext n tail) my refs v touched e k in
        (s.0, get_internal-prune n tail refs v s.1.0 s.1.1 s.1.2)
    get_child-prune my (vacant cs) (suc i) tail refs v touched e k =
        get_child-prune my cs i tail refs v touched e k
    get_child-prune my (child n cs) (suc i) tail refs v touched e k =
        get_child-prune my cs i tail refs v touched e k

  -- Where the read of a key reports only references that are kept, pruning does not change what
  -- `get` answers for the key.
  pub get-prune :
      (n : MptNode) (key : List ℕ) (refs : List MptNodeReference) (v : Option (List ℕ))
      (touched : List MptNodeReference)
      → get_with_touched ext n key ≡ ok (v, touched)
      → AreKept refs touched
      → (get (prune_unmarked_nodes ext n refs) key ≡ ok v) × (get n key ≡ ok v)
  unfolding get get_with_touched
  get-prune n key refs v touched e k = (
    get_internal-prune n (to_nibs key) refs v touched e k,
    get_internal-touched ext n (to_nibs key) ∙ ap value_of e,
  )
