-- ===== src/Mpt/Touched/Prune.antt =====
-- crates/mpt/src/mpt.rs: the values that `get_with_touched` reports, and the hash of a pruned trie.
use pico_subblock.Prelude.{
  ℕ, zero, suc, ◌≡◌, refl, ap, ap₂, sym, ◌∙◌, false, Option, none, some, List, [], ◌∷◌, beq,
  if◌then◌else◌, Bool-cases, inl, inr,
}
use pico_subblock.Result.{Result, ok, err, panic, ◌>>=◌}
use pico_subblock.Path.{to_nibs, prefix_nibs, strip_prefix}
use pico_subblock.Mpt.{
  Error, MptNode, MptNodeData, MptNodeReference, Children, node, null, branch, leaf, extension, nil,
  vacant, child, is_empty,
}
use pico_subblock.Mpt.Outline.{Outline}
use pico_subblock.Mpt.Get.{get, get_internal, get_child}
use pico_subblock.Mpt.Hash.{
  External, reference, outline, references, calc_reference, hash, hash_reference,
}
use pico_subblock.Mpt.Hash.Cache.{IsCoherent, AreCoherent}
use pico_subblock.Mpt.Touched.{
  Report, with_reference, contains, get_internal_with_touched, get_child_with_touched,
  get_with_touched, prune_unmarked_nodes, prune_children,
}

-- The value of a report.
abbrev pub value_of : Result Error Report → Result Error (Option (List ℕ))
value_of m = m >>= λ r. ok r.0

value_of-with_reference :
    (m : Result Error Report) (r : MptNodeReference)
    → value_of (m >>= λ x. ok (with_reference r x)) ≡ value_of m
value_of-with_reference (ok x) r = refl
value_of-with_reference (err e) r = refl
value_of-with_reference panic r = refl

module _ (ext : External) where
  at_leaf :
      (m : Result Error (List ℕ)) (key value : List ℕ) (r : MptNodeReference)
      → (m >>= λ nibs. ok (if beq nibs key then some value else none))
        ≡ value_of
            (m >>= λ nibs. ok (if beq nibs key then (some value, r ∷ []) else (none, r ∷ [])))
  at_leaf (ok nibs) key value r = elim (Bool-cases (beq nibs key)) [
    | inl same ↦ rw same
    | inr other ↦ rw other
  ]
  at_leaf (err e) key value r = refl
  at_leaf panic key value r = refl

  at_extension :
      (m : Result Error (List ℕ)) (n : MptNode) (key : List ℕ) (r : MptNodeReference)
      → ((t : List ℕ) → get_internal n t ≡ value_of (get_internal_with_touched ext n t))
      → (m >>= λ nibs. elim (strip_prefix key nibs) [
        | some tail ↦ get_internal n tail
        | none ↦ ok none
      ])
        ≡ value_of (
            m >>= λ nibs. elim (strip_prefix key nibs) [
              | some tail ↦ (get_internal_with_touched ext n tail >>= λ x. ok (with_reference r x))
              | none ↦ ok (none, r ∷ [])
            ])
  at_extension (err e) n key r f = refl
  at_extension panic n key r f = refl
  at_extension (ok nibs) n key r f = cases (strip_prefix key nibs)
    where
      cases :
          (o : Option (List ℕ))
          → elim o [ some tail ↦ get_internal n tail | none ↦ ok none ]
            ≡ value_of (elim o [
              | some tail ↦ (get_internal_with_touched ext n tail >>= λ x. ok (with_reference r x))
              | none ↦ ok (none, r ∷ [])
            ])
      cases none = refl
      cases (some tail) =
          f tail ∙ sym (value_of-with_reference (get_internal_with_touched ext n tail) r)

  mutual
    unfolding get_internal get_internal_with_touched

    pub get_internal-touched :
        (n : MptNode) (key : List ℕ)
        → get_internal n key ≡ value_of (get_internal_with_touched ext n key)
    get_internal-touched (node null c) key = refl
    get_internal-touched (node (branch cs) c) [] = refl
    get_internal-touched (node (branch cs) c) (i ∷ tail) =
        get_child-touched (reference ext (node (branch cs) c)) cs i tail
    get_internal-touched (node (leaf prefix value) c) key =
        at_leaf (prefix_nibs prefix) key value (reference ext (node (leaf prefix value) c))
    get_internal-touched (node (extension prefix n) c) key =
        at_extension (prefix_nibs prefix) n key (reference ext (node (extension prefix n) c))
          (λ t. get_internal-touched n t)
    get_internal-touched (node (MptNodeData.digest d) c) key = refl

    get_child-touched :
        (my : MptNodeReference) (cs : Children) (i : ℕ) (tail : List ℕ)
        → get_child cs i tail ≡ value_of (get_child_with_touched ext my cs i tail)
    get_child-touched my nil i tail = refl
    get_child-touched my (vacant cs) zero tail = refl
    get_child-touched my (child n cs) zero tail =
        get_internal-touched n tail
        ∙ sym (value_of-with_reference (get_internal_with_touched ext n tail) my)
    get_child-touched my (vacant cs) (suc i) tail = get_child-touched my cs i tail
    get_child-touched my (child n cs) (suc i) tail = get_child-touched my cs i tail

  -- On every node and key, `get` ends as `get_with_touched` does, with the same value where that
  -- returns one.
  pub get-get_with_touched :
      (n : MptNode) (key : List ℕ) → get n key ≡ (get_with_touched ext n key >>= λ r. ok r.0)
  unfolding get get_with_touched
  get-get_with_touched n key = get_internal-touched n (to_nibs key)

  -- A right cache is what the data gives.
  pub reference-IsCoherent :
      (d : MptNodeData) (c : Option MptNodeReference)
      → IsCoherent ext (node d c)
      → reference ext (node d c) ≡ calc_reference ext (outline ext d)
  unfolding reference
  reference-IsCoherent d (some r) h = h.0
  reference-IsCoherent d none h = refl

  mutual
    unfolding prune_unmarked_nodes reference outline

    pub reference-prune :
        (n : MptNode) (refs : List MptNodeReference)
        → IsCoherent ext n
        → reference ext (prune_unmarked_nodes ext n refs) ≡ reference ext n
    reference-prune (node null c) refs h = refl
    reference-prune (node (branch cs) c) refs h =
        elim (Bool-cases (contains refs (reference ext (node (branch cs) c)))) [
          | inl kept ↦ rw kept (
              ap (λ r. calc_reference ext (Outline.branch r)) (references-prune cs refs h.1)
              ∙ sym (reference-IsCoherent (branch cs) c h))
          | inr gone ↦ rw gone
        ]
    reference-prune (node (leaf prefix value) c) refs h =
        sym (reference-IsCoherent (leaf prefix value) c h)
    reference-prune (node (extension prefix n) c) refs h =
        elim (Bool-cases (contains refs (reference ext (node (extension prefix n) c)))) [
          | inl kept ↦ rw kept (
              ap (λ r. calc_reference ext (Outline.extension prefix r)) (reference-prune n refs h.1)
              ∙ sym (reference-IsCoherent (extension prefix n) c h))
          | inr gone ↦ rw gone
        ]
    reference-prune (node (MptNodeData.digest d) c) refs h =
        elim (Bool-cases (contains refs (reference ext (node (MptNodeData.digest d) c)))) [
          | inl kept ↦ rw kept (sym (reference-IsCoherent (MptNodeData.digest d) c h))
          | inr gone ↦ rw gone
        ]

    references-prune :
        (cs : Children) (refs : List MptNodeReference)
        → AreCoherent ext cs
        → references ext (prune_children ext cs refs) ≡ references ext cs
    references-prune nil refs h = refl
    references-prune (vacant cs) refs h = ap (λ rs. none ∷ rs) (references-prune cs refs h)
    references-prune (child n cs) refs h =
        ap₂ (λ r rs. some r ∷ rs) (reference-prune n refs h.0) (references-prune cs refs h.1)

  hash-reference :
      (n : MptNode) → is_empty n ≡ false → hash ext n ≡ hash_reference ext (reference ext n)
  unfolding hash is_empty
  hash-reference (node null c) h = absurd (cc)
  hash-reference (node (branch cs) c) h = refl
  hash-reference (node (leaf prefix value) c) h = refl
  hash-reference (node (extension prefix n) c) h = refl
  hash-reference (node (MptNodeData.digest d) c) h = refl

  is_empty-prune :
      (n : MptNode) (refs : List MptNodeReference)
      → is_empty (prune_unmarked_nodes ext n refs) ≡ is_empty n
  unfolding is_empty prune_unmarked_nodes
  is_empty-prune (node null c) refs = refl
  is_empty-prune (node (branch cs) c) refs =
      elim (Bool-cases (contains refs (reference ext (node (branch cs) c)))) [
        | inl kept ↦ rw kept
        | inr gone ↦ rw gone
      ]
  is_empty-prune (node (leaf prefix value) c) refs = refl
  is_empty-prune (node (extension prefix n) c) refs =
      elim (Bool-cases (contains refs (reference ext (node (extension prefix n) c)))) [
        | inl kept ↦ rw kept
        | inr gone ↦ rw gone
      ]
  is_empty-prune (node (MptNodeData.digest d) c) refs =
      elim (Bool-cases (contains refs (reference ext (node (MptNodeData.digest d) c)))) [
        | inl kept ↦ rw kept
        | inr gone ↦ rw gone
      ]

  of_reference :
      (n : MptNode) (refs : List MptNodeReference)
      → is_empty n ≡ false
      → IsCoherent ext n
      → (hash ext (prune_unmarked_nodes ext n refs) ≡ hash ext n)
        × (reference ext (prune_unmarked_nodes ext n refs) ≡ reference ext n)
  of_reference n refs f h = (
    hash-reference (prune_unmarked_nodes ext n refs) (is_empty-prune n refs ∙ f)
        ∙ ap (hash_reference ext) (reference-prune n refs h)
        ∙ sym (hash-reference n f),
    reference-prune n refs h,
  )

  -- Where the caches agree with the data they stand beside, pruning changes neither the hash of the
  -- node nor its reference, whatever the set of references. (Both are those of the node in memory,
  -- with the caches that pruning leaves.)
  pub hash-prune :
      (n : MptNode) (refs : List MptNodeReference)
      → IsCoherent ext n
      → (hash ext (prune_unmarked_nodes ext n refs) ≡ hash ext n)
        × (reference ext (prune_unmarked_nodes ext n refs) ≡ reference ext n)
  unfolding hash prune_unmarked_nodes is_empty
  hash-prune (node null c) refs h = (refl, refl)
  hash-prune (node (branch cs) c) refs h = of_reference (node (branch cs) c) refs refl h
  hash-prune (node (leaf prefix value) c) refs h =
      of_reference (node (leaf prefix value) c) refs refl h
  hash-prune (node (extension prefix n) c) refs h =
      of_reference (node (extension prefix n) c) refs refl h
  hash-prune (node (MptNodeData.digest d) c) refs h =
      of_reference (node (MptNodeData.digest d) c) refs refl h
