-- ===== src/State/Filled.antt =====
-- crates/mpt/src/mpt.rs: a call of `hash` fills caches, and changes nothing that `get` reads.
use pico_subblock.Prelude.{
  ℕ, zero, suc, ◌≡◌, refl, ap, sym, ◌∙◌, none, some, List, [], ◌∷◌, ◌≤◌, subst,
}
use pico_subblock.Result.{Result, ◌>>=◌, ok}
use pico_subblock.Path.{to_nibs, prefix_nibs, strip_prefix}
use pico_subblock.Mpt.{
  Error, MptNode, MptNodeData, Children, node, null, branch, leaf, extension, nil, vacant, child,
  is_empty,
}
use pico_subblock.Mpt.Get.{get, get_internal, get_child}
use pico_subblock.Mpt.Hash.{External, fill, fill_data, fill_children, hash, reference}
use pico_subblock.Mpt.Hash.Cache.{IsCoherent, fill-IsCoherent_lem}
use pico_subblock.Mpt.Valid.{IsValid, AreValid, is_branching, width, occupied}
use pico_subblock.State.{after_hash}

module _ (ext : External) where
  is_empty-fill : (n : MptNode) → is_empty (fill ext n) ≡ is_empty n
  unfolding is_empty fill fill_data
  is_empty-fill (node d (some r)) = refl
  is_empty-fill (node null none) = refl
  is_empty-fill (node (branch cs) none) = refl
  is_empty-fill (node (leaf prefix value) none) = refl
  is_empty-fill (node (extension prefix n) none) = refl
  is_empty-fill (node (MptNodeData.digest d) none) = refl

  is_branching-fill : (n : MptNode) → is_branching (fill ext n) ≡ is_branching n
  unfolding is_branching fill fill_data
  is_branching-fill (node d (some r)) = refl
  is_branching-fill (node null none) = refl
  is_branching-fill (node (branch cs) none) = refl
  is_branching-fill (node (leaf prefix value) none) = refl
  is_branching-fill (node (extension prefix n) none) = refl
  is_branching-fill (node (MptNodeData.digest d) none) = refl

  width-fill : (cs : Children) → width (fill_children ext cs) ≡ width cs
  unfolding width fill_children
  width-fill nil = refl
  width-fill (vacant cs) = ap suc (width-fill cs)
  width-fill (child n cs) = ap suc (width-fill cs)

  occupied-fill : (cs : Children) → occupied (fill_children ext cs) ≡ occupied cs
  unfolding occupied fill_children
  occupied-fill nil = refl
  occupied-fill (vacant cs) = occupied-fill cs
  occupied-fill (child n cs) = ap suc (occupied-fill cs)

  mutual
    unfolding fill

    fill-IsValid : (n : MptNode) → IsValid n → IsValid (fill ext n)
    fill-IsValid (node d (some r)) v = v
    fill-IsValid (node null none) v = tt
    fill-IsValid (node (branch cs) none) v = (
      fill_children-AreValid cs v.0,
      width-fill cs ∙ v.1,
      subst (λ k. 2 ≤ k) (sym (occupied-fill cs)) v.2,
    )
    fill-IsValid (node (leaf prefix value) none) v = v
    fill-IsValid (node (extension prefix n) none) v =
        (v.0, v.1, is_branching-fill n ∙ v.2, fill-IsValid n v.3)
    fill-IsValid (node (MptNodeData.digest d) none) v = tt

    fill_children-AreValid : (cs : Children) → AreValid cs → AreValid (fill_children ext cs)
    fill_children-AreValid nil v = tt
    fill_children-AreValid (vacant cs) v = fill_children-AreValid cs v
    fill_children-AreValid (child n cs) v =
        (is_empty-fill n ∙ v.0, fill-IsValid n v.1, fill_children-AreValid cs v.2)

  at_extension :
      (m : Result Error (List ℕ)) (n n' : MptNode) (key : List ℕ)
      → ((t : List ℕ) → get_internal n' t ≡ get_internal n t)
      → (m >>= λ nibs. elim (strip_prefix key nibs) [
        | some tail ↦ get_internal n' tail
        | none ↦ ok none
      ])
        ≡ (m >>= λ nibs. elim (strip_prefix key nibs) [
          | some tail ↦ get_internal n tail
          | none ↦ ok none
        ])
  at_extension m n n' key f =
      λ i. (m >>= λ nibs. elim (strip_prefix key nibs) [ some tail ↦ f tail i | none ↦ ok none ])

  mutual
    unfolding fill get_internal

    get_internal-fill :
        (n : MptNode) (key : List ℕ) → get_internal (fill ext n) key ≡ get_internal n key
    get_internal-fill (node d (some r)) key = refl
    get_internal-fill (node null none) key = refl
    get_internal-fill (node (branch cs) none) [] = refl
    get_internal-fill (node (branch cs) none) (i ∷ tail) = get_child-fill cs i tail
    get_internal-fill (node (leaf prefix value) none) key = refl
    get_internal-fill (node (extension prefix n) none) key =
        at_extension (prefix_nibs prefix) n (fill ext n) key (λ t. get_internal-fill n t)
    get_internal-fill (node (MptNodeData.digest d) none) key = refl

    get_child-fill :
        (cs : Children) (i : ℕ) (tail : List ℕ)
        → get_child (fill_children ext cs) i tail ≡ get_child cs i tail
    get_child-fill nil i tail = refl
    get_child-fill (vacant cs) zero tail = refl
    get_child-fill (child n cs) zero tail = get_internal-fill n tail
    get_child-fill (vacant cs) (suc i) tail = get_child-fill cs i tail
    get_child-fill (child n cs) (suc i) tail = get_child-fill cs i tail

  -- What a call of `hash` leaves: a node with the same contents, the same hash and right caches.
  pub record Filled (n m : MptNode) : Type 0 where
    pub valid : IsValid n → IsValid m
    pub reads : (key : List ℕ) → get m key ≡ get n key
    pub coherent : IsCoherent ext n → IsCoherent ext m

  pub fill-Filled : (n : MptNode) → Filled n (fill ext n)
  unfolding get
  fill-Filled n = record {
    valid = fill-IsValid n;
    reads = λ key. get_internal-fill n (to_nibs key);
    coherent = fill-IsCoherent_lem ext n;
  }

  pub after_hash-Filled : (n : MptNode) → Filled n (after_hash ext n)
  unfolding after_hash
  after_hash-Filled (node null c) = record {
    valid = λ v. v;
    reads = λ key. refl;
    coherent = λ h. h;
  }
  after_hash-Filled (node (branch cs) c) = fill-Filled (node (branch cs) c)
  after_hash-Filled (node (leaf prefix value) c) = fill-Filled (node (leaf prefix value) c)
  after_hash-Filled (node (extension prefix n) c) = fill-Filled (node (extension prefix n) c)
  after_hash-Filled (node (MptNodeData.digest d) c) = fill-Filled (node (MptNodeData.digest d) c)

  pub hash-after_hash : (n : MptNode) → hash ext (after_hash ext n) ≡ hash ext n
  unfolding after_hash hash fill fill_data reference
  hash-after_hash (node null c) = refl
  hash-after_hash (node (branch cs) none) = refl
  hash-after_hash (node (branch cs) (some r)) = refl
  hash-after_hash (node (leaf prefix value) none) = refl
  hash-after_hash (node (leaf prefix value) (some r)) = refl
  hash-after_hash (node (extension prefix n) none) = refl
  hash-after_hash (node (extension prefix n) (some r)) = refl
  hash-after_hash (node (MptNodeData.digest d) none) = refl
  hash-after_hash (node (MptNodeData.digest d) (some r)) = refl
