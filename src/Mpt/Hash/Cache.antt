-- ===== src/Mpt/Hash/Cache.antt =====
-- The cache of references of crates/mpt/src/mpt.rs, and when it agrees with the data.
use pico_subblock.Prelude.{◌≡◌, refl, ap, ap₂, sym, Option, none, some, ◌∷◌}
use pico_subblock.Mpt.{
  MptNode, MptNodeData, MptNodeReference, Children, node, null, branch, leaf, extension, nil,
  vacant, child,
}
use pico_subblock.Mpt.Outline.{Outline}
use pico_subblock.Mpt.Hash.{
  External, calc_reference, reference, outline, references, fill, fill_data, fill_children,
}

-- The node with every cache emptied, as serialisation leaves it.
abbrev mutual
  pub without_caches : MptNode → MptNode
  without_caches (node d c) = node (data_without_caches d) none

  pub data_without_caches : MptNodeData → MptNodeData
  data_without_caches null = null
  data_without_caches (branch cs) = branch (children_without_caches cs)
  data_without_caches (leaf prefix value) = leaf prefix value
  data_without_caches (extension prefix n) = extension prefix (without_caches n)
  data_without_caches (MptNodeData.digest d) = MptNodeData.digest d

  pub children_without_caches : Children → Children
  children_without_caches nil = nil
  children_without_caches (vacant cs) = vacant (children_without_caches cs)
  children_without_caches (child n cs) = child (without_caches n) (children_without_caches cs)

module _ (ext : External) where
  mutual
    unfolding fill outline reference

    reference-fill_node : (n : MptNode) → reference ext (fill ext n) ≡ reference ext n
    reference-fill_node (node d (some r)) = refl
    reference-fill_node (node d none) = refl

    outline-fill_data : (d : MptNodeData) → outline ext (fill_data ext d) ≡ outline ext d
    outline-fill_data null = refl
    outline-fill_data (branch cs) = ap Outline.branch (references-fill_children cs)
    outline-fill_data (leaf prefix value) = refl
    outline-fill_data (extension prefix n) = ap (Outline.extension prefix) (reference-fill_node n)
    outline-fill_data (MptNodeData.digest d) = refl

    references-fill_children :
        (cs : Children) → references ext (fill_children ext cs) ≡ references ext cs
    references-fill_children nil = refl
    references-fill_children (vacant cs) = ap (λ rs. none ∷ rs) (references-fill_children cs)
    references-fill_children (child n cs) =
        ap₂ (λ r rs. some r ∷ rs) (reference-fill_node n) (references-fill_children cs)

  -- A cache holds what would be computed from the node's data.
  abbrev pub Agrees : Option MptNodeReference → MptNodeData → Type 0
  Agrees none d = Unit
  Agrees (some r) d = r ≡ calc_reference ext (outline ext d)

  abbrev mutual
    pub IsCoherent : MptNode → Type 0
    IsCoherent (node d c) = Agrees c d × CoherentData d

    pub CoherentData : MptNodeData → Type 0
    CoherentData null = Unit
    CoherentData (branch cs) = AreCoherent cs
    CoherentData (leaf prefix value) = Unit
    CoherentData (extension prefix n) = IsCoherent n
    CoherentData (MptNodeData.digest d) = Unit

    pub AreCoherent : Children → Type 0
    AreCoherent nil = Unit
    AreCoherent (vacant cs) = AreCoherent cs
    AreCoherent (child n cs) = IsCoherent n × AreCoherent cs

  -- Filling the caches keeps them right, and changes no hash.
  mutual
    unfolding fill reference

    fill-IsCoherent : (n : MptNode) → IsCoherent n → IsCoherent (fill ext n)
    fill-IsCoherent (node d (some r)) h = h
    fill-IsCoherent (node d none) h =
        (ap (calc_reference ext) (sym (outline-fill_data d)), fill_data-Coherent d h.1)

    fill_data-Coherent : (d : MptNodeData) → CoherentData d → CoherentData (fill_data ext d)
    fill_data-Coherent null h = tt
    fill_data-Coherent (branch cs) h = fill_children-Coherent cs h
    fill_data-Coherent (leaf prefix value) h = tt
    fill_data-Coherent (extension prefix n) h = fill-IsCoherent n h
    fill_data-Coherent (MptNodeData.digest d) h = tt

    fill_children-Coherent : (cs : Children) → AreCoherent cs → AreCoherent (fill_children ext cs)
    fill_children-Coherent nil h = tt
    fill_children-Coherent (vacant cs) h = fill_children-Coherent cs h
    fill_children-Coherent (child n cs) h = (fill-IsCoherent n h.0, fill_children-Coherent cs h.1)

  pub fill-IsCoherent_lem : (n : MptNode) → IsCoherent n → IsCoherent (fill ext n)
  fill-IsCoherent_lem n h = fill-IsCoherent n h

  -- `reference`, called on a node, changes no reference: neither the node's nor any below it.
  pub reference-fill : (n : MptNode) → reference ext (fill ext n) ≡ reference ext n
  reference-fill n = reference-fill_node n
