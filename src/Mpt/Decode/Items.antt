-- ===== src/Mpt/Decode/Items.antt =====
-- crates/mpt/src/mpt.rs: what `encode` writes, as RLP describes it: strings and lists of items.
use pico_subblock.Prelude.{
  ℕ, suc, ◌+◌, ◌≤◌, ◌≡◌, refl, ap, ap₂, sym, ◌∙◌, some, List, [], ◌∷◌, ◌++◌, length, length-append,
  arith, Bool-cases, inl, inr, ltb,
}
use mathlib.Core.List.{append-nil, append_assoc}
use pico_subblock.Mpt.{
  B256, MptNode, MptNodeData, MptNodeReference, Children, node, null, branch, leaf, extension, nil,
  vacant, child,
}
use pico_subblock.Mpt.Outline.{Outline}
use pico_subblock.Mpt.Hash.{
  External, encode, encode_reference, encode_children, payload_length, length_children,
  length_reference, short_or_digest, calc_reference, reference, outline, references,
}
use pico_subblock.Mpt.Hash.Cache.{IsCoherent, CoherentData, AreCoherent}
use pico_subblock.Mpt.Hash.Length.{
  IsDocumented, IsSized, SizedData, AreSized, SizedReference, reference-Sized, references-Sized,
  length-encode_reference, length-encode_children,
}
use pico_subblock.Mpt.Touched.Prune.{reference-IsCoherent}
use pico_subblock.Mpt.Decode.{Prototype, Rlp}

mutual
  pub data Item : Type 0 where
    string : List ℕ → Item
    list : Items → Item

  pub data Items : Type 0 where
    no_items : Items
    item : Item → Items → Items

unfoldable pub count : Items → ℕ
count no_items = 0
count (item i is) = suc (count is)

module _ (ext : External) where
  open ext use {list_header, encode_string, empty_string_code}

  unfoldable mutual
    pub encode_item : Item → List ℕ
    encode_item (string b) = encode_string b
    encode_item (list is) = list_header (length (encode_items is)) ++ encode_items is

    pub encode_items : Items → List ℕ
    encode_items no_items = []
    encode_items (item i is) = encode_item i ++ encode_items is

  unfoldable pub encodings : Items → List (List ℕ)
  unfolding encode_item
  encodings no_items = []
  encodings (item i is) = encode_item i ∷ encodings is

  -- What the crates rlp and alloy_rlp document: the encodings of the one are read by the other, the
  -- empty string is one byte and 32 bytes have a header of one byte.
  pub record Parses (parser : Rlp) : Type 0 where
    pub string_prototype :
        (b : List ℕ) → parser.prototype (encode_string b) ≡ some (Prototype.of_data (length b))
    pub string_value : (b : List ℕ) → parser.as_val (encode_string b) ≡ some b
    pub list_prototype :
        (is : Items)
        → parser.prototype (encode_item (list is)) ≡ some (Prototype.of_list (count is))
    pub list_items : (is : Items) → parser.items (encode_item (list is)) ≡ encodings is
    pub header : (n : ℕ) → 1 ≤ length (list_header n)
    pub empty : encode_string [] ≡ empty_string_code ∷ []
    pub word : (d : B256) → length d ≡ 32 → encode_string d ≡ (empty_string_code + 32) ∷ d

  -- The item that a node is encoded as: a child by its reference, which is either a digest or the
  -- child's own encoding.
  unfoldable mutual
    pub item_of : MptNodeData → Item
    item_of null = string []
    item_of (branch cs) = list (places cs)
    item_of (leaf prefix value) = list (item (string prefix) (item (string value) no_items))
    item_of (extension prefix n) = list (item (string prefix) (item (item_of_child n) no_items))
    item_of (MptNodeData.digest d) = string d

    pub item_of_child : MptNode → Item
    item_of_child (node d c) = elim (reference ext (node d c)) [
      | MptNodeReference.digest digest ↦ string digest
      | MptNodeReference.bytes b ↦ item_of d
    ]

    -- The 16 children and the empty value of a branch.
    pub places : Children → Items
    places nil = item (string []) no_items
    places (vacant cs) = item (string []) (places cs)
    places (child n cs) = item (item_of_child n) (places cs)

  of_short :
      (encoded b : List ℕ) → short_or_digest ext encoded ≡ MptNodeReference.bytes b → b ≡ encoded
  unfolding short_or_digest
  of_short encoded b e = elim (Bool-cases (ltb (length encoded) 32)) [
    | inl s ↦ let e' = rw s at e in cc (e')
    | inr l ↦ let e' = rw l at e in absurd (cc)
  ]

  of_calc_reference :
      (o : Outline) (b : List ℕ)
      → calc_reference ext o ≡ MptNodeReference.bytes b
      → b ≡ encode ext o
  unfolding calc_reference encode
  of_calc_reference Outline.null b e = cc (e)
  of_calc_reference (Outline.branch rs) b e = of_short (encode ext (Outline.branch rs)) b e
  of_calc_reference (Outline.leaf prefix value) b e =
      of_short (encode ext (Outline.leaf prefix value)) b e
  of_calc_reference (Outline.extension prefix r) b e =
      of_short (encode ext (Outline.extension prefix r)) b e
  of_calc_reference (Outline.digest d) b e = absurd (cc)

  module _ (docs : IsDocumented ext) (parser : Rlp) (laws : Parses parser) where
    encode_reference-string :
        (d : B256)
        → length d ≡ 32
        → encode_reference ext (MptNodeReference.digest d) ≡ encode_string d
    unfolding encode_reference
    encode_reference-string d h = sym (laws.word d h)

    -- A list, from the parts of its payload.
    list-of :
        (n : ℕ) (payload : List ℕ) (is : Items)
        → payload ≡ encode_items is
        → n ≡ length payload
        → list_header n ++ payload ≡ encode_item (list is)
    unfolding encode_item
    list-of n payload is e l = rw (l, e) refl

    pair : (i j : Item) → encode_items (item i (item j no_items)) ≡ encode_item i ++ encode_item j
    unfolding encode_item
    pair i j = rw (append-nil (encode_item j)) refl

    by_reference :
        (d : MptNodeData) (r : MptNodeReference)
        → r ≡ calc_reference ext (outline ext d)
        → SizedReference r
        → encode ext (outline ext d) ≡ encode_item (item_of d)
        → encode_reference ext r
          ≡ encode_item (elim r [
            | MptNodeReference.digest digest ↦ string digest
            | MptNodeReference.bytes b ↦ item_of d
          ])
    unfolding encode_reference encode_item
    by_reference d (MptNodeReference.bytes b) e s h =
        of_calc_reference (outline ext d) b (sym e) ∙ h
    by_reference d (MptNodeReference.digest digest) e s h = encode_reference-string digest s

    mutual
      unfolding encode encode_item item_of payload_length references outline

      encode-item :
          (d : MptNodeData)
          → CoherentData ext d
          → SizedData d
          → encode ext (outline ext d) ≡ encode_item (item_of d)
      encode-item null h s = sym laws.empty
      encode-item (branch cs) h s =
          let children = encode-places cs h s in
          list-of (1 + length_children ext (references ext cs))
            (encode_children ext (references ext cs) ++ (empty_string_code ∷ [])) (places cs)
            children
            (omega (
              arith,
              length-append (encode_children ext (references ext cs)) (empty_string_code ∷ []),
              length-encode_children ext docs (references ext cs) (references-Sized ext docs cs s),
            ))
      encode-item (leaf prefix value) h s =
          list-of (ext.string_length prefix + ext.string_length value)
            (encode_string prefix ++ encode_string value)
            (item (string prefix) (item (string value) no_items))
            (sym (pair (string prefix) (string value)))
            (omega (
              arith,
              length-append (encode_string prefix) (encode_string value),
              docs.string prefix,
              docs.string value,
            ))
      encode-item (extension prefix n) h s =
          list-of (ext.string_length prefix + length_reference ext (reference ext n))
            (encode_string prefix ++ encode_reference ext (reference ext n))
            (item (string prefix) (item (item_of_child n) no_items))
            (ap (λ b. encode_string prefix ++ b) (encode-child n h s)
              ∙ sym (pair (string prefix) (item_of_child n)))
            (omega (
              arith,
              length-append (encode_string prefix) (encode_reference ext (reference ext n)),
              docs.string prefix,
              length-encode_reference ext docs (reference ext n) (reference-Sized ext docs n s),
            ))
      encode-item (MptNodeData.digest d) h s = refl

      encode-child :
          (n : MptNode)
          → IsCoherent ext n
          → IsSized n
          → encode_reference ext (reference ext n) ≡ encode_item (item_of_child n)
      encode-child (node d c) h s =
          by_reference d (reference ext (node d c)) (reference-IsCoherent ext d c h)
            (reference-Sized ext docs (node d c) s) (encode-item d h.1 s.1)

      encode-places :
          (cs : Children)
          → AreCoherent ext cs
          → AreSized cs
          → encode_children ext (references ext cs) ++ (empty_string_code ∷ [])
            ≡ encode_items (places cs)
      encode-places nil h s = sym (append-nil (encode_string []) ∙ laws.empty)
      encode-places (vacant cs) h s = ap₂ (λ x y. x ++ y) (sym laws.empty) (encode-places cs h s)
      encode-places (child n cs) h s =
          append_assoc (encode_reference ext (reference ext n))
            (encode_children ext (references ext cs)) (empty_string_code ∷ [])
          ∙ ap₂ (λ x y. x ++ y) (encode-child n h.0 s.0) (encode-places cs h.1 s.1)

    -- The same, outside the block.
    pub encode-item_of :
        (d : MptNodeData)
        → CoherentData ext d
        → SizedData d
        → encode ext (outline ext d) ≡ encode_item (item_of d)
    encode-item_of d h s = encode-item d h s
