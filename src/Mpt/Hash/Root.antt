-- ===== src/Mpt/Hash/Root.antt =====
-- `hash` of crates/mpt/src/mpt.rs against the definition of the root of a trie in the Yellow Paper
-- (appendix D), which knows no caches and no references.
use pico_subblock.Prelude.{
  ℕ, ◌+◌, ◌≡◌, refl, ap, ap₂, ◌∙◌, Option, List, [], ◌∷◌, ◌++◌, ltb, if◌then◌else◌, length,
  length-append, arith, Bool-cases, inl, inr,
}
use pico_subblock.Mpt.{
  B256, MptNode, MptNodeData, MptNodeReference, Children, node, null, branch, leaf, extension, nil,
  vacant, child,
}
use pico_subblock.Mpt.Outline.{Outline}
use pico_subblock.Mpt.Hash.{
  External, empty_root, encode, encode_reference, encode_children, length_children,
  length_reference, payload_length, short_or_digest, calc_reference, reference, outline, references,
  hash, hash_reference,
}
use pico_subblock.Mpt.Hash.Cache.{IsCoherent, CoherentData, AreCoherent}
use pico_subblock.Mpt.Hash.Length.{
  IsDocumented, IsSized, SizedData, AreSized, length-encode_reference, length-encode_children,
  reference-Sized, references-Sized, SizedReference, SizedReferences,
}
use pico_subblock.Mpt.Touched.Prune.{reference-IsCoherent}

module _ (ext : External) where
  open ext use {keccak, empty_string_code, list_header, encode_string}

  -- A list in RLP, from its encoded items put together.
  abbrev pub rlp_list : List ℕ → List ℕ
  rlp_list payload = list_header (length payload) ++ payload

  -- The RLP of a word of 32 bytes.
  abbrev pub rlp_word : B256 → List ℕ
  rlp_word word = (empty_string_code + 32) ∷ word

  -- A node inside another: its encoding, or the hash of it from 32 bytes on.
  abbrev pub embed : List ℕ → List ℕ
  embed encoded = if ltb (length encoded) 32 then encoded else rlp_word (keccak encoded)

  abbrev mutual
    pub embedded : MptNode → List ℕ
    embedded (node null c) = empty_string_code ∷ []
    embedded (node (branch cs) c) =
        embed (rlp_list (embedded_children cs ++ (empty_string_code ∷ [])))
    embedded (node (leaf prefix value) c) =
        embed (rlp_list (encode_string prefix ++ encode_string value))
    embedded (node (extension prefix n) c) = embed (rlp_list (encode_string prefix ++ embedded n))
    embedded (node (MptNodeData.digest d) c) = rlp_word d

    pub embedded_children : Children → List ℕ
    embedded_children nil = []
    embedded_children (vacant cs) = empty_string_code ∷ embedded_children cs
    embedded_children (child n cs) = embedded n ++ embedded_children cs

  -- The root of a trie.
  abbrev pub root_hash : MptNode → B256
  root_hash (node null c) = empty_root
  root_hash (node (branch cs) c) =
      keccak (rlp_list (embedded_children cs ++ (empty_string_code ∷ [])))
  root_hash (node (leaf prefix value) c) =
      keccak (rlp_list (encode_string prefix ++ encode_string value))
  root_hash (node (extension prefix n) c) = keccak (rlp_list (encode_string prefix ++ embedded n))
  root_hash (node (MptNodeData.digest d) c) = d

  encode_reference-short_or_digest :
      (e : List ℕ) → encode_reference ext (short_or_digest ext e) ≡ embed e
  unfolding encode_reference short_or_digest
  encode_reference-short_or_digest e = elim (Bool-cases (ltb (length e) 32)) [
    | inl short ↦ rw short refl
    | inr long ↦ rw long refl
  ]

  hash_reference-short_or_digest :
      (e : List ℕ) → hash_reference ext (short_or_digest ext e) ≡ keccak e
  unfolding hash_reference short_or_digest
  hash_reference-short_or_digest e = elim (Bool-cases (ltb (length e) 32)) [
    | inl short ↦ rw short refl
    | inr long ↦ rw long refl
  ]

  module _ (laws : IsDocumented ext) where
    encode-leaf :
        (prefix value : List ℕ)
        → encode ext (Outline.leaf prefix value)
          ≡ rlp_list (encode_string prefix ++ encode_string value)
    unfolding encode payload_length
    encode-leaf prefix value =
        let size : ext.string_length prefix + ext.string_length value
            ≡ length (encode_string prefix ++ encode_string value) =
          omega (
            arith,
            length-append (encode_string prefix) (encode_string value),
            laws.string prefix,
            laws.string value,
          ) in
        ap (λ n. list_header n ++ (encode_string prefix ++ encode_string value)) size

    encode-extension :
        (prefix : List ℕ) (r : MptNodeReference) (e : List ℕ)
        → SizedReference r
        → encode_reference ext r ≡ e
        → encode ext (Outline.extension prefix r) ≡ rlp_list (encode_string prefix ++ e)
    unfolding encode payload_length
    encode-extension prefix r e s same =
        let size : ext.string_length prefix + length_reference ext r
            ≡ length (encode_string prefix ++ encode_reference ext r) =
          omega (
            arith,
            length-append (encode_string prefix) (encode_reference ext r),
            laws.string prefix,
            length-encode_reference ext laws r s,
          ) in
        ap (λ n. list_header n ++ (encode_string prefix ++ encode_reference ext r)) size
        ∙ ap (λ x. rlp_list (encode_string prefix ++ x)) same

    encode-branch :
        (rs : List (Option MptNodeReference)) (e : List ℕ)
        → SizedReferences rs
        → encode_children ext rs ≡ e
        → encode ext (Outline.branch rs) ≡ rlp_list (e ++ (empty_string_code ∷ []))
    unfolding encode payload_length
    encode-branch rs e s same =
        let size : 1 + length_children ext rs
            ≡ length (encode_children ext rs ++ (empty_string_code ∷ [])) =
          omega (
            arith,
            length-append (encode_children ext rs) (empty_string_code ∷ []),
            length-encode_children ext laws rs s,
          ) in
        ap (λ n. list_header n ++ (encode_children ext rs ++ (empty_string_code ∷ []))) size
        ∙ ap (λ x. rlp_list (x ++ (empty_string_code ∷ []))) same

    mutual
      unfolding calc_reference reference encode_reference encode_children

      encode_reference-embedded :
          (n : MptNode)
          → IsCoherent ext n
          → IsSized n
          → encode_reference ext (reference ext n) ≡ embedded n
      encode_reference-embedded (node d c) h s =
          ap (encode_reference ext) (reference-IsCoherent ext d c h) ∙ encode_data d c h.1 s.1

      encode_data :
          (d : MptNodeData) (c : Option MptNodeReference)
          → CoherentData ext d
          → SizedData d
          → encode_reference ext (calc_reference ext (outline ext d)) ≡ embedded (node d c)
      encode_data null c h s = refl
      encode_data (branch cs) c h s =
          encode_reference-short_or_digest (encode ext (Outline.branch (references ext cs)))
          ∙ ap embed (
              encode-branch (references ext cs) (embedded_children cs)
                (references-Sized ext laws cs s) (encode_children-embedded_children cs h s))
      encode_data (leaf prefix value) c h s =
          encode_reference-short_or_digest (encode ext (Outline.leaf prefix value))
          ∙ ap embed (encode-leaf prefix value)
      encode_data (extension prefix n) c h s =
          encode_reference-short_or_digest (encode ext (Outline.extension prefix (reference ext n)))
          ∙ ap embed (
              encode-extension prefix (reference ext n) (embedded n) (reference-Sized ext laws n s)
                (encode_reference-embedded n h s))
      encode_data (MptNodeData.digest d) c h s = refl

      encode_children-embedded_children :
          (cs : Children)
          → AreCoherent ext cs
          → AreSized cs
          → encode_children ext (references ext cs) ≡ embedded_children cs
      encode_children-embedded_children nil h s = refl
      encode_children-embedded_children (vacant cs) h s =
          ap (λ x. empty_string_code ∷ x) (encode_children-embedded_children cs h s)
      encode_children-embedded_children (child n cs) h s =
          ap₂ (λ x y. x ++ y) (encode_reference-embedded n h.0 s.0)
            (encode_children-embedded_children cs h.1 s.1)

    encode-embedded :
        (prefix : List ℕ) (n : MptNode)
        → IsCoherent ext n
        → IsSized n
        → encode ext (Outline.extension prefix (reference ext n))
          ≡ rlp_list (encode_string prefix ++ embedded n)
    encode-embedded prefix n h s =
        encode-extension prefix (reference ext n) (embedded n) (reference-Sized ext laws n s)
          (encode_reference-embedded n h s)

    encode-embedded_children :
        (cs : Children)
        → AreCoherent ext cs
        → AreSized cs
        → encode ext (Outline.branch (references ext cs))
          ≡ rlp_list (embedded_children cs ++ (empty_string_code ∷ []))
    encode-embedded_children cs h s =
        encode-branch (references ext cs) (embedded_children cs) (references-Sized ext laws cs s)
          (encode_children-embedded_children cs h s)

    hash_data :
        (d : MptNodeData) (c : Option MptNodeReference)
        → IsCoherent ext (node d c)
        → IsSized (node d c)
        → hash ext (node d c) ≡ root_hash (node d c)
    unfolding hash calc_reference hash_reference reference
    hash_data null c h s = refl
    hash_data (branch cs) c h s =
        ap (hash_reference ext) (reference-IsCoherent ext (branch cs) c h)
        ∙ hash_reference-short_or_digest (encode ext (Outline.branch (references ext cs)))
        ∙ ap keccak (encode-embedded_children cs h.1 s.1)
    hash_data (leaf prefix value) c h s =
        ap (hash_reference ext) (reference-IsCoherent ext (leaf prefix value) c h)
        ∙ hash_reference-short_or_digest (encode ext (Outline.leaf prefix value))
        ∙ ap keccak (encode-leaf prefix value)
    hash_data (extension prefix n) c h s =
        ap (hash_reference ext) (reference-IsCoherent ext (extension prefix n) c h)
        ∙ hash_reference-short_or_digest (encode ext (Outline.extension prefix (reference ext n)))
        ∙ ap keccak (encode-embedded prefix n h.1 s.1)
    hash_data (MptNodeData.digest d) c h s =
        ap (hash_reference ext) (reference-IsCoherent ext (MptNodeData.digest d) c h)

    -- For the documented encoders and Keccak, on a node whose caches agree with the data they stand
    -- beside and whose digests have 32 bytes: hash is the root of the trie in the Yellow Paper's
    -- sense, the root of the empty trie at null, the digest at a digest, and otherwise the hash of
    -- the RLP list of the node's items, in which a node stands as its own RLP list, or as the RLP
    -- of the hash of that list where it has 32 bytes or more.
    pub hash-root_hash : (n : MptNode) → IsCoherent ext n → IsSized n → hash ext n ≡ root_hash n
    hash-root_hash (node d c) h s = hash_data d c h s
