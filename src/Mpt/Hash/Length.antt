-- ===== src/Mpt/Hash/Length.antt =====
-- `length` and `encode` of crates/mpt/src/mpt.rs.
use pico_subblock.Prelude.{
  ℕ, ◌+◌, ◌≤◌, ◌≡◌, refl, Option, none, some, List, [], ◌∷◌, ◌++◌, ltb, length, length-append,
  arith, Bool-cases, inl, inr,
}
use pico_subblock.Mpt.{
  B256, MptNode, MptNodeData, MptNodeReference, Children, node, null, branch, leaf, extension, nil,
  vacant, child,
}
use pico_subblock.Mpt.Outline.{Outline}
use pico_subblock.Mpt.Hash.{
  External, encode_reference, length_reference, encode_children, length_children, payload_length,
  encode, encoded_length, short_or_digest, calc_reference, reference, outline, references,
}

-- What alloy_rlp and Keccak document: an encoding has the length that is announced for it, the
-- header of a payload of at most 55 bytes is one byte, and a hash has 32 bytes.
pub record IsDocumented (ext : External) : Type 0 where
  pub header : (n : ℕ) → length (ext.list_header n) ≡ ext.length_of_length n
  pub string : (b : List ℕ) → length (ext.encode_string b) ≡ ext.string_length b
  pub hash_size : (b : List ℕ) → length (ext.keccak b) ≡ 32
  pub short : (n : ℕ) → n ≤ 55 → ext.length_of_length n ≡ 1
  pub word : (d : B256) → length d ≡ 32 → ext.string_length d ≡ 33

-- The digests that are stored, or cached, have 32 bytes.
abbrev pub SizedReference : MptNodeReference → Type 0
SizedReference (MptNodeReference.bytes b) = Unit
SizedReference (MptNodeReference.digest d) = length d ≡ 32

abbrev pub SizedCache : Option MptNodeReference → Type 0
SizedCache none = Unit
SizedCache (some r) = SizedReference r

abbrev mutual
  pub IsSized : MptNode → Type 0
  IsSized (node d c) = SizedCache c × SizedData d

  pub SizedData : MptNodeData → Type 0
  SizedData null = Unit
  SizedData (branch cs) = AreSized cs
  SizedData (leaf prefix value) = Unit
  SizedData (extension prefix n) = IsSized n
  SizedData (MptNodeData.digest d) = length d ≡ 32

  pub AreSized : Children → Type 0
  AreSized nil = Unit
  AreSized (vacant cs) = AreSized cs
  AreSized (child n cs) = IsSized n × AreSized cs

abbrev pub SizedReferences : List (Option MptNodeReference) → Type 0
SizedReferences [] = Unit
SizedReferences (none ∷ rs) = SizedReferences rs
SizedReferences (some r ∷ rs) = SizedReference r × SizedReferences rs

abbrev SizedOutline : Outline → Type 0
SizedOutline Outline.null = Unit
SizedOutline (Outline.branch rs) = SizedReferences rs
SizedOutline (Outline.leaf prefix value) = Unit
SizedOutline (Outline.extension prefix r) = SizedReference r
SizedOutline (Outline.digest d) = length d ≡ 32

module _ (ext : External) (laws : IsDocumented ext) where
  pub length-encode_reference :
      (r : MptNodeReference)
      → SizedReference r
      → length (encode_reference ext r) ≡ length_reference ext r
  unfolding encode_reference length_reference
  length-encode_reference (MptNodeReference.bytes b) h = refl
  length-encode_reference (MptNodeReference.digest d) h = omega arith

  pub length-encode_children :
      (rs : List (Option MptNodeReference))
      → SizedReferences rs
      → length (encode_children ext rs) ≡ length_children ext rs
  unfolding encode_children length_children
  length-encode_children [] h = refl
  length-encode_children (none ∷ rs) h = omega (arith, length-encode_children rs h)
  length-encode_children (some r ∷ rs) h = omega (
    arith,
    length-append (encode_reference ext r) (encode_children ext rs),
    length-encode_reference r h.0,
    length-encode_children rs h.1,
  )

  length-encode_outline :
      (o : Outline) → SizedOutline o → length (encode ext o) ≡ encoded_length ext o
  unfolding encode encoded_length payload_length
  length-encode_outline Outline.null h = omega (arith, laws.short 0 (omega arith))
  length-encode_outline (Outline.branch rs) h = omega (
    arith,
    laws.header (1 + length_children ext rs),
    length-append (ext.list_header (1 + length_children ext rs))
        (encode_children ext rs ++ (ext.empty_string_code ∷ [])),
    length-append (encode_children ext rs) (ext.empty_string_code ∷ []),
    length-encode_children rs h,
  )
  length-encode_outline (Outline.leaf prefix value) h = omega (
    arith,
    laws.header (ext.string_length prefix + ext.string_length value),
    length-append (ext.list_header (ext.string_length prefix + ext.string_length value))
        (ext.encode_string prefix ++ ext.encode_string value),
    length-append (ext.encode_string prefix) (ext.encode_string value),
    laws.string prefix,
    laws.string value,
  )
  length-encode_outline (Outline.extension prefix r) h = omega (
    arith,
    laws.header (ext.string_length prefix + length_reference ext r),
    length-append (ext.list_header (ext.string_length prefix + length_reference ext r))
        (ext.encode_string prefix ++ encode_reference ext r),
    length-append (ext.encode_string prefix) (encode_reference ext r),
    laws.string prefix,
    length-encode_reference r h,
  )
  length-encode_outline (Outline.digest d) h =
      omega (arith, laws.string d, laws.word d h, laws.short 32 (omega arith))

  short_or_digest-Sized : (b : List ℕ) → SizedReference (short_or_digest ext b)
  unfolding short_or_digest
  short_or_digest-Sized b = elim (Bool-cases (ltb (length b) 32)) [
    | inl s ↦ rw s tt
    | inr l ↦ rw l (laws.hash_size b)
  ]

  calc_reference-Sized : (o : Outline) → SizedOutline o → SizedReference (calc_reference ext o)
  unfolding calc_reference
  calc_reference-Sized Outline.null h = tt
  calc_reference-Sized (Outline.digest d) h = h
  calc_reference-Sized (Outline.branch rs) h =
      short_or_digest-Sized (encode ext (Outline.branch rs))
  calc_reference-Sized (Outline.leaf prefix value) h =
      short_or_digest-Sized (encode ext (Outline.leaf prefix value))
  calc_reference-Sized (Outline.extension prefix r) h =
      short_or_digest-Sized (encode ext (Outline.extension prefix r))

  mutual
    unfolding reference

    pub reference-Sized : (n : MptNode) → IsSized n → SizedReference (reference ext n)
    reference-Sized (node d (some r)) h = h.0
    reference-Sized (node d none) h = calc_reference-Sized (outline ext d) (outline-Sized d h.1)

    outline-Sized : (d : MptNodeData) → SizedData d → SizedOutline (outline ext d)
    outline-Sized null h = tt
    outline-Sized (branch cs) h = references-Sized cs h
    outline-Sized (leaf prefix value) h = tt
    outline-Sized (extension prefix n) h = reference-Sized n h
    outline-Sized (MptNodeData.digest d) h = h

    pub references-Sized : (cs : Children) → AreSized cs → SizedReferences (references ext cs)
    references-Sized nil h = tt
    references-Sized (vacant cs) h = references-Sized cs h
    references-Sized (child n cs) h = (reference-Sized n h.0, references-Sized cs h.1)

  -- For a node of any kind, with any caches below it, `encode` writes as many bytes as `length`
  -- announces, and the payload has the length that the list header states, provided that every
  -- stored or cached digest has 32 bytes. This is what `to_rlp` asserts in debug builds.
  pub length-encode :
      (d : MptNodeData)
      → SizedData d
      → length (encode ext (outline ext d)) ≡ encoded_length ext (outline ext d)
  length-encode d h = length-encode_outline (outline ext d) (outline-Sized d h)
