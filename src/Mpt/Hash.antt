-- ===== src/Mpt/Hash.antt =====
-- crates/mpt/src/mpt.rs: RLP encoding, references and hashes of nodes, with the cache of
-- references. alloy_rlp and Keccak are not in the repository: they are the parameter `External`.
pub mod Length
pub mod Cache
pub mod Root
use pico_subblock.Prelude.{
  ℕ, suc, ◌+◌, ◌<◌, Bool, true, false, Option, none, some, List, [], ◌∷◌, ◌++◌, ltb, if◌then◌else◌,
  length,
}
use pico_subblock.Mpt.Outline.{Outline}
use pico_subblock.Mpt.{
  B256, MptNode, MptNodeData, MptNodeReference, Children, node, null, branch, leaf, extension, nil,
  vacant, child,
}

-- The external functions: `keccak256`, `alloy_rlp::EMPTY_STRING_CODE`, the header of a list
-- (`Header { list: true, payload_length }.encode`), the encoding of a byte string (of a slice and
-- of a `B256`) with its `length`, and `length_of_length`.
pub record External : Type 0 where
  pub keccak : List ℕ → B256
  pub empty_string_code : ℕ
  pub list_header : ℕ → List ℕ
  pub encode_string : List ℕ → List ℕ
  pub string_length : List ℕ → ℕ
  pub length_of_length : ℕ → ℕ

-- `EMPTY_ROOT`
abbrev pub empty_root : B256
empty_root =
    0x56 ∷ 0xe8 ∷ 0x1f ∷ 0x17 ∷ 0x1b ∷ 0xcc ∷ 0x55 ∷ 0xa6 ∷ 0xff ∷ 0x83 ∷ 0x45 ∷ 0xe6 ∷ 0x92 ∷ 0xc0
    ∷ 0xf8 ∷ 0x6e ∷ 0x5b ∷ 0x48 ∷ 0xe0 ∷ 0x1b ∷ 0x99 ∷ 0x6c ∷ 0xad ∷ 0xc0 ∷ 0x01 ∷ 0x62 ∷ 0x2f
    ∷ 0xb5 ∷ 0xe3 ∷ 0x63 ∷ 0xb4 ∷ 0x21 ∷ []

module _ (ext : External) where
  open ext use {
    keccak, empty_string_code, list_header, encode_string, string_length, length_of_length,
  }

  -- The two `match`es of `reference_encode` and `reference_length` on the reference.
  unfoldable pub encode_reference : MptNodeReference → List ℕ
  encode_reference (MptNodeReference.bytes b) = b
  encode_reference (MptNodeReference.digest d) = (empty_string_code + 32) ∷ d

  unfoldable pub length_reference : MptNodeReference → ℕ
  length_reference (MptNodeReference.bytes b) = length b
  length_reference (MptNodeReference.digest d) = 1 + 32

  unfoldable pub encode_children : List (Option MptNodeReference) → List ℕ
  unfolding encode_reference
  encode_children [] = []
  encode_children (none ∷ rs) = empty_string_code ∷ encode_children rs
  encode_children (some r ∷ rs) = encode_reference r ++ encode_children rs

  unfoldable pub length_children : List (Option MptNodeReference) → ℕ
  unfolding length_reference
  length_children [] = 0
  length_children (none ∷ rs) = 1 + length_children rs
  length_children (some r ∷ rs) = length_reference r + length_children rs

  unfoldable pub payload_length : Outline → ℕ
  unfolding length_children length_reference
  payload_length Outline.null = 0
  payload_length (Outline.branch rs) = 1 + length_children rs
  payload_length (Outline.leaf prefix value) = string_length prefix + string_length value
  payload_length (Outline.extension prefix r) = string_length prefix + length_reference r
  payload_length (Outline.digest d) = 32

  unfoldable pub encode : Outline → List ℕ
  unfolding payload_length encode_children encode_reference
  encode Outline.null = empty_string_code ∷ []
  encode (Outline.branch rs) =
      list_header (payload_length (Outline.branch rs))
      ++ (encode_children rs ++ (empty_string_code ∷ []))
  encode (Outline.leaf prefix value) =
      list_header (payload_length (Outline.leaf prefix value))
      ++ (encode_string prefix ++ encode_string value)
  encode (Outline.extension prefix r) =
      list_header (payload_length (Outline.extension prefix r))
      ++ (encode_string prefix ++ encode_reference r)
  encode (Outline.digest d) = encode_string d

  unfoldable pub encoded_length : Outline → ℕ
  unfolding payload_length
  encoded_length o = payload_length o + length_of_length (payload_length o)

  -- `if encoded.len() < 32 { Bytes(encoded) } else { Digest(keccak(encoded)) }`
  unfoldable pub short_or_digest : List ℕ → MptNodeReference
  short_or_digest encoded =
      if ltb (length encoded) 32
      then MptNodeReference.bytes encoded
      else MptNodeReference.digest (keccak encoded)

  unfoldable pub calc_reference : Outline → MptNodeReference
  unfolding encode short_or_digest
  calc_reference Outline.null = MptNodeReference.bytes (empty_string_code ∷ [])
  calc_reference (Outline.digest d) = MptNodeReference.digest d
  calc_reference (Outline.branch rs) = short_or_digest (encode (Outline.branch rs))
  calc_reference (Outline.leaf prefix value) = short_or_digest (encode (Outline.leaf prefix value))
  calc_reference (Outline.extension prefix r) =
      short_or_digest (encode (Outline.extension prefix r))

  -- `self.cached_reference.borrow_mut().get_or_insert_with(|| self.calc_reference())`: its value.
  unfoldable mutual
    pub reference : MptNode → MptNodeReference
    reference (node d (some r)) = r
    reference (node d none) = calc_reference (outline d)

    pub outline : MptNodeData → Outline
    outline null = Outline.null
    outline (branch cs) = Outline.branch (references cs)
    outline (leaf prefix value) = Outline.leaf prefix value
    outline (extension prefix n) = Outline.extension prefix (reference n)
    outline (MptNodeData.digest d) = Outline.digest d

    pub references : Children → List (Option MptNodeReference)
    references nil = []
    references (vacant cs) = none ∷ references cs
    references (child n cs) = some (reference n) ∷ references cs

  -- The same call, as a change of the caches: the node's own, and in the course of encoding those
  -- of the nodes below that have none.
  unfoldable mutual
    pub fill : MptNode → MptNode
    fill (node d (some r)) = node d (some r)
    fill (node d none) = node (fill_data d) (some (reference (node d none)))

    pub fill_data : MptNodeData → MptNodeData
    fill_data null = null
    fill_data (branch cs) = branch (fill_children cs)
    fill_data (leaf prefix value) = leaf prefix value
    fill_data (extension prefix n) = extension prefix (fill n)
    fill_data (MptNodeData.digest d) = MptNodeData.digest d

    pub fill_children : Children → Children
    fill_children nil = nil
    fill_children (vacant cs) = vacant (fill_children cs)
    fill_children (child n cs) = child (fill n) (fill_children cs)

  -- `hash`
  unfoldable pub hash_reference : MptNodeReference → B256
  hash_reference (MptNodeReference.digest d) = d
  hash_reference (MptNodeReference.bytes b) = keccak b

  unfoldable pub hash : MptNode → B256
  unfolding hash_reference
  hash (node null c) = empty_root
  hash (node d c) = hash_reference (reference (node d c))
