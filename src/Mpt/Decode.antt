-- ===== src/Mpt/Decode.antt =====
-- crates/mpt/src/mpt.rs: `decode`, and `parse_proof`. The crate rlp that it uses is a parameter,
-- the record `Rlp`.
pub mod Items
pub mod RoundTrip
pub mod Fuel
pub mod Toy
mod Tests
use pico_subblock.Prelude.{
  ℕ, zero, suc, Bool, true, false, Option, none, some, List, [], ◌∷◌, ◌==◌, if◌then◌else◌, length,
  take, get_elem?,
}
use pico_subblock.Result.{Result, ok, err, panic, ◌>>=◌, ◌>>◌, assert}
use pico_subblock.Path.{marks_extension}
use pico_subblock.Mpt.{
  Error, legacy_rlp, MptNode, MptNodeData, Children, branch, leaf, extension, nil, vacant, child,
  from_data, default,
}

-- `rlp::Prototype`, as far as the code tells its cases apart.
pub data Prototype : Type 0 where
  null : Prototype
  of_data : ℕ → Prototype
  of_list : ℕ → Prototype

-- The crate rlp: what an encoding starts with (`prototype()`, an error is `none`), its bytes
-- (`as_val::<Vec<u8>>()`), and the encodings of the items of a list (`iter()`, and `at(i)` by
-- index).
pub record Rlp : Type 0 where
  pub prototype : List ℕ → Option Prototype
  pub as_val : List ℕ → Option (List ℕ)
  pub items : List ℕ → List (List ℕ)

-- `?` on a result of the crate, whose errors all end as `Error::LegacyRlp`.
abbrev pub or_legacy {ℓ} : {A : Type ℓ} → Option A → Result Error A
or_legacy none = err legacy_rlp
or_legacy (some a) = ok a

-- `Prototype::Null | Prototype::Data(0)`
unfoldable pub is_absent : Prototype → Bool
is_absent Prototype.null = true
is_absent (Prototype.of_data n) = n == 0
is_absent (Prototype.of_list n) = false

-- `node_list.push(..)`
abbrev pub push : Option MptNode → Children → Children
push none cs = vacant cs
push (some n) cs = child n cs

module _ (parser : Rlp) where
  open parser use {prototype, as_val, items}

  unfoldable pub at : List ℕ → ℕ → Result Error (List ℕ)
  at rlp i = or_legacy (get_elem? (items rlp) i)

  unfoldable pub val_at : List ℕ → ℕ → Result Error (List ℕ)
  unfolding at
  val_at rlp i = do item ← at rlp i; or_legacy (as_val item)

  -- `Prototype::List(2)`; `path[0]` panics on an empty path.
  unfoldable pub decode_pair : (List ℕ → Result Error MptNode) → List ℕ → Result Error MptNode
  unfolding val_at
  decode_pair rec rlp = do
    path ← val_at rlp 0
    is_extension ← marks_extension path
    if is_extension
        then (do item ← at rlp 1; n ← rec item; ok (from_data (extension path n)))
        else (do value ← val_at rlp 1; ok (from_data (leaf path value)))

  -- One turn of the loop over the children.
  unfoldable pub decode_child :
      (List ℕ → Result Error MptNode) → List ℕ → Result Error (Option MptNode)
  unfolding is_absent
  decode_child rec item = do
    p ← or_legacy (prototype item)
    if is_absent p then ok none else (do n ← rec item; ok (some n))

  unfoldable pub decode_children :
      (List ℕ → Result Error MptNode) → List (List ℕ) → Result Error Children
  unfolding decode_child
  decode_children rec [] = ok nil
  decode_children rec (item ∷ rest) = do
    n ← decode_child rec item
    cs ← decode_children rec rest
    ok (push n cs)

  -- `Prototype::List(17)`; `try_into().unwrap()` panics unless there are 16 children.
  unfoldable pub decode_branch : (List ℕ → Result Error MptNode) → List ℕ → Result Error MptNode
  unfolding decode_children val_at
  decode_branch rec rlp = do
    cs ← decode_children rec (take 16 (items rlp))
    value ← val_at rlp 16
    elim value [
      | [] ↦ (assert (length (take 16 (items rlp)) == 16) >> ok (from_data (branch cs)))
      | b ∷ bytes ↦ err legacy_rlp
    ]

  -- `Prototype::Data(32)`; `from_slice` panics on another length.
  unfoldable pub decode_digest : List ℕ → Result Error MptNode
  decode_digest rlp = do
    bytes ← or_legacy (as_val rlp)
    assert (length bytes == 32) >> ok (from_data (MptNodeData.digest bytes))

  unfoldable pub decode_as :
      (List ℕ → Result Error MptNode) → List ℕ → Prototype → Result Error MptNode
  unfolding decode_pair decode_branch decode_digest
  decode_as rec rlp Prototype.null = ok default
  decode_as rec rlp (Prototype.of_data n) =
      if n == 0 then ok default else if n == 32 then decode_digest rlp else err legacy_rlp
  decode_as rec rlp (Prototype.of_list n) =
      if n == 2
      then decode_pair rec rlp
      else if n == 17
      then decode_branch rec rlp
      else err legacy_rlp

  -- `Decodable::decode`. An item is shorter than the list that it is in, so that the length of the
  -- input is fuel enough.
  unfoldable pub decode_fuel : ℕ → List ℕ → Result Error MptNode
  unfolding decode_as
  decode_fuel zero rlp = panic
  decode_fuel (suc f) rlp = do
    p ← or_legacy (prototype rlp)
    decode_as (λ item. decode_fuel f item) rlp p

  -- `MptNode::decode`
  unfoldable pub decode : List ℕ → Result Error MptNode
  unfolding decode_fuel
  decode bytes = decode_fuel (suc (length bytes)) bytes

  unfoldable pub parse_proof : List (List ℕ) → Result Error (List MptNode)
  unfolding decode
  parse_proof [] = ok []
  parse_proof (bytes ∷ proof) = do n ← decode bytes; nodes ← parse_proof proof; ok (n ∷ nodes)
