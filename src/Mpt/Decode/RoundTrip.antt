-- ===== src/Mpt/Decode/RoundTrip.antt =====
-- crates/mpt/src/mpt.rs: `decode` reads what `encode` writes.
use pico_subblock.Prelude.{
  ℕ, zero, suc, ◌<◌, ◌≡◌, refl, ap, ◌∙◌, subst, Option, some, List, [], ◌∷◌, ◌++◌, true, false,
  length, length-append, arith, take, get_elem?,
}
use pico_subblock.Result.{Result, ok}
use pico_subblock.Path.{marks_extension}
use pico_subblock.Mpt.{
  B256, Error, MptNode, MptNodeData, MptNodeReference, Children, node, null, branch, leaf,
  extension, nil, vacant, child, is_empty, from_data, default,
}
use pico_subblock.Mpt.Valid.{width}
use pico_subblock.Mpt.Hash.{External, encode, reference, outline}
use pico_subblock.Mpt.Hash.Cache.{CoherentData}
use pico_subblock.Mpt.Hash.Length.{
  IsDocumented, IsSized, SizedData, AreSized, SizedReference, reference-Sized,
}
use pico_subblock.Mpt.Decode.{
  Prototype, Rlp, is_absent, at, val_at, decode_pair, decode_child, decode_children, decode_branch,
  decode_digest, decode_as, decode_fuel, decode,
}
use pico_subblock.Mpt.Decode.Items.{
  Item, Items, string, list, no_items, item, count, encode_item, encode_items, encodings, Parses,
  item_of, item_of_child, places, encode-item_of,
}

-- The paths of leaves and extensions say what they are, a branch has 16 places, and no child is
-- empty.
abbrev mutual
  pub IsMarked : MptNode → Type 0
  IsMarked (node d c) = MarkedData d

  pub MarkedData : MptNodeData → Type 0
  MarkedData null = Unit
  MarkedData (branch cs) = AreMarked cs × (width cs ≡ 16)
  MarkedData (leaf prefix value) = marks_extension {E = Error} prefix ≡ ok false
  MarkedData (extension prefix n) =
      (marks_extension {E = Error} prefix ≡ ok true) × (is_empty n ≡ false) × IsMarked n
  MarkedData (MptNodeData.digest d) = Unit

  pub AreMarked : Children → Type 0
  AreMarked nil = Unit
  AreMarked (vacant cs) = AreMarked cs
  AreMarked (child n cs) = (is_empty n ≡ false) × IsMarked n × AreMarked cs

module _ (ext : External) where
  -- What an encoding holds of a node: no caches, and for a child that it refers to by a digest only
  -- that digest.
  unfoldable mutual
    pub shallow : MptNodeData → MptNode
    shallow null = default
    shallow (branch cs) = from_data (branch (shallow_children cs))
    shallow (leaf prefix value) = from_data (leaf prefix value)
    shallow (extension prefix n) = from_data (extension prefix (shallow_child n))
    shallow (MptNodeData.digest d) = from_data (MptNodeData.digest d)

    pub shallow_child : MptNode → MptNode
    shallow_child (node d c) = elim (reference ext (node d c)) [
      | MptNodeReference.digest digest ↦ from_data (MptNodeData.digest digest)
      | MptNodeReference.bytes b ↦ shallow d
    ]

    pub shallow_children : Children → Children
    shallow_children nil = nil
    shallow_children (vacant cs) = vacant (shallow_children cs)
    shallow_children (child n cs) = child (shallow_child n) (shallow_children cs)

  not_empty :
      (d : MptNodeData) (c : Option MptNodeReference)
      → is_empty (node d c) ≡ false
      → is_empty (from_data d) ≡ false
  unfolding is_empty
  not_empty null c e = e
  not_empty (branch cs) c e = refl
  not_empty (leaf prefix value) c e = refl
  not_empty (extension prefix n) c e = refl
  not_empty (MptNodeData.digest d) c e = refl

  count-places : (cs : Children) → count (places ext cs) ≡ suc (width cs)
  unfolding count item_of width
  count-places nil = refl
  count-places (vacant cs) = ap suc (count-places cs)
  count-places (child n cs) = ap suc (count-places cs)

  -- The value of a branch is the item behind those of the children.
  last-places :
      (cs : Children)
      → get_elem? (encodings ext (places ext cs)) (width cs) ≡ some (ext.encode_string [])
  unfolding encodings item_of width encode_item
  last-places nil = refl
  last-places (vacant cs) = last-places cs
  last-places (child n cs) = last-places cs

  length-places :
      (cs : Children) → length (take (width cs) (encodings ext (places ext cs))) ≡ width cs
  unfolding encodings item_of width
  length-places nil = refl
  length-places (vacant cs) = ap suc (length-places cs)
  length-places (child n cs) = ap suc (length-places cs)

  module _ (docs : IsDocumented ext) (parser : Rlp) (laws : Parses ext parser) where
    -- The item of a child is one that is not absent.
    abbrev Present : Item → Type 0
    Present i =
        (p : Prototype) × (parser.prototype (encode_item ext i) ≡ some p) × (is_absent p ≡ false)

    word-Present : (d : B256) → length d ≡ 32 → Present (string d)
    unfolding is_absent encode_item
    word-Present d s = (Prototype.of_data (length d), laws.string_prototype d, rw s refl)

    item_of-Present :
        (d : MptNodeData) → SizedData d → is_empty (from_data d) ≡ false → Present (item_of ext d)
    unfolding item_of is_absent is_empty
    item_of-Present null s e = absurd (cc)
    item_of-Present (branch cs) s e = (_, laws.list_prototype _, refl)
    item_of-Present (leaf prefix value) s e = (_, laws.list_prototype _, refl)
    item_of-Present (extension prefix n) s e = (_, laws.list_prototype _, refl)
    item_of-Present (MptNodeData.digest d) s e = word-Present d s

    decode-word :
        (d : B256) (f : ℕ)
        → length d ≡ 32
        → decode_fuel parser (suc f) (encode_item ext (string d))
          ≡ ok (from_data (MptNodeData.digest d))
    unfolding decode_fuel decode_as decode_digest encode_item
    decode-word d f s = rw (laws.string_prototype d) (rw s (rw (laws.string_value d) (rw s refl)))

    leaf-case :
        (f : ℕ) (prefix value : List ℕ)
        → marks_extension {E = Error} prefix ≡ ok false
        → decode_fuel parser (suc f) (encode_item ext (item_of ext (leaf prefix value)))
          ≡ ok (from_data (leaf prefix value))
    unfolding decode_fuel decode_as decode_pair val_at at item_of encodings encode_item count
    leaf-case f prefix value m =
        let is = item (string prefix) (item (string value) no_items) in
        rw (laws.list_prototype is) (
          rw (laws.list_items is)
            (rw (laws.string_value prefix) (rw m (rw (laws.string_value value) refl))))

    extension-case :
        (f : ℕ) (prefix : List ℕ) (i : Item) (n : MptNode)
        → marks_extension {E = Error} prefix ≡ ok true
        → decode_fuel parser f (encode_item ext i) ≡ ok n
        → decode_fuel parser
            (suc f)
            (encode_item ext (list (item (string prefix) (item i no_items))))
          ≡ ok (from_data (extension prefix n))
    unfolding decode_fuel decode_as decode_pair val_at at encodings encode_item count
    extension-case f prefix i n m e =
        let is = item (string prefix) (item i no_items) in
        rw (laws.list_prototype is)
          (rw (laws.list_items is) (rw (laws.string_value prefix) (rw m (rw e refl))))

    branch-case :
        (f : ℕ) (cs ds : Children)
        → width cs ≡ 16
        → decode_children parser
            (λ i. decode_fuel parser f i)
            (take (width cs) (encodings ext (places ext cs)))
          ≡ ok ds
        → decode_fuel parser (suc f) (encode_item ext (list (places ext cs)))
          ≡ ok (from_data (branch ds))
    unfolding decode_fuel decode_as decode_branch val_at at
    branch-case f cs ds w e =
        let is = places ext cs in
        let e' = rw w at e in
        let n : count is ≡ 17 = count-places cs ∙ ap suc w in
        let last : get_elem? (encodings ext is) 16 ≡ some (ext.encode_string []) =
          subst (λ k. get_elem? (encodings ext is) k ≡ some (ext.encode_string [])) w
            (last-places cs) in
        let size : length (take 16 (encodings ext is)) ≡ 16 =
          subst (λ k. length (take k (encodings ext is)) ≡ k) w (length-places cs) in
        rw (laws.list_prototype is) (
          rw n (
            rw (laws.list_items is) (
              rw e'
                (rw last (rw (laws.string_value []) (rw (laws.list_items is) (rw size refl)))))))

    -- The header of a list leaves what is in it shorter.
    shorter : (is : Items) → length (encode_items ext is) < length (encode_item ext (list is))
    unfolding encode_item
    shorter is = omega (
      arith,
      length-append (ext.list_header (length (encode_items ext is))) (encode_items ext is),
      laws.header (length (encode_items ext is)),
    )

    pair-shorter :
        (i j : Item)
        → length (encode_item ext j) < length (encode_item ext (list (item i (item j no_items))))
    unfolding encode_item
    pair-shorter i j = omega (
      arith,
      shorter (item i (item j no_items)),
      length-append (encode_item ext i) (encode_item ext j ++ []),
      length-append (encode_item ext j) [],
    )

    empty-case : (f : ℕ) → decode_fuel parser (suc f) (encode_item ext (string [])) ≡ ok default
    unfolding decode_fuel decode_as encode_item
    empty-case f = rw (laws.string_prototype []) refl

    none_left : (rec : List ℕ → Result Error MptNode) → decode_children parser rec [] ≡ ok nil
    unfolding decode_children
    none_left rec = refl

    decode_lem :
        (bytes : List ℕ) → decode parser bytes ≡ decode_fuel parser (suc (length bytes)) bytes
    unfolding decode
    decode_lem bytes = refl

    vacant-step :
        (rec : List ℕ → Result Error MptNode) (rest : List (List ℕ)) (cs : Children)
        → decode_children parser rec rest ≡ ok cs
        → decode_children parser rec (encode_item ext (string []) ∷ rest) ≡ ok (vacant cs)
    unfolding decode_children decode_child is_absent encode_item
    vacant-step rec rest cs e = rw (laws.string_prototype []) (rw e refl)

    child-step :
        (rec : List ℕ → Result Error MptNode) (i : Item) (n : MptNode) (rest : List (List ℕ))
        (cs : Children)
        → Present i
        → rec (encode_item ext i) ≡ ok n
        → decode_children parser rec rest ≡ ok cs
        → decode_children parser rec (encode_item ext i ∷ rest) ≡ ok (child n cs)
    unfolding decode_children decode_child
    child-step rec i n rest cs p e e' = rw p.1 (rw p.2 (rw e (rw e' refl)))

    -- The item of a child, by the kind of its reference.
    child-Present : (n : MptNode) → IsSized n → is_empty n ≡ false → Present (item_of_child ext n)
    unfolding item_of
    child-Present (node d c) s e =
        cases (reference ext (node d c)) (reference-Sized ext docs (node d c) s)
      where
        cases :
            (r : MptNodeReference)
            → SizedReference r
            → Present (elim r [
              | MptNodeReference.digest digest ↦ string digest
              | MptNodeReference.bytes b ↦ item_of ext d
            ])
        cases (MptNodeReference.digest digest) k = word-Present digest k
        cases (MptNodeReference.bytes b) k = item_of-Present d s.1 (not_empty d c e)

    by_reference :
        (d : MptNodeData) (r : MptNodeReference) (f : ℕ)
        → SizedReference r
        → length (
            encode_item ext (elim r [
              | MptNodeReference.digest digest ↦ string digest
              | MptNodeReference.bytes b ↦ item_of ext d
            ]))
          < f
        → (length (encode_item ext (item_of ext d)) < f
            → decode_fuel parser f (encode_item ext (item_of ext d)) ≡ ok (shallow d))
        → decode_fuel parser f (
            encode_item ext (elim r [
              | MptNodeReference.digest digest ↦ string digest
              | MptNodeReference.bytes b ↦ item_of ext d
            ]))
          ≡ ok (elim r [
            | MptNodeReference.digest digest ↦ from_data (MptNodeData.digest digest)
            | MptNodeReference.bytes b ↦ shallow d
          ])
    by_reference d (MptNodeReference.bytes b) f k l h = h l
    by_reference d (MptNodeReference.digest digest) zero k l h = absurd (omega arith)
    by_reference d (MptNodeReference.digest digest) (suc f) k l h = decode-word digest f k

    mutual
      unfolding item_of shallow encode_item encodings width

      decode-item :
          (d : MptNodeData) (f : ℕ)
          → MarkedData d
          → SizedData d
          → length (encode_item ext (item_of ext d)) < f
          → decode_fuel parser f (encode_item ext (item_of ext d)) ≡ ok (shallow d)
      decode-item d zero m s b = absurd (omega arith)
      decode-item null (suc f) m s b = empty-case f
      decode-item (branch cs) (suc f) m s b =
          branch-case f cs (shallow_children cs) m.1
            (decode-places cs f m.0 s (let short = shorter (places ext cs) in omega arith))
      decode-item (leaf prefix value) (suc f) m s b = leaf-case f prefix value m
      decode-item (extension prefix n) (suc f) m s b =
          extension-case f prefix (item_of_child ext n) (shallow_child n) m.0 (
            decode-item_of_child n f m.1 m.2 s
              (let short = pair-shorter (string prefix) (item_of_child ext n) in omega arith))
      decode-item (MptNodeData.digest d) (suc f) m s b = decode-word d f s

      decode-item_of_child :
          (n : MptNode) (f : ℕ)
          → is_empty n ≡ false
          → IsMarked n
          → IsSized n
          → length (encode_item ext (item_of_child ext n)) < f
          → decode_fuel parser f (encode_item ext (item_of_child ext n)) ≡ ok (shallow_child n)
      decode-item_of_child (node d c) f e m s b =
          by_reference d (reference ext (node d c)) f (reference-Sized ext docs (node d c) s) b
            (λ l. decode-item d f m s.1 l)

      decode-places :
          (cs : Children) (f : ℕ)
          → AreMarked cs
          → AreSized cs
          → length (encode_items ext (places ext cs)) < f
          → decode_children parser
              (λ i. decode_fuel parser f i)
              (take (width cs) (encodings ext (places ext cs)))
            ≡ ok (shallow_children cs)
      decode-places nil f m s b = none_left (λ i. decode_fuel parser f i)
      decode-places (vacant cs) f m s b =
          vacant-step (λ i. decode_fuel parser f i)
            (take (width cs) (encodings ext (places ext cs))) (shallow_children cs)
            (decode-places cs f m s (
              let l = length-append (ext.encode_string []) (encode_items ext (places ext cs)) in
              omega arith))
      decode-places (child n cs) f m s b =
          let l =
            length-append (encode_item ext (item_of_child ext n))
              (encode_items ext (places ext cs)) in
          child-step (λ i. decode_fuel parser f i) (item_of_child ext n) (shallow_child n)
            (take (width cs) (encodings ext (places ext cs))) (shallow_children cs)
            (child-Present n s.0 m.0) (decode-item_of_child n f m.0 m.1 s.0 (omega arith))
            (decode-places cs f m.2 s.1 (omega arith))

    -- For a node of any kind whose caches agree with their data, with digests of 32 bytes, marked
    -- paths and 16 places in a branch, `decode` reads what `encode` writes, and gives the node with
    -- no caches and with a digest for each child that is referred to by one. The length of the
    -- input is fuel enough.
    pub decode-encode :
        (d : MptNodeData)
        → CoherentData ext d
        → SizedData d
        → MarkedData d
        → decode parser (encode ext (outline ext d)) ≡ ok (shallow d)
    decode-encode d h s m =
        rw (decode_lem (encode ext (outline ext d)), encode-item_of ext docs parser laws d h s)
          (decode-item d (suc (length (encode_item ext (item_of ext d)))) m s (omega arith))
