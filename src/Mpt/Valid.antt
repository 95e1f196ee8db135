-- ===== src/Mpt/Valid.antt =====
-- The shape of the tries that crates/mpt/src/mpt.rs builds, and the map from nibble paths to values
-- that a trie stands for.
use pico_subblock.Prelude.{
  ℕ, zero, suc, ◌≤◌, ◌≡◌, Bool, true, false, Option, none, some, List, [], ◌∷◌, beq, if◌then◌else◌,
  length, All, arith,
}
use pico_subblock.Prelude.Bits.{bit_and_low}
use pico_subblock.Result.{ok, err, panic}
use pico_subblock.Path.{IsNibble, to_encoded_path, prefix_nibs, strip_prefix}
use pico_subblock.Path.Codec.{IsPath, to_nibs-IsNibble, prefix_nibs-to_encoded_path}
use pico_subblock.Mpt.{
  Error, MptNode, Children, node, null, branch, leaf, extension, digest, nil, vacant, child,
  is_empty,
}

-- The nibbles of a stored path.
unfoldable pub path_of : List ℕ → List ℕ
path_of prefix = elim (prefix_nibs {E = Error} prefix) [ ok l ↦ l | err e ↦ [] | panic ↦ [] ]

pub prefix_nibs-path_of :
    (prefix : List ℕ) → IsPath prefix → prefix_nibs {E = Error} prefix ≡ ok (path_of prefix)
unfolding path_of prefix_nibs
prefix_nibs-path_of [] h = elim h [ ]
prefix_nibs-path_of (e ∷ tail) h = ground arith

pub path_of-IsNibble : (prefix : List ℕ) → IsPath prefix → All IsNibble (path_of prefix)
unfolding path_of prefix_nibs
path_of-IsNibble [] h = elim h [ ]
path_of-IsNibble (e ∷ tail) h =
    let tails = to_nibs-IsNibble tail h.1 in ground (arith, bit_and_low e h.0)

pub path_of-to_encoded_path :
    (l : List ℕ) (is_leaf : Bool) → All IsNibble l → path_of (to_encoded_path l is_leaf) ≡ l
unfolding path_of
path_of-to_encoded_path l is_leaf h =
    ground (arith, prefix_nibs-to_encoded_path {E = Error} l is_leaf h)

-- An extension points to a branch or to the digest of one.
unfoldable pub is_branching : MptNode → Bool
is_branching (node (branch cs) c) = true
is_branching (node (digest d) c) = true
is_branching (node _ c) = false

unfoldable pub width : Children → ℕ
width nil = 0
width (vacant cs) = suc (width cs)
width (child n cs) = suc (width cs)

unfoldable pub occupied : Children → ℕ
occupied nil = 0
occupied (vacant cs) = occupied cs
occupied (child n cs) = suc (occupied cs)

-- Paths are encoded nibbles, a branch has 16 places and at least two children, none of them empty,
-- and an extension has a path of its own and points to a branch or a digest.
abbrev mutual
  pub IsValid : MptNode → Type 0
  IsValid (node null c) = Unit
  IsValid (node (branch cs) c) = AreValid cs × (width cs ≡ 16) × (2 ≤ occupied cs)
  IsValid (node (leaf prefix value) c) = IsPath prefix
  IsValid (node (extension prefix n) c) =
      IsPath prefix × (1 ≤ length (path_of prefix)) × (is_branching n ≡ true) × IsValid n
  IsValid (node (digest d) c) = Unit

  pub AreValid : Children → Type 0
  AreValid nil = Unit
  AreValid (vacant cs) = AreValid cs
  AreValid (child n cs) = (is_empty n ≡ false) × IsValid n × AreValid cs

-- The value that the trie holds for a path of nibbles. A digest hides what is below it.
unfoldable mutual
  pub find : MptNode → List ℕ → Option (List ℕ)
  find (node null c) key = none
  find (node (branch cs) c) [] = none
  find (node (branch cs) c) (i ∷ tail) = find_child cs i tail
  find (node (leaf prefix value) c) key = if beq (path_of prefix) key then some value else none
  find (node (extension prefix n) c) key = elim (strip_prefix key (path_of prefix)) [
    | some tail ↦ find n tail
    | none ↦ none
  ]
  find (node (digest d) c) key = none

  pub find_child : Children → ℕ → List ℕ → Option (List ℕ)
  find_child nil i tail = none
  find_child (vacant cs) zero tail = none
  find_child (child n cs) zero tail = find n tail
  find_child (vacant cs) (suc i) tail = find_child cs i tail
  find_child (child n cs) (suc i) tail = find_child cs i tail
