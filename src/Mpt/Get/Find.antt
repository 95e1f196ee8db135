-- ===== src/Mpt/Get/Find.antt =====
-- `get` of crates/mpt/src/mpt.rs and the map of the trie.
use pico_subblock.Prelude.{
  ℕ, zero, suc, ◌<◌, ◌≡◌, refl, Option, none, some, List, [], ◌∷◌, All, arith,
}
use pico_subblock.Result.{Result, ok}
use pico_subblock.Path.{IsNibble, IsByte, to_nibs, strip_prefix}
use pico_subblock.Path.Codec.{to_nibs-IsNibble}
use pico_subblock.Path.Split.{strip_prefix-IsNibble}
use pico_subblock.Mpt.{
  Error, MptNode, Children, node, null, branch, leaf, extension, digest, nil, vacant, child,
}
use pico_subblock.Mpt.Valid.{
  IsValid, AreValid, path_of, prefix_nibs-path_of, find, find_child, width,
}
use pico_subblock.Mpt.Get.{get_internal, get_child, get}

-- The descent below an extension, given the descents in its child.
descend :
    (o : Option (List ℕ)) (n : MptNode)
    → ((t : List ℕ) → o ≡ some t → get_internal n t ≡ ok (find n t))
    → ◌≡◌ {A = Result Error (Option (List ℕ))}
        (elim o [ some t ↦ get_internal n t | none ↦ ok none ])
        (ok (elim o [ some t ↦ find n t | none ↦ none ]))
descend none n h = refl
descend (some t) n h = h t refl

mutual
  unfolding get_internal find width

  get_internal-find :
      (n : MptNode) (key : List ℕ)
      → IsValid n
      → All IsNibble key
      → get_internal n key ≡ ok (find n key)
  get_internal-find (node null c) key v k = refl
  get_internal-find (node (branch cs) c) [] v k = refl
  get_internal-find (node (branch cs) c) (i ∷ tail) v k =
      get_child-find cs i tail v.0 (omega arith) k.1
  get_internal-find (node (leaf prefix value) c) key v k = rw (prefix_nibs-path_of prefix v)
  get_internal-find (node (extension prefix n) c) key v k = rw (prefix_nibs-path_of prefix v.0) (
      descend (strip_prefix key (path_of prefix)) n
        (λ t e. get_internal-find n t v.3 (strip_prefix-IsNibble key (path_of prefix) t k e)))
  get_internal-find (node (digest d) c) key v k = refl

  get_child-find :
      (cs : Children) (i : ℕ) (tail : List ℕ)
      → AreValid cs
      → i < width cs
      → All IsNibble tail
      → get_child cs i tail ≡ ok (find_child cs i tail)
  get_child-find nil i tail v b k = elim b [ ]
  get_child-find (vacant cs) zero tail v b k = refl
  get_child-find (child n cs) zero tail v b k = get_internal-find n tail v.1 k
  get_child-find (vacant cs) (suc i) tail v b k = get_child-find cs i tail v (omega arith) k
  get_child-find (child n cs) (suc i) tail v b k = get_child-find cs i tail v.2 (omega arith) k

-- On a valid trie and a key of bytes `get` returns the value that the trie holds for the key's
-- nibbles; it never fails, also where the path ends in a digest.
pub get-find :
    (n : MptNode) (key : List ℕ)
    → IsValid n
    → All IsByte key
    → get n key ≡ ok (find n (to_nibs key))
unfolding get
get-find n key v k = get_internal-find n (to_nibs key) v (to_nibs-IsNibble key k)
