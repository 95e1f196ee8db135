-- ===== src/Mpt/Uniform.antt =====
-- Tries whose keys all have one length, as the tries of Ethereum have (their keys are hashes), and
-- the digests that hide parts of a trie.
use pico_subblock.Prelude.{
  ℕ, zero, suc, ◌+◌, ◌<◌, ◌≡◌, refl, ap, false, Option, none, some, List, [], ◌∷◌, ◌++◌,
  if◌then◌else◌, ltb, length, arith, zero-ltb-suc, take-length_append, All,
}
use pico_subblock.Result.{ok}
use pico_subblock.Path.{IsNibble, strip_prefix, to_encoded_path}
use pico_subblock.Path.Split.{index-append}
use pico_subblock.Mpt.{
  B256, MptNode, MptNodeData, Children, node, null, branch, leaf, extension, digest, nil, vacant,
  child, set_child, no_children, from_data,
}
use pico_subblock.Mpt.Valid.{path_of, path_of-to_encoded_path, width}
use pico_subblock.Mpt.Insert.{fork_branch}

-- Every key below the node has `l` more nibbles.
abbrev mutual
  pub IsUniform : MptNode → ℕ → Type 0
  IsUniform (node null c) l = Unit
  IsUniform (node (branch cs) c) zero = ⊥
  IsUniform (node (branch cs) c) (suc l) = AreUniform cs l
  IsUniform (node (leaf prefix value) c) l = length (path_of prefix) ≡ l
  IsUniform (node (extension prefix n) c) l =
      (rest : ℕ) × (length (path_of prefix) + rest ≡ l) × IsUniform n rest
  IsUniform (node (digest d) c) l = Unit

  pub AreUniform : Children → ℕ → Type 0
  AreUniform nil l = Unit
  AreUniform (vacant cs) l = AreUniform cs l
  AreUniform (child n cs) l = IsUniform n l × AreUniform cs l

-- The digest in which the descent for a key ends, if it ends in one.
unfoldable mutual
  pub hidden : MptNode → List ℕ → Option B256
  hidden (node null c) key = none
  hidden (node (branch cs) c) [] = none
  hidden (node (branch cs) c) (i ∷ tail) = hidden_child cs i tail
  hidden (node (leaf prefix value) c) key = none
  hidden (node (extension prefix n) c) key = elim (strip_prefix key (path_of prefix)) [
    | some tail ↦ hidden n tail
    | none ↦ none
  ]
  hidden (node (digest d) c) key = some d

  pub hidden_child : Children → ℕ → List ℕ → Option B256
  hidden_child nil i tail = none
  hidden_child (vacant cs) zero tail = none
  hidden_child (child n cs) zero tail = hidden n tail
  hidden_child (vacant cs) (suc i) tail = hidden_child cs i tail
  hidden_child (child n cs) (suc i) tail = hidden_child cs i tail

-- What a write in range leaves.
abbrev pub written : Children → ℕ → MptNode → Children
written nil i n = nil
written (vacant cs) zero n = child n cs
written (child m cs) zero n = child n cs
written (vacant cs) (suc i) n = vacant (written cs i n)
written (child m cs) (suc i) n = child m (written cs i n)

set_child-written :
    (cs : Children) (i : ℕ) (n : MptNode) → i < width cs → set_child cs i n ≡ ok (written cs i n)
unfolding set_child width
set_child-written nil i n h = elim h [ ]
set_child-written (vacant cs) zero n h = refl
set_child-written (child m cs) zero n h = refl
set_child-written (vacant cs) (suc i) n h = rw (set_child-written cs i n (omega arith))
set_child-written (child m cs) (suc i) n h = rw (set_child-written cs i n (omega arith))

written-AreUniform :
    (cs : Children) (i : ℕ) (n : MptNode) (l : ℕ)
    → AreUniform cs l
    → IsUniform n l
    → AreUniform (written cs i n) l
written-AreUniform nil i n l u h = tt
written-AreUniform (vacant cs) zero n l u h = (h, u)
written-AreUniform (child m cs) zero n l u h = (h, u.1)
written-AreUniform (vacant cs) (suc i) n l u h = written-AreUniform cs i n l u h
written-AreUniform (child m cs) (suc i) n l u h = (u.0, written-AreUniform cs i n l u.1 h)

width-written : (cs : Children) (i : ℕ) (n : MptNode) → width (written cs i n) ≡ width cs
unfolding width
width-written nil i n = refl
width-written (vacant cs) zero n = refl
width-written (child m cs) zero n = refl
width-written (vacant cs) (suc i) n = ap suc (width-written cs i n)
width-written (child m cs) (suc i) n = ap suc (width-written cs i n)

empty_width : width no_children ≡ 16
unfolding width
empty_width = refl

-- The node of a fork keeps the length of the keys.
shape-IsUniform :
    (p : List ℕ) (cs : Children) (k : ℕ)
    → All IsNibble p
    → AreUniform cs k
    → IsUniform
        (node
          (if ltb 0 (length p)
            then extension (to_encoded_path p false) (from_data (branch cs))
            else branch cs)
          none)
        (length p + suc k)
shape-IsUniform [] cs k h u = let e : suc k ≡ 0 + suc k = omega arith in rw (← e) u
shape-IsUniform (a ∷ p) cs k h u =
    rw (zero-ltb-suc (length p))
      (suc k, ap (λ (m : ℕ). m + suc k) (ap length (path_of-to_encoded_path (a ∷ p) false h)), u)

-- The node that a fork builds.
abbrev pub forked : List ℕ → Children → MptNodeData
forked p cs =
    if ltb 0 (length p)
    then extension (to_encoded_path p false) (from_data (branch cs))
    else branch cs

abbrev pub two_children : ℕ → MptNode → ℕ → MptNode → Children
two_children x old y new = written (written no_children x old) y new

pub fork_branch_lem :
    (p r s : List ℕ) (x y : ℕ) (old new : MptNode)
    → IsNibble x
    → IsNibble y
    → fork_branch (p ++ x ∷ r) (p ++ y ∷ s) (length p) old new
      ≡ ok (forked p (two_children x old y new))
unfolding fork_branch
fork_branch_lem p r s x y old new hx hy = rw (
  index-append,
  set_child-written no_children x old (omega (arith, empty_width)),
  index-append,
  set_child-written (written no_children x old) y new
      (omega (arith, empty_width, width-written no_children x old)),
  take-length_append,
)

pub fork_branch-IsUniform :
    (p : List ℕ) (x y : ℕ) (old new : MptNode) (k : ℕ)
    → All IsNibble p
    → IsUniform old k
    → IsUniform new k
    → IsUniform (node (forked p (two_children x old y new)) none) (length p + suc k)
fork_branch-IsUniform p x y old new k h uo un = shape-IsUniform p (two_children x old y new) k h (
    written-AreUniform (written no_children x old) y new k
      (written-AreUniform no_children x old k tt uo) un)
