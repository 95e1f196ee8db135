-- ===== src/Mpt/Get/Entries.antt =====
-- crates/mpt/src/mpt.rs: what `get` reads, against the list of all that a trie holds.
use pico_subblock.Prelude.{
  ℕ, zero, suc, ◌+◌, ◌≡◌, ◌<◌, refl, ap, sym, ◌∙◌, Bool, true, false, Option, none, some, List, [],
  ◌∷◌, ◌++◌, ◌==◌, beq, if◌then◌else◌, All, Bool-cases, inl, inr, arith,
}
use pico_subblock.Result.{ok}
use pico_subblock.Path.{IsByte, to_nibs, strip_prefix}
use pico_subblock.Mpt.{
  MptNode, MptNodeData, Children, node, null, branch, leaf, extension, nil, vacant, child,
}
use pico_subblock.Mpt.Valid.{IsValid, path_of, find, find_child}
use pico_subblock.Mpt.Get.{get}
use pico_subblock.Mpt.Get.Find.{get-find}

-- A path with the value at its end.
abbrev pub Entries : Type 0
Entries = List (List ℕ × List ℕ)

abbrev pub under : List ℕ → Entries → Entries
under p [] = []
under p ((k, v) ∷ l) = (p ++ k, v) ∷ under p l

-- All values of a trie with their paths, from left to right; what is behind a digest is not there.
abbrev mutual
  pub entries : MptNode → Entries
  entries (node null c) = []
  entries (node (branch cs) c) = entries_from 0 cs
  entries (node (leaf prefix value) c) = (path_of prefix, value) ∷ []
  entries (node (extension prefix n) c) = under (path_of prefix) (entries n)
  entries (node (MptNodeData.digest d) c) = []

  pub entries_from : ℕ → Children → Entries
  entries_from i nil = []
  entries_from i (vacant cs) = entries_from (suc i) cs
  entries_from i (child n cs) = under (i ∷ []) (entries n) ++ entries_from (suc i) cs

-- The value that a list has for a path.
abbrev pub value_at : Entries → List ℕ → Option (List ℕ)
value_at [] key = none
value_at ((k, v) ∷ l) key = let rest = value_at l key in if beq k key then some v else rest

beq-append :
    (p k key : List ℕ)
    → beq (p ++ k) key ≡ elim (strip_prefix key p) [ some t ↦ beq k t | none ↦ false ]
unfolding strip_prefix beq
beq-append [] k key = refl
beq-append (x ∷ p) k [] = refl
beq-append (x ∷ p) k (y ∷ key) = elim (Bool-cases (x == y)) [
  | inl same ↦ rw (same, swapped x y true same) (beq-append p k key)
  | inr other ↦ rw (other, swapped x y false other) refl
]
  where
    swapped : (x y : ℕ) (b : Bool) → (x == y) ≡ b → (y == x) ≡ b
    swapped x y b h = ground arith

-- What is below a path is found behind it.
value_at-under :
    (p : List ℕ) (l : Entries) (key : List ℕ)
    → value_at (under p l) key ≡ elim (strip_prefix key p) [ some t ↦ value_at l t | none ↦ none ]
value_at-under p [] key = nowhere (strip_prefix key p)
  where
    nowhere : (o : Option (List ℕ)) → none ≡ elim o [ some t ↦ value_at [] t | none ↦ none ]
    nowhere none = refl
    nowhere (some t) = refl
value_at-under p ((k, v) ∷ l) key =
    rw (beq-append p k key) (rw (value_at-under p l key) (choose (strip_prefix key p)))
  where
    choose :
        (o : Option (List ℕ))
        → (if elim o [ some t ↦ beq k t | none ↦ false ]
            then some v
            else elim o [ some t ↦ value_at l t | none ↦ none ])
          ≡ elim o [ some t ↦ value_at ((k, v) ∷ l) t | none ↦ none ]
    choose none = refl
    choose (some t) = refl

abbrev or_else : Option (List ℕ) → Option (List ℕ) → Option (List ℕ)
or_else none b = b
or_else (some v) b = some v

value_at-append :
    (l m : Entries) (key : List ℕ)
    → value_at (l ++ m) key ≡ or_else (value_at l key) (value_at m key)
value_at-append [] m key = refl
value_at-append ((k, v) ∷ l) m key = elim (Bool-cases (beq k key)) [
  | inl same ↦ rw same refl
  | inr other ↦ rw other (value_at-append l m key)
]

or_nothing : (o : Option (List ℕ)) → or_else o none ≡ o
or_nothing none = refl
or_nothing (some v) = refl

-- What is in the places from `i` on is not found at an earlier place, nor at the end of the branch.
nothing_before :
    (i j : ℕ) (cs : Children) (t : List ℕ) → j < i → value_at (entries_from i cs) (j ∷ t) ≡ none
unfolding strip_prefix
nothing_before i j nil t h = refl
nothing_before i j (vacant cs) t h = nothing_before (suc i) j cs t (omega (arith, h))
nothing_before i j (child n cs) t h =
    let differ : (j == i) ≡ false = ground arith in
    value_at-append (under (i ∷ []) (entries n)) (entries_from (suc i) cs) (j ∷ t)
    ∙ rw (value_at-under (i ∷ []) (entries n) (j ∷ t), differ)
        (nothing_before (suc i) j cs t (omega (arith, h)))

nothing_at_end : (i : ℕ) (cs : Children) → value_at (entries_from i cs) [] ≡ none
unfolding strip_prefix
nothing_at_end i nil = refl
nothing_at_end i (vacant cs) = nothing_at_end (suc i) cs
nothing_at_end i (child n cs) =
    value_at-append (under (i ∷ []) (entries n)) (entries_from (suc i) cs) []
    ∙ rw (value_at-under (i ∷ []) (entries n) []) (nothing_at_end (suc i) cs)

below :
    (o : Option (List ℕ)) (n : MptNode)
    → ((t : List ℕ) → find n t ≡ value_at (entries n) t)
    → elim o [ some t ↦ find n t | none ↦ none ]
      ≡ elim o [ some t ↦ value_at (entries n) t | none ↦ none ]
below none n h = refl
below (some t) n h = h t

mutual
  unfolding find strip_prefix

  find-entries : (n : MptNode) (key : List ℕ) → find n key ≡ value_at (entries n) key
  find-entries (node null c) key = refl
  find-entries (node (branch cs) c) [] = sym (nothing_at_end 0 cs)
  find-entries (node (branch cs) c) (i ∷ tail) =
      find_child-entries cs 0 i tail
      ∙ ap (λ j. value_at (entries_from 0 cs) (j ∷ tail)) (omega arith)
  find-entries (node (leaf prefix value) c) key = refl
  find-entries (node (extension prefix n) c) key =
      below (strip_prefix key (path_of prefix)) n (λ t. find-entries n t)
      ∙ sym (value_at-under (path_of prefix) (entries n) key)
  find-entries (node (MptNodeData.digest d) c) key = refl

  find_child-entries :
      (cs : Children) (from i : ℕ) (tail : List ℕ)
      → find_child cs i tail ≡ value_at (entries_from from cs) ((from + i) ∷ tail)
  find_child-entries nil from i tail = refl
  find_child-entries (vacant cs) from zero tail =
      sym (nothing_before (suc from) (from + 0) cs tail (omega arith))
  find_child-entries (vacant cs) from (suc i) tail =
      find_child-entries cs (suc from) i tail
      ∙ ap (λ j. value_at (entries_from (suc from) cs) (j ∷ tail)) (omega arith)
  find_child-entries (child n cs) from zero tail =
      let same : (from + 0 == from) ≡ true = ground arith in
      find-entries n tail
      ∙ sym (
          value_at-append (under (from ∷ []) (entries n)) (entries_from (suc from) cs)
            ((from + 0) ∷ tail)
          ∙ rw (value_at-under (from ∷ []) (entries n) ((from + 0) ∷ tail), same)
              (rw (nothing_before (suc from) (from + 0) cs tail (omega arith))
                (or_nothing (value_at (entries n) tail))))
  find_child-entries (child n cs) from (suc i) tail =
      let differ : (from + suc i == from) ≡ false = ground arith in
      let next : suc from + i ≡ from + suc i = omega arith in
      find_child-entries cs (suc from) i tail
      ∙ ap (λ j. value_at (entries_from (suc from) cs) (j ∷ tail)) next
      ∙ sym (
          value_at-append (under (from ∷ []) (entries n)) (entries_from (suc from) cs)
            ((from + suc i) ∷ tail)
          ∙ rw (value_at-under (from ∷ []) (entries n) ((from + suc i) ∷ tail), differ) refl)

-- On a valid trie and a key of bytes `get` gives the value that the list of all values of the trie
-- has for the nibbles of the key, and nothing if there is none. It returns also where the path of
-- the key ends in a digest, with nothing.
pub get-entries :
    (n : MptNode) (key : List ℕ)
    → IsValid n
    → All IsByte key
    → get n key ≡ ok (value_at (entries n) (to_nibs key))
get-entries n key v k = get-find n key v k ∙ ap ok (find-entries n (to_nibs key))
