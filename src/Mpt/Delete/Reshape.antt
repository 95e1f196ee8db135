-- ===== src/Mpt/Delete/Reshape.antt =====
-- `delete_internal` of crates/mpt/src/mpt.rs: the reshaping of a branch with one child left, and of
-- an extension after a deletion below it.
use pico_subblock.Prelude.{
  ℕ, zero, suc, ◌+◌, ◌≤◌, ◌<◌, ◌≡◌, refl, ap, sym, true, false, Option, none, some, List, [], ◌∷◌,
  ◌++◌, ◌==◌, if◌then◌else◌, arith, length, All, beq, All-append, length-append, ◌∙◌,
}
use pico_subblock.Result.{ok}
use pico_subblock.Path.{IsNibble, to_encoded_path, strip_prefix}
use pico_subblock.Path.Codec.{IsPath, to_encoded_path-IsPath}
use pico_subblock.Path.Split.{beq-append, strip_prefix-append_right, strip_prefix-nil}
use pico_subblock.Mpt.{
  MptNode, MptNodeReference, MptNodeData, Children, node, null, branch, leaf, extension, digest,
  nil, vacant, child, is_empty, from_data,
}
use pico_subblock.Mpt.Valid.{
  IsValid, AreValid, find, find_child, path_of, path_of-IsNibble, path_of-to_encoded_path,
  prefix_nibs-path_of, is_branching, width, occupied,
}
use pico_subblock.Mpt.Slots.{find_child_of_occupied}
use pico_subblock.Mpt.Insert.Extension.{below, stored_extension}
use pico_subblock.Mpt.Insert.Leaf.{stored_leaf, find-leaf}
use pico_subblock.Mpt.Delete.{remaining, adopt, merge_extension}

pub length-remaining : (cs : Children) (k : ℕ) → length (remaining cs k) ≡ occupied cs
unfolding remaining occupied
length-remaining nil k = refl
length-remaining (vacant cs) k = length-remaining cs (k + 1)
length-remaining (child n cs) k = ap suc (length-remaining cs (k + 1))

-- `orphan` is the only child, at place `i`, where the places are numbered from `k`.
pub record Sole (cs : Children) (k i : ℕ) (orphan : MptNode) : Type 0 where
  pub low : k ≤ i
  pub high : i < k + width cs
  pub valid : IsValid orphan
  pub filled : is_empty orphan ≡ false
  pub reads :
      (j : ℕ) (t : List ℕ) → find_child cs j t ≡ (if i == k + j then find orphan t else none)

Sole-vacant :
    (cs : Children) (k i : ℕ) (orphan : MptNode)
    → Sole cs (k + 1) i orphan
    → Sole (vacant cs) k i orphan
unfolding find_child width
Sole-vacant cs k i orphan s = record {
  low = omega (arith, s.low);
  high = omega (arith, s.high);
  valid = s.valid;
  filled = s.filled;
  reads = elim [
    | zero ↦ λ t. rw (beyond k i s.low)
    | suc j ↦ λ t. s.reads j t ∙ ap (λ (m : ℕ). if i == m then find orphan t else none) (shift j)
  ];
}
  where
    beyond : (k i : ℕ) → k + 1 ≤ i → (i == k + 0) ≡ false
    beyond k i h = ground arith

    shift : (j : ℕ) → k + 1 + j ≡ k + suc j
    shift j = omega arith

Sole-child :
    (cs : Children) (k : ℕ) (orphan : MptNode)
    → is_empty orphan ≡ false
    → IsValid orphan
    → occupied cs ≡ 0
    → Sole (child orphan cs) k k orphan
unfolding find_child width
Sole-child cs k orphan f v e = record {
  low = omega arith;
  high = omega arith;
  valid = v;
  filled = f;
  reads = elim [
    | zero ↦ λ t. rw (here k)
    | suc j ↦ λ t. rw (past k j) (find_child_of_occupied cs j t e)
  ];
}
  where
    here : (k : ℕ) → (k == k + 0) ≡ true
    here k = ground arith

    past : (k j : ℕ) → (k == k + suc j) ≡ false
    past k j = ground arith

pub remaining-Sole :
    (cs : Children) (k i : ℕ) (orphan : MptNode)
    → AreValid cs
    → remaining cs k ≡ (i, orphan) ∷ []
    → Sole cs k i orphan
unfolding remaining
remaining-Sole nil k i orphan v e = cc
remaining-Sole (vacant cs) k i orphan v e =
    Sole-vacant cs k i orphan (remaining-Sole cs (k + 1) i orphan v e)
remaining-Sole (child n cs) k i orphan v e =
    let none_left : remaining cs (k + 1) ≡ [] = cc in
    let empty : occupied cs ≡ 0 = sym (length-remaining cs (k + 1)) ∙ ap length none_left in
    let place : k ≡ i = cc in
    let same : n ≡ orphan = cc in rw (← place, ← same) (Sole-child cs k n v.0 v.1 empty)

-- A map behind one nibble.
abbrev pub behind : ℕ → MptNode → List ℕ → Option (List ℕ)
behind i n [] = none
behind i n (z ∷ t) = if i == z then find n t else none

pub record Adopted (i : ℕ) (orphan : MptNode) (d : MptNodeData) : Type 0 where
  pub valid : IsValid (node d none)
  pub reads : (j : List ℕ) → find (node d none) j ≡ behind i orphan j

-- An extension with the path `l`.
new_extension :
    (l : List ℕ) (n : MptNode) (j : List ℕ)
    → All IsNibble l
    → find (from_data (extension (to_encoded_path l false) n)) j ≡ below n (strip_prefix j l)
new_extension l n j h =
    stored_extension l (to_encoded_path l false) n none j (path_of-to_encoded_path l false h)

-- One more nibble in front of an extension's path.
behind-extension :
    (i : ℕ) (l : List ℕ) (n m : MptNode) (j : List ℕ)
    → ((t : List ℕ) → find m t ≡ below n (strip_prefix t l))
    → below n (strip_prefix j (i ∷ l)) ≡ behind i m j
unfolding strip_prefix
behind-extension i l n m [] e = refl
behind-extension i l n m (z ∷ t) e = ground (arith, e t)

behind-leaf :
    (i : ℕ) (l value : List ℕ) (m : MptNode) (j : List ℕ)
    → ((t : List ℕ) → find m t ≡ (if beq l t then some value else none))
    → (if beq (i ∷ l) j then some value else none) ≡ behind i m j
unfolding beq
behind-leaf i l value m [] e = refl
behind-leaf i l value m (z ∷ t) e = ground (arith, e t)

adopt_leaf :
    (i : ℕ) (prefix value : List ℕ) (c : Option MptNodeReference)
    → IsNibble i
    → IsPath prefix
    → Adopted i
        (node (leaf prefix value) c)
        (leaf (to_encoded_path (i ∷ path_of prefix) true) value)
adopt_leaf i prefix value c h v =
    let nibbles : All IsNibble (i ∷ path_of prefix) = (h, path_of-IsNibble prefix v) in
    record {
      valid = to_encoded_path-IsPath (i ∷ path_of prefix) true nibbles;
      reads = λ j.
          find-leaf (i ∷ path_of prefix) value j nibbles
          ∙ behind-leaf i (path_of prefix) value (node (leaf prefix value) c) j
              (λ t. stored_leaf (path_of prefix) prefix value c t refl);
    }

adopt_extension :
    (i : ℕ) (prefix : List ℕ) (n : MptNode) (c : Option MptNodeReference)
    → IsNibble i
    → IsValid (node (extension prefix n) c)
    → Adopted i
        (node (extension prefix n) c)
        (extension (to_encoded_path (i ∷ path_of prefix) false) n)
adopt_extension i prefix n c h v =
    let nibbles : All IsNibble (i ∷ path_of prefix) = (h, path_of-IsNibble prefix v.0) in
    record {
      valid = (
        to_encoded_path-IsPath (i ∷ path_of prefix) false nibbles,
        rw (path_of-to_encoded_path (i ∷ path_of prefix) false nibbles) (omega arith),
        v.2,
        v.3,
      );
      reads = λ j.
          new_extension (i ∷ path_of prefix) n j nibbles
          ∙ behind-extension i (path_of prefix) n (node (extension prefix n) c) j
              (λ t. stored_extension (path_of prefix) prefix n c t refl);
    }

-- A branch or a digest below a new extension of one nibble.
adopt_whole :
    (i : ℕ) (n : MptNode)
    → IsNibble i
    → is_branching n ≡ true
    → IsValid n
    → Adopted i n (extension (to_encoded_path (i ∷ []) false) n)
adopt_whole i n h b v =
    let nibbles : All IsNibble (i ∷ []) = (h, tt) in
    record {
      valid = (
        to_encoded_path-IsPath (i ∷ []) false nibbles,
        rw (path_of-to_encoded_path (i ∷ []) false nibbles) (omega arith),
        b,
        v,
      );
      reads = λ j.
          new_extension (i ∷ []) n j nibbles
          ∙ behind-extension i [] n n j (λ t. rw strip_prefix-nil);
    }

pub adopt-Adopted :
    (i : ℕ) (orphan : MptNode)
    → IsNibble i
    → is_empty orphan ≡ false
    → IsValid orphan
    → (d : MptNodeData) × (adopt i orphan ≡ ok d) × Adopted i orphan d
unfolding adopt is_empty is_branching
adopt-Adopted i (node null c) h f v = absurd (cc)
adopt-Adopted i (node (leaf prefix value) c) h f v =
    (_, rw (prefix_nibs-path_of prefix v), adopt_leaf i prefix value c h v)
adopt-Adopted i (node (extension prefix n) c) h f v =
    (_, rw (prefix_nibs-path_of prefix v.0), adopt_extension i prefix n c h v)
adopt-Adopted i (node (branch cs) c) h f v = (_, refl, adopt_whole i (node (branch cs) c) h refl v)
adopt-Adopted i (node (digest d) c) h f v = (_, refl, adopt_whole i (node (digest d) c) h refl v)

-- What becomes of an extension over `m`, as a map and as a trie.
pub record Merged (self_nibs : List ℕ) (m : MptNode) (d : MptNodeData) : Type 0 where
  pub valid : IsValid (node d none)
  pub reads : (j : List ℕ) → find (node d none) j ≡ below m (strip_prefix j self_nibs)

merge_null : (self : List ℕ) (c : Option MptNodeReference) → Merged self (node null c) null
unfolding find
merge_null self c = record { valid = tt; reads = λ j. cases (strip_prefix j self) }
  where
    cases : (o : Option (List ℕ)) → none ≡ below (node null c) o
    cases none = refl
    cases (some t) = refl

merge_leaf :
    (self p value : List ℕ) (c : Option MptNodeReference)
    → All IsNibble self
    → IsPath p
    → Merged self (node (leaf p value) c) (leaf (to_encoded_path (self ++ path_of p) true) value)
merge_leaf self p value c h v =
    let nibbles = All-append IsNibble self (path_of p) h (path_of-IsNibble p v) in
    record {
      valid = to_encoded_path-IsPath (self ++ path_of p) true nibbles;
      reads = λ j.
          find-leaf (self ++ path_of p) value j nibbles
          ∙ rw (beq-append self (path_of p) j) (cases (strip_prefix j self));
    }
  where
    cases :
        (o : Option (List ℕ))
        → (if elim o [ none ↦ false | some t ↦ beq (path_of p) t ] then some value else none)
          ≡ below (node (leaf p value) c) o
    cases none = refl
    cases (some t) = sym (stored_leaf (path_of p) p value c t refl)

merge_nested :
    (self p : List ℕ) (n : MptNode) (c : Option MptNodeReference)
    → All IsNibble self
    → IsValid (node (extension p n) c)
    → Merged self (node (extension p n) c) (extension (to_encoded_path (self ++ path_of p) false) n)
merge_nested self p n c h v =
    let nibbles = All-append IsNibble self (path_of p) h (path_of-IsNibble p v.0) in
    record {
      valid = (
        to_encoded_path-IsPath (self ++ path_of p) false nibbles,
        rw
            (
              path_of-to_encoded_path (self ++ path_of p) false nibbles,
              length-append self (path_of p),
            )
            (omega (arith, v.1)),
        v.2,
        v.3,
      );
      reads = λ j.
          new_extension (self ++ path_of p) n j nibbles
          ∙ rw (strip_prefix-append_right j self (path_of p)) (cases (strip_prefix j self));
    }
  where
    cases :
        (o : Option (List ℕ))
        → below n (elim o [ none ↦ none | some t ↦ strip_prefix t (path_of p) ])
          ≡ below (node (extension p n) c) o
    cases none = refl
    cases (some t) = sym (stored_extension (path_of p) p n c t refl)

merge_whole :
    (prefix : List ℕ) (m : MptNode)
    → IsPath prefix
    → 1 ≤ length (path_of prefix)
    → is_branching m ≡ true
    → IsValid m
    → Merged (path_of prefix) m (extension prefix m)
merge_whole prefix m p l b v = record {
  valid = (p, l, b, v);
  reads = λ j. stored_extension (path_of prefix) prefix m none j refl;
}

pub merge_extension-Merged :
    (prefix : List ℕ) (m : MptNode)
    → IsPath prefix
    → 1 ≤ length (path_of prefix)
    → IsValid m
    → (d : MptNodeData) × (merge_extension prefix (path_of prefix) m ≡ ok d)
      × Merged (path_of prefix) m d
unfolding merge_extension is_branching
merge_extension-Merged prefix (node null c) p l v = (_, refl, merge_null (path_of prefix) c)
merge_extension-Merged prefix (node (leaf q value) c) p l v = (
  _,
  rw (prefix_nibs-path_of q v),
  merge_leaf (path_of prefix) q value c (path_of-IsNibble prefix p) v,
)
merge_extension-Merged prefix (node (extension q n) c) p l v = (
  _,
  rw (prefix_nibs-path_of q v.0),
  merge_nested (path_of prefix) q n c (path_of-IsNibble prefix p) v,
)
merge_extension-Merged prefix (node (branch cs) c) p l v =
    (_, refl, merge_whole prefix (node (branch cs) c) p l refl v)
merge_extension-Merged prefix (node (digest d) c) p l v =
    (_, refl, merge_whole prefix (node (digest d) c) p l refl v)
