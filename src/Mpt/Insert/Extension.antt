-- ===== src/Mpt/Insert/Extension.antt =====
-- `insert_internal` where the key parts from an extension inside the extension's path.
use native.Mathlib.Numerals.{add-one}
use pico_subblock.Prelude.{
  ℕ, suc, ◌≡◌, refl, ap, sym, true, false, Option, none, some, List, [], ◌∷◌, ◌++◌, ◌==◌, ltb,
  if◌then◌else◌, arith, length, All, drop-suc-length_append, beq, All-append_left, All-append_right,
  length-append, ◌∙◌,
}
use pico_subblock.Path.{IsNibble, to_encoded_path, strip_prefix}
use pico_subblock.Path.Codec.{to_encoded_path-IsPath}
use pico_subblock.Path.Split.{beq-append, strip_prefix-append_right, strip_prefix-nil}
use pico_subblock.Mpt.{
  MptNode, MptNodeReference, node, null, leaf, extension, branch, digest, from_data, is_empty,
}
use pico_subblock.Mpt.Valid.{IsValid, find, path_of, path_of-to_encoded_path, is_branching}
use pico_subblock.Mpt.Insert.{split_extension}
use pico_subblock.Mpt.Insert.Fork.{fork_read, fork_branch-Forked}
use pico_subblock.Mpt.Insert.Leaf.{Insertion, find-leaf}

-- What lies below a path, as a map.
abbrev pub below : MptNode → Option (List ℕ) → Option (List ℕ)
below n o = elim o [ some t ↦ find n t | none ↦ none ]

pub filled_of_branching : (n : MptNode) → is_branching n ≡ true → is_empty n ≡ false
unfolding is_branching is_empty
filled_of_branching (node (branch cs) c) h = refl
filled_of_branching (node (digest d) c) h = refl
filled_of_branching (node (leaf p v) c) h = refl
filled_of_branching (node (extension p n) c) h = refl
filled_of_branching (node null c) h = cc

-- What is kept of the extension below the fork.
abbrev pub rest_of : List ℕ → MptNode → MptNode
rest_of [] existing = existing
rest_of (z ∷ r) existing = from_data (extension (to_encoded_path (z ∷ r) false) existing)

rest_of-find :
    (r : List ℕ) (existing : MptNode) (t : List ℕ)
    → All IsNibble r
    → find (rest_of r existing) t ≡ below existing (strip_prefix t r)
unfolding find
rest_of-find [] existing t h = rw strip_prefix-nil
rest_of-find (z ∷ r) existing t h = rw (path_of-to_encoded_path (z ∷ r) false h, find)

rest_of-IsValid :
    (r : List ℕ) (existing : MptNode)
    → All IsNibble r
    → is_branching existing ≡ true
    → IsValid existing
    → IsValid (rest_of r existing)
rest_of-IsValid [] existing h b v = v
rest_of-IsValid (z ∷ r) existing h b v = (
  to_encoded_path-IsPath (z ∷ r) false h,
  rw (path_of-to_encoded_path (z ∷ r) false h) (omega arith),
  b,
  v,
)

rest_of-filled :
    (r : List ℕ) (existing : MptNode)
    → is_branching existing ≡ true
    → is_empty (rest_of r existing) ≡ false
unfolding is_empty
rest_of-filled [] existing b = filled_of_branching existing b
rest_of-filled (z ∷ r) existing b = refl

-- The test of the code for what is left.
pub rest_of-lem :
    (p : List ℕ) (x : ℕ) (r : List ℕ) (existing : MptNode)
    → (if ltb (suc (length p)) (length (p ++ x ∷ r))
        then from_data (extension (to_encoded_path r false) existing)
        else existing)
      ≡ rest_of r existing
rest_of-lem p x [] existing = ground (arith, length-append p (x ∷ []))
rest_of-lem p x (z ∷ r) existing = ground (arith, length-append p (x ∷ z ∷ r))

module _ (existing : MptNode) (p r s : List ℕ) (x y : ℕ) (value : List ℕ)
    (r_nibbles : All IsNibble r) (s_nibbles : All IsNibble s) (parts : (x == y) ≡ false) where
  abbrev new_leaf : MptNode
  new_leaf = from_data (leaf (to_encoded_path s true) value)

  branch_reads :
      (t : List ℕ)
      → fork_read x (rest_of r existing) y new_leaf t
        ≡ (if beq (y ∷ s) t then some value else below existing (strip_prefix t (x ∷ r)))
  unfolding beq strip_prefix
  branch_reads [] = refl
  branch_reads (z ∷ t) =
      rw (find-leaf s value t s_nibbles, rest_of-find r existing t r_nibbles) (ground arith)

  fork_reads :
      (j : List ℕ)
      → (elim (strip_prefix j p) [
        | none ↦ none
        | some t ↦ fork_read x (rest_of r existing) y new_leaf t
      ])
        ≡ (if beq (p ++ y ∷ s) j then some value else below existing (strip_prefix j (p ++ x ∷ r)))
  fork_reads j =
      rw (beq-append p (y ∷ s) j, strip_prefix-append_right j p (x ∷ r)) (cases (strip_prefix j p))
    where
      cases :
          (o : Option (List ℕ))
          → ◌≡◌ {A = Option (List ℕ)}
              (elim o [ none ↦ none | some t ↦ fork_read x (rest_of r existing) y new_leaf t ])
              (if elim o [ none ↦ false | some t ↦ beq (y ∷ s) t ]
                then some value
                else below existing (elim o [ none ↦ none | some t ↦ strip_prefix t (x ∷ r) ]))
      cases none = refl
      cases (some t) = branch_reads t

pub stored_extension :
    (self prefix : List ℕ) (n : MptNode) (c : Option MptNodeReference) (j : List ℕ)
    → path_of prefix ≡ self
    → find (node (extension prefix n) c) j ≡ below n (strip_prefix j self)
unfolding find
stored_extension self prefix n c j e = rw (e, find)

pub split_extension-Insertion :
    (prefix : List ℕ) (existing : MptNode) (c : Option MptNodeReference) (p r s : List ℕ) (x y : ℕ)
    (value : List ℕ)
    → is_branching existing ≡ true
    → IsValid existing
    → path_of prefix ≡ p ++ x ∷ r
    → All IsNibble (p ++ x ∷ r)
    → All IsNibble (p ++ y ∷ s)
    → (x == y) ≡ false
    → Insertion
        (node (extension prefix existing) c)
        (p ++ y ∷ s)
        value
        (split_extension (p ++ x ∷ r) existing (p ++ y ∷ s) (length p) value)
unfolding split_extension is_branching is_empty
split_extension-Insertion prefix existing c p r s x y value b v self hs hk parts =
    let xr = All-append_right IsNibble p (x ∷ r) hs in
    let ys = All-append_right IsNibble p (y ∷ s) hk in
    let (d, runs, f) =
      fork_branch-Forked x (rest_of r existing) y (from_data (leaf (to_encoded_path s true) value))
        xr.0 ys.0 parts (rest_of-IsValid r existing xr.1 b v) (rest_of-filled r existing b)
        (to_encoded_path-IsPath s true ys.1) refl p r s (All-append_left IsNibble p (x ∷ r) hs) in
    rw
      (
        add-one,
        drop-suc-length_append p x r,
        drop-suc-length_append p y s,
        rest_of-lem p x r existing,
        runs,
      )
      (record {
        valid = f.valid;
        filled = f.filled;
        branching = λ h. cc;
        reads = λ j.
            f.reads j
            ∙ fork_reads existing p r s x y value xr.1 ys.1 parts j
            ∙ ap (λ (o : Option (List ℕ)). if beq (p ++ y ∷ s) j then some value else o)
                (sym (stored_extension (p ++ x ∷ r) prefix existing c j self));
        unchanged = λ h. cc;
      })
