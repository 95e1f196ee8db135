-- ===== src/Mpt/Insert/Lookup.antt =====
-- `insert_internal` as an update of the map that a trie stands for.
use pico_subblock.Prelude.{
  ℕ, zero, suc, ◌≤◌, ◌<◌, ◌≡◌, refl, ap, Bool, true, false, ◌&&◌, Option, none, some, List, [], ◌∷◌,
  ◌++◌, ◌==◌, if◌then◌else◌, arith, length, drop, All, drop-length_append, beq, All-append_right,
  ◌∙◌, longer, ==_refl, suc-eq-suc, suc-ne-zero, zero-ne-suc,
}
use pico_subblock.Result.{Result, ok, err, panic, ◌>>=◌}
use pico_subblock.Path.{IsNibble, to_encoded_path, strip_prefix, lcp}
use pico_subblock.Path.Codec.{IsPath, to_encoded_path-IsPath}
use pico_subblock.Path.Split.{Meet, within, beyond, fork, meet, beq-append}
use pico_subblock.Mpt.{
  Error, value_in_branch, MptNode, MptNodeReference, Children, node, null, branch, leaf, extension,
  digest, nil, vacant, child, from_data, is_empty,
}
use pico_subblock.Mpt.Valid.{
  IsValid, AreValid, find, find_child, path_of, path_of-IsNibble, prefix_nibs-path_of, is_branching,
  width, occupied,
}
use pico_subblock.Mpt.Insert.{insert_internal, insert_child, insert_leaf, split_extension}
use pico_subblock.Mpt.Insert.Leaf.{Insertion, find-leaf, insert_at_leaf-Insertion}
use pico_subblock.Mpt.Insert.Extension.{below, stored_extension, split_extension-Insertion}

-- What an insertion below place `i` leaves of the children.
pub record InsertedAt (cs : Children) (i : ℕ) (key value : List ℕ) (changed : Bool) (ds : Children)
    : Type 0 where
  pub valid : AreValid ds
  pub same_width : width ds ≡ width cs
  pub count : occupied cs ≤ occupied ds
  pub reads :
      (j : ℕ) (t : List ℕ)
      → find_child ds j t ≡ (if i == j && beq key t then some value else find_child cs j t)
  pub unchanged : changed ≡ false → ds ≡ cs

abbrev pub InsertionAt : Children → ℕ → List ℕ → List ℕ → Result Error (Bool × Children) → Type 0
InsertionAt cs i key value (ok r) = InsertedAt cs i key value r.0 r.1
InsertionAt cs i key value (err e) = Unit
InsertionAt cs i key value panic = ⊥

-- The same, one place further on.
past_vacant :
    (cs : Children) (i : ℕ) (key value : List ℕ) (m : Result Error (Bool × Children))
    → InsertionAt cs i key value m
    → InsertionAt (vacant cs) (suc i) key value (m >>= λ r. ok (r.0, vacant r.1))
unfolding find_child width occupied
past_vacant cs i key value (err e) h = tt
past_vacant cs i key value panic h = h
past_vacant cs i key value (ok r) h = record {
  valid = h.valid;
  same_width = ap suc h.same_width;
  count = h.count;
  reads = elim [ zero ↦ λ t. rw suc-ne-zero | suc j ↦ λ t. rw (suc-eq-suc i j) (h.reads j t) ];
  unchanged = λ e. ap vacant (h.unchanged e);
}

past_child :
    (n : MptNode) (cs : Children) (i : ℕ) (key value : List ℕ) (m : Result Error (Bool × Children))
    → is_empty n ≡ false
    → IsValid n
    → InsertionAt cs i key value m
    → InsertionAt (child n cs) (suc i) key value (m >>= λ r. ok (r.0, child n r.1))
unfolding find_child width occupied
past_child n cs i key value (err e) f v h = tt
past_child n cs i key value panic f v h = h
past_child n cs i key value (ok r) f v h = record {
  valid = (f, v, h.valid);
  same_width = ap suc h.same_width;
  count = omega (arith, h.count);
  reads = elim [ zero ↦ λ t. rw suc-ne-zero | suc j ↦ λ t. rw (suc-eq-suc i j) (h.reads j t) ];
  unchanged = λ e. ap (child n) (h.unchanged e);
}

at_child :
    (n : MptNode) (cs : Children) (key value : List ℕ) (m : Result Error (Bool × MptNode))
    → AreValid cs
    → Insertion n key value m
    → InsertionAt (child n cs) 0 key value (m >>= λ r. ok (r.0, child r.1 cs))
unfolding find_child width occupied
at_child n cs key value (err e) v h = tt
at_child n cs key value panic v h = h
at_child n cs key value (ok r) v h = record {
  valid = (h.filled, h.valid, v);
  same_width = refl;
  count = omega arith;
  reads = elim [ zero ↦ λ t. h.reads t | suc j ↦ λ t. rw zero-ne-suc ];
  unchanged = λ e. ap (λ k. child k cs) (h.unchanged e);
}

at_vacant :
    (cs : Children) (key value : List ℕ)
    → AreValid cs
    → All IsNibble key
    → InsertedAt
        (vacant cs)
        0
        key
        value
        true
        (child (from_data (leaf (to_encoded_path key true) value)) cs)
unfolding find_child width occupied is_empty
at_vacant cs key value v h = record {
  valid = (refl, to_encoded_path-IsPath key true h, v);
  same_width = refl;
  count = omega arith;
  reads = elim [ zero ↦ λ t. find-leaf key value t h | suc j ↦ λ t. rw zero-ne-suc ];
  unchanged = λ e. cc;
}

-- A branch around its children.
in_branch :
    (cs : Children) (c : Option MptNodeReference) (i : ℕ) (key value : List ℕ)
    (m : Result Error (Bool × Children))
    → width cs ≡ 16
    → 2 ≤ occupied cs
    → InsertionAt cs i key value m
    → Insertion
        (node (branch cs) c)
        (i ∷ key)
        value
        (m >>= λ r. ok (r.0, node (branch r.1) (if r.0 then none else c)))
unfolding find is_empty is_branching beq
in_branch cs c i key value (err e) w two h = tt
in_branch cs c i key value panic w two h = h
in_branch cs c i key value (ok r) w two h = record {
  valid = (h.valid, h.same_width ∙ w, omega (arith, h.count));
  filled = refl;
  branching = λ b. refl;
  reads = elim [ [] ↦ refl | j ∷ t ↦ h.reads j t ];
  unchanged = λ e. rw e (ap (λ ds. node (branch ds) c) (h.unchanged e));
}

-- An extension around the node below it.
in_extension :
    (prefix : List ℕ) (n : MptNode) (c : Option MptNodeReference) (key value : List ℕ)
    (m : Result Error (Bool × MptNode))
    → IsPath prefix
    → 1 ≤ length (path_of prefix)
    → is_branching n ≡ true
    → Insertion n key value m
    → Insertion
        (node (extension prefix n) c)
        (path_of prefix ++ key)
        value
        (m >>= λ r. ok (r.0, node (extension prefix r.1) (if r.0 then none else c)))
unfolding is_empty is_branching
in_extension prefix n c key value (err e) p l b h = tt
in_extension prefix n c key value panic p l b h = h
in_extension prefix n c key value (ok r) p l b h = record {
  valid = (p, l, h.branching b, h.valid);
  filled = refl;
  branching = λ e. cc;
  reads = λ j.
      rw
        (
          beq-append (path_of prefix) key j,
          stored_extension (path_of prefix) prefix r.1 (if r.0 then none else c) j refl,
          stored_extension (path_of prefix) prefix n c j refl,
        )
        (under j (strip_prefix j (path_of prefix)));
  unchanged = λ e. rw e (ap (λ k. node (extension prefix k) c) (h.unchanged e));
}
  where
    under :
        (j : List ℕ) (o : Option (List ℕ))
        → below r.1 o
          ≡ (if elim o [ none ↦ false | some t ↦ beq key t ] then some value else below n o)
    under j none = refl
    under j (some t) = h.reads t

-- `insert_internal` at an extension, given the insertion in the node below.
at_extension :
    (prefix : List ℕ) (n : MptNode) (c : Option MptNodeReference) (key value : List ℕ)
    → IsPath prefix
    → 1 ≤ length (path_of prefix)
    → is_branching n ≡ true
    → IsValid n
    → All IsNibble key
    → ((t : List ℕ) → All IsNibble t → Insertion n t value (insert_internal n t value))
    → Insertion
        (node (extension prefix n) c)
        key
        value
        (insert_internal (node (extension prefix n) c) key value)
unfolding insert_internal
at_extension prefix n c key value p l b v h below_n =
    rw (prefix_nibs-path_of prefix p)
      (cases (path_of prefix) key refl h (meet (path_of prefix) key))
  where
    cases :
        (self k : List ℕ)
        → path_of prefix ≡ self
        → All IsNibble k
        → Meet self k
        → Insertion (node (extension prefix n) c) k value (
            if lcp self k == length self
            then (insert_internal n (drop (lcp self k) k) value >>= λ r.
                ok (r.0, node (extension prefix r.1) (if r.0 then none else c)))
            else if lcp self k == length k
            then err value_in_branch
            else split_extension self n k (lcp self k) value)
    cases self k e hk (within r m q) =
        rw (q, ==_refl (length self), m, drop-length_append self r, ← e)
          (in_extension prefix n c r value (insert_internal n r value) p l b
            (below_n r (All-append_right IsNibble self r (rw m at hk))))
    cases self k e hk (beyond x r m q) = rw (q, m, longer k x r, ==_refl (length k)) tt
    cases self k e hk (fork q x r y s m o d w) =
        rw (w, m, o, longer q x r, longer q y s)
          (split_extension-Insertion prefix n c q r s x y value b v (e ∙ m)
            (rw (e ∙ m) at (path_of-IsNibble prefix p)) (rw o at hk) d)

mutual
  unfolding insert_internal insert_leaf find is_empty is_branching beq width

  insert_internal-Insertion :
      (n : MptNode) (key value : List ℕ)
      → IsValid n
      → All IsNibble key
      → Insertion n key value (insert_internal n key value)
  insert_internal-Insertion (node null c) key value v k = record {
    valid = to_encoded_path-IsPath key true k;
    filled = refl;
    branching = λ h. cc;
    reads = λ j. find-leaf key value j k;
    unchanged = λ h. cc;
  }
  insert_internal-Insertion (node (branch cs) c) [] value v k = tt
  insert_internal-Insertion (node (branch cs) c) (i ∷ tail) value v k =
      in_branch cs c i tail value (insert_child cs i tail value) v.1 v.2
        (insert_child-InsertionAt cs i tail value v.0 (omega arith) k.1)
  insert_internal-Insertion (node (leaf prefix old_value) c) key value v k =
      rw (prefix_nibs-path_of prefix v) (
        insert_at_leaf-Insertion prefix old_value c v (path_of prefix) key value refl
          (path_of-IsNibble prefix v) k)
  insert_internal-Insertion (node (extension prefix n) c) key value v k =
      at_extension prefix n c key value v.0 v.1 v.2 v.3 k
        (λ t h. insert_internal-Insertion n t value v.3 h)
  insert_internal-Insertion (node (digest d) c) key value v k = tt

  insert_child-InsertionAt :
      (cs : Children) (i : ℕ) (key value : List ℕ)
      → AreValid cs
      → i < width cs
      → All IsNibble key
      → InsertionAt cs i key value (insert_child cs i key value)
  insert_child-InsertionAt nil i key value v b k = elim b [ ]
  insert_child-InsertionAt (vacant cs) zero key value v b k = at_vacant cs key value v k
  insert_child-InsertionAt (child n cs) zero key value v b k =
      at_child n cs key value (insert_internal n key value) v.2
        (insert_internal-Insertion n key value v.1 k)
  insert_child-InsertionAt (vacant cs) (suc i) key value v b k =
      past_vacant cs i key value (insert_child cs i key value)
        (insert_child-InsertionAt cs i key value v (omega arith) k)
  insert_child-InsertionAt (child n cs) (suc i) key value v b k =
      past_child n cs i key value (insert_child cs i key value) v.0 v.1
        (insert_child-InsertionAt cs i key value v.2 (omega arith) k)

-- Every outcome of `insert_internal` on a valid trie.
pub insert_internal_outcome :
    (n : MptNode) (key value : List ℕ)
    → IsValid n
    → All IsNibble key
    → Insertion n key value (insert_internal n key value)
insert_internal_outcome = insert_internal-Insertion

pub insert_child_outcome :
    (cs : Children) (i : ℕ) (key value : List ℕ)
    → AreValid cs
    → i < width cs
    → All IsNibble key
    → InsertionAt cs i key value (insert_child cs i key value)
insert_child_outcome = insert_child-InsertionAt
