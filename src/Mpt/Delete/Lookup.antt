-- ===== src/Mpt/Delete/Lookup.antt =====
-- `delete_internal` as the removal of a key from the map that a trie stands for.
use pico_subblock.Prelude.{
  ℕ, zero, suc, ◌≤◌, ◌<◌, ◌≡◌, refl, ap, sym, Bool, true, false, Option, none, some, List, [], ◌∷◌,
  ◌++◌, ◌==◌, if◌then◌else◌, arith, length, All, beq, eq_of_beq, ◌∙◌, Bool-cases, inl, inr,
}
use pico_subblock.Result.{Result, ok, err, panic, ◌>>=◌}
use pico_subblock.Path.{IsNibble, strip_prefix}
use pico_subblock.Path.Codec.{IsPath}
use pico_subblock.Path.Split.{
  beq-append, append_of_strip_prefix, strip_prefix-append, strip_prefix-IsNibble,
}
use pico_subblock.Mpt.{
  Error, MptNode, MptNodeReference, MptNodeData, Children, node, null, branch, leaf, extension,
  digest, nil, vacant, child,
}
use pico_subblock.Mpt.Valid.{
  IsValid, AreValid, find, find_child, path_of, prefix_nibs-path_of, is_branching, width, occupied,
}
use pico_subblock.Mpt.Insert.Extension.{below, stored_extension}
use pico_subblock.Mpt.Insert.Leaf.{stored_leaf}
use pico_subblock.Mpt.Delete.{
  remaining, collapse, finish_branch, finish_extension, delete_internal, delete_child,
}
use pico_subblock.Mpt.Delete.Reshape.{
  length-remaining, Sole, remaining-Sole, adopt-Adopted, behind, merge_extension-Merged,
}
use pico_subblock.Mpt.Delete.Outcome.{
  is_some, Deleted, Deletion, DeletionAt, past_vacant, past_child, absent_Deleted, at_vacant,
  at_child,
}

-- The reshaped branch over the children `ds`.
record Collapsed (ds : Children) (d : MptNodeData) : Type 0 where
  valid : IsValid (node d none)
  reads : (j : List ℕ) → find (node d none) j ≡ elim j [ [] ↦ none | z ∷ t ↦ find_child ds z t ]

behind-Sole :
    (ds : Children) (i : ℕ) (orphan : MptNode)
    → Sole ds 0 i orphan
    → (j : List ℕ) → behind i orphan j ≡ elim j [ [] ↦ none | z ∷ t ↦ find_child ds z t ]
behind-Sole ds i orphan s [] = refl
behind-Sole ds i orphan s (z ∷ t) =
    sym (s.reads z t ∙ ap (λ (k : ℕ). if i == k then find orphan t else none) (omega arith))

collapse-Collapsed :
    (ds : Children) (l : List (ℕ × MptNode))
    → AreValid ds
    → width ds ≡ 16
    → 1 ≤ occupied ds
    → remaining ds 0 ≡ l
    → (d : MptNodeData) × (collapse ds l ≡ ok d) × Collapsed ds d
unfolding collapse find
collapse-Collapsed ds [] v w n e = absurd (omega (arith, length-remaining ds 0, ap length e))
collapse-Collapsed ds ((i, orphan) ∷ []) v w n e =
    let s = remaining-Sole ds 0 i orphan v e in
    let (d, runs, a) = adopt-Adopted i orphan (omega (arith, s.high)) s.filled s.valid in
    (d, runs, record { valid = a.valid; reads = λ j. a.reads j ∙ behind-Sole ds i orphan s j })
collapse-Collapsed ds ((i, first) ∷ second ∷ rest) v w n e = (
  branch ds,
  refl,
  record {
    valid = (v, w, omega (arith, length-remaining ds 0, ap length e));
    reads = elim [ [] ↦ refl | z ∷ t ↦ refl ];
  },
)

in_branch :
    (cs : Children) (c : Option MptNodeReference) (i : ℕ) (key : List ℕ)
    (m : Result Error (Bool × Children))
    → width cs ≡ 16
    → 2 ≤ occupied cs
    → DeletionAt cs i key m
    → Deletion (node (branch cs) c) (i ∷ key) (m >>= finish_branch c)
unfolding find finish_branch beq
in_branch cs c i key (err e) w two h = tt
in_branch cs c i key panic w two h = h
in_branch cs c i key (ok (false, ds)) w two h = record {
  valid = (h.valid, h.same_width ∙ w, rw (h.unchanged refl) two);
  reads = elim [ [] ↦ refl | j ∷ t ↦ h.reads j t ];
  present = h.present;
  unchanged = λ e. ap (λ ds. node (branch ds) c) (h.unchanged e);
}
in_branch cs c i key (ok (true, ds)) w two h =
    let (d, runs, k) =
      collapse-Collapsed ds (remaining ds 0) h.valid (h.same_width ∙ w) (omega (arith, h.count))
        refl in
    rw runs (record {
      valid = k.valid;
      reads = λ j. k.reads j ∙ cases j;
      present = h.present;
      unchanged = λ e. cc;
    })
  where
    cases :
        (j : List ℕ)
        → (elim j [ [] ↦ none | z ∷ t ↦ find_child ds z t ])
          ≡ (if beq (i ∷ key) j then none else find (node (branch cs) c) j)
    cases [] = refl
    cases (z ∷ t) = h.reads z t

module _ (prefix : List ℕ) (n : MptNode) (c : Option MptNodeReference) (stored : IsPath prefix)
    (long : 1 ≤ length (path_of prefix)) (branching : is_branching n ≡ true) where
  -- Removing a key below the extension.
  below_reads :
      (key : List ℕ) (changed : Bool) (m : MptNode)
      → Deleted n key changed m
      → (j : List ℕ)
      → below m (strip_prefix j (path_of prefix))
        ≡ (if beq (path_of prefix ++ key) j then none else find (node (extension prefix n) c) j)
  below_reads key changed m h j =
      rw (beq-append (path_of prefix) key j, stored_extension (path_of prefix) prefix n c j refl)
        (cases (strip_prefix j (path_of prefix)))
    where
      cases :
          (o : Option (List ℕ))
          → below m o ≡ (if elim o [ none ↦ false | some t ↦ beq key t ] then none else below n o)
      cases none = refl
      cases (some t) = h.reads t

  below_present :
      (key : List ℕ) → find (node (extension prefix n) c) (path_of prefix ++ key) ≡ find n key
  below_present key =
      stored_extension (path_of prefix) prefix n c (path_of prefix ++ key) refl
      ∙ ap (below n) (strip_prefix-append (path_of prefix) key)

  in_extension :
      (key : List ℕ) (m : Result Error (Bool × MptNode))
      → Deletion n key m
      → Deletion
          (node (extension prefix n) c)
          (path_of prefix ++ key)
          (m >>= finish_extension prefix (path_of prefix) c)
  unfolding finish_extension
  in_extension key (err e) h = tt
  in_extension key panic h = h
  in_extension key (ok (false, m)) h = record {
    valid = (stored, long, rw (h.unchanged refl) branching, h.valid);
    reads = λ j. stored_extension (path_of prefix) prefix m c j refl ∙ below_reads key false m h j;
    present = h.present ∙ ap is_some (sym (below_present key));
    unchanged = λ e. ap (λ k. node (extension prefix k) c) (h.unchanged e);
  }
  in_extension key (ok (true, m)) h =
      let (d, runs, g) = merge_extension-Merged prefix m stored long h.valid in
      rw runs (record {
        valid = g.valid;
        reads = λ j. g.reads j ∙ below_reads key true m h j;
        present = h.present ∙ ap is_some (sym (below_present key));
        unchanged = λ e. cc;
      })

at_extension :
    (prefix : List ℕ) (n : MptNode) (c : Option MptNodeReference) (key : List ℕ)
    → IsValid (node (extension prefix n) c)
    → All IsNibble key
    → ((t : List ℕ) → All IsNibble t → Deletion n t (delete_internal n t))
    → Deletion (node (extension prefix n) c) key (delete_internal (node (extension prefix n) c) key)
unfolding delete_internal
at_extension prefix n c key v h below_n =
    rw (prefix_nibs-path_of prefix v.0) (cases (strip_prefix key (path_of prefix)) refl)
  where
    cases :
        (o : Option (List ℕ))
        → strip_prefix key (path_of prefix) ≡ o
        → Deletion (node (extension prefix n) c) key (elim o [
          | none ↦ ok (false, node (extension prefix n) c)
          | some tail ↦ delete_internal n tail >>= finish_extension prefix (path_of prefix) c
        ])
    cases none e =
        absent_Deleted (node (extension prefix n) c) key v
          (stored_extension (path_of prefix) prefix n c key refl ∙ ap (below n) e)
    cases (some t) e = rw (append_of_strip_prefix key (path_of prefix) t e) (
        in_extension prefix n c v.0 v.1 v.2 t (delete_internal n t)
          (below_n t (strip_prefix-IsNibble key (path_of prefix) t h e)))

at_leaf :
    (prefix value : List ℕ) (c : Option MptNodeReference) (key : List ℕ)
    → IsPath prefix
    → Deletion (node (leaf prefix value) c) key (delete_internal (node (leaf prefix value) c) key)
unfolding delete_internal
at_leaf prefix value c key v =
    rw (prefix_nibs-path_of prefix v) (elim (Bool-cases (beq (path_of prefix) key)) [
      | inl same ↦ rw same (record {
        valid = tt;
        reads = λ j. gone j (eq_of_beq (path_of prefix) key same);
        present = sym (ap is_some (stored_leaf (path_of prefix) prefix value c key refl) ∙ rw same);
        unchanged = λ e. cc;
      })
      | inr other ↦ rw other (
          absent_Deleted (node (leaf prefix value) c) key v
            (stored_leaf (path_of prefix) prefix value c key refl ∙ rw other))
    ])
  where
    twice : (b : Bool) → none ≡ (if b then none else if b then some value else none)
    twice true = refl
    twice false = refl

    gone :
        (j : List ℕ)
        → path_of prefix ≡ key
        → find (node null none) j
          ≡ (if beq key j then none else find (node (leaf prefix value) c) j)
    gone j e = rw (stored_leaf key prefix value c j e) (unfold find in twice (beq key j))

mutual
  unfolding delete_internal find width

  delete_internal-Deletion :
      (n : MptNode) (key : List ℕ)
      → IsValid n
      → All IsNibble key
      → Deletion n key (delete_internal n key)
  delete_internal-Deletion (node null c) key v k = absent_Deleted (node null c) key tt refl
  delete_internal-Deletion (node (branch cs) c) [] v k = tt
  delete_internal-Deletion (node (branch cs) c) (i ∷ tail) v k =
      in_branch cs c i tail (delete_child cs i tail) v.1 v.2
        (delete_child-DeletionAt cs i tail v.0 (omega arith) k.1)
  delete_internal-Deletion (node (leaf prefix value) c) key v k = at_leaf prefix value c key v
  delete_internal-Deletion (node (extension prefix n) c) key v k =
      at_extension prefix n c key v k (λ t h. delete_internal-Deletion n t v.3 h)
  delete_internal-Deletion (node (digest d) c) key v k = tt

  delete_child-DeletionAt :
      (cs : Children) (i : ℕ) (key : List ℕ)
      → AreValid cs
      → i < width cs
      → All IsNibble key
      → DeletionAt cs i key (delete_child cs i key)
  delete_child-DeletionAt nil i key v b k = elim b [ ]
  delete_child-DeletionAt (vacant cs) zero key v b k = at_vacant cs key v
  delete_child-DeletionAt (child n cs) zero key v b k =
      at_child n cs key (delete_internal n key) v.0 v.2 (delete_internal-Deletion n key v.1 k)
  delete_child-DeletionAt (vacant cs) (suc i) key v b k =
      past_vacant cs i key (delete_child cs i key)
        (delete_child-DeletionAt cs i key v (omega arith) k)
  delete_child-DeletionAt (child n cs) (suc i) key v b k =
      past_child n cs i key (delete_child cs i key) v.0 v.1
        (delete_child-DeletionAt cs i key v.2 (omega arith) k)

-- Every outcome of `delete_internal` on a valid trie.
pub delete_internal_outcome :
    (n : MptNode) (key : List ℕ)
    → IsValid n
    → All IsNibble key
    → Deletion n key (delete_internal n key)
delete_internal_outcome = delete_internal-Deletion

pub delete_child_outcome :
    (cs : Children) (i : ℕ) (key : List ℕ)
    → AreValid cs
    → i < width cs
    → All IsNibble key
    → DeletionAt cs i key (delete_child cs i key)
delete_child_outcome = delete_child-DeletionAt
