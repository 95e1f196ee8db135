-- ===== src/Mpt/Insert/Fork.antt =====
-- The branch that `insert_internal` builds where two paths part, as a map.
use pico_subblock.Prelude.{
  ℕ, ◌≤◌, ◌≡◌, refl, true, false, Option, none, some, List, [], ◌∷◌, ◌++◌, ◌==◌, ltb, if◌then◌else◌,
  arith, length, All, take-length_append, zero-ltb-suc,
}
use pico_subblock.Result.{ok}
use pico_subblock.Path.{IsNibble, to_encoded_path, strip_prefix}
use pico_subblock.Path.Codec.{to_encoded_path-IsPath}
use pico_subblock.Path.Split.{index-append, strip_prefix-nil}
use pico_subblock.Mpt.{
  MptNode, MptNodeData, Children, node, branch, extension, from_data, no_children, set_child,
  is_empty,
}
use pico_subblock.Mpt.Valid.{
  IsValid, AreValid, find, find_child, width, occupied, path_of-to_encoded_path, is_branching,
}
use pico_subblock.Mpt.Slots.{
  Placed, set_child-Placed, is_vacant, is_vacant_of_occupied, find_child_of_occupied,
}
use pico_subblock.Mpt.Insert.{fork_branch}

-- What two children at places `x` and `y` hold.
abbrev pub fork_read : ℕ → MptNode → ℕ → MptNode → List ℕ → Option (List ℕ)
fork_read x old y new [] = none
fork_read x old y new (z ∷ t) = if y == z then find new t else if x == z then find old t else none

pub record Forked (p : List ℕ) (x : ℕ) (old : MptNode) (y : ℕ) (new : MptNode) (d : MptNodeData)
    : Type 0 where
  pub valid : IsValid (node d none)
  pub filled : is_empty (node d none) ≡ false
  pub reads :
      (j : List ℕ)
      → find (node d none) j
        ≡ elim (strip_prefix j p) [ none ↦ none | some t ↦ fork_read x old y new t ]

empty_width : width no_children ≡ 16
unfolding width
empty_width = refl

empty_occupied : occupied no_children ≡ 0
unfolding occupied
empty_occupied = refl

module _ (x : ℕ) (old : MptNode) (y : ℕ) (new : MptNode) (x_nibble : IsNibble x)
    (y_nibble : IsNibble y) (parts : (x == y) ≡ false) (old_valid : IsValid old)
    (old_filled : is_empty old ≡ false) (new_valid : IsValid new)
    (new_filled : is_empty new ≡ false) where
  -- The two writes into an empty array.
  record Pair (cs : Children) : Type 0 where
    first : Children
    first_runs : set_child no_children x old ≡ ok first
    second_runs : set_child first y new ≡ ok cs
    valid : AreValid cs
    full_width : width cs ≡ 16
    two : 2 ≤ occupied cs
    reads : (z : ℕ) (t : List ℕ) → find_child cs z t ≡ fork_read x old y new (z ∷ t)

  pair : (cs : Children) × Pair cs
  pair =
      let (first, runs, p) = set_child-Placed no_children x old (omega (arith, empty_width)) in
      let (cs, runs', q) =
        set_child-Placed first y new (omega (arith, empty_width, p.same_width)) in
      (
        cs,
        record {
          first = first;
          first_runs = runs;
          second_runs = runs';
          valid = q.valid (p.valid tt old_valid old_filled) new_valid new_filled;
          full_width = omega (arith, empty_width, p.same_width, q.same_width);
          two = two_lem first cs p q;
          reads = λ z t. reads_lem first cs p q z t;
        },
      )
    where
      vacant_y : (first : Children) → Placed no_children x old first → is_vacant first y ≡ true
      vacant_y first p =
          rw (p.vacancy y, parts) (is_vacant_of_occupied no_children y empty_occupied)

      two_lem :
          (first cs : Children)
          → Placed no_children x old first
          → Placed first y new cs
          → 2 ≤ occupied cs
      two_lem first cs p q =
          rw
            (q.count, vacant_y first p, p.count, is_vacant_of_occupied no_children x empty_occupied)
            (omega arith)

      reads_lem :
          (first cs : Children)
          → Placed no_children x old first
          → Placed first y new cs
          → (z : ℕ) (t : List ℕ) → find_child cs z t ≡ fork_read x old y new (z ∷ t)
      reads_lem first cs p q z t =
          rw (q.reads z t, p.reads z t, find_child_of_occupied no_children z t empty_occupied)

  branch-reads :
      (cs : Children)
      → Pair cs
      → (j : List ℕ) → find (node (branch cs) none) j ≡ fork_read x old y new j
  unfolding find
  branch-reads cs w [] = refl
  branch-reads cs w (z ∷ t) = w.reads z t

  below_prefix :
      (p : List ℕ) (cs : Children)
      → All IsNibble p
      → 1 ≤ length p
      → Pair cs
      → Forked p x old y new (extension (to_encoded_path p false) (from_data (branch cs)))
  unfolding find is_empty is_branching
  below_prefix p cs h long w = record {
    valid = (
      to_encoded_path-IsPath p false h,
      rw (path_of-to_encoded_path p false h) long,
      refl,
      (w.valid, w.full_width, w.two),
    );
    filled = refl;
    reads = λ j. rw (path_of-to_encoded_path p false h, find) (descend (strip_prefix j p));
  }
    where
      descend :
          (o : Option (List ℕ))
          → (elim o [ some t ↦ find (from_data (branch cs)) t | none ↦ none ])
            ≡ elim o [ none ↦ none | some t ↦ fork_read x old y new t ]
      descend none = refl
      descend (some t) = branch-reads cs w t

  -- The node for the common prefix `p`.
  shape-Forked :
      (p : List ℕ) (cs : Children)
      → All IsNibble p
      → Pair cs
      → Forked p x old y new (
          if ltb 0 (length p)
          then extension (to_encoded_path p false) (from_data (branch cs))
          else branch cs)
  unfolding find is_empty
  shape-Forked [] cs h w = record {
    valid = (w.valid, w.full_width, w.two);
    filled = refl;
    reads = λ j. rw strip_prefix-nil (branch-reads cs w j);
  }
  shape-Forked (a ∷ p) cs h w =
      rw (zero-ltb-suc (length p)) (below_prefix (a ∷ p) cs h (omega arith) w)

  pub fork_branch-Forked :
      (p r s : List ℕ)
      → All IsNibble p
      → (d : MptNodeData) × (fork_branch (p ++ x ∷ r) (p ++ y ∷ s) (length p) old new ≡ ok d)
        × Forked p x old y new d
  unfolding fork_branch
  fork_branch-Forked p r s h =
      let (cs, w) = pair in
      (
        (if ltb 0 (length p)
            then extension (to_encoded_path p false) (from_data (branch cs))
            else branch cs),
        rw (index-append, w.first_runs, index-append, w.second_runs, take-length_append),
        shape-Forked p cs h w,
      )
