-- ===== src/Mpt/Delete/Outcome.antt =====
-- What a deletion of a key leaves in a node and in a place of a branch, for `delete_internal` of
-- crates/mpt/src/mpt.rs.
use pico_subblock.Prelude.{
  ℕ, zero, suc, ◌≤◌, ◌≡◌, refl, ap, sym, Bool, true, false, ◌&&◌, Option, none, some, List, ◌==◌,
  if◌then◌else◌, arith, beq, eq_of_beq, ◌∙◌, suc-eq-suc, suc-ne-zero, zero-ne-suc, Bool-cases, inl,
  inr,
}
use pico_subblock.Result.{Result, ok, err, panic, ◌>>=◌}
use pico_subblock.Mpt.{
  Error, MptNode, Children, node, null, branch, leaf, extension, digest, vacant, child, is_empty,
}
use pico_subblock.Mpt.Valid.{IsValid, AreValid, find, find_child, width, occupied}
use pico_subblock.Mpt.Delete.{put_back}

abbrev pub is_some : Option (List ℕ) → Bool
is_some none = false
is_some (some v) = true

-- What a deletion of `key` leaves, for the node `n` before it and `m` after it.
pub record Deleted (n : MptNode) (key : List ℕ) (changed : Bool) (m : MptNode) : Type 0 where
  pub valid : IsValid m
  pub reads : (j : List ℕ) → find m j ≡ (if beq key j then none else find n j)
  pub present : changed ≡ is_some (find n key)
  pub unchanged : changed ≡ false → m ≡ n

-- Every outcome of a deletion: a result as above, or an error; never a panic.
abbrev pub Deletion : MptNode → List ℕ → Result Error (Bool × MptNode) → Type 0
Deletion n key (ok r) = Deleted n key r.0 r.1
Deletion n key (err e) = Unit
Deletion n key panic = ⊥

pub record DeletedAt (cs : Children) (i : ℕ) (key : List ℕ) (changed : Bool) (ds : Children)
    : Type 0 where
  pub valid : AreValid ds
  pub same_width : width ds ≡ width cs
  pub count : occupied cs ≤ suc (occupied ds)
  pub reads :
      (j : ℕ) (t : List ℕ)
      → find_child ds j t ≡ (if i == j && beq key t then none else find_child cs j t)
  pub present : changed ≡ is_some (find_child cs i key)
  pub unchanged : changed ≡ false → ds ≡ cs

abbrev pub DeletionAt : Children → ℕ → List ℕ → Result Error (Bool × Children) → Type 0
DeletionAt cs i key (ok r) = DeletedAt cs i key r.0 r.1
DeletionAt cs i key (err e) = Unit
DeletionAt cs i key panic = ⊥

pub past_vacant :
    (cs : Children) (i : ℕ) (key : List ℕ) (m : Result Error (Bool × Children))
    → DeletionAt cs i key m
    → DeletionAt (vacant cs) (suc i) key (m >>= λ r. ok (r.0, vacant r.1))
unfolding find_child width occupied
past_vacant cs i key (err e) h = tt
past_vacant cs i key panic h = h
past_vacant cs i key (ok r) h = record {
  valid = h.valid;
  same_width = ap suc h.same_width;
  count = h.count;
  reads = elim [ zero ↦ λ t. rw suc-ne-zero | suc j ↦ λ t. rw (suc-eq-suc i j) (h.reads j t) ];
  present = h.present;
  unchanged = λ e. ap vacant (h.unchanged e);
}

pub past_child :
    (n : MptNode) (cs : Children) (i : ℕ) (key : List ℕ) (m : Result Error (Bool × Children))
    → is_empty n ≡ false
    → IsValid n
    → DeletionAt cs i key m
    → DeletionAt (child n cs) (suc i) key (m >>= λ r. ok (r.0, child n r.1))
unfolding find_child width occupied
past_child n cs i key (err e) f v h = tt
past_child n cs i key panic f v h = h
past_child n cs i key (ok r) f v h = record {
  valid = (f, v, h.valid);
  same_width = ap suc h.same_width;
  count = omega (arith, h.count);
  reads = elim [ zero ↦ λ t. rw suc-ne-zero | suc j ↦ λ t. rw (suc-eq-suc i j) (h.reads j t) ];
  present = h.present;
  unchanged = λ e. ap (child n) (h.unchanged e);
}

-- A path that is not in the trie: removing it changes no lookup.
pub absent :
    (n : MptNode) (key j : List ℕ)
    → find n key ≡ none
    → find n j ≡ (if beq key j then none else find n j)
absent n key j e = elim (Bool-cases (beq key j)) [
  | inl same ↦ rw same (ap (find n) (sym (eq_of_beq key j same)) ∙ e)
  | inr other ↦ rw other
]

pub absent_Deleted :
    (n : MptNode) (key : List ℕ) → IsValid n → find n key ≡ none → Deleted n key false n
absent_Deleted n key v e = record {
  valid = v;
  reads = λ j. absent n key j e;
  present = rw e;
  unchanged = λ _. refl;
}

pub at_vacant :
    (cs : Children) (key : List ℕ) → AreValid cs → DeletedAt (vacant cs) 0 key false (vacant cs)
unfolding find_child width occupied
at_vacant cs key v = record {
  valid = v;
  same_width = refl;
  count = omega arith;
  reads = elim [ zero ↦ λ t. nothing (beq key t) | suc j ↦ λ t. rw zero-ne-suc ];
  present = refl;
  unchanged = λ _. refl;
}
  where
    nothing : (b : Bool) → ◌≡◌ {A = Option (List ℕ)} none (if b then none else none)
    nothing true = refl
    nothing false = refl

pub find-empty : (n : MptNode) (t : List ℕ) → is_empty n ≡ true → find n t ≡ none
unfolding find is_empty
find-empty (node null c) t e = refl
find-empty (node (branch cs) c) t e = cc
find-empty (node (leaf p v) c) t e = cc
find-empty (node (extension p n) c) t e = cc
find-empty (node (digest d) c) t e = cc

pub at_child :
    (n : MptNode) (cs : Children) (key : List ℕ) (m : Result Error (Bool × MptNode))
    → is_empty n ≡ false
    → AreValid cs
    → Deletion n key m
    → DeletionAt (child n cs) 0 key (m >>= λ r. ok (put_back r cs))
unfolding find_child width occupied put_back
at_child n cs key (err e) f v h = tt
at_child n cs key panic f v h = h
at_child n cs key (ok (false, m)) f v h = record {
  valid = (rw (h.unchanged refl) f, h.valid, v);
  same_width = refl;
  count = omega arith;
  reads = elim [ zero ↦ λ t. h.reads t | suc j ↦ λ t. rw zero-ne-suc ];
  present = h.present;
  unchanged = λ e. ap (λ k. child k cs) (h.unchanged e);
}
at_child n cs key (ok (true, m)) f v h = elim (Bool-cases (is_empty m)) [
  | inl gone ↦ rw gone (record {
    valid = v;
    same_width = refl;
    count = omega arith;
    reads = elim [
      | zero ↦ λ t. sym (find-empty m t gone) ∙ h.reads t
      | suc j ↦ λ t. rw zero-ne-suc
    ];
    present = h.present;
    unchanged = λ e. cc;
  })
  | inr kept ↦ rw kept (record {
    valid = (kept, h.valid, v);
    same_width = refl;
    count = omega arith;
    reads = elim [ zero ↦ λ t. h.reads t | suc j ↦ λ t. rw zero-ne-suc ];
    present = h.present;
    unchanged = λ e. cc;
  })
]
