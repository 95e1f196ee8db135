-- ===== src/Mpt/Slots.antt =====
-- The array of 16 optional children: writing one place.
use pico_subblock.Prelude.{
  ℕ, zero, suc, ◌+◌, ◌<◌, ◌≡◌, refl, ap, Bool, true, false, none, List, ◌==◌, if◌then◌else◌, arith,
  suc-ne-zero, zero-ne-suc, suc-eq-suc,
}
use pico_subblock.Result.{ok}
use pico_subblock.Mpt.{MptNode, Children, nil, vacant, child, is_empty, set_child}
use pico_subblock.Mpt.Valid.{IsValid, AreValid, find, find_child, width, occupied}

-- The place holds no child.
unfoldable pub is_vacant : Children → ℕ → Bool
is_vacant nil i = true
is_vacant (vacant cs) zero = true
is_vacant (child n cs) zero = false
is_vacant (vacant cs) (suc i) = is_vacant cs i
is_vacant (child n cs) (suc i) = is_vacant cs i

-- `after` is `before` with `n` at place `i`.
pub record Placed (before : Children) (i : ℕ) (n : MptNode) (after : Children) : Type 0 where
  pub same_width : width after ≡ width before
  pub count : occupied after ≡ occupied before + (if is_vacant before i then 1 else 0)
  pub vacancy : (j : ℕ) → is_vacant after j ≡ (if i == j then false else is_vacant before j)
  pub reads :
      (j : ℕ) (t : List ℕ)
      → find_child after j t ≡ (if i == j then find n t else find_child before j t)
  pub valid : AreValid before → IsValid n → is_empty n ≡ false → AreValid after

Placed-vacant :
    (before after : Children) (i : ℕ) (n : MptNode)
    → Placed before i n after
    → Placed (vacant before) (suc i) n (vacant after)
unfolding is_vacant find_child width occupied
Placed-vacant before after i n p = record {
  same_width = ap suc p.same_width;
  count = p.count;
  vacancy = elim [ zero ↦ rw suc-ne-zero | suc j ↦ rw (suc-eq-suc i j) (p.vacancy j) ];
  reads = elim [ zero ↦ λ t. rw suc-ne-zero | suc j ↦ λ t. rw (suc-eq-suc i j) (p.reads j t) ];
  valid = p.valid;
}

Placed-child :
    (before after : Children) (i : ℕ) (n m : MptNode)
    → Placed before i n after
    → Placed (child m before) (suc i) n (child m after)
unfolding is_vacant find_child width occupied
Placed-child before after i n m p = record {
  same_width = ap suc p.same_width;
  count = omega (arith, p.count);
  vacancy = elim [ zero ↦ rw suc-ne-zero | suc j ↦ rw (suc-eq-suc i j) (p.vacancy j) ];
  reads = elim [ zero ↦ λ t. rw suc-ne-zero | suc j ↦ λ t. rw (suc-eq-suc i j) (p.reads j t) ];
  valid = λ v h e. (v.0, v.1, p.valid v.2 h e);
}

-- Writing a place in range does not panic.
pub set_child-Placed :
    (cs : Children) (i : ℕ) (n : MptNode)
    → i < width cs
    → (after : Children) × (set_child cs i n ≡ ok after) × Placed cs i n after
unfolding set_child is_vacant find_child width occupied
set_child-Placed nil i n b = elim b [ ]
set_child-Placed (vacant cs) zero n b = (
  child n cs,
  refl,
  record {
    same_width = refl;
    count = omega arith;
    vacancy = elim [ zero ↦ refl | suc j ↦ rw zero-ne-suc ];
    reads = elim [ zero ↦ λ t. refl | suc j ↦ λ t. rw zero-ne-suc ];
    valid = λ v h e. (e, h, v);
  },
)
set_child-Placed (child m cs) zero n b = (
  child n cs,
  refl,
  record {
    same_width = refl;
    count = omega arith;
    vacancy = elim [ zero ↦ refl | suc j ↦ rw zero-ne-suc ];
    reads = elim [ zero ↦ λ t. refl | suc j ↦ λ t. rw zero-ne-suc ];
    valid = λ v h e. (e, h, v.2);
  },
)
set_child-Placed (vacant cs) (suc i) n b =
    let (after, runs, p) = set_child-Placed cs i n (omega arith) in
    (vacant after, rw runs, Placed-vacant cs after i n p)
set_child-Placed (child m cs) (suc i) n b =
    let (after, runs, p) = set_child-Placed cs i n (omega arith) in
    (child m after, rw runs, Placed-child cs after i n m p)

-- An array with no child in it is vacant everywhere and reads as nothing.
pub is_vacant_of_occupied : (cs : Children) (i : ℕ) → occupied cs ≡ 0 → is_vacant cs i ≡ true
unfolding is_vacant occupied
is_vacant_of_occupied nil i e = refl
is_vacant_of_occupied (vacant cs) zero e = refl
is_vacant_of_occupied (vacant cs) (suc i) e = is_vacant_of_occupied cs i e
is_vacant_of_occupied (child n cs) i e = absurd (omega arith)

pub find_child_of_occupied :
    (cs : Children) (i : ℕ) (t : List ℕ) → occupied cs ≡ 0 → find_child cs i t ≡ none
unfolding find_child occupied
find_child_of_occupied nil i t e = refl
find_child_of_occupied (vacant cs) zero t e = refl
find_child_of_occupied (vacant cs) (suc i) t e = find_child_of_occupied cs i t e
find_child_of_occupied (child n cs) i t e = absurd (omega arith)
