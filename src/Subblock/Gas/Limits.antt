-- ===== src/Subblock/Gas/Limits.antt =====
-- `compute_subblock_gas_limits` of crates/executor/host/src/subblock/mod.rs as its callers see it.
use native.Mathlib.Nat.{lt-mul-div-succ, mul-div-le, mul-add, mul-one}
use pico_subblock.Prelude.{
  ℕ, suc, ◌+◌, ◌*◌, ◌/◌, ◌^◌, ◌≤◌, ◌<◌, ◌≡◌, refl, ◌∙◌, true, false, List, [], ◌∷◌, ◌==◌, leb,
  length, arith, All, ==_refl,
}
use pico_subblock.Prelude.Word.{u64_id}
use pico_subblock.Result.{Result, ok}
use pico_subblock.Subblock.Gas.{
  last_limit, sum_u64, checked, subblock_gas, start, compute_subblock_gas_limits,
}
use pico_subblock.Subblock.Gas.Cut.{total, IsCut, IsCut-total, IsCut-positive, split_from}

sum_u64-total : (xs : List ℕ) → total xs < 2 ^ 64 → sum_u64 xs ≡ total xs
unfolding sum_u64
sum_u64-total [] h = refl
sum_u64-total (x ∷ xs) h = rw (sum_u64-total xs (omega (arith, h))) (u64_id (x + total xs) h)

-- The target of one subblock: more than the average, and less than one unit above it.
target_above : (m goal : ℕ) → 1 ≤ m → 2 * (goal + m) < 2 ^ 64 → goal < m * subblock_gas m goal
unfolding subblock_gas
target_above m goal one small =
    rw (u64_id (goal + m) (omega arith))
      (omega (arith, lt-mul-div-succ (goal + m) one, mul-add m ((goal + m) / m) 1, mul-one m))

target_under : (m goal : ℕ) → 2 * (goal + m) < 2 ^ 64 → m * subblock_gas m goal ≤ goal + m
unfolding subblock_gas
target_under m goal small = rw (u64_id (goal + m) (omega arith)) (mul-div-le (goal + m) m)

-- What the caller gets.
pub record Limits (m goal : ℕ) (receipts : List ℕ) (r : Result ⊥ (List ℕ)) : Type 0 where
  pub limits : List ℕ
  pub returns : r ≡ ok limits
  pub cut : IsCut 0 receipts limits
  pub count : (1 ≤ length limits) × (length limits ≤ m)
  pub sum : total limits ≡ goal
  pub positive : All (λ x. 1 ≤ x) limits

-- For a block with at least one transaction, a receipt for each, gas used that is the sum of what
-- the receipts say, and no transaction without gas, and with at least one subblock allowed and
-- numbers that fit in 63 bits, the call returns, without a failed assertion: each limit is the gas
-- of a group of consecutive transactions and not zero, the limits add up to the gas of the block,
-- and there are at least one and at most the allowed number of them.
pub compute_subblock_gas_limits-Limits :
    (m goal : ℕ) (receipts : List ℕ)
    → 1 ≤ m
    → 1 ≤ length receipts
    → All (λ x. 1 ≤ x) receipts
    → total receipts ≡ goal
    → 2 * (goal + m) < 2 ^ 64
    → Limits m goal receipts (compute_subblock_gas_limits m (length receipts) goal receipts)
unfolding compute_subblock_gas_limits checked
compute_subblock_gas_limits-Limits m goal [] one some_tx positive sum small = absurd (omega arith)
compute_subblock_gas_limits-Limits m goal (tx ∷ receipts) one some_tx positive sum small =
    let gas = subblock_gas m goal in
    let r =
      split_from m goal gas (target_above m goal one small) (target_under m goal small) small
        (start gas) (tx ∷ receipts)
        (record {
          ordered = omega arith;
          target = omega arith;
          reached = omega arith;
          rest = omega (arith, sum);
        })
        positive in
    let limits' : last_limit r.final ≡ r.more = r.limits in
    let cut : IsCut 0 (tx ∷ receipts) r.more = r.cut in
    let at_most : length r.more ≤ m = rw limits' at r.bounded in
    let gas_sum : total r.more ≡ goal = omega (arith, IsCut-total cut, sum) in
    let checked_sum : sum_u64 r.more ≡ goal = sum_u64-total r.more (omega arith) ∙ gas_sum in
    let few : leb (length r.more) m ≡ true = ground arith in
    let some_max : (m == 0) ≡ false = ground arith in
    let some_receipts : (suc (length receipts) == 0) ≡ false = ground arith in
    record {
      limits = r.more;
      returns = rw (
        ==_refl (suc (length receipts)),
        some_receipts,
        some_max,
        r.runs,
        limits',
        few,
        checked_sum,
        ==_refl goal,
      );
      cut = cut;
      count = (nonempty r.more gas_sum, at_most);
      sum = gas_sum;
      positive = IsCut-positive cut;
    }
  where
    nonempty : (ls : List ℕ) → total ls ≡ goal → 1 ≤ length ls
    nonempty [] e = absurd (omega (arith, e, sum, positive.0))
    nonempty (l ∷ ls) e = omega arith
