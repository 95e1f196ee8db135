-- ===== src/Subblock/Gas.antt =====
-- `compute_subblock_gas_limits` of crates/executor/host/src/subblock/mod.rs. The receipts come from
-- the RPC provider: the model takes the gas of each. A failed `assert!` is a panic.
pub mod Cut
pub mod Limits
use pico_subblock.Prelude.{
  ℕ, suc, ◌+◌, ◌/◌, Bool, true, false, not, ◌&&◌, List, [], ◌∷◌, ◌++◌, ◌==◌, ltb, leb,
  if◌then◌else◌, length,
}
use pico_subblock.Prelude.Word.{u64, sub_u64}
use pico_subblock.Result.{Result, ok, err, panic, ◌>>=◌}

abbrev pub default_subblock_gas_limit : ℕ
default_subblock_gas_limit = 1000000

-- The variables of the loop.
pub record Splitting : Type 0 where
  pub prev : ℕ
  pub curr : ℕ
  pub next : ℕ
  pub limits : List ℕ

-- The two pushes of the loop body.
abbrev pub before_big : ℕ → ℕ → Splitting → Splitting
before_big subblock_gas tx_gas s = record {
  prev = s.curr;
  curr = u64 (s.curr + tx_gas);
  next = u64 (s.next + subblock_gas);
  limits = s.limits ++ (sub_u64 s.curr s.prev ∷ []);
}

abbrev pub after_full : ℕ → ℕ → Splitting → Splitting
after_full subblock_gas tx_gas s = record {
  prev = u64 (s.curr + tx_gas);
  curr = u64 (s.curr + tx_gas);
  next = u64 (s.next + subblock_gas);
  limits = s.limits ++ (sub_u64 (u64 (s.curr + tx_gas)) s.prev ∷ []);
}

abbrev pub collected : ℕ → Splitting → Splitting
collected tx_gas s = record {
  prev = s.prev;
  curr = u64 (s.curr + tx_gas);
  next = s.next;
  limits = s.limits;
}

unfoldable pub step : ℕ → ℕ → Splitting → Result ⊥ Splitting
step subblock_gas tx_gas s =
    if not (s.curr == s.prev) && ltb (u64 (s.next + subblock_gas / 2)) (u64 (s.curr + tx_gas))
    then (if ltb s.prev s.curr then ok (before_big subblock_gas tx_gas s) else panic)
    else ok (
        if ltb s.next (u64 (s.curr + tx_gas))
        then after_full subblock_gas tx_gas s
        else collected tx_gas s)

unfoldable pub loop : ℕ → List ℕ → Splitting → Result ⊥ Splitting
unfolding step
loop subblock_gas [] s = ok s
loop subblock_gas (tx_gas ∷ receipts) s = do
  s' ← step subblock_gas tx_gas s
  loop subblock_gas receipts s'

-- `if curr != prev { subblock_gas_limits.push(curr - prev); }`
unfoldable pub last_limit : Splitting → List ℕ
last_limit s = if s.curr == s.prev then s.limits else s.limits ++ (sub_u64 s.curr s.prev ∷ [])

-- `subblock_gas_limits.iter().sum()`
unfoldable pub sum_u64 : List ℕ → ℕ
sum_u64 [] = 0
sum_u64 (x ∷ xs) = u64 (x + sum_u64 xs)

-- The two assertions at the end.
unfoldable pub checked : ℕ → ℕ → List ℕ → Result ⊥ (List ℕ)
unfolding sum_u64
checked max_subblock_count total_gas limits =
    if leb (length limits) max_subblock_count && (total_gas == sum_u64 limits)
    then ok limits
    else panic

unfoldable pub subblock_gas : ℕ → ℕ → ℕ
subblock_gas max_subblock_count total_gas =
    u64 (total_gas + max_subblock_count) / max_subblock_count

abbrev pub start : ℕ → Splitting
start gas = record { prev = 0; curr = 0; next = gas; limits = [] }

-- `max_subblock_count` is MAX_SUBBLOCK_COUNT; a division by zero panics.
unfoldable pub compute_subblock_gas_limits : ℕ → ℕ → ℕ → List ℕ → Result ⊥ (List ℕ)
unfolding subblock_gas loop last_limit checked
compute_subblock_gas_limits max_subblock_count transactions total_gas receipts =
    if not (length receipts == transactions)
    then panic
    else if length receipts == 0
    then ok (default_subblock_gas_limit ∷ [])
    else if max_subblock_count == 0
    then panic
    else do
      s ←
          loop (subblock_gas max_subblock_count total_gas) receipts
            (start (subblock_gas max_subblock_count total_gas))
      checked max_subblock_count total_gas (last_limit s)
