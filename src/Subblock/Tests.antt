-- ===== src/Subblock/Tests.antt =====
-- Examples of how a block is cut into subblocks.
use pico_subblock.Prelude.{ℕ, ◌≤◌, ◌≡◌, refl, List, [], ◌∷◌, All, arith}
use pico_subblock.Prelude.Word.{u64, sub_u64}
use pico_subblock.Result.{ok}
use pico_subblock.Subblock.Gas.{compute_subblock_gas_limits}
use pico_subblock.Subblock.Gas.Limits.{Limits, compute_subblock_gas_limits-Limits}

abbrev four_receipts : List ℕ
four_receipts = 30000 ∷ 50000 ∷ 900000 ∷ 21000 ∷ []

four_receipts-positive : All (λ x. 1 ≤ x) four_receipts
four_receipts-positive = (omega arith, (omega arith, (omega arith, (omega arith, tt))))

-- The big transaction is kept out of the group before it.
four_limits :
    compute_subblock_gas_limits 3 4 1001000 four_receipts ≡ ok (80000 ∷ 900000 ∷ 21000 ∷ [])
unfolding compute_subblock_gas_limits u64 sub_u64
four_limits = refl

compute_subblock_gas_limits-Limits_example :
    Limits 3 1001000 four_receipts (compute_subblock_gas_limits 3 4 1001000 four_receipts)
compute_subblock_gas_limits-Limits_example =
    compute_subblock_gas_limits-Limits 3 1001000 four_receipts (omega arith) (omega arith)
      four_receipts-positive refl (omega arith)
