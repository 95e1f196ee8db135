-- ===== src/Client/Tests.antt =====
-- An example of an aggregation: a block of two transactions, in two subblocks.
use native.Mathlib.Decide.{ℕ_discrete}
use pico_subblock.Prelude.{
  ℕ, zero, suc, ◌≡◌, refl, Bool, true, false, Option, none, some, List, [], ◌∷◌, beq, arith,
}
use pico_subblock.Prelude.Word.{sub_u64}
use pico_subblock.Result.{ok}
use pico_subblock.Client.Block.{
  Bytes, External, Header, Block, SubblockInput, SubblockOutput, AggregationInput, zeros,
  Header_discrete, Bodies_discrete, Withdrawals_discrete, Option_Bytes_discrete, Bytes_discrete,
  BlockHashes_discrete,
}
use pico_subblock.Client.Output.{extend, merge_requests, with_requests, request_data_len}
use pico_subblock.Client.Output.Merge.{Merged, merge_requests-Merged}
use pico_subblock.Client.Aggregation.{execute_aggregation}
use pico_subblock.Client.Aggregation.Sound.{Accepted, execute_aggregation-Accepted}

abbrev header_at : ℕ → Bytes → Bytes → Header
header_at n parent root = record {
  parent_hash = parent;
  ommers_hash = [];
  state_root = root;
  transactions_root = [];
  receipts_root = [];
  withdrawals_root = none;
  logs_bloom = [];
  number = n;
  requests_hash = none;
  other = [];
}

abbrev block_of : List Bytes → Block
block_of transactions = record {
  header = header_at 5 (4 ∷ []) (30 ∷ []);
  transactions = transactions;
  ommers = [];
  withdrawals = none;
}

abbrev part : Bool → Bool → ℕ → Bytes → SubblockInput
part first last gas tx = record {
  current_block = block_of (tx ∷ []);
  block_hashes = (4, 4 ∷ []) ∷ [];
  bytecodes = [];
  is_first_subblock = first;
  is_last_subblock = last;
  starting_gas_used = gas;
}

abbrev result : ℕ → ℕ → ℕ → SubblockOutput
result before after gas = record {
  input_state_root = before ∷ [];
  output_state_root = after ∷ [];
  logs_bloom = [];
  receipts = record { cumulative_gas_used = gas; bloom = []; other = [] } ∷ [];
  requests = [];
}

-- A committed value is a number that stands for the subblock.
abbrev read_part : Bytes → Option (SubblockInput × Bytes)
read_part (zero ∷ rest) = some (part true false 0 (7 ∷ []), 0 ∷ [])
read_part (suc n ∷ rest) = some (part false true 21000 (8 ∷ []), 1 ∷ [])
read_part [] = none

abbrev read_result : Bytes → Option (SubblockOutput × Bytes)
read_result (zero ∷ rest) = some (result 10 20 21000, [])
read_result (suc n ∷ rest) = some (result 20 30 42000, [])
read_result [] = none

abbrev external : External
external = record {
  hash_slow = λ h. h.number ∷ [];
  sha256 = λ b. b;
  verify_proof = λ k d. true;
  read_input = read_part;
  read_output = read_result;
  accrue_bloom = λ a b. b;
  validate = λ h rs qs. true;
  ommers_root = λ o. [];
  transaction_root = λ t. [];
  withdrawals_root = λ w. [];
}

abbrev aggregation_input : AggregationInput
aggregation_input = record {
  current_block = block_of ((7 ∷ []) ∷ (8 ∷ []) ∷ []);
  ancestor_headers = header_at 4 (3 ∷ []) (10 ∷ []) ∷ [];
}

abbrev public_values : List Bytes
public_values = (0 ∷ []) ∷ (1 ∷ []) ∷ []

returned :
    execute_aggregation external public_values [] aggregation_input (10 ∷ [])
    ≡ ok (header_at 5 (4 ∷ []) (30 ∷ []))
unfolding execute_aggregation sub_u64 extend merge_requests zeros ℕ_discrete Header_discrete
    Bodies_discrete Withdrawals_discrete Option_Bytes_discrete Bytes_discrete BlockHashes_discrete
returned = refl

execute_aggregation-Accepted_example :
    Accepted external public_values [] aggregation_input (10 ∷ []) (header_at 5 (4 ∷ []) (30 ∷ []))
execute_aggregation-Accepted_example =
    execute_aggregation-Accepted external public_values [] aggregation_input (10 ∷ [])
      (header_at 5 (4 ∷ []) (30 ∷ [])) returned

-- Two subblocks bring requests of type 9, the second one again what the first brought.
abbrev with_duplicates : SubblockOutput
with_duplicates = record {
  input_state_root = [];
  output_state_root = [];
  logs_bloom = [];
  receipts = [];
  requests = (9 ∷ 5 ∷ 6 ∷ []) ∷ (3 ∷ 1 ∷ []) ∷ (9 ∷ 7 ∷ []) ∷ (9 ∷ 5 ∷ 6 ∷ []) ∷ [];
}

with_duplicates_merged :
    merge_requests with_duplicates
    ≡ ok (with_requests with_duplicates ((9 ∷ 5 ∷ 6 ∷ 7 ∷ []) ∷ (3 ∷ 1 ∷ []) ∷ []))
unfolding merge_requests beq
with_duplicates_merged = refl

merge_requests-Merged_example : Merged with_duplicates
unfolding request_data_len
merge_requests-Merged_example =
    merge_requests-Merged with_duplicates (omega arith) (refl, (refl, (refl, (refl, tt))))
