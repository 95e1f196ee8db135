-- ===== src/Client/Execution/Tests.antt =====
-- An example of an execution: an EVM that writes one account and leaves another empty.
use native.Mathlib.Decide.{ℕ_discrete}
use pico_subblock.Prelude.{ℕ, ◌≡◌, refl, none, some, [], ◌∷◌, true, false, beq, Option, ◌==◌, arith}
use pico_subblock.Prelude.Word.{sub_u64}
use pico_subblock.Result.{ok}
use pico_subblock.Path.{lcp, to_nibs, prefix_nibs, to_encoded_path}
use pico_subblock.Mpt.{node, leaf, null}
use pico_subblock.Mpt.Insert.{insert_internal, insert_leaf}
use pico_subblock.Mpt.Hash.{empty_root, hash, reference, calc_reference, fill}
use pico_subblock.Mpt.Decode.Toy.{toy, header_of, string_of}
use pico_subblock.State.{
  EthereumState, HashedPostState, Encoders, lookup, trie_of, storage_of, update, state_root,
}
use pico_subblock.State.Accounts.{SoundState}
use pico_subblock.Client.Block.{
  Bytes, External, Header, Block, Receipt, SubblockInput, SubblockOutput, Bytes_discrete,
}
use pico_subblock.Client.Aggregation.{insert_hash}
use pico_subblock.Client.Witness.{Decoders, witness_db}
use pico_subblock.Client.Execution.{
  ClientExecutorInput, Evm, execute, execute_subblock, validate, SubblockOutput_discrete,
}
use pico_subblock.Client.Execution.Sound.{IsEvm, Executed, execute-Executed}
use pico_subblock.Client.Execution.Validated.{
  SubblockExecuted, execute_subblock-Executed, AllReproduced, validate-AllReproduced,
}

abbrev encoders : Encoders
encoders = record { encode_account = λ a. a.nonce ∷ a.balance ∷ []; encode_word = λ v. v ∷ [] }

abbrev external : External
external = record {
  hash_slow = λ h. h.number ∷ [];
  sha256 = λ b. b;
  verify_proof = λ k d. true;
  read_input = λ b. none;
  read_output = λ b. none;
  accrue_bloom = λ a b. b;
  validate = λ h rs qs. true;
  ommers_root = λ o. [];
  transaction_root = λ t. [];
  withdrawals_root = λ w. [];
}

abbrev decoders : Decoders
decoders = record {
  decode_account = λ b. none;
  decode_word = λ b. none;
  code_hash = λ b. b;
  be_bytes = λ n. n ∷ [];
}

abbrev changes : HashedPostState
changes = record {
  accounts =
      (0x71 ∷ [], some (record { nonce = 1; balance = 2; bytecode_hash = [] }))
      ∷ (0x72 ∷ [], some (record { nonce = 0; balance = 0; bytecode_hash = [] }))
      ∷ [];
  storages = [];
}

abbrev receipt : Receipt
receipt = record { cumulative_gas_used = 21; bloom = 7 ∷ []; other = [] }

abbrev evm : Evm
evm = record {
  try_into_recovered = λ b. some (record {
    inner = b;
    senders = [];
    is_first_subblock = false;
    is_last_subblock = false;
    starting_gas_used = 0;
  });
  execute = λ b db. ok (record { state = []; receipts = receipt ∷ []; requests = [] });
  validate_block = λ b rs qs. true;
  hash_state = λ b. changes;
  is_empty = λ a. a.nonce == 0;
}

evm-IsEvm : IsEvm toy encoders external decoders evm
unfolding lookup storage_of beq
evm-IsEvm = record {
  encoder = record { account = λ a. omega arith; word = λ v. omega arith };
  post_state = λ b. ((refl, (refl, tt)), ((omega arith, tt), tt, ((omega arith, tt), tt, tt)));
}

abbrev header_at : ℕ → Bytes → Header
header_at n parent = record {
  parent_hash = parent;
  ommers_hash = [];
  state_root = empty_root;
  transactions_root = [];
  receipts_root = [];
  withdrawals_root = none;
  logs_bloom = [];
  number = n;
  requests_hash = none;
  other = [];
}

abbrev block : Block
block = record { header = header_at 5 (4 ∷ []); transactions = []; ommers = []; withdrawals = none }

abbrev parent_state : EthereumState
parent_state = record {
  state_trie = node (leaf (0x20 ∷ 0x71 ∷ []) (9 ∷ [])) none;
  storage_tries = [];
}

parent_state-SoundState : SoundState toy encoders parent_state
unfolding trie_of lookup
parent_state-SoundState = record {
  state_trie = ((omega arith, (omega arith, tt)), (tt, tt));
  storage = λ a. (tt, (tt, tt));
}

abbrev input : ClientExecutorInput
input = record {
  current_block = block;
  ancestor_headers = header_at 4 (3 ∷ []) ∷ [];
  parent_state = parent_state;
  bytecodes = [];
}

returned : execute toy encoders external decoders evm input ≡ ok block.header
unfolding execute hash reference calc_reference header_of string_of Bytes_discrete ℕ_discrete
    insert_hash sub_u64 insert_internal to_nibs prefix_nibs to_encoded_path witness_db update
    insert_leaf lcp beq
returned = refl

execute-Executed_example : Executed toy encoders external decoders evm input block.header
execute-Executed_example =
    execute-Executed toy encoders external decoders evm input block.header evm-IsEvm
      parent_state-SoundState returned

abbrev subblock : SubblockInput
subblock = record {
  current_block = block;
  block_hashes = [];
  bytecodes = [];
  is_first_subblock = true;
  is_last_subblock = true;
  starting_gas_used = 0;
}

abbrev subblock_output : SubblockOutput
subblock_output = record {
  input_state_root = empty_root;
  output_state_root = empty_root;
  logs_bloom = 7 ∷ [];
  receipts = receipt ∷ [];
  requests = [];
}

abbrev after : EthereumState
after = record {
  state_trie = node (leaf (0x20 ∷ 0x71 ∷ []) (1 ∷ 2 ∷ [])) none;
  storage_tries = (0x71 ∷ [], node null none) ∷ [];
}

subblock_returned :
    execute_subblock toy encoders external decoders evm subblock parent_state
    ≡ ok (subblock_output, after)
unfolding execute_subblock hash reference calc_reference header_of string_of insert_internal to_nibs
    prefix_nibs to_encoded_path update fill insert_leaf lcp beq state_root
subblock_returned = refl

execute_subblock-Executed_example :
    SubblockExecuted toy encoders external decoders evm subblock parent_state subblock_output after
execute_subblock-Executed_example =
    execute_subblock-Executed toy encoders external decoders evm subblock parent_state
      subblock_output after evm-IsEvm parent_state-SoundState subblock_returned

abbrev read_state : Bytes → Option EthereumState
read_state b = some parent_state

validated :
    validate toy encoders external decoders evm read_state 0
      (subblock ∷ [])
      ([] ∷ [])
      (subblock_output ∷ [])
    ≡ ok tt
unfolding validate hash reference calc_reference header_of string_of insert_internal to_nibs
    prefix_nibs to_encoded_path SubblockOutput_discrete ℕ_discrete update fill insert_leaf lcp beq
    state_root
validated = refl

validate-AllReproduced_example :
    AllReproduced toy encoders external decoders evm read_state 0
      (subblock ∷ [])
      ([] ∷ [])
      (subblock_output ∷ [])
validate-AllReproduced_example =
    validate-AllReproduced toy encoders external decoders evm read_state 0 (subblock ∷ []) ([] ∷ [])
      (subblock_output ∷ []) validated
