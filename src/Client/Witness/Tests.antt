-- ===== src/Client/Witness/Tests.antt =====
-- An example of a witness: a state with one account, and two headers.
use native.Mathlib.Decide.{ℕ_discrete}
use pico_subblock.Prelude.{ℕ, suc, ◌≡◌, refl, none, some, [], ◌∷◌, length, true, beq}
use pico_subblock.Prelude.Word.{sub_u64}
use pico_subblock.Result.{ok}
use pico_subblock.Path.{to_nibs, prefix_nibs}
use pico_subblock.Mpt.{node, null, leaf}
use pico_subblock.Mpt.Get.{get, get_internal}
use pico_subblock.Mpt.Hash.{empty_root, hash, reference, calc_reference}
use pico_subblock.Client.Block.{Bytes, External, Header, Bytes_discrete}
use pico_subblock.Client.Aggregation.{insert_hash}
use pico_subblock.Client.Witness.{Decoders, WitnessInput, TrieDb, witness_db}
use pico_subblock.Client.Witness.Sound.{Witnessed, witness_db-Witnessed}

abbrev tries : pico_subblock.Mpt.Hash.External
tries = record {
  keccak = λ b. empty_root;
  empty_string_code = 0x80;
  list_header = λ n. 0xc0 ∷ [];
  encode_string = λ b. 0x80 ∷ b;
  string_length = λ b. suc (length b);
  length_of_length = λ n. 1;
}

abbrev external : External
external = record {
  hash_slow = λ h. h.number ∷ [];
  sha256 = λ b. b;
  verify_proof = λ k d. true;
  read_input = λ b. none;
  read_output = λ b. none;
  accrue_bloom = λ a b. b;
  validate = λ h rs qs. true;
  ommers_root = λ o. [];
  transaction_root = λ t. [];
  withdrawals_root = λ w. [];
}

abbrev decoders : Decoders
decoders = record {
  decode_account =
      λ b. some (record { nonce = 1; balance = 2; storage_root = empty_root; code_hash = [] });
  decode_word = λ b. some 5;
  code_hash = λ b. b;
  be_bytes = λ n. n ∷ [];
}

abbrev header_at : ℕ → Bytes → Header
header_at n parent = record {
  parent_hash = parent;
  ommers_hash = [];
  state_root = [];
  transactions_root = [];
  receipts_root = [];
  withdrawals_root = none;
  logs_bloom = [];
  number = n;
  requests_hash = none;
  other = [];
}

abbrev input : WitnessInput
input = record {
  state = record {
    state_trie = node (leaf (0x20 ∷ 0x71 ∷ []) (2 ∷ [])) none;
    storage_tries = (0x71 ∷ [], node null none) ∷ [];
  };
  state_anchor = empty_root;
  bytecodes = (9 ∷ []) ∷ [];
  current_header = header_at 5 (4 ∷ []);
  ancestor_headers = header_at 4 (3 ∷ []) ∷ [];
}

abbrev database : TrieDb
database = record {
  inner = input.state;
  block_hashes = (4, 4 ∷ []) ∷ [];
  bytecode_by_hash = (9 ∷ [], 9 ∷ []) ∷ [];
}

returned : witness_db tries external decoders input ≡ ok database
unfolding witness_db hash reference calc_reference get get_internal insert_hash prefix_nibs to_nibs
    beq sub_u64 ℕ_discrete Bytes_discrete
returned = refl

witness_db-Witnessed_example : Witnessed tries external decoders input database
witness_db-Witnessed_example = witness_db-Witnessed tries external decoders input database returned
