-- ===== src/RpcDb/Witness/Tests.antt =====
-- crates/storage/rpc-db/src/execution_witness.rs: a witness of one account with one slot, and a
-- subblock that reads them, and an account and a slot that are not there.
use pico_subblock.Prelude.{◌≡◌, refl, none, some, List, [], ◌∷◌, beq}
use pico_subblock.Result.{ok, err}
use pico_subblock.Mpt.{node, leaf}
use pico_subblock.Mpt.Get.{get_internal}
use pico_subblock.Path.{prefix_nibs}
use pico_subblock.State.{TrieAccount}
use pico_subblock.RpcDb.{AccountInfo, empty_state}
use pico_subblock.RpcDb.Reachable.{Read, account, storage}
use pico_subblock.RpcDb.Witness.{ExecutionWitnessRpcDb, trie_witness_error, Calls, block_hash_ref}
use pico_subblock.RpcDb.Witness.Requests.{read_all, Grown, AllAsked, read_all-AllAsked}

abbrev trie_account_1 : TrieAccount
trie_account_1 = record { nonce = 1; balance = 2; storage_root = []; code_hash = 4 ∷ [] }

abbrev absent_info : AccountInfo
absent_info = record { nonce = 0; balance = 0; code_hash = 0 ∷ []; code = some [] }

abbrev calls : Calls
calls = record {
  keccak = λ b. b;
  slot_bytes = λ k. k ∷ [];
  decode_account = λ b. some trie_account_1;
  decode_word = λ b. some 5;
  hash_slow = λ h. [];
  get_code_at = λ a. some (96 ∷ []);
  absent = absent_info;
}

abbrev db : ExecutionWitnessRpcDb
db = record {
  full_state = record {
    state = record {
      state_trie = node (leaf (0x20 ∷ 0x71 ∷ []) (1 ∷ [])) none;
      storage_tries = (0x71 ∷ [], node (leaf (0x20 ∷ 7 ∷ []) (5 ∷ [])) none) ∷ [];
    };
    codes = [];
    ancestor_headers = [];
  };
  subblock_state = empty_state;
  persistent_state = empty_state;
}

abbrev info : AccountInfo
info = record { nonce = 1; balance = 2; code_hash = 4 ∷ []; code = some (96 ∷ []) }

abbrev reads : List Read
reads =
    account (0x71 ∷ []) ∷ storage (0x71 ∷ []) 7 ∷ account (0x72 ∷ []) ∷ storage (0x71 ∷ []) 8 ∷ []

abbrev after : ExecutionWitnessRpcDb
after = record db {
  subblock_state = record {
    accounts = (0x71 ∷ [], info) ∷ (0x72 ∷ [], absent_info) ∷ [];
    storage = (0x71 ∷ [], (7, 5) ∷ (8, 0) ∷ []) ∷ [];
  };
}

run : read_all calls db reads ≡ ok after
unfolding read_all get_internal prefix_nibs beq
run = refl

no_header : block_hash_ref calls db 3 ≡ err trie_witness_error
unfolding block_hash_ref
no_header = refl

read_all-AllAsked_example : AllAsked calls after reads × Grown calls db after
read_all-AllAsked_example = read_all-AllAsked calls reads db after run
