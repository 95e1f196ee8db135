-- ===== src/Client/Witness.antt =====
-- `WitnessInput::witness_db` and the reads of `TrieDB` in crates/executor/client/src/io.rs, on the
-- state of crates/mpt/src/lib.rs.
pub mod Sound
mod Tests
use native.Mathlib.Decide.{ℕ_discrete}
use pico_subblock.Prelude.{
  ℕ, suc, ◌+◌, ◌≡◌, Bool, true, false, Option, none, some, List, [], ◌∷◌, ◌++◌, beq, if◌then◌else◌,
}
use pico_subblock.Prelude.Word.{u64, sub_u64}
use pico_subblock.Result.{Result, ok, err, panic, ◌>>=◌, ◌>>◌, unwrap, unwrap_ok}
use pico_subblock.Client.Block.{Bytes, ClientError, External, Header, BlockHashes, Bytes_discrete}
use pico_subblock.Client.Aggregation.{insert_hash}
use pico_subblock.Mpt.{Error, MptNode}
use pico_subblock.Mpt.Get.{get}
use pico_subblock.Mpt.Hash.{hash, empty_root}
use pico_subblock.State.{EthereumState, TrieAccount, lookup, get_rlp, state_root}

pub record AccountInfo : Type 0 where
  pub balance : ℕ
  pub nonce : ℕ
  pub code_hash : Bytes

-- What a `WitnessInput` provides; the first header is that of the current block.
pub record WitnessInput : Type 0 where
  pub state : EthereumState
  pub state_anchor : Bytes
  pub bytecodes : List Bytes
  pub current_header : Header
  pub ancestor_headers : List Header

pub record TrieDb : Type 0 where
  pub inner : EthereumState
  pub block_hashes : BlockHashes
  pub bytecode_by_hash : List (Bytes × Bytes)

-- alloy_rlp's decoders, and the hash of a bytecode.
pub record Decoders : Type 0 where
  pub decode_account : Bytes → Option TrieAccount
  pub decode_word : Bytes → Option ℕ
  pub code_hash : Bytes → Bytes
  pub be_bytes : ℕ → Bytes

-- `if a != b { return Err(e); }`
abbrev pub require {ℓ} : {P : Type ℓ} → Dec P → ClientError → Result ClientError (Unit {0})
require (yes p) e = ok tt
require (no n) e = err e

unfoldable pub lookup_hash : BlockHashes → ℕ → Option Bytes
lookup_hash [] number = none
lookup_hash ((k, h) ∷ entries) number =
    let rest = lookup_hash entries number in
    elim (ℕ_discrete k number) [ yes _ ↦ some h | no _ ↦ rest ]

abbrev pub storage_root_of : Option TrieAccount → Bytes
storage_root_of none = empty_root
storage_root_of (some account) = account.storage_root

abbrev pub account_info : TrieAccount → AccountInfo
account_info account = record {
  balance = account.balance;
  nonce = account.nonce;
  code_hash = account.code_hash;
}

module _ (tries : pico_subblock.Mpt.Hash.External) (ext : External) (decoders : Decoders) where
  open ext use {hash_slow}
  open decoders use {decode_account, decode_word, code_hash, be_bytes}

  -- The loop over the storage tries.
  unfoldable pub check_storage_tries :
      MptNode → List (Bytes × MptNode) → Result ClientError (Unit {0})
  unfolding get_rlp
  check_storage_tries state_trie [] = ok tt
  check_storage_tries state_trie ((hashed_address, storage_trie) ∷ rest) = do
    account ← unwrap_ok (get_rlp decode_account state_trie hashed_address)
    require (Bytes_discrete (storage_root_of account) (hash tries storage_trie))
          ClientError.mismatched_storage_root
        >> check_storage_tries state_trie rest

  -- The loop over the pairs of neighbours in the list of headers.
  unfoldable pub collect_block_hashes :
      Header → List Header → BlockHashes → Result ClientError BlockHashes
  collect_block_hashes child [] hashes = ok hashes
  collect_block_hashes child (parent ∷ ancestors) hashes =
      require (ℕ_discrete parent.number (sub_u64 child.number 1))
        (ClientError.invalid_header_block_number (u64 (parent.number + 1)) child.number)
      >> require (Bytes_discrete (hash_slow parent) child.parent_hash)
          (ClientError.invalid_header_parent_hash (hash_slow parent) child.parent_hash)
      >> collect_block_hashes parent ancestors
          (insert_hash ext parent.number child.parent_hash hashes)

  -- Collected into a map: of two entries with one key the later counts, so later ones stand first.
  unfoldable pub by_hash : List Bytes → List (Bytes × Bytes)
  by_hash [] = []
  by_hash (code ∷ codes) = by_hash codes ++ ((code_hash code, code) ∷ [])

  unfoldable pub witness_db : WitnessInput → Result ClientError TrieDb
  unfolding state_root check_storage_tries collect_block_hashes by_hash
  witness_db input =
      require (Bytes_discrete input.state_anchor (state_root tries input.state))
        ClientError.mismatched_state_root
      >> check_storage_tries input.state.state_trie input.state.storage_tries
      >> (do
        block_hashes ← collect_block_hashes input.current_header input.ancestor_headers []
        ok (record {
          inner = input.state;
          block_hashes = block_hashes;
          bytecode_by_hash = by_hash input.bytecodes;
        }))

  -- `DatabaseRef for TrieDB`; `expect` and `unwrap` panic.
  unfoldable pub basic_ref : TrieDb → Bytes → Result ClientError (Option AccountInfo)
  unfolding get_rlp
  basic_ref db address = do
    account ← unwrap_ok (get_rlp decode_account db.inner.state_trie (tries.keccak address))
    ok (elim account [ none ↦ none | some a ↦ some (account_info a) ])

  unfoldable pub code_by_hash_ref : TrieDb → Bytes → Result ClientError Bytes
  unfolding lookup
  code_by_hash_ref db h = unwrap (lookup db.bytecode_by_hash h)

  unfoldable pub storage_ref : TrieDb → Bytes → ℕ → Result ClientError ℕ
  unfolding lookup get_rlp
  storage_ref db address slot = do
    storage_trie ← unwrap (lookup db.inner.storage_tries (tries.keccak address))
    value ← unwrap_ok (get_rlp decode_word storage_trie (tries.keccak (be_bytes slot)))
    ok (elim value [ none ↦ 0 | some v ↦ v ])

  unfoldable pub block_hash_ref : TrieDb → ℕ → Result ClientError Bytes
  unfolding lookup_hash
  block_hash_ref db number = unwrap (lookup_hash db.block_hashes number)
