-- ===== src/Client/Witness/Sound.antt =====
-- What `witness_db` of crates/executor/client/src/io.rs has checked.
use pico_subblock.Prelude.{◌+◌, ◌≡◌, ap, sym, ◌∙◌, Option, List, [], ◌∷◌}
use native.Mathlib.Decide.{ℕ_discrete}
use pico_subblock.Prelude.Word.{u64, sub_u64}
use pico_subblock.Result.{Result, ok, err, panic, ◌>>◌, unwrap_ok}
use pico_subblock.Result.Passed.{after_bind, after_check, ok_injective}
use pico_subblock.Client.Block.{Bytes, ClientError, External, Header, BlockHashes, Bytes_discrete}
use pico_subblock.Client.Aggregation.{insert_hash}
use pico_subblock.Client.Aggregation.Sound.{IsLinked, hashes_of}
use pico_subblock.Mpt.{Error, MptNode}
use pico_subblock.Mpt.Hash.{hash}
use pico_subblock.State.{TrieAccount, get_rlp, state_root}
use pico_subblock.Client.Witness.{
  Decoders, WitnessInput, TrieDb, require, storage_root_of, check_storage_tries,
  collect_block_hashes, by_hash, witness_db,
}

pub of_require {ℓ} : {P : Type ℓ} (d : Dec P) (e : ClientError) → require d e ≡ ok tt → P
of_require (yes p) e h = p
of_require (no n) e h = absurd (cc)

pub of_unwrap_ok {ℓ} :
    {A : Type ℓ} (m : Result Error A) (a : A) → unwrap_ok {E' = ClientError} m ≡ ok a → m ≡ ok a
of_unwrap_ok (ok x) a h = ap ok (ok_injective h)
of_unwrap_ok (err e) a h = absurd (cc)
of_unwrap_ok panic a h = absurd (cc)

module _ (tries : pico_subblock.Mpt.Hash.External) (ext : External) (decoders : Decoders) where
  open ext use {hash_slow}
  open decoders use {decode_account}

  -- Each storage trie has the root that the state trie has for its account; where the state trie
  -- has no account, that of the empty trie.
  abbrev pub AreAnchored : MptNode → List (Bytes × MptNode) → Type 0
  AreAnchored state_trie [] = Unit
  AreAnchored state_trie ((hashed_address, storage_trie) ∷ rest) =
      ((account : Option TrieAccount) × (get_rlp decode_account state_trie hashed_address
          ≡ ok account)
        × (storage_root_of account ≡ hash tries storage_trie))
      × AreAnchored state_trie rest

  check_storage_tries-AreAnchored :
      (state_trie : MptNode) (storage : List (Bytes × MptNode))
      → check_storage_tries tries ext decoders state_trie storage ≡ ok tt
      → AreAnchored state_trie storage
  unfolding check_storage_tries
  check_storage_tries-AreAnchored state_trie [] e = tt
  check_storage_tries-AreAnchored state_trie ((address, trie) ∷ rest) e =
      let a = after_bind (unwrap_ok (get_rlp decode_account state_trie address)) _ tt e in
      let same = Bytes_discrete (storage_root_of a.0) (hash tries trie) in
      let b = after_check (require same ClientError.mismatched_storage_root) _ tt a.2 in
      (
        (a.0, of_unwrap_ok _ a.0 a.1, of_require same ClientError.mismatched_storage_root b.0),
        check_storage_tries-AreAnchored state_trie rest b.1,
      )

  collect_block_hashes-IsLinked :
      (child : Header) (ancestors : List Header) (start hashes : BlockHashes)
      → collect_block_hashes tries ext decoders child ancestors start ≡ ok hashes
      → IsLinked ext child ancestors × (hashes ≡ hashes_of ext ancestors start)
  unfolding collect_block_hashes
  collect_block_hashes-IsLinked child [] start hashes e = (tt, sym (ok_injective e))
  collect_block_hashes-IsLinked child (parent ∷ ancestors) start hashes e =
      let number = ℕ_discrete parent.number (sub_u64 child.number 1) in
      let wrong_number =
        ClientError.invalid_header_block_number (u64 (parent.number + 1)) child.number in
      let parent_hash = Bytes_discrete (hash_slow parent) child.parent_hash in
      let wrong_hash =
        ClientError.invalid_header_parent_hash (hash_slow parent) child.parent_hash in
      let a =
        after_check (require number wrong_number >> require parent_hash wrong_hash) _ hashes e in
      let b = after_check (require number wrong_number) (require parent_hash wrong_hash) tt a.0 in
      let same = of_require parent_hash wrong_hash b.1 in
      let rest =
        collect_block_hashes-IsLinked parent ancestors
          (insert_hash ext parent.number child.parent_hash start) hashes a.1 in
      (
        (of_require number wrong_number b.0, same, rest.0),
        rest.1
            ∙ ap (λ h. hashes_of ext ancestors (insert_hash ext parent.number h start)) (sym same),
      )

  -- What is known when `witness_db` has returned `db`.
  pub record Witnessed (input : WitnessInput) (db : TrieDb) : Type 0 where
    pub anchored : input.state_anchor ≡ state_root tries input.state
    pub storage : AreAnchored input.state.state_trie input.state.storage_tries
    pub linked : IsLinked ext input.current_header input.ancestor_headers
    pub built : db ≡ record {
      inner = input.state;
      block_hashes = hashes_of ext input.ancestor_headers [];
      bytecode_by_hash = by_hash tries ext decoders input.bytecodes;
    }

  -- When `witness_db` returns a database, then the state has the root that it must have, each
  -- storage trie has the root that the state trie has for its account, the headers are linked by
  -- number and hash, and the database holds the state, the hashes of the ancestors by number and
  -- the bytecodes by their hashes.
  pub witness_db-Witnessed :
      (input : WitnessInput) (db : TrieDb)
      → witness_db tries ext decoders input ≡ ok db
      → Witnessed input db
  unfolding witness_db
  witness_db-Witnessed input db e =
      let root = Bytes_discrete input.state_anchor (state_root tries input.state) in
      let storage =
        check_storage_tries tries ext decoders input.state.state_trie input.state.storage_tries in
      let a = after_check (require root ClientError.mismatched_state_root >> storage) _ db e in
      let b = after_check (require root ClientError.mismatched_state_root) storage tt a.0 in
      let c =
        after_bind
          (collect_block_hashes tries ext decoders input.current_header input.ancestor_headers []) _
          db a.1 in
      let linked =
        collect_block_hashes-IsLinked input.current_header input.ancestor_headers [] c.0 c.1 in
      record {
        anchored = of_require root ClientError.mismatched_state_root b.0;
        storage =
            check_storage_tries-AreAnchored input.state.state_trie input.state.storage_tries b.1;
        linked = linked.0;
        built =
            sym (ok_injective c.2)
            ∙ ap
                (λ h. record {
                  inner = input.state;
                  block_hashes = h;
                  bytecode_by_hash = by_hash tries ext decoders input.bytecodes;
                })
                linked.1;
      }
