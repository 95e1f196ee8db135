-- ===== src/Client/Aggregation.antt =====
-- `execute_aggregation` of crates/executor/client/src/lib.rs.
pub mod Accepted
pub mod Loop
pub mod Sound
use native.Mathlib.Decide.{ℕ_discrete}
use pico_subblock.Prelude.{
  ℕ, zero, suc, ◌+◌, ◌-◌, Bool, true, false, not, Option, none, some, List, [], ◌∷◌, ◌++◌, map,
  ◌&&◌, ◌==◌, ltb, if◌then◌else◌, length,
}
use pico_subblock.Prelude.Word.{sub_u64}
use pico_subblock.Result.{Result, ok, err, panic, ◌>>=◌, ◌>>◌, assert, assert_dec, unwrap}
use pico_subblock.Client.Block.{
  Bytes, ClientError, External, Header, Block, Receipt, BlockHashes, SubblockInput, SubblockOutput,
  AggregationInput, Bytes_discrete, Option_Bytes_discrete, Header_discrete, Bodies_discrete,
  Withdrawals_discrete, BlockHashes_discrete, zeros,
}
use pico_subblock.Client.Output.{extend, merge_requests}

-- The variables of the loop.
pub record Progress : Type 0 where
  pub cumulative_state_diff : SubblockOutput
  pub transaction_body : List Bytes
  pub block_hashes : Option BlockHashes

-- `receipts.last().map(|r| r.cumulative_gas_used).unwrap_or(0)`
unfoldable pub last_gas : List Receipt → ℕ
last_gas [] = 0
last_gas (r ∷ []) = r.cumulative_gas_used
last_gas (r ∷ s ∷ rs) = last_gas (s ∷ rs)

-- The first subblock sets the block hashes, the others must agree.
unfoldable pub set_block_hashes :
    ℕ → Option BlockHashes → BlockHashes → Result ClientError (Option BlockHashes)
set_block_hashes zero none hashes = ok (some hashes)
set_block_hashes zero (some h) hashes = assert_dec (BlockHashes_discrete h hashes) >> ok (some h)
set_block_hashes (suc i) none hashes = panic
set_block_hashes (suc i) (some h) hashes = assert_dec (BlockHashes_discrete h hashes) >> ok (some h)

-- The flags of subblock `i` of `n`.
unfoldable pub check_flags : ℕ → ℕ → SubblockInput → Result ClientError (Unit {0})
check_flags i n input =
    assert (if i == 0 then input.is_first_subblock else true)
    >> assert (if i == n - 1 then input.is_last_subblock else true)
    >> assert (if ltb 0 i && ltb i (n - 1) then not input.is_first_subblock else true)
    >> assert (if ltb 0 i && ltb i (n - 1) then not input.is_last_subblock else true)

-- The subblock belongs to the block.
unfoldable pub check_block : Block → SubblockInput → Result ClientError (Unit {0})
check_block main input =
    assert_dec (Header_discrete input.current_block.header main.header)
    >> assert_dec (Bodies_discrete input.current_block.ommers main.ommers)
    >> assert_dec (Withdrawals_discrete input.current_block.withdrawals main.withdrawals)
    >> assert_dec
        (Option_Bytes_discrete input.current_block.header.requests_hash main.header.requests_hash)

module _ (ext : External) where
  open ext use {hash_slow, sha256, verify_proof, read_input, read_output, validate}

  unfoldable pub take_subblock :
      ℕ → ℕ → Block → Progress → SubblockInput → Bytes → Result ClientError Progress
  unfolding set_block_hashes last_gas check_flags check_block
  take_subblock i n main p input rest = do
    hashes ← set_block_hashes i p.block_hashes input.block_hashes
    assert_dec (ℕ_discrete input.starting_gas_used (last_gas p.cumulative_state_diff.receipts))
        >> check_flags i n input
        >> check_block main input
        >> (do
          output ← unwrap (read_output rest)
          cumulative ← extend ext p.cumulative_state_diff output.0
          ok (record {
            cumulative_state_diff = cumulative;
            transaction_body = p.transaction_body ++ input.current_block.transactions;
            block_hashes = hashes;
          }))

  -- The loop over the public values, from index `i` of `n`. The proof is checked in the virtual
  -- machine.
  unfoldable pub aggregate :
      List ℕ → ℕ → ℕ → Block → List Bytes → Progress → Result ClientError Progress
  unfolding take_subblock
  aggregate vkey i n main [] p = ok p
  aggregate vkey i n main (public_value ∷ values) p =
      assert (verify_proof vkey (sha256 public_value)) >> (do
        input ← unwrap (read_input public_value)
        p' ← take_subblock i n main p input.0 input.1
        aggregate vkey (i + 1) n main values p')

  -- `BTreeMap::insert`
  unfoldable pub insert_hash : ℕ → Bytes → BlockHashes → BlockHashes
  insert_hash k v [] = (k, v) ∷ []
  insert_hash k v ((j, w) ∷ rest) =
      let later = insert_hash k v rest in
      if ltb k j then (k, v) ∷ (j, w) ∷ rest else if k == j then (k, v) ∷ rest else (j, w) ∷ later

  -- The loop over the pairs of neighbours in the list of headers.
  unfoldable pub link : Header → List Header → BlockHashes → Result ClientError BlockHashes
  unfolding insert_hash
  link child [] hashes = ok hashes
  link child (parent ∷ ancestors) hashes =
      assert (parent.number == sub_u64 child.number 1)
      >> assert_dec (Bytes_discrete (hash_slow parent) child.parent_hash)
      >> link parent ancestors (insert_hash parent.number (hash_slow parent) hashes)

  -- `&self.ancestor_headers[0]`
  unfoldable pub parent_header : List Header → Result ClientError Header
  parent_header [] = panic
  parent_header (h ∷ hs) = ok h

  unfoldable pub derive_header : Block → Header → Bytes → Header
  derive_header main parent logs_bloom = record {
    parent_hash = hash_slow parent;
    ommers_hash = ext.ommers_root main.ommers;
    state_root = main.header.state_root;
    transactions_root = ext.transaction_root main.transactions;
    receipts_root = main.header.receipts_root;
    withdrawals_root = elim main.withdrawals [
      | none ↦ none
      | some w ↦ some (ext.withdrawals_root w)
    ];
    logs_bloom = logs_bloom;
    number = main.header.number;
    requests_hash = main.header.requests_hash;
    other = main.header.other;
  }

  -- After the loop.
  unfoldable pub conclude : AggregationInput → Progress → Result ClientError Header
  unfolding link parent_header derive_header
  conclude input p = do
    total ← merge_requests p.cumulative_state_diff
    hashes ← link input.current_block.header input.ancestor_headers []
    expected ← unwrap p.block_hashes
    assert_dec (BlockHashes_discrete hashes expected)
        >> assert_dec (Bodies_discrete p.transaction_body input.current_block.transactions)
        >> assert_dec (Bytes_discrete total.logs_bloom input.current_block.header.logs_bloom)
        >> assert (validate input.current_block.header total.receipts total.requests)
        >> assert_dec (Bytes_discrete total.output_state_root input.current_block.header.state_root)
        >> (do
          parent ← parent_header input.ancestor_headers
          ok (derive_header input.current_block parent total.logs_bloom))

  -- `SubblockOutput { output_state_root: parent_state_root, ..Default::default() }`
  abbrev pub initial : Bytes → Progress
  initial parent_state_root = record {
    cumulative_state_diff = record {
      input_state_root = zeros 32;
      output_state_root = parent_state_root;
      logs_bloom = zeros 256;
      receipts = [];
      requests = [];
    };
    transaction_body = [];
    block_hashes = none;
  }

  unfoldable pub execute_aggregation :
      List Bytes → List ℕ → AggregationInput → Bytes → Result ClientError Header
  unfolding aggregate conclude
  execute_aggregation public_values vkey input parent_state_root = do
    p ←
        aggregate vkey 0 (length public_values) input.current_block public_values
          (initial parent_state_root)
    conclude input p
