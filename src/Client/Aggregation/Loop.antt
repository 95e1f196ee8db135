-- ===== src/Client/Aggregation/Loop.antt =====
-- The loop of `execute_aggregation` of crates/executor/client/src/lib.rs.
use mathlib.Core.List.{append_assoc, append-nil}
use native.Mathlib.Decide.{ℕ_discrete}
use pico_subblock.Prelude.{
  ℕ, ◌+◌, ◌<◌, ◌≡◌, refl, ap, sym, ◌∙◌, true, Option, none, some, List, [], ◌∷◌, ◌++◌, length,
  arith, inl, inr, ◌⊎◌,
}
use pico_subblock.Result.{ok, ◌>>◌, assert_dec}
use pico_subblock.Result.Passed.{
  after_assert, after_assert_dec, after_bind, after_unwrap, after_check, of_assert_dec,
  ok_injective,
}
use pico_subblock.Client.Block.{
  Bytes, External, Block, BlockHashes, SubblockInput, SubblockOutput, Bytes_discrete,
}
use pico_subblock.Client.Output.{absorb, extend}
use pico_subblock.Client.Aggregation.{
  Progress, last_gas, set_block_hashes, check_flags, check_block, take_subblock, aggregate,
}
use pico_subblock.Client.Aggregation.Accepted.{
  IsChain, end, next, Fits, combined, all_transactions, check_flags-FlagsAgree,
  check_block-IsPartOf, set_block_hashes-same,
}

module _ (ext : External) where
  open ext use {sha256, verify_proof, read_input, read_output}

  abbrev advanced : Progress → SubblockInput → SubblockOutput → Progress
  advanced p input output = record {
    cumulative_state_diff = absorb ext p.cumulative_state_diff output;
    transaction_body = p.transaction_body ++ input.current_block.transactions;
    block_hashes = some input.block_hashes;
  }

  -- A subblock that was taken fits, and the progress takes it in.
  pub record Taken (vkey : List ℕ) (i n : ℕ) (main : Block) (p : Progress) (public_value : Bytes)
      (input : SubblockInput) (q : Progress) : Type 0 where
    pub output : SubblockOutput
    pub fits :
        Fits ext vkey i n main input.block_hashes p.cumulative_state_diff public_value input output
    pub reaches : q ≡ advanced p input output
    pub hashes : (p.block_hashes ≡ none) ⊎ (p.block_hashes ≡ some input.block_hashes)

  extend-absorb :
      (self other r : SubblockOutput)
      → extend ext self other ≡ ok r
      → (other.input_state_root ≡ self.output_state_root) × (r ≡ absorb ext self other)
  unfolding extend
  extend-absorb self other r e =
      let a =
        after_assert_dec (Bytes_discrete self.output_state_root other.input_state_root)
          (ok (absorb ext self other)) r e in
      (sym a.0, sym (ok_injective a.1))

  take_subblock-Taken :
      (vkey : List ℕ) (i n : ℕ) (main : Block) (p : Progress) (public_value rest : Bytes)
      (input : SubblockInput) (q : Progress)
      → i < n
      → verify_proof vkey (sha256 public_value) ≡ true
      → read_input public_value ≡ some (input, rest)
      → take_subblock ext i n main p input rest ≡ ok q
      → Taken vkey i n main p public_value input q
  unfolding take_subblock
  take_subblock-Taken vkey i n main p public_value rest input q lt v c e =
      let h = after_bind (set_block_hashes i p.block_hashes input.block_hashes) _ q e in
      let same = set_block_hashes-same i p.block_hashes input.block_hashes h.0 h.1 in
      let gas = ℕ_discrete input.starting_gas_used (last_gas p.cumulative_state_diff.receipts) in
      let checks = assert_dec gas >> check_flags i n input >> check_block main input in
      let a = after_check checks _ q h.2 in
      let b =
        after_check (assert_dec gas >> check_flags i n input) (check_block main input) tt a.0 in
      let f = after_check (assert_dec gas) (check_flags i n input) tt b.0 in
      let o = after_unwrap (read_output rest) _ q a.1 in
      let x = after_bind (extend ext p.cumulative_state_diff o.0.0) _ q o.2 in
      let taken = extend-absorb p.cumulative_state_diff o.0.0 x.0 x.1 in
      record {
        output = o.0.0;
        fits = record {
          proved = v;
          committed = (rest, o.0.1, c, o.1);
          part = check_block-IsPartOf main input b.1;
          flags = check_flags-FlagsAgree i n input lt f.1;
          same_hashes = refl;
          gas_continues = of_assert_dec gas f.0;
          state_continues = taken.0;
        };
        reaches =
            let made : q ≡ record {
              cumulative_state_diff = x.0;
              transaction_body = p.transaction_body ++ input.current_block.transactions;
              block_hashes = h.0;
            } =
              sym (ok_injective x.2) in
            rw (taken.1, same.0) at made;
        hashes = same.1;
      }

  -- The loop that started from `p` with the block hashes `hashes`.
  pub record Went (vkey : List ℕ) (i n : ℕ) (main : Block) (values : List Bytes) (p : Progress)
      (hashes : BlockHashes) (q : Progress) : Type 0 where
    pub pairs : List (SubblockInput × SubblockOutput)
    pub chain : IsChain ext vkey n main hashes i p.cumulative_state_diff values pairs
    pub cumulative : q.cumulative_state_diff ≡ combined ext p.cumulative_state_diff pairs
    pub body : q.transaction_body ≡ p.transaction_body ++ all_transactions ext pairs
    pub hashes_kept : q.block_hashes ≡ some hashes

  go_on :
      (vkey : List ℕ) (i n : ℕ) (main : Block) (v : Bytes) (values : List Bytes) (p t q : Progress)
      (hashes : BlockHashes) (input : SubblockInput)
      → Taken vkey i n main p v input t
      → input.block_hashes ≡ hashes
      → Went vkey (i + 1) n main values t hashes q
      → Went vkey i n main (v ∷ values) p hashes q
  go_on vkey i n main v values p t q hashes input taken same rest =
      let w : Went vkey (i + 1) n main values (advanced p input taken.output) hashes q =
        rw taken.reaches at rest in
      let f = taken.fits in
      record {
        pairs = (input, taken.output) ∷ w.pairs;
        chain =
            next i p.cumulative_state_diff v values input taken.output w.pairs
              (record {
                proved = f.proved;
                committed = f.committed;
                part = f.part;
                flags = f.flags;
                same_hashes = same;
                gas_continues = f.gas_continues;
                state_continues = f.state_continues;
              })
              w.chain;
        cumulative = w.cumulative;
        body =
            w.body
            ∙ append_assoc p.transaction_body input.current_block.transactions
                (all_transactions ext w.pairs);
        hashes_kept = w.hashes_kept;
      }

  same_hashes :
      (o : Option BlockHashes) (h k : BlockHashes) → o ≡ some h → (o ≡ none) ⊎ (o ≡ some k) → k ≡ h
  same_hashes o h k e (inl missing) = absurd (cc)
  same_hashes o h k e (inr present) = let x : some h ≡ some k = sym e ∙ present in cc (x)

  went :
      (vkey : List ℕ) (i n : ℕ) (main : Block) (values : List Bytes) (p : Progress)
      (hashes : BlockHashes) (q : Progress)
      → i + length values ≡ n
      → p.block_hashes ≡ some hashes
      → aggregate ext vkey i n main values p ≡ ok q
      → Went vkey i n main values p hashes q
  unfolding aggregate
  went vkey i n main [] p hashes q len same e =
      let here : p ≡ q = ok_injective e in
      record {
        pairs = [];
        chain = end i p.cumulative_state_diff;
        cumulative = ap (λ x. x.cumulative_state_diff) (sym here);
        body = ap (λ x. x.transaction_body) (sym here) ∙ sym (append-nil p.transaction_body);
        hashes_kept = ap (λ x. x.block_hashes) (sym here) ∙ same;
      }
  went vkey i n main (v ∷ values) p hashes q len same e =
      let a = after_assert (verify_proof vkey (sha256 v)) _ q e in
      let r = after_unwrap (read_input v) _ q a.1 in
      let t = after_bind (take_subblock ext i n main p r.0.0 r.0.1) _ q r.2 in
      let taken =
        take_subblock-Taken vkey i n main p v r.0.1 r.0.0 t.0 (omega (arith, len)) a.0 r.1 t.1 in
      let kept = same_hashes p.block_hashes hashes r.0.0.block_hashes same taken.hashes in
      go_on vkey i n main v values p t.0 q hashes r.0.0 taken kept (
        went vkey (i + 1) n main values t.0 hashes q (omega (arith, len))
          (ap (λ x. x.block_hashes) taken.reaches ∙ ap some kept) t.2)

  -- The whole loop, on at least one public value.
  pub aggregate-Went :
      (vkey : List ℕ) (main : Block) (v : Bytes) (values : List Bytes) (p q : Progress)
      → p.block_hashes ≡ none
      → aggregate ext vkey 0 (length (v ∷ values)) main (v ∷ values) p ≡ ok q
      → (hashes : BlockHashes) × Went vkey 0 (length (v ∷ values)) main (v ∷ values) p hashes q
  unfolding aggregate
  aggregate-Went vkey main v values p q none_yet e =
      let n = length (v ∷ values) in
      let a = after_assert (verify_proof vkey (sha256 v)) _ q e in
      let r = after_unwrap (read_input v) _ q a.1 in
      let t = after_bind (take_subblock ext 0 n main p r.0.0 r.0.1) _ q r.2 in
      let taken = take_subblock-Taken vkey 0 n main p v r.0.1 r.0.0 t.0 (omega arith) a.0 r.1 t.1 in
      (
        r.0.0.block_hashes,
        go_on vkey 0 n main v values p t.0 q r.0.0.block_hashes r.0.0 taken refl (
            went vkey (0 + 1) n main values t.0 r.0.0.block_hashes q (omega arith)
              (ap (λ x. x.block_hashes) taken.reaches) t.2),
      )
