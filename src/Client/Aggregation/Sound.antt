-- ===== src/Client/Aggregation/Sound.antt =====
-- `execute_aggregation` of crates/executor/client/src/lib.rs: what a header that it returns stands
-- for.
use pico_subblock.Prelude.{
  ℕ, ◌≤◌, ◌≡◌, refl, ap, sym, ◌∙◌, true, some, List, [], ◌∷◌, length, arith, ◌==◌, ==_iff,
}
use pico_subblock.Prelude.Word.{sub_u64}
use pico_subblock.Result.{ok, ◌>>◌, assert, assert_dec}
use pico_subblock.Result.Passed.{
  after_bind, after_unwrap, after_check, of_assert, of_assert_dec, ok_injective,
}
use pico_subblock.Client.Block.{
  Bytes, External, Header, BlockHashes, SubblockInput, SubblockOutput, AggregationInput,
  Bytes_discrete, Bodies_discrete, BlockHashes_discrete,
}
use pico_subblock.Client.Output.{merge_requests}
use pico_subblock.Client.Aggregation.{
  Progress, aggregate, insert_hash, link, parent_header, derive_header, conclude, initial,
  execute_aggregation,
}
use pico_subblock.Client.Aggregation.Accepted.{IsChain, combined, all_transactions}
use pico_subblock.Client.Aggregation.Loop.{aggregate-Went}

module _ (ext : External) where
  open ext use {hash_slow, validate}

  -- Each header is the parent of the one before it, by number and by hash.
  abbrev pub IsLinked : Header → List Header → Type 0
  IsLinked child [] = Unit
  IsLinked child (parent ∷ ancestors) =
      (parent.number ≡ sub_u64 child.number 1)
      × (hash_slow parent ≡ child.parent_hash)
      × IsLinked parent ancestors

  -- The hashes of the ancestors by number.
  abbrev pub hashes_of : List Header → BlockHashes → BlockHashes
  hashes_of [] hashes = hashes
  hashes_of (h ∷ ancestors) hashes =
      hashes_of ancestors (insert_hash ext h.number (hash_slow h) hashes)

  link-IsLinked :
      (child : Header) (ancestors : List Header) (start hashes : BlockHashes)
      → link ext child ancestors start ≡ ok hashes
      → IsLinked child ancestors × (hashes ≡ hashes_of ancestors start)
  unfolding link
  link-IsLinked child [] start hashes e = (tt, sym (ok_injective e))
  link-IsLinked child (parent ∷ ancestors) start hashes e =
      let number = assert (parent.number == sub_u64 child.number 1) in
      let parent_hash = Bytes_discrete (hash_slow parent) child.parent_hash in
      let a = after_check (number >> assert_dec parent_hash) _ hashes e in
      let b = after_check number (assert_dec parent_hash) tt a.0 in
      let rest =
        link-IsLinked parent ancestors (insert_hash ext parent.number (hash_slow parent) start)
          hashes a.1 in
      (((==_iff _ _).0 (of_assert _ b.0), of_assert_dec parent_hash b.1, rest.0), rest.1)

  -- What is known when the call has returned `header`.
  pub record Accepted (public_values : List Bytes) (vkey : List ℕ) (input : AggregationInput)
      (parent_state_root : Bytes) (header : Header) : Type 0 where
    pub pairs : List (SubblockInput × SubblockOutput)
    pub some_subblock : 1 ≤ length public_values
    pub chain :
        IsChain ext vkey
          (length public_values)
          input.current_block
          (hashes_of input.ancestor_headers [])
          0
          (initial ext parent_state_root).cumulative_state_diff
          public_values
          pairs
    pub transactions : all_transactions ext pairs ≡ input.current_block.transactions
    pub linked : IsLinked input.current_block.header input.ancestor_headers
    pub merged : SubblockOutput
    pub merges :
        merge_requests (combined ext (initial ext parent_state_root).cumulative_state_diff pairs)
        ≡ ok merged
    pub bloom : merged.logs_bloom ≡ input.current_block.header.logs_bloom
    pub valid : validate input.current_block.header merged.receipts merged.requests ≡ true
    pub final_state : merged.output_state_root ≡ input.current_block.header.state_root
    pub same_parent : header.parent_hash ≡ input.current_block.header.parent_hash
    pub same_state : header.state_root ≡ input.current_block.header.state_root
    pub same_number : header.number ≡ input.current_block.header.number
    pub transactions_root :
        header.transactions_root ≡ ext.transaction_root input.current_block.transactions

  -- After the loop.
  record Concluded (input : AggregationInput) (p : Progress) (header : Header) : Type 0 where
    hashes : p.block_hashes ≡ some (hashes_of input.ancestor_headers [])
    body : p.transaction_body ≡ input.current_block.transactions
    linked : IsLinked input.current_block.header input.ancestor_headers
    merged : SubblockOutput
    merges : merge_requests p.cumulative_state_diff ≡ ok merged
    bloom : merged.logs_bloom ≡ input.current_block.header.logs_bloom
    valid : validate input.current_block.header merged.receipts merged.requests ≡ true
    final_state : merged.output_state_root ≡ input.current_block.header.state_root
    parent : Header
    parent_hash : hash_slow parent ≡ input.current_block.header.parent_hash
    derived : header ≡ derive_header ext input.current_block parent merged.logs_bloom

  parent-IsLinked :
      (child : Header) (ancestors : List Header) (parent : Header)
      → IsLinked child ancestors
      → parent_header ext ancestors ≡ ok parent
      → hash_slow parent ≡ child.parent_hash
  unfolding parent_header
  parent-IsLinked child [] parent l e = absurd (cc)
  parent-IsLinked child (h ∷ hs) parent l e =
      let same : h ≡ parent = ok_injective e in rw (← same) l.1

  conclude-Concluded :
      (input : AggregationInput) (p : Progress) (header : Header)
      → conclude ext input p ≡ ok header
      → Concluded input p header
  unfolding conclude
  conclude-Concluded input p header e =
      let m = after_bind (merge_requests p.cumulative_state_diff) _ header e in
      let l =
        after_bind (link ext input.current_block.header input.ancestor_headers []) _ header m.2 in
      let x = after_unwrap p.block_hashes _ header l.2 in
      let linked = link-IsLinked input.current_block.header input.ancestor_headers [] l.0 l.1 in
      let same = BlockHashes_discrete l.0 x.0 in
      let body = Bodies_discrete p.transaction_body input.current_block.transactions in
      let bloom = Bytes_discrete m.0.logs_bloom input.current_block.header.logs_bloom in
      let valid = validate input.current_block.header m.0.receipts m.0.requests in
      let root = Bytes_discrete m.0.output_state_root input.current_block.header.state_root in
      let c1 = assert_dec same in
      let c2 = c1 >> assert_dec body in
      let c3 = c2 >> assert_dec bloom in
      let c4 = c3 >> assert valid in
      let a5 = after_check (c4 >> assert_dec root) _ header x.2 in
      let a4 = after_check c4 (assert_dec root) tt a5.0 in
      let a3 = after_check c3 (assert valid) tt a4.0 in
      let a2 = after_check c2 (assert_dec bloom) tt a3.0 in
      let a1 = after_check c1 (assert_dec body) tt a2.0 in
      let parent = after_bind (parent_header ext input.ancestor_headers) _ header a5.1 in
      record {
        hashes = x.1 ∙ ap some (sym (of_assert_dec same a1.0) ∙ linked.1);
        body = of_assert_dec body a1.1;
        linked = linked.0;
        merged = m.0;
        merges = m.1;
        bloom = of_assert_dec bloom a2.1;
        valid = of_assert valid a3.1;
        final_state = of_assert_dec root a4.1;
        parent = parent.0;
        parent_hash =
            parent-IsLinked input.current_block.header input.ancestor_headers parent.0 linked.0
              parent.1;
        derived = sym (ok_injective parent.2);
      }

  -- When the call returns a header, then there was at least one subblock, and the public values are
  -- the commitments of a chain of subblocks of the block: each is proved, is part of the block,
  -- starts from the state root and the gas that the ones before it reached, the first from the
  -- parent's state root, carries the hashes of the given ancestors, and has the flags of its place;
  -- their transactions together are those of the block; the ancestors are linked by number and
  -- hash; the consensus checks accept the receipts and the merged requests; the state root and the
  -- bloom that are reached are those of the block, and the header has the parent hash, the state
  -- root and the number of the block.
  pub execute_aggregation-Accepted :
      (public_values : List Bytes) (vkey : List ℕ) (input : AggregationInput)
      (parent_state_root : Bytes) (header : Header)
      → execute_aggregation ext public_values vkey input parent_state_root ≡ ok header
      → Accepted public_values vkey input parent_state_root header
  unfolding execute_aggregation aggregate derive_header
  execute_aggregation-Accepted [] vkey input parent_state_root header e =
      let c = conclude-Concluded input (initial ext parent_state_root) header e in
      absurd (cc (c.hashes))
  execute_aggregation-Accepted (v ∷ values) vkey input parent_state_root header e =
      let start = initial ext parent_state_root in
      let a =
        after_bind
          (aggregate ext vkey 0 (length (v ∷ values)) input.current_block (v ∷ values) start) _
          header e in
      let c = conclude-Concluded input a.0 header a.2 in
      let w = aggregate-Went ext vkey input.current_block v values start a.0 refl a.1 in
      let hashes : w.0 ≡ hashes_of input.ancestor_headers [] =
        let x : some w.0 ≡ some (hashes_of input.ancestor_headers []) =
          sym w.1.hashes_kept ∙ c.hashes in
        cc (x) in
      record {
        pairs = w.1.pairs;
        some_subblock = omega arith;
        chain = rw hashes at w.1.chain;
        transactions = sym w.1.body ∙ c.body;
        linked = c.linked;
        merged = c.merged;
        merges = ap merge_requests (sym w.1.cumulative) ∙ c.merges;
        bloom = c.bloom;
        valid = c.valid;
        final_state = c.final_state;
        same_parent = ap (λ h. h.parent_hash) c.derived ∙ c.parent_hash;
        same_state = ap (λ h. h.state_root) c.derived;
        same_number = ap (λ h. h.number) c.derived;
        transactions_root = ap (λ h. h.transactions_root) c.derived;
      }
