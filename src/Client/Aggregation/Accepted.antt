-- ===== src/Client/Aggregation/Accepted.antt =====
-- What `execute_aggregation` of crates/executor/client/src/lib.rs has checked when it returns.
use pico_subblock.Prelude.{
  ℕ, zero, suc, ◌+◌, ◌-◌, ◌≤◌, ◌<◌, ◌≡◌, refl, ap, sym, ◌∙◌, Bool, true, false, not, ◌&&◌, Option,
  none, some, List, [], ◌∷◌, ◌++◌, ◌==◌, ltb, if◌then◌else◌, arith, inl, inr, ◌⊎◌,
}
use pico_subblock.Result.{ok, ◌>>◌, assert_dec}
use pico_subblock.Result.Passed.{
  after_assert_dec, after_check, of_assert, of_assert_dec, ok_injective,
}
use pico_subblock.Client.Block.{
  Bytes, External, Block, BlockHashes, SubblockInput, SubblockOutput, Option_Bytes_discrete,
  Header_discrete, Bodies_discrete, Withdrawals_discrete, BlockHashes_discrete,
}
use pico_subblock.Client.Output.{absorb}
use pico_subblock.Client.Aggregation.{last_gas, set_block_hashes, check_flags, check_block}

-- The first subblock says that it is the first, the last that it is the last, and one in between
-- that it is neither.
abbrev pub FlagsAgree : ℕ → ℕ → SubblockInput → Type 0
FlagsAgree i n input =
    ((1 ≤ i) ⊎ (input.is_first_subblock ≡ true))
    × ((suc i < n) ⊎ (input.is_last_subblock ≡ true))
    × ((i ≡ 0)
        ⊎ (n ≤ suc i)
        ⊎ ((input.is_first_subblock ≡ false) × (input.is_last_subblock ≡ false)))

of_guard : (b x : Bool) → (if b then x else true) ≡ true → (b ≡ false) ⊎ (x ≡ true)
of_guard true x e = inr e
of_guard false x e = inl refl

middle :
    (i n : ℕ) (b c : Bool)
    → ((ltb 0 i && ltb i (n - 1)) ≡ false) ⊎ (not b ≡ true)
    → ((ltb 0 i && ltb i (n - 1)) ≡ false) ⊎ (not c ≡ true)
    → (i ≡ 0) ⊎ (n ≤ suc i) ⊎ ((b ≡ false) × (c ≡ false))
middle i n b c f g = ground arith

pub check_flags-FlagsAgree :
    (i n : ℕ) (input : SubblockInput) → i < n → check_flags i n input ≡ ok tt → FlagsAgree i n input
unfolding check_flags
check_flags-FlagsAgree i n input h e =
    let e4 = after_check _ _ tt e in
    let e3 = after_check _ _ tt e4.0 in
    let e2 = after_check _ _ tt e3.0 in
    let first = of_guard (i == 0) input.is_first_subblock (of_assert _ e2.0) in
    let last = of_guard (i == n - 1) input.is_last_subblock (of_assert _ e2.1) in
    (
      elim first [ inl other ↦ inl (ground arith) | inr flag ↦ inr flag ],
      elim last [ inl other ↦ inl (ground arith) | inr flag ↦ inr flag ],
      middle i n input.is_first_subblock input.is_last_subblock
          (of_guard (ltb 0 i && ltb i (n - 1)) (not input.is_first_subblock) (of_assert _ e3.1))
          (of_guard (ltb 0 i && ltb i (n - 1)) (not input.is_last_subblock) (of_assert _ e4.1)),
    )

-- The subblock is one of the block `main`: the same header, ommers and withdrawals.
abbrev pub IsPartOf : Block → SubblockInput → Type 0
IsPartOf main input =
    (input.current_block.header ≡ main.header)
    × (input.current_block.ommers ≡ main.ommers)
    × (input.current_block.withdrawals ≡ main.withdrawals)

pub check_block-IsPartOf :
    (main : Block) (input : SubblockInput) → check_block main input ≡ ok tt → IsPartOf main input
unfolding check_block
check_block-IsPartOf main input e =
    let header = Header_discrete input.current_block.header main.header in
    let ommers = Bodies_discrete input.current_block.ommers main.ommers in
    let withdrawals = Withdrawals_discrete input.current_block.withdrawals main.withdrawals in
    let requests =
      Option_Bytes_discrete input.current_block.header.requests_hash main.header.requests_hash in
    let e4 =
      after_check (assert_dec header >> assert_dec ommers >> assert_dec withdrawals)
        (assert_dec requests) tt e in
    let e3 =
      after_check (assert_dec header >> assert_dec ommers) (assert_dec withdrawals) tt e4.0 in
    let e2 = after_check (assert_dec header) (assert_dec ommers) tt e3.0 in
    (of_assert_dec header e2.0, of_assert_dec ommers e2.1, of_assert_dec withdrawals e3.1)

pub set_block_hashes-same :
    (i : ℕ) (o : Option BlockHashes) (h : BlockHashes) (r : Option BlockHashes)
    → set_block_hashes i o h ≡ ok r
    → (r ≡ some h) × ((o ≡ none) ⊎ (o ≡ some h))
unfolding set_block_hashes
set_block_hashes-same zero none h r e = (sym (ok_injective e), inl refl)
set_block_hashes-same zero (some k) h r e =
    let a = after_assert_dec (BlockHashes_discrete k h) _ r e in
    (sym (ok_injective a.1) ∙ ap some a.0, inr (ap some a.0))
set_block_hashes-same (suc i) none h r e = absurd (cc)
set_block_hashes-same (suc i) (some k) h r e =
    let a = after_assert_dec (BlockHashes_discrete k h) _ r e in
    (sym (ok_injective a.1) ∙ ap some a.0, inr (ap some a.0))

module _ (ext : External) where
  open ext use {hash_slow, sha256, verify_proof, read_input, read_output, validate}

  -- What is known of one subblock, after the subblocks before it gave `before`.
  pub record Fits (vkey : List ℕ) (i n : ℕ) (main : Block) (hashes : BlockHashes)
      (before : SubblockOutput) (public_value : Bytes) (input : SubblockInput)
      (output : SubblockOutput) : Type 0 where
    pub proved : verify_proof vkey (sha256 public_value) ≡ true
    pub committed :
        (rest left : Bytes) × (read_input public_value ≡ some (input, rest))
        × (read_output rest ≡ some (output, left))
    pub part : IsPartOf main input
    pub flags : FlagsAgree i n input
    pub same_hashes : input.block_hashes ≡ hashes
    pub gas_continues : input.starting_gas_used ≡ last_gas before.receipts
    pub state_continues : output.input_state_root ≡ before.output_state_root

  -- The subblocks, from number `i` of `n`, each fitting to those before it.
  pub data IsChain (vkey : List ℕ) (n : ℕ) (main : Block) (hashes : BlockHashes)
      : ℕ → SubblockOutput → List Bytes → List (SubblockInput × SubblockOutput) → Type 0 where
    end : (i : ℕ) (before : SubblockOutput) → IsChain vkey n main hashes i before [] []
    next :
        (i : ℕ) (before : SubblockOutput) (public_value : Bytes) (values : List Bytes)
        (input : SubblockInput) (output : SubblockOutput)
        (pairs : List (SubblockInput × SubblockOutput))
        → Fits vkey i n main hashes before public_value input output
        → IsChain vkey n main hashes (i + 1) (absorb ext before output) values pairs
        → IsChain vkey n main hashes i before (public_value ∷ values) ((input, output) ∷ pairs)

  -- The outputs taken together, and the transactions.
  abbrev pub combined : SubblockOutput → List (SubblockInput × SubblockOutput) → SubblockOutput
  combined before [] = before
  combined before ((input, output) ∷ pairs) = combined (absorb ext before output) pairs

  abbrev pub all_transactions : List (SubblockInput × SubblockOutput) → List Bytes
  all_transactions [] = []
  all_transactions ((input, output) ∷ pairs) =
      input.current_block.transactions ++ all_transactions pairs
