-- ===== src/Client/Execution/Validated.antt =====
-- crates/executor/client: what `execute_subblock` has done when it returns, and what `validate` of
-- `SubblockHostOutput` has run.
use pico_subblock.Prelude.{ℕ, suc, ◌≡◌, ap, sym, ◌∙◌, subst, Option, some, List, [], ◌∷◌, get_elem?}
use pico_subblock.Result.{Result, ok, err, ◌>>◌, assert_dec, unwrap_ok}
use pico_subblock.Result.Passed.{after_bind, after_check, after_unwrap, ok_injective}
use pico_subblock.Mpt.{B256}
use pico_subblock.State.{
  EthereumState, Account, HashedStorage, Encoders, lookup, update, state_root, after_hash,
}
use pico_subblock.State.Filled.{after_hash-Filled}
use pico_subblock.State.Accounts.{SoundState, Updated, expected_account}
use pico_subblock.Client.Block.{
  Bytes, SubblockInput, SubblockOutput, ClientError, External, Bytes_discrete, zeros,
}
use pico_subblock.Client.Witness.{Decoders, by_hash}
use pico_subblock.Client.Witness.Sound.{of_unwrap_ok}
use pico_subblock.Client.Execution.{
  BlockWithSenders, BlockExecutionOutput, Evm, accrue_blooms, hashed_changes, execute_subblock,
  SubblockOutput_discrete, validate_subblock, validate,
}
use pico_subblock.Client.Execution.Sound.{IsEvm, Changed, update-Changed, after_ok_or}

module _ (tries : pico_subblock.Mpt.Hash.External) (enc : Encoders) (ext : External)
    (decoders : Decoders) (evm : Evm) where
  -- The state after a call of `state_root`.
  abbrev rooted : EthereumState → EthereumState
  rooted state = record {
    state_trie = after_hash tries state.state_trie;
    storage_tries = state.storage_tries;
  }

  rooted-SoundState :
      (state : EthereumState) → SoundState tries enc state → SoundState tries enc (rooted state)
  rooted-SoundState state s =
      let f = after_hash-Filled tries state.state_trie in
      record {
        state_trie = (f.valid s.state_trie.0, f.coherent s.state_trie.1);
        storage = s.storage;
      }

  of_rooted :
      (storages : List (B256 × HashedStorage)) (entries : List (B256 × Option Account))
      (before after : EthereumState)
      → Updated tries enc storages entries (rooted before) after
      → Updated tries enc storages entries before after
  of_rooted storages entries before after u = record {
    sound = u.sound;
    accounts = λ j hj.
        u.accounts j hj
        ∙ ap (expected_account tries enc after j (lookup entries j))
            ((after_hash-Filled tries before.state_trie).reads j);
    slots = u.slots;
    others = u.others;
  }

  -- A subblock that was executed on a part of the state.
  pub record SubblockExecuted (input : SubblockInput) (before : EthereumState)
      (output : SubblockOutput) (after : EthereumState) : Type 0 where
    pub block : BlockWithSenders
    pub result : BlockExecutionOutput
    pub recovered : evm.try_into_recovered input.current_block ≡ some block
    pub executed :
        evm.execute
          (record block {
            is_first_subblock = input.is_first_subblock;
            is_last_subblock = input.is_last_subblock;
            starting_gas_used = input.starting_gas_used;
          })
          (record {
            inner = rooted before;
            block_hashes = input.block_hashes;
            bytecode_by_hash = by_hash tries ext decoders input.bytecodes;
          })
        ≡ ok result
    pub changed : Changed tries enc ext decoders evm result before after
    pub input_root : output.input_state_root ≡ state_root tries before
    pub output_root : output.output_state_root ≡ state_root tries after
    pub bloom :
        output.logs_bloom ≡ accrue_blooms tries enc ext decoders evm (zeros 256) result.receipts
    pub receipts : output.receipts ≡ result.receipts
    pub requests : output.requests ≡ result.requests

  -- When `execute_subblock` returns, the EVM has executed the block, with the flags and the gas of
  -- the subblock, on the state, the block hashes and the bytecodes that were given. The roots of
  -- the output are those of the state before and after, the state after is the state before with
  -- the changes of the EVM less its empty accounts, the bloom is made up of those of all receipts,
  -- and the receipts and the requests are those of the EVM.
  pub execute_subblock-Executed :
      (input : SubblockInput) (before : EthereumState) (output : SubblockOutput)
      (after : EthereumState)
      → IsEvm tries enc ext decoders evm
      → SoundState tries enc before
      → execute_subblock tries enc ext decoders evm input before ≡ ok (output, after)
      → SubblockExecuted input before output after
  unfolding execute_subblock
  execute_subblock-Executed input before output after laws s e =
      let b =
        after_ok_or (evm.try_into_recovered input.current_block)
          ClientError.signature_recovery_failed _ (output, after) e in
      let o = after_bind (evm.execute _ _) _ (output, after) b.2 in
      let u =
        after_bind
          (unwrap_ok
            (update tries enc (rooted before) (hashed_changes tries enc ext decoders evm o.0)))
          _ (output, after) o.2 in
      let same = ok_injective u.2 in
      let out = ap (λ x. x.0) same in
      let state = ap (λ x. x.1) same in
      let changed = of_rooted _ _ before u.0 (
        update-Changed tries enc ext decoders evm o.0 (rooted before) u.0 laws
          (rooted-SoundState before s) (of_unwrap_ok _ u.0 u.1)) in
      record {
        block = b.0;
        result = o.0;
        recovered = b.1;
        executed = o.1;
        changed = subst (Changed tries enc ext decoders evm o.0 before) state changed;
        input_root = sym (ap (λ x. x.input_state_root) out);
        output_root = sym (ap (λ x. x.output_state_root) out) ∙ ap (state_root tries) state;
        bloom = sym (ap (λ x. x.logs_bloom) out);
        receipts = sym (ap (λ x. x.receipts) out);
        requests = sym (ap (λ x. x.requests) out);
      }

  module _ (read_state : Bytes → Option EthereumState) where
    -- The execution of a subblock on its parent state gives its output.
    abbrev pub IsReproduced : SubblockInput → Option Bytes → Option SubblockOutput → Type 0
    IsReproduced input state_bytes output =
        (bytes : Bytes) × (state : EthereumState) × (out : SubblockOutput) × (after : EthereumState)
        × (state_bytes ≡ some bytes)
        × (read_state bytes ≡ some state)
        × (output ≡ some out)
        × (execute_subblock tries enc ext decoders evm input state ≡ ok (out, after))

    -- Each subblock from number `i` on is reproduced, from the state and to the output of its
    -- number.
    abbrev pub AllReproduced : ℕ → List SubblockInput → List Bytes → List SubblockOutput → Type 0
    AllReproduced i [] states outputs = Unit
    AllReproduced i (input ∷ inputs) states outputs =
        IsReproduced input (get_elem? states i) (get_elem? outputs i)
        × AllReproduced (suc i) inputs states outputs

    compared :
        (out expected : SubblockOutput) (d : Dec (out ≡ expected))
        → ◌≡◌ {A = Result ClientError (Unit {0})}
            (elim d [
              | yes same ↦ ok tt
              | no differ ↦
                  (assert_dec (Bytes_discrete out.input_state_root expected.input_state_root)
                    >> assert_dec (Bytes_discrete out.output_state_root expected.output_state_root)
                    >> err ClientError.invalid_subblock_output)
            ])
            (ok tt)
        → out ≡ expected
    compared out expected (yes same) e = same
    compared out expected (no differ) e =
        let a =
          after_check
            (assert_dec (Bytes_discrete out.input_state_root expected.input_state_root)
              >> assert_dec (Bytes_discrete out.output_state_root expected.output_state_root))
            _ tt e in
        absurd (cc (a.1))

    validate_subblock-IsReproduced :
        (input : SubblockInput) (state_bytes : Option Bytes) (expected : Option SubblockOutput)
        → validate_subblock tries enc ext decoders evm read_state input state_bytes expected ≡ ok tt
        → IsReproduced input state_bytes expected
    unfolding validate_subblock
    validate_subblock-IsReproduced input state_bytes expected e =
        let b = after_unwrap state_bytes _ tt e in
        let s = after_unwrap (read_state b.0) _ tt b.2 in
        let r = after_bind (execute_subblock tries enc ext decoders evm input s.0) _ tt s.2 in
        let o = after_unwrap expected _ tt r.2 in
        let same = compared r.0.0 o.0 (SubblockOutput_discrete r.0.0 o.0) o.2 in
        (b.0, s.0, o.0, r.0.1, b.1, s.1, o.1, r.1 ∙ ap (λ x. ok (x, r.0.1)) same)

    -- When `validate` passes, the execution of every subblock, on the parent state of its number,
    -- gives the output of its number.
    pub validate-AllReproduced :
        (i : ℕ) (inputs : List SubblockInput) (states : List Bytes) (outputs : List SubblockOutput)
        → validate tries enc ext decoders evm read_state i inputs states outputs ≡ ok tt
        → AllReproduced i inputs states outputs
    unfolding validate
    validate-AllReproduced i [] states outputs e = tt
    validate-AllReproduced i (input ∷ inputs) states outputs e =
        let a =
          after_check
            (validate_subblock tries enc ext decoders evm read_state input (get_elem? states i)
              (get_elem? outputs i))
            (validate tries enc ext decoders evm read_state (suc i) inputs states outputs) tt e in
        (
          validate_subblock-IsReproduced input (get_elem? states i) (get_elem? outputs i) a.0,
          validate-AllReproduced (suc i) inputs states outputs a.1,
        )
