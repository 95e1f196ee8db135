-- ===== src/Client/Execution/Sound.antt =====
-- crates/executor/client/src/lib.rs: what `execute` and `execute_subblock` have done when they
-- return.
use pico_subblock.Prelude.{
  ◌≡◌, refl, ap, sym, ◌∙◌, get_elem?, Bool, true, false, Option, none, some, List, [], ◌∷◌, beq,
  Bool-cases, inl, inr,
}
use pico_subblock.Result.{Result, ok, err, panic, ◌>>=◌, unwrap, unwrap_ok}
use pico_subblock.Result.Passed.{after_bind, after_check, ok_injective}
use pico_subblock.Mpt.{B256, Error}
use pico_subblock.State.{
  EthereumState, Account, HashedStorage, HashedPostState, Encoders, lookup, update, state_root,
}
use pico_subblock.State.Slots.{IsEncoder}
use pico_subblock.State.Accounts.{AreDistinct, AreKeys, SoundState, Updated}
use pico_subblock.State.Update.{update-Updated}
use pico_subblock.Client.Block.{Bytes, Header, ClientError, External, Bytes_discrete}
use pico_subblock.Client.Witness.{TrieDb, Decoders, require, witness_db}
use pico_subblock.Client.Witness.Sound.{Witnessed, witness_db-Witnessed, of_require, of_unwrap_ok}
use pico_subblock.Client.Execution.{
  ClientExecutorInput, BlockWithSenders, BlockExecutionOutput, Evm, ok_or, check, retain,
  hashed_changes, parent_header, witness_input, execute,
}

-- The changes that the EVM's bundle gives: one entry for each address, and keys of bytes.
abbrev pub IsPostState : HashedPostState → Type 0
IsPostState p = AreDistinct p.accounts × AreKeys p.storages p.accounts

module _ (is_empty : Account → Bool) where
  lookup-retain :
      (accounts : List (B256 × Option Account)) (address : B256)
      → lookup accounts address ≡ none
      → lookup (retain is_empty accounts) address ≡ none
  unfolding lookup retain
  lookup-retain [] address e = refl
  lookup-retain ((a, none) ∷ accounts) address e = elim (Bool-cases (beq a address)) [
    | inl same ↦ let e' = rw same at e in absurd (cc)
    | inr other ↦ let e' = rw other at e in rw other (lookup-retain accounts address e')
  ]
  lookup-retain ((a, some account) ∷ accounts) address e = elim (Bool-cases (beq a address)) [
    | inl same ↦ let e' = rw same at e in absurd (cc)
    | inr other ↦
        let e' = rw other at e in
        elim (Bool-cases (is_empty account)) [
          | inl empty ↦ rw empty (lookup-retain accounts address e')
          | inr kept ↦ rw (kept, other) (lookup-retain accounts address e')
        ]
  ]

  retain-AreDistinct :
      (accounts : List (B256 × Option Account))
      → AreDistinct accounts
      → AreDistinct (retain is_empty accounts)
  unfolding retain
  retain-AreDistinct [] h = tt
  retain-AreDistinct ((a, none) ∷ accounts) h =
      (lookup-retain accounts a h.0, retain-AreDistinct accounts h.1)
  retain-AreDistinct ((a, some account) ∷ accounts) h = elim (Bool-cases (is_empty account)) [
    | inl empty ↦ rw empty (retain-AreDistinct accounts h.1)
    | inr kept ↦ rw kept ((lookup-retain accounts a h.0, retain-AreDistinct accounts h.1))
  ]

  retain-AreKeys :
      (storages : List (B256 × HashedStorage)) (accounts : List (B256 × Option Account))
      → AreKeys storages accounts
      → AreKeys storages (retain is_empty accounts)
  unfolding retain
  retain-AreKeys storages [] h = tt
  retain-AreKeys storages ((a, none) ∷ accounts) h =
      (h.0, h.1, retain-AreKeys storages accounts h.2)
  retain-AreKeys storages ((a, some account) ∷ accounts) h = elim (Bool-cases (is_empty account)) [
    | inl empty ↦ rw empty (retain-AreKeys storages accounts h.2)
    | inr kept ↦ rw kept ((h.0, h.1, retain-AreKeys storages accounts h.2))
  ]

pub after_ok_or {ℓ κ} :
    {A : Type ℓ} {B : Type κ} (o : Option A) (e : ClientError) (k : A → Result ClientError B)
    (b : B)
    → (ok_or o e >>= k) ≡ ok b
    → (a : A) × (o ≡ some a) × (k a ≡ ok b)
after_ok_or none e k b h = absurd (cc)
after_ok_or (some a) e k b h = (a, refl, h)

of_check : (c : Bool) (e : ClientError) → check c e ≡ ok tt → c ≡ true
of_check true e h = refl
of_check false e h = absurd (cc)

of_unwrap_client {ℓ} :
    {A : Type ℓ} (m : Result ClientError A) (a : A)
    → unwrap_ok {E' = ClientError} m ≡ ok a
    → m ≡ ok a
of_unwrap_client (ok x) a h = ap ok (ok_injective h)
of_unwrap_client (err e) a h = absurd (cc)
of_unwrap_client panic a h = absurd (cc)

module _ (tries : pico_subblock.Mpt.Hash.External) (enc : Encoders) (ext : External)
    (decoders : Decoders) (evm : Evm) where
  -- What the caller of the EVM relies on.
  pub record IsEvm : Type 0 where
    pub encoder : IsEncoder enc
    pub post_state : (bundle : Bytes) → IsPostState (evm.hash_state bundle)

  -- The changes that are made to the state: those of the EVM without the empty accounts.
  abbrev pub Changed : BlockExecutionOutput → EthereumState → EthereumState → Type 0
  Changed output before after =
      Updated tries enc (hashed_changes tries enc ext decoders evm output).storages
        (hashed_changes tries enc ext decoders evm output).accounts before after

  pub update-Changed :
      (output : BlockExecutionOutput) (before after : EthereumState)
      → IsEvm
      → SoundState tries enc before
      → update tries enc before (hashed_changes tries enc ext decoders evm output) ≡ ok after
      → Changed output before after
  unfolding hashed_changes
  update-Changed output before after laws s e =
      let p = laws.post_state output.state in
      update-Updated tries enc laws.encoder before after _ s
        (retain-AreDistinct evm.is_empty (evm.hash_state output.state).accounts p.0)
        (retain-AreKeys evm.is_empty (evm.hash_state output.state).storages
          (evm.hash_state output.state).accounts p.1)
        e

  -- A block that was executed on the state that the witness gives.
  pub record Executed (input : ClientExecutorInput) (header : Header) : Type 0 where
    pub parent : Header
    pub trie_db : TrieDb
    pub block : BlockWithSenders
    pub output : BlockExecutionOutput
    pub after : EthereumState
    pub older : List Header
    pub newest : input.ancestor_headers ≡ parent ∷ older
    pub anchored : state_root tries input.parent_state ≡ parent.state_root
    pub witnessed :
        Witnessed tries ext decoders (witness_input tries enc ext decoders evm input parent) trie_db
    pub recovered : evm.try_into_recovered input.current_block ≡ some block
    pub executed : evm.execute block trie_db ≡ ok output
    pub valid : evm.validate_block block output.receipts output.requests ≡ true
    pub changed : Changed output input.parent_state after
    pub root : state_root tries after ≡ input.current_block.header.state_root
    pub same_header : header ≡ input.current_block.header

  same_root : (h : Header) (root : Bytes) → root ≡ h.state_root → record h { state_root = root } ≡ h
  same_root h root e = ap (λ r. record h { state_root = r }) e

  newest_first :
      (headers : List Header) (parent : Header)
      → unwrap {E = ClientError} (get_elem? headers 0) ≡ ok parent
      → (older : List Header) × (headers ≡ parent ∷ older)
  newest_first [] parent e = absurd (cc)
  newest_first (h ∷ headers) parent e = (headers, ap (λ x. x ∷ headers) (ok_injective e))

  -- When `execute` returns a header, the parent state has the state root of the first ancestor
  -- header and has passed the checks of `witness_db` against it, the EVM has executed the block on
  -- it and its output has passed the checks of reth, the parent state with the changes of the EVM,
  -- less its empty accounts, has the state root of the block's header, and the header is the
  -- block's.
  pub execute-Executed :
      (input : ClientExecutorInput) (header : Header)
      → IsEvm
      → SoundState tries enc input.parent_state
      → execute tries enc ext decoders evm input ≡ ok header
      → Executed input header
  unfolding execute parent_header witness_input
  execute-Executed input header laws s e =
      let p = after_bind (parent_header tries enc ext decoders evm input) _ header e in
      let h = newest_first input.ancestor_headers p.0 p.1 in
      let witness = witness_input tries enc ext decoders evm input p.0 in
      let w = after_bind (unwrap_ok (witness_db tries ext decoders witness)) _ header p.2 in
      let b =
        after_ok_or (evm.try_into_recovered input.current_block)
          ClientError.signature_recovery_failed _ header w.2 in
      let o = after_bind (evm.execute b.0 w.0) _ header b.2 in
      let c =
        after_check
          (check (evm.validate_block b.0 o.0.receipts o.0.requests)
            ClientError.post_execution_error)
          _ header o.2 in
      let u =
        after_bind
          (unwrap_ok
            (update tries enc input.parent_state (hashed_changes tries enc ext decoders evm o.0)))
          _ header c.1 in
      let d = Bytes_discrete (state_root tries u.0) input.current_block.header.state_root in
      let r = after_check (require d ClientError.mismatched_state_root) _ header u.2 in
      let root = of_require d ClientError.mismatched_state_root r.0 in
      let witnessed =
        witness_db-Witnessed tries ext decoders witness w.0
          (of_unwrap_client (witness_db tries ext decoders witness) w.0 w.1) in
      record {
        parent = p.0;
        older = h.0;
        newest = h.1;
        anchored = sym witnessed.anchored;
        trie_db = w.0;
        block = b.0;
        output = o.0;
        after = u.0;
        witnessed = witnessed;
        recovered = b.1;
        executed = o.1;
        valid =
            of_check (evm.validate_block b.0 o.0.receipts o.0.requests)
              ClientError.post_execution_error c.0;
        changed = update-Changed o.0 input.parent_state u.0 laws s (of_unwrap_ok _ u.0 u.1);
        root = root;
        same_header =
            sym (ok_injective r.1)
            ∙ same_root input.current_block.header (state_root tries u.0) root;
      }
