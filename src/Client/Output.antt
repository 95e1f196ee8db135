-- ===== src/Client/Output.antt =====
-- `SubblockOutput` of crates/executor/client/src/io.rs: `extend` and `merge_requests`.
pub mod Pieces
pub mod Merge
use native.Mathlib.Decide.{ℕ_discrete}
use pico_subblock.Prelude.{
  ℕ, zero, suc, ◌+◌, ◌%◌, Bool, true, false, Option, none, some, List, [], ◌∷◌, ◌++◌, ◌==◌, beq,
  ◌&&◌, ◌||◌, leb, if◌then◌else◌, length, take, drop,
}
use pico_subblock.Result.{Result, ok, err, panic, ◌>>=◌, ◌>>◌, assert_dec}
use pico_subblock.Client.Block.{Bytes, ClientError, External, SubblockOutput, Bytes_discrete}

-- The output after `other` is taken in, where the assertion holds.
abbrev pub absorb : External → SubblockOutput → SubblockOutput → SubblockOutput
absorb ext self other = record {
  input_state_root = self.input_state_root;
  output_state_root = other.output_state_root;
  logs_bloom = ext.accrue_bloom self.logs_bloom other.logs_bloom;
  receipts = self.receipts ++ other.receipts;
  requests = self.requests ++ other.requests;
}

unfoldable pub extend :
    External → SubblockOutput → SubblockOutput → Result ClientError SubblockOutput
extend ext self other =
    assert_dec (Bytes_discrete self.output_state_root other.input_state_root)
    >> ok (absorb ext self other)

-- DEPOSIT_REQUEST_TYPE is 0, WITHDRAWAL_REQUEST_TYPE is 1 and CONSOLIDATION_REQUEST_TYPE is 2, in
-- EIP-6110, EIP-7002 and EIP-7251.
unfoldable pub request_data_len : ℕ → ℕ → ℕ
request_data_len first rest_len =
    if first == 0 then 192 else if first == 1 then 76 else if first == 2 then 116 else rest_len

-- `rest.chunks(n)`, on fuel: `length rest` is enough, since a chunk is not empty.
unfoldable pub chunks : ℕ → ℕ → Bytes → List Bytes
chunks zero n rest = []
chunks (suc fuel) n [] = []
chunks (suc fuel) n (b ∷ rest) =
    let more = chunks fuel n (drop n (b ∷ rest)) in take n (b ∷ rest) ∷ more

-- The set of what was processed, newest first.
abbrev pub Processed : Type 0
Processed = List (ℕ × Bytes)

unfoldable pub contains : Processed → ℕ → Bytes → Bool
contains [] first data' = false
contains ((f, d) ∷ processed) first data' =
    let rest = contains processed first data' in (f == first && beq d data') || rest

-- The loop over the chunks: the data that is new, and the set after it.
unfoldable pub new_data : Processed → ℕ → List Bytes → Bytes × Processed
unfolding contains
new_data processed first [] = ([], processed)
new_data processed first (c ∷ cs) =
    let skipped = new_data processed first cs in
    let kept = new_data ((first, c) ∷ processed) first cs in
    if contains processed first c then skipped else (c ++ kept.0, kept.1)

-- `new_requests.iter_mut().find(|new_req| new_req[0] == first)`, with the data appended there or a
-- new request pushed.
unfoldable pub put_request : List Bytes → ℕ → Bytes → Result ClientError (List Bytes)
put_request [] first data' = ok ((first ∷ data') ∷ [])
put_request ([] ∷ rs) first data' = panic
put_request ((f ∷ d) ∷ rs) first data' =
    let rest = put_request rs first data' in
    if f == first then ok ((f ∷ d ++ data') ∷ rs) else (rest >>= λ rs'. ok ((f ∷ d) ∷ rs'))

-- One request of the list; the remainder by zero panics.
unfoldable pub merge_request :
    Processed × List Bytes → Bytes → Result ClientError (Processed × List Bytes)
unfolding request_data_len chunks new_data put_request
merge_request (processed, new_requests) [] = ok (processed, new_requests)
merge_request (processed, new_requests) (first ∷ rest) =
    let len = request_data_len first (length rest) in
    if len == 0
    then panic
    else (let size = if length rest % len == 0 then len else length rest in
        let d = new_data processed first (chunks (length rest) size rest) in
        put_request new_requests first d.0 >>= λ rs. ok (d.1, rs))

unfoldable pub merge_each : List Bytes → Processed × List Bytes → Result ClientError (List Bytes)
unfolding merge_request
merge_each [] s = ok s.1
merge_each (r ∷ rs) s = do s' ← merge_request s r; merge_each rs s'

abbrev pub with_requests : SubblockOutput → List Bytes → SubblockOutput
with_requests self requests = record {
  input_state_root = self.input_state_root;
  output_state_root = self.output_state_root;
  logs_bloom = self.logs_bloom;
  receipts = self.receipts;
  requests = requests;
}

unfoldable pub merge_requests : SubblockOutput → Result ClientError SubblockOutput
unfolding merge_each
merge_requests self =
    if leb (length self.requests) 1
    then ok self
    else do requests ← merge_each self.requests ([], []); ok (with_requests self requests)
