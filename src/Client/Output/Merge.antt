-- ===== src/Client/Output/Merge.antt =====
-- `merge_requests` of crates/executor/client/src/io.rs, type by type.
use mathlib.Core.List.{append_assoc, append-nil}
use pico_subblock.Prelude.{
  ◌&&◌, ◌||◌, ap, ℕ, ◌%◌, ◌≤◌, ◌≡◌, refl, sym, ◌∙◌, Bool, true, false, List, [], ◌∷◌, ◌++◌, ◌==◌,
  leb, if◌then◌else◌, length, arith, All, Bool-cases, inl, inr, ==_iff,
}
use pico_subblock.Result.{Result, ok}
use pico_subblock.Client.Block.{Bytes, ClientError, SubblockOutput}
use pico_subblock.Client.Output.{
  Processed, request_data_len, chunks, new_data, put_request, merge_each, with_requests,
  merge_requests,
}
use pico_subblock.Client.Output.Pieces.{
  Piece, AreSplit, tagged, piece_size, joined, first_each, fresh, fresh-first_each, joined-new_data,
  size-piece_size, piece_size_positive, concat-chunks, chunks-AreOfSize,
}

-- A request carries its type as its first byte; one of an unknown type has data.
abbrev pub IsRequest : Bytes → Type 0
IsRequest [] = Unit
IsRequest (first ∷ rest) = (request_data_len first (length rest) == 0) ≡ false

-- The requests all have a type.
abbrev AreTyped : List Bytes → Type 0
AreTyped [] = Unit
AreTyped ([] ∷ rs) = ⊥
AreTyped ((f ∷ d) ∷ rs) = AreTyped rs

-- The data of the type `t`: of the first request that has it, and whether there is one.
abbrev pub data_of : ℕ → List Bytes → Bytes
data_of t [] = []
data_of t ([] ∷ rs) = data_of t rs
data_of t ((f ∷ d) ∷ rs) = let rest = data_of t rs in if f == t then d else rest

abbrev pub has_type : ℕ → List Bytes → Bool
has_type t [] = false
has_type t ([] ∷ rs) = has_type t rs
has_type t ((f ∷ d) ∷ rs) = let rest = has_type t rs in if f == t then true else rest

-- Every request has a type, and no two have the same.
abbrev pub HasDistinctTypes : List Bytes → Type 0
HasDistinctTypes [] = Unit
HasDistinctTypes ([] ∷ rs) = ⊥
HasDistinctTypes ((f ∷ d) ∷ rs) = (has_type f rs ≡ false) × HasDistinctTypes rs

-- The pieces of the requests, as the code cuts them.
abbrev pieces_of : List Bytes → List Piece
pieces_of [] = []
pieces_of ([] ∷ rs) = pieces_of rs
pieces_of ((first ∷ rest) ∷ rs) =
    let len = request_data_len first (length rest) in
    let size = if length rest % len == 0 then len else length rest in
    tagged first (chunks (length rest) size rest) ++ pieces_of rs

-- What putting data of a type into the list does.
record Put (rs : List Bytes) (first : ℕ) (d : Bytes) (r : Result ClientError (List Bytes))
    : Type 0 where
  placed : List Bytes
  returns : r ≡ ok placed
  distinct : HasDistinctTypes placed
  data' : (t : ℕ) → data_of t placed ≡ (if first == t then data_of t rs ++ d else data_of t rs)
  types : (t : ℕ) → has_type t placed ≡ (if first == t then true else has_type t rs)

put_request-Put :
    (rs : List Bytes) (first : ℕ) (d : Bytes)
    → HasDistinctTypes rs
    → Put rs first d (put_request rs first d)
unfolding put_request
put_request-Put [] first d h = record {
  placed = (first ∷ d) ∷ [];
  returns = refl;
  distinct = (refl, tt);
  data' = λ t. refl;
  types = λ t. refl;
}
put_request-Put ([] ∷ rs) first d h = absurd h
put_request-Put ((f ∷ e) ∷ rs) first d h = elim (Bool-cases (f == first)) [
  | inl same ↦
      let f' : f ≡ first = (==_iff f first).0 same in
      record {
        placed = (f ∷ e ++ d) ∷ rs;
        returns = rw same;
        distinct = h;
        data' = λ t. rw (← f') (here t (f == t));
        types = λ t. rw (← f') (found (f == t) (has_type t rs));
      }
  | inr other ↦
      let p = put_request-Put rs first d h.1 in
      let other' : (first == f) ≡ false = ground arith in
      record {
        placed = (f ∷ e) ∷ p.placed;
        returns = rw (other, p.returns);
        distinct = (rw (p.types f, other') h.0, p.distinct);
        data' = λ t. rw (p.data' t) (there t (first == t) (f == t) (ground arith));
        types = λ t. rw (p.types t) (found_there (first == t) (f == t) (has_type t rs));
      }
]
  where
    here :
        (t : ℕ) (b : Bool)
        → (if b then e ++ d else data_of t rs)
          ≡ (if b then (if b then e else data_of t rs) ++ d else if b then e else data_of t rs)
    here t true = refl
    here t false = refl

    found : (b x : Bool) → (if b then true else x) ≡ (if b then true else if b then true else x)
    found true x = refl
    found false x = refl

    there :
        (t : ℕ) (b c : Bool)
        → (b && c) ≡ false
        → (if c then e else if b then data_of t rs ++ d else data_of t rs)
          ≡ (if b then (if c then e else data_of t rs) ++ d else if c then e else data_of t rs)
    there t true true x = absurd (cc)
    there t true false x = refl
    there t false true x = refl
    there t false false x = refl

    found_there :
        (b c x : Bool)
        → (if c then true else if b then true else x) ≡ (if b then true else if c then true else x)
    found_there true true x = refl
    found_there true false x = refl
    found_there false true x = refl
    found_there false false x = refl

-- What the loop over the requests gives, from what is processed and the new requests so far.
record MergedEach (rs : List Bytes) (processed : Processed) (news : List Bytes) : Type 0 where
  requests : List Bytes
  returns : merge_each rs (processed, news) ≡ ok requests
  distinct : HasDistinctTypes requests
  data' : (t : ℕ) → data_of t requests ≡ data_of t news ++ joined t (fresh processed (pieces_of rs))
  types : (t : ℕ) → has_type t requests ≡ (has_type t news || has_type t rs)

merge_each-MergedEach :
    (rs : List Bytes) (processed : Processed) (news : List Bytes)
    → All IsRequest rs
    → HasDistinctTypes news
    → MergedEach rs processed news
unfolding merge_each
merge_each-MergedEach [] processed news h k = record {
  requests = news;
  returns = refl;
  distinct = k;
  data' = λ t. sym (append-nil (data_of t news));
  types = λ t. ground arith;
}
merge_each-MergedEach ([] ∷ rs) processed news h k =
    let m = merge_each-MergedEach rs processed news h.1 k in
    record {
      requests = m.requests;
      returns = m.returns;
      distinct = m.distinct;
      data' = m.data';
      types = m.types;
    }
merge_each-MergedEach ((first ∷ rest) ∷ rs) processed news h k =
    let len = request_data_len first (length rest) in
    let size = if length rest % len == 0 then len else length rest in
    let d = new_data processed first (chunks (length rest) size rest) in
    let p = put_request-Put news first d.0 k in
    let m = merge_each-MergedEach rs d.1 p.placed h.1 p.distinct in
    record {
      requests = m.requests;
      returns = rw (h.0, p.returns) m.returns;
      distinct = m.distinct;
      data' = λ t.
          m.data' t
          ∙ rw (p.data' t) (
              regroup (first == t) (data_of t news) d.0 (joined t (fresh d.1 (pieces_of rs)))
              ∙ ap (λ x. data_of t news ++ x)
                  (sym (
                    joined-new_data t first processed (chunks (length rest) size rest)
                      (pieces_of rs))));
      types =
          λ t. m.types t ∙ rw (p.types t) (either (first == t) (has_type t news) (has_type t rs));
    }
  where
    regroup :
        (b : Bool) (old new later : Bytes)
        → (if b then old ++ new else old) ++ later ≡ old ++ (if b then new ++ later else later)
    regroup true old new later = append_assoc old new later
    regroup false old new later = refl

    either : (b x y : Bool) → ((if b then true else x) || y) ≡ (x || (if b then true else y))
    either true true y = refl
    either true false y = refl
    either false x y = refl

pieces_of-AreSplit : (rs : List Bytes) → All IsRequest rs → AreSplit rs (pieces_of rs)
pieces_of-AreSplit [] h = refl
pieces_of-AreSplit ([] ∷ rs) h = pieces_of-AreSplit rs h.1
pieces_of-AreSplit ((first ∷ rest) ∷ rs) h =
    let size = piece_size first (length rest) in
    let e = size-piece_size first (length rest) in
    let some_size = piece_size_positive first (length rest) h.0 in
    (
      chunks (length rest) size rest,
      pieces_of rs,
      ap (λ n. tagged first (chunks (length rest) n rest) ++ pieces_of rs) e,
      concat-chunks (length rest) size rest (omega arith) some_size,
      chunks-AreOfSize (length rest) size rest (omega arith) some_size,
      pieces_of-AreSplit rs h.1,
    )

-- The output after the merge.
pub record Merged (self : SubblockOutput) : Type 0 where
  pub merged : List Bytes
  pub returns : merge_requests self ≡ ok (with_requests self merged)
  pub distinct : HasDistinctTypes merged
  pub types : (t : ℕ) → has_type t merged ≡ has_type t self.requests
  pub pieces : List Piece
  pub split : AreSplit self.requests pieces
  pub data' : (t : ℕ) → data_of t merged ≡ joined t (first_each pieces)

-- With two requests or more, none of an unknown type without data, `merge_requests` returns, and
-- changes nothing but the requests: the new ones have the types of the old ones, no two the same.
-- The old ones are cut into pieces: each is put together of pieces of the size of its type, if
-- these fit, and else is one piece. The data of each type is made of the pieces of that type, in
-- order, each at its first occurrence and not again.
pub merge_requests-Merged :
    (self : SubblockOutput) → 2 ≤ length self.requests → All IsRequest self.requests → Merged self
unfolding merge_requests
merge_requests-Merged self several h =
    let m = merge_each-MergedEach self.requests [] [] h tt in
    let many : leb (length self.requests) 1 ≡ false = ground arith in
    record {
      merged = m.requests;
      returns = rw (many, m.returns);
      distinct = m.distinct;
      types = m.types;
      pieces = pieces_of self.requests;
      split = pieces_of-AreSplit self.requests h;
      data' = λ t. m.data' t ∙ ap (joined t) (fresh-first_each (pieces_of self.requests));
    }
