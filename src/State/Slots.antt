-- ===== src/State/Slots.antt =====
-- crates/mpt/src/lib.rs: what the loops of `EthereumState::update` leave in one trie.
use pico_subblock.Prelude.{
  ℕ, ◌≤◌, ◌≡◌, refl, ap, sym, ◌∙◌, Bool, Option, none, some, List, [], ◌∷◌, ◌==◌, beq,
  if◌then◌else◌, All, length, subst, Bool-cases, inl, inr,
}
use pico_subblock.Result.{Result, ok, err, panic, ◌>>=◌, unwrap_ok}
use pico_subblock.Result.Passed.{after_bind, ok_injective}
use pico_subblock.Path.{IsByte}
use pico_subblock.Mpt.{B256, Error, MptNode}
use pico_subblock.Mpt.Get.{get}
use pico_subblock.Mpt.Insert.{insert}
use pico_subblock.Mpt.Insert.Reads.{InsertReads, get-insert}
use pico_subblock.Mpt.Insert.Coherent
use pico_subblock.Mpt.Insert.Coherent.{insert-IsCoherent}
use pico_subblock.Mpt.Delete.{delete}
use pico_subblock.Mpt.Delete.Reads.{DeleteReads, get-delete}
use pico_subblock.Mpt.Delete.Coherent.{delete-IsCoherent}
use pico_subblock.Mpt.Hash.{External}
use pico_subblock.Mpt.Hash.Cache.{IsCoherent}
use pico_subblock.Mpt.Valid.{IsValid}
use pico_subblock.State.{TrieAccount, Encoders, insert_rlp, update_slot, update_slots}

-- An encoding is not empty.
pub record IsEncoder (enc : Encoders) : Type 0 where
  pub account : (a : TrieAccount) → 1 ≤ length (enc.encode_account a)
  pub word : (v : ℕ) → 1 ≤ length (enc.encode_word v)

abbrev pub Value : Type 0
Value = Result Error (Option (List ℕ))

-- The value of a key after writes to a map, in their order: zero deletes.
unfoldable pub written_slot : (ℕ → List ℕ) → List (B256 × ℕ) → B256 → Value → Value
written_slot encode_word [] key old = old
written_slot encode_word ((k, v) ∷ slots) key old =
    written_slot encode_word slots key
      (if beq k key then ok (if v == 0 then none else some (encode_word v)) else old)

module _ (ext : External) where
  -- A trie in good order: its shape is right and so are its caches.
  abbrev pub IsSound : MptNode → Type 0
  IsSound n = IsValid n × IsCoherent ext n

  -- `m` is `n` with the value of `key` changed to `value`, when it is given that a call returned
  -- `m`.
  pub record Wrote (n m : MptNode) (key : B256) (value : Option (List ℕ)) : Type 0 where
    pub sound : IsSound m
    pub reads : (j : B256) → All IsByte j → get m j ≡ (if beq key j then ok value else get n j)

  insert_rlp-insert :
      (n : MptNode) (key value : List ℕ)
      → 1 ≤ length value
      → insert_rlp n key value ≡ insert n key value
  unfolding insert_rlp insert
  insert_rlp-insert n key [] one = elim one [ ]
  insert_rlp-insert n key (b ∷ value) one = refl

  -- A value that is written.
  pub insert_rlp-Wrote :
      (n : MptNode) (key value : List ℕ) (r : Bool × MptNode)
      → IsSound n
      → All IsByte key
      → 1 ≤ length value
      → insert_rlp n key value ≡ ok r
      → Wrote n r.1 key (some value)
  insert_rlp-Wrote n key value r s k one e =
      let e' : insert n key value ≡ ok r = sym (insert_rlp-insert n key value one) ∙ e in
      let reads = λ (j : B256) (hj : All IsByte j).
        subst (InsertReads n key value j) e' (get-insert n key value j s.0 k hj one) in
      record {
        sound = (
          (reads key k).1,
          subst (Coherent.Keeps ext) e' (insert-IsCoherent ext n key value s.0 s.1 k),
        );
        reads = λ j hj. (reads j hj).0;
      }

  -- A value that is deleted.
  pub delete-Wrote :
      (n : MptNode) (key : List ℕ) (r : Bool × MptNode)
      → IsSound n
      → All IsByte key
      → delete n key ≡ ok r
      → Wrote n r.1 key none
  delete-Wrote n key r s k e =
      let reads = λ (j : B256) (hj : All IsByte j).
        subst (DeleteReads n key j) e (get-delete n key j s.0 k hj) in
      record {
        sound =
            ((reads key k).1, subst (Coherent.Keeps ext) e (delete-IsCoherent ext n key s.0 s.1 k));
        reads = λ j hj. (reads j hj).0;
      }

  of_unwrap : {A : Type 0} (m : Result Error A) (a : A) → unwrap_ok {E' = Error} m ≡ ok a → m ≡ ok a
  of_unwrap (ok x) a h = ap ok (ok_injective h)
  of_unwrap (err e) a h = absurd (cc)
  of_unwrap panic a h = absurd (cc)

  -- The error that an `unwrap` lets through, as a value of the caller's result.
  pub after_unwrap_ok :
      {A B : Type 0} (m : Result Error A) (k : A → Result Error B) (b : B)
      → (unwrap_ok {E' = Error} m >>= k) ≡ ok b
      → (a : A) × (m ≡ ok a) × (k a ≡ ok b)
  after_unwrap_ok m k b e =
      let a = after_bind (unwrap_ok m) k b e in (a.0, of_unwrap m a.0 a.1, a.2)

  module _ (enc : Encoders) (laws : IsEncoder enc) where
    open enc use {encode_word}

    abbrev slot_value : ℕ → Option (List ℕ)
    slot_value v = if v == 0 then none else some (encode_word v)

    update_slot-Wrote :
        (n : MptNode) (key : B256) (v : ℕ) (m : MptNode)
        → IsSound n
        → All IsByte key
        → update_slot ext enc n (key, v) ≡ ok m
        → Wrote n m key (slot_value v)
    unfolding update_slot
    update_slot-Wrote n key v m s k e = elim (Bool-cases (v == 0)) [
      | inl z ↦
          let e' = rw z at e in
          let a = after_unwrap_ok (delete n key) (λ r. ok r.1) m e' in
          rw z (subst (λ x. Wrote n x key none) (ok_injective a.2) (delete-Wrote n key a.0 s k a.1))
      | inr p ↦
          let e' = rw p at e in
          let a = after_unwrap_ok (insert_rlp n key (encode_word v)) (λ r. ok r.1) m e' in
          rw p (
            subst (λ x. Wrote n x key (some (encode_word v))) (ok_injective a.2)
              (insert_rlp-Wrote n key (encode_word v) a.0 s k (laws.word v) a.1))
    ]

    -- What the loop over the slots leaves.
    pub record Slots (slots : List (B256 × ℕ)) (n m : MptNode) : Type 0 where
      pub sound : IsSound m
      pub reads : (j : B256) → All IsByte j → get m j ≡ written_slot encode_word slots j (get n j)

    pub update_slots-Slots :
        (slots : List (B256 × ℕ)) (n m : MptNode)
        → IsSound n
        → All (λ slot. All IsByte slot.0) slots
        → update_slots ext enc n slots ≡ ok m
        → Slots slots n m
    unfolding update_slots written_slot
    update_slots-Slots [] n m s k e =
        let same = ok_injective e in
        record { sound = subst IsSound same s; reads = λ j hj. ap (λ x. get x j) (sym same) }
    update_slots-Slots ((key, v) ∷ slots) n m s k e =
        let a = after_bind (update_slot ext enc n (key, v)) _ m e in
        let wrote = update_slot-Wrote n key v a.0 s k.0 a.1 in
        let rest = update_slots-Slots slots a.0 m wrote.sound k.1 a.2 in
        record {
          sound = rest.sound;
          reads =
              λ j hj. rest.reads j hj ∙ ap (written_slot encode_word slots j) (wrote.reads j hj);
        }
