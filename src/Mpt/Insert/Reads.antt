-- ===== src/Mpt/Insert/Reads.antt =====
-- `insert` of crates/mpt/src/mpt.rs as a caller sees it, over keys of bytes.
use pico_subblock.Prelude.{
  ℕ, ◌≡◌, refl, sym, ◌∙◌, Bool, true, false, Option, some, List, [], ◌∷◌, beq, beq_refl, eq_of_beq,
  if◌then◌else◌, All, Bool-cases, inl, inr, ◌≤◌, length,
}
use pico_subblock.Result.{Result, ok, err, panic}
use pico_subblock.Path.{IsByte, to_nibs}
use pico_subblock.Path.Codec.{to_nibs-IsNibble, to_nibs_injective}
use pico_subblock.Mpt.{Error, MptNode}
use pico_subblock.Mpt.Valid.{IsValid, find}
use pico_subblock.Mpt.Get.{get}
use pico_subblock.Mpt.Get.Find.{get-find}
use pico_subblock.Mpt.Insert.{insert, insert_internal}
use pico_subblock.Mpt.Insert.Leaf.{Insertion}
use pico_subblock.Mpt.Insert.Lookup.{insert_internal_outcome}

-- Keys are the same exactly when their nibbles are.
pub beq-to_nibs :
    (k j : List ℕ) → All IsByte k → All IsByte j → beq (to_nibs k) (to_nibs j) ≡ beq k j
beq-to_nibs k j hk hj = elim (Bool-cases (beq k j)) [
  | inl same ↦ rw (same, eq_of_beq k j same) (beq_refl (to_nibs j))
  | inr other ↦ elim (Bool-cases (beq (to_nibs k) (to_nibs j))) [
    | inl e ↦
        let kj : k ≡ j = to_nibs_injective k j hk hj (eq_of_beq (to_nibs k) (to_nibs j) e) in
        absurd (cc (other, beq_refl j, kj))
    | inr n ↦ n ∙ sym other
  ]
]

-- What a caller finds after a call of `insert` with `key` and `value`: the trie is valid, `key`
-- reads as `value`, every other key as before, and if the call reports no change the trie is as it
-- was.
abbrev pub InsertReads : MptNode → List ℕ → List ℕ → List ℕ → Result Error (Bool × MptNode) → Type 0
InsertReads n key value j (ok r) =
    (get r.1 j ≡ (if beq key j then ok (some value) else get n j))
    × IsValid r.1
    × (r.1 ≡ (if r.0 then r.1 else n))
InsertReads n key value j (err e) = Unit
InsertReads n key value j panic = ⊥

reads_as :
    (n : MptNode) (key value j : List ℕ) (m : Result Error (Bool × MptNode))
    → IsValid n
    → All IsByte key
    → All IsByte j
    → Insertion n (to_nibs key) value m
    → InsertReads n key value j m
reads_as n key value j (err e) v hk hj h = tt
reads_as n key value j panic v hk hj h = h
reads_as n key value j (ok (changed, m)) v hk hj h = (
  rw (get-find m j h.valid hj, get-find n j v hj, h.reads (to_nibs j), beq-to_nibs key j hk hj)
      (out (beq key j) (find n (to_nibs j))),
  h.valid,
  same changed h.unchanged,
)
  where
    out :
        (b : Bool) (o : Option (List ℕ))
        → ◌≡◌ {A = Result Error (Option (List ℕ))}
            (ok (if b then some value else o))
            (if b then ok (some value) else ok o)
    out true o = refl
    out false o = refl

    same : (b : Bool) → (b ≡ false → m ≡ n) → m ≡ (if b then m else n)
    same true f = refl
    same false f = f refl

-- On a valid trie, with a key of bytes and a value that is not empty, `insert` does not panic; when
-- it succeeds, the trie stays valid, the key reads as the value, every other key of bytes reads as
-- before, and a call that reports `false` has changed nothing.
pub get-insert :
    (n : MptNode) (key value j : List ℕ)
    → IsValid n
    → All IsByte key
    → All IsByte j
    → 1 ≤ length value
    → InsertReads n key value j (insert n key value)
unfolding insert
get-insert n key [] j v hk hj h = elim h [ ]
get-insert n key (b ∷ value) j v hk hj h =
    reads_as n key (b ∷ value) j (insert_internal n (to_nibs key) (b ∷ value)) v hk hj
      (insert_internal_outcome n (to_nibs key) (b ∷ value) v (to_nibs-IsNibble key hk))
