-- ===== src/Mpt/Delete/Reads.antt =====
-- `delete` of crates/mpt/src/mpt.rs as a caller sees it, over keys of bytes.
use pico_subblock.Prelude.{
  ℕ, ◌≡◌, refl, Bool, true, false, Option, none, List, beq, if◌then◌else◌, All,
}
use pico_subblock.Result.{Result, ok, err, panic, ◌>>=◌}
use pico_subblock.Path.{IsByte, to_nibs}
use pico_subblock.Path.Codec.{to_nibs-IsNibble}
use pico_subblock.Mpt.{Error, MptNode}
use pico_subblock.Mpt.Valid.{IsValid, find}
use pico_subblock.Mpt.Get.{get}
use pico_subblock.Mpt.Get.Find.{get-find}
use pico_subblock.Mpt.Insert.Reads.{beq-to_nibs}
use pico_subblock.Mpt.Delete.{delete, delete_internal}
use pico_subblock.Mpt.Delete.Outcome.{Deletion, is_some}
use pico_subblock.Mpt.Delete.Lookup.{delete_internal_outcome}

-- What a caller finds after a call of `delete` with `key`: the trie is valid, `key` reads as
-- nothing, every other key as before, the call reports whether `key` was there, and if it was not
-- the trie is as it was.
abbrev pub DeleteReads : MptNode → List ℕ → List ℕ → Result Error (Bool × MptNode) → Type 0
DeleteReads n key j (ok r) =
    (get r.1 j ≡ (if beq key j then ok none else get n j))
    × IsValid r.1
    × ((get n key >>= λ o. ok (is_some o)) ≡ ok r.0)
    × (r.1 ≡ (if r.0 then r.1 else n))
DeleteReads n key j (err e) = Unit
DeleteReads n key j panic = ⊥

reads_as :
    (n : MptNode) (key j : List ℕ) (m : Result Error (Bool × MptNode))
    → IsValid n
    → All IsByte key
    → All IsByte j
    → Deletion n (to_nibs key) m
    → DeleteReads n key j m
reads_as n key j (err e) v hk hj h = tt
reads_as n key j panic v hk hj h = h
reads_as n key j (ok (changed, m)) v hk hj h = (
  rw (get-find m j h.valid hj, get-find n j v hj, h.reads (to_nibs j), beq-to_nibs key j hk hj)
      (out (beq key j) (find n (to_nibs j))),
  h.valid,
  rw (get-find n key v hk, h.present),
  same changed h.unchanged,
)
  where
    out :
        (b : Bool) (o : Option (List ℕ))
        → ◌≡◌ {A = Result Error (Option (List ℕ))}
            (ok (if b then none else o))
            (if b then ok none else ok o)
    out true o = refl
    out false o = refl

    same : (b : Bool) → (b ≡ false → m ≡ n) → m ≡ (if b then m else n)
    same true f = refl
    same false f = f refl

-- On a valid trie and with a key of bytes `delete` does not panic; when it succeeds, the trie stays
-- valid, the key reads as nothing, every other key of bytes reads as before, the result says
-- whether the key held a value, and a call that reports `false` has changed nothing.
pub get-delete :
    (n : MptNode) (key j : List ℕ)
    → IsValid n
    → All IsByte key
    → All IsByte j
    → DeleteReads n key j (delete n key)
unfolding delete
get-delete n key j v hk hj =
    reads_as n key j (delete_internal n (to_nibs key)) v hk hj
      (delete_internal_outcome n (to_nibs key) v (to_nibs-IsNibble key hk))
