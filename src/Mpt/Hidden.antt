-- ===== src/Mpt/Hidden.antt =====
-- crates/mpt/src/mpt.rs: what `get`, `insert` and `delete` answer for a key below a digest.
use pico_subblock.Prelude.{
  ℕ, zero, suc, ◌≤◌, ◌≡◌, refl, ap, ◌∙◌, Bool, Option, none, some, List, [], ◌∷◌, All, length,
}
use pico_subblock.Result.{Result, ok, err, panic}
use pico_subblock.Path.{IsByte, to_nibs, strip_prefix}
use pico_subblock.Mpt.{
  B256, Error, node_not_resolved, value_in_branch, rlp, legacy_rlp, MptNode, Children, node, null,
  branch, leaf, extension, digest, nil, vacant, child,
}
use pico_subblock.Mpt.Valid.{IsValid, path_of, find, find_child}
use pico_subblock.Mpt.Uniform.{IsUniform, hidden, hidden_child}
use pico_subblock.Mpt.Get.{get}
use pico_subblock.Mpt.Get.Find.{get-find}
use pico_subblock.Mpt.Insert.{insert}
use pico_subblock.Mpt.Insert.Total.{Ends, insert-Ends}
use pico_subblock.Mpt.Delete.{delete}
use pico_subblock.Mpt.Delete.Total.{delete-Ends}

below :
    (n : MptNode) (o : Option (List ℕ)) (d : B256)
    → ((t : List ℕ) → hidden n t ≡ some d → find n t ≡ none)
    → elim o [ some tail ↦ hidden n tail | none ↦ none ] ≡ some d
    → elim o [ some tail ↦ find n tail | none ↦ none ] ≡ none
below n none d f h = refl
below n (some t) d f h = f t h

mutual
  unfolding find hidden

  find-hidden : (n : MptNode) (key : List ℕ) (d : B256) → hidden n key ≡ some d → find n key ≡ none
  find-hidden (node null c) key d h = refl
  find-hidden (node (branch cs) c) [] d h = refl
  find-hidden (node (branch cs) c) (i ∷ tail) d h = find_child-hidden cs i tail d h
  find-hidden (node (leaf prefix value) c) key d h = absurd (cc)
  find-hidden (node (extension prefix n) c) key d h =
      below n (strip_prefix key (path_of prefix)) d (λ t. find-hidden n t d) h
  find-hidden (node (digest x) c) key d h = refl

  find_child-hidden :
      (cs : Children) (i : ℕ) (tail : List ℕ) (d : B256)
      → hidden_child cs i tail ≡ some d
      → find_child cs i tail ≡ none
  find_child-hidden nil i tail d h = refl
  find_child-hidden (vacant cs) zero tail d h = refl
  find_child-hidden (child n cs) zero tail d h = find-hidden n tail d h
  find_child-hidden (vacant cs) (suc i) tail d h = find_child-hidden cs i tail d h
  find_child-hidden (child n cs) (suc i) tail d h = find_child-hidden cs i tail d h

-- The same, outside the block.
pub find-hidden_lem :
    (n : MptNode) (key : List ℕ) (d : B256) → hidden n key ≡ some d → find n key ≡ none
find-hidden_lem n key d h = find-hidden n key d h

-- An operation that ends as `Ends` says, for a key that a digest hides.
fails_at_digest :
    (d : B256) (o : Option B256) (l : ℕ) (m : Result Error (Bool × MptNode))
    → o ≡ some d
    → Ends o l m
    → m ≡ err (node_not_resolved d)
fails_at_digest d o l (ok r) h e = absurd (cc (h, e.0))
fails_at_digest d o l (err (node_not_resolved x)) h e =
    let same : some x ≡ some d = cc (h, e) in cc (same)
fails_at_digest d o l (err value_in_branch) h e = elim e [ ]
fails_at_digest d o l (err rlp) h e = elim e [ ]
fails_at_digest d o l (err legacy_rlp) h e = elim e [ ]
fails_at_digest d o l panic h e = elim e [ ]

-- On a valid trie whose keys all have `l` nibbles, and for a key of that length whose descent ends
-- in a digest, `get` answers that the key is absent, whatever the digest stands for, while `insert`
-- of a value that is not empty and `delete` fail with the error that names the digest.
pub get-hidden :
    (n : MptNode) (key value : List ℕ) (l : ℕ) (d : B256)
    → IsValid n
    → IsUniform n l
    → All IsByte key
    → length (to_nibs key) ≡ l
    → 1 ≤ length value
    → hidden n (to_nibs key) ≡ some d
    → (get n key ≡ ok none)
      × (insert n key value ≡ err (node_not_resolved d))
      × (delete n key ≡ err (node_not_resolved d))
get-hidden n key value l d v u k e one h = (
  get-find n key v k ∙ ap ok (find-hidden n (to_nibs key) d h),
  fails_at_digest d (hidden n (to_nibs key)) l (insert n key value) h
      (insert-Ends n key value l v u k e one),
  fails_at_digest d (hidden n (to_nibs key)) l (delete n key) h (delete-Ends n key l v u k e),
)
