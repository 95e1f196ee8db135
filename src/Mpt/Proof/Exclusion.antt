-- ===== src/Mpt/Proof/Exclusion.antt =====
-- `is_not_included` of crates/mpt/src/mpt.rs on the trie that a proof gives.
use pico_subblock.Prelude.{ℕ, ◌≡◌, ap, ◌∙◌, true, none, some, List, All}
use pico_subblock.Result.{ok}
use pico_subblock.Path.{IsByte, to_nibs}
use pico_subblock.Mpt.{B256, MptNode}
use pico_subblock.Mpt.Get.{get}
use pico_subblock.Mpt.Get.Find.{get-find}
use pico_subblock.Mpt.Valid.{IsValid}
use pico_subblock.Mpt.Uniform.{hidden}
use pico_subblock.Mpt.Hidden.{find-hidden_lem}
use pico_subblock.Mpt.Hash.{External}
use pico_subblock.Mpt.Proof.{mpt_from_proof, is_not_included}

module _ (ext : External) where
  -- Where a proof gives a valid trie and the descent for the key ends in a digest, so that the
  -- proof says nothing about the key, `is_not_included` answers that the key is excluded.
  pub is_not_included-hidden :
      (key : List ℕ) (nodes : List MptNode) (trie : MptNode) (d : B256)
      → mpt_from_proof ext nodes ≡ ok trie
      → IsValid trie
      → All IsByte key
      → hidden trie (to_nibs key) ≡ some d
      → is_not_included ext key nodes ≡ ok true
  unfolding is_not_included
  is_not_included-hidden key nodes trie d e v k h =
      let answer : get trie key ≡ ok none =
        get-find trie key v k ∙ ap ok (find-hidden_lem trie (to_nibs key) d h) in
      rw (e, answer)
