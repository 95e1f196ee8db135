-- ===== src/State/Proofs/Tests.antt =====
-- An example of proofs: one account with one slot, each a trie of one leaf.
use pico_subblock.Prelude.{ℕ, none, [], ◌∷◌, List}
use pico_subblock.Mpt.{MptNode, node, leaf}
use pico_subblock.Mpt.Hash.{empty_root, fill}
use pico_subblock.Mpt.Decode.Toy.{toy}
use pico_subblock.State.{EthereumState}
use pico_subblock.State.Proofs.{AccountProof}
use pico_subblock.State.Proofs.Rooted.{Rooted}

abbrev leaf_bytes : List ℕ
leaf_bytes = 4 ∷ 0x81 ∷ 0x32 ∷ 0x81 ∷ 1 ∷ []

abbrev proofs : List (List ℕ × AccountProof)
proofs =
    (
      0x71 ∷ [],
      record {
        proof = leaf_bytes ∷ [];
        storage_root = empty_root;
        storage_proofs = record { key = 0x11 ∷ []; proof = leaf_bytes ∷ [] } ∷ [];
      },
    )
    ∷ []

abbrev filled_leaf : MptNode
filled_leaf = fill toy (node (leaf (0x32 ∷ []) (1 ∷ [])) none)

abbrev state : EthereumState
state = record { state_trie = filled_leaf; storage_tries = (empty_root, filled_leaf) ∷ [] }
