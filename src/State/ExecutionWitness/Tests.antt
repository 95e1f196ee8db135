-- ===== src/State/ExecutionWitness/Tests.antt =====
-- An example of an execution witness: a leaf whose key is the root of an empty trie. All hashes are
-- equal here, so that the leaf is its own storage trie.
use native.Mathlib.Decide.{ℕ_discrete}
use pico_subblock.Prelude.{
  ℕ, ◌+◌, ◌*◌, ◌≡◌, ◌≤◌, refl, Option, some, none, [], ◌∷◌, ◌++◌, List, beq, arith,
}
use pico_subblock.Result.{ok, panic}
use pico_subblock.Path.{to_nibs, prefix_nibs, marks_extension}
use pico_subblock.Mpt.{MptNode, node, leaf, is_digest}
use pico_subblock.Mpt.Get.{get, get_internal}
use pico_subblock.Mpt.Hash.{empty_root, fill, hash, reference, calc_reference}
use pico_subblock.Mpt.Decode.{decode}
use pico_subblock.Mpt.Decode.Toy.{toy, parser, prototype_of, value_of, header_of, string_of}
use pico_subblock.Mpt.Leaves.{Nibbles, count, for_each_leaves}
use pico_subblock.Mpt.Leaves.Fuel.{for_each_leaves-count}
use pico_subblock.Mpt.Resolve.{resolve_nodes}
use pico_subblock.State.{EthereumState, TrieAccount, lookup, set_entry, get_rlp, after_hash}
use pico_subblock.State.Prune.{B256_discrete}
use pico_subblock.State.Proofs.{insert_nodes}
use pico_subblock.State.ExecutionWitness.{WitnessError, build_validated_tries}
use pico_subblock.State.ExecutionWitness.Validated.{Validated, build_validated_tries-Validated}

unfoldable pack_pairs : List ℕ → List ℕ
pack_pairs [] = []
pack_pairs (i ∷ []) = 16 * i ∷ []
pack_pairs (i ∷ j ∷ path) = (16 * i + j) ∷ pack_pairs path

abbrev nibbles : Nibbles
nibbles = record {
  push = λ path i. some (path ++ (i ∷ []));
  extend = λ path nibs. some (path ++ nibs);
  pack = pack_pairs;
}

abbrev account : TrieAccount
account = record { nonce = 1; balance = 0; storage_root = empty_root; code_hash = [] }

abbrev decode_account : List ℕ → Option TrieAccount
decode_account [] = none
decode_account (b ∷ bytes) = some account

abbrev leaf_bytes : List ℕ
leaf_bytes = 36 ∷ 0xa1 ∷ 0x20 ∷ (empty_root ++ (0x81 ∷ 1 ∷ []))

abbrev leaf_node : MptNode
leaf_node = node (leaf (0x20 ∷ empty_root) (1 ∷ [])) none

abbrev state : EthereumState
state = record {
  state_trie = fill toy leaf_node;
  storage_tries = (empty_root, fill toy leaf_node) ∷ [];
}

leaves :
    for_each_leaves {E = WitnessError} nibbles panic 1 ((leaf_node, []) ∷ [])
    ≡ ok ((empty_root, 1 ∷ []) ∷ [])
unfolding for_each_leaves prefix_nibs pack_pairs
leaves = refl

built :
    build_validated_tries toy parser nibbles decode_account 5 (leaf_bytes ∷ []) empty_root
    ≡ ok state
unfolding build_validated_tries decode prototype_of value_of marks_extension B256_discrete
    ℕ_discrete prefix_nibs pack_pairs beq hash reference calc_reference header_of string_of get
    get_internal to_nibs resolve_nodes insert_nodes set_entry lookup is_digest get_rlp after_hash
    fill count for_each_leaves
built = refl

build_validated_tries-Validated_example :
    Validated toy parser nibbles decode_account empty_root state
build_validated_tries-Validated_example =
    build_validated_tries-Validated toy parser nibbles decode_account 5 (leaf_bytes ∷ []) empty_root
      state built

one_leaf : count leaf_node ≤ 3
unfolding count
one_leaf = omega arith

for_each_leaves-count_example :
    for_each_leaves {E = WitnessError} nibbles (ok []) 3 ((leaf_node, []) ∷ [])
    ≡ for_each_leaves nibbles panic (count leaf_node) ((leaf_node, []) ∷ [])
for_each_leaves-count_example = for_each_leaves-count nibbles panic (ok []) 3 leaf_node [] one_leaf
