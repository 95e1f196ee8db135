-- ===== src/Mpt/Tests.antt =====
-- Examples of tries: a trie of two words, and runs of the operations on it.
use pico_subblock.Prelude.{
  ℕ, suc, ap, ◌<◌, ◌≡◌, refl, true, false, none, some, List, [], ◌∷◌, arith, All, length, beq,
}
use pico_subblock.Result.{ok, err, ◌>>=◌}
use pico_subblock.Path.{IsByte, to_nibs, prefix_nibs}
use pico_subblock.Mpt.{
  node_not_resolved, MptNode, MptNodeData, MptNodeReference, Children, node, branch, leaf,
  extension, nil, vacant, child, is_empty,
}
use pico_subblock.Mpt.Valid.{IsValid, path_of, width, occupied}
use pico_subblock.Mpt.Uniform.{IsUniform, hidden}
use pico_subblock.Mpt.Get.{get}
use pico_subblock.Mpt.Get.Entries.{entries, value_at, get-entries}
use pico_subblock.Mpt.Hidden.{get-hidden}
use pico_subblock.Mpt.Insert.{insert}
use pico_subblock.Mpt.Insert.Reads.{InsertReads, get-insert}
use pico_subblock.Mpt.Insert.Total.{Ends, insert-Ends}
use pico_subblock.Mpt.Insert.Coherent.{Keeps, insert-IsCoherent}
use pico_subblock.Mpt.Delete.{delete, delete_internal, finish_branch}
use pico_subblock.Mpt.Delete.Reads.{DeleteReads, get-delete}
use pico_subblock.Mpt.Delete.Total.{delete-Ends}
use pico_subblock.Mpt.Delete.Coherent.{delete-IsCoherent}
use pico_subblock.Mpt.Hash.{
  short_or_digest, External, empty_root, encode, encoded_length, outline, hash, reference,
  calc_reference, fill,
}
use pico_subblock.Mpt.Touched.{
  get_with_touched, get_internal_with_touched, prune_unmarked_nodes, contains,
}
use pico_subblock.Mpt.Touched.Delete.{delete_with_touched, delete_internal_with_touched}
use pico_subblock.Mpt.Touched.Prune.{get-get_with_touched, hash-prune}
use pico_subblock.Mpt.Touched.Reads.{AreKept, get-prune}
use pico_subblock.Mpt.Touched.Inline.{reference-prune_inline}
use pico_subblock.Mpt.Proof.{mpt_from_proof, is_not_included}
use pico_subblock.Mpt.Proof.Root.{mpt_from_proof-Stands}
use pico_subblock.Mpt.Proof.Exclusion.{is_not_included-hidden}
use pico_subblock.Mpt.Hash.Length.{IsDocumented, length-encode, IsSized}
use pico_subblock.Mpt.Hash.Cache.{IsCoherent, without_caches, fill-IsCoherent_lem}
use pico_subblock.Mpt.Hash.Root.{root_hash, hash-root_hash}

-- The keys `b` and `q`, which share no nibble.
abbrev two_words_children : Children
two_words_children = vacant (
    vacant (
      vacant (
        vacant (
          vacant (
            vacant (
              child (node (leaf (0x32 ∷ []) (1 ∷ [])) none) (
                child (node (leaf (0x31 ∷ []) (2 ∷ [])) none)
                  (vacant (vacant (vacant (vacant (vacant (vacant (vacant (vacant nil)))))))))))))))

abbrev two_words : MptNode
two_words = node (branch two_words_children) none

two_words-IsValid : IsValid two_words
unfolding width occupied is_empty
two_words-IsValid = ((refl, (omega arith, tt), (refl, (omega arith, tt), tt)), refl, omega arith)

two_words-IsUniform : IsUniform two_words 2
unfolding path_of prefix_nibs
two_words-IsUniform = (refl, (refl, tt))

key-IsByte : (b : ℕ) → b < 256 → All IsByte (b ∷ [])
key-IsByte b h = (h, tt)

get-entries_example :
    get two_words (0x71 ∷ []) ≡ ok (value_at (entries two_words) (to_nibs (0x71 ∷ [])))
get-entries_example =
    get-entries two_words (0x71 ∷ []) two_words-IsValid (key-IsByte 0x71 (omega arith))

two_words-entries : entries two_words ≡ (6 ∷ 2 ∷ [], 1 ∷ []) ∷ (7 ∷ 1 ∷ [], 2 ∷ []) ∷ []
unfolding path_of prefix_nibs
two_words-entries = refl

get-insert_example :
    InsertReads two_words (0x72 ∷ []) (3 ∷ []) (0x71 ∷ []) (insert two_words (0x72 ∷ []) (3 ∷ []))
get-insert_example =
    get-insert two_words (0x72 ∷ []) (3 ∷ []) (0x71 ∷ []) two_words-IsValid
      (key-IsByte 0x72 (omega arith)) (key-IsByte 0x71 (omega arith)) (omega arith)

insert-Ends_example :
    Ends (hidden two_words (to_nibs (0x72 ∷ []))) 2 (insert two_words (0x72 ∷ []) (3 ∷ []))
unfolding to_nibs
insert-Ends_example =
    insert-Ends two_words (0x72 ∷ []) (3 ∷ []) 2 two_words-IsValid two_words-IsUniform
      (key-IsByte 0x72 (omega arith)) refl (omega arith)

get-delete_example : DeleteReads two_words (0x71 ∷ []) (0x62 ∷ []) (delete two_words (0x71 ∷ []))
get-delete_example =
    get-delete two_words (0x71 ∷ []) (0x62 ∷ []) two_words-IsValid (key-IsByte 0x71 (omega arith))
      (key-IsByte 0x62 (omega arith))

delete-Ends_example : Ends (hidden two_words (to_nibs (0x71 ∷ []))) 2 (delete two_words (0x71 ∷ []))
unfolding to_nibs
delete-Ends_example =
    delete-Ends two_words (0x71 ∷ []) 2 two_words-IsValid two_words-IsUniform
      (key-IsByte 0x71 (omega arith)) refl

-- A stand-in for alloy_rlp and Keccak, with the documented lengths.
abbrev external : External
external = record {
  keccak = λ b. empty_root;
  empty_string_code = 0x80;
  list_header = λ n. 0xc0 ∷ [];
  encode_string = λ b. 0x80 ∷ b;
  string_length = λ b. suc (length b);
  length_of_length = λ n. 1;
}

external-IsDocumented : IsDocumented external
external-IsDocumented = record {
  header = λ n. refl;
  string = λ b. refl;
  hash_size = λ b. refl;
  short = λ n h. refl;
  word = λ d h. ap suc h;
}

two_words-IsCoherent : IsCoherent external two_words
two_words-IsCoherent = (tt, ((tt, tt), ((tt, tt), tt)))

-- The trie with the caches that `hash` fills.
abbrev hashed_words : MptNode
hashed_words = fill external two_words

hashed_words-IsCoherent : IsCoherent external hashed_words
hashed_words-IsCoherent = fill-IsCoherent_lem external two_words two_words-IsCoherent

hashed_words-IsValid : IsValid hashed_words
unfolding width occupied is_empty fill
hashed_words-IsValid = ((refl, (omega arith, tt), (refl, (omega arith, tt), tt)), refl, omega arith)

insert-IsCoherent_example : Keeps external (insert hashed_words (0x72 ∷ []) (3 ∷ []))
insert-IsCoherent_example =
    insert-IsCoherent external hashed_words (0x72 ∷ []) (3 ∷ []) hashed_words-IsValid
      hashed_words-IsCoherent (key-IsByte 0x72 (omega arith))

delete-IsCoherent_example : Keeps external (delete hashed_words (0x71 ∷ []))
delete-IsCoherent_example =
    delete-IsCoherent external hashed_words (0x71 ∷ []) hashed_words-IsValid hashed_words-IsCoherent
      (key-IsByte 0x71 (omega arith))

-- A leaf that its branch holds by a hash, beside one that it holds inline.
abbrev long_word : MptNode
long_word =
    node
      (extension (0x16 ∷ []) (
        node
          (branch (
            child (node (leaf (0x32 ∷ []) empty_root) none)
              (child (node (leaf (0x31 ∷ []) (2 ∷ [])) none) nil)))
          none))
      none

long_word-Sized : IsSized (fill external long_word)
unfolding fill reference calc_reference short_or_digest encode
long_word-Sized = (refl, (refl, ((refl, tt), ((tt, tt), tt))))

hash-root_hash_example :
    hash external (fill external long_word) ≡ root_hash external (fill external long_word)
hash-root_hash_example =
    hash-root_hash external external-IsDocumented (fill external long_word)
      (fill-IsCoherent_lem external long_word (tt, ((tt, ((tt, tt), ((tt, tt), tt))))))
      long_word-Sized

abbrev two_words_data : MptNodeData
two_words_data = elim two_words [ node d c ↦ d ]

length-encode_example :
    length (encode external (outline external two_words_data))
    ≡ encoded_length external (outline external two_words_data)
length-encode_example =
    length-encode external external-IsDocumented two_words_data ((tt, tt), ((tt, tt), tt))

-- A trie of which a part is a digest.
abbrev truncated : MptNode
truncated =
    node
      (branch (
        vacant (
          vacant (
            vacant (
              vacant (
                vacant (
                  vacant (
                    child (node (leaf (0x32 ∷ []) (1 ∷ [])) none) (
                      child (node (MptNodeData.digest empty_root) none) (
                        vacant (
                          vacant
                            (vacant (vacant (vacant (vacant (vacant (vacant nil)))))))))))))))))
      none

truncated-IsValid : IsValid truncated
unfolding width occupied is_empty
truncated-IsValid = ((refl, (omega arith, tt), (refl, tt, tt)), refl, omega arith)

truncated-IsUniform : IsUniform truncated 2
unfolding path_of prefix_nibs
truncated-IsUniform = (refl, (tt, tt))

get-hidden_example :
    (get truncated (0x71 ∷ []) ≡ ok none)
    × (insert truncated (0x71 ∷ []) (3 ∷ []) ≡ err (node_not_resolved empty_root))
    × (delete truncated (0x71 ∷ []) ≡ err (node_not_resolved empty_root))
unfolding to_nibs hidden
get-hidden_example =
    get-hidden truncated (0x71 ∷ []) (3 ∷ []) 2 empty_root truncated-IsValid truncated-IsUniform
      (key-IsByte 0x71 (omega arith)) refl (omega arith) refl

-- Reads, deletions and pruning that report the nodes they meet.
get-get_with_touched_example :
    get two_words (0x71 ∷ []) ≡ (get_with_touched external two_words (0x71 ∷ []) >>= λ r. ok r.0)
get-get_with_touched_example = get-get_with_touched external two_words (0x71 ∷ [])

-- The deletion of `q` leaves the leaf of `b` in the place of the branch, as `delete` does.
deleted_with_touched :
    (delete_with_touched external two_words (0x71 ∷ []) >>= λ r. ok (without_caches r.0.1))
    ≡ (delete two_words (0x71 ∷ []) >>= λ r. ok r.1)
unfolding delete delete_with_touched delete_internal delete_internal_with_touched beq prefix_nibs
    is_empty
deleted_with_touched = refl

-- A deletion of what is not there leaves the caches that it has filled.
missed_with_touched :
    (delete_with_touched external two_words (0x31 ∷ []) >>= λ r. ok r.0)
    ≡ ok (false, fill external two_words)
unfolding delete_with_touched delete_internal_with_touched to_nibs finish_branch
missed_with_touched = refl

hash-prune_example :
    (hash external (prune_unmarked_nodes external two_words []) ≡ hash external two_words)
    × (reference external (prune_unmarked_nodes external two_words [])
        ≡ reference external two_words)
hash-prune_example = hash-prune external two_words [] two_words-IsCoherent

-- The references that the read of `q` reports: those of its leaf and of the root.
abbrev marked : List MptNodeReference
marked =
    reference external (node (leaf (0x31 ∷ []) (2 ∷ [])) none) ∷ reference external two_words ∷ []

read_q : get_with_touched external two_words (0x71 ∷ []) ≡ ok (some (2 ∷ []), marked)
unfolding get_with_touched get_internal_with_touched to_nibs prefix_nibs beq
read_q = refl

marked-AreKept : AreKept marked marked
unfolding contains reference calc_reference beq
marked-AreKept = (refl, (refl, tt))

get-prune_example :
    (get (prune_unmarked_nodes external two_words marked) (0x71 ∷ []) ≡ ok (some (2 ∷ [])))
    × (get two_words (0x71 ∷ []) ≡ ok (some (2 ∷ [])))
get-prune_example =
    get-prune external two_words (0x71 ∷ []) marked (some (2 ∷ [])) marked read_q marked-AreKept

abbrev two_words_bytes : List ℕ
two_words_bytes =
    0xc0 ∷ 0x80 ∷ 0x80 ∷ 0x80 ∷ 0x80 ∷ 0x80 ∷ 0x80 ∷ 0xc0 ∷ 0x80 ∷ 0x32 ∷ 0x80 ∷ 1 ∷ 0xc0 ∷ 0x80
    ∷ 0x31 ∷ 0x80 ∷ 2 ∷ 0x80 ∷ 0x80 ∷ 0x80 ∷ 0x80 ∷ 0x80 ∷ 0x80 ∷ 0x80 ∷ 0x80 ∷ 0x80 ∷ []

reference-prune_inline_example :
    reference external (without_caches (prune_unmarked_nodes external two_words []))
    ≡ MptNodeReference.digest empty_root
unfolding reference calc_reference contains
reference-prune_inline_example =
    reference-prune_inline external two_words_children none [] two_words_bytes refl refl

-- A proof of two nodes: the truncated trie and the leaf that its digest stands for.
abbrev big_leaf : MptNode
big_leaf = node (leaf (0x31 ∷ []) empty_root) none

abbrev proved_trie : MptNode
proved_trie =
    node
      (branch (
        vacant (
          vacant (
            vacant (
              vacant (
                vacant (
                  vacant (
                    child (node (leaf (0x32 ∷ []) (1 ∷ [])) none) (
                      child
                        (node (leaf (0x31 ∷ []) empty_root)
                          (some (MptNodeReference.digest empty_root)))
                        (vacant (
                          vacant
                            (vacant (vacant (vacant (vacant (vacant (vacant nil)))))))))))))))))
      none

proved : mpt_from_proof external (truncated ∷ big_leaf ∷ []) ≡ ok proved_trie
unfolding mpt_from_proof reference fill calc_reference beq
proved = refl

mpt_from_proof-Stands_example :
    (reference external proved_trie ≡ reference external truncated)
    × IsCoherent external proved_trie
mpt_from_proof-Stands_example =
    mpt_from_proof-Stands external truncated (big_leaf ∷ []) proved_trie
      ((tt, ((tt, tt), ((tt, tt), tt))), ((tt, tt), tt)) proved

truncated_proof : mpt_from_proof external (truncated ∷ []) ≡ ok truncated
unfolding mpt_from_proof
truncated_proof = refl

truncated-hidden : hidden truncated (to_nibs (0x71 ∷ [])) ≡ some empty_root
unfolding hidden to_nibs
truncated-hidden = refl

is_not_included-hidden_example : is_not_included external (0x71 ∷ []) (truncated ∷ []) ≡ ok true
is_not_included-hidden_example =
    is_not_included-hidden external (0x71 ∷ []) (truncated ∷ []) truncated empty_root
      truncated_proof truncated-IsValid (key-IsByte 0x71 (omega arith)) truncated-hidden
