-- ===== src/Mpt/Decode/Toy.antt =====
-- A small encoding that has the laws of RLP that the decoder of crates/mpt/src/mpt.rs relies on,
-- with its parser, for the examples: a header is the length, above 0x80 for a string.
use pico_subblock.Prelude.{
  ℕ, zero, suc, ◌+◌, ◌-◌, ◌≤◌, ◌<◌, ◌≡◌, refl, ap, ◌∙◌, true, false, Option, some, none, List, [],
  ◌∷◌, ◌++◌, leb, if◌then◌else◌, length, length-append, All, take, drop, take-length_append,
  drop-length_append, arith, Bool-cases, inl, inr,
}
use pico_subblock.Mpt.Hash.{External, empty_root}
use pico_subblock.Mpt.Hash.Length.{IsDocumented}
use pico_subblock.Mpt.Decode.{Prototype, Rlp}
use pico_subblock.Mpt.Decode.Fuel.{IsShrinking}
use pico_subblock.Mpt.Decode.Items.{
  Item, Items, string, list, no_items, item, count, encode_item, encode_items, encodings, Parses,
}

unfoldable pub string_of : List ℕ → List ℕ
string_of b = (0x80 + length b) ∷ b

unfoldable pub header_of : ℕ → List ℕ
header_of n = if leb n 55 then n ∷ [] else 56 ∷ n ∷ []

abbrev pub toy : External
toy = record {
  keccak = λ b. empty_root;
  empty_string_code = 0x80;
  list_header = header_of;
  encode_string = string_of;
  string_length = λ b. suc (length b);
  length_of_length = λ n. if leb n 55 then 1 else 2;
}

pub toy-IsDocumented : IsDocumented toy
unfolding header_of string_of
toy-IsDocumented = record {
  header = λ n. elim (Bool-cases (leb n 55)) [ inl s ↦ rw s refl | inr l ↦ rw l refl ];
  string = λ b. refl;
  hash_size = λ b. refl;
  short = λ n h. ground arith;
  word = λ d h. ap suc h;
}

-- The first item, and what is behind it.
unfoldable pub first : List ℕ → List ℕ × List ℕ
first [] = ([], [])
first (h ∷ []) = (h ∷ [], [])
first (h ∷ n ∷ r) =
    if leb 0x80 h
    then (h ∷ take (h - 0x80) (n ∷ r), drop (h - 0x80) (n ∷ r))
    else if leb h 55
    then (h ∷ take h (n ∷ r), drop h (n ∷ r))
    else (h ∷ n ∷ take n r, drop n r)

unfoldable pub split : ℕ → List ℕ → List (List ℕ)
unfolding first
split zero bytes = []
split (suc f) [] = []
split (suc f) (h ∷ r) = (first (h ∷ r)).0 ∷ split f (first (h ∷ r)).1

unfoldable pub payload : List ℕ → List ℕ
payload [] = []
payload (h ∷ r) = if leb h 55 then r else drop 1 r

unfoldable pub items_of : List ℕ → List (List ℕ)
unfolding split payload
items_of bytes = split (length bytes) (payload bytes)

unfoldable pub prototype_of : List ℕ → Option Prototype
unfolding items_of
prototype_of [] = some Prototype.null
prototype_of (h ∷ r) = some (
    if leb 0x80 h
    then Prototype.of_data (h - 0x80)
    else Prototype.of_list (length (items_of (h ∷ r))))

unfoldable pub value_of : List ℕ → Option (List ℕ)
value_of [] = none
value_of (h ∷ r) = some r

abbrev pub parser : Rlp
parser = record { prototype = prototype_of; as_val = value_of; items = items_of }

first-string : (b rest : List ℕ) → first (string_of b ++ rest) ≡ (string_of b, rest)
unfolding first string_of
first-string [] [] = refl
first-string [] (x ∷ rest) = refl
first-string (x ∷ b) rest =
    let s : leb 0x80 (0x80 + suc (length b)) ≡ true = ground arith in
    let d : 0x80 + suc (length b) - 0x80 ≡ suc (length b) = omega arith in
    rw (s, d, take-length_append b rest, drop-length_append b rest) refl

first-list :
    (p rest : List ℕ)
    → first ((header_of (length p) ++ p) ++ rest) ≡ (header_of (length p) ++ p, rest)
unfolding first header_of
first-list p rest = elim (Bool-cases (leb (length p) 55)) [
  | inl s ↦ rw s (short p rest s)
  | inr l ↦ rw (l, take-length_append p rest, drop-length_append p rest) refl
]
  where
    short :
        (p rest : List ℕ)
        → leb (length p) 55 ≡ true
        → first (length p ∷ (p ++ rest)) ≡ (length p ∷ p, rest)
    short [] [] s = refl
    short [] (x ∷ rest) s = refl
    short (x ∷ p) rest s =
        let n : leb 0x80 (suc (length p)) ≡ false = ground arith in
        rw (n, s, take-length_append p rest, drop-length_append p rest) refl

pub first-item :
    (i : Item) (rest : List ℕ) → first (encode_item toy i ++ rest) ≡ (encode_item toy i, rest)
unfolding encode_item
first-item (string b) rest = first-string b rest
first-item (list is) rest = first-list (encode_items toy is) rest

header-pos : (n : ℕ) → 1 ≤ length (header_of n)
unfolding header_of
header-pos n = elim (Bool-cases (leb n 55)) [
  | inl s ↦ rw s (omega arith)
  | inr l ↦ rw l (omega arith)
]

encode_item-pos : (i : Item) → 1 ≤ length (encode_item toy i)
unfolding encode_item string_of
encode_item-pos (string b) = omega arith
encode_item-pos (list is) = omega (
  arith,
  header-pos (length (encode_items toy is)),
  length-append (header_of (length (encode_items toy is))) (encode_items toy is),
)

split-first :
    (f : ℕ) (i : Item) (rest : List ℕ)
    → split (suc f) (encode_item toy i ++ rest) ≡ encode_item toy i ∷ split f rest
unfolding split
split-first f i rest =
    go (encode_item toy i ++ rest)
      (omega (arith, encode_item-pos i, length-append (encode_item toy i) rest))
    ∙ rw (first-item i rest) refl
  where
    go :
        (bytes : List ℕ)
        → 1 ≤ length bytes
        → split (suc f) bytes ≡ (first bytes).0 ∷ split f (first bytes).1
    go [] h = elim h [ ]
    go (b ∷ bytes) h = refl

nothing : (f : ℕ) → split f [] ≡ []
unfolding split
nothing zero = refl
nothing (suc f) = refl

split-items :
    (f : ℕ) (is : Items)
    → length (encode_items toy is) ≤ f
    → split f (encode_items toy is) ≡ encodings toy is
unfolding encode_item encodings
split-items zero no_items h = nothing zero
split-items (suc f) no_items h = nothing (suc f)
split-items zero (item i is) h =
    absurd
      (omega (arith, encode_item-pos i, length-append (encode_item toy i) (encode_items toy is)))
split-items (suc f) (item i is) h =
    split-first f i (encode_items toy is)
    ∙ ap (λ l. encode_item toy i ∷ l)
        (split-items f is (
          omega
            (arith, encode_item-pos i, length-append (encode_item toy i) (encode_items toy is))))

payload-list : (is : Items) → payload (encode_item toy (list is)) ≡ encode_items toy is
unfolding payload encode_item header_of
payload-list is = elim (Bool-cases (leb (length (encode_items toy is)) 55)) [
  | inl s ↦ rw (s, s) refl
  | inr l ↦ rw l refl
]

longer_list : (is : Items) → length (encode_items toy is) ≤ length (encode_item toy (list is))
unfolding encode_item
longer_list is =
    omega (arith, length-append (header_of (length (encode_items toy is))) (encode_items toy is))

of_list :
    (n : ℕ) (p : List ℕ)
    → prototype_of (header_of n ++ p)
      ≡ some (Prototype.of_list (length (items_of (header_of n ++ p))))
unfolding prototype_of header_of
of_list n p = elim (Bool-cases (leb n 55)) [
  | inl s ↦ let h : leb 0x80 n ≡ false = ground arith in rw s (rw h refl)
  | inr l ↦ rw l refl
]

items-list : (is : Items) → items_of (encode_item toy (list is)) ≡ encodings toy is
unfolding items_of
items-list is =
    rw (payload-list is) (split-items (length (encode_item toy (list is))) is (longer_list is))

length-encodings : (is : Items) → length (encodings toy is) ≡ count is
unfolding encodings count
length-encodings no_items = refl
length-encodings (item i is) = ap suc (length-encodings is)

prototype-list :
    (is : Items) → prototype_of (encode_item toy (list is)) ≡ some (Prototype.of_list (count is))
unfolding encode_item
prototype-list is =
    of_list (length (encode_items toy is)) (encode_items toy is)
    ∙ ap (λ l. some (Prototype.of_list (length l))) (items-list is)
    ∙ ap (λ n. some (Prototype.of_list n)) (length-encodings is)

pub toy-Parses : Parses toy parser
unfolding prototype_of value_of string_of encode_item
toy-Parses = record {
  string_prototype = λ b.
      let s : leb 0x80 (0x80 + length b) ≡ true = ground arith in
      let d : 0x80 + length b - 0x80 ≡ length b = omega arith in rw (s, d) refl;
  string_value = λ b. refl;
  list_prototype = prototype-list;
  list_items = items-list;
  header = header-pos;
  empty = refl;
  word = λ d h. rw h refl;
}

length-take : (n : ℕ) (l : List ℕ) → length (take n l) ≤ length l
length-take zero l = omega arith
length-take (suc n) [] = omega arith
length-take (suc n) (x ∷ l) = omega (arith, length-take n l)

length-drop : (n : ℕ) (l : List ℕ) → length (drop n l) ≤ length l
length-drop zero l = omega arith
length-drop (suc n) [] = omega arith
length-drop (suc n) (x ∷ l) = omega (arith, length-drop n l)

length-first : (l : List ℕ) → (length (first l).0 ≤ length l) × (length (first l).1 ≤ length l)
unfolding first
length-first [] = (omega arith, omega arith)
length-first (h ∷ []) = (omega arith, omega arith)
length-first (h ∷ n ∷ r) = elim (Bool-cases (leb 0x80 h)) [
  | inl s ↦ rw s (
      (
        omega (arith, length-take (h - 0x80) (n ∷ r)),
        omega (arith, length-drop (h - 0x80) (n ∷ r)),
      ))
  | inr l ↦ elim (Bool-cases (leb h 55)) [
    | inl s ↦
        rw (l, s) ((omega (arith, length-take h (n ∷ r)), omega (arith, length-drop h (n ∷ r))))
    | inr k ↦ rw (l, k) ((omega (arith, length-take n r), omega (arith, length-drop n r)))
  ]
]

split-All : (f k : ℕ) (l : List ℕ) → length l < k → All (λ (i : List ℕ). length i < k) (split f l)
unfolding split
split-All zero k l h = tt
split-All (suc f) k [] h = tt
split-All (suc f) k (x ∷ l) h =
    let s = length-first (x ∷ l) in
    (omega (arith, s.0), split-All f k (first (x ∷ l)).1 (omega (arith, s.1)))

pub parser-IsShrinking : IsShrinking parser
unfolding items_of payload
parser-IsShrinking [] = tt
parser-IsShrinking (h ∷ r) = elim (Bool-cases (leb h 55)) [
  | inl s ↦ rw s (split-All (suc (length r)) (suc (length r)) r (omega arith))
  | inr l ↦
      rw l (split-All (suc (length r)) (suc (length r)) (drop 1 r) (omega (arith, length-drop 1 r)))
]
