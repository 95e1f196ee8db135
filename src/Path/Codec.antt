-- ===== src/Path/Codec.antt =====
-- The path encoding of crates/mpt/src/mpt.rs, `prefix_nibs` and `to_nibs`: round trips.
use Prim.Native.Nat.{bit_and}
use pico_subblock.Prelude.{
  ℕ, ◌+◌, ◌*◌, ◌%◌, ◌≡◌, refl, ap, Bool, true, false, List, [], ◌∷◌, ◌==◌, if◌then◌else◌, length,
  All, arith, inl, inr, Bool-cases, not, ==_iff,
}
use pico_subblock.Prelude.Bits.{bit_and_low, bit_and_odd, bit_and_leaf}
use pico_subblock.Result.{Result, ok}
use pico_subblock.Path.{
  IsNibble, IsByte, low, to_nibs, pack_pairs, encode_odd, to_encoded_path, prefix_nibs,
  marks_extension,
}

low-eq : (b : ℕ) → IsByte b → low b ≡ b % 16
unfolding low
low-eq b h = bit_and_low b h

-- The nibbles of bytes are nibbles, two for each byte.
pub to_nibs-IsNibble : (bs : List ℕ) → All IsByte bs → All IsNibble (to_nibs bs)
unfolding to_nibs
to_nibs-IsNibble [] h = tt
to_nibs-IsNibble (b ∷ bs) h =
    (omega arith, (omega (arith, bit_and_low b h.0), to_nibs-IsNibble bs h.1))

-- Two byte strings with the same nibbles are the same.
pub to_nibs_injective :
    (xs ys : List ℕ) → All IsByte xs → All IsByte ys → to_nibs xs ≡ to_nibs ys → xs ≡ ys
unfolding to_nibs
to_nibs_injective [] [] ha hb e = refl
to_nibs_injective [] (b ∷ ys) ha hb e = ground arith
to_nibs_injective (a ∷ xs) [] ha hb e = ground arith
to_nibs_injective (a ∷ xs) (b ∷ ys) ha hb e =
    ground (arith, bit_and_low a ha.0, bit_and_low b hb.0, to_nibs_injective xs ys ha.1 hb.1)

-- A byte packed from two nibbles.
pair-IsByte : (a b : ℕ) → IsNibble a → IsNibble b → IsByte ((a * 16 % 256 + b) % 256)
pair-IsByte a b ha hb = omega arith

to_nibs-pack_pairs : (l : List ℕ) → All IsNibble l → length l % 2 ≡ 0 → to_nibs (pack_pairs l) ≡ l
unfolding to_nibs pack_pairs
to_nibs-pack_pairs [] h e = refl
to_nibs-pack_pairs (a ∷ []) h e = absurd (omega arith)
to_nibs-pack_pairs (a ∷ b ∷ r) (ha, (hb, hr)) e = ground (
  arith,
  bit_and_low ((a * 16 % 256 + b) % 256) (pair-IsByte a b ha hb),
  to_nibs-pack_pairs r hr (omega arith),
)

pack_pairs-IsByte : (l : List ℕ) → All IsNibble l → All IsByte (pack_pairs l)
unfolding pack_pairs
pack_pairs-IsByte [] h = tt
pack_pairs-IsByte (a ∷ []) h = tt
pack_pairs-IsByte (a ∷ b ∷ r) (ha, (hb, hr)) = (pair-IsByte a b ha hb, pack_pairs-IsByte r hr)

-- The stored form of a path: at least the prefix byte, and bytes only.
abbrev pub IsPath : List ℕ → Type 0
IsPath [] = ⊥
IsPath (e ∷ tail) = IsByte e × All IsByte tail

-- The prefix byte, from the leaf flag and the first nibble of an odd path.
first-IsByte :
    (is_leaf : Bool) (n : ℕ)
    → IsNibble n
    → IsByte (((if is_leaf then 0x20 else 0) + (0x10 + n)) % 256)
first-IsByte is_leaf n h = ground arith

pub to_encoded_path-IsPath :
    (nibs : List ℕ) (is_leaf : Bool) → All IsNibble nibs → IsPath (to_encoded_path nibs is_leaf)
unfolding to_encoded_path
to_encoded_path-IsPath nibs is_leaf h = elim (Bool-cases (length nibs % 2 == 0)) [
  | inl even ↦ rw even (ground arith, pack_pairs-IsByte nibs h)
  | inr odd ↦ rw odd (odd_case nibs h)
]
  where
    odd_case : (l : List ℕ) → All IsNibble l → IsPath (encode_odd (if is_leaf then 0x20 else 0) l)
    odd_case [] hl = (ground arith, tt)
    odd_case (n ∷ r) hl = (first-IsByte is_leaf n hl.0, pack_pairs-IsByte r hl.1)

even_prefix : (is_leaf : Bool) → (bit_and (if is_leaf then 0x20 else 0) 0x10 == 0) ≡ true
even_prefix true = refl
even_prefix false = refl

odd_prefix :
    (is_leaf : Bool) (n : ℕ)
    → IsNibble n
    → ((bit_and (((if is_leaf then 0x20 else 0) + (0x10 + n)) % 256) 0x10 == 0) ≡ false)
      × (low (((if is_leaf then 0x20 else 0) + (0x10 + n)) % 256) ≡ n)
unfolding low
odd_prefix is_leaf n h =
    let x = ((if is_leaf then 0x20 else 0) + (0x10 + n)) % 256 in
    ground
      (arith, bit_and_odd x (first-IsByte is_leaf n h), bit_and_low x (first-IsByte is_leaf n h))

-- `prefix_nibs` reads back the nibbles that `to_encoded_path` encodes, for a leaf and for an
-- extension, whether their number is even or odd.
pub prefix_nibs-to_encoded_path {ℓ} :
    {E : Type ℓ} (nibs : List ℕ) (is_leaf : Bool)
    → All IsNibble nibs
    → prefix_nibs {E = E} (to_encoded_path nibs is_leaf) ≡ ok nibs
unfolding to_encoded_path prefix_nibs
prefix_nibs-to_encoded_path {E} nibs is_leaf h = elim (Bool-cases (length nibs % 2 == 0)) [
  | inl even ↦
      rw (even, even_prefix is_leaf, prefix_nibs)
        (ap ok (to_nibs-pack_pairs nibs h ((==_iff _ _).0 even)))
  | inr odd ↦ rw odd (odd_case nibs h odd)
]
  where
    odd_case :
        (l : List ℕ)
        → All IsNibble l
        → (length l % 2 == 0) ≡ false
        → prefix_nibs {E = E} (encode_odd (if is_leaf then 0x20 else 0) l) ≡ ok l
    odd_case [] hl odd = ground arith
    odd_case (n ∷ r) hl odd =
        ground (arith, odd_prefix is_leaf n hl.0, to_nibs-pack_pairs r hl.1 (ground arith))

-- The flag bit that `decode` tests tells a leaf path from an extension path.
pub marks_extension-to_encoded_path {ℓ} :
    {E : Type ℓ} (nibs : List ℕ) (is_leaf : Bool)
    → All IsNibble nibs
    → marks_extension {E = E} (to_encoded_path nibs is_leaf) ≡ ok (not is_leaf)
unfolding to_encoded_path marks_extension
marks_extension-to_encoded_path {E} nibs is_leaf h = elim (Bool-cases (length nibs % 2 == 0)) [
  | inl even ↦ rw (even, marks_extension) (even_case is_leaf)
  | inr odd ↦ rw (odd, marks_extension) (odd_case nibs h is_leaf)
]
  where
    even_case :
        (l : Bool)
        → ◌≡◌ {A = Result E Bool} (ok (bit_and (if l then 0x20 else 0) (2 * 16) == 0)) (ok (not l))
    even_case true = refl
    even_case false = refl

    odd_case :
        (l : List ℕ)
        → All IsNibble l
        → (b : Bool) → marks_extension {E = E} (encode_odd (if b then 0x20 else 0) l) ≡ ok (not b)
    odd_case [] hl true = refl
    odd_case [] hl false = refl
    odd_case (n ∷ r) hl true =
        ground (arith, bit_and_leaf ((0x20 + (0x10 + n)) % 256) (first-IsByte true n hl.0))
    odd_case (n ∷ r) hl false =
        ground (arith, bit_and_leaf ((0 + (0x10 + n)) % 256) (first-IsByte false n hl.0))
