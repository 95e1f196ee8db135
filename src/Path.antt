-- ===== src/Path.antt =====
-- crates/mpt/src/mpt.rs: nibble paths and their encoding into bytes (`to_nibs`, `to_encoded_path`,
-- `lcp`, `prefix_nibs`). A `u8` is a number; `+` and `<<` on it keep their wrap-around.
pub mod Codec
pub mod Split
mod Tests
use Prim.Native.Nat.{bit_and}
use mathlib.Core.List.{zip}
use pico_subblock.Prelude.{
  ℕ, zero, suc, ◌+◌, ◌*◌, ◌/◌, ◌%◌, ◌<◌, min, Bool, true, false, Option, none, some, List, [], ◌∷◌,
  ◌==◌, if◌then◌else◌, length, All,
}
use pico_subblock.Result.{Result, ok, panic}

-- The nibbles and the bytes among the numbers.
abbrev pub IsNibble : ℕ → Type 0
IsNibble n = n < 16

abbrev pub IsByte : ℕ → Type 0
IsByte b = b < 256

-- `byte >> 4` and `byte & 0xf`
unfoldable pub high : ℕ → ℕ
high b = b / 16

unfoldable pub low : ℕ → ℕ
low b = bit_and b 0xf

unfoldable pub to_nibs : List ℕ → List ℕ
unfolding high low
to_nibs [] = []
to_nibs (b ∷ bs) = high b ∷ low b ∷ to_nibs bs

-- `nibs.chunks_exact(2).map(|byte| (byte[0] << 4) + byte[1])`, on `u8`
unfoldable pub pack_pairs : List ℕ → List ℕ
pack_pairs [] = []
pack_pairs (a ∷ []) = []
pack_pairs (a ∷ b ∷ r) = ((a * 16 % 256 + b) % 256) ∷ pack_pairs r

-- An odd number of nibbles: the first one goes into the prefix byte.
unfoldable pub encode_odd : ℕ → List ℕ → List ℕ
unfolding pack_pairs
encode_odd prefix [] = prefix ∷ []
encode_odd prefix (n ∷ r) = ((prefix + (0x10 + n)) % 256) ∷ pack_pairs r

unfoldable pub to_encoded_path : List ℕ → Bool → List ℕ
unfolding pack_pairs encode_odd
to_encoded_path nibs is_leaf =
    let prefix = if is_leaf then 0x20 else 0 in
    if length nibs % 2 == 0 then prefix ∷ pack_pairs nibs else encode_odd prefix nibs

-- The loop over the zipped slices, at index `i`; `m` is the value after the loop.
unfoldable pub lcp_loop : ℕ → List (ℕ × ℕ) → ℕ → ℕ
lcp_loop i [] m = m
lcp_loop i ((a, b) ∷ r) m = let rest = lcp_loop (i + 1) r m in if a == b then rest else i

unfoldable pub lcp : List ℕ → List ℕ → ℕ
unfolding lcp_loop zip
lcp a b = lcp_loop 0 (zip a b) (min (length a) (length b))

-- `split_first().unwrap()` panics on an empty slice; the loop over the tail is that of `to_nibs`.
unfoldable pub prefix_nibs {ℓ} : {E : Type ℓ} → List ℕ → Result E (List ℕ)
unfolding to_nibs low
prefix_nibs [] = panic
prefix_nibs (extension ∷ tail) =
    if bit_and extension 0x10 == 0 then ok (to_nibs tail) else ok (low extension ∷ to_nibs tail)

-- `slice::strip_prefix`
unfoldable pub strip_prefix : List ℕ → List ℕ → Option (List ℕ)
strip_prefix key [] = some key
strip_prefix [] (p ∷ ps) = none
strip_prefix (k ∷ ks) (p ∷ ps) = if k == p then strip_prefix ks ps else none

-- `slice[i]`, which panics out of range
unfoldable pub index {ℓ} : {E : Type ℓ} → List ℕ → ℕ → Result E ℕ
index [] i = panic
index (x ∷ xs) zero = ok x
index (x ∷ xs) (suc i) = index xs i

-- `path[0]` and the test of `decode` on it: `(prefix & (2 << 4)) == 0` marks an extension.
unfoldable pub marks_extension {ℓ} : {E : Type ℓ} → List ℕ → Result E Bool
marks_extension [] = panic
marks_extension (prefix ∷ tail) = ok (bit_and prefix (2 * 16) == 0)
