-- ===== src/Path/Tests.antt =====
-- Examples of nibble paths.
use pico_subblock.Prelude.{ℕ, ◌≡◌, refl, true, false, List, [], ◌∷◌, arith, All}
use pico_subblock.Result.{ok}
use pico_subblock.Mpt.{Error}
use pico_subblock.Path.{IsNibble, IsByte, to_encoded_path, prefix_nibs, marks_extension}
use pico_subblock.Path.Codec.{
  to_nibs_injective, prefix_nibs-to_encoded_path, marks_extension-to_encoded_path,
}

abbrev odd_path : List ℕ
odd_path = 1 ∷ 15 ∷ 7 ∷ []

odd_path-IsNibble : All IsNibble odd_path
odd_path-IsNibble = (omega arith, (omega arith, (omega arith, tt)))

encoded : to_encoded_path odd_path true ≡ 0x31 ∷ 0xf7 ∷ []
unfolding to_encoded_path
encoded = refl

prefix_nibs-to_encoded_path_example :
    prefix_nibs {E = Error} (to_encoded_path odd_path true) ≡ ok odd_path
prefix_nibs-to_encoded_path_example = prefix_nibs-to_encoded_path odd_path true odd_path-IsNibble

marks_extension-to_encoded_path_example :
    marks_extension {E = Error} (to_encoded_path odd_path true) ≡ ok false
marks_extension-to_encoded_path_example =
    marks_extension-to_encoded_path odd_path true odd_path-IsNibble

abbrev two_bytes : List ℕ
two_bytes = 0x62 ∷ 0x71 ∷ []

two_bytes-IsByte : All IsByte two_bytes
two_bytes-IsByte = (omega arith, (omega arith, tt))

to_nibs_injective_example : two_bytes ≡ two_bytes
to_nibs_injective_example =
    to_nibs_injective two_bytes two_bytes two_bytes-IsByte two_bytes-IsByte refl
