-- ===== src/Mpt/Decode/Tests.antt =====
-- Examples of the decoder: a branch with a leaf, which is inline, and a digest.
use pico_subblock.Prelude.{ℕ, ◌≡◌, refl, none, [], ◌∷◌, List, arith}
use pico_subblock.Result.{ok}
use pico_subblock.Path.{marks_extension}
use pico_subblock.Mpt.{MptNodeData, node, branch, leaf, nil, vacant, child, is_empty}
use pico_subblock.Mpt.Valid.{width}
use pico_subblock.Mpt.Hash.{encode, outline, empty_root}
use pico_subblock.Mpt.Decode.{decode, decode_fuel}
use pico_subblock.Mpt.Decode.Fuel.{decode_fuel-decode}
use pico_subblock.Mpt.Decode.RoundTrip.{MarkedData, shallow, decode-encode}
use pico_subblock.Mpt.Decode.Toy.{toy, toy-IsDocumented, toy-Parses, parser, parser-IsShrinking}

abbrev mixed : MptNodeData
mixed = branch (
    vacant (
      vacant (
        vacant (
          vacant (
            vacant (
              vacant (
                child (node (leaf (0x32 ∷ []) (1 ∷ [])) none) (
                  child (node (MptNodeData.digest empty_root) none) (
                    vacant
                      (vacant (vacant (vacant (vacant (vacant (vacant (vacant nil))))))))))))))))

mixed-Marked : MarkedData mixed
unfolding width is_empty marks_extension
mixed-Marked = ((refl, refl, (refl, tt, tt)), refl)

decode-encode_example : decode parser (encode toy (outline toy mixed)) ≡ ok (shallow toy mixed)
decode-encode_example =
    decode-encode toy toy-IsDocumented parser toy-Parses mixed ((tt, tt), ((tt, tt), tt))
      ((tt, tt), ((tt, refl), tt)) mixed-Marked

-- A leaf.
abbrev leaf_bytes : List ℕ
leaf_bytes = 4 ∷ 0x81 ∷ 0x32 ∷ 0x81 ∷ 1 ∷ []

decode_fuel-decode_example : decode_fuel parser 9 leaf_bytes ≡ decode parser leaf_bytes
decode_fuel-decode_example = decode_fuel-decode parser 9 leaf_bytes parser-IsShrinking (omega arith)
