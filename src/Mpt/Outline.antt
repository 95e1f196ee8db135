-- ===== src/Mpt/Outline.antt =====
-- What the encoding of crates/mpt/src/mpt.rs reads of a node: its data, with a reference in place
-- of each child.
use mathlib.Core.List.{List}
use mathlib.Core.Option.{Option}
use pico_subblock.Prelude.{ℕ}
use pico_subblock.Mpt.{B256, MptNodeReference}

pub data Outline : Type 0 where
  null : Outline
  branch : List (Option MptNodeReference) → Outline
  leaf : List ℕ → List ℕ → Outline
  extension : List ℕ → MptNodeReference → Outline
  digest : B256 → Outline
