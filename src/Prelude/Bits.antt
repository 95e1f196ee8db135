-- ===== src/Prelude/Bits.antt =====
-- Facts about `&` on bytes: both sides are compared at each of the 256 values.
use Prim.Native.Nat.{ℕ, zero, suc, ◌*◌, ◌/◌, ◌%◌, ◌<◌, bit_and}
use mathlib.Core.Path.{◌≡◌, refl}
use mathlib.Core.Logic.{inl, inr}
use mathlib.Core.Bool.{Bool, true, false}
use native.Mathlib.Omega.{arith}
use pico_subblock.Prelude.Tests.{◌==◌, if◌then◌else◌, ==_iff, Bool-cases}

agree : (ℕ → ℕ) → (ℕ → ℕ) → ℕ → Bool
agree f g zero = true
agree f g (suc k) = let rest = agree f g k in if f k == g k then rest else false

agree-at : (f g : ℕ → ℕ) (k : ℕ) → agree f g k ≡ true → (b : ℕ) → b < k → f b ≡ g b
unfolding agree
agree-at f g zero e b below = absurd (omega arith)
agree-at f g (suc k) e b below = elim (Bool-cases (f k == g k)) [
  | inl same ↦
      let rest : agree f g k ≡ true = rw same at e in
      elim (Bool-cases (b == k)) [
        | inl last ↦ let b' : b ≡ k = (==_iff b k).0 last in rw b' ((==_iff (f k) (g k)).0 same)
        | inr earlier ↦ agree-at f g k rest b (ground arith)
      ]
  | inr other ↦ let wrong : false ≡ true = rw other at e in absurd (cc)
]

pub bit_and_low : (x : ℕ) → x < 256 → bit_and x 0xf ≡ x % 16
unfolding agree
bit_and_low x h = agree-at (λ b. bit_and b 0xf) (λ b. b % 16) 256 refl x h

pub bit_and_odd : (x : ℕ) → x < 256 → bit_and x 0x10 ≡ x / 16 % 2 * 16
unfolding agree
bit_and_odd x h = agree-at (λ b. bit_and b 0x10) (λ b. b / 16 % 2 * 16) 256 refl x h

pub bit_and_leaf : (x : ℕ) → x < 256 → bit_and x 0x20 ≡ x / 32 % 2 * 32
unfolding agree
bit_and_leaf x h = agree-at (λ b. bit_and b 0x20) (λ b. b / 32 % 2 * 32) 256 refl x h
