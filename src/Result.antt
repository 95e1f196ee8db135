-- ===== src/Result.antt =====
-- What a call of the Rust code can do: return, fail with an error of its type, or panic
-- (`unwrap` of `None`, an index out of range, a failed `assert!`).
pub mod Passed
use mathlib.Core.Bool.{Bool, true, false}
use mathlib.Core.Option.{Option, none, some}

pub data Result {ℓ κ} (E : Type ℓ) (A : Type κ) : Type (ℓ ⊔ κ) where
  ok : A → Result E A
  err : E → Result E A
  panic : Result E A

infixl 5 ◌>>=◌ ◌>>◌
abbrev pub ◌>>=◌ {ℓ κ μ} :
    {E : Type ℓ} {A : Type κ} {B : Type μ} → Result E A → (A → Result E B) → Result E B
ok a >>= f = f a
err e >>= f = err e
panic >>= f = panic

abbrev pub ◌>>◌ {ℓ κ} : {E : Type ℓ} {B : Type κ} → Result E (Unit {0}) → Result E B → Result E B
m >> k = m >>= λ _. k

-- `assert!` and `assert_eq!`
abbrev pub assert {ℓ} : {E : Type ℓ} → Bool → Result E (Unit {0})
assert true = ok tt
assert false = panic

-- `.unwrap()` and `.expect(..)` of an `Option`
abbrev pub unwrap {ℓ κ} : {E : Type ℓ} {A : Type κ} → Option A → Result E A
unwrap none = panic
unwrap (some a) = ok a

-- `assert!` of what can be decided, as the equality of two values.
abbrev pub assert_dec {ℓ κ} : {E : Type ℓ} {P : Type κ} → Dec P → Result E (Unit {0})
assert_dec (yes p) = ok tt
assert_dec (no n) = panic

-- `.unwrap()` of a result: its error is a panic.
abbrev pub unwrap_ok {ℓ κ μ} : {E : Type ℓ} {E' : Type κ} {A : Type μ} → Result E A → Result E' A
unwrap_ok (ok a) = ok a
unwrap_ok (err e) = panic
unwrap_ok panic = panic
