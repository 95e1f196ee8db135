-- ===== src/Result/Passed.antt =====
-- What a call that returned has passed through.
use mathlib.Core.Path.{◌≡◌, refl}
use mathlib.Core.Bool.{Bool, true, false}
use mathlib.Core.Option.{Option, none, some}
use pico_subblock.Result.{Result, ok, err, panic, ◌>>=◌, ◌>>◌, assert, assert_dec, unwrap}

pub after_assert {ℓ κ} :
    {E : Type ℓ} {B : Type κ} (b : Bool) (k : Result E B) (r : B)
    → (assert b >> k) ≡ ok r
    → (b ≡ true) × (k ≡ ok r)
after_assert true k r e = (refl, e)
after_assert false k r e = absurd (cc)

pub after_assert_dec {ℓ κ μ} :
    {E : Type ℓ} {B : Type κ} {P : Type μ} (d : Dec P) (k : Result E B) (r : B)
    → (assert_dec d >> k) ≡ ok r
    → P × (k ≡ ok r)
after_assert_dec (yes p) k r e = (p, e)
after_assert_dec (no n) k r e = absurd (cc)

pub after_bind {ℓ κ μ} :
    {E : Type ℓ} {A : Type κ} {B : Type μ} (m : Result E A) (k : A → Result E B) (r : B)
    → (m >>= k) ≡ ok r
    → (a : A) × (m ≡ ok a) × (k a ≡ ok r)
after_bind (ok a) k r e = (a, refl, e)
after_bind (err x) k r e = absurd (cc)
after_bind panic k r e = absurd (cc)

pub after_unwrap {ℓ κ μ} :
    {E : Type ℓ} {A : Type κ} {B : Type μ} (o : Option A) (k : A → Result E B) (r : B)
    → (unwrap o >>= k) ≡ ok r
    → (a : A) × (o ≡ some a) × (k a ≡ ok r)
after_unwrap (some a) k r e = (a, refl, e)
after_unwrap none k r e = absurd (cc)

-- `>>` on a sequence of checks.
pub after_check {ℓ κ} :
    {E : Type ℓ} {B : Type κ} (m : Result E (Unit {0})) (k : Result E B) (r : B)
    → (m >> k) ≡ ok r
    → (m ≡ ok tt) × (k ≡ ok r)
after_check (ok tt) k r e = (refl, e)
after_check (err x) k r e = absurd (cc)
after_check panic k r e = absurd (cc)

pub of_assert {ℓ} : {E : Type ℓ} (b : Bool) → assert {E = E} b ≡ ok tt → b ≡ true
of_assert true e = refl
of_assert false e = absurd (cc)

pub of_assert_dec {ℓ κ} : {E : Type ℓ} {P : Type κ} (d : Dec P) → assert_dec {E = E} d ≡ ok tt → P
of_assert_dec (yes p) e = p
of_assert_dec (no n) e = absurd (cc)

pub ok_injective {ℓ κ} :
    {E : Type ℓ} {A : Type κ} {a b : A} → ◌≡◌ {A = Result E A} (ok a) (ok b) → a ≡ b
ok_injective e = cc (e)
