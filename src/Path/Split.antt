-- ===== src/Path/Split.antt =====
-- How two nibble paths meet: what `lcp`, `strip_prefix` and the slices of `insert_internal` return.
use mathlib.Core.List.{zip}
use pico_subblock.Prelude.{
  ℕ, suc, ◌+◌, min, ◌≡◌, refl, true, false, none, some, List, [], ◌∷◌, ◌++◌, ◌==◌, if◌then◌else◌,
  length, All, arith, inl, inr, Bool-cases, All-append_right, beq,
}
use pico_subblock.Result.{ok}
use pico_subblock.Path.{IsNibble, lcp, lcp_loop, strip_prefix, index}

pub strip_prefix-append : (p t : List ℕ) → strip_prefix (p ++ t) p ≡ some t
unfolding strip_prefix
strip_prefix-append [] [] = refl
strip_prefix-append [] (x ∷ t) = refl
strip_prefix-append (x ∷ p) t = ground (arith, strip_prefix-append p t)

pub append_of_strip_prefix : (k p t : List ℕ) → strip_prefix k p ≡ some t → k ≡ p ++ t
unfolding strip_prefix
append_of_strip_prefix [] [] t h = ground arith
append_of_strip_prefix (k ∷ ks) [] t h = ground arith
append_of_strip_prefix [] (p ∷ ps) t h = ground arith
append_of_strip_prefix (k ∷ ks) (p ∷ ps) t h = ground (arith, append_of_strip_prefix ks ps t)

pub index-append {ℓ} :
    {E : Type ℓ} (p : List ℕ) (x : ℕ) (r : List ℕ) → index {E = E} (p ++ x ∷ r) (length p) ≡ ok x
unfolding index
index-append [] x r = refl
index-append (y ∷ p) x r = index-append p x r

lcp_loop-suc : (i m : ℕ) (z : List (ℕ × ℕ)) → lcp_loop (i + 1) z (suc m) ≡ suc (lcp_loop i z m)
unfolding lcp_loop
lcp_loop-suc i m [] = refl
lcp_loop-suc i m ((a, b) ∷ z) = ground (arith, lcp_loop-suc (i + 1) m z)

lcp-nil : (b : List ℕ) → lcp [] b ≡ 0
unfolding lcp
lcp-nil b = omega arith

lcp-cons_nil : (x : ℕ) (a : List ℕ) → lcp (x ∷ a) [] ≡ 0
unfolding lcp
lcp-cons_nil x a = omega arith

lcp-cons :
    (x : ℕ) (a : List ℕ) (y : ℕ) (b : List ℕ)
    → lcp (x ∷ a) (y ∷ b) ≡ (if x == y then suc (lcp a b) else 0)
unfolding lcp
lcp-cons x a y b = ground (arith, lcp_loop-suc 0 (min (length a) (length b)) (zip a b))

-- The three ways in which paths `a` and `b` meet, with the value of `lcp a b` in each.
pub data Meet (a b : List ℕ) : Type 0 where
  within : (r : List ℕ) → b ≡ a ++ r → lcp a b ≡ length a → Meet a b
  beyond : (x : ℕ) (r : List ℕ) → a ≡ b ++ x ∷ r → lcp a b ≡ length b → Meet a b
  fork :
      (p : List ℕ) (x : ℕ) (r : List ℕ) (y : ℕ) (s : List ℕ)
      → a ≡ p ++ x ∷ r
      → b ≡ p ++ y ∷ s
      → (x == y) ≡ false
      → lcp a b ≡ length p
      → Meet a b

Meet-cons : (x y : ℕ) (a b : List ℕ) → (x == y) ≡ true → Meet a b → Meet (x ∷ a) (y ∷ b)
Meet-cons x y a b e (within r h l) =
    within r (ground (arith, h)) (ground (arith, lcp-cons x a y b, l))
Meet-cons x y a b e (beyond z r h l) =
    beyond z r (ground (arith, h)) (ground (arith, lcp-cons x a y b, l))
Meet-cons x y a b e (fork p z r w s h k n l) =
    fork (x ∷ p) z r w s (ground (arith, h)) (ground (arith, k)) n
      (ground (arith, lcp-cons x a y b, l))

pub meet : (a b : List ℕ) → Meet a b
meet [] b = within b refl (lcp-nil b)
meet (x ∷ a) [] = beyond x a refl (lcp-cons_nil x a)
meet (x ∷ a) (y ∷ b) =
    let rest = meet a b in
    elim (Bool-cases (x == y)) [
      | inl e ↦ Meet-cons x y a b e rest
      | inr n ↦ fork [] x a y b refl refl n (ground (arith, lcp-cons x a y b))
    ]

-- What is left of a path of nibbles is one.
pub strip_prefix-IsNibble :
    (k p t : List ℕ) → All IsNibble k → strip_prefix k p ≡ some t → All IsNibble t
strip_prefix-IsNibble k p t h e =
    All-append_right IsNibble p t (rw (← append_of_strip_prefix k p t e) h)

-- Comparison with, and stripping of, a path that begins with `p`.
pub beq-append :
    (p a j : List ℕ) → beq (p ++ a) j ≡ elim (strip_prefix j p) [ none ↦ false | some t ↦ beq a t ]
unfolding beq strip_prefix
beq-append [] a [] = refl
beq-append [] a (y ∷ j) = refl
beq-append (x ∷ p) a [] = refl
beq-append (x ∷ p) a (y ∷ j) = ground (arith, beq-append p a j)

pub strip_prefix-append_right :
    (j p q : List ℕ)
    → strip_prefix j (p ++ q) ≡ elim (strip_prefix j p) [ none ↦ none | some t ↦ strip_prefix t q ]
unfolding strip_prefix
strip_prefix-append_right [] [] q = refl
strip_prefix-append_right (y ∷ j) [] q = refl
strip_prefix-append_right [] (x ∷ p) q = refl
strip_prefix-append_right (y ∷ j) (x ∷ p) q = ground (arith, strip_prefix-append_right j p q)

pub strip_prefix-nil : (j : List ℕ) → strip_prefix j [] ≡ some j
unfolding strip_prefix
strip_prefix-nil [] = refl
strip_prefix-nil (x ∷ j) = refl
