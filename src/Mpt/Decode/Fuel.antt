-- ===== src/Mpt/Decode/Fuel.antt =====
-- crates/mpt/src/mpt.rs: `decode` ends, since an item is shorter than the list that holds it.
use pico_subblock.Prelude.{
  ℕ, zero, suc, ◌<◌, ◌≡◌, refl, ap, subst, Option, none, some, List, [], ◌∷◌, length, arith, take,
  get_elem?, ◌==◌, if◌then◌else◌, All,
}
use pico_subblock.Result.{Result, ok, err, ◌>>=◌, ◌>>◌, assert}
use pico_subblock.Path.{marks_extension}
use pico_subblock.Mpt.{Error, legacy_rlp, MptNode, branch, leaf, extension, from_data}
use pico_subblock.Mpt.Decode.{
  Prototype, Rlp, or_legacy, is_absent, at, val_at, decode_pair, decode_child, push,
  decode_children, decode_branch, decode_as, decode_fuel, decode,
}

All-get_elem? {ℓ κ} :
    {A : Type ℓ} (P : A → Type κ) (l : List A) (i : ℕ) (x : A)
    → get_elem? l i ≡ some x
    → All P l
    → P x
All-get_elem? P [] i x e h = absurd (cc)
All-get_elem? P (y ∷ l) zero x e h = let same : y ≡ x = cc (e) in subst P same h.0
All-get_elem? P (y ∷ l) (suc i) x e h = All-get_elem? P l i x e h.1

All-take {ℓ κ} : {A : Type ℓ} (P : A → Type κ) (n : ℕ) (l : List A) → All P l → All P (take n l)
All-take P zero l h = tt
All-take P (suc n) [] h = tt
All-take P (suc n) (x ∷ l) h = (h.0, All-take P n l h.1)

All-of_All {ℓ κ μ} :
    {A : Type ℓ} (P : A → Type κ) (Q : A → Type μ) (l : List A)
    → ((x : A) → P x → Q x)
    → All P l
    → All Q l
All-of_All P Q [] f h = tt
All-of_All P Q (x ∷ l) f h = (f x h.0, All-of_All P Q l f h.1)

-- The crate rlp gives as items of an input parts of it that do not hold its header.
abbrev pub IsShrinking : Rlp → Type 0
IsShrinking parser =
    (bytes : List ℕ) → All (λ (i : List ℕ). length i < length bytes) (parser.items bytes)

module _ (parser : Rlp) where
  abbrev Reader : Type 0
  Reader = List ℕ → Result Error MptNode

  module _ (rec rec' : Reader) where
    at-same :
        (l : List (List ℕ)) (o : Option (List ℕ)) (k : MptNode → Result Error MptNode)
        → get_elem? l 1 ≡ o
        → All (λ (i : List ℕ). rec i ≡ rec' i) l
        → (or_legacy o >>= λ i. rec i >>= k) ≡ (or_legacy o >>= λ i. rec' i >>= k)
    at-same l none k e h = refl
    at-same l (some x) k e h = λ j. All-get_elem? (λ (i : List ℕ). rec i ≡ rec' i) l 1 x e h j >>= k

    pair-same :
        (rlp : List ℕ)
        → All (λ (i : List ℕ). rec i ≡ rec' i) (parser.items rlp)
        → decode_pair parser rec rlp ≡ decode_pair parser rec' rlp
    unfolding decode_pair at
    pair-same rlp h = λ j. val_at parser rlp 0 >>= λ path. marks_extension path >>= λ is_extension.
        if is_extension
        then at-same (parser.items rlp) (get_elem? (parser.items rlp) 1)
            (λ n. ok (from_data (extension path n))) refl h j
        else (val_at parser rlp 1 >>= λ value. ok (from_data (leaf path value)))

    child-same :
        (i : List ℕ) → rec i ≡ rec' i → decode_child parser rec i ≡ decode_child parser rec' i
    unfolding decode_child
    child-same i e =
        ap
          (λ r. or_legacy (parser.prototype i) >>= λ p.
            if is_absent p then ok none else (r >>= λ n. ok (some n)))
          e

    children-same :
        (l : List (List ℕ))
        → All (λ (i : List ℕ). rec i ≡ rec' i) l
        → decode_children parser rec l ≡ decode_children parser rec' l
    unfolding decode_children
    children-same [] h = refl
    children-same (i ∷ l) h =
        λ k. child-same i h.0 k >>= λ n. children-same l h.1 k >>= λ cs. ok (push n cs)

    branch-same :
        (rlp : List ℕ)
        → All (λ (i : List ℕ). rec i ≡ rec' i) (parser.items rlp)
        → decode_branch parser rec rlp ≡ decode_branch parser rec' rlp
    unfolding decode_branch
    branch-same rlp h = λ k.
        children-same (take 16 (parser.items rlp))
          (All-take (λ (i : List ℕ). rec i ≡ rec' i) 16 (parser.items rlp) h) k
        >>= λ cs. val_at parser rlp 16 >>= λ value. elim value [
          | [] ↦ (assert (length (take 16 (parser.items rlp)) == 16) >> ok (from_data (branch cs)))
          | b ∷ bytes ↦ err legacy_rlp
        ]

    decode_as-same :
        (rlp : List ℕ) (p : Prototype)
        → All (λ (i : List ℕ). rec i ≡ rec' i) (parser.items rlp)
        → decode_as parser rec rlp p ≡ decode_as parser rec' rlp p
    unfolding decode_as
    decode_as-same rlp Prototype.null h = refl
    decode_as-same rlp (Prototype.of_data n) h = refl
    decode_as-same rlp (Prototype.of_list n) h = λ j.
        if n == 2
        then pair-same rlp h j
        else if n == 17
        then branch-same rlp h j
        else err legacy_rlp

  fuel-fuel :
      (f g : ℕ) (bytes : List ℕ)
      → IsShrinking parser
      → length bytes < f
      → length bytes < g
      → decode_fuel parser f bytes ≡ decode_fuel parser g bytes
  unfolding decode_fuel
  fuel-fuel zero g bytes shrinks a b = absurd (omega arith)
  fuel-fuel (suc f) zero bytes shrinks a b = absurd (omega arith)
  fuel-fuel (suc f) (suc g) bytes shrinks a b =
      let items =
        All-of_All (λ (i : List ℕ). length i < length bytes)
          (λ (i : List ℕ). decode_fuel parser f i ≡ decode_fuel parser g i) (parser.items bytes)
          (λ i h. fuel-fuel f g i shrinks (omega arith) (omega arith)) (shrinks bytes) in
      λ j. or_legacy (parser.prototype bytes) >>= λ p.
      decode_as-same (λ i. decode_fuel parser f i) (λ i. decode_fuel parser g i) bytes p items j

  -- Where the items of an input are shorter than the input, more fuel than the length of the input
  -- never changes what the decoder answers: `decode` is the recursion of the source, run to its
  -- end.
  pub decode_fuel-decode :
      (f : ℕ) (bytes : List ℕ)
      → IsShrinking parser
      → length bytes < f
      → decode_fuel parser f bytes ≡ decode parser bytes
  unfolding decode
  decode_fuel-decode f bytes shrinks h =
      fuel-fuel f (suc (length bytes)) bytes shrinks h (omega arith)
