-- ===== src/Mpt/Leaves/Fuel.antt =====
-- crates/mpt/src/mpt.rs: the loop of `for_each_leaves` ends, after one turn for each node.
use pico_subblock.Prelude.{ℕ, zero, suc, ◌+◌, ◌≡◌, ◌≤◌, refl, ap, List, [], ◌∷◌, arith}
use pico_subblock.Result.{Result, ok, err, panic, ◌>>=◌, unwrap}
use pico_subblock.Result.Passed.{after_unwrap}
use pico_subblock.Path.{prefix_nibs}
use pico_subblock.Mpt.{
  MptNode, MptNodeData, Children, node, null, branch, leaf, extension, nil, vacant, child,
}
use pico_subblock.Mpt.Leaves.{Nibbles, Stack, count, count_children, push_children, for_each_leaves}

-- The turns that a stack takes.
unfoldable pub turns : Stack → ℕ
turns [] = 0
turns ((n, path) ∷ stack) = count n + turns stack

-- Two runs of a chain agree if they agree on what its first part gives.
bind_same {ℓ κ μ} :
    {E : Type ℓ} {A : Type κ} {B : Type μ} (m : Result E A) (f g : A → Result E B)
    → ((a : A) → m ≡ ok a → f a ≡ g a)
    → (m >>= f) ≡ (m >>= g)
bind_same (ok a) f g h = h a refl
bind_same (err e) f g h = refl
bind_same panic f g h = refl

count_positive : (n : MptNode) → 1 ≤ count n
unfolding count
count_positive (node null c) = ground arith
count_positive (node (branch cs) c) = omega arith
count_positive (node (leaf prefix value) c) = ground arith
count_positive (node (extension prefix n) c) = omega arith
count_positive (node (MptNodeData.digest d) c) = ground arith

module _ {ℓ} {E : Type ℓ} (nibbles : Nibbles) where
  turns-push_children :
      (path : List ℕ) (i : ℕ) (cs : Children) (stack after : Stack)
      → push_children {E = E} nibbles path i cs stack ≡ ok after
      → turns after ≡ count_children cs + turns stack
  unfolding push_children count_children turns
  turns-push_children path i nil stack after e =
      let e' : stack ≡ after = cc (e) in let t = ap turns e' in omega (arith, t)
  turns-push_children path i (vacant cs) stack after e =
      turns-push_children path (suc i) cs stack after e
  turns-push_children path i (child n cs) stack after e =
      let a = after_unwrap (nibbles.push path i) _ after e in
      let rest = turns-push_children path (suc i) cs ((n, a.0) ∷ stack) after a.2 in
      omega (arith, rest)

  -- With enough fuel, neither the amount nor the answer without fuel matters.
  enough :
      (out out' : Result E (List (List ℕ × List ℕ))) (fuel more : ℕ) (stack : Stack)
      → turns stack ≤ fuel
      → turns stack ≤ more
      → for_each_leaves nibbles out fuel stack ≡ for_each_leaves nibbles out' more stack
  unfolding for_each_leaves turns count
  enough out out' zero zero [] h k = refl
  enough out out' zero (suc more) [] h k = refl
  enough out out' (suc fuel) zero [] h k = refl
  enough out out' (suc fuel) (suc more) [] h k = refl
  enough out out' zero more ((n, path) ∷ stack) h k =
      let p = count_positive n in absurd (omega (arith, h, p))
  enough out out' (suc fuel) zero ((n, path) ∷ stack) h k =
      let p = count_positive n in absurd (omega (arith, k, p))
  enough out out' (suc fuel) (suc more) ((node null c, path) ∷ stack) h k =
      enough out out' fuel more stack (omega (arith, h)) (omega (arith, k))
  enough out out' (suc fuel) (suc more) ((node (MptNodeData.digest d) c, path) ∷ stack) h k =
      enough out out' fuel more stack (omega (arith, h)) (omega (arith, k))
  enough out out' (suc fuel) (suc more) ((node (branch cs) c, path) ∷ stack) h k =
      bind_same (push_children nibbles path 0 cs stack) _ _ (λ after e.
        let t = turns-push_children path 0 cs stack after e in
        enough out out' fuel more after (omega (arith, h, t)) (omega (arith, k, t)))
  enough out out' (suc fuel) (suc more) ((node (leaf prefix value) c, path) ∷ stack) h k =
      bind_same (prefix_nibs prefix) _ _ (λ nibs e.
        bind_same (unwrap (nibbles.extend path nibs)) _ _ (λ full_path e'.
          ap (λ m. m >>= λ rest. ok ((nibbles.pack full_path, value) ∷ rest))
            (enough out out' fuel more stack (omega (arith, h)) (omega (arith, k)))))
  enough out out' (suc fuel) (suc more) ((node (extension prefix n) c, path) ∷ stack) h k =
      bind_same (prefix_nibs prefix) _ _ (λ nibs e.
        bind_same (unwrap (nibbles.extend path nibs)) _ _ (λ new_path e'.
          enough out out' fuel more ((n, new_path) ∷ stack) (omega (arith, h)) (omega (arith, k))))

  -- The loop of `for_each_leaves` takes at most one turn for each node of the trie: with that much
  -- fuel or more it gives one result, whatever it would answer without fuel.
  pub for_each_leaves-count :
      (out out' : Result E (List (List ℕ × List ℕ))) (more : ℕ) (n : MptNode) (path : List ℕ)
      → count n ≤ more
      → for_each_leaves nibbles out' more ((n, path) ∷ [])
        ≡ for_each_leaves nibbles out (count n) ((n, path) ∷ [])
  unfolding turns
  for_each_leaves-count out out' more n path h =
      enough out' out more (count n) ((n, path) ∷ []) (omega (arith, h)) (omega arith)
