-- ===== src/Mpt/Insert/Leaf.antt =====
-- `insert_internal` at a leaf, and where the paths part inside an extension's prefix.
use pico_subblock.Prelude.{
  ℕ, ◌≡◌, refl, ap, sym, Bool, true, false, Option, none, some, List, [], ◌∷◌, ◌++◌, ◌==◌,
  if◌then◌else◌, arith, length, All, drop-suc-length_append, Bool-cases, inl, inr, beq, eq_of_beq,
  ◌∙◌, longer, ==_refl, All-append_left, All-append_right,
}
use mathlib.Core.List.{append-nil}
use native.Mathlib.Numerals.{add-one}
use pico_subblock.Result.{Result, ok, err, panic, ◌>>=◌}
use pico_subblock.Path.{IsNibble, to_encoded_path, strip_prefix}
use pico_subblock.Path.Codec.{IsPath, to_encoded_path-IsPath}
use pico_subblock.Path.Split.{Meet, within, beyond, fork, meet, beq-append}
use pico_subblock.Mpt.{Error, MptNode, MptNodeReference, node, leaf, from_data, is_empty}
use pico_subblock.Mpt.Valid.{IsValid, find, path_of, path_of-to_encoded_path, is_branching}
use pico_subblock.Mpt.Insert.{insert_at_leaf, fork_branch}
use pico_subblock.Mpt.Insert.Fork.{fork_read, fork_branch-Forked}

-- What an insertion of `value` at `key` leaves, for the node `n` before it and `m` after it.
pub record Inserted (n : MptNode) (key value : List ℕ) (changed : Bool) (m : MptNode) : Type 0 where
  pub valid : IsValid m
  pub filled : is_empty m ≡ false
  pub branching : is_branching n ≡ true → is_branching m ≡ true
  pub reads : (j : List ℕ) → find m j ≡ (if beq key j then some value else find n j)
  pub unchanged : changed ≡ false → m ≡ n

-- Every outcome of an insertion: a result as above, or an error; never a panic.
abbrev pub Insertion : MptNode → List ℕ → List ℕ → Result Error (Bool × MptNode) → Type 0
Insertion n key value (ok r) = Inserted n key value r.0 r.1
Insertion n key value (err e) = Unit
Insertion n key value panic = ⊥

pub find-leaf :
    (l value t : List ℕ)
    → All IsNibble l
    → find (from_data (leaf (to_encoded_path l true) value)) t
      ≡ (if beq l t then some value else none)
unfolding find
find-leaf l value t h = rw (path_of-to_encoded_path l true h)

module _ (p r s : List ℕ) (x y : ℕ) (old_value value : List ℕ) (r_nibbles : All IsNibble r)
    (s_nibbles : All IsNibble s) (parts : (x == y) ≡ false) where
  abbrev old_leaf : MptNode
  old_leaf = from_data (leaf (to_encoded_path r true) old_value)

  abbrev new_leaf : MptNode
  new_leaf = from_data (leaf (to_encoded_path s true) value)

  -- The two leaves of a fork read as the old entry and the new one.
  leaves_read :
      (t : List ℕ)
      → fork_read x old_leaf y new_leaf t
        ≡ (if beq (y ∷ s) t then some value else if beq (x ∷ r) t then some old_value else none)
  unfolding beq
  leaves_read [] = refl
  leaves_read (z ∷ t) =
      rw (find-leaf s value t s_nibbles, find-leaf r old_value t r_nibbles) (ground arith)

  fork_leaves :
      (j : List ℕ)
      → (elim (strip_prefix j p) [ none ↦ none | some t ↦ fork_read x old_leaf y new_leaf t ]) ≡ (
          if beq (p ++ y ∷ s) j
          then some value
          else if beq (p ++ x ∷ r) j
          then some old_value
          else none)
  fork_leaves j = rw (beq-append p (y ∷ s) j, beq-append p (x ∷ r) j) (cases (strip_prefix j p))
    where
      cases :
          (o : Option (List ℕ))
          → ◌≡◌ {A = Option (List ℕ)}
              (elim o [ none ↦ none | some t ↦ fork_read x old_leaf y new_leaf t ])
              (if elim o [ none ↦ false | some t ↦ beq (y ∷ s) t ]
                then some value
                else if elim o [ none ↦ false | some t ↦ beq (x ∷ r) t ]
                then some old_value
                else none)
      cases none = refl
      cases (some t) = leaves_read t

-- A stored leaf whose path is `self` reads so.
pub stored_leaf :
    (self prefix value : List ℕ) (c : Option MptNodeReference) (j : List ℕ)
    → path_of prefix ≡ self
    → find (node (leaf prefix value) c) j ≡ (if beq self j then some value else none)
unfolding find
stored_leaf self prefix value c j e = rw e

module _ (prefix old_value : List ℕ) (c : Option MptNodeReference) (stored : IsPath prefix) where
  -- The key is the leaf's own.
  same_key :
      (value : List ℕ)
      → Insertion (node (leaf prefix old_value) c) (path_of prefix) value (
          if beq old_value value
          then ok (false, node (leaf prefix old_value) c)
          else ok (true, node (leaf prefix value) none))
  unfolding find is_empty is_branching
  same_key value = elim (Bool-cases (beq old_value value)) [
    | inl e ↦ rw e (record {
      valid = stored;
      filled = refl;
      branching = λ h. h;
      reads =
          λ j. rw (← eq_of_beq old_value value e) (twice (beq (path_of prefix) j) (some old_value));
      unchanged = λ _. refl;
    })
    | inr n ↦ rw n (record {
      valid = stored;
      filled = refl;
      branching = λ h. h;
      reads = λ j. over (beq (path_of prefix) j);
      unchanged = λ h. cc;
    })
  ]
    where
      twice :
          (b : Bool) (o : Option (List ℕ))
          → (if b then o else none) ≡ (if b then o else if b then o else none)
      twice true o = refl
      twice false o = refl

      over :
          (b : Bool)
          → (if b then some value else none)
            ≡ (if b then some value else if b then some old_value else none)
      over true = refl
      over false = refl

  -- The paths part: a fork of two leaves.
  forked :
      (p r s : List ℕ) (x y : ℕ) (value : List ℕ)
      → path_of prefix ≡ p ++ x ∷ r
      → All IsNibble (p ++ x ∷ r)
      → All IsNibble (p ++ y ∷ s)
      → (x == y) ≡ false
      → Insertion (node (leaf prefix old_value) c) (p ++ y ∷ s) value (
          fork_branch
            (p ++ x ∷ r)
            (p ++ y ∷ s)
            (length p)
            (from_data (leaf (to_encoded_path r true) old_value))
            (from_data (leaf (to_encoded_path s true) value))
          >>= λ data'. ok (true, node data' none))
  unfolding is_empty is_branching
  forked p r s x y value self hs hk parts =
      let xr = All-append_right IsNibble p (x ∷ r) hs in
      let ys = All-append_right IsNibble p (y ∷ s) hk in
      let (d, runs, f) =
        fork_branch-Forked x (from_data (leaf (to_encoded_path r true) old_value)) y
          (from_data (leaf (to_encoded_path s true) value)) xr.0 ys.0 parts
          (to_encoded_path-IsPath r true xr.1) refl (to_encoded_path-IsPath s true ys.1) refl p r s
          (All-append_left IsNibble p (x ∷ r) hs) in
      rw runs (record {
        valid = f.valid;
        filled = f.filled;
        branching = λ h. cc;
        reads = λ j.
            f.reads j
            ∙ fork_leaves p r s x y old_value value xr.1 ys.1 parts j
            ∙ ap (λ (o : Option (List ℕ)). if beq (p ++ y ∷ s) j then some value else o)
                (sym (stored_leaf (p ++ x ∷ r) prefix old_value c j self));
        unchanged = λ h. cc;
      })

  pub insert_at_leaf-Insertion :
      (self key value : List ℕ)
      → path_of prefix ≡ self
      → All IsNibble self
      → All IsNibble key
      → Insertion
          (node (leaf prefix old_value) c)
          key
          value
          (insert_at_leaf self prefix old_value c key value)
  unfolding insert_at_leaf
  insert_at_leaf-Insertion self key value e hs hk = cases (meet self key)
    where
      cases :
          Meet self key
          → Insertion
              (node (leaf prefix old_value) c)
              key
              value
              (insert_at_leaf self prefix old_value c key value)
      cases (within [] k l) =
          let k' : key ≡ self = k ∙ append-nil self in
          rw (l, k', ==_refl (length self), ← e) (same_key value)
      cases (within (z ∷ r) k l) = rw (l, k, longer self z r, ==_refl (length self)) tt
      cases (beyond x r k l) = rw (l, k, longer key x r, ==_refl (length key)) tt
      cases (fork p x r y s k m n l) =
          rw
            (
              l,
              k,
              m,
              longer p x r,
              longer p y s,
              add-one,
              drop-suc-length_append p x r,
              drop-suc-length_append p y s,
            )
            (forked p r s x y value (e ∙ k) (rw k at hs) (rw m at hk) n)
