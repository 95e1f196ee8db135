-- ===== src/RpcDb/Hashes.antt =====
-- crates/storage/rpc-db/src/basic.rs: the block hashes of `BasicRpcDb` and the oldest ancestor.
use pico_subblock.Prelude.{
  ℕ, ◌≡◌, refl, ap, ◌∙◌, subst, Option, none, some, List, [], ◌∷◌, ◌==◌, ==_iff, ==_refl, ◌≤◌,
  if◌then◌else◌, Bool-cases, Option-cases, inl, inr, ◌⊎◌, arith,
}
use pico_subblock.RpcDb.{Bytes}
use pico_subblock.RpcDb.Basic.{
  RpcDbError, Provider, BasicRpcDb, Fetched, ok, err, get_block_error, block_not_found,
  fetch_block_hash,
}

-- `block_hashes.get(&number)`
unfoldable pub hash_of : List (ℕ × Bytes) → ℕ → Option Bytes
hash_of [] number = none
hash_of ((n, h) ∷ hashes) number =
    let rest = hash_of hashes number in if n == number then some h else rest

-- The block that is asked for, or one that was recorded before.
hash_of_new :
    (hashes : List (ℕ × Bytes)) (n m : ℕ) (h g : Bytes)
    → hash_of ((n, h) ∷ hashes) m ≡ some g
    → ((n ≡ m) × (h ≡ g)) ⊎ (hash_of hashes m ≡ some g)
unfolding hash_of
hash_of_new hashes n m h g e = elim (Bool-cases (n == m)) [
  | inl same ↦ let e' = rw same at e in inl ((==_iff n m).0 same, cc)
  | inr other ↦ inr (rw other at e)
]

hash_of_known :
    (hashes : List (ℕ × Bytes)) (n m : ℕ) (h : Bytes)
    → (g : Bytes) × (hash_of hashes m ≡ some g)
    → (g : Bytes) × (hash_of ((n, h) ∷ hashes) m ≡ some g)
unfolding hash_of
hash_of_known hashes n m h x = elim (Bool-cases (n == m)) [
  | inl same ↦ (h, rw same refl)
  | inr other ↦ (x.0, rw other x.1)
]

hash_of_now : (hashes : List (ℕ × Bytes)) (n : ℕ) (h : Bytes) → hash_of ((n, h) ∷ hashes) n ≡ some h
unfolding hash_of
hash_of_now hashes n h = rw (==_refl n) refl

module _ (provider : Provider) where
  open provider use {get_block_hash}

  -- Block hashes are those of the provider, and none is older than the oldest ancestor.
  pub record AreHashes (db : BasicRpcDb) : Type 0 where
    pub given :
        (n : ℕ) (h : Bytes) → hash_of db.block_hashes n ≡ some h → get_block_hash n ≡ some (some h)
    pub oldest : (n : ℕ) (h : Bytes) → hash_of db.block_hashes n ≡ some h → db.oldest_ancestor ≤ n

  pub record HashRead (db : BasicRpcDb) (n : ℕ) (r : Fetched Bytes × BasicRpcDb) : Type 0 where
    pub subblock : r.1.subblock_data ≡ db.subblock_data
    pub cache : r.1.cache_data ≡ db.cache_data
    pub hashes : AreHashes db → AreHashes r.1
    pub kept :
        (m : ℕ)
        → (h : Bytes) × (hash_of db.block_hashes m ≡ some h)
        → (h : Bytes) × (hash_of r.1.block_hashes m ≡ some h)
    pub older : r.1.oldest_ancestor ≤ db.oldest_ancestor
    pub taken_down : (h : Bytes) → r.0 ≡ ok h → hash_of r.1.block_hashes n ≡ some h

  no_hash : (db : BasicRpcDb) (n : ℕ) (e : RpcDbError) → HashRead db n (err e, db)
  no_hash db n e = record {
    subblock = refl;
    cache = refl;
    hashes = λ a. a;
    kept = λ m x. x;
    older = ground arith;
    taken_down = λ h x. absurd (cc (x));
  }

  pub fetch_block_hash-HashRead :
      (db : BasicRpcDb) (n : ℕ) → HashRead db n (fetch_block_hash provider db n)
  unfolding fetch_block_hash
  fetch_block_hash-HashRead db n = elim (Option-cases (get_block_hash n)) [
    | inl failed ↦ rw (fetch_block_hash, failed) (no_hash db n (get_block_error n))
    | inr (none, absent) ↦ rw (fetch_block_hash, absent) (no_hash db n (block_not_found n))
    | inr (some h, found) ↦
        rw (fetch_block_hash, found)
          (record {
            subblock = refl;
            cache = refl;
            hashes = λ a. record {
              given = λ m g e. elim (hash_of_new db.block_hashes n m h g e) [
                | inl (nm, hg) ↦
                    subst (λ x. get_block_hash x ≡ some (some g)) nm
                      (subst (λ x. get_block_hash n ≡ some (some x)) hg found)
                | inr before ↦ a.given m g before
              ];
              oldest = λ m g e. elim (hash_of_new db.block_hashes n m h g e) [
                | inl (nm, hg) ↦ ground arith
                | inr before ↦ let le = a.oldest m g before in ground arith
              ];
            };
            kept = λ m x. hash_of_known db.block_hashes n m h x;
            older = ground arith;
            taken_down =
                λ g e. let e' : h ≡ g = cc (e) in hash_of_now db.block_hashes n h ∙ ap some e';
          })
  ]
