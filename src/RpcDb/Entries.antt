-- ===== src/RpcDb/Entries.antt =====
-- crates/storage/rpc-db/src/state.rs: writes and lookups, and the requests that are made of what
-- was read.
use pico_subblock.Prelude.{
  ℕ, ◌≡◌, refl, ap, ◌∙◌, Bool, true, false, ◌||◌, Option, some, List, [], ◌∷◌, ◌++◌, ◌==◌, ==_refl,
  beq, beq_refl, eq_of_beq, if◌then◌else◌, Bool-cases, Option-cases, inl, inr, arith,
}
use pico_subblock.State.{lookup, set_entry}
use pico_subblock.State.Accounts.{lookup-set_entry}
use pico_subblock.State.Pruned.{Has}
use pico_subblock.RpcDb.{
  Bytes, AccountInfo, Slots, RpcDbState, lookup_slot, set_slot, slots_of, put_account, put_slot,
  insert_key, sorted_keys, keys_of, requests_of, state_requests,
}

pub lookup_slot-set_slot :
    (slots : Slots) (k v j : ℕ)
    → lookup_slot (set_slot slots k v) j ≡ (if k == j then some v else lookup_slot slots j)
unfolding lookup_slot set_slot
lookup_slot-set_slot [] k v j = refl
lookup_slot-set_slot ((i, w) ∷ slots) k v j = ground (arith, lookup_slot-set_slot slots k v j)

-- The value of a slot.
abbrev pub slot : RpcDbState → Bytes → ℕ → Option ℕ
slot state address index = lookup_slot (slots_of state.storage address) index

slots_of-set_entry :
    (storage : List (Bytes × Slots)) (a b : Bytes) (slots : Slots)
    → slots_of (set_entry storage a slots) b ≡ (if beq a b then slots else slots_of storage b)
unfolding slots_of
slots_of-set_entry storage a b slots = elim (Bool-cases (beq a b)) [
  | inl same ↦
      let now : lookup (set_entry storage a slots) b ≡ some slots =
        lookup-set_entry storage a slots b ∙ rw same refl in
      rw (same, slots_of, now) refl
  | inr other ↦
      let now : lookup (set_entry storage a slots) b ≡ lookup storage b =
        lookup-set_entry storage a slots b ∙ rw other refl in
      rw (other, slots_of, now) refl
]

pub slot-put_slot :
    (state : RpcDbState) (a b : Bytes) (k v j : ℕ)
    → slot (put_slot state a k v) b j
      ≡ (if beq a b then (if k == j then some v else slot state b j) else slot state b j)
unfolding put_slot
slot-put_slot state a b k v j = elim (Bool-cases (beq a b)) [
  | inl same ↦
      let e : a ≡ b = eq_of_beq a b same in
      rw same (
        ap (λ s. lookup_slot s j)
          (slots_of-set_entry state.storage a b (set_slot (slots_of state.storage a) k v)
            ∙ rw same refl)
        ∙ lookup_slot-set_slot (slots_of state.storage a) k v j
        ∙ ap (λ x. if k == j then some v else slot state x j) e)
  | inr other ↦ rw other (
      ap (λ s. lookup_slot s j)
        (slots_of-set_entry state.storage a b (set_slot (slots_of state.storage a) k v)
          ∙ rw other refl))
]

-- What was there stays there.
pub HasSlot : RpcDbState → Bytes → ℕ → Type 0
HasSlot state address index = (value : ℕ) × (slot state address index ≡ some value)

pub slot-HasSlot :
    (state : RpcDbState) (a : Bytes) (k v : ℕ) → slot state a k ≡ some v → HasSlot state a k
unfolding HasSlot
slot-HasSlot state a k v e = (v, e)

pub HasSlot-put_slot :
    (state : RpcDbState) (a b : Bytes) (k v j : ℕ)
    → HasSlot state b j
    → HasSlot (put_slot state a k v) b j
unfolding HasSlot
HasSlot-put_slot state a b k v j h = elim (Bool-cases (beq a b)) [
  | inl same ↦ elim (Bool-cases (k == j)) [
    | inl kj ↦ (v, slot-put_slot state a b k v j ∙ rw (same, kj) refl)
    | inr n ↦ (h.0, slot-put_slot state a b k v j ∙ rw (same, n) h.1)
  ]
  | inr other ↦ (h.0, slot-put_slot state a b k v j ∙ rw other h.1)
]

pub HasSlot-put_account :
    (state : RpcDbState) (a b : Bytes) (info : AccountInfo) (k : ℕ)
    → HasSlot state b k
    → HasSlot (put_account state a info) b k
unfolding put_account HasSlot
HasSlot-put_account state a b info k h = h

pub put_slot-HasSlot :
    (state : RpcDbState) (a : Bytes) (k v : ℕ) → HasSlot (put_slot state a k v) a k
unfolding HasSlot
put_slot-HasSlot state a k v = (v, slot-put_slot state a a k v k ∙ rw (beq_refl a, ==_refl k) refl)

pub Has-set_account :
    (state : RpcDbState) (a b : Bytes) (info : AccountInfo)
    → Has state.accounts b
    → Has (put_account state a info).accounts b
unfolding put_account
Has-set_account state a b info h = elim (Bool-cases (beq a b)) [
  | inl same ↦ (info, lookup-set_entry state.accounts a info b ∙ rw same refl)
  | inr other ↦ (h.0, lookup-set_entry state.accounts a info b ∙ rw other h.1)
]

pub put_account-Has :
    (state : RpcDbState) (a : Bytes) (info : AccountInfo)
    → Has (put_account state a info).accounts a
unfolding put_account
put_account-Has state a info =
    (info, lookup-set_entry state.accounts a info a ∙ rw (beq_refl a) refl)

pub account-put_account :
    (state : RpcDbState) (a b : Bytes) (info : AccountInfo)
    → lookup (put_account state a info).accounts b
      ≡ (if beq a b then some info else lookup state.accounts b)
unfolding put_account
account-put_account state a b info = lookup-set_entry state.accounts a info b

-- Membership in a list of numbers, and of addresses.
unfoldable pub includes : List ℕ → ℕ → Bool
includes [] k = false
includes (j ∷ keys) k = j == k || includes keys k

unfoldable pub is_among : List Bytes → Bytes → Bool
is_among [] a = false
is_among (b ∷ addresses) a = beq b a || is_among addresses a

includes-insert_key :
    (k j : ℕ) (keys : List ℕ) → includes (insert_key k keys) j ≡ (k == j || includes keys j)
unfolding includes insert_key
includes-insert_key k j [] = refl
includes-insert_key k j (i ∷ keys) = ground (arith, includes-insert_key k j keys)

includes-sorted_keys :
    (slots : Slots) (k v : ℕ) → lookup_slot slots k ≡ some v → includes (sorted_keys slots) k ≡ true
unfolding lookup_slot sorted_keys
includes-sorted_keys [] k v e = absurd (cc)
includes-sorted_keys ((i, w) ∷ slots) k v e = elim (Bool-cases (i == k)) [
  | inl same ↦ includes-insert_key i k (sorted_keys slots) ∙ rw same refl
  | inr other ↦
      let e' = rw other at e in
      includes-insert_key i k (sorted_keys slots)
      ∙ rw (other, includes-sorted_keys slots k v e') refl
]

is_among-append_left :
    (xs ys : List Bytes) (a : Bytes) → is_among xs a ≡ true → is_among (xs ++ ys) a ≡ true
unfolding is_among
is_among-append_left [] ys a h = absurd (cc)
is_among-append_left (x ∷ xs) ys a h = elim (Bool-cases (beq x a)) [
  | inl same ↦ rw same refl
  | inr other ↦ let h' = rw other at h in rw other (is_among-append_left xs ys a h')
]

is_among-append_right :
    (xs ys : List Bytes) (a : Bytes) → is_among ys a ≡ true → is_among (xs ++ ys) a ≡ true
unfolding is_among
is_among-append_right [] ys a h = h
is_among-append_right (x ∷ xs) ys a h = elim (Bool-cases (beq x a)) [
  | inl same ↦ rw same refl
  | inr other ↦ rw other (is_among-append_right xs ys a h)
]

is_among-keys_of {ℓ} :
    {A : Type ℓ} (entries : List (Bytes × A)) (a : Bytes)
    → Has entries a
    → is_among (keys_of entries) a ≡ true
unfolding is_among keys_of lookup
is_among-keys_of [] a h = absurd (cc (h.1))
is_among-keys_of ((k, x) ∷ entries) a h = elim (Bool-cases (beq k a)) [
  | inl same ↦ rw same refl
  | inr other ↦ let e' = rw other at h.1 in rw other (is_among-keys_of entries a (h.0, e'))
]

lookup-requests_of :
    (storage : List (Bytes × Slots)) (addresses : List Bytes) (a : Bytes)
    → is_among addresses a ≡ true
    → lookup (requests_of storage addresses) a ≡ some (sorted_keys (slots_of storage a))
unfolding requests_of lookup is_among
lookup-requests_of storage [] a h = absurd (cc)
lookup-requests_of storage (b ∷ addresses) a h = elim (Bool-cases (beq b a)) [
  | inl same ↦
      let e : b ≡ a = eq_of_beq b a same in
      rw same (ap (λ x. some (sorted_keys (slots_of storage x))) e)
  | inr other ↦ let h' = rw other at h in rw other (lookup-requests_of storage addresses a h')
]

-- An account that is there is among the requests.
pub account-requested :
    (state : RpcDbState) (a : Bytes) → Has state.accounts a → Has (state_requests state) a
unfolding state_requests
account-requested state a h = (
  sorted_keys (slots_of state.storage a),
  lookup-requests_of state.storage (keys_of state.accounts ++ keys_of state.storage) a (
      is_among-append_left (keys_of state.accounts) (keys_of state.storage) a
        (is_among-keys_of state.accounts a h)),
)

stored-Has :
    (storage : List (Bytes × Slots)) (a : Bytes) (k v : ℕ)
    → lookup_slot (slots_of storage a) k ≡ some v
    → Has storage a
unfolding slots_of lookup_slot
stored-Has storage a k v e = elim (Option-cases (lookup storage a)) [
  | inl out ↦ let e' = rw (slots_of, out) at e in absurd (cc)
  | inr (slots, found) ↦ (slots, found)
]

-- A slot that is there is requested with its address.
pub slot-requested :
    (state : RpcDbState) (a : Bytes) (k : ℕ)
    → HasSlot state a k
    → (keys : List ℕ) × (lookup (state_requests state) a ≡ some keys) × (includes keys k ≡ true)
unfolding state_requests HasSlot
slot-requested state a k h = (
  sorted_keys (slots_of state.storage a),
  lookup-requests_of state.storage (keys_of state.accounts ++ keys_of state.storage) a (
      is_among-append_right (keys_of state.accounts) (keys_of state.storage) a
        (is_among-keys_of state.storage a (stored-Has state.storage a k h.0 h.1))),
  includes-sorted_keys (slots_of state.storage a) k h.0 h.1,
)
