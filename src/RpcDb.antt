-- ===== src/RpcDb.antt =====
-- crates/storage/rpc-db: the databases that the host executes on. This file is state.rs:
-- `RpcDbState`, what was read or changed, and the requests that are made from it.
pub mod Entries
pub mod Basic
pub mod Faithful
pub mod Recorded
pub mod Hashes
pub mod Reachable
pub mod Complete
pub mod Changed
pub mod Witness
mod Tests
use pico_subblock.Prelude.{
  ℕ, Bool, true, false, Option, none, some, List, [], ◌∷◌, ◌++◌, ◌==◌, ltb, beq, if◌then◌else◌,
}
use pico_subblock.State.{lookup, set_entry}
use pico_subblock.State.Prune.{leb_bytes}

abbrev pub Bytes : Type 0
Bytes = List ℕ

-- revm's `AccountInfo`
pub record AccountInfo : Type 0 where
  pub nonce : ℕ
  pub balance : ℕ
  pub code_hash : Bytes
  pub code : Option Bytes

-- A map from slots to values.
abbrev pub Slots : Type 0
Slots = List (ℕ × ℕ)

unfoldable pub lookup_slot : Slots → ℕ → Option ℕ
lookup_slot [] index = none
lookup_slot ((k, v) ∷ slots) index =
    let rest = lookup_slot slots index in if k == index then some v else rest

unfoldable pub set_slot : Slots → ℕ → ℕ → Slots
set_slot [] index value = (index, value) ∷ []
set_slot ((k, v) ∷ slots) index value =
    let rest = set_slot slots index value in
    if k == index then (index, value) ∷ slots else (k, v) ∷ rest

pub record RpcDbState : Type 0 where
  pub accounts : List (Bytes × AccountInfo)
  pub storage : List (Bytes × Slots)

-- `Default::default()`, and what `clear` leaves.
abbrev pub empty_state : RpcDbState
empty_state = record { accounts = []; storage = [] }

unfoldable pub clear : RpcDbState → RpcDbState
clear state = empty_state

-- `storage.get(&address)` with a missing map as an empty one
unfoldable pub slots_of : List (Bytes × Slots) → Bytes → Slots
unfolding lookup
slots_of storage address = elim (lookup storage address) [ some slots ↦ slots | none ↦ [] ]

-- `accounts.insert(address, info)`
unfoldable pub put_account : RpcDbState → Bytes → AccountInfo → RpcDbState
unfolding set_entry
put_account state address info = record {
  accounts = set_entry state.accounts address info;
  storage = state.storage;
}

-- `storage.entry(address).or_default().insert(index, value)`
unfoldable pub put_slot : RpcDbState → Bytes → ℕ → ℕ → RpcDbState
unfolding set_entry slots_of set_slot
put_slot state address index value = record {
  accounts = state.accounts;
  storage = set_entry state.storage address (set_slot (slots_of state.storage address) index value);
}

-- A `BTreeSet` of numbers: in order, each once.
unfoldable pub insert_key : ℕ → List ℕ → List ℕ
insert_key k [] = k ∷ []
insert_key k (j ∷ keys) =
    let rest = insert_key k keys in
    if k == j then j ∷ keys else if ltb k j then k ∷ j ∷ keys else j ∷ rest

unfoldable pub sorted_keys : Slots → List ℕ
unfolding insert_key
sorted_keys [] = []
sorted_keys ((k, v) ∷ slots) = insert_key k (sorted_keys slots)

unfoldable pub keys_of {ℓ} : {A : Type ℓ} → List (Bytes × A) → List Bytes
keys_of [] = []
keys_of ((k, a) ∷ entries) = k ∷ keys_of entries

-- The requests of the given addresses; an address that comes twice has the same requests twice.
unfoldable pub requests_of : List (Bytes × Slots) → List Bytes → List (Bytes × List ℕ)
unfolding slots_of sorted_keys
requests_of storage [] = []
requests_of storage (address ∷ addresses) =
    (address, sorted_keys (slots_of storage address)) ∷ requests_of storage addresses

unfoldable pub state_requests : RpcDbState → List (Bytes × List ℕ)
unfolding requests_of keys_of
state_requests state = requests_of state.storage (keys_of state.accounts ++ keys_of state.storage)

-- A `BTreeMap` from hashes to codes: in order, of two codes with one hash the later.
unfoldable pub insert_code : Bytes → Bytes → List (Bytes × Bytes) → List (Bytes × Bytes)
unfolding leb_bytes
insert_code h code [] = (h, code) ∷ []
insert_code h code ((k, c) ∷ codes) =
    let rest = insert_code h code codes in
    if beq h k
    then (h, code) ∷ codes
    else if leb_bytes h k
    then (h, code) ∷ (k, c) ∷ codes
    else (k, c) ∷ rest

unfoldable pub values_of : List (Bytes × Bytes) → List Bytes
values_of [] = []
values_of ((k, c) ∷ codes) = c ∷ values_of codes

module _ (hash_slow : Bytes → Bytes) where
  unfoldable pub collect_codes :
      List (Bytes × AccountInfo) → List (Bytes × Bytes) → List (Bytes × Bytes)
  unfolding insert_code
  collect_codes [] codes = codes
  collect_codes ((address, info) ∷ accounts) codes = elim info.code [
    | none ↦ collect_codes accounts codes
    | some code ↦ collect_codes accounts (insert_code (hash_slow code) code codes)
  ]

  unfoldable pub bytecodes : RpcDbState → List Bytes
  unfolding collect_codes values_of
  bytecodes state = values_of (collect_codes state.accounts [])
