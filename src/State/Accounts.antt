-- ===== src/State/Accounts.antt =====
-- crates/mpt/src/lib.rs: what `EthereumState::update` leaves, against the map of accounts and slots
-- that the post state describes.
use pico_subblock.Prelude.{
  ◌≡◌, refl, ap, sym, ◌∙◌, subst, Bool, true, false, Option, none, some, List, [], ◌∷◌, beq,
  beq_refl, eq_of_beq, if◌then◌else◌, All, Bool-cases, inl, inr,
}
use pico_subblock.Result.{ok}
use pico_subblock.Path.{IsByte}
use pico_subblock.Mpt.{B256, MptNode, clear, default}
use pico_subblock.Mpt.Get.{get, get_internal}
use pico_subblock.Mpt.Hash.{External, hash}
use pico_subblock.State.{
  EthereumState, Account, HashedStorage, Encoders, lookup, set_entry, storage_of, trie_of,
  state_account, update_storage,
}
use pico_subblock.State.Slots.{IsEncoder, Value, written_slot, IsSound, update_slots-Slots}

twice {ℓ} :
    {A : Type ℓ} (c : Bool) (x y : A) (o : Option A)
    → (if c then some x else o) ≡ (if c then some x else (if c then some y else o))
twice true x y o = refl
twice false x y o = refl

pub differs : (k key j : B256) → beq k j ≡ true → beq k key ≡ false → beq key j ≡ false
differs k key j kj other = elim (Bool-cases (beq key j)) [
  | inl same ↦
      let e : k ≡ key = eq_of_beq k j kj ∙ sym (eq_of_beq key j same) in
      absurd (cc (other, e, beq_refl key))
  | inr n ↦ n
]

pub lookup-set_entry {ℓ} :
    {A : Type ℓ} (entries : List (B256 × A)) (key : B256) (a : A) (j : B256)
    → lookup (set_entry entries key a) j ≡ (if beq key j then some a else lookup entries j)
unfolding lookup set_entry
lookup-set_entry [] key a j = refl
lookup-set_entry ((k, b) ∷ entries) key a j = elim (Bool-cases (beq k key)) [
  | inl same ↦
      let same' : k ≡ key = eq_of_beq k key same in
      rw (same, same') (twice (beq key j) a b (lookup entries j))
  | inr other ↦ elim (Bool-cases (beq k j)) [
    | inl kj ↦ rw (other, kj, differs k key j kj other) refl
    | inr n ↦ rw (other, n) (lookup-set_entry entries key a j)
  ]
]

OrDefault : Bool → MptNode → Option MptNode → Type 0
OrDefault b n o =
    (elim (if b then some n else o) [ some trie ↦ trie | none ↦ default ])
    ≡ (if b then n else elim o [ some trie ↦ trie | none ↦ default ])

OrDefault-holds : (b : Bool) (n : MptNode) (o : Option MptNode) → OrDefault b n o
unfolding OrDefault
OrDefault-holds true n o = refl
OrDefault-holds false n o = refl

pub trie_of-set_entry :
    (tries : List (B256 × MptNode)) (key : B256) (n : MptNode) (j : B256)
    → trie_of (set_entry tries key n) j ≡ (if beq key j then n else trie_of tries j)
unfolding trie_of OrDefault
trie_of-set_entry tries key n j =
    ap (λ o. elim o [ some trie ↦ trie | none ↦ default ]) (lookup-set_entry tries key n j)
    ∙ OrDefault-holds (beq key j) n (lookup tries j)

-- The keys of a map differ.
abbrev pub AreDistinct : List (B256 × Option Account) → Type 0
AreDistinct [] = Unit
AreDistinct ((address, account) ∷ entries) = (lookup entries address ≡ none) × AreDistinct entries

-- A post state whose keys are bytes.
abbrev pub AreKeys : List (B256 × HashedStorage) → List (B256 × Option Account) → Type 0
AreKeys storages [] = Unit
AreKeys storages ((address, account) ∷ entries) =
    All IsByte address
    × All (λ slot. All IsByte slot.0) (storage_of storages address).storage
    × AreKeys storages entries

module _ (ext : External) (enc : Encoders) where
  open enc use {encode_account, encode_word}

  -- A state whose tries are valid and have right caches.
  pub record SoundState (state : EthereumState) : Type 0 where
    pub state_trie : IsSound ext state.state_trie
    pub storage : (address : B256) → IsSound ext (trie_of state.storage_tries address)

  -- The value of an account in the state trie of `after`, from the entry that the post state has
  -- for its address and the value before.
  unfoldable pub expected_account : EthereumState → B256 → Option (Option Account) → Value → Value
  expected_account after address none before = before
  expected_account after address (some none) before = ok none
  expected_account after address (some (some account)) before = ok (
      some
        (encode_account (state_account account (hash ext (trie_of after.storage_tries address)))))

  -- The value of a slot of an account, from the same and the value before.
  unfoldable pub expected_slot : HashedStorage → Option (Option Account) → B256 → Value → Value
  unfolding written_slot
  expected_slot state_storage none key before = before
  expected_slot state_storage (some none) key before = before
  expected_slot state_storage (some (some account)) key before =
      written_slot encode_word state_storage.storage key
        (if state_storage.wiped then ok none else before)

  pub record Updated (storages : List (B256 × HashedStorage))
      (entries : List (B256 × Option Account)) (before after : EthereumState) : Type 0 where
    pub sound : SoundState after
    pub accounts :
        (address : B256)
        → All IsByte address
        → get after.state_trie address
          ≡ expected_account after address (lookup entries address) (get before.state_trie address)
    pub slots :
        (address key : B256)
        → All IsByte key
        → get (trie_of after.storage_tries address) key
          ≡ expected_slot
              (storage_of storages address)
              (lookup entries address)
              key
              (get (trie_of before.storage_tries address) key)
    pub others :
        (address : B256)
        → lookup entries address ≡ none
        → trie_of after.storage_tries address ≡ trie_of before.storage_tries address

  -- A lookup in a list of entries, by the first of them.
  lookup_head :
      (k : B256) (a : Option Account) (entries : List (B256 × Option Account)) (j : B256)
      → lookup ((k, a) ∷ entries) j ≡ (if beq k j then some a else lookup entries j)
  unfolding lookup
  lookup_head k a entries j = refl

  pub IsSound-set_entry :
      (tries : List (B256 × MptNode)) (key : B256) (n : MptNode)
      → ((address : B256) → IsSound ext (trie_of tries address))
      → IsSound ext n
      → (address : B256) → IsSound ext (trie_of (set_entry tries key n) address)
  IsSound-set_entry tries key n h s j = elim (Bool-cases (beq key j)) [
    | inl same ↦ subst (IsSound ext) (sym (trie_of-set_entry tries key n j ∙ rw same refl)) s
    | inr other ↦ subst (IsSound ext) (sym (trie_of-set_entry tries key n j ∙ rw other refl)) (h j)
  ]

  get-clear : (n : MptNode) (key : B256) → get (clear n) key ≡ ok none
  unfolding get get_internal clear
  get-clear n key = refl

  clear-IsSound : (n : MptNode) → IsSound ext (clear n)
  unfolding clear
  clear-IsSound n = (tt, (tt, tt))

  default-IsSound : IsSound ext default
  default-IsSound = (tt, (tt, tt))

  module _ (laws : IsEncoder enc) where
    -- The trie of the account's storage, after its slots are written.
    pub update_storage-Slots :
        (storage : HashedStorage) (n m : MptNode)
        → IsSound ext n
        → All (λ slot. All IsByte slot.0) storage.storage
        → update_storage ext enc storage n ≡ ok m
        → IsSound ext m
          × ((j : B256)
              → All IsByte j
              → get m j
                ≡ written_slot encode_word storage.storage j
                    (if storage.wiped then ok none else get n j))
    unfolding update_storage
    update_storage-Slots storage n m s k e = elim (Bool-cases storage.wiped) [
      | inl w ↦
          let e' = rw w at e in
          let r =
            update_slots-Slots ext enc laws storage.storage (clear n) m (clear-IsSound n) k e' in
          (
            r.sound,
            λ j hj.
                r.reads j hj
                ∙ ap (written_slot encode_word storage.storage j) (get-clear n j ∙ rw w refl),
          )
      | inr w ↦
          let e' = rw w at e in
          let r = update_slots-Slots ext enc laws storage.storage n m s k e' in
          (
            r.sound,
            λ j hj.
                r.reads j hj ∙ ap (written_slot encode_word storage.storage j) (sym (rw w refl)),
          )
    ]
