-- ===== src/Storage/Crates.antt =====
-- What sw/fw/src/systems/storage.rs uses of the crates sequential-storage and postcard: parameters,
-- with the behaviour that their documentation gives.
use powersupply.Base.{ℕ, ◌≡◌, ◌≢◌, List, Option, none, some, Result, ok}
use powersupply.Storage.Key.{StorageKey, SerializationError}
use powersupply.Storage.Partition.{Range}

-- The trait `sequential_storage::map::Value`; a serialiser is given the length of its buffer.
pub record Value (T : Type 0) : Type 0 where
  pub serialize_into : T → ℕ → Result (List ℕ) SerializationError
  pub deserialize_from : List ℕ → Result T SerializationError

-- postcard at a type: what is written is read back.
pub record Postcard (T : Type 0) : Type 0 where
  pub to_slice : T → ℕ → Option (List ℕ)
  pub from_bytes : List ℕ → Option T
  pub from_bytes-to_slice :
      (x : T) (n : ℕ) (bs : List ℕ) → to_slice x n ≡ some bs → from_bytes bs ≡ some x

-- What a fetch may answer, from the bytes that are stored under the key.
abbrev pub Fetched : {T : Type 0} → Value T → Option (List ℕ) → Option T → Type 0
Fetched v none y = y ≡ none
Fetched {T} v (some bs) y = (x : T) × (v.deserialize_from bs ≡ ok x) × (y ≡ some x)

-- `sequential_storage::map` over a flash memory. `item` is the abstract view that its documentation
-- speaks of: the bytes last stored under a key in a range. Any call may fail; what a failed store
-- or a failed erasure leaves behind is not said.
pub record Flash : Type 1 where
  pub Memory : Type 0
  pub FlashError : Type 0
  pub item : Memory → Range → StorageKey → Option (List ℕ)
  pub fetch_item :
      {T : Type 0}
      → Value T
      → Range
      → ℕ
      → StorageKey
      → Memory
      → Result (Option T) FlashError × Memory
  pub store_item :
      {T : Type 0}
      → Value T
      → Range
      → ℕ
      → StorageKey
      → T
      → Memory
      → Result (Unit {0}) FlashError × Memory
  pub erase_all : Range → Memory → Result (Unit {0}) FlashError × Memory
  pub fetch_ok :
      {T : Type 0} (v : Value T) (r : Range) (n : ℕ) (k : StorageKey) (m : Memory) (y : Option T)
      → (fetch_item v r n k m).0 ≡ ok y
      → Fetched v (item m r k) y
  pub fetch_keeps :
      {T : Type 0} (v : Value T) (r : Range) (n : ℕ) (k j : StorageKey) (m : Memory)
      → item (fetch_item v r n k m).1 r j ≡ item m r j
  pub store_ok :
      {T : Type 0} (v : Value T) (r : Range) (n : ℕ) (k : StorageKey) (x : T) (m : Memory)
      → (store_item v r n k x m).0 ≡ ok tt
      → (bs : List ℕ) × (v.serialize_into x n ≡ ok bs)
        × (item (store_item v r n k x m).1 r k ≡ some bs)
  pub store_keeps :
      {T : Type 0} (v : Value T) (r : Range) (n : ℕ) (k j : StorageKey) (x : T) (m : Memory)
      → (store_item v r n k x m).0 ≡ ok tt
      → j ≢ k
      → item (store_item v r n k x m).1 r j ≡ item m r j
  pub erase_ok :
      (r : Range) (k : StorageKey) (m : Memory)
      → (erase_all r m).0 ≡ ok tt
      → item (erase_all r m).1 r k ≡ none
