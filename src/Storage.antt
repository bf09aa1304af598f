-- ===== src/Storage.antt =====
-- sw/fw/src/systems/storage.rs: the key-value store on flash. The crates sequential-storage and
-- postcard are parameters (Storage/Crates.antt).
pub mod Key
pub mod Crates
pub mod Partition
pub mod Laws
pub mod Sequences
pub mod Shared
use powersupply.Base.{
  ℕ, ◌≡◌, Option, none, some, List, Result, ok, err, Outcome, returns, unwrap, unwrap_or, ◌>>=◌,
  ◌>>◌,
}
use powersupply.Storage.Key.{StorageKey, marker, SerializationError, buffer_too_small, invalid_data}
use powersupply.Storage.Crates.{Value, Postcard, Flash}
use powersupply.Storage.Partition.{PartitionEntry, Range, range, find_partition}

abbrev pub buffer_size : ℕ
buffer_size = 128

-- The trait `StorageEntry`: the key, and what serde derives, by way of postcard.
pub record StorageEntry (T : Type 0) : Type 0 where
  pub key : StorageKey
  pub codec : Postcard T

-- `impl Value for Wrapper<T>`
abbrev pub wrapper : {T : Type 0} → StorageEntry T → Value T
wrapper e = record {
  serialize_into =
      λ x n. elim (e.codec.to_slice x n) [ some bs ↦ ok bs | none ↦ err buffer_too_small ];
  deserialize_from = λ bs. elim (e.codec.from_bytes bs) [ some x ↦ ok x | none ↦ err invalid_data ];
}

-- `impl StorageEntry for Marker`; the unit type stands for `Marker`.
abbrev pub marker_entry : Postcard (Unit {0}) → StorageEntry (Unit {0})
marker_entry c = record { key = marker; codec = c }

-- `Error` of storage.rs; `E` is the error of sequential-storage.
pub data Error (E : Type 0) : Type 0 where
  serialization : SerializationError → Error E
  flash : E → Error E

-- The `?` on a result of sequential-storage, by `From`.
abbrev pub try_flash : {A E : Type 0} → Result A E → Result A (Error E)
try_flash (ok a) = ok a
try_flash (err e) = err (flash e)

module _ (lib : Flash) where
  open lib use {Memory, FlashError, fetch_item, store_item, erase_all}

  pub record Inner : Type 0 where
    pub storage : Memory
    pub partition : PartitionEntry

  abbrev pub Action : Type 0 → Type 0
  Action A = Inner → Result A (Error FlashError) × Inner

  -- `Inner::fetch`, which `Storage::fetch` calls under the lock
  unfoldable pub fetch : {T : Type 0} → StorageEntry T → Action (Option T)
  fetch e s =
      let (r, m) = fetch_item (wrapper e) (range s.partition) buffer_size e.key s.storage in
      (try_flash r, record s { storage = m })

  -- `Inner::store`, which `Storage::store` calls under the lock
  unfoldable pub store : {T : Type 0} → StorageEntry T → T → Action (Unit {0})
  store e x s =
      let (r, m) = store_item (wrapper e) (range s.partition) buffer_size e.key x s.storage in
      (try_flash r, record s { storage = m })

  -- `store(Marker)`, after the `?` on the result of erasing
  store_marker : Postcard (Unit {0}) → Result (Unit {0}) (Error FlashError) → Action (Unit {0})
  store_marker c (ok _) s = store (marker_entry c) tt s
  store_marker c (err e) s = (err e, s)

  -- Erase, and store the marker.
  initialize : Postcard (Unit {0}) → Action (Unit {0})
  unfolding store_marker
  initialize c s =
      let (r, m) = erase_all (range s.partition) s.storage in
      store_marker c (try_flash r) (record s { storage = m })

  -- A marker that is found ends it; no marker, and any error, lead to erasing the store.
  initialize_unless :
      Postcard (Unit {0}) → Result (Option (Unit {0})) (Error FlashError) → Action (Unit {0})
  initialize_unless c (ok (some _)) s = (ok tt, s)
  initialize_unless c (ok none) s = initialize c s
  initialize_unless c (err _) s = initialize c s

  unfoldable pub ensure_initialized : Postcard (Unit {0}) → Action (Unit {0})
  unfolding initialize_unless initialize
  ensure_initialized c s = let (r, s') = fetch (marker_entry c) s in initialize_unless c r s'

  -- `Storage::init`, over the entries of the partition table and the memory found at boot.
  unfoldable pub init :
      {E : Type 0} → Postcard (Unit {0}) → List (Result PartitionEntry E) → Memory → Outcome Inner
  init c table m = do
    p ← find_partition table
    let (r, s) = ensure_initialized c (record { storage = m; partition = p })
    unwrap r
    returns s

-- A slot for values of one type, as the systems see it: what they rely on from the storage.
pub record Slot (D : Type 0) : Type 1 where
  pub State : Type 0
  pub SlotError : Type 0
  pub load : State → Result (Option D) SlotError × State
  pub save : D → State → Result (Unit {0}) SlotError × State
  pub load-save :
      (d : D) (s : State) (y : Option D)
      → (save d s).0 ≡ ok tt
      → (load (save d s).1).0 ≡ ok y
      → y ≡ some d
  pub load-load :
      (s : State) (y z : Option D) → (load s).0 ≡ ok y → (load (load s).1).0 ≡ ok z → z ≡ y

-- A successful load would give this value, where nothing stored stands for the default.
abbrev pub IsSaved : {D : Type 0} (slot : Slot D) → D → D → slot.State → Type 0
IsSaved {D} slot default d st = (y : Option D) → (slot.load st).0 ≡ ok y → unwrap_or y default ≡ d
