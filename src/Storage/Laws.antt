-- ===== src/Storage/Laws.antt =====
-- What `Inner` of sw/fw/src/systems/storage.rs promises its callers: values are found again, each
-- under its own key, and a boot keeps them as long as the marker is there.
use powersupply.Base.{
  ℕ, ◌≡◌, ◌≢◌, refl, ◌∙◌, ◌⊎◌, inl, inr, List, Option, none, some, arith, Result, ok, err,
}
use powersupply.Storage.{
  StorageEntry, wrapper, marker_entry, buffer_size, try_flash, Inner, fetch, store, store_marker,
  initialize, initialize_unless, ensure_initialized, Slot, Error,
}
use powersupply.Storage.Key.{StorageKey, marker}
use powersupply.Storage.Crates.{Postcard, Flash, Fetched}
use powersupply.Storage.Partition.{range}

pub try_flash-ok : {A E : Type 0} (r : Result A E) (a : A) → try_flash r ≡ ok a → r ≡ ok a
try_flash-ok (ok b) a h = cc
try_flash-ok (err e) a h = cc

-- `Wrapper` reads back what it writes.
wrapper_lem :
    {T : Type 0} (e : StorageEntry T) (x : T) (n : ℕ) (bs : List ℕ)
    → (wrapper e).serialize_into x n ≡ ok bs
    → (wrapper e).deserialize_from bs ≡ ok x
wrapper_lem e x n bs h = ground (arith, e.codec.from_bytes-to_slice x n bs)

pub Fetched-some :
    {T : Type 0} (e : StorageEntry T) (x : T) (n : ℕ) (bs : List ℕ) (y : Option T)
    → (wrapper e).serialize_into x n ≡ ok bs
    → Fetched (wrapper e) (some bs) y
    → y ≡ some x
Fetched-some e x n bs y h (x', d, q) = ground (arith, wrapper_lem e x n bs h)

module _ (lib : Flash) where
  open lib use {
    Memory, FlashError, item, fetch_item, store_item, erase_all, fetch_ok, fetch_keeps, store_ok,
    store_keeps, erase_ok,
  }

  -- The bytes stored under a key.
  abbrev pub stored : Inner lib → StorageKey → Option (List ℕ)
  stored s k = item s.storage (range s.partition) k

  -- A stored value is what a later successful fetch of its key answers.
  pub fetch-store :
      {T : Type 0} (e : StorageEntry T) (x : T) (s : Inner lib) (y : Option T)
      → (store lib e x s).0 ≡ ok tt
      → (fetch lib e (store lib e x s).1).0 ≡ ok y
      → y ≡ some x
  unfolding fetch store
  fetch-store e x s y h k =
      let v = wrapper e in
      let r = range s.partition in
      let (bs, ser, it) = store_ok v r buffer_size e.key x s.storage (try_flash-ok _ tt h) in
      Fetched-some e x buffer_size bs y ser (
        rw it at (
          fetch_ok v r buffer_size e.key (store_item v r buffer_size e.key x s.storage).1 y
            (try_flash-ok _ y k)))

  -- A store leaves the other keys alone, and a fetch leaves every key alone.
  pub stored-store :
      {T : Type 0} (e : StorageEntry T) (x : T) (s : Inner lib) (j : StorageKey)
      → (store lib e x s).0 ≡ ok tt
      → j ≢ e.key
      → stored (store lib e x s).1 j ≡ stored s j
  unfolding store
  stored-store e x s j h ne =
      store_keeps (wrapper e) (range s.partition) buffer_size e.key j x s.storage
        (try_flash-ok _ tt h) ne

  pub stored-fetch :
      {T : Type 0} (e : StorageEntry T) (s : Inner lib) (j : StorageKey)
      → stored (fetch lib e s).1 j ≡ stored s j
  unfolding fetch
  stored-fetch e s j = fetch_keeps (wrapper e) (range s.partition) buffer_size e.key j s.storage

  -- What a successful store leaves under its key, and what a successful fetch answers from it.
  pub store-Fetched :
      {T : Type 0} (e : StorageEntry T) (x : T) (s : Inner lib)
      → (store lib e x s).0 ≡ ok tt
      → Fetched (wrapper e) (stored (store lib e x s).1 e.key) (some x)
  unfolding store
  store-Fetched e x s h =
      let (bs, ser, it) =
        store_ok (wrapper e) (range s.partition) buffer_size e.key x s.storage
          (try_flash-ok _ tt h) in
      rw it (x, wrapper_lem e x buffer_size bs ser, refl)

  pub fetch-Fetched :
      {T : Type 0} (e : StorageEntry T) (s : Inner lib) (y : Option T)
      → (fetch lib e s).0 ≡ ok y
      → Fetched (wrapper e) (stored s e.key) y
  unfolding fetch
  fetch-Fetched e s y h =
      fetch_ok (wrapper e) (range s.partition) buffer_size e.key s.storage y (try_flash-ok _ y h)

  store_marker_lem :
      (c : Postcard (Unit {0})) (r : Result (Unit {0}) (Error FlashError)) (s : Inner lib)
      (j : StorageKey)
      → (store_marker lib c r s).0 ≡ ok tt
      → j ≢ marker
      → (r ≡ ok tt) × (stored (store_marker lib c r s).1 j ≡ stored s j)
  unfolding store_marker
  store_marker_lem c (ok _) s j h ne = (refl, stored-store (marker_entry c) tt s j h ne)
  store_marker_lem c (err e) s j h ne = cc

  -- The marker is stored, and is what a fetch of it answers.
  abbrev pub IsMarked : Postcard (Unit {0}) → Inner lib → Type 0
  IsMarked c s = Fetched (wrapper (marker_entry c)) (stored s marker) (some tt)

  store_marker-IsMarked :
      (c : Postcard (Unit {0})) (r : Result (Unit {0}) (Error FlashError)) (s : Inner lib)
      → (store_marker lib c r s).0 ≡ ok tt
      → IsMarked c (store_marker lib c r s).1
  unfolding store_marker
  store_marker-IsMarked c (ok _) s h = store-Fetched (marker_entry c) tt s h
  store_marker-IsMarked c (err e) s h = cc

  initialize-IsMarked :
      (c : Postcard (Unit {0})) (s : Inner lib)
      → (initialize lib c s).0 ≡ ok tt
      → IsMarked c (initialize lib c s).1
  unfolding initialize
  initialize-IsMarked c s h =
      store_marker-IsMarked c (try_flash (erase_all (range s.partition) s.storage).0)
        (record s { storage = (erase_all (range s.partition) s.storage).1 }) h

  initialize_lem :
      (c : Postcard (Unit {0})) (s : Inner lib) (j : StorageKey)
      → (initialize lib c s).0 ≡ ok tt
      → j ≢ marker
      → stored (initialize lib c s).1 j ≡ none
  unfolding initialize
  initialize_lem c s j h ne =
      let (erased, same) =
        store_marker_lem c (try_flash (erase_all (range s.partition) s.storage).0)
          (record s { storage = (erase_all (range s.partition) s.storage).1 }) j h ne in
      same ∙ erase_ok (range s.partition) j s.storage (try_flash-ok _ tt erased)

  by_answer :
      (c : Postcard (Unit {0})) (s : Inner lib) (r : Result (Option (Unit {0})) (Error FlashError))
      (s' : Inner lib)
      → ((j : StorageKey) → stored s' j ≡ stored s j)
      → (initialize_unless lib c r s').0 ≡ ok tt
      → ((r ≡ ok (some tt))
          × ((j : StorageKey) → stored (initialize_unless lib c r s').1 j ≡ stored s j))
        ⊎ ((r ≢ ok (some tt))
            × ((j : StorageKey) → j ≢ marker → stored (initialize_unless lib c r s').1 j ≡ none)
            × IsMarked c (initialize_unless lib c r s').1)
  unfolding initialize_unless
  by_answer c s (ok (some _)) s' e h = inl (refl, e)
  by_answer c s (ok none) s' e h =
      inr (λ p. cc, (λ j. initialize_lem c s' j h), initialize-IsMarked c s' h)
  by_answer c s (err _) s' e h =
      inr (λ p. cc, (λ j. initialize_lem c s' j h), initialize-IsMarked c s' h)

  -- When the store is reported as initialized at boot, then one of two things holds, by what the
  -- fetch of the marker answered: it was found, and every key holds what it held; or it was not (no
  -- marker, or an error), every key but the marker's is empty, and the marker is stored, so that it
  -- is what a later fetch that succeeds answers.
  pub ensure_initialized-stored :
      (c : Postcard (Unit {0})) (s : Inner lib)
      → (ensure_initialized lib c s).0 ≡ ok tt
      → let found = (fetch lib (marker_entry c) s).0 in
        ((found ≡ ok (some tt))
          × ((j : StorageKey) → stored (ensure_initialized lib c s).1 j ≡ stored s j))
        ⊎ ((found ≢ ok (some tt))
            × ((j : StorageKey) → j ≢ marker → stored (ensure_initialized lib c s).1 j ≡ none)
            × IsMarked c (ensure_initialized lib c s).1)
  unfolding ensure_initialized
  ensure_initialized-stored c s h =
      let (r, s') = fetch lib (marker_entry c) s in
      by_answer c s r s' (λ j. stored-fetch (marker_entry c) s j) h

  pub Fetched-unique :
      {T : Type 0} (e : StorageEntry T) (o : Option (List ℕ)) (y z : Option T)
      → Fetched (wrapper e) o y
      → Fetched (wrapper e) o z
      → z ≡ y
  Fetched-unique e none y z p q = cc
  Fetched-unique e (some bs) y z (x, d, p) (x', d', q) = ground arith

  pub fetch-fetch :
      {T : Type 0} (e : StorageEntry T) (s : Inner lib) (y z : Option T)
      → (fetch lib e s).0 ≡ ok y
      → (fetch lib e (fetch lib e s).1).0 ≡ ok z
      → z ≡ y
  unfolding fetch
  fetch-fetch e s y z h k =
      let v = wrapper e in
      let r = range s.partition in
      let m = (fetch_item v r buffer_size e.key s.storage).1 in
      Fetched-unique e (item s.storage r e.key) y z
        (fetch_ok v r buffer_size e.key s.storage y (try_flash-ok _ y h))
        (rw (fetch_keeps v r buffer_size e.key e.key s.storage) at
          (fetch_ok v r buffer_size e.key m z (try_flash-ok _ z k)))

  -- The storage as a slot of one entry: `Storage::fetch` and `Storage::store` at its type.
  abbrev pub slot : {T : Type 0} → StorageEntry T → Slot T
  slot e = record {
    State = Inner lib;
    SlotError = Error FlashError;
    load = fetch lib e;
    save = store lib e;
    load-save = fetch-store e;
    load-load = fetch-fetch e;
  }
