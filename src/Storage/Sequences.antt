-- ===== src/Storage/Sequences.antt =====
-- sw/fw/src/systems/storage.rs: values are found again after any further use of the store.
use powersupply.Base.{◌≡◌, ◌≢◌, refl, ◌∙◌, List, [], ◌∷◌, Option, some, ok}
use powersupply.Storage.{StorageEntry, wrapper, buffer_size, Inner, fetch, store}
use powersupply.Storage.Key.{StorageKey}
use powersupply.Storage.Crates.{Flash}
use powersupply.Storage.Partition.{range}
use powersupply.Storage.Laws.{stored, stored-store, stored-fetch, try_flash-ok, Fetched-some}

-- The calls of the other systems, of any types.
pub data Use : Type 1 where
  reads : {T : Type 0} → StorageEntry T → Use
  writes : {T : Type 0} → StorageEntry T → T → Use

module _ (lib : Flash) where
  open lib use {store_item, fetch_item, store_ok, fetch_ok}

  abbrev pub after : List Use → Inner lib → Inner lib
  after [] s = s
  after (reads e ∷ us) s = after us (fetch lib e s).1
  after (writes e x ∷ us) s = after us (store lib e x s).1

  -- Every write succeeds, and none is to this key.
  abbrev pub Spares : StorageKey → List Use → Inner lib → Type 0
  Spares k [] s = Unit
  Spares k (reads e ∷ us) s = Spares k us (fetch lib e s).1
  Spares k (writes e x ∷ us) s =
      ((store lib e x s).0 ≡ ok tt) × (k ≢ e.key) × Spares k us (store lib e x s).1

  stored-after :
      (k : StorageKey) (us : List Use) (s : Inner lib)
      → Spares k us s
      → stored lib (after us s) k ≡ stored lib s k
  stored-after k [] s h = refl
  stored-after k (reads e ∷ us) s h = stored-after k us (fetch lib e s).1 h ∙ stored-fetch lib e s k
  stored-after k (writes e x ∷ us) s (done, ne, h) =
      stored-after k us (store lib e x s).1 h ∙ stored-store lib e x s k done ne

  -- A value that was stored with success is what a successful fetch of its key answers, after any
  -- further fetches, whatever they answer, and any further stores that succeed under other keys.
  pub fetch-after :
      {T : Type 0} (e : StorageEntry T) (x : T) (us : List Use) (s : Inner lib) (y : Option T)
      → (store lib e x s).0 ≡ ok tt
      → Spares e.key us (store lib e x s).1
      → (fetch lib e (after us (store lib e x s).1)).0 ≡ ok y
      → y ≡ some x
  unfolding fetch store
  fetch-after e x us s y h sp k =
      let t = after us (store lib e x s).1 in
      let (bs, ser, it) =
        store_ok (wrapper e) (range s.partition) buffer_size e.key x s.storage
          (try_flash-ok _ tt h) in
      Fetched-some e x buffer_size bs y ser (
        rw (stored-after e.key us (store lib e x s).1 sp ∙ it) at (
          fetch_ok (wrapper e) (range t.partition) buffer_size e.key t.storage y
            (try_flash-ok _ y k)))
