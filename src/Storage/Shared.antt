-- ===== src/Storage/Shared.antt =====
-- sw/fw/src/systems/storage.rs, as the settings (sw/fw/src/systems/config.rs) and the counters
-- (sw/fw/src/systems/record.rs) use it: one store for both, whose errors they unwrap.
use powersupply.Base.{
  ◌≡◌, refl, ap₂, List, [], ◌∷◌, Option, some, Result, ok, err, Outcome, returns, unwrap, ◌>>=◌,
  Returns, Returns-bind, Returns-Ensures, Always, Ensures, Ensures-bind, Ensures-mono,
  unwrap-Ensures,
}
use powersupply.Storage.{StorageEntry, wrapper, Inner, fetch, store, Error}
use powersupply.Storage.Key.{record_data, config_settings}
use powersupply.Storage.Crates.{Postcard, Flash, Fetched}
use powersupply.Storage.Laws.{
  stored, stored-store, stored-fetch, Fetched-unique, store-Fetched, fetch-Fetched,
}
use powersupply.Config.Fields.{Settings}
use powersupply.Record.{Data}

-- `impl StorageEntry for Settings` and `for Data`
abbrev pub settings_entry : Postcard Settings → StorageEntry Settings
settings_entry c = record { key = config_settings; codec = c }

abbrev pub data_entry : Postcard Data → StorageEntry Data
data_entry c = record { key = record_data; codec = c }

-- The calls of both systems, in the order in which they get the lock of the storage.
pub data Call : Type 0 where
  fetch_settings fetch_data : Call
  store_settings : Settings → Call
  store_data : Data → Call

-- What the two fetches answer.
pub data Answer : Type 0 where
  settings : Option Settings → Answer
  counters : Option Data → Answer

-- The abstract view: two cells, each with a value or none.
pub record Cells : Type 0 where
  pub settings_cell : Option Settings
  pub data_cell : Option Data

-- A sequence of calls on the two cells: the answers, and the cells after it.
abbrev pub replay : List Call → Cells → List Answer × Cells
replay [] c = ([], c)
replay (fetch_settings ∷ ks) c = let (as_, d) = replay ks c in (settings c.settings_cell ∷ as_, d)
replay (fetch_data ∷ ks) c = let (as_, d) = replay ks c in (counters c.data_cell ∷ as_, d)
replay (store_settings x ∷ ks) c = replay ks (record c { settings_cell = some x })
replay (store_data x ∷ ks) c = replay ks (record c { data_cell = some x })

module _ (lib : Flash) (settings_codec : Postcard Settings) (data_codec : Postcard Data) where
  abbrev pub of_settings : StorageEntry Settings
  of_settings = settings_entry settings_codec

  abbrev pub of_data : StorageEntry Data
  of_data = data_entry data_codec

  -- `Storage::fetch` and `Storage::store`, at both types, with the `unwrap` of their callers.
  unfoldable pub serve : List Call → Inner lib → Outcome (List Answer × Inner lib)
  serve [] s = returns ([], s)
  serve (fetch_settings ∷ ks) s = unwrap (fetch lib of_settings s).0 >>= λ y.
      serve ks (fetch lib of_settings s).1 >>= λ (as_, t). returns (settings y ∷ as_, t)
  serve (fetch_data ∷ ks) s = unwrap (fetch lib of_data s).0 >>= λ y.
      serve ks (fetch lib of_data s).1 >>= λ (as_, t). returns (counters y ∷ as_, t)
  serve (store_settings x ∷ ks) s =
      unwrap (store lib of_settings x s).0 >>= λ _. serve ks (store lib of_settings x s).1
  serve (store_data x ∷ ks) s =
      unwrap (store lib of_data x s).0 >>= λ _. serve ks (store lib of_data x s).1

  -- The cells that the store shows: under each key the bytes of the value, or nothing.
  abbrev pub Shows : Inner lib → Cells → Type 0
  Shows s c =
      Fetched (wrapper of_settings) (stored lib s config_settings) c.settings_cell
      × Fetched (wrapper of_data) (stored lib s record_data) c.data_cell

  -- A fetch of one entry answers its cell, and changes neither.
  fetched :
      {T : Type 0} (e : StorageEntry T) (s : Inner lib) (x y : Option T)
      → Fetched (wrapper e) (stored lib s e.key) x
      → (fetch lib e s).0 ≡ ok y
      → y ≡ x
  fetched e s x y f h = Fetched-unique lib e (stored lib s e.key) x y f (fetch-Fetched lib e s y h)

  pub Shows-fetch :
      {T : Type 0} (e : StorageEntry T) (s : Inner lib) (c : Cells)
      → Shows s c
      → Shows (fetch lib e s).1 c
  Shows-fetch e s c h =
      rw (stored-fetch lib e s config_settings, stored-fetch lib e s record_data) h

  abbrev Refines : List Call → Cells → List Answer × Inner lib → Type 0
  Refines ks c r = (r.0 ≡ (replay ks c).0) × Shows r.1 (replay ks c).1

  abbrev Answers : Answer → List Call → Cells → List Answer × Inner lib → Type 0
  Answers a ks c r = (r.0 ≡ a ∷ (replay ks c).0) × Shows r.1 (replay ks c).1

  answered :
      {T : Type 0} (e : StorageEntry T) (f : Option T → Answer) (x : Option T) (ks : List Call)
      (s : Inner lib) (c : Cells)
      → ((y : Option T) → (fetch lib e s).0 ≡ ok y → y ≡ x)
      → Ensures (serve ks (fetch lib e s).1) (Refines ks c)
      → Ensures
          (unwrap (fetch lib e s).0 >>= λ y.
            serve ks (fetch lib e s).1 >>= λ (as_, t). returns (f y ∷ as_, t))
          (Answers (f x) ks c)
  answered e f x ks s c found rest =
      Ensures-bind (unwrap (fetch lib e s).0) _ _ (Answers (f x) ks c)
        (unwrap-Ensures (fetch lib e s).0)
        λ y h.
          Ensures-bind (serve ks (fetch lib e s).1) _ (Refines ks c) (Answers (f x) ks c) rest
            λ r (same, shows). (ap₂ (λ z l. f z ∷ l) (found y h) same, shows)

  serve-Refines :
      (ks : List Call) (s : Inner lib) (c : Cells) → Shows s c → Ensures (serve ks s) (Refines ks c)
  unfolding serve
  serve-Refines [] s c h = (refl, h)
  serve-Refines (fetch_settings ∷ ks) s c h =
      answered of_settings settings c.settings_cell ks s c
        (λ y. fetched of_settings s c.settings_cell y h.0)
        (serve-Refines ks (fetch lib of_settings s).1 c (Shows-fetch of_settings s c h))
  serve-Refines (fetch_data ∷ ks) s c h =
      answered of_data counters c.data_cell ks s c (λ y. fetched of_data s c.data_cell y h.1)
        (serve-Refines ks (fetch lib of_data s).1 c (Shows-fetch of_data s c h))
  serve-Refines (store_settings x ∷ ks) s c h =
      let t = (store lib of_settings x s).1 in
      let d = record c { settings_cell = some x } in
      Ensures-bind (unwrap (store lib of_settings x s).0) _ _ (Refines ks d)
        (unwrap-Ensures (store lib of_settings x s).0)
        λ _ done. serve-Refines ks t d (
          store-Fetched lib of_settings x s done,
          rw (stored-store lib of_settings x s record_data done (λ e. cc)) h.1,
        )
  serve-Refines (store_data x ∷ ks) s c h =
      let t = (store lib of_data x s).1 in
      let d = record c { data_cell = some x } in
      Ensures-bind (unwrap (store lib of_data x s).0) _ _ (Refines ks d)
        (unwrap-Ensures (store lib of_data x s).0)
        λ _ done. serve-Refines ks t d (
          rw (stored-store lib of_data x s config_settings done (λ e. cc)) h.0,
          store-Fetched lib of_data x s done,
        )

  abbrev pub IsOk : {T : Type 0} → Result T (Error lib.FlashError) → Type 0
  IsOk (ok _) = Unit
  IsOk (err _) = ⊥

  -- No call of the sequence meets an error of the storage.
  abbrev pub Succeeds : List Call → Inner lib → Type 0
  Succeeds [] s = Unit
  Succeeds (fetch_settings ∷ ks) s =
      IsOk (fetch lib of_settings s).0 × Succeeds ks (fetch lib of_settings s).1
  Succeeds (fetch_data ∷ ks) s = IsOk (fetch lib of_data s).0 × Succeeds ks (fetch lib of_data s).1
  Succeeds (store_settings x ∷ ks) s =
      IsOk (store lib of_settings x s).0 × Succeeds ks (store lib of_settings x s).1
  Succeeds (store_data x ∷ ks) s =
      IsOk (store lib of_data x s).0 × Succeeds ks (store lib of_data x s).1

  unwrap-returns :
      {T : Type 0} (r : Result T (Error lib.FlashError)) → IsOk r → Returns (unwrap r) Always
  unwrap-returns (ok a) h = tt
  unwrap-returns (err e) h = absurd h

  -- A fetch that meets no error answers its cell.
  pub fetch-Returns :
      {T : Type 0} (e : StorageEntry T) (s : Inner lib) (x : Option T)
      → Fetched (wrapper e) (stored lib s e.key) x
      → IsOk (fetch lib e s).0
      → Returns (unwrap (fetch lib e s).0) (λ y. y ≡ x)
  fetch-Returns e s x f h =
      let r = (fetch lib e s).0 in
      Returns-Ensures (unwrap r) _ Always
        (Ensures-mono (unwrap r) _ _ (λ y. fetched e s x y f) (unwrap-Ensures r))
        (unwrap-returns r h)

  answered-returns :
      {T : Type 0} (r : Result T (Error lib.FlashError)) (f : T → Answer)
      (rest : Outcome (List Answer × Inner lib))
      → IsOk r
      → Returns rest Always
      → Returns {A = List Answer × Inner lib}
          (unwrap r >>= λ y. rest >>= λ (as_, t). returns (f y ∷ as_, t))
          Always
  answered-returns r f rest h k =
      Returns-bind (unwrap r) _ Always Always (unwrap-returns r h)
        λ y _. Returns-bind rest _ Always Always k λ _ _. tt

  serve-returns : (ks : List Call) (s : Inner lib) → Succeeds ks s → Returns (serve ks s) Always
  unfolding serve
  serve-returns [] s h = tt
  serve-returns (fetch_settings ∷ ks) s (h, k) =
      answered-returns (fetch lib of_settings s).0 settings _ h (serve-returns ks _ k)
  serve-returns (fetch_data ∷ ks) s (h, k) =
      answered-returns (fetch lib of_data s).0 counters _ h (serve-returns ks _ k)
  serve-returns (store_settings x ∷ ks) s (h, k) =
      Returns-bind (unwrap (store lib of_settings x s).0) _ Always Always (unwrap-returns _ h)
        λ _ _. serve-returns ks _ k
  serve-returns (store_data x ∷ ks) s (h, k) =
      Returns-bind (unwrap (store lib of_data x s).0) _ Always Always (unwrap-returns _ h)
        λ _ _. serve-returns ks _ k

  -- Through one store, both systems see their own cell: from a memory that shows two cells, any
  -- sequence of fetches and stores of the settings and of the counters, in any order, whose calls
  -- meet no error, does not panic, answers what the two cells would answer, and leaves a memory
  -- that shows the two cells as they are then.
  pub serve-replay :
      (ks : List Call) (s : Inner lib) (c : Cells)
      → Shows s c
      → Succeeds ks s
      → Returns (serve ks s) (λ r. (r.0 ≡ (replay ks c).0) × Shows r.1 (replay ks c).1)
  serve-replay ks s c h k =
      Returns-Ensures (serve ks s) _ Always (serve-Refines ks s c h) (serve-returns ks s k)
