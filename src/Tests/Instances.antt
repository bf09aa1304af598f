-- ===== src/Tests/Instances.antt =====
-- Concrete parameters: a clock of milliseconds, a slot and a flash memory that never fail.
use powersupply.Base.{
  ℕ, ◌+◌, ◌-◌, ◌*◌, ◌/◌, ◌^◌, ◌≤◌, ◌<◌, ◌≡◌, ◌≢◌, refl, List, [], ◌∷◌, Option, none, some, arith,
  ltb, if◌then◌else◌, Result, ok, err, Outcome, returns, panics, Returns, Ensures, Always,
}
use powersupply.Base.Time.{Time}
use powersupply.Storage.{Slot}
use powersupply.Storage.Key.{StorageKey, marker, record_data, config_settings, SerializationError}
use powersupply.Storage.Crates.{Value, Postcard, Fetched, Flash}
use powersupply.Storage.Partition.{Range}

abbrev checked_add : ℕ → ℕ → Outcome ℕ
checked_add t d = if ltb (t + d) (2 ^ 64) then returns (t + d) else panics

abbrev since : ℕ → ℕ → Outcome ℕ
since now t = if ltb now t then panics else returns (now - t)

pub checked_add-Ensures : (t d : ℕ) → Ensures (checked_add t d) (λ u. u ≡ t + d)
checked_add-Ensures t d = ground arith

pub checked_add-Returns : (t d : ℕ) → t + d < 2 ^ 64 → Returns (checked_add t d) Always
checked_add-Returns t d h = ground arith

pub since_lem : (now t : ℕ) → t ≤ now → since now t ≡ returns (now - t)
since_lem now t h = ground arith

abbrev pub clock : Time
clock = record {
  from_secs = λ s. s * 1000;
  from_millis = λ m. m;
  as_secs = λ t. t / 1000;
  add = checked_add;
  elapsed = since;
  add_lem = checked_add-Ensures;
  add-returns = checked_add-Returns;
  elapsed_lem = since_lem;
}

pub read_back :
    {D : Type 0} (y : Option D) (d : D)
    → ◌≡◌ {A = Result (Option D) (Unit {0})} (ok (some d)) (ok y)
    → y ≡ some d
read_back y d h = cc

pub read_twice :
    {D : Type 0} (z y s : Option D)
    → ◌≡◌ {A = Result (Option D) (Unit {0})} (ok s) (ok z)
    → ◌≡◌ {A = Result (Option D) (Unit {0})} (ok s) (ok y)
    → z ≡ y
read_twice z y s h k = cc

-- A slot that holds at most one value, and whose calls succeed.
abbrev pub cell : (D : Type 0) → Slot D
cell D = record {
  State = Option D;
  SlotError = Unit;
  load = λ s. (ok s, s);
  save = λ d s. (ok tt, some d);
  load-save = λ d s y h l. read_back y d l;
  load-load = λ s y z h l. read_twice z y s l h;
}

-- A memory of three items, one for each key.
pub record Memory : Type 0 where
  pub marker_item : Option (List ℕ)
  pub record_item : Option (List ℕ)
  pub config_item : Option (List ℕ)

abbrev pub erased : Memory
erased = record { marker_item = none; record_item = none; config_item = none }

abbrev pub item_at : Memory → Range → StorageKey → Option (List ℕ)
item_at m r marker = m.marker_item
item_at m r record_data = m.record_item
item_at m r config_settings = m.config_item

abbrev put : StorageKey → List ℕ → Memory → Memory
put marker bs m = record m { marker_item = some bs }
put record_data bs m = record m { record_item = some bs }
put config_settings bs m = record m { config_item = some bs }

put_self :
    (k : StorageKey) (bs : List ℕ) (m : Memory) (r : Range) → item_at (put k bs m) r k ≡ some bs
put_self marker bs m r = refl
put_self record_data bs m r = refl
put_self config_settings bs m r = refl

put_other :
    (k j : StorageKey) (bs : List ℕ) (m : Memory) (r : Range)
    → j ≢ k
    → item_at (put k bs m) r j ≡ item_at m r j
put_other marker marker bs m r ne = absurd (ne refl)
put_other marker record_data bs m r ne = refl
put_other marker config_settings bs m r ne = refl
put_other record_data marker bs m r ne = refl
put_other record_data record_data bs m r ne = absurd (ne refl)
put_other record_data config_settings bs m r ne = refl
put_other config_settings marker bs m r ne = refl
put_other config_settings record_data bs m r ne = refl
put_other config_settings config_settings bs m r ne = absurd (ne refl)

module _ {T : Type 0} (v : Value T) (m : Memory) where
  abbrev decoded : Option (List ℕ) → Result (Option T) SerializationError
  decoded none = ok none
  decoded (some bs) = elim (v.deserialize_from bs) [ ok x ↦ ok (some x) | err e ↦ err e ]

  abbrev stored_as :
      StorageKey
      → Result (List ℕ) SerializationError
      → Result (Unit {0}) SerializationError × Memory
  stored_as k (ok bs) = (ok tt, put k bs m)
  stored_as k (err e) = (err e, m)

  pub decoded-Fetched : (o : Option (List ℕ)) (y : Option T) → decoded o ≡ ok y → Fetched v o y
  decoded-Fetched none y h = cc
  decoded-Fetched (some bs) y h = by_value (v.deserialize_from bs) refl h
    where
      by_value :
          (r : Result T SerializationError)
          → v.deserialize_from bs ≡ r
          → (elim r as (λ _. Result (Option T) SerializationError) [
            | ok x ↦ ok (some x)
            | err e ↦ err e
          ])
            ≡ ok y
          → (x : T) × (v.deserialize_from bs ≡ ok x) × (y ≡ some x)
      by_value (ok x) e h = (x, e, cc)
      by_value (err e) _ h = cc

  pub stored_as-ok :
      (k : StorageKey) (q : Result (List ℕ) SerializationError) (r : Range)
      → (stored_as k q).0 ≡ ok tt
      → (bs : List ℕ) × (q ≡ ok bs) × (item_at (stored_as k q).1 r k ≡ some bs)
  stored_as-ok k (ok bs) r h = (bs, refl, put_self k bs m r)
  stored_as-ok k (err e) r h = cc

  pub stored_as-other :
      (k j : StorageKey) (q : Result (List ℕ) SerializationError) (r : Range)
      → j ≢ k
      → item_at (stored_as k q).1 r j ≡ item_at m r j
  stored_as-other k j (ok bs) r ne = put_other k j bs m r ne
  stored_as-other k j (err e) r ne = refl

pub erased-none : (r : Range) (k : StorageKey) → item_at erased r k ≡ none
erased-none r marker = refl
erased-none r record_data = refl
erased-none r config_settings = refl

abbrev pub flash : Flash
flash = record {
  Memory = Memory;
  FlashError = SerializationError;
  item = item_at;
  fetch_item = λ v r n k m. (decoded v m (item_at m r k), m);
  store_item = λ v r n k x m. stored_as v m k (v.serialize_into x n);
  erase_all = λ r m. (ok tt, erased);
  fetch_ok = λ v r n k m y h. decoded-Fetched v m (item_at m r k) y h;
  fetch_keeps = λ v r n k j m. refl;
  store_ok = λ v r n k x m h. stored_as-ok v m k (v.serialize_into x n) r h;
  store_keeps = λ v r n k j x m h ne. stored_as-other v m k j (v.serialize_into x n) r ne;
  erase_ok = λ r k m h. erased-none r k;
}

abbrev pub unit_codec : Postcard (Unit {0})
unit_codec = record {
  to_slice = λ x n. some [];
  from_bytes = λ bs. some tt;
  from_bytes-to_slice = λ x n bs h. refl;
}

abbrev first_byte : List ℕ → Option ℕ
first_byte [] = none
first_byte (b ∷ _) = some b

pub byte_back :
    (x : ℕ) (bs : List ℕ)
    → ◌≡◌ {A = Option (List ℕ)} (some (x ∷ [])) (some bs)
    → first_byte bs ≡ some x
byte_back x [] h = cc
byte_back x (b ∷ bs) h = cc

abbrev pub byte_codec : Postcard ℕ
byte_codec = record {
  to_slice = λ x n. some (x ∷ []);
  from_bytes = first_byte;
  from_bytes-to_slice = λ x n bs h. byte_back x bs h;
}
