-- ===== src/Storage/Key.antt =====
-- sw/fw/src/systems/storage.rs: the keys and their one-byte encoding.
use powersupply.Base.{
  ℕ, ◌≡◌, List, [], ◌∷◌, arith, ◌==◌, if◌then◌else◌, Option, none, some, Result, ok, err,
}

pub data StorageKey : Type 0 where
  marker record_data config_settings : StorageKey

-- Those of sequential-storage that the source names.
pub data SerializationError : Type 0 where
  buffer_too_small invalid_data invalid_format : SerializationError

-- `u8::from`
unfoldable pub to_u8 : StorageKey → ℕ
to_u8 marker = 0x01
to_u8 record_data = 0x02
to_u8 config_settings = 0x03

-- `StorageKey::try_from_primitive`
unfoldable pub try_from_primitive : ℕ → Option StorageKey
try_from_primitive n =
    if n == 0x01
    then some marker
    else if n == 0x02
    then some record_data
    else if n == 0x03
    then some config_settings
    else none

-- The size written, and the buffer after it.
unfoldable pub serialize_into : StorageKey → List ℕ → Result (ℕ × List ℕ) SerializationError
unfolding to_u8
serialize_into k [] = err buffer_too_small
serialize_into k (_ ∷ rest) = ok (1, to_u8 k ∷ rest)

-- The key, and the size read.
unfoldable pub deserialize_from : List ℕ → Result (StorageKey × ℕ) SerializationError
unfolding try_from_primitive
deserialize_from [] = err invalid_format
deserialize_from (b ∷ _) = elim (try_from_primitive b) [
  | some k ↦ ok (k, 1)
  | none ↦ err invalid_data
]

-- What is written for a key is read back as that key, and as many bytes are consumed as were
-- written; and a buffer that is read as a key holds already what writing that key would put there.
pub deserialize_from-serialize_into :
    (k : StorageKey) (buffer : List ℕ)
    → ((n : ℕ) (out : List ℕ)
        → serialize_into k buffer ≡ ok (n, out)
        → deserialize_from out ≡ ok (k, n))
      × ((n : ℕ) → deserialize_from buffer ≡ ok (k, n) → serialize_into k buffer ≡ ok (n, buffer))
unfolding serialize_into deserialize_from
deserialize_from-serialize_into marker [] = (λ n out h. cc, λ n h. cc)
deserialize_from-serialize_into marker (b ∷ rest) = (λ n out h. ground arith, λ n h. ground arith)
deserialize_from-serialize_into record_data [] = (λ n out h. cc, λ n h. cc)
deserialize_from-serialize_into record_data (b ∷ rest) =
    (λ n out h. ground arith, λ n h. ground arith)
deserialize_from-serialize_into config_settings [] = (λ n out h. cc, λ n h. cc)
deserialize_from-serialize_into config_settings (b ∷ rest) =
    (λ n out h. ground arith, λ n h. ground arith)
