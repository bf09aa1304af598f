-- ===== src/SerialNumber.antt =====
-- sw/fw/src/serialnumber.rs: how the serial number is shown. The crate hex and the check of UTF-8
-- are parameters.
use powersupply.Base.{ℕ, ◌*◌, ◌≡◌, List, length, Result, ok, Outcome, unwrap, ◌>>=◌, Returns, arith}

-- `hex::encode_to_slice` into a buffer of so many bytes, which fits when it has two for each byte,
-- and `core::str::from_utf8`, which takes what hex has written.
pub record Hex : Type 1 where
  pub HexError : Type 0
  pub encode : List ℕ → ℕ → Result (List ℕ) HexError
  pub from_utf8 : List ℕ → Result (List ℕ) HexError
  pub encode-ok :
      (bytes : List ℕ) (size : ℕ)
      → size ≡ 2 * length bytes
      → (digits : List ℕ) × (encode bytes size ≡ ok digits)
        × (length digits ≡ size)
        × (from_utf8 digits ≡ ok digits)

-- `SerialNumber::fmt`: the characters that are written.
unfoldable pub fmt : Hex → List ℕ → Outcome (List ℕ)
fmt hex bytes = do buf ← unwrap (hex.encode bytes (6 * 2)); unwrap (hex.from_utf8 buf)

-- A serial number of six bytes is shown as twelve characters, without a panic.
pub fmt_lem :
    (hex : Hex) (bytes : List ℕ)
    → length bytes ≡ 6
    → Returns (fmt hex bytes) (λ text. length text ≡ 12)
unfolding fmt
fmt_lem hex bytes six =
    let (digits, encoded, size, same) = hex.encode-ok bytes 12 (omega (arith, six)) in
    rw (encoded, same) size
