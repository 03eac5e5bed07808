-- ===== src/Crates.antt =====
-- Third-party code that the explorer calls (hex, base64, sha2, chrono, serde_json): the
-- operations, as parameters of the model, and their documented laws.
use wcashexplorer.Base.{ℕ, ◌≡◌, ◌*◌, true, Option, some, List, length, all, All}
use wcashexplorer.Base.Int.{ℤ}
use wcashexplorer.Base.Bytes.{IsByte}
use wcashexplorer.Base.Text.{Text, is_ascii_hexdigit}
use wcashexplorer.Models.{DateTime, RpcTransaction, Value}

pub record Crates : Type 0 where
  -- `hex::encode` and `hex::decode`.
  pub hex_encode : List ℕ → Text
  pub hex_decode : Text → Option (List ℕ)
  -- base64's `URL_SAFE_NO_PAD`.
  pub base64_encode : List ℕ → Text
  pub base64_decode : Text → Option (List ℕ)
  -- `Sha256` over all that was fed to it.
  pub sha256 : List ℕ → List ℕ
  -- `DateTime::<Utc>::from_timestamp(seconds, 0)`.
  pub from_timestamp : ℤ → Option DateTime
  -- `serde_json::to_value` of a transaction, and `Value::to_string`.
  pub to_value : RpcTransaction → Option Value
  pub value_to_string : Value → Text

-- Encoders give back what was encoded, and `hex` writes two lower-case digits for a byte.
pub record IsLawful (c : Crates) : Type 0 where
  pub hex_decode-hex_encode : (b : List ℕ) → All IsByte b → c.hex_decode (c.hex_encode b) ≡ some b
  pub length-hex_encode : (b : List ℕ) → length (c.hex_encode b) ≡ 2 * length b
  pub all-is_ascii_hexdigit-hex_encode :
      (b : List ℕ) → all is_ascii_hexdigit (c.hex_encode b) ≡ true
  pub base64_decode-base64_encode :
      (b : List ℕ) → All IsByte b → c.base64_decode (c.base64_encode b) ≡ some b
