-- ===== src/Protocol/Types.antt =====
-- The data of shared/src/protocol.rs. A `String` is its UTF-8 bytes, a `Vec<u8>` a list of bytes.
use packet_browser.Prelude.Int.{ℤ}
use packet_browser.Prelude.{ℕ, Bytes, Option, Result, ◌==◌, if◌then◌else◌}

-- No code of the crate returns `url_too_long` or `payload_too_large`.
pub data ProtocolError : Type 0 where
  invalid_request invalid_response url_too_long payload_too_large : ProtocolError

pub data Request : Type 0 where
  get : Bytes → Option Bytes → Request
  post : Bytes → Bytes → Request

pub data Status : Type 0 where
  ok err blocked not_modified : Status

-- `status as u8`
unfoldable pub to_byte : Status → ℕ
to_byte Status.ok = 0
to_byte Status.err = 1
to_byte Status.blocked = 2
to_byte Status.not_modified = 3

-- `TryFrom<u8> for Status`
unfoldable pub try_from : ℕ → Result ProtocolError Status
try_from value =
    if value == 0
    then Result.ok Status.ok
    else if value == 1
    then Result.ok Status.err
    else if value == 2
    then Result.ok Status.blocked
    else if value == 3
    then Result.ok Status.not_modified
    else Result.err invalid_response

pub record Response : Type 0 where
  pub status : Status
  pub etag : Bytes
  pub max_age : ℤ
  pub payload : Bytes
