-- ===== src/Protocol/Response.antt =====
-- `Response::encode`, `Response::decode_header` and `Response::decode_payload`.
pub mod Tokens
pub mod RoundTrip
pub mod Stream
pub mod Wire
use packet_browser.Prelude.Int.{ℤ}
use packet_browser.Prelude.{
  ℕ, ◌+◌, Bytes, Bool, true, false, ◌&&◌, ◌||◌, List, [], ◌∷◌, ◌++◌, Option, none, some, Result, ok,
  err, ◌>>=◌, ok_or, ◌==◌, if◌then◌else◌, length, take, drop, codes,
}
use packet_browser.Protocol.Base64.{Base64}
use packet_browser.Protocol.Types.{ProtocolError, invalid_response, Status, Response}
use packet_browser.Text.Ascii.{is_alphanumeric}
use packet_browser.Text.Decimal.{
  to_string, to_string_ℤ, parse_unsigned, parse_signed, max_u32, max_i32,
}
use packet_browser.Text.Search.{equal, find, position}
use packet_browser.Text.Split.{split}
use packet_browser.Text.Utf8.{from_utf8}

abbrev pub magic : Bytes
magic = codes "RESP"

abbrev pub space : ℕ
space = b' '

unfoldable pub to_digit : Status → ℕ
to_digit Status.ok = b'0'
to_digit Status.err = b'1'
to_digit Status.blocked = b'2'
to_digit Status.not_modified = b'3'

unfoldable pub of_digit : ℕ → Result ProtocolError Status
of_digit c =
    if c == b'0'
    then ok Status.ok
    else if c == b'1'
    then ok Status.err
    else if c == b'2'
    then ok Status.blocked
    else if c == b'3'
    then ok Status.not_modified
    else err invalid_response

-- What stands between the status and the payload.
abbrev pub header_line : ℕ → Bytes → ℤ → Bytes
header_line len etag max_age = to_string len ++ space ∷ (etag ++ space ∷ to_string_ℤ max_age)

unfoldable pub encode : Base64 → Response → Bytes
encode base64 r =
    let encoded = base64.encode r.payload in
    magic
    ++ to_digit r.status
      ∷ space
      ∷ (header_line (length encoded) r.etag r.max_age ++ b'\n' ∷ (encoded ++ b'\n' ∷ []))

-- The tuple that `decode_header` returns.
pub record Header : Type 0 where
  pub status : Status
  pub payload_len : ℕ
  pub etag : Bytes
  pub max_age : ℤ
  pub header_end : ℕ

abbrev pub is_etag_byte : ℕ → Bool
is_etag_byte c = is_alphanumeric c || c == b'-' || c == b'_'

abbrev pub all_etag : Bytes → Bool
all_etag [] = true
all_etag (c ∷ s) = is_etag_byte c && all_etag s

unfoldable pub valid_etag : Bytes → Bool
valid_etag etag = equal etag (codes "-") || (length etag == 16 && all_etag etag)

-- The parts of the header line: exactly three, and each failure is the same error.
unfoldable pub parse_parts : Status → ℕ → List Bytes → Result ProtocolError (Option Header)
parse_parts status header_end (len_str ∷ etag ∷ max_age_str ∷ []) =
    if valid_etag etag
    then (do
      payload_len ← ok_or (parse_unsigned max_u32 len_str) invalid_response
      max_age ← ok_or (parse_signed max_i32 max_age_str) invalid_response
      ok (
          some (record {
            status = status;
            payload_len = payload_len;
            etag = etag;
            max_age = max_age;
            header_end = header_end;
          })))
    else err invalid_response
parse_parts status header_end _ = err invalid_response

abbrev pub is_line_end : ℕ → Bool
is_line_end b = b == b'\n' || b == b'\r'

-- Up to the line end, or `ok none` while there is none.
unfoldable pub read_fields : Status → ℕ → Bytes → Option ℕ → Result ProtocolError (Option Header)
read_fields status start fields none = ok none
read_fields status start fields (some offset) = do
  line ← ok_or (from_utf8 (take offset fields)) invalid_response
  parse_parts status (start + offset + 1) (split space line)

-- The bytes from `after` on, behind the magic.
unfoldable pub decode_frame : ℕ → Bytes → Result ProtocolError (Option Header)
unfolding read_fields
decode_frame after [] = ok none
decode_frame after (digit ∷ []) = ok none
decode_frame after (digit ∷ sep ∷ fields) = do
  status ← of_digit digit
  if sep == space
      then read_fields status (after + 2) fields (position is_line_end fields)
      else err invalid_response

unfoldable pub decode_at : Bytes → Option ℕ → Result ProtocolError (Option Header)
unfolding decode_frame
decode_at input none = ok none
decode_at input (some magic_pos) =
    decode_frame (magic_pos + length magic) (drop (magic_pos + length magic) input)

unfoldable pub decode_header : Bytes → Result ProtocolError (Option Header)
unfolding decode_at
decode_header input = decode_at input (find input magic)

unfoldable pub decode_payload : Base64 → Bytes → Result ProtocolError Bytes
decode_payload base64 bytes = ok_or (base64.decode bytes) invalid_response
