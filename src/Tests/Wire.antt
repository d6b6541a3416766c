-- ===== src/Tests/Wire.antt =====
-- The theorems on shared/src/protocol.rs at concrete inputs.
use packet_browser.Prelude.Int.{negsuc}
use packet_browser.Prelude.{
  ◌+◌, ◌-◌, ◌*◌, ◌/◌, ◌%◌, ◌≡◌, refl, ap, Bytes, true, [], ◌∷◌, ◌++◌, Option, none, some, ok, codes,
  arith, All, IsBytes, take, drop,
}
use packet_browser.Protocol.Base64.{Base64, is_base64}
use packet_browser.Protocol.Request.RoundTrip.{decode-encode}
use packet_browser.Protocol.Request.{encode, decode}
use packet_browser.Protocol.Response.RoundTrip.{header_of, decode-encode_response}
use packet_browser.Protocol.Response.Stream.{decode_header-append}
use packet_browser.Protocol.Response.Wire.{IsTelnetSafe, encode-IsTelnetSafe}
use packet_browser.Protocol.Response.{
  Header, valid_etag, decode_header, decode_payload, decode_at, decode_frame, read_fields,
  parse_parts, magic, of_digit,
}
use packet_browser.Protocol.Response as Response_
use packet_browser.Protocol.Types.{get, Response, Status}
use packet_browser.Text.Search.{starts_with, find, position, equal}
use packet_browser.Text.Utf8.{is_utf8, from_utf8}
use packet_browser.Text.Split.{split}
use packet_browser.Text.Decimal.{parse_unsigned, parse_signed}
use mathlib.Core.Option

-- Two letters for a byte: an instance of the interface.
abbrev pub hex_encode : Bytes → Bytes
hex_encode [] = []
hex_encode (b ∷ s) = (b'A' + b / 16 % 16) ∷ (b'A' + b % 16) ∷ hex_encode s

abbrev pub hex_decode : Bytes → Option Bytes
hex_decode [] = some []
hex_decode (h ∷ []) = none
hex_decode (h ∷ l ∷ s) = Option.map (λ t. ((h - b'A') * 16 + (l - b'A')) ∷ t) (hex_decode s)

pub hex_decode-encode : (s : Bytes) → IsBytes s → hex_decode (hex_encode s) ≡ some s
hex_decode-encode [] h = refl
hex_decode-encode (b ∷ s) h =
    let e : (b'A' + b / 16 % 16 - b'A') * 16 + (b'A' + b % 16 - b'A') ≡ b = omega (arith, h.0) in
    rw (hex_decode-encode s h.1) (ap (λ c. some (c ∷ s)) e)

pub hex_alphabet : (s : Bytes) → All (λ c. is_base64 c ≡ true) (hex_encode s)
hex_alphabet [] = tt
hex_alphabet (b ∷ s) = (ground arith, (ground arith, hex_alphabet s))

abbrev pub hex : Base64
hex = record {
  encode = hex_encode;
  decode = hex_decode;
  decode_encoded = hex_decode-encode;
  alphabet = hex_alphabet;
}

abbrev page_url : Bytes
page_url = codes "http://h"

decode-encode_example :
    decode (encode (get page_url (some (codes "e-1")))) ≡ ok (get page_url (some (codes "e-1")))
unfolding is_utf8 starts_with
decode-encode_example = decode-encode (get page_url (some (codes "e-1"))) (
  omega arith,
  omega arith,
  refl,
  refl,
  (refl, (refl, (refl, (refl, (refl, (refl, (refl, (refl, tt)))))))),
)

abbrev post_input : Bytes
post_input = codes "POST u" ++ b'\n' ∷ 0 ∷ 0 ∷ 0 ∷ 2 ∷ 7 ∷ 8 ∷ 9 ∷ []

abbrev pub answer : Response
answer = record {
  status = Status.ok;
  etag = codes "abcdefgh_-012345";
  max_age = negsuc 0;
  payload = 0 ∷ 255 ∷ 13 ∷ [];
}

abbrev pub node_text : Bytes
node_text = codes "ok" ++ 13 ∷ 10 ∷ []

abbrev answer_header : Header
answer_header = header_of hex answer node_text

decode-encode_response_example :
    (decode_header (node_text ++ Response_.encode hex answer) ≡ ok (some answer_header))
    × (decode_payload hex (
          take answer_header.payload_len
            (drop answer_header.header_end (node_text ++ Response_.encode hex answer)))
        ≡ ok answer.payload)
unfolding valid_etag equal starts_with
decode-encode_response_example =
    decode-encode_response hex answer node_text
      (record {
        length_fits = omega arith;
        etag_valid = refl;
        max_age_least = omega arith;
        max_age_greatest = omega arith;
      })
      (omega arith) (refl, (refl, (refl, (refl, tt))))

encode-IsTelnetSafe_example : All IsTelnetSafe (Response_.encode hex answer)
unfolding valid_etag equal
encode-IsTelnetSafe_example = encode-IsTelnetSafe hex answer refl

abbrev short_answer : Bytes
short_answer = magic ++ codes "0 4 - 60" ++ b'\n' ∷ codes "AA"

decode_header-append_example :
    decode_header (short_answer ++ codes "==") ≡ decode_header short_answer
unfolding decode_header decode_at decode_frame read_fields parse_parts find starts_with position
    of_digit from_utf8 is_utf8 split valid_etag equal parse_unsigned parse_signed
decode_header-append_example = decode_header-append short_answer (codes "==") tt
