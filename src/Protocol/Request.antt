-- ===== src/Protocol/Request.antt =====
-- `Request::encode` and `Request::decode`.
pub mod RoundTrip
pub mod Sound
use packet_browser.Prelude.{
  ℕ, ◌+◌, Bytes, Bool, true, false, List, [], ◌∷◌, ◌++◌, Option, none, some, Result, ok, err, ◌>>=◌,
  ok_or, ltb, ◌==◌, if◌then◌else◌, length, take, drop, codes,
}
use packet_browser.Protocol.Types.{ProtocolError, invalid_request, Request, get, post}
use packet_browser.Text.Search.{starts_with, position}
use packet_browser.Text.Split.{split_once}
use packet_browser.Text.Utf8.{from_utf8}
use packet_browser.Text.Words.{u32, to_be_bytes, be_at}

abbrev pub marker : Bytes
marker = codes " IF-NONE-MATCH "

abbrev pub newline : ℕ
newline = b'\n'

unfoldable pub encode : Request → Bytes
encode (get url none) = codes "GET " ++ (url ++ newline ∷ [])
encode (get url (some etag)) = codes "GET " ++ (url ++ (marker ++ (etag ++ newline ∷ [])))
encode (post url body) =
    codes "POST " ++ (url ++ newline ∷ (to_be_bytes (u32 (length body)) ++ body))

-- The text of the line behind `start` bytes, and where its newline stands.
unfoldable pub read_line : Bytes → ℕ → Result ProtocolError (Bytes × ℕ)
read_line input start = do
  line_end ← ok_or (position (λ b. b == newline) (drop start input)) invalid_request
  line ← ok_or (from_utf8 (take line_end (drop start input))) invalid_request
  ok (line, line_end)

-- `if let Some((url, etag)) = line.split_once(" IF-NONE-MATCH ")`
unfoldable pub split_get : Bytes → Option (Bytes × Bytes) → Request
split_get line none = get line none
split_get line (some (url, etag)) = get url (some etag)

-- The body behind the request line: a length in four bytes, then that many bytes.
unfoldable pub decode_body : Bytes → Bytes → ℕ → Result ProtocolError Request
decode_body input url body_start =
    if ltb (length input) (body_start + 4)
    then err invalid_request
    else (let body_len = be_at (drop body_start input) 0 in
        if ltb (length input) (body_start + 4 + body_len)
        then err invalid_request
        else ok (post url (take body_len (drop (body_start + 4) input))))

unfoldable pub decode : Bytes → Result ProtocolError Request
unfolding read_line split_get decode_body
decode [] = err invalid_request
decode (b ∷ bs) =
    let input = b ∷ bs in
    if starts_with input (codes "GET ")
    then (do (line, _) ← read_line input 4; ok (split_get line (split_once line marker)))
    else if starts_with input (codes "POST ")
    then (do (url, url_end) ← read_line input 5; decode_body input url (5 + url_end + 1))
    else err invalid_request
