-- ===== src/Protocol/Response/RoundTrip.antt =====
-- `decode_header` and `decode_payload` after `encode`, behind whatever the node printed first.
use packet_browser.Prelude.Int.{pos, neg, ◌≤ℤ◌}
use packet_browser.Prelude.{
  ℕ, suc, ◌+◌, ◌≤◌, Bytes, true, [], ◌∷◌, ◌++◌, some, ok, ◌≡◌, refl, sym, ap, ◌∙◌, arith, length,
  take, drop, IsBytes, take-append_length, drop-append_add,
}
use packet_browser.Protocol.Base64.{Base64}
use packet_browser.Protocol.Response.Tokens.{
  IsToken-Lacks-space, IsPrintable-is_utf8, IsPrintable-no_line_end, to_string-IsToken,
  to_string_ℤ-IsToken, valid_etag-IsToken, header_line-IsPrintable,
}
use packet_browser.Protocol.Response.{
  magic, space, to_digit, of_digit, header_line, encode, Header, valid_etag, parse_parts,
  is_line_end, read_fields, decode_frame, decode_header, decode_payload,
}
use packet_browser.Protocol.Types.{Status, Response}
use packet_browser.Text.Decimal.{
  to_string, to_string_ℤ, parse_unsigned-to_string, parse_signed-to_string_ℤ, max_u32, max_i32,
}
use packet_browser.Text.Search.{
  find, position-append_none, NoStart, NoStart-append, find-append_start, starts_with-append,
}
use packet_browser.Text.Split.{split, split_last, split-append}
use packet_browser.Text.Utf8.{from_utf8-some}

of_digit-to_digit : (s : Status) → of_digit (to_digit s) ≡ ok s
unfolding of_digit to_digit
of_digit-to_digit Status.ok = refl
of_digit-to_digit Status.err = refl
of_digit-to_digit Status.blocked = refl
of_digit-to_digit Status.not_modified = refl

-- The values that a header can carry.
pub record IsHeader (h : Header) : Type 0 where
  pub length_fits : h.payload_len ≤ max_u32
  pub etag_valid : valid_etag h.etag ≡ true
  pub max_age_least : neg (suc max_i32) ≤ℤ h.max_age
  pub max_age_greatest : h.max_age ≤ℤ pos max_i32

abbrev pub line_of : Header → Bytes
line_of h = header_line h.payload_len h.etag h.max_age

split-line_of :
    (h : Header)
    → IsHeader h
    → split space (line_of h) ≡ to_string h.payload_len ∷ h.etag ∷ to_string_ℤ h.max_age ∷ []
split-line_of h v =
    split-append space (to_string h.payload_len) (h.etag ++ space ∷ to_string_ℤ h.max_age)
      (IsToken-Lacks-space _ (to_string-IsToken h.payload_len))
    ∙ ap (λ ps. to_string h.payload_len ∷ ps)
        (split-append space h.etag (to_string_ℤ h.max_age)
          (IsToken-Lacks-space h.etag (valid_etag-IsToken h.etag v.etag_valid)))
    ∙ ap (λ ps. to_string h.payload_len ∷ h.etag ∷ ps)
        (split_last space (to_string_ℤ h.max_age)
          (IsToken-Lacks-space _ (to_string_ℤ-IsToken h.max_age)))

parse_line_of :
    (h : Header)
    → IsHeader h
    → parse_parts h.status h.header_end (split space (line_of h)) ≡ ok (some h)
unfolding parse_parts
parse_line_of h v =
    rw (split-line_of h v, v.etag_valid)
      (rw (parse_unsigned-to_string max_u32 h.payload_len v.length_fits)
        (rw (parse_signed-to_string_ℤ max_i32 h.max_age v.max_age_least v.max_age_greatest) refl))

-- A header whose line is complete is read, whatever follows it.
pub decode_frame_lem :
    (h : Header) (after : ℕ) (tail : Bytes)
    → IsHeader h
    → h.header_end ≡ after + 2 + length (line_of h) + 1
    → decode_frame after (to_digit h.status ∷ space ∷ (line_of h ++ b'\n' ∷ tail)) ≡ ok (some h)
unfolding decode_frame read_fields
decode_frame_lem h after tail v e =
    let line = line_of h in
    let printable =
      header_line-IsPrintable h.payload_len h.etag h.max_age
        (valid_etag-IsToken h.etag v.etag_valid) in
    rw (of_digit-to_digit h.status) (
      rw
        (position-append_none is_line_end line b'\n' tail (IsPrintable-no_line_end line printable)
          refl)
        (rw (take-append_length line (b'\n' ∷ tail) (length line) refl) (
          rw (from_utf8-some line (IsPrintable-is_utf8 line printable))
            (ap (λ k. parse_parts h.status k (split space line)) (sym e) ∙ parse_line_of h v))))

-- The header of an encoded response behind `before`.
abbrev pub header_of : Base64 → Response → Bytes → Header
header_of base64 r before = record {
  status = r.status;
  payload_len = length (base64.encode r.payload);
  etag = r.etag;
  max_age = r.max_age;
  header_end =
      length before
      + 4
      + 2
      + length (header_line (length (base64.encode r.payload)) r.etag r.max_age)
      + 1;
}

module _ (base64 : Base64) (r : Response) (before : Bytes) where
  frame-find :
      NoStart magic before magic → find (before ++ encode base64 r) magic ≡ some (length before)
  unfolding encode
  frame-find clean =
      find-append_start magic before (encode base64 r) b'R' (drop 1 (encode base64 r))
        (NoStart-append magic before magic (drop 4 (encode base64 r)) (omega arith) clean) refl
        (starts_with-append magic (drop 4 (encode base64 r)))

  pub decode_header-encode_lem :
      IsHeader (header_of base64 r before)
      → NoStart magic before magic
      → decode_header (before ++ encode base64 r) ≡ ok (some (header_of base64 r before))
  unfolding decode_header encode
  decode_header-encode_lem v clean = rw (frame-find clean) (
      ap (decode_frame (length before + 4))
        (drop-append_add 4 (length before + 4) before (encode base64 r) refl)
      ∙ decode_frame_lem (header_of base64 r before) (length before + 4)
          (base64.encode r.payload ++ b'\n' ∷ []) v refl)

  pub payload-slice :
      let h = header_of base64 r before in
      take h.payload_len (drop h.header_end (before ++ encode base64 r)) ≡ base64.encode r.payload
  unfolding encode
  payload-slice =
      let encoded = base64.encode r.payload in
      let line = line_of (header_of base64 r before) in
      let tail = encoded ++ b'\n' ∷ [] in
      let lead = magic ++ to_digit r.status ∷ space ∷ [] in
      let size = header_of base64 r before in
      ap (take (length encoded)) (
        drop-append_add (6 + length line + 1) size.header_end before (encode base64 r) (omega arith)
        ∙ drop-append_add (length line + 1) (6 + length line + 1) lead (line ++ b'\n' ∷ tail)
            (omega arith)
        ∙ drop-append_add 1 (length line + 1) line (b'\n' ∷ tail) refl)
      ∙ take-append_length encoded (b'\n' ∷ []) (length encoded) refl

-- A response behind any text without a frame start is found, and its status, entity tag and age
-- are read back, if the entity tag is one that the decoder accepts, the age fits in an `i32` and the
-- length of the encoded payload in a `u32`; the bytes that the header announces are the payload, and
-- decode to it.
pub decode-encode_response :
    (base64 : Base64) (r : Response) (before : Bytes)
    → IsHeader (header_of base64 r before)
    → IsBytes r.payload
    → NoStart magic before magic
    → let h = header_of base64 r before in
      let input = before ++ encode base64 r in
      (decode_header input ≡ ok (some h))
      × (decode_payload base64 (take h.payload_len (drop h.header_end input)) ≡ ok r.payload)
unfolding decode_payload
decode-encode_response base64 r before v bytes clean = (
  decode_header-encode_lem base64 r before v clean,
  rw (payload-slice base64 r before) (rw (base64.decode_encoded r.payload bytes) refl),
)
