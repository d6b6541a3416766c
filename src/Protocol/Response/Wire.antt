-- ===== src/Protocol/Response/Wire.antt =====
-- Which bytes an encoded response puts on the air.
use packet_browser.Prelude.{
  ℕ, ◌≤◌, Bytes, true, [], ◌∷◌, ◌++◌, ◌≡◌, ◌⊎◌, inr, arith, length, All, All-imp, All-append,
}
use packet_browser.Protocol.Base64.{Base64, is_base64}
use packet_browser.Protocol.Response.Tokens.{
  IsPrintable, header_line-IsPrintable, valid_etag-IsToken,
}
use packet_browser.Protocol.Response.{magic, space, to_digit, header_line, encode, valid_etag}
use packet_browser.Protocol.Types.{Status, Response}

-- A line feed or a printable ASCII character: what the node's telnet driver leaves alone.
abbrev pub IsTelnetSafe : ℕ → Type 0
IsTelnetSafe c = (c ≡ b'\n') ⊎ ((32 ≤ c) × (c ≤ 126))

IsPrintable-IsTelnetSafe : (s : Bytes) → IsPrintable s → All IsTelnetSafe s
IsPrintable-IsTelnetSafe s = All-imp s (λ c h. inr h)

to_digit-IsTelnetSafe : (s : Status) → IsTelnetSafe (to_digit s)
unfolding to_digit
to_digit-IsTelnetSafe Status.ok = omega arith
to_digit-IsTelnetSafe Status.err = omega arith
to_digit-IsTelnetSafe Status.blocked = omega arith
to_digit-IsTelnetSafe Status.not_modified = omega arith

is_base64-IsTelnetSafe : (c : ℕ) → is_base64 c ≡ true → IsTelnetSafe c
is_base64-IsTelnetSafe c h = inr (ground arith)

-- Every byte of an encoded response survives the telnet driver, whatever the payload holds: no
-- NUL, no carriage return, no 0xff. The entity tag must be one that the decoder accepts.
pub encode-IsTelnetSafe :
    (base64 : Base64) (r : Response) → valid_etag r.etag ≡ true → All IsTelnetSafe (encode base64 r)
unfolding encode
encode-IsTelnetSafe base64 r h =
    let encoded = base64.encode r.payload in
    let safe = All-imp encoded is_base64-IsTelnetSafe (base64.alphabet r.payload) in
    let line = header_line (length encoded) r.etag r.max_age in
    let printable =
      header_line-IsPrintable (length encoded) r.etag r.max_age (valid_etag-IsToken r.etag h) in
    All-append IsTelnetSafe (magic ++ to_digit r.status ∷ space ∷ [])
      (line ++ b'\n' ∷ (encoded ++ b'\n' ∷ []))
      (
        omega arith,
        (
          omega arith,
          (omega arith, (omega arith, (to_digit-IsTelnetSafe r.status, (omega arith, tt)))),
        ),
      )
      (All-append IsTelnetSafe line (b'\n' ∷ (encoded ++ b'\n' ∷ []))
        (IsPrintable-IsTelnetSafe line printable)
        (omega arith, All-append IsTelnetSafe encoded (b'\n' ∷ []) safe (omega arith, tt)))
