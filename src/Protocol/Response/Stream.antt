-- ===== src/Protocol/Response/Stream.antt =====
-- `decode_header` on a stream: the client calls it again whenever more bytes have arrived.
use packet_browser.Prelude.{
  ℕ, ◌+◌, ◌≤◌, Bytes, [], ◌∷◌, ◌++◌, Option, none, some, Result, ok, err, ◌≡◌, refl, sym, ap, ◌∙◌,
  ◌⊎◌, inl, inr, arith, ◌==◌, length, drop, drop-append_le, take-append_le, Bool-cases,
  Option-cases, length-append, Result-cases,
}
use packet_browser.Protocol.Base64.{Base64}
use packet_browser.Protocol.Response.RoundTrip.{IsHeader, header_of, decode_header-encode_lem}
use packet_browser.Protocol.Response.{
  encode, magic, space, of_digit, Header, is_line_end, read_fields, decode_frame, decode_at,
  decode_header,
}
use packet_browser.Protocol.Types.{ProtocolError, Status, Response}
use packet_browser.Text.Search.{
  find, find_sound, NoStart, find-append, position, position_sound, position-append, starts_with_le,
}

-- Two outcomes of a stream agree once the first is final.
abbrev pub IsFinal : Result ProtocolError (Option Header) → Type 0
IsFinal (ok none) = ⊥
IsFinal (ok (some h)) = Unit
IsFinal (err e) = Unit

read_fields-append :
    (status : Status) (start : ℕ) (fields more : Bytes)
    → IsFinal (read_fields status start fields (position is_line_end fields))
    → read_fields status start (fields ++ more) (position is_line_end (fields ++ more))
      ≡ read_fields status start fields (position is_line_end fields)
unfolding read_fields
read_fields-append status start fields more h = elim (Option-cases (position is_line_end fields)) [
  | inl none' ↦ absurd (rw none' at h)
  | inr (i, e) ↦
      let f = position_sound is_line_end fields e in
      rw
        (
          e,
          position-append is_line_end fields more e,
          take-append_le i fields more (
              omega (arith, f.index, ap length f.splits, length-append f.before (f.byte ∷ f.rest))),
        )
        refl
]

decode_frame-append :
    (after : ℕ) (input more : Bytes)
    → IsFinal (decode_frame after input)
    → decode_frame after (input ++ more) ≡ decode_frame after input
unfolding decode_frame
decode_frame-append after [] more h = absurd h
decode_frame-append after (digit ∷ []) more h = absurd h
decode_frame-append after (digit ∷ sep ∷ fields) more h = elim (Result-cases (of_digit digit)) [
  | inl (s, e) ↦ elim (Bool-cases (sep == space)) [
    | inl t ↦ rw (e, t) (read_fields-append s (after + 2) fields more (rw (e, t) at h))
    | inr t ↦ rw (e, t) refl
  ]
  | inr (x, e) ↦ rw e refl
]

-- Once the decoder has answered, with a header or an error, more input does not change the
-- answer: how the response is cut into deliveries does not matter.
pub decode_header-append :
    (input more : Bytes)
    → IsFinal (decode_header input)
    → decode_header (input ++ more) ≡ decode_header input
unfolding decode_header decode_at
decode_header-append input more h = elim (Option-cases (find input magic)) [
  | inl none' ↦ absurd (rw none' at h)
  | inr (i, e) ↦
      let f = find_sound magic input e in
      let fits : i + 4 ≤ length input = omega (
        arith,
        f.index,
        ap length f.splits,
        length-append f.before f.at,
        starts_with_le f.at magic f.hit,
      ) in
      rw (e, find-append magic input more e, drop-append_le (i + 4) input more fits)
        (decode_frame-append (i + 4) (drop (i + 4) input) more (rw e at h))
]

-- Cut off anywhere, a response behind clean text is either not yet readable or read as what it
-- is: an unfinished delivery is never refused and never read as another header.
pub decode_header_cut :
    (base64 : Base64) (r : Response) (before : Bytes) (cut more : Bytes)
    → IsHeader (header_of base64 r before)
    → NoStart magic before magic
    → cut ++ more ≡ before ++ encode base64 r
    → (decode_header cut ≡ ok none) ⊎ (decode_header cut ≡ ok (some (header_of base64 r before)))
decode_header_cut base64 r before cut more v clean e =
    let whole = ap decode_header e ∙ decode_header-encode_lem base64 r before v clean in
    elim (Result-cases (decode_header cut)) [
      | inl (none, d) ↦ inl d
      | inl (some h, d) ↦ inr (sym (decode_header-append cut more (rw d tt)) ∙ whole)
      | inr (x, d) ↦ inr (sym (decode_header-append cut more (rw d tt)) ∙ whole)
    ]
