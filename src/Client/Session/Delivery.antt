-- ===== src/Client/Session/Delivery.antt =====
-- `handle_send_request` and the response of the server: however the link cuts it, it arrives.
use packet_browser.Agwpe.Frame.{is_session_dead_payload}
use packet_browser.Client.Session.Requests.{Expected, is_complete, by_header, framing}
use packet_browser.Client.Session.{Texts, Drive, push_log, max_response_size}
use packet_browser.Prelude.{
  ◌+◌, ◌*◌, ◌≤◌, Bytes, Bool, true, false, not, ◌&&◌, ◌||◌, [], ◌∷◌, ◌++◌, Option, none, some, ok,
  ◌≡◌, ◌≢◌, refl, sym, ap, ◌∙◌, inl, inr, Bool-cases, length, length-append, arith, ltb, leb,
  ltb→lt, le→leb, lt→ltb, leb→le, drop-append_length, IsBytes, take, drop, take-append-drop,
  take-append_le, drop-append_le, length-drop,
}
use packet_browser.Protocol.Base64.{Base64}
use packet_browser.Protocol.Response.RoundTrip.{
  IsHeader, header_of, decode_header-encode_lem, payload-slice,
}
use packet_browser.Protocol.Response.Stream.{decode_header-append, decode_header_cut}
use packet_browser.Protocol.Response.{encode, magic, header_line, decode_header, decode_payload}
use packet_browser.Protocol.Types.{Response}
use packet_browser.Text.Contains.{contains-append_false, contains-append_text}
use packet_browser.Text.Search.{
  contains, starts_with, starts_with-append, starts_with_local, NoStart,
}

||_split : (a b : Bool) → (a || b) ≡ false → (a ≡ false) × (b ≡ false)
||_split true b h = cc
||_split false b h = (refl, h)

&&_false : (a : Bool) → (a && false) ≡ false
&&_false true = refl
&&_false false = refl

pub dead-append :
    (s t : Bytes) → is_session_dead_payload (s ++ t) ≡ false → is_session_dead_payload s ≡ false
unfolding is_session_dead_payload
dead-append s t h =
    let (a, b) = ||_split _ _ h in
    rw (contains-append_false s t _ a, contains-append_false s t _ b) refl

-- A response, behind what the node printed, that the client can take.
pub record IsDeliverable (base64 : Base64) (r : Response) (before : Bytes) : Type 0 where
  pub header : IsHeader (header_of base64 r before)
  pub payload : IsBytes r.payload
  pub clean : NoStart magic before magic
  pub alive : is_session_dead_payload (before ++ encode base64 r) ≡ false
  pub fits : length (before ++ encode base64 r) ≤ max_response_size
  pub early : length before + 4 ≤ 32 * 1024

module _ (base64 : Base64) (r : Response) (before : Bytes) where
  abbrev pub whole : Bytes
  whole = before ++ encode base64 r

  abbrev expected_of : Expected
  expected_of = record {
    len = (header_of base64 r before).payload_len;
    frame_start = (header_of base64 r before).header_end;
  }

  length-whole :
      length whole
      ≡ (header_of base64 r before).header_end + (header_of base64 r before).payload_len + 1
  unfolding encode
  length-whole =
      let encoded = base64.encode r.payload in
      let line = header_line (length encoded) r.etag r.max_age in
      omega (
        arith,
        length-append before (encode base64 r),
        length-append line (b'\n' ∷ (encoded ++ b'\n' ∷ [])),
        length-append encoded (b'\n' ∷ []),
      )

  -- What the loop knows of the bytes it has.
  abbrev pub Knows : Bytes → Option Expected → Type 0
  Knows got none = decode_header got ≡ ok none
  Knows got (some e) =
      (decode_header got ≡ ok (some (header_of base64 r before))) × (e ≡ expected_of)

  -- The bytes that a request returns: the response's own, its payload among them.
  pub record IsResponse (bytes : Bytes) : Type 0 where
    pub header_is : decode_header bytes ≡ ok (some (header_of base64 r before))
    pub covers :
        (header_of base64 r before).header_end + (header_of base64 r before).payload_len
        ≤ length bytes
    pub payload_is :
        decode_payload base64 (
          take
            (header_of base64 r before).payload_len
            (drop (header_of base64 r before).header_end bytes))
        ≡ ok r.payload

  module _ (v : IsDeliverable base64 r before) where
    has_magic :
        (got more : Bytes)
        → got ++ more ≡ whole
        → length before + 4 ≤ length got
        → contains got magic ≡ true
    unfolding encode
    has_magic got more e long =
        let n = length before in
        let tail = drop n got in
        let tail_is : tail ++ more ≡ encode base64 r =
          sym (drop-append_le n got more (omega arith))
          ∙ ap (drop n) e
          ∙ drop-append_length before (encode base64 r) n refl in
        let size = length-drop n got in
        let starts : starts_with tail magic ≡ true =
          sym (starts_with_local tail more magic (omega (arith, size)))
          ∙ ap (λ x. starts_with x magic) tail_is
          ∙ starts_with-append magic (drop 4 (encode base64 r)) in
        ap (λ x. contains x magic) (sym (take-append-drop n got))
        ∙ contains-append_text (take n got) tail magic (omega (arith, size)) starts

    not_garbage :
        (got more : Bytes)
        → got ++ more ≡ whole
        → (not (contains got magic) && ltb (32 * 1024) (length got)) ≡ false
    not_garbage got more e = elim (Bool-cases (ltb (32 * 1024) (length got))) [
      | inl long ↦ rw (has_magic got more e (omega (arith, ltb→lt _ _ long, v.early))) refl
      | inr short ↦ rw short (&&_false (not (contains got magic)))
    ]

    pub complete-IsResponse :
        (got more : Bytes) (expected : Option Expected)
        → got ++ more ≡ whole
        → Knows got expected
        → is_complete got expected ≡ true
        → IsResponse got
    unfolding decode_payload
    complete-IsResponse got more none e k h = cc
    complete-IsResponse got more (some x) e k h =
        let hd = header_of base64 r before in
        let enough : hd.header_end + hd.payload_len ≤ length got =
          leb→le _ _ (ap (λ y. leb (y.frame_start + y.len) (length got)) (sym k.1) ∙ h) in
        let slice : take hd.payload_len (drop hd.header_end got) ≡ base64.encode r.payload =
          sym (
            take-append_le hd.payload_len (drop hd.header_end got) more
              (omega (arith, length-drop hd.header_end got)))
          ∙ ap (take hd.payload_len) (
              sym (drop-append_le hd.header_end got more (omega arith)) ∙ ap (drop hd.header_end) e)
          ∙ payload-slice base64 r before in
        record {
          header_is = k.0;
          covers = enough;
          payload_is = rw slice (rw (base64.decode_encoded r.payload v.payload) refl);
        }

    -- The end of the deliveries is not reached with the response open.
    pub whole_complete :
        (expected : Option Expected) → Knows whole expected → is_complete whole expected ≢ false
    whole_complete none k h =
        let d = decode_header-encode_lem base64 r before v.header v.clean in absurd (cc)
    whole_complete (some x) k h =
        let c = ap (λ y. leb (y.frame_start + y.len) (length whole)) (sym k.1) ∙ h in
        let full =
          le→leb (expected_of.frame_start + expected_of.len) (length whole)
            (omega (arith, length-whole)) in
        absurd (cc)

    by_header-Knows :
        (texts : Texts) (got more : Bytes) (d : Drive)
        → got ++ more ≡ whole
        → (expected : Option Expected) × (d' : Drive) × (by_header texts got (decode_header got) d
            ≡ (ok expected, d'))
          × Knows got expected
          × (d'.setting ≡ d.setting)
    unfolding by_header push_log
    by_header-Knows texts got more d e =
        elim (decode_header_cut base64 r before got more v.header v.clean e) [
          | inl n ↦ rw n (rw (not_garbage got more e) (none, d, refl, n, refl))
          | inr h ↦ rw h (
              rw (lt→ltb 0 (header_of base64 r before).header_end (omega arith))
                (some expected_of, _, refl, (h, refl), refl))
        ]

    pub framing-Knows :
        (texts : Texts) (got bytes more : Bytes) (expected : Option Expected) (d : Drive)
        → (got ++ bytes) ++ more ≡ whole
        → Knows got expected
        → (expected' : Option Expected) × (d' : Drive) × (framing texts (got ++ bytes) expected d
            ≡ (ok expected', d'))
          × Knows (got ++ bytes) expected'
          × (d'.setting ≡ d.setting)
    unfolding framing
    framing-Knows texts got bytes more none d e k = by_header-Knows texts (got ++ bytes) more d e
    framing-Knows texts got bytes more (some x) d e k =
        (some x, d, refl, (decode_header-append got bytes (rw k.0 tt) ∙ k.0, k.1), refl)
