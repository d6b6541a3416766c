-- ===== src/Agwpe/Frame/RoundTrip.antt =====
-- `decode` after `encode`.
use packet_browser.Agwpe.Frame.{
  encode, decode, callsign_field, extract_callsign, finish, max_frame_data_size, header_size,
}
use packet_browser.Agwpe.Types.{FrameType, to_byte, try_from, AgwpeFrame}
use packet_browser.Prelude.{
  ℕ, zero, suc, ◌+◌, ◌-◌, ◌^◌, ◌≤◌, ◌<◌, Bytes, true, [], ◌∷◌, ◌++◌, append_assoc, ok, ◌≡◌, refl,
  sym, ap, ◌∙◌, arith, ◌==◌, length, take, drop, get_or, replicate, Lacks, All-imp, length-append,
  length-replicate, take-append_length, drop-append_add, drop-drop, le→ltb,
}
use packet_browser.Text.Search.{position-append_none}
use packet_browser.Text.Utf8.{from_utf8-some, is_utf8}
use packet_browser.Text.Words.{to_le_bytes, le_at, le_at-to_le_bytes}

-- A callsign that fits its field.
pub record IsCallsign (call : Bytes) : Type 0 where
  pub short : length call ≤ 9
  pub no_zero : Lacks 0 call
  pub text : is_utf8 call ≡ true

-- A frame that the wire form can carry.
pub record IsWireFrame (f : AgwpeFrame) : Type 0 where
  pub from_ok : IsCallsign f.call_from
  pub to_ok : IsCallsign f.call_to
  pub no_pid : f.pid ≡ 0
  pub exact : f.data_len ≡ length f.payload
  pub fits : f.data_len ≤ max_frame_data_size
  pub user_data_fits : f.user_data < 2 ^ 32

take_all : (n : ℕ) (s : Bytes) → length s ≤ n → take n s ≡ s
take_all zero [] h = refl
take_all zero (c ∷ s) h = absurd (omega arith)
take_all (suc n) [] h = refl
take_all (suc n) (c ∷ s) h = ap (◌∷◌ c) (take_all n s (omega arith))

try_from-to_byte : (t : FrameType) → try_from (to_byte t) ≡ ok t
unfolding try_from to_byte
try_from-to_byte FrameType.register_callsign = refl
try_from-to_byte _ = refl

pub length-callsign_field : (call : Bytes) → IsCallsign call → length (callsign_field call) ≡ 10
unfolding callsign_field
length-callsign_field call c = rw (take_all 9 call c.short) (
    omega (
      arith,
      length-append call (replicate (10 - length call) 0),
      length-replicate {A = ℕ} (10 - length call) 0,
      c.short,
    ))

extract_callsign_field :
    (call : Bytes) → IsCallsign call → extract_callsign (callsign_field call) ≡ ok call
unfolding extract_callsign callsign_field
extract_callsign_field call c =
    let pad : 10 - length call ≡ suc (9 - length call) = omega (arith, c.short) in
    let field : take 9 call ++ replicate (10 - length (take 9 call)) 0
        ≡ call ++ 0 ∷ replicate (9 - length call) 0 =
      ap (λ s. s ++ replicate (10 - length s) 0) (take_all 9 call c.short)
      ∙ ap (λ k. call ++ replicate k 0) pad in
    rw field (
      rw
        (position-append_none (λ b. b == 0) call 0 (replicate (9 - length call) 0)
          (All-imp call (λ b h. ground arith) c.no_zero) refl)
        (rw (take-append_length call (0 ∷ replicate (9 - length call) 0) (length call) refl)
          (rw (from_utf8-some call c.text) refl)))

-- Where the parts of an encoded frame stand.
module _ (f : AgwpeFrame) (c : IsCallsign f.call_from) (d : IsCallsign f.call_to) where
  abbrev from : Bytes
  from = callsign_field f.call_from

  abbrev to : Bytes
  to = callsign_field f.call_to

  abbrev words : Bytes
  words = to_le_bytes f.data_len ++ (to_le_bytes f.user_data ++ f.payload)

  slice_from : take 10 (drop 8 (encode f)) ≡ from
  unfolding encode
  slice_from = take-append_length from (to ++ words) 10 (sym (length-callsign_field f.call_from c))

  behind_from : (k : ℕ) → drop (18 + k) (encode f) ≡ drop k (to ++ words)
  unfolding encode
  behind_from k =
      drop-drop 8 (10 + k) (18 + k) (encode f) (omega arith)
      ∙ drop-append_add k (10 + k) from (to ++ words)
          (omega (arith, length-callsign_field f.call_from c))

  slice_to : take 10 (drop 18 (encode f)) ≡ to
  slice_to =
      ap (take 10) (behind_from 0)
      ∙ take-append_length to words 10 (sym (length-callsign_field f.call_to d))

  pub behind_to : (k n : ℕ) → n ≡ 28 + k → drop n (encode f) ≡ drop k words
  behind_to k n e =
      ap (λ m. drop m (encode f)) (let e' : n ≡ 18 + (10 + k) = omega arith in e')
      ∙ behind_from (10 + k)
      ∙ drop-append_add k (10 + k) to words (omega (arith, length-callsign_field f.call_to d))

  length-encode_lem : length (encode f) ≡ header_size + length f.payload
  unfolding encode
  length-encode_lem = omega (
    arith,
    length-append from (to ++ words),
    length-append to words,
    length-callsign_field f.call_from c,
    length-callsign_field f.call_to d,
  )

pub length-encode : (f : AgwpeFrame) → IsWireFrame f → length (encode f) ≡ header_size + f.data_len
length-encode f w = omega (arith, length-encode_lem f w.from_ok w.to_ok, w.exact)

-- Bytes behind a frame read like more of its payload.
pub encode-append :
    (f : AgwpeFrame) (rest : Bytes)
    → encode f ++ rest ≡ encode (record f { payload = f.payload ++ rest })
unfolding encode
encode-append f rest =
    let words = to_le_bytes f.data_len ++ (to_le_bytes f.user_data ++ f.payload) in
    ap (λ s. f.port ∷ 0 ∷ 0 ∷ 0 ∷ to_byte f.frame_type ∷ 0 ∷ 0 ∷ 0 ∷ s)
      (append_assoc (callsign_field f.call_from) (callsign_field f.call_to ++ words) rest
        ∙ ap (◌++◌ (callsign_field f.call_from))
            (append_assoc (callsign_field f.call_to) words rest))

decode_lem :
    (f : AgwpeFrame) (body : Bytes)
    → IsWireFrame f
    → f.data_len ≤ length body
    → decode (encode (record f { payload = body }))
      ≡ ok (record f { payload = take f.data_len body })
unfolding decode finish
decode_lem f body w enough =
    let g = record f { payload = body } in
    let size = length-encode_lem g w.from_ok w.to_ok in
    let announced : le_at (drop 28 (encode g)) 0 ≡ f.data_len =
      ap (λ s. le_at s 0) (behind_to g w.from_ok w.to_ok 0 28 refl)
      ∙ le_at-to_le_bytes f.data_len (to_le_bytes f.user_data ++ body) (omega (arith, w.fits)) in
    let user : le_at (drop 32 (encode g)) 0 ≡ f.user_data =
      ap (λ s. le_at s 0) (behind_to g w.from_ok w.to_ok 4 32 refl)
      ∙ le_at-to_le_bytes f.user_data body w.user_data_fits in
    rw (le→ltb (length (encode g)) header_size (omega arith)) (
      rw (kind g) (
        rw (slice_from g w.from_ok w.to_ok, extract_callsign_field f.call_from w.from_ok)
          (rw (slice_to g w.from_ok w.to_ok, extract_callsign_field f.call_to w.to_ok)
            (rw (announced, user)
              (rw
                (
                  le→ltb max_frame_data_size f.data_len w.fits,
                  le→ltb (length (encode g)) (header_size + f.data_len) (omega arith),
                )
                (λ i. ok (record f {
                  port = port_of g i;
                  pid = sym w.no_pid i;
                  payload = take f.data_len (behind_to g w.from_ok w.to_ok 8 36 refl i);
                })))))))
  where
    kind : (g : AgwpeFrame) → try_from (get_or (encode g) 4 0) ≡ ok g.frame_type
    kind g = unfold encode in try_from-to_byte g.frame_type

    port_of : (g : AgwpeFrame) → get_or (encode g) 0 0 ≡ g.port
    port_of g = unfold encode in refl

-- A frame is decoded to itself, whatever bytes follow it in the buffer.
pub decode-encode_frame :
    (f : AgwpeFrame) (rest : Bytes) → IsWireFrame f → decode (encode f ++ rest) ≡ ok f
decode-encode_frame f rest w =
    ap decode (encode-append f rest)
    ∙ decode_lem f (f.payload ++ rest) w (omega (arith, length-append f.payload rest, w.exact))
    ∙ ap (λ s. ok (record f { payload = s })) (take-append_length f.payload rest f.data_len w.exact)
