-- ===== src/Agwpe/Stream/Unknown.antt =====
-- A frame of a type that the client does not know, and what comes behind it.
use packet_browser.Agwpe.Frame.RoundTrip.{IsWireFrame, length-encode}
use packet_browser.Agwpe.Frame.{encode, decode, max_frame_data_size, header_size}
use packet_browser.Agwpe.Stream.Reassembly.{announced}
use packet_browser.Agwpe.Stream.{Read, chunk, failed, Outcome, ready, Input, try_frame, read_frame}
use packet_browser.Agwpe.Types.{
  AgwpeError, invalid_frame, unknown_type, FrameType, to_byte, try_from, AgwpeFrame,
}
use packet_browser.Prelude.{
  ℕ, zero, suc, ◌+◌, Bytes, false, List, [], ◌∷◌, ◌++◌, some, Result, err, ◌≡◌, ◌≢◌, refl, sym, ◌∙◌,
  arith, ◌==◌, length, take, drop, replicate, length-append, le→ltb, take-append_length,
}
use packet_browser.Text.Words.{le_at}

-- The bytes of a frame with another type byte
abbrev pub mistyped : ℕ → AgwpeFrame → Bytes
mistyped kind f = take 4 (encode f) ++ kind ∷ drop 5 (encode f)

==_false : (a b : ℕ) → b ≢ a → (a == b) ≡ false
==_false a b h = ground (arith, h)

try_from_unknown :
    (kind : ℕ)
    → ((t : FrameType) → to_byte t ≢ kind)
    → try_from kind ≡ err (invalid_frame (unknown_type kind))
unfolding try_from to_byte
try_from_unknown kind h =
    rw
      (
        ==_false kind _ (h FrameType.register_callsign),
        ==_false kind _ (h FrameType.registration_response),
        ==_false kind _ (h FrameType.connect),
        ==_false kind _ (h FrameType.connected),
        ==_false kind _ (h FrameType.disconnect),
        ==_false kind _ (h FrameType.send_data),
        ==_false kind _ (h FrameType.connection_rejected),
        ==_false kind _ (h FrameType.query_ports),
        ==_false kind _ (h FrameType.port_info),
      )
      refl

module _ (f : AgwpeFrame) (w : IsWireFrame f) (kind : ℕ)
    (unknown : (t : FrameType) → to_byte t ≢ kind) where
  length-mistyped : length (mistyped kind f) ≡ header_size + f.data_len
  length-mistyped = same ∙ length-encode f w
    where
      same : length (mistyped kind f) ≡ length (encode f)
      same = unfold encode in refl

  announced_mistyped : (behind : Bytes) → le_at (drop 28 (mistyped kind f ++ behind)) 0 ≡ f.data_len
  announced_mistyped behind = same ∙ announced f behind w
    where
      same : le_at (drop 28 (mistyped kind f ++ behind)) 0 ≡ le_at (drop 28 (encode f ++ behind)) 0
      same = unfold encode in refl

  decode_mistyped : decode (mistyped kind f) ≡ err (invalid_frame (unknown_type kind))
  unfolding decode encode
  decode_mistyped =
      rw (le→ltb (length (mistyped kind f)) header_size (omega (arith, length-mistyped)))
        (rw (try_from_unknown kind unknown) refl)

  try_frame-mistyped :
      (behind : Bytes)
      → try_frame (mistyped kind f ++ behind)
        ≡ some (err (invalid_frame (unknown_type kind)), mistyped kind f ++ behind)
  unfolding try_frame
  try_frame-mistyped behind =
      let buf = mistyped kind f ++ behind in
      let total = header_size + f.data_len in
      let size = length-append (mistyped kind f) behind in
      let front : take total buf ≡ mistyped kind f =
        take-append_length (mistyped kind f) behind total (sym length-mistyped) in
      rw
        (
          le→ltb (length buf) header_size (omega (arith, size, length-mistyped)),
          announced_mistyped behind,
        )
        (rw (le→ltb max_frame_data_size f.data_len w.fits) (
          rw (le→ltb (length buf) total (omega (arith, size, length-mistyped)))
            (rw (front, decode_mistyped) refl)))

read_frame_at_once :
    (buf : Bytes) (later : List Read) {r : Result AgwpeError AgwpeFrame} {left : Bytes}
    → try_frame buf ≡ some (r, left)
    → read_frame buf later ≡ (ready r, record { read_buf = left; incoming = later })
unfolding read_frame
read_frame_at_once buf [] h = rw (h, read_frame) refl
read_frame_at_once buf (chunk [] ∷ later) h = rw (h, read_frame) refl
read_frame_at_once buf (chunk (b ∷ bs) ∷ later) h = rw (h, read_frame) refl
read_frame_at_once buf (failed e ∷ later) h = rw (h, read_frame) refl

-- Reads one after the other, and the input behind them
unfoldable pub reads : ℕ → Input → List Outcome × Input
reads zero input = ([], input)
reads (suc n) input =
    let now = read_frame input.read_buf input.incoming in
    let later = reads n now.1 in (now.0 ∷ later.0, later.1)

-- Once a whole frame of an unknown type stands at the front of the buffer, every read gives the
-- error of that type, however many there are; the frames behind it, in the buffer and in the socket,
-- are never seen.
pub reads_stuck :
    (f : AgwpeFrame) (kind : ℕ) (behind : Bytes) (later : List Read) (n : ℕ)
    → IsWireFrame f
    → ((t : FrameType) → to_byte t ≢ kind)
    → let input : Input = record { read_buf = mistyped kind f ++ behind; incoming = later } in
      reads n input ≡ (replicate n (ready (err (invalid_frame (unknown_type kind)))), input)
unfolding reads
reads_stuck f kind behind later zero w unknown = refl
reads_stuck f kind behind later (suc n) w unknown =
    rw
      (read_frame_at_once (mistyped kind f ++ behind) later
        (try_frame-mistyped f w kind unknown behind))
      (rw (reads_stuck f kind behind later n w unknown) refl)
