-- ===== src/Agwpe/Frame.antt =====
-- `AgwpeFrame::new`, `encode`, `decode`, and the scan for the node's tear-down texts.
pub mod RoundTrip
use packet_browser.Agwpe.Types.{
  Fault, too_short, callsign_encoding, exceeds_maximum, truncated, AgwpeError, invalid_frame,
  FrameType, to_byte, try_from, AgwpeFrame,
}
use packet_browser.Prelude.{
  ℕ, ◌+◌, ◌-◌, ◌*◌, Bytes, Bool, true, false, ◌||◌, [], ◌∷◌, ◌++◌, Option, none, some, Result, ok,
  err, ◌>>=◌, ok_or, ltb, ◌==◌, if◌then◌else◌, length, take, drop, get_or, replicate, codes,
}
use packet_browser.Text.Search.{contains, position}
use packet_browser.Text.Utf8.{from_utf8}
use packet_browser.Text.Words.{u32, to_le_bytes, le_at}

abbrev pub max_frame_data_size : ℕ
max_frame_data_size = 64 * 1024

abbrev pub header_size : ℕ
header_size = 36

unfoldable pub new : ℕ → FrameType → Bytes → Bytes → Bytes → AgwpeFrame
new port frame_type call_from call_to payload = record {
  port = port;
  frame_type = frame_type;
  pid = 0;
  call_from = call_from;
  call_to = call_to;
  data_len = u32 (length payload);
  user_data = 0;
  payload = payload;
}

-- Ten bytes: at most nine of the callsign, then zeros.
unfoldable pub callsign_field : Bytes → Bytes
callsign_field call = take 9 call ++ replicate (10 - length (take 9 call)) 0

unfoldable pub encode : AgwpeFrame → Bytes
encode f =
    f.port
    ∷ 0
    ∷ 0
    ∷ 0
    ∷ to_byte f.frame_type
    ∷ 0
    ∷ 0
    ∷ 0
    ∷ (callsign_field f.call_from
        ++ (callsign_field f.call_to
            ++ (to_le_bytes f.data_len ++ (to_le_bytes f.user_data ++ f.payload))))

-- The bytes before the first zero, or all of them.
unfoldable pub until_zero : Bytes → Option ℕ → Bytes
until_zero bytes none = bytes
until_zero bytes (some len) = take len bytes

unfoldable pub extract_callsign : Bytes → Result AgwpeError Bytes
unfolding until_zero
extract_callsign bytes =
    ok_or (from_utf8 (until_zero bytes (position (λ b. b == 0) bytes)))
      (invalid_frame callsign_encoding)

-- The checks of the announced length, and the frame.
unfoldable pub finish : Bytes → FrameType → Bytes → Bytes → ℕ → ℕ → Result AgwpeError AgwpeFrame
finish input frame_type call_from call_to data_len user_data =
    if ltb max_frame_data_size data_len
    then err (invalid_frame (exceeds_maximum data_len))
    else if ltb (length input) (header_size + data_len)
    then err (invalid_frame truncated)
    else ok (record {
      port = get_or input 0 0;
      frame_type = frame_type;
      pid = 0;
      call_from = call_from;
      call_to = call_to;
      data_len = data_len;
      user_data = user_data;
      payload = take data_len (drop header_size input);
    })

unfoldable pub decode : Bytes → Result AgwpeError AgwpeFrame
unfolding finish
decode input = if ltb (length input) header_size then err (invalid_frame too_short) else (do
  frame_type ← try_from (get_or input 4 0)
  call_from ← extract_callsign (take 10 (drop 8 input))
  call_to ← extract_callsign (take 10 (drop 18 input))
  finish input frame_type call_from call_to (le_at (drop 28 input) 0) (le_at (drop 32 input) 0))

-- `contains_slice`, at the two needles that the code uses
unfoldable pub is_session_dead_payload : Bytes → Bool
is_session_dead_payload payload =
    contains payload (codes "*** DISCONNECTED") || contains payload (codes "Returned to Node")
