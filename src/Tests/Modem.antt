-- ===== src/Tests/Modem.antt =====
-- The theorems on client/src/transport/agwpe.rs at concrete inputs.
use packet_browser.Agwpe.Frame.RoundTrip.{IsCallsign, IsWireFrame, decode-encode_frame}
use packet_browser.Agwpe.Frame.{encode, new, decode, callsign_field}
use packet_browser.Agwpe.Stream.Reassembly.{read_frames, read_frames-encode}
use packet_browser.Agwpe.Stream.Unknown.{mistyped, reads, reads_stuck}
use packet_browser.Agwpe.Stream.{chunk, ready, Input}
use packet_browser.Agwpe.Transport.{
  Link, TransportEvent, send, data_frames, write, chunks, await_link, verdict,
}
use packet_browser.Agwpe.Transport.Chunks.{send-read_frames, payload_of}
use packet_browser.Agwpe.Transport.Events.{input_of, at_input, await_link-encode}
use packet_browser.Agwpe.Transport.Received.{recvs, Told, recvs-Told}
use packet_browser.Agwpe.Types.{
  FrameType, invalid_frame, unknown_type, AgwpeFrame, connected, send_data, to_byte,
}
use packet_browser.Prelude.{
  ◌≡◌, ◌≢◌, refl, replicate, Bytes, true, List, none, length, concat, [], ◌∷◌, ◌++◌, some, ok, err,
  codes, arith, map, take, drop,
}
use packet_browser.Text.Utf8.{is_utf8}

abbrev station : Bytes
station = codes "N0CALL"

abbrev node : Bytes
node = codes "W1AW-7"

abbrev data_frame : AgwpeFrame
data_frame = record {
  port = 1;
  frame_type = send_data;
  pid = 0;
  call_from = station;
  call_to = node;
  data_len = 3;
  user_data = 0;
  payload = codes "ab" ++ 0 ∷ [];
}

station_ok : IsCallsign station
unfolding is_utf8
station_ok = record { short = omega arith; no_zero = omega arith; text = refl }

node_ok : IsCallsign node
unfolding is_utf8
node_ok = record { short = omega arith; no_zero = omega arith; text = refl }

data_frame_ok : IsWireFrame data_frame
data_frame_ok = record {
  from_ok = station_ok;
  to_ok = node_ok;
  no_pid = refl;
  exact = refl;
  fits = omega arith;
  user_data_fits = omega arith;
}

decode-encode_frame_example : decode (encode data_frame ++ (1 ∷ 2 ∷ [])) ≡ ok data_frame
decode-encode_frame_example = decode-encode_frame data_frame (1 ∷ 2 ∷ []) data_frame_ok

-- Two frames, cut within the first and within the second.
abbrev both : Bytes
both = encode data_frame ++ (encode data_frame ++ [])

read_frames-encode_example :
    read_frames 2 (take 10 both) (map chunk (take 50 (drop 10 both) ∷ drop 50 (drop 10 both) ∷ []))
    ≡ some (data_frame ∷ data_frame ∷ [])
unfolding encode callsign_field to_byte
read_frames-encode_example =
    read_frames-encode (data_frame ∷ data_frame ∷ []) (take 10 both)
      (take 50 (drop 10 both) ∷ drop 50 (drop 10 both) ∷ []) (data_frame_ok, (data_frame_ok, tt))
      (λ e. cc e, (λ e. cc e, tt)) refl

unknown_y : (t : FrameType) → to_byte t ≢ b'y'
unfolding to_byte
unknown_y FrameType.register_callsign h = omega (arith, h)
unknown_y FrameType.registration_response h = omega (arith, h)
unknown_y FrameType.connect h = omega (arith, h)
unknown_y FrameType.connected h = omega (arith, h)
unknown_y FrameType.disconnect h = omega (arith, h)
unknown_y FrameType.send_data h = omega (arith, h)
unknown_y FrameType.connection_rejected h = omega (arith, h)
unknown_y FrameType.query_ports h = omega (arith, h)
unknown_y FrameType.port_info h = omega (arith, h)

-- Three reads, with a good frame behind the unknown one
reads_stuck_example :
    let input : Input = record {
      read_buf = mistyped b'y' data_frame ++ encode data_frame;
      incoming = chunk (1 ∷ 2 ∷ []) ∷ [];
    } in
    reads 3 input ≡ (replicate 3 (ready (err (invalid_frame (unknown_type b'y')))), input)
reads_stuck_example =
    reads_stuck data_frame b'y' (encode data_frame) (chunk (1 ∷ 2 ∷ []) ∷ []) 3 data_frame_ok
      unknown_y

abbrev link : Link
link = record {
  port = 1;
  local_callsign = station;
  remote_callsign = node;
  has_stream = true;
  input = input_of [] [];
  written = [];
  write_error = none;
}

-- Three bytes are one frame of 39.
abbrev sent_parts : List Bytes
sent_parts = take 20 (encode data_frame) ∷ drop 20 (encode data_frame) ∷ []

send-read_frames_example :
    ((send (codes "ab" ++ 0 ∷ []) link).0 ≡ ok tt)
    × (frames : List AgwpeFrame) × (read_frames (length frames) [] (map chunk sent_parts)
        ≡ some frames)
    × (concat (map payload_of frames) ≡ codes "ab" ++ 0 ∷ [])
unfolding encode callsign_field to_byte send data_frames write chunks new
send-read_frames_example =
    send-read_frames link station_ok node_ok (codes "ab" ++ 0 ∷ []) sent_parts refl refl refl
      (λ e. cc e, (λ e. cc e, tt)) refl

recvs-Told_example :
    (events : List TransportEvent) × (buf' : Bytes) × (parts' : List Bytes) × (recvs
        (λ s. s)
        1
        (at_input link [] sent_parts)
      ≡ (map ok events, at_input link buf' parts'))
    × Told (λ s. s) (data_frame ∷ []) events
    × (buf' ++ concat parts' ≡ [])
unfolding encode callsign_field to_byte
recvs-Told_example =
    recvs-Told (λ s. s) link (data_frame ∷ []) [] sent_parts [] (data_frame_ok, tt)
      (λ e. cc e, (λ e. cc e, tt)) refl

abbrev confirmation : AgwpeFrame
confirmation = record data_frame { frame_type = connected; data_len = 0; payload = [] }

confirmation_ok : IsWireFrame confirmation
confirmation_ok = record {
  from_ok = station_ok;
  to_ok = node_ok;
  no_pid = refl;
  exact = refl;
  fits = omega arith;
  user_data_fits = omega arith;
}

abbrev opening : List Bytes
opening = sent_parts ++ (encode confirmation ++ 9 ∷ []) ∷ []

await_link-encode_example :
    (left : Bytes) × (later : List Bytes) × (await_link (λ s. s) 2 (at_input link [] opening)
      ≡ (ok tt, at_input link left later))
    × (left ++ concat later ≡ 9 ∷ [])
unfolding encode callsign_field to_byte verdict
await_link-encode_example =
    await_link-encode (λ s. s) link (data_frame ∷ []) confirmation (ok tt) [] opening (9 ∷ []) 2
      ((data_frame_ok, refl), tt) confirmation_ok refl (λ e. cc e, (λ e. cc e, (λ e. cc e, tt)))
      refl (omega arith)
