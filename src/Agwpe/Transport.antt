-- ===== src/Agwpe/Transport.antt =====
-- `AgwpeTransport` of client/src/transport/agwpe.rs as a `Transport`: `send`, `recv` and
-- `open_ax25_link` over the modem's socket.
pub mod Chunks
pub mod Events
pub mod Received
use packet_browser.Agwpe.Frame.{new, encode, is_session_dead_payload}
use packet_browser.Agwpe.Stream.{Read, Outcome, ready, pending, Input, try_frame, read_frame}
use packet_browser.Agwpe.Types.{
  AgwpeError, FrameType, connect, connected, disconnect, send_data, connection_rejected, AgwpeFrame,
}
use packet_browser.Prelude.{
  ℕ, zero, suc, Bytes, Bool, true, false, ◌&&◌, List, [], ◌∷◌, ◌++◌, Option, none, some, Result, ok,
  err, if◌then◌else◌, length, take, drop, concat, map, codes,
}
use packet_browser.Text.Search.{contains, starts_with}

-- client/src/transport/mod.rs; the text of a `ModemError` is that of the error it holds.
pub data TransportError : Type 0 where
  not_connected timeout : TransportError
  io : Bytes → TransportError
  modem_error : AgwpeError → TransportError
  session_rejected : Bytes → TransportError

pub data TransportEvent : Type 0 where
  data_event : Bytes → TransportEvent
  disconnected_event : Bytes → TransportEvent

-- The fields of the transport that its operations use, and its socket: what it will give, what was
-- written to it, and the error of writing, if writing fails.
pub record Link : Type 0 where
  pub port : ℕ
  pub local_callsign : Bytes
  pub remote_callsign : Bytes
  pub has_stream : Bool
  pub input : Input
  pub written : Bytes
  pub write_error : Option Bytes

-- `agwpe_to_transport_err`
unfoldable pub to_transport_error : AgwpeError → TransportError
to_transport_error AgwpeError.timeout = TransportError.timeout
to_transport_error AgwpeError.not_connected = TransportError.not_connected
to_transport_error (AgwpeError.io e) = TransportError.io e
to_transport_error other = modem_error other

-- `write_all` and `flush`, by the error of writing
unfoldable pub write_unless : Option Bytes → Bytes → Link → Result TransportError Unit × Link
write_unless none bytes link = (ok tt, record link { written = link.written ++ bytes })
write_unless (some e) bytes link = (err (TransportError.io e), link)

unfoldable pub write : Bytes → Link → Result TransportError Unit × Link
unfolding write_unless
write bytes link = write_unless link.write_error bytes link

-- `data.chunks(256)`, on fuel: the length of the data is enough.
unfoldable pub chunks : ℕ → Bytes → List Bytes
chunks zero s = []
chunks (suc fuel) [] = []
chunks (suc fuel) (c ∷ s) = take 256 (c ∷ s) ∷ chunks fuel (drop 256 (c ∷ s))

unfoldable pub data_frames : Link → Bytes → List AgwpeFrame
unfolding chunks
data_frames link payload =
    map (new link.port send_data link.local_callsign link.remote_callsign)
      (chunks (length payload) payload)

unfoldable pub send : Bytes → Link → Result TransportError Unit × Link
unfolding data_frames write
send payload link =
    if link.has_stream
    then write (concat (map encode (data_frames link payload))) link
    else (err TransportError.not_connected, link)

-- `read_frame_with_timeout_deadline`: no answer before the deadline is a timeout.
unfoldable pub settle : Outcome × Input → Result AgwpeError AgwpeFrame × Input
settle (ready r, input) = (r, input)
settle (pending, input) = (err AgwpeError.timeout, input)

-- A transport without a stream reads what is in its buffer.
unfoldable pub read_buffered : Input → Result AgwpeError AgwpeFrame × Input
read_buffered input = elim (try_frame input.read_buf) [
  | some (r, rest) ↦ (r, record input { read_buf = rest })
  | none ↦ (err AgwpeError.not_connected, input)
]

unfoldable pub read_by_deadline : Bool → Link → Result AgwpeError AgwpeFrame × Input
unfolding settle read_buffered
read_by_deadline late link =
    if late
    then (err AgwpeError.timeout, link.input)
    else if link.has_stream
    then settle (read_frame link.input.read_buf link.input.incoming)
    else read_buffered link.input

-- `String::from_utf8_lossy` is a parameter: only the texts of reasons go through it.
module _ (lossy : Bytes → Bytes) where
  unfoldable pub event_of : AgwpeFrame → TransportEvent
  event_of frame = elim frame.frame_type [
    | disconnect ↦ disconnected_event (lossy frame.payload)
    | send_data ↦
        if is_session_dead_payload frame.payload
        then disconnected_event (lossy frame.payload)
        else data_event frame.payload
    | connected ↦ data_event []
    | connect ↦ data_event frame.payload
    | connection_rejected ↦
        disconnected_event (codes "connection rejected by peer: " ++ lossy frame.payload)
    | _ ↦ data_event []
  ]

  unfoldable pub deliver :
      Link → Result AgwpeError AgwpeFrame × Input → Result TransportError TransportEvent × Link
  unfolding event_of
  deliver link (ok frame, input) = (ok (event_of frame), record link { input = input })
  deliver link (err e, input) = (err (to_transport_error e), record link { input = input })

  unfoldable pub recv : Bool → Link → Result TransportError TransportEvent × Link
  unfolding deliver read_by_deadline
  recv late link = deliver link (read_by_deadline late link)

  unfoldable pub is_linbpq_connected : Bytes → Bool
  is_linbpq_connected payload =
      starts_with payload (codes "***") && contains payload (codes "CONNECTED")

  -- What a frame says of the link that is being opened: `none` to wait on.
  unfoldable pub verdict : AgwpeFrame → Option (Result TransportError Unit)
  unfolding is_linbpq_connected
  verdict frame = elim frame.frame_type [
    | connected ↦ some (ok tt)
    | connect ↦ if is_linbpq_connected frame.payload then some (ok tt) else none
    | connection_rejected ↦
        some (err (session_rejected (codes "connection rejected by peer: " ++ lossy frame.payload)))
    | _ ↦ none
  ]

  abbrev pub verdict_of : Result AgwpeError AgwpeFrame → Option (Result TransportError Unit)
  verdict_of (ok frame) = verdict frame
  verdict_of (err e) = some (err (to_transport_error e))

  -- The loop; so many frames are read before its deadline has passed.
  unfoldable pub await_link : ℕ → Link → Result TransportError Unit × Link
  unfolding verdict read_by_deadline
  await_link zero link = (err TransportError.timeout, link)
  await_link (suc frames) link =
      let reading = read_by_deadline false link in
      let link' = record link { input = reading.1 } in
      let later = await_link frames link' in
      elim (verdict_of reading.0) [ some r ↦ (r, link') | none ↦ later ]

  -- A write that failed, or the wait.
  unfoldable pub after_write :
      ℕ → Result TransportError Unit × Link → Result TransportError Unit × Link
  unfolding await_link
  after_write frames (err e, link) = (err e, link)
  after_write frames (ok _, link) = await_link frames link

  unfoldable pub open_ax25_link : ℕ → Link → Result TransportError Unit × Link
  unfolding after_write write
  open_ax25_link frames link =
      if link.has_stream
      then after_write frames
          (write (encode (new link.port connect link.local_callsign link.remote_callsign [])) link)
      else (err TransportError.not_connected, link)
