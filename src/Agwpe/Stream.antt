-- ===== src/Agwpe/Stream.antt =====
-- `AgwpeTransport::read_frame_from_stream`: frames cut out of a TCP stream.
pub mod Reassembly
pub mod Unknown
use packet_browser.Agwpe.Frame.{decode, max_frame_data_size, header_size}
use packet_browser.Agwpe.Types.{
  exceeds_maximum, AgwpeError, io, connection_failed, invalid_frame, AgwpeFrame,
}
use packet_browser.Prelude.{
  ℕ, ◌+◌, Bytes, Bool, List, [], ◌∷◌, ◌++◌, Option, none, some, Result, ok, err, ◌>>=◌, ltb,
  if◌then◌else◌, length, take, drop, codes,
}
use packet_browser.Text.Words.{le_at}

-- What one `read` of the socket gives: some bytes (none at the end of the stream) or an error.
pub data Read : Type 0 where
  chunk : Bytes → Read
  failed : Bytes → Read

-- A frame or an error, or no answer while the socket has nothing more to give.
pub data Outcome : Type 0 where
  ready : Result AgwpeError AgwpeFrame → Outcome
  pending : Outcome

-- `read_buf`, and what the socket will give.
pub record Input : Type 0 where
  pub read_buf : Bytes
  pub incoming : List Read

-- The first half of the loop body: `none` while the buffer holds no whole frame. A frame that
-- does not decode stays in the buffer.
unfoldable pub try_frame : Bytes → Option (Result AgwpeError AgwpeFrame × Bytes)
try_frame buf =
    if ltb (length buf) header_size
    then none
    else (let data_len = le_at (drop 28 buf) 0 in
        let total = header_size + data_len in
        if ltb max_frame_data_size data_len
        then some (err (invalid_frame (exceeds_maximum data_len)), buf)
        else if ltb (length buf) total
        then none
        else elim (decode (take total buf)) [
          | ok frame ↦ some (ok frame, drop total buf)
          | err e ↦ some (err e, buf)
        ])

unfoldable pub connection_closed : AgwpeError
connection_closed = connection_failed (codes "Connection closed")

-- The loop, on a transport that has a stream.
unfoldable pub read_frame : Bytes → List Read → Outcome × Input
read_frame buf [] = elim (try_frame buf) [
  | some (r, rest) ↦ (ready r, record { read_buf = rest; incoming = [] })
  | none ↦ (pending, record { read_buf = buf; incoming = [] })
]
read_frame buf (chunk [] ∷ later) = elim (try_frame buf) [
  | some (r, rest) ↦ (ready r, record { read_buf = rest; incoming = chunk [] ∷ later })
  | none ↦ (ready (err connection_closed), record { read_buf = buf; incoming = later })
]
read_frame buf (chunk (b ∷ bs) ∷ later) = elim (try_frame buf) [
  | some (r, rest) ↦ (ready r, record { read_buf = rest; incoming = chunk (b ∷ bs) ∷ later })
  | none ↦ read_frame (buf ++ b ∷ bs) later
]
read_frame buf (failed e ∷ later) = elim (try_frame buf) [
  | some (r, rest) ↦ (ready r, record { read_buf = rest; incoming = failed e ∷ later })
  | none ↦ (ready (err (io e)), record { read_buf = buf; incoming = later })
]
