-- ===== src/Agwpe/Types.antt =====
-- The data of client/src/transport/agwpe.rs.
use packet_browser.Prelude.{ℕ, Bytes, Result, ok, err, ◌==◌, if◌then◌else◌}

-- The text of an `InvalidFrame` error, without its numbers written out.
pub data Fault : Type 0 where
  unknown_type : ℕ → Fault
  too_short callsign_encoding : Fault
  exceeds_maximum : ℕ → Fault
  truncated response_too_large : Fault

-- An error text is its bytes; that of an I/O error comes from the operating system.
pub data AgwpeError : Type 0 where
  io : Bytes → AgwpeError
  connection_failed registration_failed : Bytes → AgwpeError
  not_connected : AgwpeError
  invalid_frame : Fault → AgwpeError
  timeout task_stopped : AgwpeError
  session_died : Bytes → AgwpeError
  needs_reconsent disconnected_by_operator : AgwpeError

pub data FrameType : Type 0 where
  register_callsign registration_response connect connected disconnect : FrameType
  send_data connection_rejected query_ports port_info : FrameType

-- `frame_type as u8`
unfoldable pub to_byte : FrameType → ℕ
to_byte register_callsign = 0x58
to_byte registration_response = 0x78
to_byte connect = 0x43
to_byte connected = 0x63
to_byte disconnect = 0x64
to_byte send_data = 0x44
to_byte connection_rejected = 0x52
to_byte query_ports = 0x47
to_byte port_info = 0x67

-- `TryFrom<u8> for FrameType`
unfoldable pub try_from : ℕ → Result AgwpeError FrameType
try_from value =
    if value == 0x58
    then ok register_callsign
    else if value == 0x78
    then ok registration_response
    else if value == 0x43
    then ok connect
    else if value == 0x63
    then ok connected
    else if value == 0x64
    then ok disconnect
    else if value == 0x44
    then ok send_data
    else if value == 0x52
    then ok connection_rejected
    else if value == 0x47
    then ok query_ports
    else if value == 0x67
    then ok port_info
    else err (invalid_frame (unknown_type value))

pub record AgwpeFrame : Type 0 where
  pub port : ℕ
  pub frame_type : FrameType
  pub pid : ℕ
  pub call_from : Bytes
  pub call_to : Bytes
  pub data_len : ℕ
  pub user_data : ℕ
  pub payload : Bytes
