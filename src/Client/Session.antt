-- ===== src/Client/Session.antt =====
-- client/src/transport/session.rs: one request over the link, and the way back to a link that died.
-- The transport is what its operations answer, the operator is the answer to the question, and the
-- abort flag is what each look at it finds. The broadcast copies of the log are left out.
pub mod Prompts
pub mod Requests
pub mod Reconnect
pub mod Delivery
pub mod Arrival
pub mod Trace
pub mod Steps
pub mod Consent
pub mod Return
pub mod Outcome
pub mod Retry
use packet_browser.Agwpe.Transport.{TransportError, TransportEvent, modem_error, session_rejected}
use packet_browser.Agwpe.Types.{
  AgwpeError, Fault, invalid_frame, session_died, connection_failed, registration_failed,
  task_stopped, needs_reconsent, disconnected_by_operator,
}
use packet_browser.Client.State.{
  AppState, ConnectionState, DebugLogEntry, LogLevel, Direction, add_log, set_connection_state,
  record_agreed_disclaimer, plain_entry,
}
use packet_browser.Prelude.{
  ℕ, suc, ◌+◌, ◌*◌, Bytes, Bool, true, false, List, [], ◌∷◌, ◌++◌, Option, none, some, Result, ok,
  err, codes, if◌then◌else◌, max,
}
use packet_browser.Protocol.Types.{ProtocolError}
use packet_browser.Text.Search.{equal}

abbrev pub max_response_size : ℕ
max_response_size = 10 * 1024 * 1024

abbrev pub max_handshake_text : ℕ
max_handshake_text = 64 * 1024

-- The conversions of the standard library that the driver prints or compares by.
pub record Texts : Type 0 where
  pub lossy : Bytes → Bytes
  pub to_uppercase : Bytes → Bytes
  pub debug : Bytes → Bytes
  pub debug_error : ProtocolError → Bytes
  pub fault : Fault → Bytes

-- A call of the transport that reaches the wire.
pub data Act : Type 0 where
  sent : Bytes → Act
  opened reopened : Act
  -- The calls of the manager: the callsign; the target and the port
  connecting_modem : Bytes → Act
  opening_session : Bytes → ℕ → Act
  leaving_modem querying_ports closing_session : Act

-- What becomes of the question to the operator: an answer, a dropped channel, no answer in time.
pub data Answer : Type 0 where
  answered : Bool → Answer
  dropped silent : Answer

-- What a run of the driver meets: the configuration, the operator, the transport.
pub record Setting : Type 0 where
  pub bpq_command : Bytes
  pub skip_bpq_app : Bool
  pub local_callsign : Bytes
  pub response_timeout_secs : ℕ
  pub consent : Answer
  -- What the transport answers to an act behind those before it.
  pub answer : List Act → Act → Result TransportError Unit
  -- What the calls that concern the modem do to the shared state, by their answers.
  pub on_modem : Act → Result TransportError Unit → AppState → AppState
  pub port_query_supported : Bool
  -- The abort flag at each look.
  pub aborted : ℕ → Bool

pub record Drive : Type 0 where
  pub setting : Setting
  pub app : AppState
  pub pending_consent : Bool
  -- What `recv` gives, call by call; behind it nothing comes before a deadline.
  pub incoming : List (Result TransportError TransportEvent)
  -- The acts so far, failed ones included, and the looks at the flag.
  pub wire : List Act
  pub looks : ℕ

-- `SessionState::new`
unfoldable pub effective_timeout : ℕ → ℕ
effective_timeout response_timeout_secs = max response_timeout_secs 1

abbrev pub Run : Type 0 → Type 0
Run A = Drive → Result AgwpeError A × Drive

module _ {A B : Type 0} where
  abbrev pub after :
      (A → Drive → Result AgwpeError B × Drive)
      → Result AgwpeError A × Drive
      → Result AgwpeError B × Drive
  after continue (err e, d) = (err e, d)
  after continue (ok a, d) = continue a d

  infixl 5 ◌>>=◌
  abbrev pub ◌>>=◌ :
      (Drive → Result AgwpeError A × Drive)
      → (A → Drive → Result AgwpeError B × Drive)
      → Drive
      → Result AgwpeError B × Drive
  (first >>= continue) d = after continue (first d)

abbrev pub return : {A : Type 0} → A → Drive → Result AgwpeError A × Drive
return a d = (ok a, d)

abbrev pub fail : {A : Type 0} → AgwpeError → Drive → Result AgwpeError A × Drive
fail e d = (err e, d)

unfoldable pub push_log : DebugLogEntry → Run Unit
push_log entry d = (ok tt, record d { app = add_log entry d.app })

abbrev pub note : LogLevel → Option Direction → Bytes → Bytes → Run Unit
note level direction category message =
    push_log (record (plain_entry level category message) { direction = direction })

unfoldable pub set_state : ConnectionState → Run Unit
set_state state d = (ok tt, record d { app = (set_connection_state state d.app).1 })

unfoldable pub is_aborted : Run Bool
is_aborted d = (ok (d.setting.aborted d.looks), record d { looks = suc d.looks })

abbrev pub stop_if : Bool → Run Unit
stop_if true = fail disconnected_by_operator
stop_if false = return tt

-- `if session_state.is_aborted() { return Err(..) }`
abbrev pub check_abort : Run Unit
check_abort = is_aborted >>= stop_if

-- The texts of the errors, with those of the numbers and of the modem left to `texts`.
module _ (texts : Texts) where
  -- `Display`, from the attributes of the variants
  unfoldable pub show_error : AgwpeError → Bytes
  show_error (AgwpeError.io e) = codes "IO error: " ++ e
  show_error (connection_failed m) = codes "Connection failed: " ++ m
  show_error (registration_failed m) = codes "Registration failed: " ++ m
  show_error AgwpeError.not_connected = codes "Not connected"
  show_error (invalid_frame f) = codes "Invalid frame: " ++ texts.fault f
  show_error AgwpeError.timeout = codes "Timeout"
  show_error task_stopped = codes "Background task stopped"
  show_error (session_died reason) = codes "Session died: " ++ reason
  show_error needs_reconsent = codes "Session dropped and requires re-consent"
  show_error disconnected_by_operator = codes "Disconnected by operator"

  unfoldable pub transport_err_to_agwpe : TransportError → AgwpeError
  unfolding show_error
  transport_err_to_agwpe TransportError.not_connected = AgwpeError.not_connected
  transport_err_to_agwpe TransportError.timeout = AgwpeError.timeout
  transport_err_to_agwpe (TransportError.io e) = AgwpeError.io e
  transport_err_to_agwpe (modem_error e) = connection_failed (show_error e)
  transport_err_to_agwpe (session_rejected m) = connection_failed m

  unfoldable pub convert : Result TransportError Unit → Result AgwpeError Unit
  convert (ok u) = ok u
  convert (err e) = err (transport_err_to_agwpe e)

  -- A call of the transport: the act is on the wire, whatever its answer.
  unfoldable pub act : Act → Run Unit
  unfolding convert
  act a d = (convert (d.setting.answer d.wire a), record d { wire = d.wire ++ a ∷ [] })

unfoldable pub matches_stored_disclaimer : Bytes → Option Bytes → Bool
matches_stored_disclaimer server_text (some s) = equal s server_text
matches_stored_disclaimer server_text none = false
