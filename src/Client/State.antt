-- ===== src/Client/State.antt =====
-- client/src/state.rs: the client's state behind its mutex, each operation one change of it. Time
-- stamps, the configuration and the channel of the pending consent are left out.
pub mod Ring
use packet_browser.Prelude.{
  ℕ, Bytes, Bool, true, false, List, [], ◌∷◌, ◌++◌, Option, none, some, leb, if◌then◌else◌, length,
  drop, codes,
}

pub data ConnectionState : Type 0 where
  disconnected agwpe_connected connecting connected : ConnectionState
  awaiting_consent reconnecting error : Bytes → ConnectionState

-- `Display`
unfoldable pub show : ConnectionState → Bytes
show disconnected = codes "Disconnected"
show agwpe_connected = codes "AGWPE Connected"
show connecting = codes "Connecting"
show (awaiting_consent disclaimer) = codes "Awaiting consent"
show connected = codes "Connected"
show (reconnecting reason) = codes "Reconnecting: " ++ reason
show (error message) = codes "Error: " ++ message

pub data LogLevel : Type 0 where
  info debug trace : LogLevel

-- The derived order, by the position of the variant
unfoldable pub rank : LogLevel → ℕ
rank info = 0
rank debug = 1
rank trace = 2

pub data Direction : Type 0 where
  tx rx : Direction

pub record DebugLogEntry : Type 0 where
  pub level : LogLevel
  pub direction : Option Direction
  pub category : Bytes
  pub message : Bytes
  pub details : Option Bytes

pub record PortInfo : Type 0 where
  pub port_num : ℕ
  pub description : Bytes

pub record AppState : Type 0 where
  pub connection_state : ConnectionState
  pub debug_log : List DebugLogEntry
  pub available_ports : List PortInfo
  pub agwpe_port_num : Option ℕ
  pub last_agreed_disclaimer : Option Bytes
  pub log_capacity : ℕ

unfoldable pub new : AppState
new = record {
  connection_state = disconnected;
  debug_log = [];
  available_ports = [];
  agwpe_port_num = none;
  last_agreed_disclaimer = none;
  log_capacity = 1000;
}

unfoldable pub plain_entry : LogLevel → Bytes → Bytes → DebugLogEntry
plain_entry level category message = record {
  level = level;
  direction = none;
  category = category;
  message = message;
  details = none;
}

-- `pop_front` if the log is full, then `push_back`
unfoldable pub pushed : ℕ → DebugLogEntry → List DebugLogEntry → List DebugLogEntry
pushed capacity entry log =
    if leb capacity (length log) then drop 1 log ++ entry ∷ [] else log ++ entry ∷ []

unfoldable pub add_log : DebugLogEntry → AppState → AppState
unfolding pushed
add_log entry s = record s { debug_log = pushed s.log_capacity entry s.debug_log }

-- The entry that was logged is returned, to be broadcast.
unfoldable pub set_connection_state : ConnectionState → AppState → DebugLogEntry × AppState
unfolding add_log plain_entry
set_connection_state state s =
    let entry = plain_entry info (codes "STATE") (codes "State changed to: " ++ show state) in
    (entry, add_log entry (record s { connection_state = state }))

unfoldable pub set_error : Bytes → AppState → AppState
unfolding add_log plain_entry
set_error message s =
    add_log (plain_entry info (codes "ERROR") (codes "Error: " ++ message))
      (record s { connection_state = error message })

abbrev pub up_to : LogLevel → List DebugLogEntry → List DebugLogEntry
up_to level [] = []
up_to level (e ∷ es) =
    let rest = up_to level es in if leb (rank e.level) (rank level) then e ∷ rest else rest

unfoldable pub get_logs : Option LogLevel → AppState → List DebugLogEntry
get_logs none s = s.debug_log
get_logs (some level) s = up_to level s.debug_log

unfoldable pub set_ports : List PortInfo → AppState → AppState
set_ports ports s = record s { available_ports = ports }

unfoldable pub set_agwpe_port : ℕ → AppState → AppState
set_agwpe_port port_num s = record s { agwpe_port_num = some port_num }

unfoldable pub clear_ports : AppState → AppState
clear_ports s = record s { available_ports = []; agwpe_port_num = none }

unfoldable pub record_agreed_disclaimer : Bytes → AppState → AppState
record_agreed_disclaimer text s = record s { last_agreed_disclaimer = some text }

unfoldable pub clear_agreed_disclaimer : AppState → AppState
clear_agreed_disclaimer s = record s { last_agreed_disclaimer = none }
