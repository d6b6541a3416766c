-- ===== src/Client/Manager.antt =====
-- client/src/transport/manager.rs: the actor that owns the transport and serves one command at a
-- time. Of the configuration of a modem only the callsign is read here. The abort flag is what each
-- look at it finds, whoever set or reset it, so that the writes of it are left out.
pub mod Opening
pub mod Commands
use packet_browser.Agwpe.Types.{AgwpeError, connection_failed}
use packet_browser.Client.Session.Prompts.{ax25_open_and_await_connected}
use packet_browser.Client.Session.Reconnect.{
  modem_call, perform_bpq_handshake, handle_send_request_with_reconnect,
}
use packet_browser.Client.Session.Requests.{handle_send_request}
use packet_browser.Client.Session.{
  Texts, Act, connecting_modem, opening_session, leaving_modem, querying_ports, closing_session,
  Setting, Drive, Run, ◌>>=◌, return, fail, note, push_log, set_state, show_error,
}
use packet_browser.Client.State.{
  DebugLogEntry, info, debug, plain_entry, agwpe_connected, connecting, connected, error,
  set_agwpe_port,
}
use packet_browser.Prelude.{
  ℕ, Bytes, Bool, List, [], ◌∷◌, ◌++◌, none, Result, ok, err, codes, if◌then◌else◌,
}

pub data TransportCommand : Type 0 where
  connect_modem : Bytes → TransportCommand
  disconnect_modem query_ports close_session : TransportCommand
  open_session : Bytes → ℕ → TransportCommand
  send_request send_request_with_reconnect : Bytes → TransportCommand

-- What the caller of a command gets on its channel.
pub data Reply : Type 0 where
  done : Result AgwpeError Unit → Reply
  response : Result AgwpeError Bytes → Reply

abbrev pub agwpe : Bytes
agwpe = codes "AGWPE"

unfoldable pub set_port : ℕ → Run Unit
set_port port_num d = (ok tt, record d { app = set_agwpe_port port_num d.app })

unfoldable pub handshake_failed : Bytes → DebugLogEntry
unfolding plain_entry
handshake_failed m = plain_entry info (codes "ERROR") m

unfoldable pub shutdown_entry : DebugLogEntry
unfolding plain_entry
shutdown_entry = plain_entry info (codes "STATE") (codes "Background task shutting down")

module _ (texts : Texts) where
  unfoldable pub handle_connect_modem : Bytes → Run Unit
  unfolding modem_call
  handle_connect_modem callsign = do
    _ ← modem_call texts (connecting_modem callsign)
    note debug none agwpe (codes "Connected as " ++ callsign)

  unfoldable pub handle_disconnect_modem : Run Unit
  unfolding modem_call
  handle_disconnect_modem = do
    _ ← modem_call texts leaving_modem
    note info none agwpe (codes "Modem disconnected")

  unfoldable pub handle_query_ports : Run Unit
  unfolding modem_call
  handle_query_ports d =
      if d.setting.port_query_supported then modem_call texts querying_ports d else return tt d

  -- Up to the link
  unfoldable pub open_link : Bytes → ℕ → Run Unit
  unfolding modem_call set_port
  open_link target port_num = do
    _ ← modem_call texts (opening_session target port_num)
    _ ← set_state connecting
    _ ← set_port port_num
    ax25_open_and_await_connected texts

  -- The `match` on the handshake
  unfoldable pub settle_handshake : Result AgwpeError Unit × Drive → Result AgwpeError Unit × Drive
  unfolding handshake_failed
  settle_handshake (ok u, d) = set_state connected d
  settle_handshake (err e, d) =
      let m = codes "BPQ handshake failed: " ++ show_error texts e in
      (do _ ← push_log (handshake_failed m); _ ← set_state (error m); fail (connection_failed m)) d

  unfoldable pub handle_open_session : Bytes → ℕ → Run Unit
  unfolding open_link settle_handshake
  handle_open_session target port_num = do
    _ ← open_link target port_num
    λ d. settle_handshake (perform_bpq_handshake texts d)

  unfoldable pub handle_close_session : Run Unit
  unfolding modem_call
  handle_close_session = do _ ← modem_call texts closing_session; set_state agwpe_connected

  -- A successful connection leaves its callsign for the handshakes to come.
  unfoldable pub remember : Bytes → Result AgwpeError Unit × Drive → Reply × Drive
  remember callsign (ok u, d) =
      (done (ok u), record d { setting = record d.setting { local_callsign = callsign } })
  remember callsign (err e, d) = (done (err e), d)

  unfoldable pub dispatch : TransportCommand → Drive → Reply × Drive
  unfolding remember handle_connect_modem handle_disconnect_modem handle_query_ports
      handle_open_session handle_close_session
  dispatch (connect_modem callsign) d = remember callsign (handle_connect_modem callsign d)
  dispatch disconnect_modem d = let r = handle_disconnect_modem d in (done r.0, r.1)
  dispatch query_ports d = let r = handle_query_ports d in (done r.0, r.1)
  dispatch (open_session target port_num) d =
      let r = handle_open_session target port_num d in (done r.0, r.1)
  dispatch close_session d = let r = handle_close_session d in (done r.0, r.1)
  dispatch (send_request request) d =
      let r = handle_send_request texts request d in (response r.0, r.1)
  dispatch (send_request_with_reconnect request) d =
      let r = handle_send_request_with_reconnect texts request d in (response r.0, r.1)

  -- The loop over the commands, and the log line behind it.
  unfoldable pub background_task : List TransportCommand → Drive → List Reply × Drive
  unfolding dispatch shutdown_entry
  background_task [] d = ([], (push_log shutdown_entry d).1)
  background_task (command ∷ commands) d =
      let first = dispatch command d in
      let rest = background_task commands first.1 in (first.0 ∷ rest.0, rest.1)
