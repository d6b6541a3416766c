-- ===== src/Tests/Drive.antt =====
-- The theorems on client/src/transport/session.rs at concrete inputs.
use packet_browser.Agwpe.Transport.{TransportError, TransportEvent}
use packet_browser.Client.Session.Arrival.{delivered}
use packet_browser.Client.Session.Consent.{
  prompts, handshake_script, handshake-Follows, handshake_refused,
}
use packet_browser.Client.Session.Reconnect.{
  perform_bpq_handshake, handle_send_request_with_reconnect,
}
use packet_browser.Client.Session.Retry.{Sends, handle_send_request_with_reconnect-Sends}
use packet_browser.Client.Session.Trace.{Follows}
use packet_browser.Client.Session.{Texts, Answer, answered, dropped, Setting, Drive}
use packet_browser.Client.State.{AppState, connected}
use packet_browser.Prelude.{
  ◌≢◌, Bytes, true, false, List, [], ◌∷◌, ◌++◌, none, some, Result, ok, codes,
}
use packet_browser.Protocol.Response.{encode}
use packet_browser.Tests.Wire.{hex, answer, node_text}

abbrev pub plain_texts : Texts
plain_texts = record {
  lossy = λ s. s;
  to_uppercase = λ s. s;
  debug = λ s. s;
  debug_error = λ e. codes "InvalidResponse";
  fault = λ f. codes "fault";
}

abbrev pub plain_setting : Answer → Setting
plain_setting consent = record {
  bpq_command = codes "WEB";
  skip_bpq_app = false;
  local_callsign = codes "N0CALL";
  response_timeout_secs = 60;
  consent = consent;
  answer = λ acts act. ok tt;
  on_modem = λ act answer app. app;
  port_query_supported = true;
  aborted = λ look. false;
}

abbrev pub first_app : AppState
first_app = record {
  connection_state = connected;
  debug_log = [];
  available_ports = [];
  agwpe_port_num = none;
  last_agreed_disclaimer = some (codes "Type AGREE: ");
  log_capacity = 9;
}

-- The node asks for the callsign, then shows the disclaimer.
abbrev pub node_events : List (Result TransportError TransportEvent)
node_events =
    delivered (codes "Your callsign?")
    ∷ delivered (codes "Type AG")
    ∷ delivered (codes "REE: ")
    ∷ []

abbrev pub drive_of : Answer → List (Result TransportError TransportEvent) → Drive
drive_of consent events = record {
  setting = plain_setting consent;
  app = first_app;
  pending_consent = false;
  incoming = events;
  wire = [];
  looks = 0;
}

abbrev answer_bytes : Bytes
answer_bytes = node_text ++ encode hex answer

handshake-Follows_example :
    Follows
      (handshake_script (plain_setting (answered true)))
      (drive_of (answered true) node_events)
      (perform_bpq_handshake plain_texts (drive_of (answered true) node_events))
handshake-Follows_example = handshake-Follows plain_texts (drive_of (answered true) node_events)

not_agreed : answered false ≢ answered true
not_agreed h = cc

handshake_refused_example :
    Follows
      (prompts (plain_setting (answered false)))
      (drive_of (answered false) node_events)
      (perform_bpq_handshake plain_texts (drive_of (answered false) node_events))
    × ((u : Unit)
        → (perform_bpq_handshake plain_texts (drive_of (answered false) node_events)).0 ≢ ok u)
handshake_refused_example =
    handshake_refused plain_texts (drive_of (answered false) node_events) not_agreed

handle_send_request_with_reconnect-Sends_example :
    Sends
      (codes "GET x")
      (drive_of dropped [])
      (handle_send_request_with_reconnect plain_texts (codes "GET x") (drive_of dropped []))
handle_send_request_with_reconnect-Sends_example =
    handle_send_request_with_reconnect-Sends plain_texts (codes "GET x") (drive_of dropped [])
