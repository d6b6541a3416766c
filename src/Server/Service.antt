-- ===== src/Server/Service.antt =====
-- `handle_connection` of server/src/main.rs: the handshake, then one request after the other.
pub mod Sessions
use packet_browser.Prelude.{
  ℕ, Bytes, Bool, true, false, List, [], ◌∷◌, ◌++◌, Option, none, some, Result, ok, err, codes,
}
use packet_browser.Protocol.Types.{Status, Response, Request, get, post}
use packet_browser.Server.Fetch.{
  World, Connection, Handled, LogStatus, logged, send_error_response, handle_request,
}
use packet_browser.Server.Handshake.{Terms, Outcome, agreed, ended, broken, handshake}
use packet_browser.Server.Reader.{Input, IoError, timed_out, Reading, read_request}

-- Why a session is over; the idle one is told so in plain text.
pub data Ending : Type 0 where
  peer_closed idle : Ending
  read_failed : IoError → Ending
  write_failed : Bytes → Ending

-- One round of the loop: the next one, the end, or no end of the page load.
pub data Round : Type 0 where
  next : Input → Connection → Round
  over : Ending → Connection → Round
  waiting : Round

-- The rejection of a POST: only here a failed write ends the session.
unfoldable pub after_rejection : Input → Handled → Round
after_rejection input (ok _, c) = next input c
after_rejection input (err e, c) = over (write_failed e) c

unfoldable pub after_request : Input → Option Handled → Round
after_request input none = waiting
after_request input (some handled) = next input handled.1

unfoldable pub round : World → Connection → Reading (Option Request) → Round
unfolding after_rejection after_request
round world c (err timed_out, input) = over idle c
round world c (err e, input) = over (read_failed e) c
round world c (ok none, input) = over peer_closed c
round world c (ok (some (post url body)), input) =
    after_rejection input (send_error_response world (codes "POST requests are not supported") c)
round world c (ok (some (get url if_none_match)), input) =
    after_request input (handle_request world url if_none_match c)

-- The idle deadline starts anew with every round.
unfoldable pub touched : Input → Input
touched input = record input { late = false }

-- The loop, with the world that each round meets. `none`: the worlds are used up, or a page load
-- does not end.
unfoldable pub serve : List World → Input → Connection → Option (Ending × Connection)
unfolding round touched
serve [] input c = none
serve (world ∷ worlds) input c = elim (round world c (read_request (touched input))) [
  | next input' c' ↦ serve worlds input' c'
  | over ending c' ↦ some (ending, c')
  | waiting ↦ none
]

unfoldable pub new_session : Bytes → Connection
new_session callsign = record {
  callsign = callsign;
  current_url = none;
  has_browser = true;
  log =
      record { call = callsign; url = codes "AGREED"; status = LogStatus.agreed; reason = none }
      ∷ [];
  sent = [];
}

-- How a connection ended: before the consent, without a browser, or after the loop.
pub data Closed : Type 0 where
  without_consent : Option Bytes → Closed
  broken_off : IoError → Closed
  no_browser : Handled → Closed
  served : Ending → Connection → Closed

unfoldable pub wrap : Option (Ending × Connection) → Option Closed
wrap none = none
wrap (some (ending, c)) = some (served ending c)

-- The part behind the handshake; `launched` says whether the first browser starts.
unfoldable pub with_outcome : World → List World → Bool → Option Outcome → Option Closed
unfolding wrap new_session serve
with_outcome first worlds launched none = none
with_outcome first worlds launched (some (broken e)) = some (broken_off e)
with_outcome first worlds launched (some (ended text)) = some (without_consent text)
with_outcome first worlds false (some (agreed callsign input)) = some (
    no_browser (
      send_error_response first (codes "Browser initialization failed")
        (record (new_session callsign) { has_browser = false })))
with_outcome first worlds true (some (agreed callsign input)) =
    wrap (serve worlds input (new_session callsign))

unfoldable pub handle_connection : Terms → World → List World → Bool → Input → Option Closed
unfolding with_outcome
handle_connection terms first worlds launched input =
    with_outcome first worlds launched (handshake terms input)
