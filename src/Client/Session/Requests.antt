-- ===== src/Client/Session/Requests.antt =====
-- `handle_send_request`: one request, and its response out of however many deliveries.
use packet_browser.Agwpe.Frame.{is_session_dead_payload}
use packet_browser.Agwpe.Transport.{TransportError, TransportEvent, data_event, disconnected_event}
use packet_browser.Agwpe.Types.{session_died, invalid_frame, response_too_large}
use packet_browser.Client.Session.Prompts.{protocol}
use packet_browser.Client.Session.{
  Texts, sent, Run, ◌>>=◌, return, fail, note, act, check_abort, transport_err_to_agwpe,
  max_response_size,
}
use packet_browser.Client.Session.{push_log}
use packet_browser.Client.State.{DebugLogEntry, plain_entry, info, debug, trace, tx, rx}
use packet_browser.Prelude.{
  ℕ, ◌+◌, ◌*◌, Bytes, Bool, false, not, List, [], ◌∷◌, ◌++◌, ◌&&◌, Option, none, some, Result, ok,
  err, ltb, leb, if◌then◌else◌, length, codes, take, min,
}
use packet_browser.Protocol.Response.{magic, Header, decode_header}
use packet_browser.Protocol.Types.{ProtocolError}
use packet_browser.Text.Decimal.{to_string}
use packet_browser.Text.Search.{contains}

-- `expected_len`, once it is known, and `frame_start`
pub record Expected : Type 0 where
  pub len : ℕ
  pub frame_start : ℕ

-- The UTF-8 bytes of the dash of the log texts
abbrev pub em_dash : Bytes
em_dash = 0xe2 ∷ 0x80 ∷ 0x94 ∷ []

abbrev pub is_complete : Bytes → Option Expected → Bool
is_complete response none = false
is_complete response (some e) = leb (e.frame_start + e.len) (length response)

abbrev pub log_offset : Texts → Bytes → ℕ → Run Unit
log_offset texts response header_end =
    if ltb 0 header_end
    then note info none protocol (
        codes "Framed header found at offset "
        ++ to_string header_end
        ++ codes ". Preceding bytes: "
        ++ texts.debug (texts.lossy (take (min header_end 128) response)))
    else return tt

unfoldable pub by_header :
    Texts → Bytes → Result ProtocolError (Option Header) → Run (Option Expected)
by_header texts response (ok (some h)) = do
  _ ← log_offset texts response h.header_end
  _ ←
      note debug none protocol
        (codes "Response header: base64_payload_size=" ++ to_string h.payload_len)
  return (some (record { len = h.payload_len; frame_start = h.header_end }))
by_header texts response (ok none) =
    if not (contains response magic) && ltb (32 * 1024) (length response)
    then fail (
        session_died (
          codes "malformed response ("
          ++ to_string (length response)
          ++ codes " bytes with no RESP magic: "
          ++ texts.debug (texts.lossy (take (min (length response) 256) response))
          ++ codes ")"))
    else return none
by_header texts response (err e) =
    fail (session_died (codes "malformed response header: " ++ texts.debug_error e))

-- The header, if it is not known yet.
unfoldable pub framing : Texts → Bytes → Option Expected → Run (Option Expected)
unfolding by_header
framing texts response none = by_header texts response (decode_header response)
framing texts response (some e) = return (some e)

unfoldable pub check_dead : Bytes → Run Unit
check_dead response =
    if is_session_dead_payload response
    then (do
      _ ← note info (some rx) protocol (
          codes "Received AX.25 disconnect notification "
          ++ em_dash
          ++ codes " treating as SessionDied")
      fail (session_died (codes "remote sent AX.25 disconnect notification")))
    else return tt

unfoldable pub check_size : ℕ → Run Unit
check_size n =
    if ltb max_response_size n then fail (invalid_frame response_too_large) else return tt

-- The bytes of one delivery, up to the test for the end.
unfoldable pub absorb : Texts → Bytes → Bytes → Option Expected → Run (Option Expected)
unfolding framing check_dead check_size
absorb texts response bytes expected = do
  _ ← check_size (length response + length bytes)
  _ ← check_dead (response ++ bytes)
  _ ← check_abort
  _ ← note trace (some rx) protocol (
      codes "Received "
      ++ to_string (length bytes)
      ++ codes " bytes (total: "
      ++ to_string (length (response ++ bytes))
      ++ codes ")")
  framing texts (response ++ bytes) expected

-- The response, if it is complete, or the rest of the loop.
unfoldable pub proceed : Bytes → (Option Expected → Run Bytes) → Option Expected → Run Bytes
proceed response later expected =
    if is_complete response expected
    then (do
      _ ←
          note debug none protocol
            (codes "Response complete: " ++ to_string (length response) ++ codes " bytes")
      return response)
    else later expected

-- A deadline that passed.
unfoldable pub timed_out : Run Bytes
timed_out d =
    (do
      _ ← note info (some rx) protocol (
          codes "Response timed out after "
          ++ to_string d.setting.response_timeout_secs
          ++ codes "s "
          ++ em_dash
          ++ codes " treating as SessionDied")
      fail (
          session_died
            (codes "no response after " ++ to_string d.setting.response_timeout_secs ++ codes "s")))
      d

-- The loop, by recursion on what `recv` gives.
unfoldable pub await_response :
    Texts → List (Result TransportError TransportEvent) → Bytes → Option Expected → Run Bytes
unfolding absorb proceed timed_out
await_response texts [] response expected d = timed_out (record d { incoming = [] })
await_response texts (err TransportError.timeout ∷ rest) response expected d =
    timed_out (record d { incoming = rest })
await_response texts (err e ∷ rest) response expected d =
    (err (transport_err_to_agwpe texts e), record d { incoming = rest })
await_response texts (ok (disconnected_event reason) ∷ rest) response expected d =
    (do
      _ ← note info (some rx) protocol (
          codes "Peer disconnected mid-request "
          ++ em_dash
          ++ codes " treating as SessionDied: "
          ++ reason)
      fail (session_died reason))
      (record d { incoming = rest })
await_response texts (ok (data_event bytes) ∷ rest) response expected d =
    (absorb texts response bytes expected
        >>= proceed (response ++ bytes) (await_response texts rest (response ++ bytes)))
      (record d { incoming = rest })

unfoldable pub receive_response : Texts → Run Bytes
unfolding await_response
receive_response texts d = await_response texts d.incoming [] none d

unfoldable pub request_entry : Bytes → DebugLogEntry
unfolding plain_entry
request_entry request =
    record (plain_entry debug protocol
      (codes "Sending " ++ to_string (length request) ++ codes " bytes")) { direction = some tx }

unfoldable pub wait_entry : DebugLogEntry
unfolding plain_entry
wait_entry = record (plain_entry debug protocol (codes "Waiting for response...")) {
  direction = some rx;
}

unfoldable pub handle_send_request : Texts → Bytes → Run Bytes
unfolding act receive_response request_entry wait_entry
handle_send_request texts request = do
  _ ← check_abort
  _ ← push_log (request_entry request)
  _ ← act texts (sent request)
  _ ← push_log wait_entry
  receive_response texts
