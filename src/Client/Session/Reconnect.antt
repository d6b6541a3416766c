-- ===== src/Client/Session/Reconnect.antt =====
-- The handshake with the operator's consent, the reconnect that repeats it by the stored consent,
-- and the request that reconnects once.
use packet_browser.Agwpe.Types.{AgwpeError, connection_failed, session_died, needs_reconsent}
use packet_browser.Client.Session.Prompts.{
  ax25_open_and_await_connected, bpq_send_app_command, bpq_await_callsign_prompt_and_send_callsign,
  bpq_await_disclaimer, bpq, protocol,
}
use packet_browser.Client.Session.Requests.{handle_send_request}
use packet_browser.Client.Session.{
  Act, Texts, Answer, answered, dropped, silent, sent, reopened, Drive, Run, ◌>>=◌, return, fail,
  note, act, set_state, check_abort, show_error, matches_stored_disclaimer,
}
use packet_browser.Client.Session.{push_log}
use packet_browser.Client.State.{
  DebugLogEntry, plain_entry, info, debug, tx, awaiting_consent, reconnecting, connected, error,
}
use packet_browser.Prelude.{
  Bytes, Bool, true, false, none, some, [], ◌∷◌, ◌++◌, Result, ok, err, codes, if◌then◌else◌,
}

unfoldable pub direct : Run Unit
direct = note info none bpq (codes "Skipping BPQ application command (direct connection mode)")

abbrev pub agree : Bytes
agree = codes "AGREE" ++ b'\n' ∷ []

-- `pending_consent = Some(consent_tx)` and the disclaimer put before the operator
unfoldable pub ask_operator : Bytes → Run Unit
unfolding set_state
ask_operator disclaimer d =
    set_state (awaiting_consent disclaimer) (record d { pending_consent = true })

-- The wait for the channel. An answer has taken the sender out of the state.
unfoldable pub await_operator : Answer → Run Bool
await_operator (answered accepted) d = (ok accepted, record d { pending_consent = false })
await_operator dropped d = (ok false, record d { pending_consent = false })
await_operator silent d = (
  err (connection_failed (codes "Consent timeout: operator did not respond")),
  record d { pending_consent = false },
)

unfoldable pub require_consent : Bool → Run Unit
require_consent true = return tt
require_consent false = fail (connection_failed (codes "Operator declined the logging disclaimer"))

unfoldable pub consent_sent : DebugLogEntry
unfolding plain_entry
consent_sent = record (plain_entry info bpq (codes "Auto-sending AGREE (matches stored consent)")) {
  direction = some tx;
}

unfoldable pub lost : Bytes → DebugLogEntry
unfolding plain_entry
lost reason =
    plain_entry info protocol (codes "Session lost (" ++ reason ++ codes "); attempting reconnect")

unfoldable pub success : DebugLogEntry
unfolding plain_entry
success = plain_entry info protocol (codes "Reconnect successful")

-- The pattern `Err(AgwpeError::NeedsReconsent)`
unfoldable pub is_needs_reconsent : AgwpeError → Bool
is_needs_reconsent needs_reconsent = true
is_needs_reconsent _ = false

module _ (texts : Texts) where
  unfoldable pub app_command : Bool → Run Unit
  unfolding direct
  app_command true = direct
  app_command false = bpq_send_app_command texts

  -- The part of the handshake behind the consent
  unfoldable pub agreed : Run Unit
  unfolding act
  agreed = do
    _ ← note debug (some tx) bpq (codes "Sending AGREE")
    _ ← act texts (sent agree)
    note info none bpq (codes "BPQ handshake completed successfully")

  unfoldable pub perform_bpq_handshake : Run Unit
  unfolding app_command ask_operator await_operator require_consent agreed
  perform_bpq_handshake d =
      (do
        _ ← app_command d.setting.skip_bpq_app
        _ ← bpq_await_callsign_prompt_and_send_callsign texts
        received_text ← bpq_await_disclaimer texts
        _ ← ask_operator received_text
        accepted ← await_operator d.setting.consent
        _ ← require_consent accepted
        agreed)
        d

  -- A call that concerns the modem, with what it does to the shared state
  unfoldable pub modem_call : Act → Run Unit
  unfolding act
  modem_call a d =
      act texts a (record d { app = d.setting.on_modem a (d.setting.answer d.wire a) d.app })

  unfoldable pub reopen_modem_connection : Run Unit
  unfolding modem_call
  reopen_modem_connection = modem_call reopened

  -- `if !skip_bpq_app { .. }` with the look at the flag behind the command
  unfoldable pub app_command_again : Bool → Run Unit
  unfolding direct
  app_command_again true = direct
  app_command_again false = do _ ← bpq_send_app_command texts; check_abort

  unfoldable pub needs_consent : Bytes → Run Unit
  needs_consent disclaimer = do
    _ ←
        note info none protocol
          (codes "Server disclaimer differs from stored consent; re-consent required")
    _ ← set_state (awaiting_consent disclaimer)
    fail needs_reconsent

  unfoldable pub auto_consent : Bytes → Run Unit
  unfolding needs_consent
  auto_consent disclaimer d =
      if matches_stored_disclaimer disclaimer d.app.last_agreed_disclaimer
      then return tt d
      else needs_consent disclaimer d

  -- AGREE by the stored consent
  unfoldable pub auto_agree : Bytes → Run Unit
  unfolding auto_consent consent_sent success
  auto_agree disclaimer = do
    _ ← auto_consent disclaimer
    _ ← check_abort
    _ ← push_log consent_sent
    _ ← act texts (sent agree)
    _ ← set_state connected
    push_log success

  -- The steps inside the `async` block
  unfoldable pub reconnect_steps : Bytes → Run Unit
  unfolding reopen_modem_connection app_command_again auto_agree
  reconnect_steps reason d =
      (do
        _ ← reopen_modem_connection
        _ ← set_state (reconnecting reason)
        _ ← check_abort
        _ ← ax25_open_and_await_connected texts
        _ ← check_abort
        _ ← app_command_again d.setting.skip_bpq_app
        _ ← bpq_await_callsign_prompt_and_send_callsign texts
        _ ← check_abort
        disclaimer ← bpq_await_disclaimer texts
        _ ← check_abort
        auto_agree disclaimer)
        d

  -- The `match` behind it
  unfoldable pub settle_reconnect : Result AgwpeError Unit × Drive → Result AgwpeError Unit × Drive
  unfolding is_needs_reconsent
  settle_reconnect (ok u, d) = (ok u, d)
  settle_reconnect (err e, d) =
      if is_needs_reconsent e
      then (err e, d)
      else (do
        _ ← note info none (codes "ERROR") (codes "Reconnect failed: " ++ show_error texts e)
        _ ← set_state (error (codes "Reconnect failed: " ++ show_error texts e))
        fail e)
          d

  unfoldable pub handle_reconnect : Bytes → Run Unit
  unfolding lost reconnect_steps settle_reconnect
  handle_reconnect reason = do
    _ ← set_state (reconnecting reason)
    _ ← push_log (lost reason)
    λ d. settle_reconnect (reconnect_steps reason d)

  -- What is left to do behind the first try.
  unfoldable pub retry : Bytes → Result AgwpeError Bytes × Drive → Result AgwpeError Bytes × Drive
  unfolding handle_reconnect
  retry request (ok bytes, d) = (ok bytes, d)
  retry request (err (session_died reason), d) =
      (do _ ← handle_reconnect reason; _ ← check_abort; handle_send_request texts request) d
  retry request (err e, d) = (err e, d)

  unfoldable pub handle_send_request_with_reconnect : Bytes → Run Bytes
  unfolding retry
  handle_send_request_with_reconnect request = do
    _ ← check_abort
    λ d. retry request (handle_send_request texts request d)
