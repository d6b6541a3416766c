-- ===== src/Client/Session/Prompts.antt =====
-- The steps of the handshake with the node, over the transport: the link, the application
-- command, the callsign prompt, the disclaimer.
use packet_browser.Agwpe.Transport.{TransportError, TransportEvent, data_event, disconnected_event}
use packet_browser.Agwpe.Types.{AgwpeError, connection_failed}
use packet_browser.Client.Session.{
  Texts, sent, opened, Run, ◌>>=◌, return, fail, note, act, transport_err_to_agwpe,
  max_handshake_text,
}
use packet_browser.Client.State.{info, debug, trace, tx, rx}
use packet_browser.Prelude.{
  ℕ, ◌+◌, Bytes, Bool, true, false, if◌then◌else◌, List, [], ◌∷◌, ◌++◌, ◌||◌, none, some, Result,
  ok, err, ltb, if◌then◌else◌, length, codes,
}
use packet_browser.Text.Search.{contains}

abbrev pub bpq : Bytes
bpq = codes "BPQ"

abbrev pub protocol : Bytes
protocol = codes "PROTOCOL"

unfoldable pub check_text : ℕ → Run Unit
check_text n =
    if ltb max_handshake_text n
    then fail (connection_failed (codes "Handshake text exceeded maximum size"))
    else return tt

-- `break` with the text, or the rest of the loop
unfoldable pub enough : Bool → Bytes → Run Bytes → Run Bytes
enough true received later = return received
enough false received later = later

abbrev pub is_callsign_prompt : Bytes → Bool
is_callsign_prompt text = contains text (codes "callsign") || contains text (codes "AGREE")

module _ (texts : Texts) where
  unfoldable pub ax25_open_and_await_connected : Run Unit
  unfolding act
  ax25_open_and_await_connected = do
    _ ← act texts opened
    note info (some rx) protocol (codes "AX.25 link open confirmed")

  unfoldable pub bpq_send_app_command : Run Unit
  unfolding act
  bpq_send_app_command d =
      (do
        _ ←
            note info none bpq
              (codes "Starting BPQ handshake with command: " ++ d.setting.bpq_command)
        _ ←
            note debug (some tx) bpq
              (codes "Sending BPQ command: " ++ texts.debug (d.setting.bpq_command ++ b'\n' ∷ []))
        act texts (sent (d.setting.bpq_command ++ b'\n' ∷ [])))
        d

  -- The text that `stop` waits for, by recursion on what `recv` gives.
  unfoldable pub await_text :
      (Bytes → Bool)
      → (Bytes → Run Unit)
      → List (Result TransportError TransportEvent)
      → Bytes
      → Run Bytes
  unfolding check_text enough
  await_text stop trace_text [] received d = (err AgwpeError.timeout, record d { incoming = [] })
  await_text stop trace_text (err e ∷ rest) received d =
      (err (transport_err_to_agwpe texts e), record d { incoming = rest })
  await_text stop trace_text (ok (disconnected_event reason) ∷ rest) received d = (
    err (connection_failed (codes "Peer disconnected during BPQ handshake: " ++ reason)),
    record d { incoming = rest },
  )
  await_text stop trace_text (ok (data_event bytes) ∷ rest) received d =
      let text = texts.lossy bytes in
      (do
        _ ← check_text (length received + length text)
        _ ← trace_text text
        enough (stop (received ++ text)) (received ++ text)
            (await_text stop trace_text rest (received ++ text)))
        (record d { incoming = rest })

  unfoldable pub await_callsign_prompt : Run Bytes
  unfolding await_text
  await_callsign_prompt d = await_text is_callsign_prompt (λ text. return tt) d.incoming [] d

  unfoldable pub bpq_await_callsign_prompt_and_send_callsign : Run Unit
  unfolding act
  bpq_await_callsign_prompt_and_send_callsign d =
      (do
        _ ← note debug (some rx) bpq (codes "Waiting for callsign prompt...")
        _ ← await_callsign_prompt
        _ ←
            note debug (some tx) bpq
              (codes "Sending callsign: " ++ texts.debug (d.setting.local_callsign ++ b'\n' ∷ []))
        act texts (sent (d.setting.local_callsign ++ b'\n' ∷ [])))
        d

  abbrev pub is_disclaimer : Bytes → Bool
  is_disclaimer text = contains (texts.to_uppercase text) (codes "AGREE")

  abbrev pub trace_received : Bytes → Run Unit
  trace_received text = note trace (some rx) bpq (codes "Received text: " ++ texts.debug text)

  unfoldable pub await_disclaimer : Run Bytes
  unfolding await_text
  await_disclaimer d = await_text is_disclaimer trace_received d.incoming [] d

  unfoldable pub bpq_await_disclaimer : Run Bytes
  bpq_await_disclaimer = do
    _ ← note debug (some rx) bpq (codes "Waiting for AGREE prompt...")
    await_disclaimer
