-- ===== src/Client/Manager/Commands.antt =====
-- The sequence of commands: what one leaves for the next.
use packet_browser.Agwpe.Types.{AgwpeError}
use packet_browser.Client.Manager.Opening.{Follows-open_link}
use packet_browser.Client.Manager.{
  TransportCommand, connect_modem, disconnect_modem, query_ports, open_session, close_session,
  send_request, send_request_with_reconnect, Reply, done, handle_connect_modem,
  handle_disconnect_modem, handle_query_ports, settle_handshake, handle_open_session,
  handle_close_session, remember, dispatch, background_task,
}
use packet_browser.Client.Session.Consent.{handshake-Follows}
use packet_browser.Client.Session.Reconnect.{modem_call, perform_bpq_handshake}
use packet_browser.Client.Session.Retry.{handle_send_request_with_reconnect-Sends}
use packet_browser.Client.Session.Return.{Follows-modem_call}
use packet_browser.Client.Session.Steps.{Follows-request}
use packet_browser.Client.Session.Trace.{
  Follows, Follows-after, Follows-push_log, Follows-set_state,
}
use packet_browser.Client.Session.{
  Texts, Drive, after, return, closing_session, connecting_modem, leaving_modem, querying_ports,
  push_log, set_state,
}
use packet_browser.Prelude.{
  ℕ, suc, Bytes, Bool, true, false, if◌then◌else◌, List, [], ◌∷◌, Result, ok, err, ◌≡◌, refl, ap,
  ◌∙◌, length,
}

-- The callsign behind one command, by its reply
abbrev pub next_callsign : TransportCommand → Reply → Bytes → Bytes
next_callsign (connect_modem callsign) (done (ok u)) before = callsign
next_callsign command reply before = before

-- The callsign of the last connection that was answered well
abbrev pub last_callsign : List TransportCommand → List Reply → Bytes → Bytes
last_callsign (command ∷ commands) (reply ∷ replies) before =
    last_callsign commands replies (next_callsign command reply before)
last_callsign commands replies before = before

abbrev callsign_of : Drive → Bytes
callsign_of d = d.setting.local_callsign

module _ (texts : Texts) where
  remember-callsign :
      (callsign : Bytes) (d : Drive) (r : Result AgwpeError Unit × Drive)
      → r.1.setting ≡ d.setting
      → callsign_of (remember texts callsign r).1
        ≡ next_callsign (connect_modem callsign) (remember texts callsign r).0 (callsign_of d)
  unfolding remember
  remember-callsign callsign d (ok u, d') s = refl
  remember-callsign callsign d (err e, d') s = ap (λ x. x.local_callsign) s

  settle_handshake-setting :
      (r : Result AgwpeError Unit × Drive) → (settle_handshake texts r).1.setting ≡ r.1.setting
  unfolding settle_handshake push_log set_state
  settle_handshake-setting (ok u, d) = refl
  settle_handshake-setting (err e, d) = refl

  linked-setting :
      (d : Drive) (r : Result AgwpeError Unit × Drive)
      → r.1.setting ≡ d.setting
      → (after (λ _ d₁. settle_handshake texts (perform_bpq_handshake texts d₁)) r).1.setting
        ≡ d.setting
  linked-setting d (ok u, d₁) s =
      settle_handshake-setting (perform_bpq_handshake texts d₁)
      ∙ (handshake-Follows texts d₁).setting_is
      ∙ s
  linked-setting d (err e, d₁) s = s

  handle_open_session-setting :
      (target : Bytes) (port_num : ℕ) (d : Drive)
      → (handle_open_session texts target port_num d).1.setting ≡ d.setting
  unfolding handle_open_session
  handle_open_session-setting target port_num d =
      linked-setting d _ (Follows-open_link texts target port_num d).setting_is

  Follows-connect :
      (callsign : Bytes) (d : Drive)
      → Follows (connecting_modem callsign ∷ []) d (handle_connect_modem texts callsign d)
  unfolding handle_connect_modem
  Follows-connect callsign d =
      Follows-after (Follows-modem_call texts (connecting_modem callsign) d)
        (λ _ d' e. Follows-push_log _ d')

  Follows-disconnect :
      (d : Drive) → Follows (leaving_modem ∷ []) d (handle_disconnect_modem texts d)
  unfolding handle_disconnect_modem
  Follows-disconnect d =
      Follows-after (Follows-modem_call texts leaving_modem d) (λ _ d' e. Follows-push_log _ d')

  Follows-close : (d : Drive) → Follows (closing_session ∷ []) d (handle_close_session texts d)
  unfolding handle_close_session
  Follows-close d =
      Follows-after (Follows-modem_call texts closing_session d) (λ _ d' e. Follows-set_state _ d')

  handle_query_ports-setting : (d : Drive) → (handle_query_ports texts d).1.setting ≡ d.setting
  unfolding handle_query_ports
  handle_query_ports-setting d = queried d.setting.port_query_supported
    where
      queried :
          (b : Bool)
          → (if b then modem_call texts querying_ports d else return tt d).1.setting ≡ d.setting
      queried true = (Follows-modem_call texts querying_ports d).setting_is
      queried false = refl

  dispatch-callsign :
      (command : TransportCommand) (d : Drive)
      → callsign_of (dispatch texts command d).1
        ≡ next_callsign command (dispatch texts command d).0 (callsign_of d)
  unfolding dispatch
  dispatch-callsign (connect_modem callsign) d =
      remember-callsign callsign d (handle_connect_modem texts callsign d)
        (Follows-connect callsign d).setting_is
  dispatch-callsign disconnect_modem d =
      ap (λ x. x.local_callsign) (Follows-disconnect d).setting_is
  dispatch-callsign query_ports d = ap (λ x. x.local_callsign) (handle_query_ports-setting d)
  dispatch-callsign (open_session target port_num) d =
      ap (λ x. x.local_callsign) (handle_open_session-setting target port_num d)
  dispatch-callsign close_session d = ap (λ x. x.local_callsign) (Follows-close d).setting_is
  dispatch-callsign (send_request request) d =
      ap (λ x. x.local_callsign) (Follows-request texts request d).setting_is
  dispatch-callsign (send_request_with_reconnect request) d =
      ap (λ x. x.local_callsign)
        (handle_send_request_with_reconnect-Sends texts request d).setting_is

  -- Every command is answered, in order, and behind any commands the handshakes use the callsign of
  -- the last connection to a modem that was answered well, or the one before them all.
  pub background_task-last_callsign :
      (commands : List TransportCommand) (d : Drive)
      → let end' = background_task texts commands d in
        (length end'.0 ≡ length commands)
        × (end'.1.setting.local_callsign ≡ last_callsign commands end'.0 d.setting.local_callsign)
  unfolding background_task push_log
  background_task-last_callsign [] d = (refl, refl)
  background_task-last_callsign (command ∷ commands) d =
      let first = dispatch texts command d in
      let (n, c) = background_task-last_callsign commands first.1 in
      (
        ap suc n,
        c
            ∙ ap (last_callsign commands (background_task texts commands first.1).0)
                (dispatch-callsign command d),
      )
