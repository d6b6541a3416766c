-- ===== src/Client/Session/Steps.antt =====
-- The acts of each step of the driver.
use packet_browser.Agwpe.Transport.{
  modem_error, session_rejected, TransportError, TransportEvent, data_event, disconnected_event,
}
use packet_browser.Client.Session.Prompts.{
  ax25_open_and_await_connected, bpq_send_app_command, await_text, check_text, enough,
  is_callsign_prompt, trace_received, is_disclaimer, await_callsign_prompt,
  bpq_await_callsign_prompt_and_send_callsign, await_disclaimer, bpq_await_disclaimer,
}
use packet_browser.Client.Session.Requests.{
  handle_send_request, await_response, receive_response, absorb, proceed, framing, by_header,
  check_dead, check_size, timed_out, Expected, is_complete,
}
use packet_browser.Client.Session.{
  Texts, Act, sent, opened, Setting, Drive, Run, return, max_handshake_text,
}
use packet_browser.Prelude.{
  ℕ, Bytes, Bool, true, false, List, [], ◌∷◌, ◌++◌, Option, none, some, Result, ok, err, refl,
  Bool-cases, inl, inr, ltb, length, ◌+◌,
}
use packet_browser.Client.Session.Trace.{
  Follows, no_act, behind, Follows-after, Follows-push_log, Follows-fail, Follows-check_abort,
  Follows-act, transport_err-IsOther,
}
use packet_browser.Client.Session.Requests.{log_offset}
use packet_browser.Protocol.Response.{magic, Header, decode_header}
use packet_browser.Protocol.Types.{ProtocolError}
use packet_browser.Text.Search.{contains}
use packet_browser.Agwpe.Frame.{is_session_dead_payload}
use packet_browser.Client.Session.{max_response_size}
use packet_browser.Prelude.{◌&&◌, not, ◌*◌}

abbrev pub command_act : Setting → Act
command_act setting = sent (setting.bpq_command ++ b'\n' ∷ [])

abbrev pub callsign_act : Setting → Act
callsign_act setting = sent (setting.local_callsign ++ b'\n' ∷ [])

module _ (texts : Texts) where
  pub Follows-ax25_open :
      (d : Drive) → Follows (opened ∷ []) d (ax25_open_and_await_connected texts d)
  unfolding ax25_open_and_await_connected
  Follows-ax25_open d = Follows-after (Follows-act texts opened d) (λ _ d' e. Follows-push_log _ d')

  pub Follows-app_command :
      (d : Drive) → Follows (command_act d.setting ∷ []) d (bpq_send_app_command texts d)
  unfolding bpq_send_app_command
  Follows-app_command d =
      Follows-after (Follows-push_log _ d)
        (λ _ d' e. Follows-after (Follows-push_log _ d') (λ _ d'' e'. Follows-act texts _ d''))

  Follows-check_text : (n : ℕ) (d : Drive) → Follows [] d (check_text n d)
  unfolding check_text
  Follows-check_text n d = elim (Bool-cases (ltb max_handshake_text n)) [
    | inl over ↦ rw over (no_act d _ refl refl (λ h. absurd (cc h)))
    | inr fits ↦ rw fits (no_act d _ refl refl (λ h. absurd (cc h)))
  ]

  Follows-enough :
      (b : Bool) (received : Bytes) (later : Run Bytes) (d : Drive)
      → ((d' : Drive) → Follows [] d' (later d'))
      → Follows [] d (enough b received later d)
  unfolding enough
  Follows-enough true received later d f = no_act d _ refl refl (λ h. absurd (cc h))
  Follows-enough false received later d f = f d

  Follows-await_text :
      (stop : Bytes → Bool) (trace_text : Bytes → Run Unit)
      → ((text : Bytes) (d : Drive) → Follows [] d (trace_text text d))
      → (events : List (Result TransportError TransportEvent)) (received : Bytes) (d : Drive)
      → Follows [] d (await_text texts stop trace_text events received d)
  unfolding await_text
  Follows-await_text stop trace_text q [] received d = no_act d _ refl refl (λ h. absurd (cc h))
  Follows-await_text stop trace_text q (err e ∷ events) received d =
      no_act d _ refl refl (λ h. absurd (transport_err-IsOther texts e (cc h)))
  Follows-await_text stop trace_text q (ok (disconnected_event reason) ∷ events) received d =
      no_act d _ refl refl (λ h. absurd (cc h))
  Follows-await_text stop trace_text q (ok (data_event bytes) ∷ events) received d =
      let text = texts.lossy bytes in
      let whole = received ++ text in
      behind events (
        Follows-after
          (Follows-check_text (length received + length text) (record d { incoming = events }))
          (λ _ d₁ e. Follows-after (q text d₁) (λ _ d₂ e'.
            Follows-enough (stop whole) whole (await_text texts stop trace_text events whole) d₂
              (λ d₃. Follows-await_text stop trace_text q events whole d₃))))

  Follows-await_callsign_prompt : (d : Drive) → Follows [] d (await_callsign_prompt texts d)
  unfolding await_callsign_prompt
  Follows-await_callsign_prompt d =
      Follows-await_text is_callsign_prompt (λ text. return tt)
        (λ text d'. no_act d' (return tt d') refl refl (λ h. absurd (cc h))) d.incoming [] d

  pub Follows-callsign :
      (d : Drive)
      → Follows
          (callsign_act d.setting ∷ [])
          d
          (bpq_await_callsign_prompt_and_send_callsign texts d)
  unfolding bpq_await_callsign_prompt_and_send_callsign
  Follows-callsign d = Follows-after (Follows-push_log _ d) (λ _ d₁ e₁.
      Follows-after (Follows-await_callsign_prompt d₁)
        (λ text d₂ e₂. Follows-after (Follows-push_log _ d₂) (λ _ d₃ e₃. Follows-act texts _ d₃)))

  pub Follows-disclaimer : (d : Drive) → Follows [] d (bpq_await_disclaimer texts d)
  unfolding bpq_await_disclaimer await_disclaimer
  Follows-disclaimer d = Follows-after (Follows-push_log _ d) (λ _ d₁ e₁.
      Follows-await_text (is_disclaimer texts) (trace_received texts)
        (λ text d'. Follows-push_log _ d') d₁.incoming [] d₁)

  -- The request

  Follows-check_size : (n : ℕ) (d : Drive) → Follows [] d (check_size n d)
  unfolding check_size
  Follows-check_size n d = elim (Bool-cases (ltb max_response_size n)) [
    | inl over ↦ rw over (no_act d _ refl refl (λ h. absurd (cc h)))
    | inr fits ↦ rw fits (no_act d _ refl refl (λ h. absurd (cc h)))
  ]

  Follows-check_dead : (response : Bytes) (d : Drive) → Follows [] d (check_dead response d)
  unfolding check_dead
  Follows-check_dead response d = elim (Bool-cases (is_session_dead_payload response)) [
    | inl dead ↦
        rw dead (Follows-after (Follows-push_log _ d) (λ _ d' e. Follows-fail _ d' (λ h. cc)))
    | inr alive ↦ rw alive (no_act d _ refl refl (λ h. absurd (cc h)))
  ]

  Follows-log_offset :
      (response : Bytes) (n : ℕ) (d : Drive) → Follows [] d (log_offset texts response n d)
  Follows-log_offset response n d = elim (Bool-cases (ltb 0 n)) [
    | inl some' ↦ rw some' (Follows-push_log _ d)
    | inr none' ↦ rw none' (no_act d _ refl refl (λ h. absurd (cc h)))
  ]

  Follows-by_header :
      (response : Bytes) (r : Result ProtocolError (Option Header)) (d : Drive)
      → Follows [] d (by_header texts response r d)
  unfolding by_header
  Follows-by_header response (ok (some h)) d =
      Follows-after (Follows-log_offset response h.header_end d) (λ _ d₁ e₁.
        Follows-after (Follows-push_log _ d₁)
          (λ _ d₂ e₂. no_act d₂ _ refl refl (λ h. absurd (cc h))))
  Follows-by_header response (ok none) d =
      elim (Bool-cases (not (contains response magic) && ltb (32 * 1024) (length response))) [
        | inl garbage ↦ rw garbage (no_act d _ refl refl (λ h. absurd (cc h)))
        | inr early ↦ rw early (no_act d _ refl refl (λ h. absurd (cc h)))
      ]
  Follows-by_header response (err e) d = no_act d _ refl refl (λ h. absurd (cc h))

  Follows-framing :
      (response : Bytes) (expected : Option Expected) (d : Drive)
      → Follows [] d (framing texts response expected d)
  unfolding framing
  Follows-framing response none d = Follows-by_header response (decode_header response) d
  Follows-framing response (some e) d = no_act d _ refl refl (λ h. absurd (cc h))

  Follows-absorb :
      (response bytes : Bytes) (expected : Option Expected) (d : Drive)
      → Follows [] d (absorb texts response bytes expected d)
  unfolding absorb
  Follows-absorb response bytes expected d =
      Follows-after (Follows-check_size (length response + length bytes) d) (λ _ d₁ e₁.
        Follows-after (Follows-check_dead (response ++ bytes) d₁) (λ _ d₂ e₂.
          Follows-after (Follows-check_abort d₂) (λ _ d₃ e₃.
            Follows-after (Follows-push_log _ d₃)
              (λ _ d₄ e₄. Follows-framing (response ++ bytes) expected d₄))))

  Follows-timed_out : (d : Drive) → Follows [] d (timed_out d)
  unfolding timed_out
  Follows-timed_out d = Follows-after (Follows-push_log _ d) (λ _ d' e. Follows-fail _ d' (λ h. cc))

  Follows-proceed :
      (response : Bytes) (later : Option Expected → Run Bytes) (expected : Option Expected)
      (d : Drive)
      → ((e : Option Expected) (d' : Drive) → Follows [] d' (later e d'))
      → Follows [] d (proceed response later expected d)
  unfolding proceed
  Follows-proceed response later expected d f = elim (Bool-cases (is_complete response expected)) [
    | inl complete ↦ rw complete (
        Follows-after (Follows-push_log _ d) (λ _ d' e. no_act d' _ refl refl (λ h. absurd (cc h))))
    | inr open' ↦ rw open' (f expected d)
  ]

  Follows-await_response :
      (events : List (Result TransportError TransportEvent)) (response : Bytes)
      (expected : Option Expected) (d : Drive)
      → Follows [] d (await_response texts events response expected d)
  unfolding await_response
  Follows-await_response [] response expected d = behind [] (Follows-timed_out _)
  Follows-await_response (err TransportError.timeout ∷ events) response expected d =
      behind events (Follows-timed_out _)
  Follows-await_response (err TransportError.not_connected ∷ events) response expected d =
      no_act d _ refl refl
        (λ h. absurd (transport_err-IsOther texts TransportError.not_connected (cc h)))
  Follows-await_response (err (TransportError.io e) ∷ events) response expected d =
      no_act d _ refl refl (λ h. absurd (transport_err-IsOther texts (TransportError.io e) (cc h)))
  Follows-await_response (err (modem_error e) ∷ events) response expected d =
      no_act d _ refl refl (λ h. absurd (transport_err-IsOther texts (modem_error e) (cc h)))
  Follows-await_response (err (session_rejected m) ∷ events) response expected d =
      no_act d _ refl refl (λ h. absurd (transport_err-IsOther texts (session_rejected m) (cc h)))
  Follows-await_response (ok (disconnected_event reason) ∷ events) response expected d =
      behind events (Follows-after (Follows-push_log _ _) (λ _ d' e. Follows-fail _ d' (λ h. cc)))
  Follows-await_response (ok (data_event bytes) ∷ events) response expected d = behind events (
      Follows-after (Follows-absorb response bytes expected _) (λ e d' eq'.
        Follows-proceed (response ++ bytes) (await_response texts events (response ++ bytes)) e d'
          (Follows-await_response events (response ++ bytes))))

  pub Follows-receive_response : (d : Drive) → Follows [] d (receive_response texts d)
  unfolding receive_response
  Follows-receive_response d = Follows-await_response d.incoming [] none d

  pub Follows-request :
      (request : Bytes) (d : Drive)
      → Follows (sent request ∷ []) d (handle_send_request texts request d)
  unfolding handle_send_request
  Follows-request request d = Follows-after (Follows-check_abort d) (λ _ d₁ e₁.
      Follows-after (Follows-push_log _ d₁) (λ _ d₂ e₂.
        Follows-after (Follows-act texts (sent request) d₂) (λ _ d₃ e₃.
          Follows-after (Follows-push_log _ d₃) (λ _ d₄ e₄. Follows-receive_response d₄))))
