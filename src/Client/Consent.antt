-- ===== src/Client/Consent.antt =====
-- `api_consent_post` of client/src/proxy.rs: the operator's answer to the disclaimer.
use packet_browser.Client.Session.Reconnect.{ask_operator}
use packet_browser.Client.Session.{Drive, set_state}
use packet_browser.Client.State.{
  AppState, ConnectionState, awaiting_consent, record_agreed_disclaimer, set_connection_state,
  add_log,
}
use packet_browser.Prelude.{
  Bytes, Bool, true, false, Option, none, some, codes, if◌then◌else◌, ◌≡◌, refl,
}

pub record ConsentResponse : Type 0 where
  pub ok : Bool
  pub error : Option Bytes

-- The disclaimer that the operator sees, if the state shows one
unfoldable pub record_shown : ConnectionState → AppState → AppState
record_shown (awaiting_consent disclaimer) s = record_agreed_disclaimer disclaimer s
record_shown _ s = s

unfoldable pub record_accepted : Bool → AppState → AppState
unfolding record_shown
record_accepted true s = record_shown s.connection_state s
record_accepted false s = s

-- Whether the handshake still waits for the answer is a parameter.
unfoldable pub sent_response : Bool → ConsentResponse
sent_response true = record { ok = true; error = none }
sent_response false = record {
  ok = false;
  error = some (codes "Handshake no longer awaiting consent");
}

unfoldable pub api_consent_post : Bool → Bool → Drive → ConsentResponse × Drive
unfolding record_accepted sent_response
api_consent_post waits accepted d =
    if d.pending_consent
    then (
      sent_response waits,
      record d { pending_consent = false; app = record_accepted accepted d.app },
    )
    else (record { ok = false; error = some (codes "No consent prompt is pending") }, d)

-- An answer to a disclaimer that was put before the operator is taken once: an acceptance records
-- that disclaimer as agreed to, a refusal leaves what was agreed to before, and a second answer is
-- refused and changes nothing.
pub api_consent_post_once :
    (text : Bytes) (waits accepted again : Bool) (d : Drive)
    → let asked = (ask_operator text d).1 in
      let first = api_consent_post waits accepted asked in
      let second = api_consent_post waits again first.1 in
      (first.1.app.last_agreed_disclaimer
        ≡ (if accepted then some text else d.app.last_agreed_disclaimer))
      × (second.1 ≡ first.1)
      × (second.0.ok ≡ false)
unfolding api_consent_post ask_operator record_accepted record_shown set_state set_connection_state
    add_log record_agreed_disclaimer
api_consent_post_once text waits true again d = (refl, refl, refl)
api_consent_post_once text waits false again d = (refl, refl, refl)
