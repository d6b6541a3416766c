-- ===== src/Client/Session/Return.antt =====
-- How the way back ends: the reconnect, and the request behind it.
use packet_browser.Agwpe.Types.{AgwpeError, session_died, needs_reconsent, connection_failed}
use packet_browser.Client.Session.Prompts.{bpq_send_app_command}
use packet_browser.Client.Session.Reconnect.{
  direct, agree, modem_call, reopen_modem_connection, app_command_again, auto_agree, needs_consent,
  auto_consent, reconnect_steps, settle_reconnect, handle_reconnect,
}
use packet_browser.Client.Session.Steps.{
  command_act, callsign_act, Follows-ax25_open, Follows-app_command, Follows-disclaimer,
}
use packet_browser.Client.Session.Trace.{
  Follows, no_act, Follows-after, Follows-push_log, Follows-set_state, Follows-check_abort,
  Follows-act,
}
use packet_browser.Client.Session.{
  Texts, Act, sent, opened, reopened, Setting, Drive, push_log, set_state,
  matches_stored_disclaimer,
}
use packet_browser.Client.State.{ConnectionState, awaiting_consent, connected, error, reconnecting}
use packet_browser.Prelude.{
  Bytes, Bool, true, false, List, [], ◌∷◌, ◌++◌, Result, ok, err, ◌≡◌, ◌≢◌, refl, ◌∙◌, inl, inr,
  Bool-cases,
}
use mathlib.Core.Path.{subst}
use packet_browser.Prelude.{Option, some}
use packet_browser.Text.Search.{equal_refl}
use packet_browser.Client.Session.Consent.{app_acts, Follows-callsign_of}
use packet_browser.Client.Session.Reconnect.{is_needs_reconsent}
use packet_browser.Client.State.{AppState}

-- The acts of a reconnect
abbrev pub reconnect_script : Setting → List Act
reconnect_script setting =
    reopened
    ∷ opened
    ∷ (app_acts setting.skip_bpq_app setting ++ callsign_act setting ∷ sent agree ∷ [])

pub is_needs_reconsent_sound : (e : AgwpeError) → is_needs_reconsent e ≡ true → e ≡ needs_reconsent
unfolding is_needs_reconsent
is_needs_reconsent_sound needs_reconsent h = refl
is_needs_reconsent_sound (AgwpeError.io e) h = cc
is_needs_reconsent_sound (connection_failed m) h = cc
is_needs_reconsent_sound (AgwpeError.registration_failed m) h = cc
is_needs_reconsent_sound AgwpeError.not_connected h = cc
is_needs_reconsent_sound (AgwpeError.invalid_frame f) h = cc
is_needs_reconsent_sound AgwpeError.timeout h = cc
is_needs_reconsent_sound AgwpeError.task_stopped h = cc
is_needs_reconsent_sound (session_died reason) h = cc
is_needs_reconsent_sound AgwpeError.disconnected_by_operator h = cc

is_needs_reconsent-false : (e : AgwpeError) → is_needs_reconsent e ≡ false → e ≢ needs_reconsent
unfolding is_needs_reconsent
is_needs_reconsent-false e h same =
    let again : is_needs_reconsent needs_reconsent ≡ false =
      subst (λ x. is_needs_reconsent x ≡ false) same h in
    cc

unlike :
    (text : Bytes) (stored : Option Bytes)
    → matches_stored_disclaimer text stored ≡ false
    → stored ≢ some text
unfolding matches_stored_disclaimer
unlike text stored h same =
    let hit : matches_stored_disclaimer text (some text) ≡ false =
      subst (λ x. matches_stored_disclaimer text x ≡ false) same h in
    absurd (cc (equal_refl text, hit))

module _ (texts : Texts) where
  pub Follows-modem_call : (a : Act) (d : Drive) → Follows (a ∷ []) d (modem_call texts a d)
  unfolding modem_call
  Follows-modem_call a d =
      let f =
        Follows-act texts a
          (record d { app = d.setting.on_modem a (d.setting.answer d.wire a) d.app }) in
      record {
        acts = f.acts;
        rest = f.rest;
        splits = f.splits;
        wire_is = f.wire_is;
        complete = f.complete;
        setting_is = f.setting_is;
        reconsent = f.reconsent;
      }

  Follows-reopen : (d : Drive) → Follows (reopened ∷ []) d (reopen_modem_connection texts d)
  unfolding reopen_modem_connection
  Follows-reopen d = Follows-modem_call reopened d

  Follows-command_of :
      (setting : Setting) (d : Drive)
      → d.setting ≡ setting
      → Follows (command_act setting ∷ []) d (bpq_send_app_command texts d)
  Follows-command_of setting d e =
      subst (λ x. Follows (command_act x ∷ []) d (bpq_send_app_command texts d)) e
        (Follows-app_command texts d)

  Follows-app_command_again :
      (skip : Bool) (setting : Setting) (d : Drive)
      → d.setting ≡ setting
      → Follows (app_acts skip setting) d (app_command_again texts skip d)
  unfolding app_command_again direct
  Follows-app_command_again true setting d e = Follows-push_log _ d
  Follows-app_command_again false setting d e =
      Follows-after (Follows-command_of setting d e) (λ _ d' e'. Follows-check_abort d')

  Follows-auto_consent : (text : Bytes) (d : Drive) → Follows [] d (auto_consent texts text d)
  unfolding auto_consent needs_consent set_state push_log
      packet_browser.Client.State.set_connection_state
  Follows-auto_consent text d =
      elim (Bool-cases (matches_stored_disclaimer text d.app.last_agreed_disclaimer)) [
        | inl same ↦ rw same (no_act d _ refl refl (λ h. absurd (cc h)))
        | inr differs ↦ rw differs (
            no_act d _ refl refl (λ h. record {
              text = text;
              shown = refl;
              differs = unlike text d.app.last_agreed_disclaimer differs;
            }))
      ]

  Follows-auto_agree :
      (text : Bytes) (d : Drive) → Follows (sent agree ∷ []) d (auto_agree texts text d)
  unfolding auto_agree
  Follows-auto_agree text d = Follows-after (Follows-auto_consent text d) (λ _ d₁ e₁.
      Follows-after (Follows-check_abort d₁) (λ _ d₂ e₂.
        Follows-after (Follows-push_log _ d₂) (λ _ d₃ e₃.
          Follows-after (Follows-act texts (sent agree) d₃) (λ _ d₄ e₄.
            Follows-after (Follows-set_state _ d₄) (λ _ d₅ e₅. Follows-push_log _ d₅)))))

  Follows-reconnect_steps :
      (reason : Bytes) (d : Drive)
      → Follows (reconnect_script d.setting) d (reconnect_steps texts reason d)
  unfolding reconnect_steps
  Follows-reconnect_steps reason d = Follows-after (Follows-reopen d) (λ _ d₁ e₁.
      Follows-after (Follows-set_state _ d₁) (λ _ d₂ e₂.
        Follows-after (Follows-check_abort d₂) (λ _ d₃ e₃.
          Follows-after (Follows-ax25_open texts d₃) (λ _ d₄ e₄.
            Follows-after (Follows-check_abort d₄) (λ _ d₅ e₅.
              let s₅ = e₅ ∙ e₄ ∙ e₃ ∙ e₂ ∙ e₁ in
              Follows-after (Follows-app_command_again d.setting.skip_bpq_app d.setting d₅ s₅)
                (λ _ d₆ e₆.
                  Follows-after (Follows-callsign_of texts d.setting d₆ (e₆ ∙ s₅)) (λ _ d₇ e₇.
                    Follows-after (Follows-check_abort d₇) (λ _ d₈ e₈.
                      Follows-after (Follows-disclaimer texts d₈) (λ text d₉ e₉.
                        Follows-after (Follows-check_abort d₉)
                          (λ _ d' e'. Follows-auto_agree text d'))))))))))

  pub Follows-steps_of :
      (setting : Setting) (reason : Bytes) (d : Drive)
      → d.setting ≡ setting
      → Follows (reconnect_script setting) d (reconnect_steps texts reason d)
  Follows-steps_of setting reason d e =
      subst (λ x. Follows (reconnect_script x) d (reconnect_steps texts reason d)) e
        (Follows-reconnect_steps reason d)

  -- The acts of a reconnect, with the error state that it ends in
  Follows-settle :
      {script : List Act} {d : Drive} (r : Result AgwpeError Unit × Drive)
      → Follows script d r
      → Follows script d (settle_reconnect texts r)
  unfolding settle_reconnect push_log set_state
  Follows-settle (ok u, d') f = f
  Follows-settle (err e, d') f = elim (Bool-cases (is_needs_reconsent e)) [
    | inl again ↦ rw again f
    | inr other ↦ rw other (record {
      acts = f.acts;
      rest = f.rest;
      splits = f.splits;
      wire_is = f.wire_is;
      complete = λ a h. absurd (cc h);
      setting_is = f.setting_is;
      reconsent = λ h. absurd (is_needs_reconsent-false e other (cc h));
    })
  ]

  pub Follows-reconnect :
      (reason : Bytes) (d : Drive)
      → Follows (reconnect_script d.setting) d (handle_reconnect texts reason d)
  unfolding handle_reconnect
  Follows-reconnect reason d = Follows-after (Follows-set_state _ d) (λ _ d₁ e₁.
      Follows-after (Follows-push_log _ d₁)
        (λ _ d₂ e₂. Follows-settle _ (Follows-steps_of d.setting reason d₂ (e₂ ∙ e₁))))
