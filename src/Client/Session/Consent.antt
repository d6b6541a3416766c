-- ===== src/Client/Session/Consent.antt =====
-- Whose consent the driver sends: the operator's in the handshake, the stored one in the reconnect.
use packet_browser.Agwpe.Types.{AgwpeError}
use packet_browser.Client.Session.Prompts.{
  bpq_await_callsign_prompt_and_send_callsign, bpq_await_disclaimer,
}
use packet_browser.Client.Session.Reconnect.{
  direct, agree, ask_operator, await_operator, require_consent, app_command, agreed,
  perform_bpq_handshake,
}
use packet_browser.Client.Session.Steps.{
  command_act, callsign_act, Follows-app_command, Follows-callsign, Follows-disclaimer,
}
use packet_browser.Client.Session.Trace.{
  Follows, no_act, Follows-after, Follows-push_log, Follows-act,
}
use packet_browser.Client.Session.{
  Texts, Answer, answered, dropped, silent, Act, sent, Setting, Drive, Run, ◌>>=◌, set_state,
}
use packet_browser.Prelude.{
  Bytes, Bool, true, false, List, [], ◌∷◌, ◌++◌, Result, ok, ◌≡◌, ◌≢◌, refl, sym, ap, ◌∙◌,
  append-nil, length, length-append, arith,
}
use mathlib.Core.Path.{subst}

abbrev pub app_acts : Bool → Setting → List Act
app_acts true setting = []
app_acts false setting = command_act setting ∷ []

-- What the handshake sends before it has any consent.
abbrev pub prompts : Setting → List Act
prompts setting = app_acts setting.skip_bpq_app setting ++ callsign_act setting ∷ []

-- And with the consent
abbrev pub handshake_script : Setting → List Act
handshake_script setting =
    app_acts setting.skip_bpq_app setting ++ callsign_act setting ∷ sent agree ∷ []

-- A run that ended well has its whole script on the wire.
pub Follows-complete :
    {A : Type 0} {s : List Act} {d : Drive} {r : Result AgwpeError A × Drive}
    → Follows s d r
    → (a : A) → r.0 ≡ ok a
    → r.1.wire ≡ d.wire ++ s
Follows-complete {d = d} f a h =
    f.wire_is
    ∙ ap (λ x. d.wire ++ x)
        (sym (append-nil f.acts) ∙ ap (λ x. f.acts ++ x) (sym (f.complete a h)) ∙ f.splits)

scripts_differ :
    (d : Drive) {wire : List Act}
    → wire ≡ d.wire ++ prompts d.setting
    → wire ≡ d.wire ++ handshake_script d.setting
    → ⊥
scripts_differ d h h' =
    let s = app_acts d.setting.skip_bpq_app d.setting in
    omega (
      arith,
      ap length (sym h ∙ h'),
      length-append d.wire (prompts d.setting),
      length-append d.wire (handshake_script d.setting),
      length-append s (callsign_act d.setting ∷ []),
      length-append s (callsign_act d.setting ∷ sent agree ∷ []),
    )

Follows-ask_operator : (text : Bytes) (d : Drive) → Follows [] d (ask_operator text d)
unfolding ask_operator set_state
Follows-ask_operator text d = no_act d _ refl refl (λ h. absurd (cc h))

Follows-await_operator : (a : Answer) (d : Drive) → Follows [] d (await_operator a d)
unfolding await_operator
Follows-await_operator (answered accepted) d = no_act d _ refl refl (λ h. absurd (cc h))
Follows-await_operator dropped d = no_act d _ refl refl (λ h. absurd (cc h))
Follows-await_operator silent d = no_act d _ refl refl (λ h. absurd (cc h))

Follows-require_consent : (b : Bool) (d : Drive) → Follows [] d (require_consent b d)
unfolding require_consent
Follows-require_consent true d = no_act d _ refl refl (λ h. absurd (cc h))
Follows-require_consent false d = no_act d _ refl refl (λ h. absurd (cc h))

module _ (texts : Texts) where
  Follows-direct_or_command :
      (skip : Bool) (d : Drive) → Follows (app_acts skip d.setting) d (app_command texts skip d)
  unfolding app_command direct
  Follows-direct_or_command true d = Follows-push_log _ d
  Follows-direct_or_command false d = Follows-app_command texts d

  pub Follows-callsign_of :
      (setting : Setting) (d : Drive)
      → d.setting ≡ setting
      → Follows (callsign_act setting ∷ []) d (bpq_await_callsign_prompt_and_send_callsign texts d)
  Follows-callsign_of setting d e =
      subst
        (λ x. Follows (callsign_act x ∷ []) d (bpq_await_callsign_prompt_and_send_callsign texts d))
        e (Follows-callsign texts d)

  -- The handshake up to the disclaimer, in front of whatever follows it
  Follows-prompts :
      (t : List Act) (tail : Bytes → Run Unit) (d : Drive)
      → ((text : Bytes) (d' : Drive) → d'.setting ≡ d.setting → Follows t d' (tail text d'))
      → Follows (app_acts d.setting.skip_bpq_app d.setting ++ callsign_act d.setting ∷ t) d (
          (app_command texts d.setting.skip_bpq_app >>= λ _.
          bpq_await_callsign_prompt_and_send_callsign texts >>= λ _.
          bpq_await_disclaimer texts >>= tail)
            d)
  Follows-prompts t tail d f =
      Follows-after (Follows-direct_or_command d.setting.skip_bpq_app d) (λ _ d₁ e₁.
        Follows-after (Follows-callsign_of d.setting d₁ e₁) (λ _ d₂ e₂.
          Follows-after (Follows-disclaimer texts d₂) (λ text d₃ e₃. f text d₃ (e₃ ∙ e₂ ∙ e₁))))

  Follows-consented :
      (a : Answer) (d : Drive)
      → Follows
          (sent agree ∷ [])
          d
          ((await_operator a >>= λ accepted. require_consent accepted >>= λ _. agreed texts) d)
  unfolding agreed
  Follows-consented a d = Follows-after (Follows-await_operator a d) (λ accepted d₁ e₁.
      Follows-after (Follows-require_consent accepted d₁) (λ _ d₂ e₂.
        Follows-after (Follows-push_log _ d₂) (λ _ d₃ e₃.
          Follows-after (Follows-act texts (sent agree) d₃) (λ _ d₄ e₄. Follows-push_log _ d₄))))

  Follows-unconsented :
      (a : Answer) (d : Drive)
      → a ≢ answered true
      → Follows [] d
          ((await_operator a >>= λ accepted. require_consent accepted >>= λ _. agreed texts) d)
  unfolding await_operator require_consent
  Follows-unconsented (answered true) d h = absurd (h refl)
  Follows-unconsented (answered false) d h = no_act d _ refl refl (λ e. absurd (cc e))
  Follows-unconsented dropped d h = no_act d _ refl refl (λ e. absurd (cc e))
  Follows-unconsented silent d h = no_act d _ refl refl (λ e. absurd (cc e))

  -- Whatever the transport and the operator do, the handshake puts on the wire a beginning of the
  -- application command, unless it is skipped, the callsign and AGREE, and all of them if it ends
  -- well.
  pub handshake-Follows :
      (d : Drive) → Follows (handshake_script d.setting) d (perform_bpq_handshake texts d)
  unfolding perform_bpq_handshake
  handshake-Follows d = Follows-prompts (sent agree ∷ []) _ d (λ text d' e.
      Follows-after (Follows-ask_operator text d')
        (λ _ d'' e'. Follows-consented d.setting.consent d''))

  -- Unless the operator accepts, the handshake sends the application command and the callsign at
  -- most, never AGREE, and it does not end well.
  pub handshake_refused :
      (d : Drive)
      → d.setting.consent ≢ answered true
      → Follows (prompts d.setting) d (perform_bpq_handshake texts d)
        × ((u : Unit) → (perform_bpq_handshake texts d).0 ≢ ok u)
  unfolding perform_bpq_handshake
  handshake_refused d h =
      let f = Follows-prompts [] _ d (λ text d' e.
        Follows-after (Follows-ask_operator text d')
          (λ _ d'' e'. Follows-unconsented d.setting.consent d'' h)) in
      (
        f,
        λ u e.
            scripts_differ d (Follows-complete f u e) (Follows-complete (handshake-Follows d) u e),
      )
