-- ===== src/Client/Manager/Opening.antt =====
-- How the opening of a session ends.
use packet_browser.Agwpe.Types.{AgwpeError, connection_failed}
use packet_browser.Client.Manager.{
  set_port, handshake_failed, open_link, settle_handshake, handle_open_session,
}
use packet_browser.Client.Session.Consent.{
  handshake_script, Follows-complete, handshake-Follows, handshake_refused,
}
use packet_browser.Client.Session.Reconnect.{perform_bpq_handshake}
use packet_browser.Client.Session.Return.{Follows-modem_call}
use packet_browser.Client.Session.Steps.{Follows-ax25_open}
use packet_browser.Client.Session.Trace.{Follows, no_act, Follows-after, Follows-set_state}
use packet_browser.Client.Session.{
  Texts, Answer, answered, dropped, silent, Act, opened, opening_session, Drive, after, push_log,
  set_state,
}
use packet_browser.Client.State.{connected, error, set_connection_state, add_log}
use packet_browser.Prelude.{
  ℕ, Bytes, true, false, List, [], ◌∷◌, ◌++◌, Result, ok, err, ◌≡◌, ◌≢◌, refl, sym, ap, ◌∙◌, ◌⊎◌,
  inl, inr,
}

-- The operator accepted, or did not.
Answer-cases : (a : Answer) → (a ≡ answered true) ⊎ (a ≢ answered true)
Answer-cases (answered true) = inl refl
Answer-cases (answered false) = inr (λ h. cc)
Answer-cases dropped = inr (λ h. cc)
Answer-cases silent = inr (λ h. cc)

Follows-set_port : (port_num : ℕ) (d : Drive) → Follows [] d (set_port port_num d)
unfolding set_port
Follows-set_port port_num d = no_act d _ refl refl (λ h. absurd (cc h))

module _ (texts : Texts) (target : Bytes) (port_num : ℕ) where
  abbrev pub link_script : List Act
  link_script = opening_session target port_num ∷ opened ∷ []

  pub Follows-open_link : (d : Drive) → Follows link_script d (open_link texts target port_num d)
  unfolding open_link
  Follows-open_link d = Follows-after (Follows-modem_call texts _ d) (λ _ d₁ e₁.
      Follows-after (Follows-set_state _ d₁) (λ _ d₂ e₂.
        Follows-after (Follows-set_port port_num d₂) (λ _ d₃ e₃. Follows-ax25_open texts d₃)))

  -- The session is open, by the operator's word, and all acts of the handshake are on the wire; or
  -- the handshake failed, as the state shows; or the link did not come about, and nothing was sent.
  abbrev pub OpenEnd : Drive → Result AgwpeError Unit × Drive → Type 0
  OpenEnd d r =
      ((r.0 ≡ ok tt)
        × (r.1.app.connection_state ≡ connected)
        × (d.setting.consent ≡ answered true)
        × (r.1.wire ≡ d.wire ++ link_script ++ handshake_script d.setting))
      ⊎ (((m : Bytes) × (r.0 ≡ err (connection_failed m)) × (r.1.app.connection_state ≡ error m))
          ⊎ ((e : AgwpeError) × (r.0 ≡ err e) × Follows link_script d r))

  settle-OpenEnd :
      (d d₁ : Drive) (r : Result AgwpeError Unit × Drive)
      → d₁.wire ≡ d.wire ++ link_script
      → d₁.setting ≡ d.setting
      → ((u : Unit) → r.0 ≡ ok u → d₁.setting.consent ≡ answered true)
      → Follows (handshake_script d₁.setting) d₁ r
      → OpenEnd d (settle_handshake texts r)
  unfolding settle_handshake handshake_failed push_log set_state set_connection_state add_log
  settle-OpenEnd d d₁ (ok tt, d₂) w s c f = inl (
    refl,
    refl,
    ap (λ x. x.consent) (sym s) ∙ c tt refl,
    Follows-complete f tt refl
        ∙ ap (λ x. x ++ handshake_script d₁.setting) w
        ∙ ap (λ x. (d.wire ++ link_script) ++ handshake_script x) s,
  )
  settle-OpenEnd d d₁ (err e, d₂) w s c f = inr (inl (_, refl, refl))

  accepted :
      (d : Drive) (u : Unit)
      → (perform_bpq_handshake texts d).0 ≡ ok u
      → d.setting.consent ≡ answered true
  accepted d u h = elim (Answer-cases d.setting.consent) [
    | inl yes' ↦ yes'
    | inr no' ↦ absurd ((handshake_refused texts d no').1 u h)
  ]

  linked-OpenEnd :
      (d : Drive) (r : Result AgwpeError Unit × Drive)
      → Follows link_script d r
      → OpenEnd d (after (λ _ d₁. settle_handshake texts (perform_bpq_handshake texts d₁)) r)
  linked-OpenEnd d (err e, d₁) f = inr (inr (e, refl, f))
  linked-OpenEnd d (ok tt, d₁) f =
      settle-OpenEnd d d₁ (perform_bpq_handshake texts d₁) (Follows-complete f tt refl) f.setting_is
        (accepted d₁) (handshake-Follows texts d₁)

  -- An opening ends in one of three ways: the session is open, the operator accepted, and the whole
  -- handshake is on the wire behind the link; or the handshake failed, with the text that the error
  -- state shows; or the link did not come about, and the opening of it is all that was tried.
  pub handle_open_session-OpenEnd :
      (d : Drive) → OpenEnd d (handle_open_session texts target port_num d)
  unfolding handle_open_session
  handle_open_session-OpenEnd d =
      linked-OpenEnd d (open_link texts target port_num d) (Follows-open_link d)
