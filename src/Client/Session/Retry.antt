-- ===== src/Client/Session/Retry.antt =====
-- What a request puts on the wire, with the one reconnect and the one more try it may take.
use mathlib.Core.Path.{subst}
use packet_browser.Agwpe.Types.{AgwpeError, session_died, needs_reconsent}
use packet_browser.Client.Session.Consent.{Follows-complete}
use packet_browser.Client.Session.Reconnect.{
  handle_reconnect, retry, handle_send_request_with_reconnect,
}
use packet_browser.Client.Session.Requests.{handle_send_request}
use packet_browser.Client.Session.Return.{reconnect_script, Follows-reconnect}
use packet_browser.Client.Session.Steps.{Follows-request}
use packet_browser.Client.Session.Trace.{
  Follows, Follows-after, Follows-push_log, Follows-check_abort,
}
use packet_browser.Client.Session.{
  Texts, Act, sent, Setting, Drive, Run, after, push_log, is_aborted, stop_if, check_abort, act,
  convert,
}
use packet_browser.Client.State.{DebugLogEntry}
use packet_browser.Prelude.{
  suc, Bytes, Bool, true, false, List, [], ◌∷◌, ◌++◌, Result, ok, err, ◌≡◌, ◌≢◌, refl, sym, ap, ◌∙◌,
  ◌⊎◌, inl, inr, append_assoc, append-nil,
}
use packet_browser.Client.Session.Requests.{request_entry, wait_entry}
use packet_browser.Client.Session.Steps.{Follows-receive_response}
use packet_browser.Client.Session.Trace.{transport_err-IsDied}
use packet_browser.Agwpe.Transport.{TransportError}

-- A session that died has had the request.
record Died (before : List Act) (request : Bytes) (r : Result AgwpeError Bytes × Drive)
    : Type 0 where
  holds :
      (reason : Bytes) → r.0 ≡ err (session_died reason) → r.1.wire ≡ before ++ sent request ∷ []

Died-run :
    {A : Type 0} {before : List Act} {request : Bytes} {k : A → Run Bytes}
    (r : Result AgwpeError A × Drive)
    → ((reason : Bytes) → r.0 ≢ err (session_died reason))
    → ((a : A) (d : Drive) → d.wire ≡ r.1.wire → Died before request (k a d))
    → Died before request (after k r)
Died-run (ok a, d) h f = f a d refl
Died-run (err e, d) h f = record { holds = λ reason e. absurd (h reason (cc e)) }

append_nil_left : (acts rest : List Act) → acts ++ rest ≡ [] → acts ≡ []
append_nil_left [] rest h = refl
append_nil_left (a ∷ acts) rest h = cc

unmoved :
    {A : Type 0} {d : Drive} {r : Result AgwpeError A × Drive} → Follows [] d r → r.1.wire ≡ d.wire
unmoved {d = d} f =
    f.wire_is ∙ ap (λ x. d.wire ++ x) (append_nil_left f.acts f.rest f.splits) ∙ append-nil d.wire

stop_if-IsNotDied :
    (b : Bool) (d : Drive) (reason : Bytes) → (stop_if b d).0 ≢ err (session_died reason)
stop_if-IsNotDied true d reason h = cc
stop_if-IsNotDied false d reason h = cc

check_abort-IsNotDied : (d : Drive) (reason : Bytes) → (check_abort d).0 ≢ err (session_died reason)
unfolding is_aborted
check_abort-IsNotDied d reason h = stop_if-IsNotDied (d.setting.aborted d.looks) _ reason h

push_log-IsNotDied :
    (entry : DebugLogEntry) (d : Drive) (reason : Bytes)
    → (push_log entry d).0 ≢ err (session_died reason)
unfolding push_log
push_log-IsNotDied entry d reason h = cc

-- Everything that one request can put on the wire: the request, the acts of a reconnect, and the
-- request again.
abbrev pub request_script : Bytes → Setting → List Act
request_script request setting = sent request ∷ (reconnect_script setting ++ sent request ∷ [])

-- The acts of the run are a beginning of that, and a response comes behind the first request or
-- behind the second.
pub record Sends (request : Bytes) (d : Drive) (r : Result AgwpeError Bytes × Drive) : Type 0 where
  pub acts : List Act
  pub rest : List Act
  pub splits : acts ++ rest ≡ request_script request d.setting
  pub wire_is : r.1.wire ≡ d.wire ++ acts
  pub setting_is : r.1.setting ≡ d.setting
  pub answered : (bytes : Bytes) → r.0 ≡ ok bytes → (acts ≡ sent request ∷ []) ⊎ (rest ≡ [])

Sends-err :
    (request : Bytes) (d d' : Drive) (e : AgwpeError)
    → Follows {A = Bytes} (sent request ∷ []) d (err e, d')
    → Sends request d (err e, d')
Sends-err request d d' e f =
    let tail = reconnect_script d.setting ++ sent request ∷ [] in
    record {
      acts = f.acts;
      rest = f.rest ++ tail;
      splits = sym (append_assoc f.acts f.rest tail) ∙ ap (λ x. x ++ tail) f.splits;
      wire_is = f.wire_is;
      setting_is = f.setting_is;
      answered = λ bytes h. absurd (cc h);
    }

module _ (texts : Texts) where
  Follows-reconnect_of :
      (setting : Setting) (reason : Bytes) (d : Drive)
      → d.setting ≡ setting
      → Follows (reconnect_script setting) d (handle_reconnect texts reason d)
  Follows-reconnect_of setting reason d e =
      subst (λ x. Follows (reconnect_script x) d (handle_reconnect texts reason d)) e
        (Follows-reconnect texts reason d)

  Follows-retry :
      (setting : Setting) (request reason : Bytes) (d : Drive)
      → d.setting ≡ setting
      → Follows
          (reconnect_script setting ++ sent request ∷ [])
          d
          (retry texts request (err (session_died reason), d))
  unfolding retry
  Follows-retry setting request reason d e =
      Follows-after (Follows-reconnect_of setting reason d e) (λ _ d₁ e₁.
        Follows-after (Follows-check_abort d₁) (λ _ d₂ e₂. Follows-request texts request d₂))

  retry-Sends :
      (request : Bytes) (d : Drive) (r : Result AgwpeError Bytes × Drive)
      → Follows (sent request ∷ []) d r
      → Died d.wire request r
      → Sends request d (retry texts request r)
  unfolding retry
  retry-Sends request d (ok bytes, d') f h = record {
    acts = sent request ∷ [];
    rest = reconnect_script d.setting ++ sent request ∷ [];
    splits = refl;
    wire_is = Follows-complete f bytes refl;
    setting_is = f.setting_is;
    answered = λ _ _. inl refl;
  }
  retry-Sends request d (err (session_died reason), d') f h =
      let g = Follows-retry d.setting request reason d' f.setting_is in
      record {
        acts = sent request ∷ g.acts;
        rest = g.rest;
        splits = ap (◌∷◌ (sent request)) g.splits;
        wire_is =
            g.wire_is
            ∙ ap (λ w. w ++ g.acts) (h.holds reason refl)
            ∙ append_assoc d.wire (sent request ∷ []) g.acts;
        setting_is = g.setting_is ∙ f.setting_is;
        answered = λ bytes e. inr (g.complete bytes e);
      }
  retry-Sends request d (err (AgwpeError.io e), d') f h = Sends-err request d d' _ f
  retry-Sends request d (err (AgwpeError.connection_failed m), d') f h = Sends-err request d d' _ f
  retry-Sends request d (err (AgwpeError.registration_failed m), d') f h =
      Sends-err request d d' _ f
  retry-Sends request d (err AgwpeError.not_connected, d') f h = Sends-err request d d' _ f
  retry-Sends request d (err (AgwpeError.invalid_frame e), d') f h = Sends-err request d d' _ f
  retry-Sends request d (err AgwpeError.timeout, d') f h = Sends-err request d d' _ f
  retry-Sends request d (err AgwpeError.task_stopped, d') f h = Sends-err request d d' _ f
  retry-Sends request d (err needs_reconsent, d') f h = Sends-err request d d' _ f
  retry-Sends request d (err AgwpeError.disconnected_by_operator, d') f h =
      Sends-err request d d' _ f

  convert-IsNotDied :
      (r : Result TransportError Unit) (reason : Bytes)
      → convert texts r ≢ err (session_died reason)
  unfolding convert
  convert-IsNotDied (ok u) reason h = cc
  convert-IsNotDied (err e) reason h = transport_err-IsDied texts e reason (cc h)

  act-IsNotDied :
      (a : Act) (d : Drive) (reason : Bytes) → (act texts a d).0 ≢ err (session_died reason)
  unfolding act
  act-IsNotDied a d reason h = convert-IsNotDied (d.setting.answer d.wire a) reason h

  act-wire : (a : Act) (d : Drive) → (act texts a d).1.wire ≡ d.wire ++ a ∷ []
  unfolding act
  act-wire a d = refl

  handle_send_request-Died :
      (request : Bytes) (d : Drive) → Died d.wire request (handle_send_request texts request d)
  unfolding handle_send_request
  handle_send_request-Died request d =
      Died-run (check_abort d) (check_abort-IsNotDied d) (λ _ d₁ w₁.
        Died-run (push_log (request_entry request) d₁)
          (push_log-IsNotDied (request_entry request) d₁)
          (λ _ d₂ w₂.
            Died-run (act texts (sent request) d₂) (act-IsNotDied (sent request) d₂) (λ _ d₃ w₃.
              Died-run (push_log wait_entry d₃) (push_log-IsNotDied wait_entry d₃) (λ _ d₄ w₄.
                record {
                  holds = λ reason h.
                      unmoved (Follows-receive_response texts d₄)
                      ∙ w₄
                      ∙ unmoved (Follows-push_log wait_entry d₃)
                      ∙ w₃
                      ∙ act-wire (sent request) d₂
                      ∙ ap (λ w. w ++ sent request ∷ [])
                          (w₂
                            ∙ unmoved (Follows-push_log (request_entry request) d₁)
                            ∙ w₁
                            ∙ unmoved (Follows-check_abort d));
                }))))

  unstopped :
      (request : Bytes) (d : Drive) (b : Bool)
      → Sends request d (
          after
            (λ _ d'. retry texts request (handle_send_request texts request d'))
            (stop_if b (record d { looks = suc d.looks })))
  unstopped request d true = record {
    acts = [];
    rest = request_script request d.setting;
    splits = refl;
    wire_is = sym (append-nil d.wire);
    setting_is = refl;
    answered = λ bytes h. absurd (cc h);
  }
  unstopped request d false =
      let d' = record d { looks = suc d.looks } in
      let s =
        retry-Sends request d' (handle_send_request texts request d')
          (Follows-request texts request d') (handle_send_request-Died request d') in
      record {
        acts = s.acts;
        rest = s.rest;
        splits = s.splits;
        wire_is = s.wire_is;
        setting_is = s.setting_is;
        answered = s.answered;
      }

  -- Whatever the transport and the operator do, one request puts on the wire a beginning of: the
  -- request, one reconnect, the request again. A response came behind the first request, or behind
  -- the second and all that stands before it.
  pub handle_send_request_with_reconnect-Sends :
      (request : Bytes) (d : Drive)
      → Sends request d (handle_send_request_with_reconnect texts request d)
  unfolding handle_send_request_with_reconnect is_aborted
  handle_send_request_with_reconnect-Sends request d =
      unstopped request d (d.setting.aborted d.looks)
