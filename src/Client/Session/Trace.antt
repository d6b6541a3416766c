-- ===== src/Client/Session/Trace.antt =====
-- What a run of the driver puts on the wire: the acts of a script, up to where it stops.
use packet_browser.Client.State.{AppState, awaiting_consent}
use packet_browser.Agwpe.Types.{needs_reconsent, session_died}
use packet_browser.Agwpe.Transport.{modem_error, session_rejected}
use packet_browser.Prelude.{◌≢◌, some}
use packet_browser.Client.Session.{transport_err_to_agwpe}
use packet_browser.Agwpe.Transport.{TransportError, TransportEvent}
use packet_browser.Agwpe.Types.{AgwpeError}
use packet_browser.Client.Session.{
  Texts, Act, Drive, Run, after, fail, push_log, set_state, is_aborted, stop_if, act, convert,
}
use packet_browser.Client.State.{DebugLogEntry, ConnectionState}
use packet_browser.Prelude.{
  Bytes, Bool, true, false, List, [], ◌∷◌, ◌++◌, Result, ok, err, ◌≡◌, refl, sym, ap, ◌∙◌,
  append_assoc, append-nil,
}

-- The disclaimer that is put before the operator again is not the one agreed to.
pub record AsksAgain (app : AppState) : Type 0 where
  pub text : Bytes
  pub shown : app.connection_state ≡ awaiting_consent text
  pub differs : app.last_agreed_disclaimer ≢ some text

-- The run went through the acts of the script, all of them if it ended well.
pub record Follows {A : Type 0} (script : List Act) (d : Drive) (r : Result AgwpeError A × Drive)
    : Type 0 where
  pub acts : List Act
  pub rest : List Act
  pub splits : acts ++ rest ≡ script
  pub wire_is : r.1.wire ≡ d.wire ++ acts
  pub complete : (a : A) → r.0 ≡ ok a → rest ≡ []
  pub setting_is : r.1.setting ≡ d.setting
  pub reconsent : r.0 ≡ err needs_reconsent → AsksAgain r.1.app

module _ {A : Type 0} where
  -- No act at all
  pub no_act :
      (d : Drive) (r : Result AgwpeError A × Drive)
      → r.1.wire ≡ d.wire
      → r.1.setting ≡ d.setting
      → (r.0 ≡ err needs_reconsent → AsksAgain r.1.app)
      → Follows [] d r
  no_act d r w s a = record {
    acts = [];
    rest = [];
    splits = refl;
    wire_is = w ∙ sym (append-nil d.wire);
    complete = λ a h. refl;
    setting_is = s;
    reconsent = a;
  }

module _ {A B : Type 0} {s t : List Act} {d : Drive} {k : A → Run B} where
  Follows-run :
      (r : Result AgwpeError A × Drive)
      → Follows s d r
      → ((a : A) (d' : Drive) → d'.setting ≡ d.setting → Follows t d' (k a d'))
      → Follows (s ++ t) d (after k r)
  Follows-run (err e, d') f g = record {
    acts = f.acts;
    rest = f.rest ++ t;
    splits = sym (append_assoc f.acts f.rest t) ∙ ap (λ x. x ++ t) f.splits;
    wire_is = f.wire_is;
    complete = λ a h. absurd (cc h);
    setting_is = f.setting_is;
    reconsent = λ h. f.reconsent (cc h);
  }
  Follows-run (ok a, d') f g =
      let h = g a d' f.setting_is in
      let done : f.acts ≡ s =
        sym (append-nil f.acts) ∙ ap (λ x. f.acts ++ x) (sym (f.complete a refl)) ∙ f.splits in
      record {
        acts = s ++ h.acts;
        rest = h.rest;
        splits = append_assoc s h.acts h.rest ∙ ap (λ x. s ++ x) h.splits;
        wire_is =
            h.wire_is
            ∙ ap (λ x. x ++ h.acts) (f.wire_is ∙ ap (λ x. d.wire ++ x) done)
            ∙ append_assoc d.wire s h.acts;
        complete = h.complete;
        setting_is = h.setting_is ∙ f.setting_is;
        reconsent = h.reconsent;
      }

pub Follows-after :
    {A B : Type 0} {s t : List Act} {d : Drive} {k : A → Run B} {r : Result AgwpeError A × Drive}
    → Follows s d r
    → ((a : A) (d' : Drive) → d'.setting ≡ d.setting → Follows t d' (k a d'))
    → Follows (s ++ t) d (after k r)
Follows-after {r = r} f g = Follows-run r f g

-- What has been received does not matter.
pub behind :
    {A : Type 0} {s : List Act} {d : Drive} (events : List (Result TransportError TransportEvent))
    {r : Result AgwpeError A × Drive}
    → Follows s (record d { incoming = events }) r
    → Follows s d r
behind events f = record {
  acts = f.acts;
  rest = f.rest;
  splits = f.splits;
  wire_is = f.wire_is;
  complete = f.complete;
  setting_is = f.setting_is;
  reconsent = f.reconsent;
}

pub Follows-push_log : (entry : DebugLogEntry) (d : Drive) → Follows [] d (push_log entry d)
unfolding push_log
Follows-push_log entry d = no_act d _ refl refl (λ h. absurd (cc h))

pub Follows-set_state : (state : ConnectionState) (d : Drive) → Follows [] d (set_state state d)
unfolding set_state
Follows-set_state state d = no_act d _ refl refl (λ h. absurd (cc h))

pub Follows-fail :
    {A : Type 0} (e : AgwpeError) (d : Drive)
    → e ≢ needs_reconsent
    → Follows [] d (fail {A = A} e d)
Follows-fail e d other = no_act d _ refl refl (λ h. absurd (other (cc h)))

Follows-is_aborted : (d : Drive) → Follows [] d (is_aborted d)
unfolding is_aborted
Follows-is_aborted d = no_act d _ refl refl (λ h. absurd (cc h))

Follows-stop_if : (b : Bool) (d : Drive) → Follows [] d (stop_if b d)
Follows-stop_if true d = no_act d _ refl refl (λ h. absurd (cc h))
Follows-stop_if false d = no_act d _ refl refl (λ h. absurd (cc h))

pub Follows-check_abort : (d : Drive) → Follows [] d (after stop_if (is_aborted d))
Follows-check_abort d = Follows-after (Follows-is_aborted d) (λ b d' e. Follows-stop_if b d')

pub transport_err-IsOther :
    (texts : Texts) (e : TransportError) → transport_err_to_agwpe texts e ≢ needs_reconsent
unfolding transport_err_to_agwpe
transport_err-IsOther texts TransportError.not_connected h = cc
transport_err-IsOther texts TransportError.timeout h = cc
transport_err-IsOther texts (TransportError.io e) h = cc
transport_err-IsOther texts (modem_error e) h = cc
transport_err-IsOther texts (session_rejected m) h = cc

pub transport_err-IsDied :
    (texts : Texts) (e : TransportError) (reason : Bytes)
    → transport_err_to_agwpe texts e ≢ session_died reason
unfolding transport_err_to_agwpe
transport_err-IsDied texts TransportError.not_connected reason h = cc
transport_err-IsDied texts TransportError.timeout reason h = cc
transport_err-IsDied texts (TransportError.io e) reason h = cc
transport_err-IsDied texts (modem_error e) reason h = cc
transport_err-IsDied texts (session_rejected m) reason h = cc

convert_sober :
    (texts : Texts) (r : Result TransportError Unit) → convert texts r ≢ err needs_reconsent
unfolding convert
convert_sober texts (ok u) h = cc
convert_sober texts (err e) h = transport_err-IsOther texts e (cc h)

pub Follows-act : (texts : Texts) (a : Act) (d : Drive) → Follows (a ∷ []) d (act texts a d)
unfolding act
Follows-act texts a d = record {
  acts = a ∷ [];
  rest = [];
  splits = refl;
  wire_is = refl;
  complete = λ u h. refl;
  setting_is = refl;
  reconsent = λ h. absurd (convert_sober texts (d.setting.answer d.wire a) h);
}
