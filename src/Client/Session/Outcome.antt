-- ===== src/Client/Session/Outcome.antt =====
-- The state that a reconnect leaves.
use packet_browser.Agwpe.Types.{AgwpeError, needs_reconsent}
use packet_browser.Client.Session.Prompts.{bpq_await_disclaimer}
use packet_browser.Client.Session.Reconnect.{agree}
use packet_browser.Client.Session.Trace.{AsksAgain}
use packet_browser.Client.Session.{Texts, sent, Drive, show_error}
use packet_browser.Client.State.{connected, error}
use packet_browser.Prelude.{Bytes, [], ◌∷◌, ◌++◌, some, Result, ok, err, ◌≡◌, ◌⊎◌, codes}

-- What holds of the state behind a run that ended well.
pub record OnOk {A : Type 0} (P : Drive → Type 0) (r : Result AgwpeError A × Drive) : Type 0 where
  pub holds : (a : A) → r.0 ≡ ok a → P r.1

-- The client is connected. The disclaimer that it heard last is the one that the operator agreed to
-- before; AGREE is all that it sent since then, and it read nothing more.
pub record Joined (texts : Texts) (d : Drive) : Type 0 where
  pub is_connected : d.app.connection_state ≡ connected
  pub text : Bytes
  pub waiting : Drive
  pub heard : Drive
  pub heard_is : bpq_await_disclaimer texts waiting ≡ (ok text, heard)
  pub agreed : d.app.last_agreed_disclaimer ≡ some text
  pub sent_is : d.wire ≡ heard.wire ++ sent agree ∷ []
  pub read_is : d.incoming ≡ heard.incoming

-- What neither sends nor reads, and keeps what was agreed to
record Kept (d d' : Drive) : Type 0 where
  read : d'.incoming ≡ d.incoming
  wrote : d'.wire ≡ d.wire
  agreed_same : d'.app.last_agreed_disclaimer ≡ d.app.last_agreed_disclaimer

module _ (texts : Texts) where
  abbrev pub ReconnectEnd : Result AgwpeError Unit × Drive → Type 0
  ReconnectEnd r =
      ((r.0 ≡ ok tt) × Joined texts r.1)
      ⊎ (((r.0 ≡ err needs_reconsent) × AsksAgain r.1.app)
          ⊎ ((e : AgwpeError) × (r.0 ≡ err e)
              × (r.1.app.connection_state
                  ≡ error (codes "Reconnect failed: " ++ show_error texts e))))
