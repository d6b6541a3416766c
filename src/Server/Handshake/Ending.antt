-- ===== src/Server/Handshake/Ending.antt =====
-- The handshake ends by its deadline, whatever the peer goes on to send.
use packet_browser.Server.Reader.{Item}
use packet_browser.Server.Handshake.{Terms, Outcome, agreed}
use packet_browser.Prelude.{
  suc, ◌<◌, ◌≡◌, Bytes, Bool, List, ◌++◌, Option, some, length, arith, length-append,
}

-- How a handshake ends that these items decide, whatever comes behind them: without consent, or
-- with it, and with what it leaves of them
pub data Ending (g : List Item → Option Outcome) : Type 0 where
  refused : (o : Outcome) → ((rest : List Item) → g rest ≡ some o) → Ending g
  consented :
      (callsign : Bytes) (late : Bool) (items : List Item)
      → ((rest : List Item)
          → g rest ≡ some (agreed callsign (record { late = late; items = items ++ rest })))
      → Ending g

module _ (terms : Terms) where
  enough : (items rest : List Item) → length items < suc (length (items ++ rest))
  enough items rest = omega (arith, length-append items rest)
