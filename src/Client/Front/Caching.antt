-- ===== src/Client/Front/Caching.antt =====
-- A page that was fetched is shown again from the cache, without the radio, while it is fresh.
use mathlib.Core.Option
use packet_browser.Client.Cache.Lookups as Lookups
use packet_browser.Client.Cache.{Cache}
use packet_browser.Client.Front.{Web, Front}
use packet_browser.Client.Session.Delivery.{IsDeliverable}
use packet_browser.Prelude.{ℕ, Bytes, Option}
use packet_browser.Protocol.Types.{Response}

module _ (web : Web) (r : Response) (before : Bytes) (v : IsDeliverable web.base64 r before) where
  -- The clock later on
  abbrev pub web_at : ℕ → Web
  web_at now = record web { now = now }
