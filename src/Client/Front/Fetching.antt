-- ===== src/Client/Front/Fetching.antt =====
-- A page that the server sends is the page that the operator sees, and the one that is kept.
use mathlib.Core.Option
use packet_browser.Prelude.Int.{ℤ, pos, negsuc}
use packet_browser.Agwpe.Transport.{TransportError, TransportEvent}
use packet_browser.Agwpe.Types.{AgwpeError}
use packet_browser.Client.Front.{
  browse_page, Web, Front, show_rewritten, show_text, show_decompressed, rewritten_page,
}
use packet_browser.Client.Session.Arrival.{delivered}
use packet_browser.Client.Session.Delivery.{IsDeliverable, IsResponse}
use packet_browser.Client.Session.{Drive, sent}
use packet_browser.Prelude.{
  ℕ, min, Bytes, false, List, ◌++◌, map, concat, Option, some, Result, ok, ◌≡◌, refl,
}
use packet_browser.Protocol.Types.{Response, Status}
use packet_browser.Text.Utf8.{from_utf8}

-- The link takes the request, brings the response in these pieces, and is not stopped.
pub record Brings (request : Bytes) (chunks : List Bytes) (bytes : Bytes) (d : Drive) : Type 0 where
  pub later : List (Result TransportError TransportEvent)
  pub whole_is : concat chunks ≡ bytes
  pub incoming_is : d.incoming ≡ map delivered chunks ++ later
  pub taken : d.setting.answer d.wire (sent request) ≡ ok tt
  pub calm : (look : ℕ) → d.setting.aborted look ≡ false

-- How long a page may be shown: the lesser of its age and the cap; not at all for a negative age
abbrev pub IsTtl : ℤ → ℕ → ℕ → Type 0
IsTtl (pos age) cap ttl = ttl ≡ min age cap
IsTtl (negsuc n) cap ttl = ttl ≡ 0

module _ (web : Web) (r : Response) (before : Bytes) (v : IsDeliverable web.base64 r before) where
  abbrev GivesResponse : Result AgwpeError Bytes → Type 0
  GivesResponse result =
      (bytes : Bytes) × (result ≡ ok bytes) × IsResponse web.base64 r before bytes

  -- What the page of the response needs to be shown
  pub record IsShown (url rewritten : Bytes) : Type 0 where
    pub html : Bytes
    pub status_is : r.status ≡ Status.ok
    pub decompressed : web.brotli_decompress r.payload ≡ ok html
    pub is_text : from_utf8 html ≡ some html
    pub rewritten_is : web.rewrite_html html url ≡ ok rewritten

  pub rewritten_page-shown :
      (utf8_error url rewritten etag : Bytes) (ttl : ℕ)
      → IsShown url rewritten
      → rewritten_page web utf8_error url etag r.payload ttl ≡ browse_page rewritten url etag ttl
  unfolding rewritten_page show_decompressed show_text show_rewritten
  rewritten_page-shown utf8_error url rewritten etag ttl s =
      rw s.decompressed (rw s.is_text (rw s.rewritten_is refl))
