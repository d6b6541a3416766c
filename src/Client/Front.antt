-- ===== src/Client/Front.antt =====
-- client/src/proxy.rs: `handle_browse`, from the operator's request for a page to the page, over the
-- cache and the session driver. A response of the HTTP server is a `Page`:
-- the HTML that the ui module puts around a text is left out.
pub mod Fetching
pub mod Caching
use mathlib.Core.Option
use packet_browser.Agwpe.Types.{AgwpeError, session_died, needs_reconsent, disconnected_by_operator}
use packet_browser.Client.Cache.{
  Cache, Hit, Sql, is_fresh, lookup, insert, touch_fresh, touch_last_used,
}
use packet_browser.Client.Session.Reconnect.{handle_send_request_with_reconnect}
use packet_browser.Client.Session.Requests.{handle_send_request}
use packet_browser.Client.Session.{Texts, Drive, show_error}
use packet_browser.Client.State.{
  AppState, ConnectionState, connected, awaiting_consent, record_agreed_disclaimer,
}
use packet_browser.Prelude.Int.{ℤ, pos, negsuc}
use packet_browser.Prelude.{
  ℕ, ◌+◌, ◌-◌, Bytes, Bool, true, false, List, Option, none, some, Result, ok, err, ltb, leb,
  if◌then◌else◌, length, take, drop, min, codes, ◌++◌,
}
use packet_browser.Protocol.Base64.{Base64}
use packet_browser.Protocol.Request.{encode}
use packet_browser.Protocol.Response.{Header, decode_header, decode_payload}
use packet_browser.Protocol.Types.{
  ProtocolError, Request, get, post, Status, invalid_request, invalid_response, url_too_long,
  payload_too_large,
}
use packet_browser.Text.Search.{equal}
use packet_browser.Text.Utf8.{from_utf8}

-- What `handle_browse` answers to the operator's browser: a redirection to the connect page, that
-- its copy is good, a page with its URL, entity tag and the seconds it stays fresh, or an error.
pub data Page : Type 0 where
  to_connect : Page
  still_good : Bytes → Page
  browse_page : Bytes → Bytes → Bytes → ℕ → Page
  error_page session_error_page : Bytes → Page

-- What the handler runs with: its configuration, the crates behind decompression and rewriting with
-- the texts of their errors, base64, SQLite, and the clock, read once for each page.
pub record Web : Type 0 where
  pub texts : Texts
  pub base64 : Base64
  pub sql : Sql
  pub brotli_decompress : Bytes → Result Bytes Bytes
  pub rewrite_html : Bytes → Bytes → Result Bytes Bytes
  pub auto_reconnect : Bool
  pub cache_max_ttl : ℕ
  pub now : ℕ

-- The session behind the manager, and the cache, if there is one.
pub record Front : Type 0 where
  pub drive : Drive
  pub cache : Option Cache

unfoldable pub is_connected : ConnectionState → Bool
is_connected connected = true
is_connected _ = false

-- `Display`
unfoldable pub show_protocol_error : ProtocolError → Bytes
show_protocol_error invalid_request = codes "Invalid request format"
show_protocol_error invalid_response = codes "Invalid response format"
show_protocol_error url_too_long = codes "URL too long"
show_protocol_error payload_too_large = codes "Payload too large"

unfoldable pub effective_ttl_secs : ℤ → ℕ → ℕ
effective_ttl_secs (negsuc n) config_cap_secs = 0
effective_ttl_secs (pos server_max_age) config_cap_secs = min server_max_age config_cap_secs

-- `checked_sub` and `unwrap_or`: a time before the fetch leaves nothing.
unfoldable pub remaining : Hit → ℕ → ℕ
remaining hit now = if leb hit.fetched_at now then hit.max_age - (now - hit.fetched_at) else 0

-- A hit in the state of the browser's copy
unfoldable pub same_etag : Option Bytes → Bytes → Bool
same_etag none etag = false
same_etag (some e) etag = equal e etag

unfoldable pub update_cache : (Cache → Cache) → Front → Front
update_cache change f = record f { cache = Option.map change f.cache }

-- What a failed request shows.
unfoldable pub request_error_page : Texts → AgwpeError → Page
unfolding show_error
request_error_page texts needs_reconsent =
    session_error_page
      (codes "Session dropped and the disclaimer text changed. Please reconnect and re-consent.")
request_error_page texts (session_died reason) =
    session_error_page (codes "Session lost: " ++ reason ++ codes ". Please reconnect.")
request_error_page texts disconnected_by_operator =
    session_error_page (codes "Request cancelled by operator disconnect.")
request_error_page texts e = error_page (codes "Request failed: " ++ show_error texts e)

module _ (web : Web) where
  unfoldable pub show_rewritten : Bytes → Bytes → ℕ → Result Bytes Bytes → Page
  show_rewritten url etag ttl (err e) = error_page (codes "Failed to rewrite HTML: " ++ e)
  show_rewritten url etag ttl (ok rewritten) = browse_page rewritten url etag ttl

  unfoldable pub show_text : Bytes → Bytes → Bytes → ℕ → Option Bytes → Page
  unfolding show_rewritten
  show_text utf8_error url etag ttl none = error_page utf8_error
  show_text utf8_error url etag ttl (some html) =
      show_rewritten url etag ttl (web.rewrite_html html url)

  unfoldable pub show_decompressed : Bytes → Bytes → Bytes → ℕ → Result Bytes Bytes → Page
  unfolding show_text
  show_decompressed utf8_error url etag ttl (err e) =
      error_page (codes "Decompression failed: " ++ e)
  show_decompressed utf8_error url etag ttl (ok d) = show_text utf8_error url etag ttl (from_utf8 d)

  -- Decompressed, as text, rewritten; the first failure is the error page.
  unfoldable pub rewritten_page : Bytes → Bytes → Bytes → Bytes → ℕ → Page
  unfolding show_decompressed
  rewritten_page utf8_error url etag compressed ttl =
      show_decompressed utf8_error url etag ttl (web.brotli_decompress compressed)

  unfoldable pub serve_from_hit : Hit → Bytes → Page
  unfolding rewritten_page remaining
  serve_from_hit hit url =
      rewritten_page (codes "Invalid UTF-8 in cached response") url hit.etag hit.brotli_body
        (remaining hit web.now)

  -- The text of an `Err` or `Blocked` response
  unfoldable pub text_page : Bytes → Page
  text_page compressed = elim (web.brotli_decompress compressed) [
    | err e ↦ error_page (codes "Decompression failed: " ++ e)
    | ok d ↦ elim (from_utf8 d) [
      | none ↦ error_page (codes "Invalid UTF-8")
      | some text ↦ error_page text
    ]
  ]

  unfoldable pub send : Bytes → Front → Result AgwpeError Bytes × Front
  send encoded f =
      let r =
        if web.auto_reconnect
        then handle_send_request_with_reconnect web.texts encoded f.drive
        else handle_send_request web.texts encoded f.drive in
      (r.0, record f { drive = r.1 })

  -- The hit behind a revalidation
  unfoldable pub serve_lookup : Bytes → Option Cache → Page
  unfolding serve_from_hit
  serve_lookup url none =
      error_page (codes "Server sent NotModified but no cache entry is available")
  serve_lookup url (some c) = elim (lookup url c) [
    | some hit ↦ serve_from_hit hit url
    | none ↦ error_page (codes "Server sent NotModified but no cache entry is available")
  ]

  unfoldable pub on_not_modified : Bytes → Option Bytes → Bool → Bytes → Front → Page × Front
  unfolding serve_lookup update_cache same_etag
  on_not_modified url cached_etag writes etag f =
      if writes
      then if same_etag cached_etag etag
        then (
          serve_lookup url (update_cache (touch_fresh web.sql url web.now) f).cache,
          update_cache (touch_fresh web.sql url web.now) f,
        )
        else (error_page (codes "Server sent NotModified but no cache entry is available"), f)
      else (error_page (codes "Server sent NotModified but no cache entry is available"), f)

  unfoldable pub on_ok : Bytes → Bool → Header → Result ProtocolError Bytes → Front → Page × Front
  unfolding rewritten_page update_cache effective_ttl_secs show_protocol_error
  on_ok url writes h (err e) f =
      (error_page (codes "Base64 decode failed: " ++ show_protocol_error e), f)
  on_ok url writes h (ok compressed) f = (
    rewritten_page (codes "Invalid UTF-8 in response") url h.etag compressed
        (effective_ttl_secs h.max_age web.cache_max_ttl),
    if writes then update_cache (insert web.sql url h.etag compressed h.max_age web.now) f else f,
  )

  unfoldable pub on_error : Result ProtocolError Bytes → Page
  unfolding text_page show_protocol_error
  on_error (err e) = error_page (codes "Base64 decode failed: " ++ show_protocol_error e)
  on_error (ok compressed) = text_page compressed

  -- The `match` on the status, for a payload of this base64 text
  unfoldable pub by_status :
      Status → Bytes → Option Bytes → Bool → Header → Bytes → Front → Page × Front
  unfolding on_not_modified on_ok on_error
  by_status Status.not_modified url cached_etag writes h payload f =
      on_not_modified url cached_etag writes h.etag f
  by_status Status.ok url cached_etag writes h payload f =
      on_ok url writes h (decode_payload web.base64 payload) f
  by_status Status.err url cached_etag writes h payload f =
      (on_error (decode_payload web.base64 payload), f)
  by_status Status.blocked url cached_etag writes h payload f =
      (on_error (decode_payload web.base64 payload), f)

  unfoldable pub on_header :
      Bytes
      → Option Bytes
      → Bool
      → Bytes
      → Result ProtocolError (Option Header)
      → Front
      → Page × Front
  unfolding by_status show_protocol_error
  on_header url cached_etag writes data_in (err e) f =
      (error_page (codes "Invalid response header: " ++ show_protocol_error e), f)
  on_header url cached_etag writes data_in (ok none) f =
      (error_page (codes "Incomplete response header"), f)
  on_header url cached_etag writes data_in (ok (some h)) f =
      if ltb (length data_in) (h.header_end + h.payload_len)
      then (error_page (codes "Incomplete response payload"), f)
      else by_status h.status url cached_etag writes h
          (take h.payload_len (drop h.header_end data_in)) f

  unfoldable pub on_sent :
      Bytes → Option Bytes → Bool → Result AgwpeError Bytes × Front → Page × Front
  unfolding on_header request_error_page
  on_sent url cached_etag writes (ok data_in, f) =
      on_header url cached_etag writes data_in (decode_header data_in) f
  on_sent url cached_etag writes (err e, f) = (request_error_page web.texts e, f)

  -- `writes` is whether a cache was passed.
  unfoldable pub dispatch_ax25 : Bytes → Request → Bool → Front → Page × Front
  unfolding send on_sent
  dispatch_ax25 url (get target if_none_match) writes f =
      on_sent url if_none_match writes (send (encode (get target if_none_match)) f)
  dispatch_ax25 url (post target body) writes f =
      on_sent url none writes (send (encode (post target body)) f)

  unfoldable pub cached_etag : Bytes → Bool → Option Cache → Option Bytes
  cached_etag url true cache = none
  cached_etag url false none = none
  cached_etag url false (some c) = elim (lookup url c) [ some hit ↦ some hit.etag | none ↦ none ]

  unfoldable pub if_fresh : Option Hit → Option Hit
  if_fresh none = none
  if_fresh (some hit) = if is_fresh hit web.now then some hit else none

  -- A fresh hit, if the cache may be used
  unfoldable pub fresh_hit : Bytes → Bool → Option Cache → Option Hit
  unfolding if_fresh
  fresh_hit url true cache = none
  fresh_hit url false none = none
  fresh_hit url false (some c) = if_fresh (lookup url c)

  -- From a fresh hit, or over the radio
  unfoldable pub from_cache_or_radio :
      Bytes → Bool → Option Bytes → Option Hit → Front → Page × Front
  unfolding dispatch_ax25 cached_etag serve_from_hit update_cache same_etag
  from_cache_or_radio url nocache browser_if_none_match (some hit) f = (
    if same_etag browser_if_none_match hit.etag
        then still_good hit.etag
        else serve_from_hit hit url,
    update_cache (touch_last_used web.sql url web.now) f,
  )
  from_cache_or_radio url nocache browser_if_none_match none f =
      dispatch_ax25 url (get url (cached_etag url nocache f.cache)) true f

  unfoldable pub connected_browse :
      Bytes → Option Bytes → Bool → Option Bytes → Front → Page × Front
  unfolding from_cache_or_radio fresh_hit
  connected_browse url (some body) nocache browser_if_none_match f =
      dispatch_ax25 url (post url body) false f
  connected_browse url none nocache browser_if_none_match f =
      from_cache_or_radio url nocache browser_if_none_match (fresh_hit url nocache f.cache) f

  unfoldable pub handle_browse : Bytes → Option Bytes → Bool → Option Bytes → Front → Page × Front
  unfolding connected_browse is_connected
  handle_browse url post_body nocache browser_if_none_match f =
      if is_connected f.drive.app.connection_state
      then connected_browse url post_body nocache browser_if_none_match f
      else (to_connect, f)
