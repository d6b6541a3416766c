-- ===== src/Server/Fetch.antt =====
-- `handle_request` of server/src/main.rs: a page is fetched, compared with the client's tag, and
-- answered.
pub mod Answers
use packet_browser.Prelude.Int.{ℤ, negsuc}
use packet_browser.Prelude.{
  ℕ, Bytes, Bool, true, false, List, [], ◌∷◌, ◌++◌, Option, none, some, Result, if◌then◌else◌,
  codes,
}
use packet_browser.Protocol.Types.{Status, Response}
use packet_browser.Server.Blocklist.{DomainBlocklist}
use packet_browser.Server.Filter.{
  UrlError, blocked_protocol, blocked_host, unresolvable_host, invalid_url, Net, validate_url,
}
use packet_browser.Text.Search.{equal}

-- server/src/logger.rs, without the time stamps.
pub data LogStatus : Type 0 where
  ok blocked error agreed : LogStatus

pub record LogEntry : Type 0 where
  pub call : Bytes
  pub url : Bytes
  pub status : LogStatus
  pub reason : Option Bytes

-- What one `fetch_page` gives: the page, the loss of the browser, or another error's text.
pub data PageResult : Type 0 where
  page : Bytes → PageResult
  crashed : PageResult
  failed : Bytes → PageResult

-- The code that this function calls and that is not modelled: the resolver, the `brotli` and `sha2`
-- crates, and the browser, by what its launches and page loads will give.
pub record World : Type 0 where
  pub net : Net
  pub blocklist : DomainBlocklist
  pub blocked_ranges : List Bytes
  pub default_max_age : ℤ
  pub brotli_quality : ℕ
  pub brotli_compress : Bytes → ℕ → Option Bytes
  pub sanitized_html_etag : Bytes → Bytes
  -- the value that the probe's thread found, unless it panicked
  pub probe : Bytes → Option ℤ
  pub launches : List Bool
  pub pages : List PageResult
  -- the error of writing to the stream, if it fails
  pub write_error : Option Bytes

pub record Connection : Type 0 where
  pub callsign : Bytes
  pub current_url : Option Bytes
  pub has_browser : Bool
  pub log : List LogEntry
  pub sent : List Response

-- `Display` of a `UrlError`
unfoldable pub message_of : UrlError → Bytes
message_of (blocked_protocol s) = codes "Blocked protocol: " ++ s
message_of (blocked_host s) = codes "Blocked host: " ++ s
message_of (unresolvable_host s) = codes "Host could not be resolved: " ++ s
message_of invalid_url = codes "Invalid URL"

unfoldable pub statuses_of : UrlError → Status × LogStatus
statuses_of (blocked_protocol s) = (Status.blocked, LogStatus.blocked)
statuses_of (blocked_host s) = (Status.blocked, LogStatus.blocked)
statuses_of (unresolvable_host s) = (Status.err, LogStatus.error)
statuses_of invalid_url = (Status.err, LogStatus.error)

-- The page, the end of the browser, an error, or no answer yet.
pub data Loaded : Type 0 where
  html : Bytes → Loaded
  unavailable : Loaded
  load_error : Bytes → Loaded
  loading : Loaded

-- The loop with a browser at hand; a lost browser is started again, as often as it is lost.
unfoldable pub load : List PageResult → List Bool → Loaded
load [] launches = loading
load (page s ∷ pages) launches = html s
load (failed e ∷ pages) launches = load_error e
load (crashed ∷ pages) [] = loading
load (crashed ∷ pages) (true ∷ launches) = load pages launches
load (crashed ∷ pages) (false ∷ launches) = unavailable

unfoldable pub load_page : Bool → List PageResult → List Bool → Loaded
unfolding load
load_page true pages launches = load pages launches
load_page false pages [] = loading
load_page false pages (true ∷ launches) = load pages launches
load_page false pages (false ∷ launches) = unavailable

abbrev pub Handled : Type 0
Handled = Result Bytes Unit × Connection

module _ (world : World) where
  -- `write_all` and `flush`, whose errors go to the caller
  unfoldable pub send : Response → Connection → Handled
  send response c = elim world.write_error [
    | none ↦ (Result.ok tt, record c { sent = c.sent ++ response ∷ [] })
    | some e ↦ (Result.err e, c)
  ]

  unfoldable pub or_plain : Option Bytes → Bytes → Bytes
  or_plain (some compressed) message = compressed
  or_plain none message = message

  unfoldable pub status_response : Status → Bytes → Response
  unfolding or_plain
  status_response status message = record {
    status = status;
    etag = codes "-";
    max_age = negsuc 0;
    payload = or_plain (world.brotli_compress message 11) message;
  }

  unfoldable pub send_status_response : Status → Bytes → Connection → Handled
  unfolding send status_response
  send_status_response status message c = send (status_response status message) c

  unfoldable pub send_error_response : Bytes → Connection → Handled
  unfolding send_status_response
  send_error_response message c = send_status_response Status.err message c

  abbrev pub logged : Bytes → LogStatus → Option Bytes → Connection → Connection
  logged url status reason c = record c {
    log = c.log ++ record { call = c.callsign; url = url; status = status; reason = reason } ∷ [];
  }

  unfoldable pub reject : Bytes → UrlError → Connection → Handled
  unfolding send_status_response
  reject url e c =
      send_status_response (statuses_of e).0 (message_of e)
        (logged url (statuses_of e).1 (some (message_of e)) c)

  abbrev pub max_age_of : Bytes → ℤ
  max_age_of url = elim (world.probe url) [ some n ↦ n | none ↦ world.default_max_age ]

  abbrev pub matches : Option Bytes → Bytes → Bool
  matches none etag = false
  matches (some e) etag = equal e etag

  -- The answer with a page at hand.
  unfoldable pub answer_page : Bytes → Option Bytes → Bytes → Connection → Handled
  unfolding send send_error_response
  answer_page url if_none_match s c =
      let etag = world.sanitized_html_etag s in
      if matches if_none_match etag
      then send
          (record {
            status = Status.not_modified;
            etag = etag;
            max_age = max_age_of url;
            payload = [];
          })
          c
      else elim (world.brotli_compress s world.brotli_quality) [
        | none ↦ send_error_response (codes "Compression error") c
        | some compressed ↦
            send
              (record {
                status = Status.ok;
                etag = etag;
                max_age = max_age_of url;
                payload = compressed;
              })
              c
      ]

  -- The answer to what the browser gave; `none` while it gives nothing.
  unfoldable pub answer : Bytes → Option Bytes → Loaded → Connection → Option Handled
  unfolding answer_page send_error_response
  answer url if_none_match (html s) c = some (
      answer_page url if_none_match s
        (record (logged url LogStatus.ok none c) { current_url = some url; has_browser = true }))
  answer url if_none_match unavailable c =
      some (send_error_response (codes "Browser unavailable") (record c { has_browser = false }))
  answer url if_none_match (load_error e) c = some (
      send_error_response (codes "Failed to load page")
        (logged url LogStatus.error (some e) (record c { has_browser = true })))
  answer url if_none_match loading c = none

  unfoldable pub handle_request : Bytes → Option Bytes → Connection → Option Handled
  unfolding reject answer load_page
  handle_request url if_none_match c =
      elim (validate_url world.net world.blocklist world.blocked_ranges url) [
        | Result.err e ↦ some (reject url e c)
        | Result.ok _ ↦
            answer url if_none_match (load_page c.has_browser world.pages world.launches) c
      ]
