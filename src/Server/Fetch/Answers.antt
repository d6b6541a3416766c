-- ===== src/Server/Fetch/Answers.antt =====
-- Which answer `handle_request` sends, against a description that does not follow the code.
use packet_browser.Prelude.{
  ◌≡◌, ◌≢◌, refl, sym, ap, Bytes, Bool, true, false, [], ◌∷◌, ◌++◌, Option, none, some, Result,
  Result-cases, inl, inr, Bool-cases, Option-cases, codes,
}
use packet_browser.Protocol.Types.{Status, Response}
use packet_browser.Server.Fetch.{
  World, Connection, message_of, statuses_of, Loaded, html, unavailable, load_error, loading,
  load_page, Handled, send, status_response, send_status_response, send_error_response, reject,
  max_age_of, matches, answer_page, answer, handle_request,
}
use packet_browser.Server.Filter.{UrlError, validate_url}
use packet_browser.Text.Search.{equal_sound, equal_refl}
use mathlib.Core.Path.{subst}

-- The answers to a request for a URL, by what the world gives: a refusal if the filter refuses; a
-- page that loaded, compressed, or only its tag if that is the tag the client has; an error that
-- names the step that failed: the start of the browser, the load, or the compression.
pub data Answered (world : World) (url : Bytes) (if_none_match : Option Bytes) (has_browser : Bool)
    : Response → Type 0 where
  refused :
      (e : UrlError)
      → validate_url world.net world.blocklist world.blocked_ranges url ≡ Result.err e
      → Answered world url if_none_match has_browser
          (status_response world (statuses_of e).0 (message_of e))
  fresh :
      (s compressed : Bytes)
      → validate_url world.net world.blocklist world.blocked_ranges url ≡ Result.ok tt
      → load_page has_browser world.pages world.launches ≡ html s
      → if_none_match ≢ some (world.sanitized_html_etag s)
      → world.brotli_compress s world.brotli_quality ≡ some compressed
      → Answered world url if_none_match has_browser (record {
        status = Status.ok;
        etag = world.sanitized_html_etag s;
        max_age = max_age_of world url;
        payload = compressed;
      })
  unchanged :
      (s : Bytes)
      → validate_url world.net world.blocklist world.blocked_ranges url ≡ Result.ok tt
      → load_page has_browser world.pages world.launches ≡ html s
      → if_none_match ≡ some (world.sanitized_html_etag s)
      → Answered world url if_none_match has_browser (record {
        status = Status.not_modified;
        etag = world.sanitized_html_etag s;
        max_age = max_age_of world url;
        payload = [];
      })
  incompressible :
      (s : Bytes)
      → validate_url world.net world.blocklist world.blocked_ranges url ≡ Result.ok tt
      → load_page has_browser world.pages world.launches ≡ html s
      → if_none_match ≢ some (world.sanitized_html_etag s)
      → world.brotli_compress s world.brotli_quality ≡ none
      → Answered world url if_none_match has_browser
          (status_response world Status.err (codes "Compression error"))
  no_browser :
      validate_url world.net world.blocklist world.blocked_ranges url ≡ Result.ok tt
      → load_page has_browser world.pages world.launches ≡ unavailable
      → Answered world url if_none_match has_browser
          (status_response world Status.err (codes "Browser unavailable"))
  not_loaded :
      (text : Bytes)
      → validate_url world.net world.blocklist world.blocked_ranges url ≡ Result.ok tt
      → load_page has_browser world.pages world.launches ≡ load_error text
      → Answered world url if_none_match has_browser
          (status_response world Status.err (codes "Failed to load page"))

-- One answer more was sent, and it is the right one.
pub record Answers (world : World) (url : Bytes) (if_none_match : Option Bytes) (c : Connection)
    (handled : Handled) : Type 0 where
  pub response : Response
  pub succeeded : handled.0 ≡ Result.ok tt
  pub sent_is : handled.1.sent ≡ c.sent ++ response ∷ []
  pub right : Answered world url if_none_match c.has_browser response

module _ (world : World) (url : Bytes) (if_none_match : Option Bytes)
    (writes : world.write_error ≡ none) where
  pub send_lem :
      (response : Response) (c : Connection)
      → send world response c ≡ (Result.ok tt, record c { sent = c.sent ++ response ∷ [] })
  unfolding send
  send_lem response c = rw (writes, send) refl

  -- Sending a response that the description allows; the connection may have logged meanwhile.
  send-Answers :
      (response : Response) (c later : Connection)
      → later.sent ≡ c.sent
      → Answered world url if_none_match c.has_browser response
      → Answers world url if_none_match c (send world response later)
  send-Answers response c later same right =
      subst (Answers world url if_none_match c) (sym (send_lem response later)) (record {
        response = response;
        succeeded = refl;
        sent_is = ap (λ s. s ++ response ∷ []) same;
        right = right;
      })

  matches_sound : (o : Option Bytes) (etag : Bytes) → matches world o etag ≡ true → o ≡ some etag
  matches_sound none etag h = absurd (cc h)
  matches_sound (some e) etag h = ap some (equal_sound e etag h)

  matches_complete :
      (o : Option Bytes) (etag : Bytes) → matches world o etag ≡ false → o ≢ some etag
  matches_complete o etag h e =
      let hit : matches world (some etag) etag ≡ false =
        subst (λ x. matches world x etag ≡ false) e h in
      absurd (cc (equal_refl etag, hit))

  answer_page-Answers :
      (s : Bytes) (c later : Connection)
      → later.sent ≡ c.sent
      → validate_url world.net world.blocklist world.blocked_ranges url ≡ Result.ok tt
      → load_page c.has_browser world.pages world.launches ≡ html s
      → Answers world url if_none_match c (answer_page world url if_none_match s later)
  unfolding answer_page send_error_response send_status_response
  answer_page-Answers s c later same valid loaded =
      let etag = world.sanitized_html_etag s in
      elim (Bool-cases (matches world if_none_match etag)) [
        | inl hit ↦ rw hit (
            send-Answers _ c later same
              (unchanged s valid loaded (matches_sound if_none_match etag hit)))
        | inr miss ↦ elim (Option-cases (world.brotli_compress s world.brotli_quality)) [
          | inl lost ↦ rw miss (
              rw lost (
                send-Answers _ c later same
                  (incompressible s valid loaded (matches_complete if_none_match etag miss) lost)))
          | inr (compressed, e) ↦ rw miss (
              rw e (
                send-Answers _ c later same
                  (fresh s compressed valid loaded (matches_complete if_none_match etag miss) e)))
        ]
      ]

  answer-Answers :
      (loaded : Loaded) (c : Connection)
      → load_page c.has_browser world.pages world.launches ≡ loaded
      → loaded ≢ loading
      → validate_url world.net world.blocklist world.blocked_ranges url ≡ Result.ok tt
      → (h : Handled) × (answer world url if_none_match loaded c ≡ some h)
        × Answers world url if_none_match c h
  unfolding answer send_error_response send_status_response
  answer-Answers (html s) c e done valid = (_, refl, answer_page-Answers s c _ refl valid e)
  answer-Answers unavailable c e done valid =
      (_, refl, send-Answers _ c _ refl (no_browser valid e))
  answer-Answers (load_error t) c e done valid =
      (_, refl, send-Answers _ c _ refl (not_loaded t valid e))
  answer-Answers loading c e done valid = absurd (done refl)

  -- When the stream can be written and the browser comes to an end with the page, `handle_request`
  -- returns without an error and has sent one response, the one that the description allows:
  -- `NotModified` only for the tag of the page that was loaded now, a page only with its own tag
  -- and only if the client does not have it, a refusal exactly by the filter's error, and another
  -- error only with the text of the step that failed: browser, load or compression.
  pub handle_request-Answers :
      (c : Connection)
      → load_page c.has_browser world.pages world.launches ≢ loading
      → (h : Handled) × (handle_request world url if_none_match c ≡ some h)
        × Answers world url if_none_match c h
  unfolding handle_request reject send_status_response
  handle_request-Answers c done =
      elim (Result-cases (validate_url world.net world.blocklist world.blocked_ranges url)) [
        | inl (tt, valid) ↦
            rw (valid, handle_request)
              (answer-Answers (load_page c.has_browser world.pages world.launches) c refl done
                valid)
        | inr (e, refusal) ↦
            rw (refusal, handle_request) (_, refl, send-Answers _ c _ refl (refused e refusal))
      ]
