-- ===== src/Tests/Browse.antt =====
-- The theorems on client/src/proxy.rs at concrete inputs.
use packet_browser.Client.Cache.{Cache}
use packet_browser.Client.Consent.{api_consent_post, api_consent_post_once}
use packet_browser.Client.Front.{Page, Web, Front, handle_browse}
use packet_browser.Client.Session.Arrival.{delivered}
use packet_browser.Client.Session.Reconnect.{ask_operator}
use packet_browser.Client.Session.{dropped}
use packet_browser.Prelude.Int.{pos}
use packet_browser.Prelude.{
  Bytes, true, false, List, [], ◌∷◌, none, some, ok, ◌≡◌, codes, take, drop, if◌then◌else◌,
}
use packet_browser.Protocol.Request.{encode}
use packet_browser.Protocol.Response as Response_
use packet_browser.Protocol.Types.{Response, Status}
use packet_browser.Tests.Drive.{plain_texts, drive_of}
use packet_browser.Tests.Pages.{in_order}
use packet_browser.Tests.Wire.{hex}
use mathlib.Core.Option

abbrev plain_web : Web
plain_web = record {
  texts = plain_texts;
  base64 = hex;
  sql = in_order;
  brotli_decompress = λ s. ok s;
  rewrite_html = λ html url. ok html;
  auto_reconnect = true;
  cache_max_ttl = 600;
  now = 5;
}

abbrev home_page : Response
home_page = record {
  status = Status.ok;
  etag = codes "abcdefgh_-012345";
  max_age = pos 60;
  payload = codes "Hi";
}

abbrev home_url : Bytes
home_url = codes "http://h"

abbrev page_bytes : Bytes
page_bytes = Response_.encode hex home_page

abbrev empty_cache : Cache
empty_cache = record { rows = []; cap_bytes = 100; max_ttl = 600 }

abbrev first_front : Front
first_front = record {
  drive = drive_of dropped (delivered (take 7 page_bytes) ∷ delivered (drop 7 page_bytes) ∷ []);
  cache = some empty_cache;
}

abbrev pieces : List Bytes
pieces = take 7 page_bytes ∷ drop 7 page_bytes ∷ []

abbrev second_front : Front
second_front = record {
  drive = drive_of dropped [];
  cache = (handle_browse plain_web home_url none false none first_front).1.cache;
}

api_consent_post_once_example :
    let asked = (ask_operator (codes "Logged.") (drive_of dropped [])).1 in
    let first = api_consent_post true true asked in
    let second = api_consent_post true false first.1 in
    (first.1.app.last_agreed_disclaimer
      ≡ (if true then some (codes "Logged.") else (drive_of dropped []).app.last_agreed_disclaimer))
    × (second.1 ≡ first.1)
    × (second.0.ok ≡ false)
api_consent_post_once_example =
    api_consent_post_once (codes "Logged.") true true false (drive_of dropped [])
