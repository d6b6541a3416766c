-- ===== src/Tests/Sessions.antt =====
-- The theorems on the server's connections at concrete inputs.
use packet_browser.Prelude.Int.{pos}
use packet_browser.Prelude.{
  ◌≡◌, refl, Bytes, true, false, List, [], ◌∷◌, ◌++◌, none, some, codes, arith, map,
}
use packet_browser.Protocol.Request.{encode, newline}
use packet_browser.Protocol.Types.{Request, get, post}
use packet_browser.Server.Fetch.Answers.{Answers, handle_request-Answers}
use packet_browser.Server.Fetch.{
  World, Connection, Handled, handle_request, page, crashed, load_page,
}
use packet_browser.Server.Filter.Address.{v4}
use packet_browser.Server.Filter.{Net, domain}
use packet_browser.Server.Handshake.Consent.{Consented, handshake_sound}
use packet_browser.Server.Handshake.Ending.{Ending}
use packet_browser.Server.Handshake.{
  Terms, handshake, is_callsign, sort_line, classify_preauth_line,
}
use packet_browser.Server.Reader.Quiet.{Reads, IsQuiet}
use packet_browser.Server.Reader.Requests.{read_request-encode}
use packet_browser.Server.Reader.{
  expiry, Item, byte, wake_up, Input, read_request, read_bounded_line_until, read_until,
}
use packet_browser.Text.Ascii.{trim, upper}
use packet_browser.Text.Search.{equal, starts_with}
use packet_browser.Text.Utf8.{is_utf8, from_utf8}
use packet_browser.Text.Split.{split}

abbrev page_url : Bytes
page_url = codes "http://h"

abbrev page_request : Request
page_request = get page_url (some (codes "e-1"))

-- Bytes that come one by one, with a wake-up after each.
abbrev slow : Bytes → List Item
slow [] = []
slow (c ∷ s) = byte c ∷ wake_up ∷ slow s

slow-IsQuiet : (s : Bytes) → IsQuiet (slow s)
slow-IsQuiet [] = tt
slow-IsQuiet (c ∷ s) = (tt, (tt, slow-IsQuiet s))

abbrev two_requests : List Request
two_requests = page_request ∷ post (codes "u") (1 ∷ 2 ∷ []) ∷ []

read_request-encode_example :
    Reads
      (read_request (record { late = false; items = slow (encode page_request ++ codes "GE") }))
      (some page_request)
      (codes "GE")
unfolding encode is_utf8 starts_with trim
read_request-encode_example =
    read_request-encode page_request (slow (encode page_request ++ codes "GE")) (codes "GE")
      (
        omega arith,
        omega arith,
        refl,
        refl,
        (refl, (refl, (refl, (refl, (refl, (refl, (refl, (refl, tt)))))))),
      )
      (λ e. cc e, omega arith, refl, omega arith) (slow-IsQuiet (encode page_request ++ codes "GE"))
      refl

abbrev net : Net
net = record {
  parse_url = λ s.
      some (record { scheme = codes "http"; host = some (domain s); port_or_known_default = none });
  to_socket_addrs = λ name port. some (v4 (record { o0 = 93; o1 = 184; o2 = 216; o3 = 34 }) ∷ []);
  parse_ipv6 = λ s. none;
  show_ipv6 = λ ip. [];
}

-- The first page load loses the browser.
abbrev world : World
world = record {
  net = net;
  blocklist = none;
  blocked_ranges = [];
  default_max_age = pos 60;
  brotli_quality = 5;
  brotli_compress = λ s q. some s;
  sanitized_html_etag = λ s. codes "e-1";
  probe = λ url. none;
  launches = true ∷ true ∷ [];
  pages = crashed ∷ page (codes "<p>") ∷ [];
  write_error = none;
}

abbrev session : Connection
session = record {
  callsign = codes "W1AW";
  current_url = none;
  has_browser = true;
  log = [];
  sent = [];
}

handle_request-Answers_example :
    (h : Handled) × (handle_request world page_url (some (codes "e-1")) session ≡ some h)
    × Answers world page_url (some (codes "e-1")) session h
unfolding load_page
handle_request-Answers_example =
    handle_request-Answers world page_url (some (codes "e-1")) refl session (λ e. cc e)

-- ASCII letters only.
abbrev terms : Terms
terms = record { to_uppercase = map upper; allowed_callsigns = codes "demousr" ∷ [] }

-- The node repeats the callsign and adds a status line.
abbrev greeting : Input
greeting = record {
  late = false;
  items = slow (
      codes "w1aw-7"
      ++ newline
        ∷ (codes "W1AW" ++ newline ∷ (codes "*** x" ++ newline ∷ (codes "agree" ++ newline ∷ []))));
}

-- A callsign, and then silence until the deadline
abbrev silence : List Item
silence = slow (codes "w1aw-7" ++ newline ∷ []) ++ expiry ∷ wake_up ∷ []

behind_greeting : Input
behind_greeting = record { late = false; items = wake_up ∷ [] }

handshake_sound_example : Consented terms greeting (codes "W1AW") behind_greeting
unfolding handshake behind_greeting read_bounded_line_until read_until from_utf8 is_utf8 is_callsign
    split trim starts_with sort_line classify_preauth_line equal upper
handshake_sound_example =
    handshake_sound terms greeting {callsign = codes "W1AW"} {next = behind_greeting} refl
