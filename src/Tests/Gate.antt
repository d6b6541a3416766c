-- ===== src/Tests/Gate.antt =====
-- The theorems on the filter, the admission and the caching headers of server/src at concrete
-- inputs.
use packet_browser.Prelude.Int.{ℤ, pos}
use packet_browser.Prelude.{
  ℕ, ◌+◌, ◌-◌, ◌^◌, ◌≤◌, ◌<◌, ◌≡◌, ◌↔◌, refl, Bytes, true, false, List, [], ◌∷◌, none, some, ok,
  codes, arith, if◌then◌else◌,
}
use packet_browser.Server.Admission.Invariant.{IsCounted, run-IsCounted, run_released}
use packet_browser.Server.Admission.{
  Action, incoming, fetch_add, drop_peer, drop_conn, start, run, on_incoming, on_fetch_add,
  on_drop_peer, on_drop_conn, claim_peer, take_out, or_zero,
}
use packet_browser.Server.Blocklist.{DomainBlocklist, is_domain_blocked}
use packet_browser.Server.Filter.Address.{
  Ipv4Addr, IpAddr, v4, to_bits, masked, is_ipv4_in_cidr, ip_is_blocked, range_blocks, parse_range,
  parse_ipv4,
}
use packet_browser.Server.Filter.Ranges.{is_ipv4_in_cidr_iff}
use packet_browser.Server.Filter.Safety.{
  Validated, resolve_and_pin_sound, validate_url_sound, resolve_and_pin-validate_url,
}
use packet_browser.Server.Filter.{
  domain, Net, is_blocked_name, resolve_and_pin, literal, validate_url, blocked_hostnames,
}
use packet_browser.Server.OriginCc.Bounds.{IsUsable, parse_cache_control-IsUsable}
use packet_browser.Server.OriginCc.{CcDefaults, ParseHttpDate, parse_cache_control}
use packet_browser.Text.Ascii.{to_ascii_lowercase, lower}
use packet_browser.Text.Decimal.{parse_unsigned}
use packet_browser.Text.Search.{equal, starts_with, strip_prefix, find}
use packet_browser.Text.Split.{split, split_once}

abbrev ip_of : ℕ → ℕ → ℕ → ℕ → Ipv4Addr
ip_of a b c d = record { o0 = a; o1 = b; o2 = c; o3 = d }

-- 172.31.0.1 and 172.16.0.0/12
is_ipv4_in_cidr_iff_example : (is_ipv4_in_cidr (ip_of 172 31 0 1) (ip_of 172 16 0 0) 12 ≡ true) ↔ (
    (masked 12 (to_bits (ip_of 172 16 0 0)) ≤ to_bits (ip_of 172 31 0 1))
    × (to_bits (ip_of 172 31 0 1) < masked 12 (to_bits (ip_of 172 16 0 0)) + 2 ^ (32 - 12)))
is_ipv4_in_cidr_iff_example =
    is_ipv4_in_cidr_iff (ip_of 172 31 0 1) (ip_of 172 16 0 0) 12 (omega arith) (omega arith)
      (omega arith)

abbrev site : IpAddr
site = v4 (ip_of 93 184 216 34)

-- One site, by name; nothing else parses or resolves.
abbrev site_net : Net
site_net = record {
  parse_url = λ s.
      if equal s (codes "http://h.org")
      then some (record {
        scheme = codes "http";
        host = some (domain (codes "h.org"));
        port_or_known_default = some 80;
      })
      else none;
  to_socket_addrs = λ name port. if equal name (codes "h.org") then some (site ∷ []) else none;
  parse_ipv6 = λ s. none;
  show_ipv6 = λ ip. [];
}

abbrev private_ranges : List Bytes
private_ranges = codes "10.0.0.0/8" ∷ []

abbrev blocklist : DomainBlocklist
blocklist = some (codes "ads.example" ∷ [])

resolve_and_pin_sound_example :
    (ip_is_blocked private_ranges site ≡ false)
    × (is_blocked_name site_net blocklist (to_ascii_lowercase (codes "h.org")) ≡ false)
unfolding resolve_and_pin blocked_hostnames equal lower is_domain_blocked parse_ipv4 split
    strip_prefix starts_with ip_is_blocked range_blocks parse_range split_once find parse_unsigned
    is_ipv4_in_cidr
resolve_and_pin_sound_example =
    resolve_and_pin_sound site_net blocklist private_ranges (codes "h.org") 80 {ip = site} refl

validate_url_sound_example : Validated site_net blocklist private_ranges (codes "http://h.org")
unfolding validate_url equal blocked_hostnames lower is_domain_blocked ip_is_blocked range_blocks
    parse_range split_once find starts_with parse_ipv4 split parse_unsigned is_ipv4_in_cidr
validate_url_sound_example =
    validate_url_sound site_net blocklist private_ranges (codes "http://h.org") refl

resolve_and_pin-validate_url_example :
    resolve_and_pin site_net blocklist private_ranges (codes "h.org") 80 ≡ ok site
unfolding validate_url equal blocked_hostnames lower is_domain_blocked ip_is_blocked range_blocks
    parse_range split_once find starts_with parse_ipv4 split parse_unsigned is_ipv4_in_cidr literal
    strip_prefix
resolve_and_pin-validate_url_example =
    resolve_and_pin-validate_url site_net blocklist private_ranges (codes "http://h.org")
      (codes "h.org") site []
      {u = record {
        scheme = codes "http";
        host = some (domain (codes "h.org"));
        port_or_known_default = some 80;
      }}
      refl refl refl refl refl

abbrev visit : List Action
visit = incoming (some site) ∷ fetch_add ∷ incoming none ∷ fetch_add ∷ drop_peer 1 ∷ drop_conn ∷ []

run-IsCounted_example : IsCounted (run visit start)
run-IsCounted_example = run-IsCounted visit

abbrev whole_visit : List Action
whole_visit = incoming (some site) ∷ fetch_add ∷ drop_peer 0 ∷ drop_conn ∷ []

run_released_example :
    ((run whole_visit start).count ≡ 0) × ((ip : IpAddr) → (run whole_visit start).peers ip ≡ none)
unfolding run on_drop_conn on_drop_peer take_out start on_incoming claim_peer or_zero on_fetch_add
run_released_example = run_released whole_visit refl refl refl

abbrev hour : CcDefaults
hour = record { default_max_age = pos 60; max_max_age = pos 3600 }

abbrev no_dates : ParseHttpDate
no_dates s = none

parse_cache_control-IsUsable_example :
    (n : ℤ) × (parse_cache_control no_dates (some (codes "Public, MAX-AGE=9000")) none none hour
      ≡ some n)
    × IsUsable hour n
parse_cache_control-IsUsable_example =
    parse_cache_control-IsUsable no_dates (some (codes "Public, MAX-AGE=9000")) none none hour 3600
      refl (omega arith)
