-- ===== src/Server/Filter.antt =====
-- server/src/filter.rs: which addresses and URLs the server may fetch.
pub mod Address
pub mod Ranges
pub mod Safety
use packet_browser.Prelude.{
  ℕ, Bytes, Bool, true, false, ◌||◌, List, [], ◌∷◌, ◌++◌, Option, none, some, Result, ok, err,
  if◌then◌else◌, any, codes,
}
use packet_browser.Server.Blocklist.{DomainBlocklist, is_domain_blocked}
use packet_browser.Server.Filter.Address.{
  IpAddr, v4, v6, Ipv4Addr, Ipv6Addr, parse_ipv4, show_ipv4, ip_is_blocked,
}
use packet_browser.Text.Ascii.{to_ascii_lowercase}
use packet_browser.Text.Search.{equal, strip_prefix}
use mathlib.Core.List.{reverse}
use mathlib.Core.Option

pub data UrlError : Type 0 where
  blocked_protocol blocked_host unresolvable_host : Bytes → UrlError
  invalid_url : UrlError

unfoldable pub blocked_hostnames : List Bytes
blocked_hostnames =
    codes "localhost"
    ∷ codes "localhost.localdomain"
    ∷ codes "ip6-localhost"
    ∷ codes "ip6-loopback"
    ∷ codes "broadcasthost"
    ∷ []

pub data Host : Type 0 where
  domain : Bytes → Host
  ipv4_host : Ipv4Addr → Host
  ipv6_host : Ipv6Addr → Host

-- What the code reads of a `url::Url`.
pub record Url : Type 0 where
  pub scheme : Bytes
  pub host : Option Host
  pub port_or_known_default : Option ℕ

-- The `url` crate, the resolver, and the text form of IPv6 addresses.
pub record Net : Type 0 where
  pub parse_url : Bytes → Option Url
  pub to_socket_addrs : Bytes → ℕ → Option (List IpAddr)
  pub parse_ipv6 : Bytes → Option Ipv6Addr
  pub show_ipv6 : Ipv6Addr → Bytes

module _ (net : Net) where
  unfoldable pub show_ip : IpAddr → Bytes
  show_ip (v4 ip) = show_ipv4 ip
  show_ip (v6 ip) = net.show_ipv6 ip

  -- `parse::<IpAddr>`
  unfoldable pub parse_ip : Bytes → Option IpAddr
  parse_ip s = elim (parse_ipv4 s) [
    | some ip ↦ some (v4 ip)
    | none ↦ Option.map v6 (net.parse_ipv6 s)
  ]

  -- `strip_prefix('[')` and `strip_suffix(']')`
  unfoldable pub strip_brackets : Bytes → Option Bytes
  strip_brackets host = elim (strip_prefix host (codes "[")) [
    | some s ↦ Option.map reverse (strip_prefix (reverse s) (codes "]"))
    | none ↦ none
  ]

  -- An address literal, with or without brackets.
  unfoldable pub literal : Bytes → Option IpAddr
  unfolding parse_ip strip_brackets
  literal host = elim (parse_ip host) [
    | some ip ↦ some ip
    | none ↦ elim (strip_brackets host) [ some inner ↦ parse_ip inner | none ↦ none ]
  ]

  abbrev pub resolves_to : Bytes → IpAddr → Bytes
  resolves_to host ip = host ++ codes " (resolves to " ++ show_ip ip ++ codes ")"

  abbrev pub is_blocked_name : DomainBlocklist → Bytes → Bool
  is_blocked_name blocklist name =
      any (equal name) blocked_hostnames || is_domain_blocked blocklist name

  -- The first answer of the resolver, or the refusal.
  unfoldable pub pin_first : List Bytes → Bytes → Option (List IpAddr) → Result UrlError IpAddr
  pin_first ranges host none = err (unresolvable_host host)
  pin_first ranges host (some []) = err (unresolvable_host host)
  pin_first ranges host (some (first ∷ others)) =
      if ip_is_blocked ranges first then err (blocked_host (resolves_to host first)) else ok first

  unfoldable pub resolve_and_pin : DomainBlocklist → List Bytes → Bytes → ℕ → Result UrlError IpAddr
  unfolding literal pin_first
  resolve_and_pin blocklist ranges host port =
      let host_lc = to_ascii_lowercase host in
      if is_blocked_name blocklist host_lc
      then err (blocked_host host_lc)
      else elim (literal host) [
        | some ip ↦ if ip_is_blocked ranges ip then err (blocked_host (show_ip ip)) else ok ip
        | none ↦ pin_first ranges host (net.to_socket_addrs host port)
      ]

  -- Every answer of the resolver, checked in turn.
  unfoldable pub check_all : List Bytes → Bytes → List IpAddr → Result UrlError Unit
  check_all ranges name [] = ok tt
  check_all ranges name (addr ∷ addrs) =
      let rest = check_all ranges name addrs in
      if ip_is_blocked ranges addr then err (blocked_host (resolves_to name addr)) else rest

  unfoldable pub port_or_80 : Option ℕ → ℕ
  port_or_80 none = 80
  port_or_80 (some port) = port

  unfoldable pub check_host : DomainBlocklist → List Bytes → Option ℕ → Host → Result UrlError Unit
  unfolding check_all port_or_80
  check_host blocklist ranges port (domain name) =
      let name_lc = to_ascii_lowercase name in
      if is_blocked_name blocklist name_lc
      then err (blocked_host name_lc)
      else elim (net.to_socket_addrs name (port_or_80 port)) [
        | none ↦ err (unresolvable_host name)
        | some resolved ↦ check_all ranges name resolved
      ]
  check_host blocklist ranges port (ipv4_host ip) =
      if ip_is_blocked ranges (v4 ip) then err (blocked_host (show_ip (v4 ip))) else ok tt
  check_host blocklist ranges port (ipv6_host ip) =
      if ip_is_blocked ranges (v6 ip) then err (blocked_host (show_ip (v6 ip))) else ok tt

  abbrev pub is_web : Bytes → Bool
  is_web scheme = equal scheme (codes "http") || equal scheme (codes "https")

  unfoldable pub validate_url : DomainBlocklist → List Bytes → Bytes → Result UrlError Unit
  unfolding check_host
  validate_url blocklist ranges url = elim (net.parse_url url) [
    | none ↦ err invalid_url
    | some parsed ↦
        if is_web parsed.scheme
        then elim parsed.host [
          | none ↦ err invalid_url
          | some host ↦ check_host blocklist ranges parsed.port_or_known_default host
        ]
        else err (blocked_protocol parsed.scheme)
  ]
