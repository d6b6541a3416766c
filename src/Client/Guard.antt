-- ===== src/Client/Guard.antt =====
-- The guard in front of every handler of client/src/proxy.rs: the allowlist of `Host` headers, and
-- the `Origin` of a POST. `parse::<IpAddr>` of the standard library is a parameter.
pub mod Admitted
use packet_browser.Prelude.{
  ℕ, ◌+◌, ◌/◌, Bytes, Bool, true, false, not, ◌&&◌, ◌||◌, List, [], ◌∷◌, ◌++◌, Option, none, some,
  leb, ◌==◌, if◌then◌else◌, take, get_or, any, codes, replicate,
}
use packet_browser.Server.Filter.Address.{Ipv4Addr, IpAddr, v4, v6}
use packet_browser.Text.Ascii.{to_ascii_lowercase, trim}
use packet_browser.Text.Search.{equal, strip_prefix, position}

pub record HostAllowlist : Type 0 where
  pub hostnames : List Bytes
  pub bound_ip : Option IpAddr
  pub allow_lan : Bool

unfoldable pub is_v4 : Ipv4Addr → ℕ → ℕ → ℕ → ℕ → Bool
is_v4 ip a b c d = ip.o0 == a && ip.o1 == b && ip.o2 == c && ip.o3 == d

unfoldable pub is_loopback : IpAddr → Bool
is_loopback (v4 ip) = ip.o0 == 127
is_loopback (v6 o) = equal o (replicate 15 0 ++ 1 ∷ [])

unfoldable pub is_unspecified : IpAddr → Bool
unfolding is_v4
is_unspecified (v4 ip) = is_v4 ip 0 0 0 0
is_unspecified (v6 o) = equal o (replicate 16 0)

unfoldable pub same_ip : IpAddr → IpAddr → Bool
unfolding is_v4
same_ip (v4 a) (v4 b) = is_v4 a b.o0 b.o1 b.o2 b.o3
same_ip (v6 a) (v6 b) = equal a b
same_ip _ _ = false

-- `is_private` and `is_link_local` for v4; fc00::/7 and fe80::/10 for v6, by the leading bits
unfoldable pub is_lan_ip : IpAddr → Bool
is_lan_ip (v4 ip) =
    ip.o0 == 10
    || (ip.o0 == 172 && leb 16 ip.o1 && leb ip.o1 31)
    || (ip.o0 == 192 && ip.o1 == 168)
    || (ip.o0 == 169 && ip.o1 == 254)
is_lan_ip (v6 o) = (get_or o 0 0 / 2 == 126) || (get_or o 0 0 == 254 && get_or o 1 0 / 64 == 2)

-- The extra hostnames, trimmed and in lower case, without empty ones
unfoldable pub extra_names : List Bytes → List Bytes
extra_names [] = []
extra_names (h ∷ hs) =
    let rest = extra_names hs in
    let name = to_ascii_lowercase (trim h) in if equal name [] then rest else name ∷ rest

unfoldable pub new : IpAddr → List Bytes → HostAllowlist
unfolding extra_names
new listen_ip extra_hostnames = record {
  hostnames = codes "localhost" ∷ extra_names extra_hostnames;
  bound_ip =
      if not (is_loopback listen_ip) && not (is_unspecified listen_ip)
      then some listen_ip
      else none;
  allow_lan = is_unspecified listen_ip;
}

-- The first part of `rsplit_once(b)`
unfoldable pub before_last : ℕ → Bytes → Option Bytes
before_last b [] = none
before_last b (c ∷ s) = elim (before_last b s) [
  | some p ↦ some (c ∷ p)
  | none ↦ if c == b then some [] else none
]

-- `strip_suffix(b)`
unfoldable pub strip_last : ℕ → Bytes → Option Bytes
strip_last b [] = none
strip_last b (c ∷ []) = if c == b then some [] else none
strip_last b (c ∷ d ∷ s) = elim (strip_last b (d ∷ s)) [ some p ↦ some (c ∷ p) | none ↦ none ]

abbrev pub unwrap_or : Option Bytes → Bytes → Bytes
unwrap_or none d = d
unwrap_or (some s) d = s

unfoldable pub bracketed : Bytes → Option Bytes → Option Bytes
bracketed host none = none
bracketed host (some rest) = elim (position (λ c. c == b']') rest) [
  | some end' ↦ some (take (end' + 2) host)
  | none ↦ none
]

unfoldable pub strip_port_from_host : Bytes → Bytes
unfolding bracketed before_last
strip_port_from_host host =
    unwrap_or (bracketed host (strip_prefix host (codes "[")))
      (unwrap_or (before_last b':' host) host)

unfoldable pub inner_name : Bytes → Option Bytes → Bytes
unfolding strip_last
inner_name hostname none = hostname
inner_name hostname (some s) = unwrap_or (strip_last b']' s) hostname

-- The name inside brackets, if there are any
unfoldable pub ip_text : Bytes → Bytes
unfolding inner_name
ip_text hostname = inner_name hostname (strip_prefix hostname (codes "["))

unfoldable pub is_bound : Option IpAddr → IpAddr → Bool
is_bound none ip = false
is_bound (some bound) ip = same_ip bound ip

unfoldable pub admits_ip : HostAllowlist → IpAddr → Bool
unfolding is_bound
admits_ip a ip = is_loopback ip || is_bound a.bound_ip ip || (a.allow_lan && is_lan_ip ip)

unfoldable pub admits_name : HostAllowlist → Bytes → Option IpAddr → Bool
unfolding admits_ip
admits_name a hostname (some ip) = admits_ip a ip
admits_name a hostname none = any (equal (to_ascii_lowercase hostname)) a.hostnames

unfoldable pub starts_authority : Option Bytes → Bytes → Bool
starts_authority none host = false
starts_authority (some a) host = equal a host

abbrev pub or_else : Option Bytes → Option Bytes → Option Bytes
or_else none b = b
or_else (some a) b = some a

unfoldable pub origin_matches_host : Bytes → Bytes → Bool
unfolding starts_authority
origin_matches_host origin host =
    starts_authority
      (or_else (strip_prefix origin (codes "http://")) (strip_prefix origin (codes "https://")))
      host

module _ (parse_ip : Bytes → Option IpAddr) where
  unfoldable pub contains_host_header : HostAllowlist → Bytes → Bool
  unfolding admits_name strip_port_from_host ip_text
  contains_host_header a host_header =
      let hostname = strip_port_from_host host_header in
      admits_name a hostname (parse_ip (ip_text hostname))

  unfoldable pub origin_passes : Bool → Option Bytes → Bytes → Bool
  unfolding origin_matches_host
  origin_passes false origin host = true
  origin_passes true none host = false
  origin_passes true (some o) host = origin_matches_host o host

  -- Whether a request goes on to its handler, by its `Host` and, for a POST, its `Origin`.
  unfoldable pub security_guard : HostAllowlist → Option Bytes → Bool → Option Bytes → Bool
  unfolding contains_host_header origin_passes
  security_guard a none is_post origin = false
  security_guard a (some host) is_post origin =
      contains_host_header a host && origin_passes is_post origin host
