-- ===== src/Server/Filter/Safety.antt =====
-- No address in a blocked range gets through the two gates of server/src/filter.rs.
use packet_browser.Prelude.{
  ℕ, ◌≡◌, refl, sym, Bytes, true, false, List, [], ◌∷◌, Option, none, some, ok, inl, inr,
  Bool-cases, Option-cases, All,
}
use packet_browser.Server.Blocklist.{DomainBlocklist}
use packet_browser.Server.Filter.Address.{IpAddr, v4, v6, ip_is_blocked}
use packet_browser.Server.Filter.{
  Host, domain, ipv4_host, ipv6_host, Url, Net, literal, is_blocked_name, pin_first,
  resolve_and_pin, check_all, port_or_80, check_host, is_web, validate_url,
}
use packet_browser.Text.Ascii.{to_ascii_lowercase}
use mathlib.Core.Path.{subst}

module _ (net : Net) (blocklist : DomainBlocklist) (ranges : List Bytes) where
  pin_first_sound :
      (host : Bytes) (answers : Option (List IpAddr)) {ip : IpAddr}
      → pin_first net ranges host answers ≡ ok ip
      → ip_is_blocked ranges ip ≡ false
  unfolding pin_first
  pin_first_sound host none h = absurd (cc h)
  pin_first_sound host (some []) h = absurd (cc h)
  pin_first_sound host (some (first ∷ others)) {ip} h =
      elim (Bool-cases (ip_is_blocked ranges first)) [
        | inl blocked ↦ absurd (cc (rw blocked at h))
        | inr free ↦ let e : first ≡ ip = cc (rw free at h) in rw (sym e) free
      ]

  -- An address that `resolve_and_pin` hands out is in no blocked range, and the name it was asked
  -- for is neither one of the built-in names nor on the blocklist, whatever the resolver answers.
  pub resolve_and_pin_sound :
      (host : Bytes) (port : ℕ) {ip : IpAddr}
      → resolve_and_pin net blocklist ranges host port ≡ ok ip
      → (ip_is_blocked ranges ip ≡ false)
        × (is_blocked_name net blocklist (to_ascii_lowercase host) ≡ false)
  unfolding resolve_and_pin
  resolve_and_pin_sound host port {ip} h =
      elim (Bool-cases (is_blocked_name net blocklist (to_ascii_lowercase host))) [
        | inl listed ↦ absurd (cc (rw listed at h))
        | inr free ↦ (
          elim (Option-cases (literal net host)) [
            | inl name ↦
                pin_first_sound host (net.to_socket_addrs host port) (rw name at (rw free at h))
            | inr (lit, e) ↦ elim (Bool-cases (ip_is_blocked ranges lit)) [
              | inl blocked ↦ absurd (cc (rw (blocked) at (rw e at (rw free at h))))
              | inr good ↦
                  let same : lit ≡ ip = cc (rw good at (rw e at (rw free at h))) in
                  rw (sym same) good
            ]
          ],
          free,
        )
      ]

  check_all_sound :
      (name : Bytes) (addrs : List IpAddr)
      → check_all net ranges name addrs ≡ ok tt
      → All (λ ip. ip_is_blocked ranges ip ≡ false) addrs
  unfolding check_all
  check_all_sound name [] h = tt
  check_all_sound name (a ∷ addrs) h = elim (Bool-cases (ip_is_blocked ranges a)) [
    | inl blocked ↦ absurd (cc (rw blocked at h))
    | inr free ↦ (free, check_all_sound name addrs (rw free at h))
  ]

-- What lets a host through `validate_url`: a name that is on no list, all of whose addresses are
-- free; an address that is free.
abbrev pub IsAllowed : Net → DomainBlocklist → List Bytes → Option ℕ → Host → Type 0
IsAllowed net blocklist ranges port (domain name) =
    (is_blocked_name net blocklist (to_ascii_lowercase name) ≡ false)
    × (addrs : List IpAddr) × (net.to_socket_addrs name (port_or_80 net port) ≡ some addrs)
    × All (λ ip. ip_is_blocked ranges ip ≡ false) addrs
IsAllowed net blocklist ranges port (ipv4_host ip) = ip_is_blocked ranges (v4 ip) ≡ false
IsAllowed net blocklist ranges port (ipv6_host ip) = ip_is_blocked ranges (v6 ip) ≡ false

pub record Validated (net : Net) (blocklist : DomainBlocklist) (ranges : List Bytes) (url : Bytes)
    : Type 0 where
  pub parsed : Url
  pub host : Host
  pub parsed_is : net.parse_url url ≡ some parsed
  pub scheme_is : is_web net parsed.scheme ≡ true
  pub host_is : parsed.host ≡ some host
  pub allowed : IsAllowed net blocklist ranges parsed.port_or_known_default host

module _ (net : Net) (blocklist : DomainBlocklist) (ranges : List Bytes) where
  check_host_sound :
      (port : Option ℕ) (host : Host)
      → check_host net blocklist ranges port host ≡ ok tt
      → IsAllowed net blocklist ranges port host
  unfolding check_host
  check_host_sound port (domain name) h =
      elim (Bool-cases (is_blocked_name net blocklist (to_ascii_lowercase name))) [
        | inl listed ↦ absurd (cc (rw listed at h))
        | inr free ↦ elim (Option-cases (net.to_socket_addrs name (port_or_80 net port))) [
          | inl lost ↦ absurd (cc (rw lost at (rw free at h)))
          | inr (addrs, e) ↦ (
            free,
            addrs,
            e,
            check_all_sound net blocklist ranges name addrs (rw e at (rw free at h)),
          )
        ]
      ]
  check_host_sound port (ipv4_host ip) h = elim (Bool-cases (ip_is_blocked ranges (v4 ip))) [
    | inl blocked ↦ absurd (cc (rw blocked at h))
    | inr free ↦ free
  ]
  check_host_sound port (ipv6_host ip) h = elim (Bool-cases (ip_is_blocked ranges (v6 ip))) [
    | inl blocked ↦ absurd (cc (rw blocked at h))
    | inr free ↦ free
  ]

  -- A URL that `validate_url` accepts is an http or https URL with a host; a host name is neither
  -- built in nor on the blocklist and resolves to free addresses only, and an address is free.
  pub validate_url_sound :
      (url : Bytes)
      → validate_url net blocklist ranges url ≡ ok tt
      → Validated net blocklist ranges url
  unfolding validate_url
  validate_url_sound url h = elim (Option-cases (net.parse_url url)) [
    | inl bad ↦ absurd (cc (rw (bad, validate_url) at h))
    | inr (u, e) ↦ elim (Bool-cases (is_web net u.scheme)) [
      | inr other ↦ absurd (cc (rw other at (rw (e, validate_url) at h)))
      | inl web ↦ elim (Option-cases u.host) [
        | inl bare ↦ absurd (cc (rw bare at (rw web at (rw (e, validate_url) at h))))
        | inr (host, eh) ↦ record {
          parsed = u;
          host = host;
          parsed_is = e;
          scheme_is = web;
          host_is = eh;
          allowed =
              check_host_sound u.port_or_known_default host
                (rw eh at (rw web at (rw (e, validate_url) at h)));
        }
      ]
    ]
  ]

  -- The two gates agree: a host name that is no address literal and that `validate_url` lets
  -- through is pinned by `resolve_and_pin` to the first address, if the resolver still gives the
  -- same answer and that answer is not empty.
  pub resolve_and_pin-validate_url :
      (url name : Bytes) (first : IpAddr) (others : List IpAddr) {u : Url}
      → validate_url net blocklist ranges url ≡ ok tt
      → net.parse_url url ≡ some u
      → u.host ≡ some (domain name)
      → literal net name ≡ none
      → net.to_socket_addrs name (port_or_80 net u.port_or_known_default) ≡ some (first ∷ others)
      → resolve_and_pin net blocklist ranges name (port_or_80 net u.port_or_known_default)
        ≡ ok first
  unfolding resolve_and_pin pin_first
  resolve_and_pin-validate_url url name first others {u} h e eh lit answers =
      let v = validate_url_sound url h in
      let u_is : v.parsed ≡ u = cc (v.parsed_is, e) in
      let host_is : v.host ≡ domain name = cc (v.host_is, u_is, eh) in
      let (free, addrs, found, all_free) =
        subst (IsAllowed net blocklist ranges u.port_or_known_default) host_is (
          subst (λ w. IsAllowed net blocklist ranges w.port_or_known_default v.host) u_is
            v.allowed) in
      let same : addrs ≡ first ∷ others = cc (found, answers) in
      let first_free = (subst (All (λ ip. ip_is_blocked ranges ip ≡ false)) same all_free).0 in
      rw free (rw lit (rw answers (rw first_free refl)))
