-- ===== src/Client/Guard/Admitted.antt =====
-- What the guard lets through.
use packet_browser.Client.Guard.{
  is_loopback, is_unspecified, new, extra_names, strip_port_from_host, ip_text, is_bound, admits_ip,
  admits_name, starts_authority, or_else, origin_matches_host, contains_host_header, origin_passes,
  security_guard, is_v4,
}
use packet_browser.Prelude.{
  Bytes, Bool, true, false, ◌||◌, [], ◌∷◌, ◌++◌, Option, none, some, ◌≡◌, refl, sym, ap, ◌∙◌, ◌⊎◌,
  inl, inr, arith, Bool-cases, Option-cases, &&_split, codes, drop, length,
}
use packet_browser.Server.Filter.Address.{IpAddr, v4, v6}
use packet_browser.Text.Ascii.{to_ascii_lowercase}
use packet_browser.Text.Search.{equal, equal_sound, strip_prefix, starts_with, starts_with_sound}

||_true : (a b : Bool) → (a || b) ≡ true → (a ≡ true) ⊎ (b ≡ true)
||_true true b h = inl refl
||_true false b h = inr h

strip_prefix_sound : (s p rest : Bytes) → strip_prefix s p ≡ some rest → s ≡ p ++ rest
unfolding strip_prefix
strip_prefix_sound s p rest h = elim (Bool-cases (starts_with s p)) [
  | inl hit ↦
      let e : some (drop (length p) s) ≡ some rest = rw hit at h in
      starts_with_sound s p hit ∙ ap (λ x. p ++ x) (mathlib.Core.Option.some-injective _ _ e)
  | inr miss ↦ absurd (let e : none ≡ some rest = rw miss at h in cc)
]

-- The same authority, by http or https
abbrev pub IsSameOrigin : Option Bytes → Bytes → Type 0
IsSameOrigin origin host =
    (origin ≡ some (codes "http://" ++ host)) ⊎ (origin ≡ some (codes "https://" ++ host))

origin_matches_host_sound :
    (o host : Bytes) → origin_matches_host o host ≡ true → IsSameOrigin (some o) host
unfolding origin_matches_host starts_authority
origin_matches_host_sound o host h = elim (Option-cases (strip_prefix o (codes "http://"))) [
  | inr (a, e) ↦
      let t : starts_authority (some a) host ≡ true =
        ap (λ x. starts_authority (or_else x (strip_prefix o (codes "https://"))) host) (sym e)
        ∙ h in
      inl (
        ap some (
          strip_prefix_sound o (codes "http://") a e
          ∙ ap (λ x. codes "http://" ++ x) (equal_sound a host t)))
  | inl none' ↦ elim (Option-cases (strip_prefix o (codes "https://"))) [
    | inr (a, e) ↦
        let t : starts_authority (some a) host ≡ true =
          ap (λ x. starts_authority x host) (sym e)
          ∙ ap (λ x. starts_authority (or_else x (strip_prefix o (codes "https://"))) host)
              (sym none')
          ∙ h in
        inr (
          ap some (
            strip_prefix_sound o (codes "https://") a e
            ∙ ap (λ x. codes "https://" ++ x) (equal_sound a host t)))
    | inl none'' ↦ absurd (
        let t : starts_authority none host ≡ true =
          ap (λ x. starts_authority x host) (sym none'')
          ∙ ap (λ x. starts_authority (or_else x (strip_prefix o (codes "https://"))) host)
              (sym none')
          ∙ h in
        cc)
  ]
]

-- A POST is of the same origin.
pub origin_passes_sound :
    (parse_ip : Bytes → Option IpAddr) (is_post : Bool) (origin : Option Bytes) (host : Bytes)
    → origin_passes parse_ip is_post origin host ≡ true
    → (is_post ≡ false) ⊎ IsSameOrigin origin host
unfolding origin_passes
origin_passes_sound parse_ip false origin host h = inl refl
origin_passes_sound parse_ip true none host h = cc
origin_passes_sound parse_ip true (some o) host h = inr (origin_matches_host_sound o host h)

loopback-not_unspecified : (ip : IpAddr) → is_loopback ip ≡ true → is_unspecified ip ≡ false
unfolding is_loopback is_unspecified is_v4 equal
loopback-not_unspecified (v4 ip) h = ground (arith, h)
loopback-not_unspecified (v6 o) h =
    ap (λ x. equal x (0 ∷ 0 ∷ 0 ∷ 0 ∷ 0 ∷ 0 ∷ 0 ∷ 0 ∷ 0 ∷ 0 ∷ 0 ∷ 0 ∷ 0 ∷ 0 ∷ 0 ∷ 0 ∷ []))
      (equal_sound o _ h)
    ∙ differ
  where
    differ :
        equal
          (0 ∷ 0 ∷ 0 ∷ 0 ∷ 0 ∷ 0 ∷ 0 ∷ 0 ∷ 0 ∷ 0 ∷ 0 ∷ 0 ∷ 0 ∷ 0 ∷ 0 ∷ 1 ∷ [])
          (0 ∷ 0 ∷ 0 ∷ 0 ∷ 0 ∷ 0 ∷ 0 ∷ 0 ∷ 0 ∷ 0 ∷ 0 ∷ 0 ∷ 0 ∷ 0 ∷ 0 ∷ 0 ∷ [])
        ≡ false
    differ = refl

module _ (parse_ip : Bytes → Option IpAddr) where
  -- The name of this machine: a loopback address, or localhost in any case
  abbrev pub IsLocal : Bytes → Type 0
  IsLocal host =
      ((ip : IpAddr) × (parse_ip (ip_text (strip_port_from_host host)) ≡ some ip)
        × (is_loopback ip ≡ true))
      ⊎ (to_ascii_lowercase (strip_port_from_host host) ≡ codes "localhost")

  local_ip :
      (listen_ip ip : IpAddr)
      → is_loopback listen_ip ≡ true
      → admits_ip (new listen_ip []) ip ≡ true
      → is_loopback ip ≡ true
  unfolding admits_ip new is_bound
  local_ip listen_ip ip l h = elim (Bool-cases (is_loopback ip)) [
    | inl yes' ↦ yes'
    | inr no' ↦ absurd (let t = rw (l, loopback-not_unspecified listen_ip l, no') at h in cc)
  ]

  admits_name-IsLocal :
      (listen_ip : IpAddr) (host : Bytes) (parsed : Option IpAddr)
      → is_loopback listen_ip ≡ true
      → parse_ip (ip_text (strip_port_from_host host)) ≡ parsed
      → admits_name (new listen_ip []) (strip_port_from_host host) parsed ≡ true
      → IsLocal host
  unfolding admits_name new extra_names
  admits_name-IsLocal listen_ip host (some ip) l e h = inl (ip, e, local_ip listen_ip ip l h)
  admits_name-IsLocal listen_ip host none l e h =
      elim (||_true (equal (to_ascii_lowercase (strip_port_from_host host)) (codes "localhost"))
        false h) [ inl same ↦ inr (equal_sound _ _ same) | inr no' ↦ absurd (cc) ]

  -- While the client listens on a loopback address and no hostname is added, a request that comes
  -- through names this machine in its `Host`, by a loopback address or as localhost, and a POST
  -- comes from a page of that very host and port.
  pub security_guard_sound :
      (listen_ip : IpAddr) (host : Option Bytes) (is_post : Bool) (origin : Option Bytes)
      → is_loopback listen_ip ≡ true
      → security_guard parse_ip (new listen_ip []) host is_post origin ≡ true
      → (h : Bytes) × (host ≡ some h) × IsLocal h × ((is_post ≡ false) ⊎ IsSameOrigin origin h)
  unfolding security_guard contains_host_header
  security_guard_sound listen_ip none is_post origin l h = cc
  security_guard_sound listen_ip (some host) is_post origin l h =
      let (named, passed) = &&_split _ _ h in
      (
        host,
        refl,
        admits_name-IsLocal listen_ip host (parse_ip (ip_text (strip_port_from_host host))) l refl
            named,
        origin_passes_sound parse_ip is_post origin host passed,
      )
