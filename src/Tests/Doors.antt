-- ===== src/Tests/Doors.antt =====
-- The theorem on the guard of client/src/proxy.rs at a concrete input.
use packet_browser.Client.Guard.Admitted.{IsLocal, IsSameOrigin, security_guard_sound}
use packet_browser.Client.Guard.{
  new, is_loopback, security_guard, contains_host_header, admits_ip, origin_passes,
  origin_matches_host, starts_authority, admits_name, strip_port_from_host, bracketed, before_last,
  extra_names, ip_text, inner_name,
}
use packet_browser.Prelude.{
  Bytes, true, false, some, none, Option, ◌≡◌, refl, ◌⊎◌, codes, if◌then◌else◌,
}
use packet_browser.Server.Filter.Address.{IpAddr, v4}
use packet_browser.Text.Search.{equal, strip_prefix, starts_with, position}
use packet_browser.Text.Ascii.{lower}

abbrev this_machine : IpAddr
this_machine = v4 (record { o0 = 127; o1 = 0; o2 = 0; o3 = 1 })

-- A parser that knows one address
abbrev parse_local : Bytes → Option IpAddr
parse_local s = if equal s (codes "127.0.0.1") then some this_machine else none

security_guard_sound_example :
    (h : Bytes) × (some (codes "127.0.0.1:8080") ≡ some h)
    × IsLocal parse_local h
    × ((true ≡ false) ⊎ IsSameOrigin (some (codes "http://127.0.0.1:8080")) h)
unfolding admits_ip new is_loopback security_guard contains_host_header origin_passes
    origin_matches_host starts_authority admits_name strip_port_from_host bracketed before_last
    extra_names ip_text inner_name equal strip_prefix starts_with position lower
security_guard_sound_example =
    security_guard_sound parse_local this_machine (some (codes "127.0.0.1:8080")) true
      (some (codes "http://127.0.0.1:8080")) refl refl
