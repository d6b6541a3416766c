-- ===== src/Server/Filter/Address.antt =====
-- The addresses of server/src/filter.rs, and the ranges that are out of bounds.
use packet_browser.Prelude.{
  ℕ, ◌+◌, ◌-◌, ◌*◌, ◌/◌, ◌^◌, Bytes, Bool, true, false, ◌&&◌, ◌||◌, not, List, [], ◌∷◌, ◌++◌,
  Option, none, some, leb, ◌==◌, if◌then◌else◌, take, get_or, any, codes, replicate,
}
use packet_browser.Text.Ascii.{is_digit}
use packet_browser.Text.Decimal.{parse_unsigned, to_string}
use packet_browser.Text.Search.{equal}
use packet_browser.Text.Split.{split, split_once}
use packet_browser.Text.Words.{from_be_bytes}

-- Four octets.
pub record Ipv4Addr : Type 0 where
  pub o0 : ℕ
  pub o1 : ℕ
  pub o2 : ℕ
  pub o3 : ℕ

-- Sixteen octets.
abbrev pub Ipv6Addr : Type 0
Ipv6Addr = Bytes

pub data IpAddr : Type 0 where
  v4 : Ipv4Addr → IpAddr
  v6 : Ipv6Addr → IpAddr

unfoldable pub to_bits : Ipv4Addr → ℕ
to_bits ip = from_be_bytes ip.o0 ip.o1 ip.o2 ip.o3

-- Digits only, and no zero in front of another digit.
octet_shape : Bytes → Bool
octet_shape [] = false
octet_shape (c ∷ []) = is_digit c
octet_shape (c ∷ d ∷ s) = is_digit c && not (c == b'0') && not (any (λ x. not (is_digit x)) (d ∷ s))

octet : Bytes → Option ℕ
unfolding octet_shape
octet s = if octet_shape s then parse_unsigned 255 s else none

quad : Option ℕ → Option ℕ → Option ℕ → Option ℕ → Option Ipv4Addr
quad (some a) (some b) (some c) (some d) = some (record { o0 = a; o1 = b; o2 = c; o3 = d })
quad _ _ _ _ = none

quad_of : List Bytes → Option Ipv4Addr
unfolding quad octet
quad_of (a ∷ b ∷ c ∷ d ∷ []) = quad (octet a) (octet b) (octet c) (octet d)
quad_of _ = none

-- `parse::<Ipv4Addr>`
unfoldable pub parse_ipv4 : Bytes → Option Ipv4Addr
unfolding quad_of
parse_ipv4 s = quad_of (split b'.' s)

unfoldable pub show_ipv4 : Ipv4Addr → Bytes
show_ipv4 ip =
    to_string ip.o0 ++ b'.' ∷ to_string ip.o1 ++ b'.' ∷ to_string ip.o2 ++ b'.' ∷ to_string ip.o3

-- `bits & mask` for the mask `0` or `!0u32 << (32 - prefix_len)`
unfoldable pub masked : ℕ → ℕ → ℕ
masked prefix_len bits =
    if prefix_len == 0 then 0 else bits / 2 ^ (32 - prefix_len) * 2 ^ (32 - prefix_len)

unfoldable pub is_ipv4_in_cidr : Ipv4Addr → Ipv4Addr → ℕ → Bool
unfolding to_bits masked
is_ipv4_in_cidr ip network prefix_len =
    masked prefix_len (to_bits ip) == masked prefix_len (to_bits network)

-- The network and the prefix length, both if they are numerals.
unfoldable pub numbers : Option Ipv4Addr → Option ℕ → Option (Ipv4Addr × ℕ)
numbers (some net_ip) (some prefix_len) = some (net_ip, prefix_len)
numbers _ _ = none

unfoldable pub parse_range : Bytes → Option (Ipv4Addr × ℕ)
unfolding numbers
parse_range range = elim (split_once range (codes "/")) [
  | some (network, prefix) ↦ numbers (parse_ipv4 network) (parse_unsigned 255 prefix)
  | none ↦ none
]

-- Whether one entry of the list holds the address; an entry that does not parse holds none.
unfoldable pub range_blocks : Ipv4Addr → Bytes → Bool
range_blocks ip range = elim (parse_range range) [
  | some (net_ip, prefix_len) ↦ leb prefix_len 32 && is_ipv4_in_cidr ip net_ip prefix_len
  | none ↦ false
]

unfoldable pub ipv4_is_blocked : List Bytes → Ipv4Addr → Bool
ipv4_is_blocked ranges ip = any (range_blocks ip) ranges

-- The bytes `from ..` of an IPv6 address as an IPv4 address.
abbrev pub embedded : ℕ → Ipv6Addr → Ipv4Addr
embedded from ip = record {
  o0 = get_or ip from 0;
  o1 = get_or ip (from + 1) 0;
  o2 = get_or ip (from + 2) 0;
  o3 = get_or ip (from + 3) 0;
}

-- `is_loopback`, `is_unspecified`, `is_multicast`
abbrev pub is_special : Ipv6Addr → Bool
is_special ip =
    equal ip (replicate 15 0 ++ 1 ∷ []) || equal ip (replicate 16 0) || get_or ip 0 0 == 0xff

abbrev pub is_ipv4_mapped : Ipv6Addr → Bool
is_ipv4_mapped ip = equal (take 12 ip) (replicate 10 0 ++ 0xff ∷ 0xff ∷ [])

-- The masks of the code keep the high seven and the high two bits of an octet.
unfoldable pub ipv6_is_blocked : List Bytes → Ipv6Addr → Bool
ipv6_is_blocked ranges ip =
    if is_special ip
    then true
    else if get_or ip 0 0 / 2 * 2 == 0xfc
    then true
    else if (get_or ip 0 0 == 0xfe) && (get_or ip 1 0 / 64 * 64 == 0x80)
    then true
    else if equal (take 8 ip) (1 ∷ replicate 7 0)
    then true
    else if is_ipv4_mapped ip
    then ipv4_is_blocked ranges (embedded 12 ip)
    else if (get_or ip 0 0 == 0x20) && (get_or ip 1 0 == 0x02)
    then ipv4_is_blocked ranges (embedded 2 ip)
    else false

unfoldable pub ip_is_blocked : List Bytes → IpAddr → Bool
unfolding ipv4_is_blocked ipv6_is_blocked
ip_is_blocked ranges (v4 ip) = ipv4_is_blocked ranges ip
ip_is_blocked ranges (v6 ip) = ipv6_is_blocked ranges ip
