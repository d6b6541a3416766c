-- ===== src/Server/Filter/Ranges.antt =====
-- What the range test of server/src/filter.rs decides.
use packet_browser.Prelude.{
  ℕ, zero, suc, ◌+◌, ◌-◌, ◌*◌, ◌/◌, ◌^◌, ◌≤◌, ◌<◌, ◌≡◌, ◌↔◌, refl, ap, true, false, arith, ◌==◌,
  ==_iff,
}
use packet_browser.Server.Filter.Address.{Ipv4Addr, to_bits, masked, is_ipv4_in_cidr}
use native.Mathlib.Nat.{le-div_iff_mul-le, div-lt_iff_lt-mul, div-add-mod', mod-lt}

abbrev pub IsIpv4 : Ipv4Addr → Type 0
IsIpv4 ip = (ip.o0 < 256) × (ip.o1 < 256) × (ip.o2 < 256) × (ip.o3 < 256)

two_pow_pos : (k : ℕ) → 0 < 2 ^ k
two_pow_pos zero = omega arith
two_pow_pos (suc k) = omega (arith, two_pow_pos k)

-- Two numbers have the same multiple below them when one lies in the other's block.
block_iff : (m a b : ℕ) → 0 < m → (a / m * m ≡ b / m * m) ↔ ((b / m * m ≤ a) × (a < b / m * m + m))
block_iff m a b h =
    let ra = div-add-mod' a m in
    let la = mod-lt a h in
    (
      λ e. (omega (arith, ra, la, e), omega (arith, ra, la, e)),
      λ (lo, hi).
          let up = (le-div_iff_mul-le h).1 lo in
          let down =
            (div-lt_iff_lt-mul {k = m} {x = a} {y = suc (b / m)} h).1 (omega (arith, hi)) in
          let e : a / m ≡ b / m = omega (arith, up, down) in ap (λ q. q * m) e,
    )

to_bits_bound : (ip : Ipv4Addr) → IsIpv4 ip → to_bits ip < 2 ^ 32
unfolding to_bits
to_bits_bound ip (a, b, c, d) = omega arith

suc_is_not_zero : (p : ℕ) → (suc p == 0) ≡ false
suc_is_not_zero p = ground arith

-- The range `network/prefix_len` holds the addresses of one block: those from the network's base
-- on, 2 ^ (32 - prefix_len) of them.
pub is_ipv4_in_cidr_iff :
    (ip network : Ipv4Addr) (prefix_len : ℕ)
    → IsIpv4 ip
    → IsIpv4 network
    → prefix_len ≤ 32
    → (is_ipv4_in_cidr ip network prefix_len ≡ true) ↔ (
        (masked prefix_len (to_bits network) ≤ to_bits ip)
        × (to_bits ip < masked prefix_len (to_bits network) + 2 ^ (32 - prefix_len)))
unfolding is_ipv4_in_cidr masked
is_ipv4_in_cidr_iff ip network zero h k l =
    let small = to_bits_bound ip h in (λ e. (omega arith, omega (arith, small)), λ e. refl)
is_ipv4_in_cidr_iff ip network (suc p) h k l =
    let m = 2 ^ (32 - suc p) in
    let same = ==_iff (to_bits ip / m * m) (to_bits network / m * m) in
    let block = block_iff m (to_bits ip) (to_bits network) (two_pow_pos (32 - suc p)) in
    rw (suc_is_not_zero p) (λ e. block.0 (same.0 e), λ e. same.1 (block.1 e))
