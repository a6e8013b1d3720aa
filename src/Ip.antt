-- ===== src/Ip.antt =====
-- src/cloud.rs: `is_global`, the sanity check of a server's address. An address is its number: 32
-- bits for `Ipv4Addr`, 128 bits for `Ipv6Addr`. `is_private` and the like are those of `std::net`.
pub mod Block
pub mod BlocksV4
pub mod BlocksV6
pub mod Global
use xcplane.Common.{
  ℕ, ◌/◌, ◌%◌, ◌^◌, ◌*◌, ◌≡◌, ◌↔◌, Bool, true, false, ◌&&◌, ◌||◌, arith, leb, nat_eqb, Eq,
  if◌then◌else◌,
}

pub data IpAddr : Type 0 where
  v4 : ℕ → IpAddr
  v6 : ℕ → IpAddr

abbrev pub ip_eqb : IpAddr → IpAddr → Bool
ip_eqb (v4 a) (v4 b) = nat_eqb a b
ip_eqb (v6 a) (v6 b) = nat_eqb a b
ip_eqb (v4 a) (v6 b) = false
ip_eqb (v6 a) (v4 b) = false

pub ip_eqb_iff : (a b : IpAddr) → (ip_eqb a b ≡ true) ↔ (a ≡ b)
ip_eqb_iff (v4 a) (v4 b) = ground arith
ip_eqb_iff (v6 a) (v6 b) = ground arith
ip_eqb_iff (v4 a) (v6 b) = ground arith
ip_eqb_iff (v6 a) (v4 b) = ground arith

instance abbrev pub ip_eq : Eq IpAddr
ip_eq = record { eqb = ip_eqb; eqb_iff = ip_eqb_iff }

-- The four octets, the first of them the highest.
abbrev pub octet_a : ℕ → ℕ
octet_a ip = ip / 2 ^ 24

abbrev pub octet_b : ℕ → ℕ
octet_b ip = ip / 2 ^ 16 % 2 ^ 8

unfoldable pub is_private : ℕ → Bool
is_private ip =
    nat_eqb (octet_a ip) 10
    || nat_eqb (octet_a ip) 172 && (leb 16 (octet_b ip) && leb (octet_b ip) 31)
    || nat_eqb (octet_a ip) 192 && nat_eqb (octet_b ip) 168

unfoldable pub is_loopback : ℕ → Bool
is_loopback ip = nat_eqb (octet_a ip) 127

unfoldable pub is_link_local : ℕ → Bool
is_link_local ip = nat_eqb (octet_a ip) 169 && nat_eqb (octet_b ip) 254

unfoldable pub is_multicast : ℕ → Bool
is_multicast ip = leb 224 (octet_a ip) && leb (octet_a ip) 239

unfoldable pub is_unspecified : ℕ → Bool
is_unspecified ip = nat_eqb ip 0

unfoldable pub is_broadcast : ℕ → Bool
is_broadcast ip = nat_eqb ip 0xffffffff

unfoldable pub is_global_v4 : ℕ → Bool
unfolding is_private is_loopback is_link_local is_multicast is_unspecified is_broadcast
is_global_v4 ip =
    let a = octet_a ip in
    let b = octet_b ip in
    if is_private ip
      || is_loopback ip
      || is_link_local ip
      || is_multicast ip
      || is_unspecified ip
      || is_broadcast ip
    then false
    else if nat_eqb a 100 && (leb 64 b && leb b 127)
    then false
    else if nat_eqb a 192 && nat_eqb b 0
        || nat_eqb a 198 && nat_eqb b 51
        || nat_eqb a 203 && nat_eqb b 0
    then false
    else if nat_eqb a 198 && (leb 18 b && leb b 19)
    then false
    else if leb 240 a
    then false
    else true

-- The first three of the eight 16-bit segments.
abbrev pub segment_0 : ℕ → ℕ
segment_0 ip = ip / 2 ^ 112

abbrev pub segment_1 : ℕ → ℕ
segment_1 ip = ip / 2 ^ 96 % 2 ^ 16

abbrev pub segment_2 : ℕ → ℕ
segment_2 ip = ip / 2 ^ 80 % 2 ^ 16

-- `s & !(2^k - 1)` of a 16-bit segment: its low `k` bits cleared.
abbrev pub high_bits : ℕ → ℕ → ℕ
high_bits s k = s / 2 ^ k * 2 ^ k

-- `is_unspecified`, `is_loopback`, `is_unicast_link_local`, `is_multicast`, `is_unique_local`
unfoldable pub is_special_v6 : ℕ → Bool
is_special_v6 ip =
    nat_eqb ip 0
    || nat_eqb ip 1
    || nat_eqb (high_bits (segment_0 ip) 6) 0xfe80
    || nat_eqb (high_bits (segment_0 ip) 8) 0xff00
    || nat_eqb (high_bits (segment_0 ip) 9) 0xfc00

unfoldable pub is_global_v6 : ℕ → Bool
unfolding is_special_v6
is_global_v6 ip =
    let s0 = segment_0 ip in
    let s1 = segment_1 ip in
    let s2 = segment_2 ip in
    if is_special_v6 ip
    then false
    else if nat_eqb s0 0x2001
        && (nat_eqb s1 0x0002
            || leb 0x0010 s1 && leb s1 0x001f
            || nat_eqb s1 0x0000 && nat_eqb s2 0x0000)
    then false
    else if nat_eqb s0 0x2001 && nat_eqb s1 0x0db8
        || nat_eqb s0 0x3fff && nat_eqb (high_bits s1 12) 0
    then false
    else nat_eqb (high_bits s0 13) 0x2000

unfoldable pub is_global : IpAddr → Bool
unfolding is_global_v4 is_global_v6
is_global (v4 ip) = is_global_v4 ip
is_global (v6 ip) = is_global_v6 ip
