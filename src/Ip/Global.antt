-- ===== src/Ip/Global.antt =====
-- `is_global` against the addresses that the comments of src/cloud.rs name, with the places where
-- the code differs from them.
use xcplane.Common.{
  ℕ, ◌+◌, ◌*◌, ◌^◌, ◌<◌, ◌≡◌, ◌∙◌, Bool, false, not, ◌&&◌, ◌||◌, List, [], ◌∷◌, any, arith, ap,
}
use xcplane.Ip.Block.{in_block}
use xcplane.Ip.{IpAddr, v4, v6, is_global}
use xcplane.Ip.BlocksV4
use xcplane.Ip.BlocksV6

-- A number of 32 bits, or of 128 bits.
abbrev pub IsAddress : IpAddr → Type 0
IsAddress (v4 ip) = ip < 2 ^ 32
IsAddress (v6 ip) = ip < 2 ^ 128

-- 2001:2::/48, 2001:10::/28, 2001::/32, 2001:db8::/32 and 3fff::/20
abbrev pub documented_blocks_v6 : List (ℕ × ℕ)
documented_blocks_v6 =
    (BlocksV6.at_segments 0x2001 2 0, 2 ^ 80)
    ∷ (BlocksV6.at_segments 0x2001 0x10 0, 2 ^ 100)
    ∷ (BlocksV6.at_segments 0x2001 0 0, 2 ^ 96)
    ∷ (BlocksV6.at_segments 0x2001 0xdb8 0, 2 ^ 96)
    ∷ (BlocksV6.at_segments 0x3fff 0 0, 2 ^ 108)
    ∷ []

-- The special addresses that the check is to refuse; all of IPv6 outside 2000::/3 is.
abbrev pub is_documented : IpAddr → Bool
is_documented (v4 ip) = any (in_block ip) BlocksV4.documented_blocks
is_documented (v6 ip) =
    not (in_block ip BlocksV6.unicast_block) || any (in_block ip) documented_blocks_v6

-- 192.0.0.0/16, 198.51.0.0/16, 203.0.0.0/16 and 2001:2::/32, which the code refuses as a whole.
abbrev pub is_extra : IpAddr → Bool
is_extra (v4 ip) = any (in_block ip) (
    (BlocksV4.at_octets 192 0, 2 ^ 16)
    ∷ (BlocksV4.at_octets 198 51, 2 ^ 16)
    ∷ (BlocksV4.at_octets 203 0, 2 ^ 16)
    ∷ [])
is_extra (v6 ip) = in_block ip (BlocksV6.at_segments 0x2001 2 0, 2 ^ 96)

-- 2001::/32 outside 2001::/48, which the code accepts.
abbrev pub is_missed : IpAddr → Bool
is_missed (v4 ip) = false
is_missed (v6 ip) =
    in_block ip (BlocksV6.at_segments 0x2001 0 0, 2 ^ 96)
    && not (in_block ip (BlocksV6.at_segments 0x2001 0 0, 2 ^ 80))

-- The block of 2 ^ 8 addresses that begins `k * 2 ^ 8` after the octets lies in that of 2 ^ 16.
within :
    (ip a b k : ℕ)
    → k < 256
    → (in_block ip (BlocksV4.at_octets a b + k * 2 ^ 8, 2 ^ 8)
        && not (in_block ip (BlocksV4.at_octets a b, 2 ^ 16)))
      ≡ false
unfolding in_block
within ip a b k h = ground arith

refused_v4 :
    (ip : ℕ)
    → any (in_block ip) BlocksV4.refused_blocks
      ≡ (is_documented (v4 ip) && not (is_missed (v4 ip)) || is_extra (v4 ip))
refused_v4 ip = ground (arith, within ip 192 0 2, within ip 198 51 100, within ip 203 0 113)

refused_v6 :
    (ip : ℕ)
    → (in_block ip BlocksV6.unicast_block && not (any (in_block ip) BlocksV6.refused_blocks))
      ≡ not (is_documented (v6 ip) && not (is_missed (v6 ip)) || is_extra (v6 ip))
unfolding in_block
refused_v6 ip = ground arith

-- An address of 32 or 128 bits is refused exactly when the source's comments and the tests of
-- `std::net` tell so (of IPv6 that is all outside 2000::/3, and the documentation blocks
-- 2001:db8::/32 and 3fff::/20 too), but that the whole /16 around each of 192.0.2.0/24,
-- 198.51.100.0/24 and 203.0.113.0/24 is refused, the whole /32 around 2001:2::/48, and of
-- 2001::/32 only 2001::/48.
pub is_global_lem :
    (ip : IpAddr)
    → IsAddress ip
    → is_global ip ≡ not (is_documented ip && not (is_missed ip) || is_extra ip)
unfolding is_global
is_global_lem (v4 ip) h = BlocksV4.is_global_v4_lem ip h ∙ ap not (refused_v4 ip)
is_global_lem (v6 ip) h = BlocksV6.is_global_v6_lem ip h ∙ refused_v6 ip
