-- ===== src/Ip/BlocksV4.antt =====
-- `is_global_v4` against the list of blocks of addresses that it refuses.
use xcplane.Common.{
  ℕ, ◌+◌, ◌*◌, ◌^◌, ◌≤◌, ◌<◌, ◌≡◌, ◌⊎◌, false, not, ◌&&◌, List, [], ◌∷◌, arith, leb, nat_eqb, any,
}
use xcplane.Ip.Block.{in_block}
use xcplane.Ip.{octet_a, octet_b, is_global_v4}

-- The address a.b.0.0.
abbrev pub at_octets : ℕ → ℕ → ℕ
at_octets a b = a * 2 ^ 24 + b * 2 ^ 16

abbrev pub refused_blocks : List (ℕ × ℕ)
refused_blocks =
    (at_octets 10 0, 2 ^ 24)
    ∷ (at_octets 172 16, 2 ^ 20)
    ∷ (at_octets 192 168, 2 ^ 16)
    ∷ (at_octets 127 0, 2 ^ 24)
    ∷ (at_octets 169 254, 2 ^ 16)
    ∷ (at_octets 224 0, 2 ^ 28)
    ∷ (0, 1)
    ∷ (0xffffffff, 1)
    ∷ (at_octets 100 64, 2 ^ 22)
    ∷ (at_octets 192 0, 2 ^ 16)
    ∷ (at_octets 198 51, 2 ^ 16)
    ∷ (at_octets 203 0, 2 ^ 16)
    ∷ (at_octets 198 18, 2 ^ 17)
    ∷ (at_octets 240 0, 2 ^ 28)
    ∷ []

octet_a_block : (ip k : ℕ) → nat_eqb (octet_a ip) k ≡ in_block ip (at_octets k 0, 2 ^ 24)
unfolding in_block
octet_a_block ip k = ground arith

octets_block :
    (ip k m : ℕ)
    → m < 256
    → (nat_eqb (octet_a ip) k && nat_eqb (octet_b ip) m) ≡ in_block ip (at_octets k m, 2 ^ 16)
unfolding in_block
octets_block ip k m h = ground arith

octet_b_range :
    (ip k low count : ℕ)
    → low + count < 256
    → (nat_eqb (octet_a ip) k && (leb low (octet_b ip) && leb (octet_b ip) (low + count)))
      ≡ in_block ip (at_octets k low, (count + 1) * 2 ^ 16)
unfolding in_block
octet_b_range ip k low count h = ground arith

octet_a_range :
    (ip low count : ℕ)
    → (leb low (octet_a ip) && leb (octet_a ip) (low + count))
      ≡ in_block ip (at_octets low 0, (count + 1) * 2 ^ 24)
unfolding in_block
octet_a_range ip low count = ground arith

single_block : (ip k : ℕ) → nat_eqb ip k ≡ in_block ip (k, 1)
unfolding in_block
single_block ip k = ground arith

reserved_block :
    (ip : ℕ) → ip < 2 ^ 32 → leb 240 (octet_a ip) ≡ in_block ip (at_octets 240 0, 2 ^ 28)
unfolding in_block
reserved_block ip h = ground arith

-- An address of 32 bits is accepted exactly when it lies in none of the refused blocks.
pub is_global_v4_lem :
    (ip : ℕ) → ip < 2 ^ 32 → is_global_v4 ip ≡ not (any (in_block ip) refused_blocks)
unfolding is_global_v4
is_global_v4_lem ip h = ground (
  arith,
  octet_a_block ip 10,
  octet_b_range ip 172 16 15,
  octets_block ip 192 168,
  octet_a_block ip 127,
  octets_block ip 169 254,
  octet_a_range ip 224 15,
  single_block ip 0,
  single_block ip 0xffffffff,
  octet_b_range ip 100 64 63,
  octets_block ip 192 0,
  octets_block ip 198 51,
  octets_block ip 203 0,
  octet_b_range ip 198 18 1,
  reserved_block ip h,
)

-- The same list with the documentation blocks as the source's comment gives them, of 2^8 addresses.
abbrev pub documented_blocks : List (ℕ × ℕ)
documented_blocks =
    (at_octets 10 0, 2 ^ 24)
    ∷ (at_octets 172 16, 2 ^ 20)
    ∷ (at_octets 192 168, 2 ^ 16)
    ∷ (at_octets 127 0, 2 ^ 24)
    ∷ (at_octets 169 254, 2 ^ 16)
    ∷ (at_octets 224 0, 2 ^ 28)
    ∷ (0, 1)
    ∷ (0xffffffff, 1)
    ∷ (at_octets 100 64, 2 ^ 22)
    ∷ (at_octets 192 0 + 2 * 2 ^ 8, 2 ^ 8)
    ∷ (at_octets 198 51 + 100 * 2 ^ 8, 2 ^ 8)
    ∷ (at_octets 203 0 + 113 * 2 ^ 8, 2 ^ 8)
    ∷ (at_octets 198 18, 2 ^ 17)
    ∷ (at_octets 240 0, 2 ^ 28)
    ∷ []

-- The addresses of the two /24 neighbours inside 203.0.0.0/16 and the like.
refused_outside_203 :
    (ip : ℕ) → at_octets 203 0 ≤ ip → ip < at_octets 203 1 → is_global_v4 ip ≡ false
refused_outside_203 ip low high =
    rw (is_global_v4_lem ip (omega arith)) (unfold in_block in ground arith)

-- Every address of 203.0.0.0/16 outside 203.0.113.0/24 is refused, and lies in no block that the
-- comments of the source list.
pub documentation_too_wide :
    (ip : ℕ)
    → at_octets 203 0 ≤ ip
    → ip < at_octets 203 1
    → (ip < at_octets 203 0 + 113 * 2 ^ 8) ⊎ (at_octets 203 0 + 114 * 2 ^ 8 ≤ ip)
    → (is_global_v4 ip ≡ false) × (any (in_block ip) documented_blocks ≡ false)
documentation_too_wide ip low high outside =
    (refused_outside_203 ip low high, unfold in_block in ground arith)
