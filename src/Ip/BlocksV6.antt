-- ===== src/Ip/BlocksV6.antt =====
-- `is_global_v6` against 2000::/3 and the blocks that it refuses within it.
use xcplane.Common.{
  ℕ, ◌+◌, ◌*◌, ◌^◌, ◌≤◌, ◌<◌, ◌≡◌, true, false, not, ◌&&◌, List, [], ◌∷◌, arith, leb, nat_eqb, any,
}
use xcplane.Ip.Block.{in_block}
use xcplane.Ip.{segment_0, segment_1, segment_2, high_bits, is_special_v6, is_global_v6}

-- The address s0:s1:s2::.
abbrev pub at_segments : ℕ → ℕ → ℕ → ℕ
at_segments s0 s1 s2 = s0 * 2 ^ 112 + s1 * 2 ^ 96 + s2 * 2 ^ 80

-- 2001:2::/32, 2001:10::/28, 2001::/48, 2001:db8::/32 and 3fff::/20
abbrev pub refused_blocks : List (ℕ × ℕ)
refused_blocks =
    (at_segments 0x2001 2 0, 2 ^ 96)
    ∷ (at_segments 0x2001 0x10 0, 2 ^ 100)
    ∷ (at_segments 0x2001 0 0, 2 ^ 80)
    ∷ (at_segments 0x2001 0xdb8 0, 2 ^ 96)
    ∷ (at_segments 0x3fff 0 0, 2 ^ 108)
    ∷ []

-- 2000::/3
abbrev pub unicast_block : ℕ × ℕ
unicast_block = (2 ^ 125, 2 ^ 125)

unicast_test : (ip : ℕ) → nat_eqb (high_bits (segment_0 ip) 13) 0x2000 ≡ in_block ip unicast_block
unfolding in_block
unicast_test ip = ground arith

special_outside :
    (ip : ℕ) → is_special_v6 ip ≡ true → ip < 2 ^ 128 → in_block ip unicast_block ≡ false
unfolding is_special_v6 in_block
special_outside ip h k = ground arith

segment_block :
    (ip m : ℕ)
    → m < 65536
    → (nat_eqb (segment_0 ip) 0x2001 && nat_eqb (segment_1 ip) m)
      ≡ in_block ip (at_segments 0x2001 m 0, 2 ^ 96)
unfolding in_block
segment_block ip m h = ground arith

orchid_block :
    (ip : ℕ)
    → (nat_eqb (segment_0 ip) 0x2001 && (leb 0x10 (segment_1 ip) && leb (segment_1 ip) 0x1f))
      ≡ in_block ip (at_segments 0x2001 0x10 0, 2 ^ 100)
unfolding in_block
orchid_block ip = ground arith

zero_block :
    (ip : ℕ)
    → (nat_eqb (segment_0 ip) 0x2001 && (nat_eqb (segment_1 ip) 0 && nat_eqb (segment_2 ip) 0))
      ≡ in_block ip (at_segments 0x2001 0 0, 2 ^ 80)
unfolding in_block
zero_block ip = ground arith

doc_block :
    (ip : ℕ)
    → (nat_eqb (segment_0 ip) 0x3fff && nat_eqb (high_bits (segment_1 ip) 12) 0)
      ≡ in_block ip (at_segments 0x3fff 0 0, 2 ^ 108)
unfolding in_block
doc_block ip = ground arith

-- An address of 128 bits is accepted exactly when it lies in 2000::/3 and in none of the refused
-- blocks.
pub is_global_v6_lem :
    (ip : ℕ)
    → ip < 2 ^ 128
    → is_global_v6 ip ≡ (in_block ip unicast_block && not (any (in_block ip) refused_blocks))
unfolding is_global_v6
is_global_v6_lem ip h = ground (
  arith,
  unicast_test ip,
  λ (p : is_special_v6 ip ≡ true). special_outside ip p h,
  segment_block ip 2,
  segment_block ip 0xdb8,
  orchid_block ip,
  zero_block ip,
  doc_block ip,
)

-- Of the Teredo block 2001::/32 every address with another third segment than 0 is accepted.
pub teredo_accepted :
    (ip : ℕ) → at_segments 0x2001 0 1 ≤ ip → ip < at_segments 0x2001 1 0 → is_global_v6 ip ≡ true
teredo_accepted ip low high =
    rw (is_global_v6_lem ip (omega arith)) (unfold in_block in ground arith)
