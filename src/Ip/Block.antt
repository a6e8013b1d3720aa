-- ===== src/Ip/Block.antt =====
-- Blocks of consecutive addresses, to state what src/cloud.rs refuses.
use xcplane.Common.{ℕ, ◌+◌, Bool, ◌&&◌, leb, ltb}

-- The block begins at `base` and has `size` addresses.
unfoldable pub in_block : ℕ → ℕ × ℕ → Bool
in_block ip (base, size) = leb base ip && ltb ip (base + size)
