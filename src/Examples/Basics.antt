-- ===== src/Examples/Basics.antt =====
-- The theorems on names, addresses and servers, each at a concrete input.
use xcplane.Common.{◌&&◌, ◌||◌, ◌≤◌, ◌≡◌, ◌↔◌, true, not, arith, string_eq, length}
use xcplane.Naming.{codes, is_proper, is_proper_subdomain, slug}
use xcplane.Naming.Slug.{slug_lem}
use xcplane.Naming.Subdomain.{Label, is_proper_subdomain_iff}
use xcplane.Ip.{v6, is_global}
use xcplane.Ip.Global.{is_documented, is_missed, is_extra, is_global_lem}

slug_lem_example :
    (is_proper (slug (codes "my_server")) ≡ true)
    × ((slug (codes "my_server") ≡ codes "my_server") ↔ (is_proper (codes "my_server") ≡ true))
slug_lem_example = slug_lem (codes "my_server")

is_proper_subdomain_iff_example :
    (is_proper_subdomain (codes "my-dns") ≡ true)
    ↔ (Label (codes "my-dns") × (length (codes "my-dns") ≤ 63))
is_proper_subdomain_iff_example = is_proper_subdomain_iff (codes "my-dns")

-- 2001:2:1::1
is_global_lem_example :
    is_global (v6 0x20010002000100000000000000000001)
    ≡ not (
        is_documented (v6 0x20010002000100000000000000000001)
          && not (is_missed (v6 0x20010002000100000000000000000001))
        || is_extra (v6 0x20010002000100000000000000000001))
is_global_lem_example = is_global_lem (v6 0x20010002000100000000000000000001) (omega arith)
