-- ===== src/Server/Draws.antt =====
-- src/cloud/server.rs: `fill_secrets`. The random texts of `secret_gen` and `username_gen` and the
-- digest of `health_path_gen` (sha2) are parameters.
use xcplane.Common.{
  ℕ, ◌+◌, String, Bool, true, false, Option, none, some, List, [], ◌∷◌, Map, lookup, or_insert, ◌≡◌,
  arith, map, contains, string_eq, str_eq, lookup-or_insert, ◌||◌, refl,
}
use xcplane.Server.{Inbound, KetServer}
use xcplane.Server.Kind.{super_name}
use xcplane.Server.Methods.{health_seed}

-- What the calls of the random generators return, in the order of the fields; the sub-IDs by the
-- position of the inbound.
pub record Draws : Type 0 where
  pub doh_endpoint : String
  pub xui_username : String
  pub xui_password : String
  pub xui_webpath : String
  pub xui_subpath : String
  pub xui_jsubpath : String
  pub subid : ℕ → String

-- The loop over the inbounds.
unfoldable pub fill_subids : (ℕ → String) → ℕ → List Inbound → Map String → Map String
fill_subids draw i [] m = m
fill_subids draw i (inb ∷ inbs) m = fill_subids draw (i + 1) inbs (or_insert inb.name (draw i) m)

module _ (digest16 : String → String) where
  -- `hex[..16]` of the digest
  unfoldable pub health_path_gen : KetServer → String
  unfolding health_seed
  health_path_gen s = digest16 (health_seed s)

  unfoldable pub fill_secrets : Draws → KetServer → KetServer
  unfolding fill_subids health_path_gen
  fill_secrets d s = record s {
    secrets = record {
      health_path = health_path_gen s;
      doh_endpoint = d.doh_endpoint;
      xui_username = d.xui_username;
      xui_password = d.xui_password;
      xui_token = none;
      xui_webpath = d.xui_webpath;
      xui_subpath = d.xui_subpath;
      xui_jsubpath = d.xui_jsubpath;
      mother_subids = or_insert super_name super_name (fill_subids d.subid 0 s.inbounds []);
    };
  }

abbrev pub inbound_name : Inbound → String
inbound_name inb = inb.name

-- Whether a map has a key.
abbrev pub has_key : Option String → Bool
has_key none = false
has_key (some v) = true

has_key-or_insert :
    (k j v : String) (m : Map String)
    → has_key (lookup j (or_insert k v m)) ≡ (str_eq k j || has_key (lookup j m))
has_key-or_insert k j v m = rw (lookup-or_insert k j v m) (ground arith)

-- The keys after the loop: those of before and the names of the inbounds.
pub lookup-fill_subids :
    (draw : ℕ → String) (i : ℕ) (inbs : List Inbound) (m : Map String) (j : String)
    → has_key (lookup j (fill_subids draw i inbs m))
      ≡ (has_key (lookup j m) || contains (map inbound_name inbs) j)
unfolding fill_subids
lookup-fill_subids draw i [] m j = ground arith
lookup-fill_subids draw i (inb ∷ inbs) m j =
    rw (lookup-fill_subids draw (i + 1) inbs (or_insert inb.name (draw i) m) j)
      (rw (has_key-or_insert inb.name j (draw i) m) (ground arith))

-- `fill_secrets` leaves a mother sub-ID for exactly the server's inbounds and the super inbound.
pub fill_secrets-subids :
    (digest16 : String → String) (d : Draws) (s : KetServer) (j : String)
    → has_key (lookup j (fill_secrets digest16 d s).secrets.mother_subids)
      ≡ (str_eq super_name j || contains (map inbound_name s.inbounds) j)
unfolding fill_secrets
fill_secrets-subids digest16 d s j =
    rw (has_key-or_insert super_name j super_name (fill_subids d.subid 0 s.inbounds []))
      (rw (lookup-fill_subids d.subid 0 s.inbounds [] j) refl)
