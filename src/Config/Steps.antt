-- ===== src/Config/Steps.antt =====
-- src/cloud.rs: the steps of `parse_cloud_config`.
use xcplane.Common.{
  ℕ, String, List, [], ◌∷◌, ◌++◌, Outcome, ok, ensure, insert_new, is_empty, ◌>>=◌, ◌>>◌,
  if◌then◌else◌, string_eq, nat_eq, is_subset, pair_eq,
}
use xcplane.Naming.{codes, is_proper, is_proper_subdomain}
use xcplane.Ip.{IpAddr, ip_eq, is_global}
use xcplane.Server.{Inbound, KetServer}
use xcplane.Server.Kind.{super_name}
use xcplane.Server.Methods.{build_inventory, super_inbound}
use xcplane.Server.Draws.{Draws, fill_secrets}

-- One constructor for each message of the function.
pub data ConfigError : Type 0 where
  empty_inbound_set reserved_name : ConfigError
  improper_inbound_name set_names_repeat : String → ConfigError
  set_ports_repeat reserved_port : ℕ → ConfigError
  improper_server_name server_names_repeat domains_repeat : String → ConfigError
  not_global ips_repeat : String → ConfigError
  improper_subdomain subdomain_repeats : String → ConfigError
  server_inbound_names_repeat server_inbound_ports_repeat : String → ConfigError
  inbounds_not_in_set : String → ConfigError
  server_reserved_port : ℕ → ConfigError

abbrev pub min_mon_interval : ℕ
min_mon_interval = 21

-- SSH_PORT, NGINX_PORT, UI_PORT, SUB_PORT, UNBOUND_PORT
abbrev pub reserved_ports : List ℕ
reserved_ports = 79 ∷ 443 ∷ 400 ∷ 401 ∷ 444 ∷ []

-- The three sets that the loop over the inbounds fills.
pub record SetNames : Type 0 where
  pub names : List String
  pub ports : List ℕ
  pub pairs : List (String × ℕ)

abbrev pub no_names : SetNames
no_names = record { names = []; ports = []; pairs = [] }

unfoldable pub add_set_inbound : SetNames → Inbound → Outcome ConfigError SetNames
add_set_inbound z inb = do
  ensure (is_proper (codes inb.name)) (improper_inbound_name inb.name)
  names ← insert_new inb.name z.names (set_names_repeat inb.name)
  ports ← insert_new inb.port z.ports (set_ports_repeat inb.port)
  ok (record { names = names; ports = ports; pairs = (inb.name, inb.port) ∷ z.pairs })

-- The loop over the inbound-set.
unfoldable pub add_set_inbounds : SetNames → List Inbound → Outcome ConfigError SetNames
unfolding add_set_inbound
add_set_inbounds z [] = ok z
add_set_inbounds z (inb ∷ inbs) = add_set_inbound z inb >>= λ z'. add_set_inbounds z' inbs

-- The loop over the reserved ports.
unfoldable pub add_ports : (ℕ → ConfigError) → List ℕ → List ℕ → Outcome ConfigError (List ℕ)
add_ports e ports [] = ok ports
add_ports e ports (p ∷ ps) = insert_new p ports (e p) >>= λ ports'. add_ports e ports' ps

-- The three sets that the loop over the servers fills.
pub record Seen : Type 0 where
  pub names : List String
  pub domains : List String
  pub ips : List IpAddr

abbrev pub nothing_seen : Seen
nothing_seen = record { names = []; domains = []; ips = [] }

unfoldable pub check_identity : Seen → KetServer → Outcome ConfigError Seen
check_identity seen s = do
  ensure (is_proper (codes s.name)) (improper_server_name s.name)
  names ← insert_new s.name seen.names (server_names_repeat s.name)
  domains ← insert_new s.domain seen.domains (domains_repeat s.domain)
  ensure (is_global s.ip) (not_global s.name)
  ips ← insert_new s.ip seen.ips (ips_repeat s.name)
  ok (record { names = names; domains = domains; ips = ips })

-- The loop over the three subdomains.
unfoldable pub check_subdomains : List String → List String → Outcome ConfigError (List String)
check_subdomains found [] = ok found
check_subdomains found (sd ∷ sds) =
    ensure (is_proper_subdomain (codes sd)) (improper_subdomain sd) >>= λ _.
    insert_new sd found (subdomain_repeats sd) >>= λ found'. check_subdomains found' sds

abbrev pub subdomains_of : KetServer → List String
subdomains_of s = s.sub_subdomain ∷ s.ui_subdomain ∷ s.dns_subdomain ∷ []

unfoldable pub add_server_inbound : String → SetNames → Inbound → Outcome ConfigError SetNames
add_server_inbound server z inb = do
  names ← insert_new inb.name z.names (server_inbound_names_repeat server)
  ports ← insert_new inb.port z.ports (server_inbound_ports_repeat server)
  ok (record { names = names; ports = ports; pairs = (inb.name, inb.port) ∷ z.pairs })

-- The loop over a server's inbounds.
unfoldable pub add_server_inbounds : String → SetNames → List Inbound → Outcome ConfigError SetNames
unfolding add_server_inbound
add_server_inbounds server z [] = ok z
add_server_inbounds server z (inb ∷ inbs) =
    add_server_inbound server z inb >>= λ z'. add_server_inbounds server z' inbs

-- A server's set of names begins with the reserved one.
abbrev pub super_names : SetNames
super_names = record { names = super_name ∷ []; ports = []; pairs = [] }

unfoldable pub check_inbounds : List (String × ℕ) → KetServer → Outcome ConfigError (Unit {0})
unfolding add_server_inbounds add_ports
check_inbounds nps s = if is_empty s.inbounds then ok tt else do
  found ← add_server_inbounds s.name super_names s.inbounds
  ports ← add_ports server_reserved_port found.ports reserved_ports
  ensure (is_subset found.pairs nps) (inbounds_not_in_set s.name)

-- Before the checks: the inventory, the inbound-set for a server without inbounds, the secrets.
unfoldable pub prepare_server : (String → String) → Draws → List Inbound → KetServer → KetServer
unfolding build_inventory fill_secrets
prepare_server digest16 d set s =
    let t = build_inventory s in
    fill_secrets digest16 d (if is_empty t.inbounds then record t { inbounds = set } else t)

-- The body of the loop over the servers.
unfoldable pub check_server :
    (String → String)
    → Draws
    → List Inbound
    → List (String × ℕ)
    → Seen
    → KetServer
    → Outcome ConfigError (KetServer × Seen)
unfolding prepare_server check_identity check_subdomains check_inbounds super_inbound
check_server digest16 d set nps seen s = do
  let t = prepare_server digest16 d set s
  seen' ← check_identity seen t
  found ← check_subdomains [] (subdomains_of t)
  check_inbounds nps t
  ok (record t { inbounds = t.inbounds ++ super_inbound ∷ [] }, seen')
