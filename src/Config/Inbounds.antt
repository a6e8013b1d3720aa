-- ===== src/Config/Inbounds.antt =====
-- What the loops of src/cloud.rs over inbounds, ports and subdomains establish when they succeed.
use xcplane.Common.{
  ℕ, String, true, false, List, [], ◌∷◌, ok, contains, map, ◌≡◌, subst, arith, string_eq, nat_eq,
  pair_eq, Fresh, All, ◌||◌, >>=-eq-ok,
}
use xcplane.Naming.{codes, is_proper, is_proper_subdomain}
use xcplane.Server.{Inbound}
use xcplane.Server.Draws.{inbound_name}
use xcplane.Config.Steps.{
  ConfigError, SetNames, add_set_inbound, add_set_inbounds, add_ports, add_server_inbound,
  add_server_inbounds, check_subdomains,
}

abbrev pub inbound_port : Inbound → ℕ
inbound_port inb = inb.port

abbrev pub inbound_pair : Inbound → String × ℕ
inbound_pair inb = (inb.name, inb.port)

-- `z'` is `z` with the names, ports and pairs of the inbounds, all of them new.
pub record Adds (z : SetNames) (inbs : List Inbound) (z' : SetNames) : Type 0 where
  pub names_fresh : Fresh z.names (map inbound_name inbs)
  pub ports_fresh : Fresh z.ports (map inbound_port inbs)
  pub names :
      (n : String)
      → contains z'.names n ≡ (contains z.names n || contains (map inbound_name inbs) n)
  pub ports :
      (p : ℕ) → contains z'.ports p ≡ (contains z.ports p || contains (map inbound_port inbs) p)
  pub pairs :
      (q : String × ℕ)
      → contains z'.pairs q ≡ (contains z.pairs q || contains (map inbound_pair inbs) q)

abbrev with_inbound : SetNames → Inbound → SetNames
with_inbound z inb = record {
  names = inb.name ∷ z.names;
  ports = inb.port ∷ z.ports;
  pairs = (inb.name, inb.port) ∷ z.pairs;
}

Adds-nil : (z : SetNames) → Adds z [] z
Adds-nil z = record {
  names_fresh = tt;
  ports_fresh = tt;
  names = λ n. ground arith;
  ports = λ p. ground arith;
  pairs = λ q. ground arith;
}

Adds-cons :
    (z z' : SetNames) (inb : Inbound) (inbs : List Inbound)
    → contains z.names inb.name ≡ false
    → contains z.ports inb.port ≡ false
    → Adds (with_inbound z inb) inbs z'
    → Adds z (inb ∷ inbs) z'
Adds-cons z z' inb inbs new_name new_port rest = record {
  names_fresh = (new_name, rest.names_fresh);
  ports_fresh = (new_port, rest.ports_fresh);
  names = λ n. ground (arith, rest.names n);
  ports = λ p. ground (arith, rest.ports p);
  pairs = λ q. ground (arith, rest.pairs q);
}

add_server_inbound_inv :
    (server : String) (z z' : SetNames) (inb : Inbound)
    → add_server_inbound server z inb ≡ ok z'
    → (contains z.names inb.name ≡ false)
      × (contains z.ports inb.port ≡ false)
      × (with_inbound z inb ≡ z')
unfolding add_server_inbound
add_server_inbound_inv server z z' inb h = ground arith

-- A server's inbounds that pass the loop have new names and new ports.
pub add_server_inbounds-Adds :
    (server : String) (z : SetNames) (inbs : List Inbound) {r : SetNames}
    → add_server_inbounds server z inbs ≡ ok r
    → Adds z inbs r
unfolding add_server_inbounds
add_server_inbounds-Adds server z [] {r} h = let e : z ≡ r = cc in subst (Adds z []) e (Adds-nil z)
add_server_inbounds-Adds server z (inb ∷ inbs) {r} h =
    let (z', step, rest) =
      >>=-eq-ok (add_server_inbound server z inb) (λ y. add_server_inbounds server y inbs) h in
    let (new_name, new_port, e) = add_server_inbound_inv server z z' inb step in
    Adds-cons z r inb inbs new_name new_port
      (add_server_inbounds-Adds server (with_inbound z inb) inbs (rw e rest))

add_set_inbound_inv :
    (z z' : SetNames) (inb : Inbound)
    → add_set_inbound z inb ≡ ok z'
    → (is_proper (codes inb.name) ≡ true)
      × (contains z.names inb.name ≡ false)
      × (contains z.ports inb.port ≡ false)
      × (with_inbound z inb ≡ z')
unfolding add_set_inbound
add_set_inbound_inv z z' inb h = ground arith

abbrev pub HasProperName : Inbound → Type 0
HasProperName inb = is_proper (codes inb.name) ≡ true

-- So have those of the inbound-set, and their names are proper.
pub add_set_inbounds-Adds :
    (z : SetNames) (inbs : List Inbound) {r : SetNames}
    → add_set_inbounds z inbs ≡ ok r
    → Adds z inbs r × All HasProperName inbs
unfolding add_set_inbounds
add_set_inbounds-Adds z [] {r} h = let e : z ≡ r = cc in (subst (Adds z []) e (Adds-nil z), tt)
add_set_inbounds-Adds z (inb ∷ inbs) {r} h =
    let (z', step, rest) = >>=-eq-ok (add_set_inbound z inb) (λ y. add_set_inbounds y inbs) h in
    let (proper, new_name, new_port, e) = add_set_inbound_inv z z' inb step in
    let (adds, others) = add_set_inbounds-Adds (with_inbound z inb) inbs (rw e rest) in
    (Adds-cons z r inb inbs new_name new_port adds, (proper, others))

-- The ports that `add_ports` accepts are not in the set.
pub add_ports-Fresh :
    (e : ℕ → ConfigError) (ports ps : List ℕ) {r : List ℕ}
    → add_ports e ports ps ≡ ok r
    → Fresh ports ps
unfolding add_ports
add_ports-Fresh e ports [] h = tt
add_ports-Fresh e ports (p ∷ ps) {r} h =
    (ground arith, add_ports-Fresh e (p ∷ ports) ps {r = r} (ground arith))

-- The subdomains that pass the loop are proper and new.
pub check_subdomains-Fresh :
    (found sds : List String) {r : List String}
    → check_subdomains found sds ≡ ok r
    → Fresh found sds × All (λ sd. is_proper_subdomain (codes sd) ≡ true) sds
unfolding check_subdomains
check_subdomains-Fresh found [] h = (tt, tt)
check_subdomains-Fresh found (sd ∷ sds) {r} h =
    let (fresh, proper) = check_subdomains-Fresh (sd ∷ found) sds {r = r} (ground arith) in
    ((ground arith, fresh), (ground arith, proper))
