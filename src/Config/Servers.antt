-- ===== src/Config/Servers.antt =====
-- What `check_server` of src/cloud.rs establishes of a server that it accepts.
use xcplane.Common.{
  ℕ, String, Bool, true, false, List, [], ◌∷◌, ◌++◌, Outcome, ok, contains, map, ◌>>=◌, ◌≡◌, refl,
  subst, ap, ok-injective, arith, string_eq, nat_eq, pair_eq, Fresh, All, Distinct, ◌||◌, >>=-eq-ok,
  is_subset, is_empty, none, some, lookup, map-append, contains-append, Distinct-concat,
  Fresh-Distinct, ◌∙◌, Fresh-contains, is_subset_at, ensure-eq-ok, ensure, Bool-cases, inl, inr,
  if◌then◌else◌, str_eq,
}
use xcplane.Naming.{codes, is_proper, is_proper_subdomain}
use xcplane.Ip.{ip_eq, is_global}
use xcplane.Server.{Inbound, KetServer, AnsibleConn}
use xcplane.Server.Kind.{super_name}
use xcplane.Server.Methods.{build_inventory, super_inbound, initial_port, root_user}
use xcplane.Server.Draws.{Draws, fill_secrets, fill_secrets-subids, inbound_name, has_key}
use xcplane.Config.Steps.{
  ConfigError, SetNames, Seen, check_identity, check_subdomains, check_inbounds, check_server,
  prepare_server, subdomains_of, reserved_ports, server_reserved_port, add_server_inbounds,
  super_names, add_ports, inbounds_not_in_set,
}
use xcplane.Config.Inbounds.{
  inbound_port, inbound_pair, Adds, add_server_inbounds-Adds, add_ports-Fresh,
  check_subdomains-Fresh,
}

-- The inventory of a fresh server: its own address, port 22 while it is Offgrid, as root.
abbrev pub fresh_conn : KetServer → AnsibleConn
fresh_conn s = record {
  ansible_host = some s.ip;
  ansible_port = some (initial_port s.state s.ssh_port);
  ansible_user = some root_user;
  ansible_connection = none;
}

-- What the configuration check promises of a server, for the (name, port) pairs of the inbound-set.
pub record IsAccepted (nps : List (String × ℕ)) (s : KetServer) : Type 0 where
  pub proper_name : is_proper (codes s.name) ≡ true
  pub global : is_global s.ip ≡ true
  pub subdomains : All (λ sd. is_proper_subdomain (codes sd) ≡ true) (subdomains_of s)
  pub subdomains_differ : Distinct (subdomains_of s)
  pub inbound_names : Distinct (map inbound_name s.inbounds)
  pub has_super : contains (map inbound_name s.inbounds) super_name ≡ true
  pub no_reserved :
      (p : ℕ) → contains reserved_ports p ≡ true → contains (map inbound_port s.inbounds) p ≡ false
  pub in_set :
      (q : String × ℕ)
      → contains (map inbound_pair s.inbounds) q ≡ true
      → str_eq super_name q.0 ≡ false
      → contains nps q ≡ true
  pub subids :
      (n : String)
      → has_key (lookup n s.secrets.mother_subids) ≡ contains (map inbound_name s.inbounds) n
  pub inventory : s.ansible_conn ≡ some (fresh_conn s)

-- What the checks establish of the inbounds before the super inbound is added.
record InboundsOk (nps : List (String × ℕ)) (inbs : List Inbound) : Type 0 where
  names : Distinct (map inbound_name inbs)
  no_super : contains (map inbound_name inbs) super_name ≡ false
  no_reserved :
      (p : ℕ) → contains reserved_ports p ≡ true → contains (map inbound_port inbs) p ≡ false
  in_set : (q : String × ℕ) → contains (map inbound_pair inbs) q ≡ true → contains nps q ≡ true

false_of_or : (a b : Bool) → (a || b) ≡ false → b ≡ false
false_of_or a b h = ground arith

checked_inbounds :
    (nps : List (String × ℕ)) (server : String) (inbs : List Inbound) (found : SetNames)
    → Adds super_names inbs found
    → Fresh found.ports reserved_ports
    → is_subset found.pairs nps ≡ true
    → InboundsOk nps inbs
checked_inbounds nps server inbs found adds free sub = record {
  names = Fresh-Distinct (super_name ∷ []) (map inbound_name inbs) adds.names_fresh;
  no_super =
      Fresh-contains (super_name ∷ []) (map inbound_name inbs) super_name refl adds.names_fresh;
  no_reserved = λ p h. elim (Bool-cases (contains (map inbound_port inbs) p)) [
    | inl there ↦ cc (h, Fresh-contains found.ports reserved_ports p (adds.ports p ∙ there) free)
    | inr absent ↦ absent
  ];
  in_set = λ q h. is_subset_at found.pairs nps q sub (adds.pairs q ∙ h);
}

checked_list :
    (nps : List (String × ℕ)) (server : String) (inbs : List Inbound) {u : Unit {0}}
    → (if is_empty inbs
        then ok tt
        else (add_server_inbounds server super_names inbs >>= λ found.
            add_ports server_reserved_port found.ports reserved_ports >>= λ ports.
            ensure (is_subset found.pairs nps) (inbounds_not_in_set server)))
      ≡ ok u
    → InboundsOk nps inbs
checked_list nps server [] h = record {
  names = tt;
  no_super = refl;
  no_reserved = λ p k. refl;
  in_set = λ q k. ground arith;
}
checked_list nps server (inb ∷ inbs) h =
    let (found, added, rest) =
      >>=-eq-ok (add_server_inbounds server super_names (inb ∷ inbs)) _ h in
    let (ports, free, last) =
      >>=-eq-ok (add_ports server_reserved_port found.ports reserved_ports) _ rest in
    checked_inbounds nps server (inb ∷ inbs) found
      (add_server_inbounds-Adds server super_names (inb ∷ inbs) added)
      (add_ports-Fresh server_reserved_port found.ports reserved_ports free)
      (ensure-eq-ok (is_subset found.pairs nps) (inbounds_not_in_set server) last)

check_inbounds-InboundsOk :
    (nps : List (String × ℕ)) (s : KetServer) {u : Unit {0}}
    → check_inbounds nps s ≡ ok u
    → InboundsOk nps s.inbounds
unfolding check_inbounds
check_inbounds-InboundsOk nps s h = checked_list nps s.name s.inbounds h

abbrev pub seen_with : Seen → KetServer → Seen
seen_with seen s = record {
  names = s.name ∷ seen.names;
  domains = s.domain ∷ seen.domains;
  ips = s.ip ∷ seen.ips;
}

-- The name, the domain and the address are new, and the sets get them.
pub record IsNew (seen : Seen) (s : KetServer) (seen' : Seen) : Type 0 where
  pub proper : is_proper (codes s.name) ≡ true
  pub global : is_global s.ip ≡ true
  pub name : contains seen.names s.name ≡ false
  pub domain : contains seen.domains s.domain ≡ false
  pub ip : contains seen.ips s.ip ≡ false
  pub seen_after : seen_with seen s ≡ seen'

check_identity-IsNew :
    (seen seen' : Seen) (s : KetServer) → check_identity seen s ≡ ok seen' → IsNew seen s seen'
unfolding check_identity
check_identity-IsNew seen seen' s h = ground arith

with_super : KetServer → KetServer
unfolding super_inbound
with_super t = record t { inbounds = t.inbounds ++ super_inbound ∷ [] }

-- What `prepare_server` sets and what it keeps.
record Prepared (s t : KetServer) : Type 0 where
  name : s.name ≡ t.name
  subids :
      (n : String)
      → has_key (lookup n t.secrets.mother_subids)
        ≡ (str_eq super_name n || contains (map inbound_name t.inbounds) n)
  inventory : t.ansible_conn ≡ some (fresh_conn t)

fill_secrets-Prepared :
    (digest16 : String → String) (d : Draws) (s t : KetServer)
    → s.name ≡ t.name
    → t.ansible_conn ≡ some (fresh_conn t)
    → Prepared s (fill_secrets digest16 d t)
unfolding fill_secrets
fill_secrets-Prepared digest16 d s t name conn = record {
  name = name;
  subids = λ n. fill_secrets-subids digest16 d t n;
  inventory = conn;
}

with_default : List Inbound → KetServer → KetServer
with_default set t = if is_empty t.inbounds then record t { inbounds = set } else t

with_default-kept :
    (set : List Inbound) (t : KetServer)
    → t.ansible_conn ≡ some (fresh_conn t)
    → (t.name ≡ (with_default set t).name)
      × ((with_default set t).ansible_conn ≡ some (fresh_conn (with_default set t)))
unfolding with_default
with_default-kept set t conn = elim (Bool-cases (is_empty t.inbounds)) [
  | inl e ↦ rw e (refl, conn)
  | inr e ↦ rw e (refl, conn)
]

prepare_server-Prepared :
    (digest16 : String → String) (d : Draws) (set : List Inbound) (s : KetServer)
    → Prepared s (prepare_server digest16 d set s)
unfolding prepare_server with_default
prepare_server-Prepared digest16 d set s =
    let t = build_inventory s in
    let (name, conn) = with_default-kept set t refl in
    fill_secrets-Prepared digest16 d s (with_default set t) name conn

in_set_super :
    (nps : List (String × ℕ)) (inbs : List Inbound) (q : String × ℕ)
    → (contains (map inbound_pair inbs) q ≡ true → contains nps q ≡ true)
    → contains (map inbound_pair (inbs ++ super_inbound ∷ [])) q ≡ true
    → str_eq super_name q.0 ≡ false
    → contains nps q ≡ true
unfolding super_inbound
in_set_super nps inbs (a, b) inside there other =
    let e : contains (map inbound_pair (inbs ++ super_inbound ∷ [])) (a, b) ≡ (
        contains (map inbound_pair inbs) (a, b)
        || contains {A = String × ℕ} ((super_name, 0) ∷ []) (a, b)) =
      rw map-append (rw contains-append refl) in
    ground (arith, e, inside)

with_super-IsAccepted :
    (nps : List (String × ℕ)) (seen seen' : Seen) (s t : KetServer) {r : List String}
    → Prepared s t
    → IsNew seen t seen'
    → check_subdomains [] (subdomains_of t) ≡ ok r
    → InboundsOk nps t.inbounds
    → IsAccepted nps (with_super t)
unfolding with_super
with_super-IsAccepted nps seen seen' s t {r} p new subs inbs = record {
  proper_name = new.proper;
  global = new.global;
  subdomains = (check_subdomains-Fresh [] (subdomains_of t) subs).1;
  subdomains_differ =
      Fresh-Distinct [] (subdomains_of t) (check_subdomains-Fresh [] (subdomains_of t) subs).0;
  inbound_names =
      rw map-append
        (Distinct-concat (map inbound_name t.inbounds) super_name inbs.names inbs.no_super);
  has_super = rw map-append (rw contains-append (ground arith));
  no_reserved = λ q h. rw map-append (rw contains-append (ground (arith, inbs.no_reserved q h)));
  in_set = λ q h k. in_set_super nps t.inbounds q (inbs.in_set q) h k;
  subids = λ n. p.subids n ∙ rw map-append (rw contains-append (ground arith));
  inventory = p.inventory;
}

-- What `check_server` establishes: an accepted server, whose identity was new.
pub record Checked (nps : List (String × ℕ)) (seen : Seen) (s r : KetServer) (seen' : Seen)
    : Type 0 where
  pub accepted : IsAccepted nps r
  pub new : IsNew seen r seen'
  pub name : s.name ≡ r.name

with_super-Checked :
    (nps : List (String × ℕ)) (seen z : Seen) (s t : KetServer)
    → Prepared s t
    → IsNew seen t z
    → IsAccepted nps (with_super t)
    → Checked nps seen s (with_super t) z
unfolding with_super
with_super-Checked nps seen z s t p new accepted = record {
  accepted = accepted;
  new = record {
    proper = new.proper;
    global = new.global;
    name = new.name;
    domain = new.domain;
    ip = new.ip;
    seen_after = new.seen_after;
  };
  name = p.name;
}

ok_pair :
    (r r' : KetServer) (z z' : Seen)
    → ◌≡◌ {A = Outcome ConfigError (KetServer × Seen)} (ok (r, z)) (ok (r', z'))
    → (r ≡ r') × (z ≡ z')
ok_pair r r' z z' h =
    let e = ok-injective (r, z) (r', z') h in
    (ap (λ (p : KetServer × Seen). p.0) e, ap (λ (p : KetServer × Seen). p.1) e)

pub check_server-Checked :
    (digest16 : String → String) (d : Draws) (set : List Inbound) (nps : List (String × ℕ))
    (seen seen' : Seen) (s r : KetServer)
    → check_server digest16 d set nps seen s ≡ ok (r, seen')
    → Checked nps seen s r seen'
unfolding check_server with_super
check_server-Checked digest16 d set nps seen seen' s r h =
    let t = prepare_server digest16 d set s in
    let p = prepare_server-Prepared digest16 d set s in
    let (z, identity, rest) = >>=-eq-ok (check_identity seen t) _ h in
    let (found, subs, rest') = >>=-eq-ok (check_subdomains [] (subdomains_of t)) _ rest in
    let (u, inbs, last) = >>=-eq-ok (check_inbounds nps t) _ rest' in
    let new = check_identity-IsNew seen z t identity in
    let accepted =
      with_super-IsAccepted nps seen z s t p new subs (check_inbounds-InboundsOk nps t inbs) in
    let (e, e') = ok_pair (with_super t) r z seen' last in
    subst (λ x. Checked nps seen s x seen') e
      (subst (Checked nps seen s (with_super t)) e'
        (with_super-Checked nps seen z s t p new accepted))
