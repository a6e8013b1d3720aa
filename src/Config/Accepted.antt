-- ===== src/Config/Accepted.antt =====
-- What `parse_cloud_config` of src/cloud.rs promises of a configuration that it accepts.
use xcplane.Common.{
  ℕ, suc, ◌≤◌, String, true, false, not, List, [], ◌∷◌, ok, contains, map, ◌≡◌, refl, sym, subst,
  ap₂, arith, string_eq, nat_eq, Fresh, All, Distinct, >>=-eq-ok, Fresh-Distinct, ok-injective,
  Fresh-contains, ltb, pair_eq, ◌∙◌, ensure, insert_new, is_empty, Bool-cases, inl, inr,
  if◌then◌else◌,
}
use xcplane.Ip.{IpAddr, ip_eq}
use xcplane.Server.{Inbound, KetServer, Cloud, CloudSettings}
use xcplane.Server.Kind.{super_name}
use xcplane.Server.Draws.{Draws, inbound_name}
use xcplane.Config.Steps.{
  ConfigError, Seen, nothing_seen, SetNames, no_names, add_set_inbounds, add_ports, check_server,
  empty_inbound_set, reserved_name, reserved_port, reserved_ports, min_mon_interval,
}
use xcplane.Config.Inbounds.{
  inbound_port, inbound_pair, HasProperName, Adds, add_set_inbounds-Adds, add_ports-Fresh,
}
use xcplane.Config.Servers.{IsAccepted, Checked, check_server-Checked}
use xcplane.Config.{check_servers, parse_cloud_config}

abbrev pub server_name : KetServer → String
server_name s = s.name

abbrev pub server_domain : KetServer → String
server_domain s = s.domain

abbrev pub server_ip : KetServer → IpAddr
server_ip s = s.ip

-- What holds of all the servers that the loop accepts from the given sets on.
record Loop (nps : List (String × ℕ)) (seen : Seen) (given checked : List KetServer) : Type 0 where
  accepted : All (IsAccepted nps) checked
  names : Fresh seen.names (map server_name checked)
  domains : Fresh seen.domains (map server_domain checked)
  ips : Fresh seen.ips (map server_ip checked)
  same_names : map server_name given ≡ map server_name checked

Loop-cons :
    {nps : List (String × ℕ)} {seen z : Seen} {s r : KetServer} {rest tail : List KetServer}
    → Checked nps seen s r z
    → Loop nps z rest tail
    → Loop nps seen (s ∷ rest) (r ∷ tail)
Loop-cons {tail} first others =
    let back = sym first.new.seen_after in
    record {
      accepted = (first.accepted, others.accepted);
      names = (first.new.name, subst (λ y. Fresh y.names (map server_name tail)) back others.names);
      domains = (
        first.new.domain,
        subst (λ y. Fresh y.domains (map server_domain tail)) back others.domains,
      );
      ips = (first.new.ip, subst (λ y. Fresh y.ips (map server_ip tail)) back others.ips);
      same_names = ap₂ ◌∷◌ first.name others.same_names;
    }

module _ (digest16 : String → String) (draws : ℕ → Draws) where
  check_servers-Loop :
      (set : List Inbound) (nps : List (String × ℕ)) (i : ℕ) (seen : Seen) (given : List KetServer)
      {checked : List KetServer}
      → check_servers digest16 draws set nps i seen given ≡ ok checked
      → Loop nps seen given checked
  unfolding check_servers
  check_servers-Loop set nps i seen [] {checked} h =
      subst (Loop nps seen []) (ok-injective {E = ConfigError} [] checked h)
        (record { accepted = tt; names = tt; domains = tt; ips = tt; same_names = refl })
  check_servers-Loop set nps i seen (s ∷ rest) {checked} h =
      let ((r, z), one, more) = >>=-eq-ok (check_server digest16 (draws i) set nps seen s) _ h in
      let (tail, loop, last) =
        >>=-eq-ok (check_servers digest16 draws set nps (suc i) z rest) _ more in
      let first = check_server-Checked digest16 (draws i) set nps seen z s r one in
      let others = check_servers-Loop set nps (suc i) z rest loop in
      subst (Loop nps seen (s ∷ rest)) (ok-injective {E = ConfigError} (r ∷ tail) checked last)
        (Loop-cons first others)

-- A configuration that was accepted, with the settings of the file.
pub record IsValid (set : List Inbound) (given : List KetServer) (cloud : Cloud) : Type 0 where
  pub set_names_proper : All HasProperName set
  pub set_names : Distinct (map inbound_name set)
  pub set_no_super : contains (map inbound_name set) super_name ≡ false
  pub set_ports : Distinct (map inbound_port set)
  pub set_no_reserved :
      (p : ℕ) → contains reserved_ports p ≡ true → contains (map inbound_port set) p ≡ false
  pub servers : All (IsAccepted (map inbound_pair set)) cloud.servers
  pub names : Distinct (map server_name cloud.servers)
  pub domains : Distinct (map server_domain cloud.servers)
  pub ips : Distinct (map server_ip cloud.servers)
  pub same_names : map server_name given ≡ map server_name cloud.servers
  pub inbound_set : cloud.settings.inbound_set ≡ set
  pub interval : min_mon_interval ≤ cloud.settings.monitor_interval

abbrev final_settings : CloudSettings → CloudSettings
final_settings settings = record settings {
  monitor_interval =
      if ltb settings.monitor_interval min_mon_interval
      then min_mon_interval
      else settings.monitor_interval;
}

IsAccepted-pairs :
    (nps nps' : List (String × ℕ)) (s : KetServer)
    → ((q : String × ℕ) → contains nps q ≡ contains nps' q)
    → IsAccepted nps s
    → IsAccepted nps' s
IsAccepted-pairs nps nps' s same a = record {
  proper_name = a.proper_name;
  global = a.global;
  subdomains = a.subdomains;
  subdomains_differ = a.subdomains_differ;
  inbound_names = a.inbound_names;
  has_super = a.has_super;
  no_reserved = a.no_reserved;
  in_set = λ q h k. sym (same q) ∙ a.in_set q h k;
  subids = a.subids;
  inventory = a.inventory;
}

All-IsAccepted-pairs :
    (nps nps' : List (String × ℕ)) (l : List KetServer)
    → ((q : String × ℕ) → contains nps q ≡ contains nps' q)
    → All (IsAccepted nps) l
    → All (IsAccepted nps') l
All-IsAccepted-pairs nps nps' [] same h = tt
All-IsAccepted-pairs nps nps' (s ∷ l) same h =
    (IsAccepted-pairs nps nps' s same h.0, All-IsAccepted-pairs nps nps' l same h.1)

IsValid-of_parts :
    (settings : CloudSettings) (given checked : List KetServer) (found : SetNames)
    → Adds no_names settings.inbound_set found
    → All HasProperName settings.inbound_set
    → contains found.names super_name ≡ false
    → Fresh found.ports reserved_ports
    → Loop found.pairs nothing_seen given checked
    → IsValid settings.inbound_set given
        (record { servers = checked; settings = final_settings settings })
IsValid-of_parts settings given checked found adds proper no_super free loop =
    let set = settings.inbound_set in
    record {
      set_names_proper = proper;
      set_names = Fresh-Distinct [] (map inbound_name set) adds.names_fresh;
      set_no_super = sym (adds.names super_name) ∙ no_super;
      set_ports = Fresh-Distinct [] (map inbound_port set) adds.ports_fresh;
      set_no_reserved = λ p h. elim (Bool-cases (contains (map inbound_port set) p)) [
        | inl there ↦
            cc (h, Fresh-contains found.ports reserved_ports p (adds.ports p ∙ there) free)
        | inr absent ↦ absent
      ];
      servers =
          All-IsAccepted-pairs found.pairs (map inbound_pair set) checked adds.pairs loop.accepted;
      names = Fresh-Distinct [] (map server_name checked) loop.names;
      domains = Fresh-Distinct [] (map server_domain checked) loop.domains;
      ips = Fresh-Distinct [] (map server_ip checked) loop.ips;
      same_names = loop.same_names;
      inbound_set = refl;
      interval = ground arith;
    }

insert_new-inv :
    (a : String) (s : List String) (e : ConfigError) {r : List String}
    → insert_new a s e ≡ ok r
    → contains s a ≡ false
insert_new-inv a s e h = ground arith

-- A cloud that `parse_cloud_config` returns has the servers of the file under their names. The
-- inbound-set has proper names without repetition and without "super", and different ports that are
-- not reserved. The servers' names, domains and addresses are pairwise different. Each server has a
-- proper name, a global address and three different proper subdomains; its inbounds are named
-- differently, one is the super inbound, no port is reserved, the others are in the inbound-set by
-- name and port; it has mother sub-IDs for exactly its inbounds, and the inventory of a fresh
-- server. The monitoring interval is at least 21 seconds.
pub parse_cloud_config-IsValid :
    (digest16 : String → String) (draws : ℕ → Draws) (given : List KetServer)
    (settings : CloudSettings) {cloud : Cloud}
    → parse_cloud_config digest16 draws given settings ≡ ok cloud
    → IsValid settings.inbound_set given cloud
unfolding parse_cloud_config
parse_cloud_config-IsValid digest16 draws given settings {cloud} h =
    let set = settings.inbound_set in
    let (u, filled, h1) = >>=-eq-ok (ensure (not (is_empty set)) empty_inbound_set) _ h in
    let (found, added, h2) = >>=-eq-ok (add_set_inbounds no_names set) _ h1 in
    let (names, no_super, h3) = >>=-eq-ok (insert_new super_name found.names reserved_name) _ h2 in
    let (ports, free, h4) = >>=-eq-ok (add_ports reserved_port found.ports reserved_ports) _ h3 in
    let (checked, loop, last) =
      >>=-eq-ok (check_servers digest16 draws set found.pairs 0 nothing_seen given) _ h4 in
    let (adds, proper) = add_set_inbounds-Adds no_names set added in
    subst (IsValid set given) (ok-injective {E = ConfigError} _ cloud last) (
      IsValid-of_parts settings given checked found adds proper
        (insert_new-inv super_name found.names reserved_name no_super)
        (add_ports-Fresh reserved_port found.ports reserved_ports free)
        (check_servers-Loop digest16 draws set found.pairs 0 nothing_seen given loop))
