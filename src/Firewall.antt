-- ===== src/Firewall.antt =====
-- src/nft.rs: the nftables sets, their rules and the files of a run. A rule is the name of its set
-- and its elements: the text around them, the separators and the date are left out. The path
-- `<server>/<set>.nft` is the pair of the two names.
pub mod Geoip
pub mod Rules
pub mod Files
use xcplane.Common.{
  ℕ, String, Bool, true, false, not, Option, none, some, List, [], ◌∷◌, ◌++◌, map, Outcome, ok, err,
  ◌>>=◌, ok_or, ensure, if◌then◌else◌, string_eq, pair_eq, nat_eqb, retain, contains, Map,
  or_insert,
}
use xcplane.Server.{Inbound, KetServer, AnsibleConn}
use xcplane.Actions.{
  AnsibleAction, ssh_setup, full_setup, del_inbound, add_inbound, outblocked_update,
}
use xcplane.Database.Tables.{Table, upsert}

-- The sets of a server hold the server; the blocked ones the countries.
pub data NftSet : Type 0 where
  ssh_pre ssh_post inbound : KetServer → NftSet
  out_blocked4 out_blocked6 : List String → NftSet
  cloudflare4 cloudflare6 : NftSet

unfoldable pub set_name : NftSet → String
set_name cloudflare4 = "cloudflare4"
set_name cloudflare6 = "cloudflare6"
set_name (inbound s) = "inbound"
set_name (ssh_pre s) = "sshpre"
set_name (ssh_post s) = "sshpost"
set_name (out_blocked4 countries) = "outblocked4"
set_name (out_blocked6 countries) = "outblocked6"

pub data Elements : Type 0 where
  ports : List ℕ → Elements
  ranges : List (String × String) → Elements
  lines : List String → Elements

pub record Rule : Type 0 where
  pub name : String
  pub elements : Elements

pub data NftError : Type 0 where
  no_connection no_ansible_port wrong_set no_download no_geoip bad_address : NftError

abbrev pub set_rule_gen : String → Elements → Rule
set_rule_gen n es = record { name = n; elements = es }

-- The ports of the transient rule.
unfoldable pub pre_ports : ℕ → ℕ → List ℕ
pre_ports ansible_port ssh_port =
    if not (nat_eqb ansible_port ssh_port) then ansible_port ∷ ssh_port ∷ [] else ansible_port ∷ []

unfoldable pub generate_ssh_rule : NftSet → Outcome NftError Rule
unfolding pre_ports
generate_ssh_rule (ssh_pre s) = do
  conn ← ok_or s.ansible_conn no_connection
  port ← ok_or conn.ansible_port no_ansible_port
  ok (set_rule_gen "ssh" (ports (pre_ports port s.ssh_port)))
generate_ssh_rule (ssh_post s) = ok (set_rule_gen "ssh" (ports (s.ssh_port ∷ [])))
generate_ssh_rule _ = err wrong_set

abbrev pub port_of : Inbound → ℕ
port_of inb = inb.port

-- Without the super inbound.
unfoldable pub open_ports : List Inbound → List ℕ
open_ports inbounds = retain (λ p. not (nat_eqb p 0)) (map port_of inbounds)

unfoldable pub generate_inbound_rule : NftSet → Outcome NftError Rule
unfolding set_name open_ports
generate_inbound_rule (inbound s) =
    ok (set_rule_gen (set_name (inbound s)) (ports (open_ports s.inbounds)))
generate_inbound_rule _ = err wrong_set

-- The tables of the GeoIP database: the country under the bounds of a range.
pub record GeoDb : Type 0 where
  pub geoip4 : Table (String × String) String
  pub geoip6 : Table (String × String) String

-- `SELECT start, end … WHERE country IN (..)`
unfoldable pub blocked_ranges :
    List String → Table (String × String) String → List (String × String)
blocked_ranges countries t =
    map (λ (row : (String × String) × String). row.0)
      (retain (λ (row : (String × String) × String). contains countries row.1) t)

-- What is outside: the lines of Cloudflare's two lists, and the GeoIP database.
pub record Sources : Type 0 where
  pub ips_v4 : Outcome NftError (List String)
  pub ips_v6 : Outcome NftError (List String)
  pub geoip : Option GeoDb

unfoldable pub generate_cloudflare_elements : Sources → NftSet → Outcome NftError Rule
unfolding set_name
generate_cloudflare_elements src cloudflare4 = do
  ips ← src.ips_v4
  ok (set_rule_gen (set_name cloudflare4) (lines ips))
generate_cloudflare_elements src cloudflare6 = do
  ips ← src.ips_v6
  ok (set_rule_gen (set_name cloudflare6) (lines ips))
generate_cloudflare_elements src _ = err wrong_set

unfoldable pub generate_blocked_elements : Sources → NftSet → Outcome NftError Rule
unfolding set_name blocked_ranges
generate_blocked_elements src (out_blocked4 countries) = do
  db ← ok_or src.geoip no_geoip
  ok (
      set_rule_gen (set_name (out_blocked4 countries))
        (ranges (blocked_ranges countries db.geoip4)))
generate_blocked_elements src (out_blocked6 countries) = do
  db ← ok_or src.geoip no_geoip
  ok (
      set_rule_gen (set_name (out_blocked6 countries))
        (ranges (blocked_ranges countries db.geoip6)))
generate_blocked_elements src _ = err wrong_set

-- The rule that `write_rule` writes.
unfoldable pub rule_of : Sources → NftSet → Outcome NftError Rule
unfolding generate_cloudflare_elements generate_blocked_elements generate_ssh_rule
    generate_inbound_rule
rule_of src cloudflare4 = generate_cloudflare_elements src cloudflare4
rule_of src cloudflare6 = generate_cloudflare_elements src cloudflare6
rule_of src (out_blocked4 countries) = generate_blocked_elements src (out_blocked4 countries)
rule_of src (out_blocked6 countries) = generate_blocked_elements src (out_blocked6 countries)
rule_of src (ssh_pre s) = generate_ssh_rule (ssh_pre s)
rule_of src (ssh_post s) = generate_ssh_rule (ssh_post s)
rule_of src (inbound s) = generate_inbound_rule (inbound s)

abbrev pub FilePath : Type 0
FilePath = String × String

-- The map that is returned, and the files in the data directory.
pub record Ops : Type 0 where
  pub ops : Map FilePath
  pub files : Table FilePath Rule

-- An error keeps the files written before it.
pub data Generated : Type 0 where
  generated : Ops → Generated
  not_generated : NftError → Ops → Generated

abbrev pub and_generated : Generated → (Ops → Generated) → Generated
and_generated (generated o) next = next o
and_generated (not_generated e o) next = not_generated e o

-- `ops.entry(set.to_string()).or_insert(set.write_rule(..).await?)`
unfoldable pub put_rule : String → String → Outcome NftError Rule → Ops → Generated
put_rule server name (err e) o = not_generated e o
put_rule server name (ok rule) o = generated (record {
  ops = or_insert name (server, name) o.ops;
  files = upsert (server, name) rule o.files;
})

-- The sets of an action, in the order they are written.
unfoldable pub sets_of : KetServer → AnsibleAction → List NftSet
sets_of s ssh_setup = ssh_pre s ∷ ssh_post s ∷ []
sets_of s full_setup =
    cloudflare4
    ∷ cloudflare6
    ∷ out_blocked4 s.outbound_block
    ∷ out_blocked6 s.outbound_block
    ∷ inbound s
    ∷ ssh_pre s
    ∷ ssh_post s
    ∷ []
sets_of s del_inbound = inbound s ∷ []
sets_of s add_inbound = inbound s ∷ []
sets_of s outblocked_update =
    cloudflare4 ∷ cloudflare6 ∷ out_blocked4 s.outbound_block ∷ out_blocked6 s.outbound_block ∷ []
sets_of s _ = []

unfoldable pub write_sets : Sources → String → List NftSet → Ops → Generated
unfolding set_name rule_of put_rule
write_sets src server [] o = generated o
write_sets src server (set ∷ sets) o =
    and_generated (put_rule server (set_name set) (rule_of src set) o) (write_sets src server sets)

unfoldable pub write_actions : Sources → KetServer → List AnsibleAction → Ops → Generated
unfolding sets_of write_sets
write_actions src s [] o = generated o
write_actions src s (action ∷ actions) o =
    and_generated (write_sets src s.name (sets_of s action) o) (write_actions src s actions)

unfoldable pub generate_nftops :
    Sources → List AnsibleAction → KetServer → Table FilePath Rule → Generated
unfolding write_actions
generate_nftops src actions s files =
    write_actions src s actions (record { ops = []; files = files })
