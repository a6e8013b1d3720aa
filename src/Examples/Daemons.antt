-- ===== src/Examples/Daemons.antt =====
-- The theorems on the firewall and on the daemon, each at a concrete input.
use xcplane.Common.{
  Bool, ◌+◌, ℕ, ◌≤◌, String, true, false, not, Option, none, some, List, [], ◌∷◌, Outcome, ok,
  string_eq, nat_eq, pair_eq, is_some, contains, nat_eqb, any, all, All, is_empty, Distinct, inl,
  inr, if◌then◌else◌, ◌&&◌, ◌||◌, ◌≡◌, refl, arith,
}
use xcplane.Ip.{IpAddr, v4}
use xcplane.Server.{Inbound, KetServer, Cloud}
use xcplane.Server.Kind.{ssh, nginx}
use xcplane.Actions.{AnsibleAction, ssh_setup, add_inbound}
use xcplane.Monitor.{healthy, sick}
use xcplane.Database.{Db, DbError}
use xcplane.Database.Setup.{create_db}
use xcplane.Database.Update.{update_db}
use xcplane.Database.Load.{load_cloud}
use xcplane.Database.Load.Rows.{find_server}
use xcplane.Database.Load.RoundTrip.{LoadedAs}
use xcplane.Database.Marks.{Site, mark_server_production}
use xcplane.Database.Marks.Agreement.{is_marked}
use xcplane.Firewall.{
  Sources, ports, ssh_pre, ssh_post, inbound, rule_of, Ops, generated, generate_nftops, sets_of,
  GeoDb, blocked_ranges,
}
use xcplane.Firewall.Rules.{rule_of-ports}
use xcplane.Firewall.Files.{Wrote, sets, generate_nftops-Wrote}
use xcplane.Firewall.Geoip.{GeoRecord, create_geoip_db}
use xcplane.Firewall.Geoip.Ranges.{
  both_v4, both_v6, is_blocked, first_country, blocked_ranges-create_geoip_db,
}
use xcplane.Config.Steps.{ConfigError}
use xcplane.Daemon.{TaskEntry, aggregator, full_setup, detached, TaskMap, handle_of}
use xcplane.Daemon.Monitors.{Registry, prod_servers, start_monitors}
use xcplane.Daemon.Monitors.Watched.{IsWatched, runs_in, start_monitors-IsWatched}
use xcplane.Server.Methods.{get_jsub}
use xcplane.Daemon.Tasks.{Change, expand, ended, changes, expand_cloud, after}
use xcplane.Daemon.Tasks.Setups.{setups, setups-changes}
use xcplane.Daemon.Tasks.Expansion.{IsPicked, expand_cloud-IsPicked}
use xcplane.Daemon.Next.{
  rebase_comm, init_state, Start, runs, start, check_and_backup, exit_remap, plain, update_failed,
}
use xcplane.Daemon.Next.Remaps.{start-remapped}
use xcplane.Reconcile.Merge.{remap}
use xcplane.Daemon.Next.Cycles.{CheckedFrom, check_and_backup-CheckedFrom, start-load_cloud}
use xcplane.Daemon.Reports.{TaskSummary, SvcSummary, short, join, get_summary}
use xcplane.Daemon.Reports.Contents.{
  is_running, is_well, report_lines, count, bad_tasks, bad_services, get_summary-short,
}
use xcplane.Reconcile.Cloud.{Reconciled, last_named, reconcile_cloud}
use xcplane.Examples.{declared, running, redeclared, reality, settings, conn, old_cloud, new_cloud}
use xcplane.Examples.Clouds.{world, cloud_or_old, first_of}
use xcplane.Examples.Stores.{provisioned_cloud, blank_db, blank_db-IsLinked}

abbrev pub src : Sources
src = record { ips_v4 = ok []; ips_v6 = ok []; geoip = none }

rule_of-ports_example :
    (transient opened : List ℕ) × (rule_of src (ssh_pre running)
      ≡ ok (record { name = "ssh"; elements = ports transient }))
    × ((p : ℕ) → contains transient p ≡ (nat_eqb 22 p || nat_eqb running.ssh_port p))
    × Distinct transient
    × (rule_of src (ssh_post running)
        ≡ ok (record { name = "ssh"; elements = ports (running.ssh_port ∷ []) }))
    × (rule_of src (inbound running) ≡ ok (record { name = "inbound"; elements = ports opened }))
    × ((p : ℕ)
        → contains opened p
          ≡ (not (nat_eqb p 0) && any (λ (i : Inbound). nat_eqb i.port p) running.inbounds))
rule_of-ports_example = rule_of-ports src running {conn = conn} {port = 22} refl refl

abbrev two_actions : List AnsibleAction
two_actions = add_inbound ∷ ssh_setup ∷ []

generate_nftops-Wrote_example :
    (o : Ops) × (generate_nftops src two_actions running [] ≡ generated o)
    × Wrote src running (sets running two_actions) (record { ops = []; files = [] }) o
unfolding rule_of sets_of
generate_nftops-Wrote_example = generate_nftops-Wrote src two_actions running [] refl

abbrev parse : String → Option IpAddr
parse s = some (v4 1)

abbrev records : List GeoRecord
records = record { start = "1.0.0.0"; stop = "1.0.0.255"; country = "AU" } ∷ []

blocked_ranges-create_geoip_db_example :
    (db : GeoDb) × (create_geoip_db parse records ≡ ok db)
    × ((k : String × String)
        → contains (blocked_ranges ("AU" ∷ []) db.geoip4) k
          ≡ is_blocked ("AU" ∷ []) (first_country parse both_v4 records k))
    × ((k : String × String)
        → contains (blocked_ranges ("AU" ∷ []) db.geoip6) k
          ≡ is_blocked ("AU" ∷ []) (first_country parse both_v6 records k))
blocked_ranges-create_geoip_db_example =
    blocked_ranges-create_geoip_db parse records ("AU" ∷ []) refl

abbrev pub fresh : KetServer
fresh = record declared { ansible_conn = some conn }

abbrev fresh_cloud : Cloud
fresh_cloud = record { servers = running ∷ fresh ∷ []; settings = settings }

abbrev two_changes : List Change
two_changes =
    expand fresh_cloud none ∷ ended (full_setup fresh) ∷ expand fresh_cloud (some "alpha") ∷ []

setups-changes_example : setups (changes [] two_changes) ≤ 1
setups-changes_example = setups-changes [] two_changes (omega arith)

abbrev started : TaskMap
unfolding expand_cloud
started = after [] (expand_cloud fresh_cloud none [])

expand_cloud-IsPicked_example :
    (s : KetServer) × (s.name ≡ "alpha")
    × IsPicked fresh_cloud none s
    × (handle_of (full_setup s) started ≡ some (detached false))
    × ((token : String) (site : Site)
        → is_marked (mark_server_production token (record site { server = s }))
          ≡ (is_some s.ansible_conn && is_some site.config))
unfolding expand_cloud started
expand_cloud-IsPicked_example =
    expand_cloud-IsPicked fresh_cloud none [] {n = "alpha"} {m' = started} (omega arith) refl refl

abbrev read_config : Outcome ConfigError Cloud
read_config = ok new_cloud

check_and_backup-CheckedFrom_example :
    CheckedFrom read_config true
      ("alpha" ∷ [])
      (λ n. [])
      old_cloud
      started
      (rebase_comm true)
      (check_and_backup read_config true
        ("alpha" ∷ [])
        (λ n. [])
        old_cloud
        started
        (rebase_comm true))
check_and_backup-CheckedFrom_example =
    check_and_backup-CheckedFrom read_config true ("alpha" ∷ []) (λ n. []) old_cloud started
      (rebase_comm true)

abbrev tasks : List TaskSummary
tasks = record { task = "Aggregator"; running = true } ∷ []

abbrev services : List SvcSummary
services =
    record { server = "alpha"; service = ssh; health = healthy }
    ∷ record { server = "alpha"; service = nginx; health = sick }
    ∷ []

get_summary-short_example :
    (get_summary services tasks false
      ≡ short (
          if all is_running tasks && all is_well services
          then (if is_empty services
              then "All tasks are running."
              else "All tasks are running. All services are Ok.")
          else join (report_lines services tasks)))
    × ((p : String → Bool)
        → count p (report_lines services tasks) ≡ bad_tasks p tasks + bad_services p services)
get_summary-short_example = get_summary-short services tasks

abbrev cycle : Start
unfolding start
cycle = start world (ok "config") (ok provisioned_cloud) init_state none [] none

abbrev pub cloud_of : Start → Cloud
cloud_of (runs cloud db r) = cloud
cloud_of _ = old_cloud

abbrev pub stored_db : Start → Db
stored_db (runs cloud db r) = db
stored_db _ = blank_db

abbrev pub reconciled_of : Start → Reconciled
reconciled_of (runs cloud db r) = r
reconciled_of _ = record { dirs = []; cf_list = none; outcome = ok old_cloud }

start-load_cloud_example :
    ((load_cloud (stored_db cycle)).settings ≡ (cloud_of cycle).settings)
    × ((n : String)
        → LoadedAs
            (last_named n (cloud_of cycle).servers)
            (find_server n (load_cloud (stored_db cycle)).servers))
unfolding start cycle reconcile_cloud create_db load_cloud update_db
start-load_cloud_example =
    start-load_cloud world (ok "config") (ok provisioned_cloud) init_state none [] none
      {recon = cloud_of cycle} {db' = stored_db cycle} {r = reconciled_of cycle} blank_db-IsLinked
      (refl, tt) (refl, tt) refl refl

abbrev remapped : Cloud
unfolding reconcile_cloud
remapped = cloud_or_old (reconcile_cloud world old_cloud new_cloud remap none none []).outcome

start-remapped_example :
    (e : DbError) × (db' : Db) × (start world
        (ok "config")
        (ok new_cloud)
        (plain exit_remap remap old_cloud new_cloud)
        none
        []
        none
      ≡ update_failed e db')
unfolding remapped reconcile_cloud
start-remapped_example =
    start-remapped world "config" (ok new_cloud) old_cloud new_cloud none [] none {recon = remapped}
      (first_of remapped.servers) running redeclared reality refl refl (inl refl)
      (unfold last_named in refl) (unfold last_named in refl) (inr (inl refl)) refl

-- A server that is served, with a mother sub-ID for its inbound.
abbrev pub linked : KetServer
linked = record running {
  secrets = record running.secrets { mother_subids = ("tls1", "sub") ∷ [] };
}

abbrev pub linked_cloud : Cloud
linked_cloud = record { servers = linked ∷ fresh ∷ []; settings = settings }

abbrev pub registry : Registry
registry = record { tasks = []; actions = []; chats = []; port = 10000 }

start_monitors-IsWatched_example :
    (r' : Registry) × (start_monitors some (λ n. true) linked_cloud registry ≡ ok r')
    × All (IsWatched some r'.tasks) (prod_servers linked_cloud)
    × ((e : TaskEntry)
        → (runs_in e registry.tasks && runs_in e r'.tasks) ≡ runs_in e registry.tasks)
    × ((is_empty (prod_servers linked_cloud) || runs_in aggregator r'.tasks) ≡ true)
unfolding prod_servers get_jsub
start_monitors-IsWatched_example =
    start_monitors-IsWatched some (λ n. true) linked_cloud registry ((refl, (refl, tt)), tt) refl
