-- ===== src/Reconcile/Cloud.antt =====
-- src/cloud/reconcile.rs: `reconcile_cloud`. Its arguments are the state that it changes (the data
-- directories of the servers and the Cloudflare list) and `World`: the answers of Cloudflare, which
-- directories can be removed, the runs of playbooks and their order, and `names`, the order in
-- which the `HashSet` of all names is walked.
pub mod Origins
pub mod Identity
use xcplane.Common.{
  ℕ, String, Bool, true, false, Option, none, some, List, [], ◌∷◌, ◌++◌, Map, Outcome, ok, err,
  ok_or, contains, remove, insert_new, is_empty, map, find?, str_eq, string_eq, ◌>>=◌,
  if◌then◌else◌, or_else,
}
use xcplane.Ip.{IpAddr, ip_eq}
use xcplane.Server.{ServerState, offgrid, production, KetServer, Cloud}
use xcplane.Config.Inbounds.{inbound_pair}
use xcplane.Cloudflare.{CfError, Answers, prepare_cloudflare_state}
use xcplane.Reconcile.Merge.{
  ReconMode, reload, remap, rebase, ReconError, domain_in_use, ip_in_use, cannot_remove_dir,
  no_rebase_data, unmatched, cf_failed, merge_server,
}
use xcplane.Reconcile.RebaseData.{RebaseData}
use xcplane.Reconcile.Deploy.{RunTask, deploy_rebase}

pub record World : Type 0 where
  pub answers : Answers
  pub can_remove : String → Bool
  pub run : RunTask → Outcome ReconError Bool
  pub finish : List RunTask → List RunTask
  pub names : List String

-- `collect` into a `HashMap`: of two servers of a name the later stays.
unfoldable pub last_named : String → List KetServer → Option KetServer
last_named n [] = none
last_named n (s ∷ servers) =
    or_else (last_named n servers) (if str_eq s.name n then some s else none)

-- `domains_set` and `ips_set`
pub record Used : Type 0 where
  pub domains : List String
  pub ips : List IpAddr

-- The directories after the removal of one; `none` when it fails.
unfoldable pub remove_dir : (String → Bool) → String → List String → Option (List String)
remove_dir can_remove n dirs =
    if contains dirs n then if can_remove n then some (remove n dirs) else none else some dirs

-- The deletion round.
unfoldable pub deletion_round :
    (String → Bool)
    → List (Option KetServer × Option KetServer)
    → Used
    → List String
    → List String × Outcome ReconError Used
unfolding remove_dir
deletion_round can_remove [] used dirs = (dirs, ok used)
deletion_round can_remove ((some s, none) ∷ pairs) used dirs =
    let used' : Used = record {
      domains = remove s.domain used.domains;
      ips = remove s.ip used.ips;
    } in
    elim (remove_dir can_remove s.name dirs) [
      | none ↦ (dirs, err (cannot_remove_dir s.name))
      | some dirs' ↦ deletion_round can_remove pairs used' dirs'
    ]
deletion_round can_remove ((some s, some t) ∷ pairs) used dirs =
    deletion_round can_remove pairs used dirs
deletion_round can_remove ((none, t) ∷ pairs) used dirs = deletion_round can_remove pairs used dirs

-- What the second round carries from one server to the next.
pub record Pass : Type 0 where
  pub used : Used
  pub merged : List KetServer
  pub to_rebase : List (KetServer × KetServer)

-- `servers_to_rebase` after the merge of `old` and `new`.
rebase_pairs :
    ReconMode
    → ServerState
    → KetServer
    → KetServer
    → List (KetServer × KetServer)
    → List (KetServer × KetServer)
rebase_pairs rebase production old merged pairs = pairs ++ (old, merged) ∷ []
rebase_pairs rebase offgrid old merged pairs = pairs
rebase_pairs reload state old merged pairs = pairs
rebase_pairs remap state old merged pairs = pairs

unfoldable pub merge_one :
    ReconMode
    → List (String × ℕ)
    → Option KetServer
    → Option KetServer
    → Pass
    → Outcome ReconError Pass
unfolding merge_server rebase_pairs
merge_one mode set none (some s) pass = do
  domains ← insert_new s.domain pass.used.domains (domain_in_use s.name)
  ips ← insert_new s.ip pass.used.ips (ip_in_use s.name)
  ok (record pass {
    used = record { domains = domains; ips = ips };
    merged = pass.merged ++ s ∷ [];
  })
merge_one mode set (some old) (some new) pass = do
  merged ← merge_server mode old new set
  ok (record pass {
    merged = pass.merged ++ merged ∷ [];
    to_rebase = rebase_pairs mode new.state old merged pass.to_rebase;
  })
merge_one mode set (some old) none pass = ok pass
merge_one mode set none none pass = err unmatched

unfoldable pub merge_round :
    ReconMode
    → List (String × ℕ)
    → List (Option KetServer × Option KetServer)
    → Pass
    → Outcome ReconError Pass
unfolding merge_one
merge_round mode set [] pass = ok pass
merge_round mode set ((old, new) ∷ pairs) pass =
    merge_one mode set old new pass >>= merge_round mode set pairs

unfoldable pub all_servers :
    Cloud → Cloud → List String → List (Option KetServer × Option KetServer)
unfolding last_named
all_servers old new names = map (λ n. (last_named n old.servers, last_named n new.servers)) names

-- A server to rebase is shared with the final cloud, whose Cloudflare states are set by now.
unfoldable pub shared : List KetServer → KetServer × KetServer → KetServer × KetServer
shared servers (old, merged) = elim (find? (λ (s : KetServer). str_eq s.name merged.name) servers) [
  | none ↦ (old, merged)
  | some s ↦ (old, s)
]

-- The connections that the runs have stored, in the servers of the cloud.
unfoldable pub connected : Option KetServer → KetServer → KetServer
connected none s = s
connected (some u) s = record s { ansible_conn = u.ansible_conn }

unfoldable pub with_connection : List KetServer → KetServer → KetServer
unfolding connected
with_connection updated s = connected (find? (λ (u : KetServer). str_eq u.name s.name) updated) s

-- The remote part of a Rebase.
unfoldable pub apply_rebase :
    World
    → ReconMode
    → Option (Map RebaseData)
    → List (KetServer × KetServer)
    → Cloud
    → Outcome ReconError Cloud
unfolding deploy_rebase shared with_connection
apply_rebase world reload table to_rebase cloud = ok cloud
apply_rebase world remap table to_rebase cloud = ok cloud
apply_rebase world rebase table to_rebase cloud = do
  data_by_name ← ok_or table no_rebase_data
  updated ← deploy_rebase world.run world.finish (map (shared cloud.servers) to_rebase) data_by_name
  ok (record cloud { servers = map (with_connection updated) cloud.servers })

from_cf : Outcome CfError Cloud → Outcome ReconError Cloud
from_cf (ok cloud) = ok cloud
from_cf (err e) = err (cf_failed e)

pub record Reconciled : Type 0 where
  pub dirs : List String
  pub cf_list : Option String
  pub outcome : Outcome ReconError Cloud

-- The function after the second round.
unfoldable pub after_merge :
    World
    → Cloud
    → ReconMode
    → Option (Map RebaseData)
    → Option String
    → List String
    → Outcome ReconError Pass
    → Reconciled
unfolding prepare_cloudflare_state from_cf apply_rebase
after_merge world new mode table cf_list dirs (err e) = record {
  dirs = dirs;
  cf_list = cf_list;
  outcome = err e;
}
after_merge world new mode table cf_list dirs (ok pass) =
    let final : Cloud = record { servers = pass.merged; settings = new.settings } in
    let prepared = prepare_cloudflare_state world.answers final cf_list in
    record {
      dirs = dirs;
      cf_list = prepared.0;
      outcome = from_cf prepared.1 >>= apply_rebase world mode table pass.to_rebase;
    }

-- The function after the deletion round.
unfoldable pub after_deletion :
    World
    → Cloud
    → Cloud
    → ReconMode
    → Option (Map RebaseData)
    → Option String
    → List String
    → Outcome ReconError Used
    → Reconciled
unfolding all_servers merge_round after_merge
after_deletion world old new mode table cf_list dirs (err e) = record {
  dirs = dirs;
  cf_list = cf_list;
  outcome = err e;
}
after_deletion world old new mode table cf_list dirs (ok used) =
    after_merge world new mode table cf_list dirs (
      merge_round mode (map inbound_pair new.settings.inbound_set) (all_servers old new world.names)
        (record { used = used; merged = []; to_rebase = [] }))

-- The function where there is no old server.
unfoldable pub first_cloud : World → Cloud → Option String → List String → Reconciled
unfolding prepare_cloudflare_state from_cf
first_cloud world new cf_list dirs =
    let prepared = prepare_cloudflare_state world.answers new cf_list in
    record { dirs = dirs; cf_list = prepared.0; outcome = from_cf prepared.1 }

-- The function where there is one.
unfoldable pub next_cloud :
    World
    → Cloud
    → Cloud
    → ReconMode
    → Option (Map RebaseData)
    → Option String
    → List String
    → Reconciled
unfolding all_servers deletion_round after_deletion
next_cloud world old new mode table cf_list dirs =
    let used : Used = record {
      domains = map (λ (s : KetServer). s.domain) old.servers;
      ips = map (λ (s : KetServer). s.ip) old.servers;
    } in
    let deleted = deletion_round world.can_remove (all_servers old new world.names) used dirs in
    after_deletion world old new mode table cf_list deleted.0 deleted.1

unfoldable pub reconcile_cloud :
    World
    → Cloud
    → Cloud
    → ReconMode
    → Option (Map RebaseData)
    → Option String
    → List String
    → Reconciled
unfolding first_cloud next_cloud
reconcile_cloud world old new mode table cf_list dirs =
    if is_empty old.servers
    then first_cloud world new cf_list dirs
    else next_cloud world old new mode table cf_list dirs
