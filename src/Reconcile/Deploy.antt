-- ===== src/Reconcile/Deploy.antt =====
-- src/cloud/reconcile.rs: `deploy_rebase`. The actions that a server needs are computed first and
-- run at once for all servers; the runs end in an order of their own.
pub mod Planned
use xcplane.Common.{
  ℕ, String, Bool, true, false, not, Option, none, some, List, [], ◌∷◌, ◌++◌, Map, lookup, Outcome,
  ok, err, ok_or, is_subset, is_empty, map, str_eq, string_eq, nat_eqb, ◌>>=◌, ◌>>◌, ensure,
  if◌then◌else◌, ◌&&◌, ◌||◌,
}
use xcplane.Ip.{ip_eqb}
use xcplane.Server.{AnsibleConn, CfState, KetServer}
use xcplane.Actions.{
  AnsibleAction, ports_check, dns_reset, cloudflare_del, cloudflare, acme, nginx, doh,
  outblocked_update, xui_auth, del_inbound, add_inbound, panel_settings, fail2ban, firewall,
  ssh_setup, sort_unique,
}
use xcplane.Reconcile.Merge.{ReconError, no_cfstate, no_old_conn, run_failed}
use xcplane.Reconcile.RebaseData.{RebaseData}

-- `if test { actions.append(list) }`
abbrev pub actions_if : Bool → List AnsibleAction → List AnsibleAction
actions_if test l = if test then l else []

unfoldable pub same_set : List String → List String → Bool
same_set a b = is_subset a b && is_subset b a

unfoldable pub bool_eqb : Bool → Bool → Bool
bool_eqb true b = b
bool_eqb false b = not b

-- The tests of the function, in its order.
unfoldable pub ip_changed : KetServer → KetServer → Bool
ip_changed old new = not (ip_eqb old.ip new.ip)

unfoldable pub domain_changed : KetServer → KetServer → Bool
domain_changed old new = not (str_eq old.domain new.domain)

unfoldable pub dns_changed : KetServer → KetServer → Bool
dns_changed old new = not (str_eq old.dns_subdomain new.dns_subdomain)

unfoldable pub ui_changed : KetServer → KetServer → Bool
ui_changed old new = not (str_eq old.ui_subdomain new.ui_subdomain)

unfoldable pub sub_changed : KetServer → KetServer → Bool
sub_changed old new = not (str_eq old.sub_subdomain new.sub_subdomain)

unfoldable pub ssh_port_changed : KetServer → KetServer → Bool
ssh_port_changed old new = not (nat_eqb old.ssh_port new.ssh_port)

unfoldable pub proxy_changed : KetServer → KetServer → CfState → CfState → Bool
unfolding bool_eqb
proxy_changed old new old_cf new_cf =
    not (bool_eqb old.cloudflare_proxied new.cloudflare_proxied)
    || not (bool_eqb old_cf.cloudflare_only new_cf.cloudflare_only)

unfoldable pub outbound_changed : KetServer → KetServer → Bool
unfolding same_set
outbound_changed old new = not (same_set old.outbound_block new.outbound_block)

-- The actions before the Cloudflare states are read.
unfoldable pub host_actions : KetServer → KetServer → List AnsibleAction
unfolding ip_changed domain_changed dns_changed ui_changed sub_changed ssh_port_changed
host_actions old new =
    actions_if (ip_changed old new) (cloudflare ∷ [])
    ++ (actions_if (domain_changed old new)
          (dns_reset ∷ cloudflare_del ∷ cloudflare ∷ acme ∷ nginx ∷ doh ∷ [])
        ++ (actions_if (dns_changed old new)
              (dns_reset ∷ cloudflare_del ∷ cloudflare ∷ nginx ∷ doh ∷ [])
            ++ (actions_if (ui_changed old new) (cloudflare_del ∷ cloudflare ∷ nginx ∷ [])
                ++ (actions_if (sub_changed old new)
                      (cloudflare_del ∷ cloudflare ∷ nginx ∷ xui_auth ∷ panel_settings ∷ [])
                    ++ actions_if (ssh_port_changed old new)
                        (ports_check ∷ ssh_setup ∷ fail2ban ∷ [])))))

unfoldable pub inbound_actions : Option RebaseData → List AnsibleAction
inbound_actions none = []
inbound_actions (some entry) =
    actions_if (not (is_empty entry.removed_inbounds)) (xui_auth ∷ del_inbound ∷ [])
    ++ actions_if (not (is_empty entry.added_inbounds)) (ports_check ∷ xui_auth ∷ add_inbound ∷ [])

unfoldable pub collected_actions :
    KetServer → KetServer → CfState → CfState → Option RebaseData → List AnsibleAction
unfolding host_actions proxy_changed outbound_changed inbound_actions
collected_actions old new old_cf new_cf entry =
    host_actions old new
    ++ (actions_if (proxy_changed old new old_cf new_cf)
          (cloudflare ∷ nginx ∷ fail2ban ∷ firewall ∷ [])
        ++ (actions_if (outbound_changed old new) (outblocked_update ∷ [])
            ++ inbound_actions entry))

unfoldable pub planned_actions :
    KetServer → KetServer → Option RebaseData → Outcome ReconError (List AnsibleAction)
unfolding collected_actions
planned_actions old new entry = do
  old_cf ← ok_or old.cfstate no_cfstate
  new_cf ← ok_or new.cfstate no_cfstate
  ok (sort_unique (collected_actions old new old_cf new_cf entry))

-- `AnsibleRun`, without the workspace.
pub record RunTask : Type 0 where
  pub server : KetServer
  pub actions : List AnsibleAction
  pub rebase_data : Option RebaseData

add_task : RunTask → List RunTask → List RunTask
add_task task tasks = if is_empty task.actions then tasks else task ∷ tasks

-- The first loop, over pairs of an old server and its merge.
unfoldable pub schedule :
    List (KetServer × KetServer) → Map RebaseData → Outcome ReconError (List RunTask)
unfolding add_task planned_actions
schedule [] table = ok []
schedule ((old, new) ∷ pairs) table = do
  actions ← planned_actions old new (lookup old.name table)
  tasks ← schedule pairs table
  ok (
      add_task (record { server = new; actions = actions; rebase_data = lookup old.name table })
        tasks)

-- What is stored in the server after its run.
unfoldable pub updated_server : KetServer → Outcome ReconError KetServer
updated_server s = do
  old_conn ← ok_or s.ansible_conn no_old_conn
  ok (record s {
    ansible_conn =
        some (record old_conn { ansible_port = some s.ssh_port; ansible_connection = none });
  })

-- The second loop, in the order in which the runs end. `run` says whether the playbook of a task
-- succeeds, or is the error that kept it from running.
unfoldable pub collect :
    (RunTask → Outcome ReconError Bool) → List RunTask → Outcome ReconError (List KetServer)
unfolding updated_server
collect run [] = ok []
collect run (task ∷ tasks) = do
  success ← run task
  ensure success (run_failed task.server.name)
  server ← updated_server task.server
  servers ← collect run tasks
  ok (server ∷ servers)

-- The servers whose connection changes. `finish` orders the tasks by the end of their runs.
unfoldable pub deploy_rebase :
    (RunTask → Outcome ReconError Bool)
    → (List RunTask → List RunTask)
    → List (KetServer × KetServer)
    → Map RebaseData
    → Outcome ReconError (List KetServer)
unfolding schedule collect
deploy_rebase run finish pairs table = do tasks ← schedule pairs table; collect run (finish tasks)
