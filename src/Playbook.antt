-- ===== src/Playbook.antt =====
-- What a run of the playbook is given: `write_ansible_vars`, `task_gen` and `hide_secrets`
-- (src/ansible.rs). The ID of the tasks is kept as its parts. The path of the latest backup is an
-- argument, `none` where there is no backup; the directory of the server can be made and written.
-- Of the fields of `AnsibleVars` the data directory and the two suffixes are left out.
pub mod Vars
use xcplane.Common.{
  ℕ, String, Bool, true, false, not, Option, none, some, List, [], ◌∷◌, ◌++◌, map, retain, contains,
  nat_eq, nat_eqb, str_eq, any, if◌then◌else◌, ◌&&◌, Map, put_key,
}
use xcplane.Server.{Inbound, Secrets, AnsibleConn, CfState, KetServer}
use xcplane.Server.Kind.{super_name}
use xcplane.Actions.{AnsibleAction, action_id, taskname, sort_unique, full_setup, xray_restore_db}
use xcplane.Reconcile.RebaseData.{RebaseData}
use xcplane.Database.Tables.{Table}
use xcplane.Firewall.{
  FilePath, Rule, Sources, NftError, Ops, Generated, generated, not_generated, generate_nftops,
}

abbrev pub unbound_port : ℕ
unbound_port = 444

abbrev pub ui_port : ℕ
ui_port = 400

-- `SUB_PORT`
abbrev pub subscription_port : ℕ
subscription_port = 401

-- `self.actions.contains(&action)`
abbrev pub has_action : AnsibleAction → List AnsibleAction → Bool
has_action action l = any (λ a. nat_eqb (action_id a) (action_id action)) l

pub record AnsibleTasks : Type 0 where
  pub tasks : List String
  pub id : List ℕ

unfoldable pub task_gen : List AnsibleAction → AnsibleTasks
unfolding taskname action_id
task_gen actions = record { tasks = map taskname actions; id = map action_id actions }

pub record AnsibleVars : Type 0 where
  pub ansible_tasks : List String
  pub full_setup : Bool
  pub node_name : String
  pub base_hostname : String
  pub node_region : String
  pub ssh_port : ℕ
  pub dns_subdomain : String
  pub ui_subdomain : String
  pub sub_subdomain : String
  pub secrets : Secrets
  pub cloudflare_proxied : Bool
  pub cloudflare_state : CfState
  pub unbound_https_port : ℕ
  pub ui_webport : ℕ
  pub sub_port : ℕ
  pub new_ports : List ℕ
  pub nftops : Map FilePath
  pub inbound_data : List Inbound
  pub rebase_data : Option RebaseData
  pub latest_backup : Option String  -- the one entry of `extra`

-- The variables for the playbook, those of the file beside it, the hosts of the inventory (a
-- `HashMap`) and the parts of the names of the files.
pub record AnsibleData : Type 0 where
  pub ansible_vars : AnsibleVars
  pub vars_file : AnsibleVars
  pub inventory : Map AnsibleConn
  pub id : List ℕ

-- `hide_secrets`
unfoldable pub hide_secrets : AnsibleVars → AnsibleVars
hide_secrets vars = record vars {
  secrets = record {
    health_path = "******";
    doh_endpoint = "******";
    xui_username = "******";
    xui_password = "******";
    xui_token = some "******";
    xui_webpath = "******";
    xui_subpath = "******";
    xui_jsubpath = "******";
    mother_subids = [];
  };
}

pub data VarsError : Type 0 where
  no_backup no_cf_state no_ansible_conn : VarsError
  no_rules : NftError → VarsError

-- Rules that were written before an error stay.
pub data Prepared : Type 0 where
  prepared : AnsibleData → Table FilePath Rule → Prepared
  not_prepared : VarsError → Table FilePath Rule → Prepared

-- `Some(port) != Some(ssh_port)`
abbrev pub is_other_port : Option ℕ → ℕ → Bool
is_other_port none port = true
is_other_port (some p) port = not (nat_eqb p port)

inbound_ports : List Inbound → List ℕ
inbound_ports l = map (λ (inb : Inbound). inb.port) l

-- The ports that a Rebase adds.
unfoldable pub rebase_ports : Option RebaseData → List ℕ
unfolding inbound_ports
rebase_ports none = []
rebase_ports (some changes) =
    retain (λ p. not (contains (inbound_ports changes.removed_inbounds) p))
      (inbound_ports changes.added_inbounds)

unfoldable pub new_ports : KetServer → AnsibleConn → Bool → Option RebaseData → List ℕ
unfolding rebase_ports
new_ports s conn setup changes =
    (if is_other_port conn.ansible_port s.ssh_port then s.ssh_port ∷ [] else [])
    ++ (if setup then unbound_port ∷ ui_port ∷ subscription_port ∷ [] else rebase_ports changes)

abbrev pub local_conn : AnsibleConn
local_conn = record {
  ansible_host = none;
  ansible_port = none;
  ansible_user = none;
  ansible_connection = some "local";
}

vars_of :
    KetServer
    → CfState
    → AnsibleConn
    → List AnsibleAction
    → Option RebaseData
    → Option String
    → Map FilePath
    → AnsibleVars
unfolding new_ports task_gen
vars_of s cf conn actions changes backup ops = record {
  ansible_tasks = (task_gen actions).tasks;
  full_setup = has_action full_setup actions;
  node_name = s.name;
  base_hostname = s.domain;
  node_region = s.region;
  ssh_port = s.ssh_port;
  dns_subdomain = s.dns_subdomain;
  ui_subdomain = s.ui_subdomain;
  sub_subdomain = s.sub_subdomain;
  secrets = s.secrets;
  cloudflare_proxied = if cf.too_deep && s.cloudflare_proxied then false else s.cloudflare_proxied;
  cloudflare_state = cf;
  unbound_https_port = unbound_port;
  ui_webport = ui_port;
  sub_port = subscription_port;
  new_ports = new_ports s conn (has_action full_setup actions) changes;
  nftops = ops;
  inbound_data = retain (λ (inb : Inbound). not (str_eq inb.name super_name)) s.inbounds;
  rebase_data = changes;
  latest_backup = backup;
}

after_rules :
    KetServer
    → CfState
    → AnsibleConn
    → List AnsibleAction
    → Option RebaseData
    → Option String
    → Generated
    → Prepared
unfolding vars_of task_gen hide_secrets
after_rules s cf conn actions changes backup (not_generated e o) = not_prepared (no_rules e) o.files
after_rules s cf conn actions changes backup (generated o) =
    let vars = vars_of s cf conn actions changes backup o.ops in
    prepared
      (record {
        ansible_vars = vars;
        vars_file = hide_secrets vars;
        inventory = put_key "localhost" local_conn (put_key s.name conn []);
        id = (task_gen actions).id;
      })
      o.files

-- By the Cloudflare state and the connection of the server; the actions are sorted.
unfoldable pub with_states :
    Sources
    → KetServer
    → Option CfState
    → Option AnsibleConn
    → List AnsibleAction
    → Option RebaseData
    → Option String
    → Table FilePath Rule
    → Prepared
unfolding after_rules generate_nftops
with_states src s none conn actions changes backup files = not_prepared no_cf_state files
with_states src s (some cf) none actions changes backup files = not_prepared no_ansible_conn files
with_states src s (some cf) (some conn) actions changes backup files =
    after_rules s cf conn actions changes backup (generate_nftops src actions s files)

-- With the result of `last_xui_db`, which is asked for only when the backup is to be restored.
unfoldable pub write_ansible_vars :
    Sources
    → Option String
    → KetServer
    → List AnsibleAction
    → Option RebaseData
    → Table FilePath Rule
    → Prepared
unfolding with_states sort_unique
write_ansible_vars src none s actions changes files =
    if has_action xray_restore_db actions
    then not_prepared no_backup files
    else with_states src s s.cfstate s.ansible_conn (sort_unique actions) changes none files
write_ansible_vars src (some backup) s actions changes files =
    with_states src s s.cfstate s.ansible_conn (sort_unique actions) changes
      (if has_action xray_restore_db actions then some backup else none) files
