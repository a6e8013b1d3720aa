-- ===== src/Daemon/Monitors.antt =====
-- The monitors that a cycle starts: `daemon_core` (src/daemon/core.rs) from the aggregator to the
-- certificate checker of each server. Whether `new_xui_client` succeeds for the server of a name is
-- an argument, as is `Url::parse`. The senders of `svc_chat` are the entries they belong to, and
-- the counter `atomic_port` is a `u16` that wraps around.
pub mod Watched
pub mod Ports
use xcplane.Common.{
  ℕ, ◌+◌, ◌^◌, ◌%◌, String, Bool, true, false, Option, none, some, List, [], ◌∷◌, Outcome, ok, err,
  is_some, is_empty, str_eq, retain, if◌then◌else◌, ◌&&◌, ◌>>=◌,
}
use xcplane.Server.{Inbound, KetServer, Cloud}
use xcplane.Server.Kind.{ssh, nginx, xray, super_name}
use xcplane.Server.Methods.{get_jsub}
use xcplane.Monitor.{DashAction, unknown}
use xcplane.Daemon.{
  SvcInfo, TaskEntry, ssh_monitor, nginx_monitor, xray_monitor, aggregator, xui_db_pruner,
  acme_checker, TaskMap, same_entry, handle_of, spawn,
}
use xcplane.Daemon.Reports.{is_production}

abbrev pub nginx_port : ℕ
nginx_port = 443

pub record Registry : Type 0 where
  pub tasks : TaskMap
  pub actions : List (TaskEntry × DashAction)
  pub chats : List TaskEntry
  pub port : ℕ  -- u16

pub data StartError : Type 0 where
  no_client no_link : String → StartError

-- `DashAction::default()`
abbrev pub fresh_action : DashAction
fresh_action = record { svc_health = unknown; fix_try = 0; fix_action = none }

-- `action_map.entry(e).or_insert(DashAction::default())`
unfoldable pub enter_action :
    TaskEntry → List (TaskEntry × DashAction) → List (TaskEntry × DashAction)
unfolding same_entry
enter_action e [] = (e, fresh_action) ∷ []
enter_action e ((f, a) ∷ m) =
    let rest = enter_action e m in if same_entry f e then (f, a) ∷ m else (f, a) ∷ rest

-- `svc_chat.entry(e).or_insert(tx_svc)`
unfoldable pub enter_chat : TaskEntry → List TaskEntry → List TaskEntry
unfolding same_entry
enter_chat e [] = e ∷ []
enter_chat e (f ∷ l) = let rest = enter_chat e l in if same_entry f e then f ∷ l else f ∷ rest

-- The monitor of a service.
unfoldable pub watch : TaskEntry → Registry → Registry
unfolding handle_of spawn enter_action enter_chat
watch e r =
    let entered : Registry = record r { actions = enter_action e r.actions } in
    if is_some (handle_of e r.tasks)
    then entered
    else record entered { chats = enter_chat e r.chats; tasks = spawn e r.tasks }

-- A task that is not a monitor.
unfoldable pub keep : TaskEntry → Registry → Registry
unfolding handle_of spawn
keep e r = if is_some (handle_of e r.tasks) then r else record r { tasks = spawn e r.tasks }

abbrev pub ssh_info : KetServer → SvcInfo
ssh_info s = record { server = s; port = s.ssh_port; kind = ssh; link = none }

abbrev pub nginx_info : KetServer → SvcInfo
nginx_info s = record { server = s; port = nginx_port; kind = nginx; link = none }

-- The port of an inbound's monitor, and the counter after it.
unfoldable pub port_of : Inbound → ℕ → ℕ × ℕ
port_of inb counter =
    if str_eq inb.name super_name then (0, counter) else (counter, (counter + 1) % 2 ^ 16)

unfoldable pub prod_servers : Cloud → List KetServer
prod_servers cloud = retain (λ (s : KetServer). is_production s.state && s.enabled) cloud.servers

module _ (parse_url : String → Option String) where
  abbrev pub xray_info : KetServer → Inbound → ℕ → SvcInfo
  unfolding get_jsub
  xray_info s inb port = record {
    server = s;
    port = port;
    kind = xray inb.name;
    link = get_jsub parse_url inb s;
  }

  unfoldable pub start_inbound : KetServer → Inbound → Registry → Outcome StartError Registry
  unfolding port_of watch get_jsub
  start_inbound s inb r =
      let numbered : Registry = record r { port = (port_of inb r.port).1 } in
      if is_some (get_jsub parse_url inb s)
      then ok (watch (xray_monitor (xray_info s inb (port_of inb r.port).0)) numbered)
      else err (no_link inb.name)

  unfoldable pub start_inbounds : KetServer → List Inbound → Registry → Outcome StartError Registry
  unfolding start_inbound
  start_inbounds s [] r = ok r
  start_inbounds s (inb ∷ l) r = start_inbound s inb r >>= start_inbounds s l

  unfoldable pub start_server : (String → Bool) → KetServer → Registry → Outcome StartError Registry
  unfolding watch keep start_inbounds
  start_server clients s r =
      if clients s.name
      then (do
        watched ←
            start_inbounds s s.inbounds
              (watch (nginx_monitor (nginx_info s)) (watch (ssh_monitor (ssh_info s)) r))
        ok (keep (acme_checker s) (keep (xui_db_pruner s) watched)))
      else err (no_client s.name)

  unfoldable pub start_servers :
      (String → Bool) → List KetServer → Registry → Outcome StartError Registry
  unfolding start_server
  start_servers clients [] r = ok r
  start_servers clients (s ∷ servers) r = start_server clients s r >>= start_servers clients servers

  unfoldable pub start_monitors : (String → Bool) → Cloud → Registry → Outcome StartError Registry
  unfolding prod_servers keep start_servers
  start_monitors clients cloud r =
      if is_empty (prod_servers cloud)
      then ok r
      else start_servers clients (prod_servers cloud) (keep aggregator r)
