-- ===== src/Daemon/Reports.antt =====
-- The answers of the daemon (src/daemon.rs): the credentials, the summary and its text. A
-- `HashMap` is an association list, so its order is that of the insertions.
pub mod Contents
use Prim.Native.String.{◌++◌}
use mathlib.Core.List.{◌++◌ as append}
use xcplane.Common.{
  ℕ, String, Bool, true, false, not, Option, none, some, List, [], ◌∷◌, map, Map, or_insert, lookup,
  if◌then◌else◌, str_eq, ◌&&◌, retain, is_empty,
}
use xcplane.Server.{ServerState, offgrid, production, KetServer, Cloud}
use xcplane.Server.Methods.{uihostname}
use xcplane.Server.Kind.{SvcKind}
use xcplane.Monitor.{SvcHealth, healthy, sick, unknown, is_healthy}
use xcplane.Daemon.{
  TaskEntry, TaskHandle, is_finished, TaskMap, server_of, service_of, nice_display,
}

pub record ServerCreds : Type 0 where
  pub doh : String
  pub ui : String
  pub xui_username : Option String
  pub xui_password : Option String
  pub xui_token : Option String

abbrev pub is_production : ServerState → Bool
is_production production = true
is_production offgrid = false

-- The filter of `build_servers_creds` and of `get_cloud_clients`.
abbrev pub serves : KetServer → Bool
serves s = s.enabled && is_production s.state

unfoldable pub server_creds : Bool → KetServer → ServerCreds
unfolding uihostname
server_creds show_all s = record {
  doh = "https://" ++ (s.dns_subdomain ++ ("." ++ (s.domain ++ ("/" ++ s.secrets.doh_endpoint))));
  ui = "https://" ++ (uihostname s ++ ("/" ++ (s.secrets.xui_webpath ++ "/")));
  xui_username = if show_all then some s.secrets.xui_username else none;
  xui_password = if show_all then some s.secrets.xui_password else none;
  xui_token = if show_all then s.secrets.xui_token else none;
}

unfoldable pub insert_creds : Bool → List KetServer → Map ServerCreds → Map ServerCreds
unfolding server_creds
insert_creds show_all [] creds = creds
insert_creds show_all (s ∷ servers) creds =
    insert_creds show_all servers
      (if serves s then or_insert s.name (server_creds show_all s) creds else creds)

unfoldable pub build_servers_creds : Cloud → Bool → Map ServerCreds
unfolding insert_creds
build_servers_creds cloud show_all = insert_creds show_all cloud.servers []

pub record TaskSummary : Type 0 where
  pub task : String
  pub running : Bool

task_summary : (TaskEntry → String) → TaskEntry × TaskHandle → TaskSummary
unfolding is_finished
task_summary text row = record { task = text row.0; running = not (is_finished row.1) }

-- `TaskMap::status`; the text of an entry is an argument.
unfoldable pub status : (TaskEntry → String) → TaskMap → List TaskSummary
unfolding task_summary
status text tasks = map (task_summary text) tasks

pub record SvcSummary : Type 0 where
  pub server : String
  pub service : SvcKind
  pub health : SvcHealth

pub record SvcHealthSummary : Type 0 where
  pub service : String
  pub health : SvcHealth

-- A row is the source's `ServerSummary`.
pub record CloudSummary : Type 0 where
  pub tasks : List TaskSummary
  pub cloud : Map (List SvcHealthSummary)

-- `servers.entry(name).or_default().push(s)`
unfoldable pub push_service :
    String → SvcHealthSummary → Map (List SvcHealthSummary) → Map (List SvcHealthSummary)
push_service n s [] = (n, s ∷ []) ∷ []
push_service n s ((m, l) ∷ rows) =
    let rest = push_service n s rows in
    if str_eq m n then (m, append l (s ∷ [])) ∷ rows else (m, l) ∷ rest

unfoldable pub push_services :
    List SvcSummary → Map (List SvcHealthSummary) → Map (List SvcHealthSummary)
unfolding push_service nice_display
push_services [] rows = rows
push_services (svc ∷ services) rows = push_services services (
    push_service svc.server (record { service = nice_display svc.service; health = svc.health })
      rows)

unfoldable pub health_text : SvcHealth → String
health_text healthy = "Ok"
health_text sick = "Sick"
health_text unknown = "Unknown"

unfoldable pub task_lines : List TaskSummary → List String
task_lines [] = []
task_lines (t ∷ tasks) =
    let rest = task_lines tasks in
    if not t.running then ("Task '" ++ (t.task ++ "' has crashed.")) ∷ rest else rest

unfoldable pub service_lines : String → List SvcHealthSummary → List String
unfolding health_text
service_lines server [] = []
service_lines server (s ∷ services) =
    let rest = service_lines server services in
    if not (is_healthy s.health)
    then ("Service "
        ++ (s.service
            ++ (" on server '" ++ (server ++ ("' is " ++ (health_text s.health ++ "."))))))
      ∷ rest
    else rest

unfoldable pub server_lines : Map (List SvcHealthSummary) → List String
unfolding service_lines
server_lines [] = []
server_lines ((server, services) ∷ rows) =
    append (service_lines server services) (server_lines rows)

-- `lines.join("\n")`
unfoldable pub join : List String → String
join [] = ""
join (l ∷ []) = l
join (l ∷ (k ∷ lines)) = l ++ ("\n" ++ join (k ∷ lines))

unfoldable pub report : List String → Bool → String
unfolding join
report [] true = "All tasks are running."
report [] false = "All tasks are running. All services are Ok."
report (l ∷ lines) no_servers = join (l ∷ lines)

unfoldable pub humanize_status_report : CloudSummary → String
unfolding task_lines server_lines report
humanize_status_report summary =
    report (append (task_lines summary.tasks) (server_lines summary.cloud)) (is_empty summary.cloud)

pub data Status : Type 0 where
  full : CloudSummary → Status
  short : String → Status

unfoldable pub get_summary : List SvcSummary → List TaskSummary → Bool → Status
unfolding push_services humanize_status_report
get_summary services tasks is_full =
    let summary : CloudSummary = record { tasks = tasks; cloud = push_services services [] } in
    if is_full then full summary else short (humanize_status_report summary)
