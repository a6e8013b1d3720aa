-- ===== src/Daemon.antt =====
-- The daemon: src/daemon.rs, src/daemon/core.rs and the tasks of src/types.rs and src/cloud.rs. The
-- registry of the tasks is a list, and a handle is whether its task has finished.
pub mod Tasks
pub mod Next
pub mod Monitors
pub mod Operations
pub mod Reports
use Prim.Native.String.{◌++◌}
use xcplane.Common.{
  ℕ, String, Bool, true, false, not, Option, none, some, List, [], ◌∷◌, map, if◌then◌else◌, str_eq,
  nat_eqb, ◌&&◌, retain,
}
use xcplane.Server.{KetServer}
use xcplane.Server.Kind.{SvcKind, ssh, nginx, xray, svc_kind_eqb}

pub record SvcInfo : Type 0 where
  pub server : KetServer
  pub port : ℕ
  pub kind : SvcKind
  pub link : Option String

pub data TaskEntry : Type 0 where
  ssh_monitor nginx_monitor xray_monitor : SvcInfo → TaskEntry
  socket_listener signal_watcher aggregator : TaskEntry
  full_setup destroy_server xui_db_pruner acme_checker : KetServer → TaskEntry
  geoip_updater : TaskEntry

pub data TaskHandle : Type 0 where
  detached outputter : Bool → TaskHandle

unfoldable pub is_finished : TaskHandle → Bool
is_finished (detached done) = done
is_finished (outputter done) = done

-- `HashMap<TaskEntry, TaskHandle>`
abbrev pub TaskMap : Type 0
TaskMap = List (TaskEntry × TaskHandle)

-- `KetServer`'s equality is that of the names.
unfoldable pub same_server : KetServer → KetServer → Bool
same_server a b = str_eq a.name b.name

same_link : Option String → Option String → Bool
same_link none none = true
same_link (some a) (some b) = str_eq a b
same_link _ _ = false

unfoldable pub same_info : SvcInfo → SvcInfo → Bool
unfolding same_server same_link
same_info a b =
    same_server a.server b.server
    && (nat_eqb a.port b.port && (svc_kind_eqb a.kind b.kind && same_link a.link b.link))

-- `#[derive(PartialEq)]`
unfoldable pub same_entry : TaskEntry → TaskEntry → Bool
unfolding same_info same_server
same_entry (ssh_monitor a) (ssh_monitor b) = same_info a b
same_entry (nginx_monitor a) (nginx_monitor b) = same_info a b
same_entry (xray_monitor a) (xray_monitor b) = same_info a b
same_entry (full_setup a) (full_setup b) = same_server a b
same_entry (destroy_server a) (destroy_server b) = same_server a b
same_entry (xui_db_pruner a) (xui_db_pruner b) = same_server a b
same_entry (acme_checker a) (acme_checker b) = same_server a b
same_entry socket_listener socket_listener = true
same_entry signal_watcher signal_watcher = true
same_entry aggregator aggregator = true
same_entry geoip_updater geoip_updater = true
same_entry _ _ = false

-- `TaskEntry::server`
unfoldable pub server_of : TaskEntry → Option String
server_of (ssh_monitor svc) = some svc.server.name
server_of (nginx_monitor svc) = some svc.server.name
server_of (xray_monitor svc) = some svc.server.name
server_of (full_setup s) = some s.name
server_of (destroy_server s) = some s.name
server_of (xui_db_pruner s) = some s.name
server_of (acme_checker s) = some s.name
server_of _ = none

unfoldable pub nice_display : SvcKind → String
nice_display ssh = "SSH"
nice_display nginx = "Nginx"
nice_display (xray inb) = "Xray(" ++ (inb ++ ")")

-- `TaskEntry::service`
unfoldable pub service_of : TaskEntry → Option String
unfolding nice_display
service_of (ssh_monitor svc) = some (nice_display svc.kind)
service_of (nginx_monitor svc) = some (nice_display svc.kind)
service_of (xray_monitor svc) = some (nice_display svc.kind)
service_of _ = none

unfoldable pub handle_of : TaskEntry → TaskMap → Option TaskHandle
unfolding same_entry
handle_of e [] = none
handle_of e ((f, h) ∷ m) = if same_entry f e then some h else handle_of e m

unfoldable pub remove_task : TaskEntry → TaskMap → TaskMap
unfolding same_entry
remove_task e m = retain (λ (row : TaskEntry × TaskHandle). not (same_entry row.0 e)) m

-- `tasks.entry(e).or_insert(TaskHandle::Detached(jh))` with a task that was spawned now.
unfoldable pub spawn : TaskEntry → TaskMap → TaskMap
unfolding same_entry
spawn e [] = (e, detached false) ∷ []
spawn e ((f, h) ∷ m) = let rest = spawn e m in if same_entry f e then (f, h) ∷ m else (f, h) ∷ rest

-- A task ends.
unfoldable pub finish : TaskEntry → TaskMap → TaskMap
unfolding same_entry
finish e [] = []
finish e ((f, h) ∷ m) =
    let rest = finish e m in if same_entry f e then (f, detached true) ∷ rest else (f, h) ∷ rest
