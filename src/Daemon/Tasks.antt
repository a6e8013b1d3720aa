-- ===== src/Daemon/Tasks.antt =====
-- The long tasks on a server: `expand_cloud` (src/cloud.rs), `perform_server_destruction`
-- (src/daemon.rs) and the inquiry of a task that has ended (src/daemon/core.rs). The registry
-- changes where a call succeeds.
pub mod Expansion
pub mod Setups
use xcplane.Common.{
  String, Bool, true, false, not, Option, none, some, List, [], ◌∷◌, Outcome, ok, err, ◌>>=◌, ok_or,
  if◌then◌else◌, str_eq, ◌&&◌, find?, any, is_some, or_else,
}
use xcplane.Server.{ServerState, offgrid, production, KetServer, Cloud}
use xcplane.Daemon.{
  TaskEntry, full_setup, destroy_server, TaskHandle, detached, outputter, is_finished, TaskMap,
  handle_of, remove_task, spawn, finish,
}

pub data TaskError : Type 0 where
  not_enabled already_production was_production no_such_server : String → TaskError
  no_fresh_server : TaskError
  already_offgrid destruction_failed : String → TaskError

pub data TaskReply : Type 0 where
  setup_is_running provisioning destruction_is_running destroying : String → TaskReply

abbrev pub is_offgrid : ServerState → Bool
is_offgrid offgrid = true
is_offgrid production = false

-- A server that a setup may be done on.
abbrev pub is_fresh : KetServer → Bool
is_fresh s = is_offgrid s.state && (s.enabled && not (is_some s.secrets.xui_token))

-- The checks of a server that the command names.
unfoldable pub check_given :
    String → KetServer → ServerState → Bool → Option String → Outcome TaskError KetServer
check_given name s state false token = err (not_enabled name)
check_given name s offgrid true none = ok s
check_given name s production true token = err (already_production name)
check_given name s offgrid true (some token) = err (was_production name)

unfoldable pub final_server :
    Option String → Option KetServer → Option KetServer → Outcome TaskError KetServer
unfolding check_given
final_server (some name) (some s) random = check_given name s s.state s.enabled s.secrets.xui_token
final_server (some name) none random = err (no_such_server name)
final_server none given (some s) = ok s
final_server none given none = err no_fresh_server

-- `given_server`
given_server : Option String → List KetServer → Option KetServer
given_server none servers = none
given_server (some name) servers = find? (λ (s : KetServer). str_eq s.name name) servers

unfoldable pub pick_server : Cloud → Option String → Outcome TaskError KetServer
unfolding final_server given_server
pick_server cloud name =
    final_server name (given_server name cloud.servers) (find? is_fresh cloud.servers)

-- `matches!(key, TaskEntry::FullSetup(_))`
unfoldable pub as_setup : TaskEntry → TaskHandle → Option (KetServer × TaskHandle)
as_setup (full_setup s) h = some (s, h)
as_setup _ h = none

-- The first full setup of the registry.
unfoldable pub setup_entry : TaskMap → Option (KetServer × TaskHandle)
unfolding as_setup
setup_entry [] = none
setup_entry ((e, h) ∷ m) = or_else (as_setup e h) (setup_entry m)

unfoldable pub start_setup :
    KetServer → Option (KetServer × TaskHandle) → TaskMap → TaskReply × TaskMap
start_setup s none m = (provisioning s.name, spawn (full_setup s) m)
start_setup s (some (old, detached true)) m =
    (provisioning s.name, spawn (full_setup s) (remove_task (full_setup old) m))
start_setup s (some (old, detached false)) m = (setup_is_running old.name, m)
start_setup s (some (old, outputter finished)) m = (provisioning s.name, m)

unfoldable pub expand_cloud :
    Cloud → Option String → TaskMap → Outcome TaskError (TaskReply × TaskMap)
unfolding pick_server setup_entry start_setup
expand_cloud cloud name m = do s ← pick_server cloud name; ok (start_setup s (setup_entry m) m)

unfoldable pub start_destruction :
    KetServer → Option TaskHandle → TaskMap → Outcome TaskError (TaskReply × TaskMap)
unfolding is_finished
start_destruction s none m = ok (destroying s.name, spawn (destroy_server s) m)
start_destruction s (some h) m =
    if is_finished h then err (destruction_failed s.name) else ok (destruction_is_running s.name, m)

unfoldable pub destroy_checked :
    KetServer → ServerState → Bool → TaskMap → Outcome TaskError (TaskReply × TaskMap)
unfolding handle_of start_destruction
destroy_checked s offgrid enabled m = err (already_offgrid s.name)
destroy_checked s production false m = err (not_enabled s.name)
destroy_checked s production true m = start_destruction s (handle_of (destroy_server s) m) m

unfoldable pub perform_server_destruction :
    Cloud → String → TaskMap → Outcome TaskError (TaskReply × TaskMap)
unfolding destroy_checked
perform_server_destruction cloud name m = do
  s ← ok_or (find? (λ (s : KetServer). str_eq s.name name) cloud.servers) (no_such_server name)
  destroy_checked s s.state s.enabled m

-- Whether a row is a full setup or a destruction that runs.
unfoldable pub is_long_running : TaskEntry × TaskHandle → Bool
unfolding is_finished
is_long_running (full_setup s, h) = not (is_finished h)
is_long_running (destroy_server s, h) = not (is_finished h)
is_long_running _ = false

-- `DaemonComm::SetupInquiry`: the task that asks leaves the registry.
unfoldable pub setup_inquiry : TaskEntry → TaskMap → Bool × TaskMap
unfolding remove_task is_long_running
setup_inquiry e m = let rest = remove_task e m in (any is_long_running rest, rest)

-- The registry after a call.
abbrev pub after : TaskMap → Outcome TaskError (TaskReply × TaskMap) → TaskMap
after m (err e) = m
after m (ok (reply, m')) = m'

-- What changes the registry while the daemon runs: the commands, with the cloud as it is then, and
-- the end of a task.
pub data Change : Type 0 where
  expand : Cloud → Option String → Change
  destroy : Cloud → String → Change
  inquiry ended : TaskEntry → Change

unfoldable pub change : TaskMap → Change → TaskMap
unfolding expand_cloud perform_server_destruction setup_inquiry
change m (expand cloud name) = after m (expand_cloud cloud name m)
change m (destroy cloud name) = after m (perform_server_destruction cloud name m)
change m (inquiry e) = (setup_inquiry e m).1
change m (ended e) = finish e m

unfoldable pub changes : TaskMap → List Change → TaskMap
unfolding change
changes m [] = m
changes m (c ∷ rest) = changes (change m c) rest
