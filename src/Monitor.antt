-- ===== src/Monitor.antt =====
-- src/cloud/service.rs: what the monitor does with the result of a check (`handle_response`,
-- `super_xray_actions`, `sibling_health_check`, `super_sibling_fixtry`, `check_super_xray`). The
-- shared registry `action_map` is passed explicitly, and a call is one step on it. A key is the
-- server's name and the kind of the service, since a server has one entry for each kind. A
-- `JoinHandle` is a `Job`. Arguments are the time, whether the server has a backup of its database
-- (`last_xui_db`), and in a finished job whether its run gave an output. `healthy` is the source's
-- `SvcHealth::Ok`.
pub mod Attempts
pub mod Response
pub mod Loop
use xcplane.Common.{
  ℕ, ◌+◌, String, Bool, true, false, not, Option, none, some, List, [], ◌∷◌, Outcome, ok, err,
  find?, str_eq, string_eq, pair_eq, ◌==◌, ltb, leb, nat_eqb, if◌then◌else◌, ◌&&◌, ◌||◌,
}
use xcplane.Server.{Inbound, KetServer}
use xcplane.Server.Kind.{
  SvcKind, ssh, nginx, xray, super_name, super_xray, svc_kind_eq, svc_kind_eqb,
}
use xcplane.Actions.{
  AnsibleAction, nginx_restart, nginx_restore_config, xray_restart, xray_restore_db,
}

pub data SvcHealth : Type 0 where
  healthy sick unknown : SvcHealth

-- `health == SvcHealth::Ok`
abbrev pub is_healthy : SvcHealth → Bool
is_healthy healthy = true
is_healthy sick = false
is_healthy unknown = false

pub record SvcStatus : Type 0 where
  pub health : SvcHealth
  pub failed_count : ℕ  -- u64
  pub failed_since : ℕ  -- u64
  pub fix_try : ℕ  -- u8

pub record SvcEntry : Type 0 where
  pub server : KetServer
  pub kind : SvcKind
  pub status : SvcStatus

-- A finished job has given an output or an error.
pub data Job : Type 0 where
  running : AnsibleAction → Job
  finished : AnsibleAction → Bool → Job

pub record DashAction : Type 0 where
  pub svc_health : SvcHealth
  pub fix_try : ℕ
  pub fix_action : Option Job

abbrev pub Key : Type 0
Key = String × SvcKind

abbrev pub ActionMap : Type 0
ActionMap = List (Key × DashAction)

unfoldable pub task : SvcEntry → Key
task e = (e.server.name, e.kind)

unfoldable pub action_at : Key → ActionMap → Option DashAction
action_at k [] = none
action_at k ((j, a) ∷ m) = if j == k then some a else action_at k m

-- `if let Some(mut action) = action_map.get_mut(k) { *action = f(action) }`
unfoldable pub update_at : Key → (DashAction → DashAction) → ActionMap → ActionMap
update_at k f [] = []
update_at k f ((j, a) ∷ m) =
    let rest = update_at k f m in if j == k then (j, f a) ∷ m else (j, a) ∷ rest

-- Any Xray sibling is the supervisor.
unfoldable pub sibling_kind : SvcKind → SvcKind
sibling_kind ssh = ssh
sibling_kind nginx = nginx
sibling_kind (xray name) = super_xray

action_is_healthy : Option DashAction → Bool
action_is_healthy none = false
action_is_healthy (some a) = is_healthy a.svc_health

unfoldable pub sibling_health_check : KetServer → ActionMap → SvcKind → Bool
unfolding action_at sibling_kind action_is_healthy
sibling_health_check server map sibling =
    action_is_healthy (action_at (server.name, sibling_kind sibling) map)

pub data MonitorError : Type 0 where
  inbound_missing no_action no_super_action fix_failed backup_failed : MonitorError

pub fix_try_of : Option DashAction → Outcome MonitorError ℕ
fix_try_of none = err no_super_action
fix_try_of (some a) = ok a.fix_try

unfoldable pub super_sibling_fixtry : KetServer → ActionMap → Outcome MonitorError ℕ
unfolding action_at fix_try_of
super_sibling_fixtry server map = fix_try_of (action_at (server.name, super_xray) map)

is_xray : SvcKind → Bool
is_xray ssh = false
is_xray nginx = false
is_xray (xray name) = true

-- Whether no other Xray entry of the server is unhealthy.
unfoldable pub check_super_xray : SvcEntry → ActionMap → Bool
unfolding is_xray
check_super_xray e [] = true
check_super_xray e (((name, kind), a) ∷ m) =
    not (
      is_xray kind
      && (not (svc_kind_eqb kind e.kind)
          && (str_eq name e.server.name && not (is_healthy a.svc_health))))
    && check_super_xray e m

-- What a call spawns.
pub data Task : Type 0 where
  fix : AnsibleAction → Task
  db_backup : Task

pub record Handled : Type 0 where
  pub map : ActionMap
  pub spawned : Option Task
  pub outcome : Outcome MonitorError SvcEntry

abbrev pub with_fix_try : ℕ → SvcEntry → SvcEntry
with_fix_try n e = record e { status = record e.status { fix_try = n } }

-- The map, the entry and no task.
abbrev pub quiet : ActionMap → SvcEntry → Handled
quiet map e = record { map = map; spawned = none; outcome = ok e }

abbrev pub failure : ActionMap → MonitorError → Handled
failure map e = record { map = map; spawned = none; outcome = err e }

-- `action.fix_action.take()`
abbrev pub without_job : DashAction → DashAction
without_job a = record a { fix_action = none }

abbrev pub job_of : Option AnsibleAction → Option Job
job_of none = none
job_of (some a) = some (running a)

abbrev pub task_of : Option AnsibleAction → Option Task
task_of none = none
task_of (some a) = some (fix a)

-- The next fix of Nginx, by the number of completed ones.
unfoldable pub nginx_action : ℕ → Option AnsibleAction
nginx_action n =
    if nat_eqb n 0
    then some nginx_restart
    else if nat_eqb n 1
    then some nginx_restore_config
    else none

unfoldable pub xray_action : ℕ → Option AnsibleAction
xray_action n =
    if nat_eqb n 0 then some xray_restart else if nat_eqb n 1 then some xray_restore_db else none

-- `if jh_none` in the branch of Nginx: the whole action is replaced.
unfoldable pub nginx_start : SvcEntry → ActionMap → Handled
unfolding nginx_action update_at task
nginx_start e map = record {
  map =
      update_at (task e)
        (λ a. record {
          svc_health = e.status.health;
          fix_try = e.status.fix_try;
          fix_action = job_of (nginx_action e.status.fix_try);
        })
        map;
  spawned = task_of (nginx_action e.status.fix_try);
  outcome = ok e;
}

-- By the job of the action: none, one that runs, one that has finished.
unfoldable pub nginx_job : Option Job → SvcEntry → ActionMap → Handled
unfolding nginx_start update_at task
nginx_job none e map = nginx_start e map
nginx_job (some (running a)) e map = quiet map e
nginx_job (some (finished a true)) e map =
    nginx_start (with_fix_try (e.status.fix_try + 1) e) (update_at (task e) without_job map)
nginx_job (some (finished a false)) e map = failure (update_at (task e) without_job map) fix_failed

nginx_entry : Option DashAction → SvcEntry → ActionMap → Handled
unfolding nginx_job
nginx_entry none e map = failure map no_action
nginx_entry (some a) e map = nginx_job a.fix_action e map

-- The branch of Nginx.
unfoldable pub nginx_fix : SvcEntry → ActionMap → Handled
unfolding nginx_entry sibling_health_check action_at task
nginx_fix e map =
    if sibling_health_check e.server map ssh && ltb e.status.fix_try 2
    then nginx_entry (action_at (task e) map) e map
    else quiet map e
