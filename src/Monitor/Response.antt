-- ===== src/Monitor/Response.antt =====
-- src/cloud/service.rs: `super_xray_actions` and `handle_response`.
pub mod Attempts
pub mod Guards
pub mod Fixes
use xcplane.Common.{
  ℕ, ◌+◌, Bool, true, false, not, Option, none, some, List, Outcome, ok, err, find?, any, str_eq,
  ltb, leb, nat_eqb, if◌then◌else◌, ◌&&◌, ◌||◌,
}
use xcplane.Server.{Inbound, KetServer}
use xcplane.Server.Kind.{SvcKind, ssh, nginx, xray, super_name, super_xray, svc_kind_eqb}
use xcplane.Monitor.{
  SvcHealth, healthy, sick, unknown, is_healthy, SvcStatus, SvcEntry, Job, running, finished,
  DashAction, ActionMap, task, action_at, update_at, sibling_health_check, MonitorError,
  inbound_missing, no_action, fix_failed, backup_failed, super_sibling_fixtry, fix, db_backup,
  Handled, with_fix_try, quiet, failure, without_job, job_of, task_of, xray_action, nginx_fix,
}

-- `if jh_none` for the supervisor: the health in the map stays.
unfoldable pub super_start : SvcEntry → ActionMap → Handled
unfolding xray_action update_at task
super_start e map = record {
  map =
      update_at (task e)
        (λ a. record a {
          fix_try = e.status.fix_try;
          fix_action = job_of (xray_action e.status.fix_try);
        })
        map;
  spawned = task_of (xray_action e.status.fix_try);
  outcome = ok e;
}

-- After a first fix that has not helped: without a backup there is no second one.
super_backup : Outcome MonitorError Bool → SvcEntry → ActionMap → Handled
super_backup (err x) e map = failure map x
super_backup (ok true) e map = quiet map e
super_backup (ok false) e map = quiet map (with_fix_try (e.status.fix_try + 1) e)

super_finished : Outcome MonitorError Bool → SvcEntry → ActionMap → Handled
unfolding super_backup
super_finished backup e map =
    if nat_eqb e.status.fix_try 1 then super_backup backup e map else quiet map e

unfoldable pub super_job : Outcome MonitorError Bool → Option Job → SvcEntry → ActionMap → Handled
unfolding super_start super_finished update_at task
super_job backup none e map = super_start e map
super_job backup (some (running a)) e map = quiet map e
super_job backup (some (finished a true)) e map =
    super_finished backup (with_fix_try (e.status.fix_try + 1) e)
      (update_at (task e) without_job map)
super_job backup (some (finished a false)) e map =
    failure (update_at (task e) without_job map) fix_failed

super_entry : Outcome MonitorError Bool → Option DashAction → SvcEntry → ActionMap → Handled
unfolding super_job
super_entry backup none e map = failure map no_action
super_entry backup (some a) e map = super_job backup a.fix_action e map

super_fix : Outcome MonitorError Bool → SvcEntry → ActionMap → Handled
unfolding super_entry sibling_health_check action_at task
super_fix backup e map =
    if (sibling_health_check e.server map ssh && sibling_health_check e.server map nginx)
      && ltb e.status.fix_try 2
    then super_entry backup (action_at (task e) map) e map
    else quiet map e

super_by_health : SvcHealth → Outcome MonitorError Bool → SvcEntry → ActionMap → Handled
unfolding super_fix
super_by_health healthy backup e map = record {
  map = map;
  spawned = some db_backup;
  outcome = ok e;
}
super_by_health sick backup e map = super_fix backup e map
super_by_health unknown backup e map = quiet map e

unfoldable pub super_xray_actions : Outcome MonitorError Bool → SvcEntry → ActionMap → Handled
unfolding super_by_health
super_xray_actions backup e map = super_by_health e.status.health backup e map

-- The entry after a failure at the time `now`.
unfoldable pub count_failure : ℕ → SvcEntry → SvcEntry
count_failure now e = record e {
  status = record e.status {
    health = sick;
    failed_count = e.status.failed_count + 1;
    failed_since = if nat_eqb (e.status.failed_count + 1) 1 then now else e.status.failed_since;
  };
}

-- An Xray inbound takes the number of fixes of the supervisor.
xray_follow : Outcome MonitorError ℕ → SvcEntry → ActionMap → Handled
unfolding update_at task
xray_follow (err x) e map = failure map x
xray_follow (ok n) e map =
    quiet
      (update_at (task e)
        (λ a. record { svc_health = e.status.health; fix_try = n; fix_action = none }) map)
      (with_fix_try n e)

-- The branches where the fixes are on and the threshold is reached.
unfoldable pub corrective : SvcKind → Outcome MonitorError Bool → SvcEntry → ActionMap → Handled
unfolding nginx_fix super_xray_actions xray_follow super_sibling_fixtry update_at task
corrective ssh backup e map =
    quiet
      (update_at (task e)
        (λ a. record { svc_health = e.status.health; fix_try = 1; fix_action = none }) map)
      (with_fix_try 1 e)
corrective nginx backup e map = nginx_fix e map
corrective (xray name) backup e map =
    if str_eq name super_name
    then super_xray_actions backup e map
    else xray_follow (super_sibling_fixtry e.server map) e map

unfoldable pub handle_err :
    Bool → ℕ → ℕ → Outcome MonitorError Bool → SvcEntry → ActionMap → Handled
unfolding corrective count_failure update_at task
handle_err auto_fix threshold now backup e map =
    let e' = count_failure now e in
    let map' = update_at (task e) (λ a. record a { svc_health = sick }) map in
    if auto_fix && leb threshold e'.status.failed_count
    then corrective e'.kind backup e' map'
    else quiet map' e'

-- The counts are reset where they are not; the time of the last failure stays.
unfoldable pub reset : SvcEntry → SvcEntry
reset e =
    if ltb 0 e.status.failed_count || not (is_healthy e.status.health)
    then record e { status = record e.status { health = healthy; failed_count = 0; fix_try = 0 } }
    else e

-- The inbound of an Xray service is one of the server's; the supervisor needs none.
unfoldable pub has_inbound : SvcKind → KetServer → Bool
has_inbound ssh s = true
has_inbound nginx s = true
has_inbound (xray name) s =
    str_eq name super_name || any (λ (inb : Inbound). str_eq inb.name name) s.inbounds

unfoldable pub handle_ok : Outcome MonitorError Bool → SvcEntry → ActionMap → Handled
unfolding has_inbound reset super_xray_actions update_at task
handle_ok backup e map =
    let e' = reset e in
    if has_inbound e.kind e.server
    then if svc_kind_eqb e.kind super_xray
      then super_xray_actions backup e' map
      else quiet
          (update_at (task e) (λ a. record { svc_health = healthy; fix_try = 0; fix_action = none })
            map)
          e'
    else failure map inbound_missing

-- `Result<SvcEntry, SvcError>`: both sides carry the entry.
pub data Response : Type 0 where
  passed failed : SvcEntry → Response

unfoldable pub handle_response :
    Bool → ℕ → ℕ → Outcome MonitorError Bool → Response → ActionMap → Handled
unfolding handle_ok handle_err
handle_response auto_fix threshold now backup (passed e) map = handle_ok backup e map
handle_response auto_fix threshold now backup (failed e) map =
    handle_err auto_fix threshold now backup e map
