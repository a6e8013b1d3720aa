-- ===== src/Monitor/Response/Guards.antt =====
-- When `handle_response` of src/cloud/service.rs runs a fix.
use xcplane.Common.{
  ℕ, ◌<◌, ◌≡◌, refl, Bool, true, false, Option, none, some, Outcome, ok, err, arith, Bool-cases,
  inl, inr, str_eq, ltb, ◌&&◌, string_eq, pair_eq,
}
use xcplane.Server.Kind.{SvcKind, ssh, nginx, xray, super_name, svc_kind_eq, svc_kind_eqb}
use xcplane.Monitor.{
  SvcHealth, healthy, sick, unknown, SvcEntry, Job, running, finished, DashAction, ActionMap, task,
  action_at, sibling_health_check, MonitorError, super_sibling_fixtry, fix, db_backup, Handled,
  nginx_job, nginx_entry, nginx_fix,
}
use xcplane.Monitor.Response.{
  super_job, super_entry, super_fix, super_by_health, super_xray_actions, xray_follow, corrective,
}

-- Whether a fix runs.
abbrev pub job_runs : Option Job → Bool
job_runs none = false
job_runs (some (running a)) = true
job_runs (some (finished a b)) = false

abbrev pub fix_runs : Option DashAction → Bool
fix_runs none = false
fix_runs (some a) = job_runs a.fix_action

-- Whether a call runs a fix.
abbrev pub runs_fix : Handled → Bool
runs_fix h = elim h.spawned [ none ↦ false | some (fix a) ↦ true | some db_backup ↦ false ]

-- The conditions of a fix, on the entry and the registry that it finds.
pub record MayFix (e : SvcEntry) (map : ActionMap) : Type 0 where
  pub attempts : e.status.fix_try < 2
  pub ssh_healthy : sibling_health_check e.server map ssh ≡ true
  pub idle : fix_runs (action_at (task e) map) ≡ false

nginx_job-idle :
    (job : Option Job) (e : SvcEntry) (map : ActionMap)
    → runs_fix (nginx_job job e map) ≡ true
    → job_runs job ≡ false
unfolding nginx_job
nginx_job-idle none e map h = refl
nginx_job-idle (some (running a)) e map h = ground arith
nginx_job-idle (some (finished a b)) e map h = refl

nginx_entry-idle :
    (o : Option DashAction) (e : SvcEntry) (map : ActionMap)
    → runs_fix (nginx_entry o e map) ≡ true
    → fix_runs o ≡ false
unfolding nginx_entry
nginx_entry-idle none e map h = refl
nginx_entry-idle (some a) e map h = nginx_job-idle a.fix_action e map h

nginx_fix-MayFix :
    (e : SvcEntry) (map : ActionMap) → runs_fix (nginx_fix e map) ≡ true → MayFix e map
unfolding nginx_fix
nginx_fix-MayFix e map h =
    elim (Bool-cases (sibling_health_check e.server map ssh && ltb e.status.fix_try 2)) [
      | inl p ↦ record {
        attempts = ground (arith, p);
        ssh_healthy = ground (arith, p);
        idle = nginx_entry-idle (action_at (task e) map) e map (rw p at h);
      }
      | inr p ↦ ground (arith, rw p at h)
    ]

super_job-idle :
    (backup : Outcome MonitorError Bool) (job : Option Job) (e : SvcEntry) (map : ActionMap)
    → runs_fix (super_job backup job e map) ≡ true
    → job_runs job ≡ false
unfolding super_job
super_job-idle backup none e map h = refl
super_job-idle backup (some (running a)) e map h = ground arith
super_job-idle backup (some (finished a b)) e map h = refl

super_entry-idle :
    (backup : Outcome MonitorError Bool) (o : Option DashAction) (e : SvcEntry) (map : ActionMap)
    → runs_fix (super_entry backup o e map) ≡ true
    → fix_runs o ≡ false
unfolding super_entry
super_entry-idle backup none e map h = refl
super_entry-idle backup (some a) e map h = super_job-idle backup a.fix_action e map h

super_fix-MayFix :
    (backup : Outcome MonitorError Bool) (e : SvcEntry) (map : ActionMap)
    → runs_fix (super_fix backup e map) ≡ true
    → MayFix e map
unfolding super_fix
super_fix-MayFix backup e map h =
    elim (Bool-cases (
      (sibling_health_check e.server map ssh && sibling_health_check e.server map nginx)
      && ltb e.status.fix_try 2)) [
        | inl p ↦ record {
          attempts = ground (arith, p);
          ssh_healthy = ground (arith, p);
          idle = super_entry-idle backup (action_at (task e) map) e map (rw p at h);
        }
        | inr p ↦ ground (arith, rw p at h)
      ]

super_by_health-MayFix :
    (health : SvcHealth) (backup : Outcome MonitorError Bool) (e : SvcEntry) (map : ActionMap)
    → runs_fix (super_by_health health backup e map) ≡ true
    → MayFix e map
unfolding super_by_health
super_by_health-MayFix healthy backup e map h = ground arith
super_by_health-MayFix sick backup e map h = super_fix-MayFix backup e map h
super_by_health-MayFix unknown backup e map h = ground arith

xray_follow-none :
    (o : Outcome MonitorError ℕ) (e : SvcEntry) (map : ActionMap)
    → runs_fix (xray_follow o e map) ≡ false
unfolding xray_follow
xray_follow-none (ok n) e map = refl
xray_follow-none (err x) e map = refl

-- A fix is run for Nginx or the supervisor only.
pub corrective-MayFix :
    (kind : SvcKind) (backup : Outcome MonitorError Bool) (e : SvcEntry) (map : ActionMap)
    → runs_fix (corrective kind backup e map) ≡ true
    → MayFix e map × (svc_kind_eqb kind ssh ≡ false)
unfolding corrective
corrective-MayFix ssh backup e map h = ground arith
corrective-MayFix nginx backup e map h = (nginx_fix-MayFix e map h, refl)
corrective-MayFix (xray name) backup e map h = elim (Bool-cases (str_eq name super_name)) [
  | inl p ↦ (
    super_by_health-MayFix e.status.health backup e map (unfold super_xray_actions in rw p at h),
    refl,
  )
  | inr p ↦ ground (arith, xray_follow-none (super_sibling_fixtry e.server map) e map, rw p at h)
]
