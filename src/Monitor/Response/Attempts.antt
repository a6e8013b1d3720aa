-- ===== src/Monitor/Response/Attempts.antt =====
-- The number of fix attempts through `handle_response` of src/cloud/service.rs.
use xcplane.Common.{
  ℕ, ◌+◌, ◌≤◌, ◌<◌, ◌≡◌, refl, Bool, true, false, Option, none, some, Outcome, ok, err, arith,
  Bool-cases, inl, inr, str_eq, ltb, leb, ◌&&◌, string_eq, pair_eq, nat_eqb,
}
use xcplane.Server.Kind.{
  SvcKind, ssh, nginx, xray, super_name, super_xray, svc_kind_eq, svc_kind_eqb,
}
use xcplane.Monitor.{
  SvcHealth, healthy, sick, unknown, SvcEntry, Job, running, finished, DashAction, ActionMap, task,
  action_at, update_at, sibling_health_check, MonitorError, super_sibling_fixtry, with_fix_try,
  without_job,
}
use xcplane.Monitor.Response.{
  super_start, super_backup, super_finished, super_job, super_entry, super_fix, super_by_health,
  super_xray_actions, count_failure, xray_follow, corrective, handle_err, reset, has_inbound,
  handle_ok, Response, passed, failed, handle_response,
}
use xcplane.Monitor.Attempts.{
  AtMostTwo, IsBounded, quiet-IsBounded, failure-IsBounded, update_at-AtMostTwo, fix_try_of-le,
  nginx_fix-IsBounded,
}

abbrev pub entry_of : Response → SvcEntry
entry_of (passed e) = e
entry_of (failed e) = e

super_start-IsBounded :
    (e : SvcEntry) (map : ActionMap)
    → AtMostTwo map
    → e.status.fix_try ≤ 2
    → IsBounded (super_start e map)
unfolding super_start
super_start-IsBounded e map m b =
    (update_at-AtMostTwo (task e) _ map (λ a h. b) m, (quiet-IsBounded map e m b).1)

super_backup-IsBounded :
    (backup : Outcome MonitorError Bool) (e : SvcEntry) (map : ActionMap)
    → AtMostTwo map
    → e.status.fix_try ≤ 1
    → IsBounded (super_backup backup e map)
unfolding super_backup
super_backup-IsBounded (err x) e map m b = failure-IsBounded map x m
super_backup-IsBounded (ok true) e map m b = quiet-IsBounded map e m (omega arith)
super_backup-IsBounded (ok false) e map m b =
    quiet-IsBounded map (with_fix_try (e.status.fix_try + 1) e) m (omega arith)

super_finished-IsBounded :
    (backup : Outcome MonitorError Bool) (e : SvcEntry) (map : ActionMap)
    → AtMostTwo map
    → e.status.fix_try ≤ 2
    → IsBounded (super_finished backup e map)
unfolding super_finished
super_finished-IsBounded backup e map m b = elim (Bool-cases (nat_eqb e.status.fix_try 1)) [
  | inl p ↦ rw p (super_backup-IsBounded backup e map m (ground arith))
  | inr p ↦ rw p (quiet-IsBounded map e m b)
]

super_job-IsBounded :
    (backup : Outcome MonitorError Bool) (job : Option Job) (e : SvcEntry) (map : ActionMap)
    → AtMostTwo map
    → e.status.fix_try < 2
    → IsBounded (super_job backup job e map)
unfolding super_job
super_job-IsBounded backup none e map m b = super_start-IsBounded e map m (omega arith)
super_job-IsBounded backup (some (running a)) e map m b = quiet-IsBounded map e m (omega arith)
super_job-IsBounded backup (some (finished a true)) e map m b =
    super_finished-IsBounded backup (with_fix_try (e.status.fix_try + 1) e)
      (update_at (task e) without_job map)
      (update_at-AtMostTwo (task e) without_job map (λ a h. h) m) (omega arith)
super_job-IsBounded backup (some (finished a false)) e map m b =
    failure-IsBounded _ _ (update_at-AtMostTwo (task e) without_job map (λ a h. h) m)

super_entry-IsBounded :
    (backup : Outcome MonitorError Bool) (o : Option DashAction) (e : SvcEntry) (map : ActionMap)
    → AtMostTwo map
    → e.status.fix_try < 2
    → IsBounded (super_entry backup o e map)
unfolding super_entry
super_entry-IsBounded backup none e map m b = failure-IsBounded map _ m
super_entry-IsBounded backup (some a) e map m b = super_job-IsBounded backup a.fix_action e map m b

super_fix-IsBounded :
    (backup : Outcome MonitorError Bool) (e : SvcEntry) (map : ActionMap)
    → AtMostTwo map
    → e.status.fix_try ≤ 2
    → IsBounded (super_fix backup e map)
unfolding super_fix
super_fix-IsBounded backup e map m b =
    elim (Bool-cases (
      (sibling_health_check e.server map ssh && sibling_health_check e.server map nginx)
      && ltb e.status.fix_try 2)) [
        | inl p ↦
            rw p (super_entry-IsBounded backup (action_at (task e) map) e map m (ground arith))
        | inr p ↦ rw p (quiet-IsBounded map e m b)
      ]

super_by_health-IsBounded :
    (health : SvcHealth) (backup : Outcome MonitorError Bool) (e : SvcEntry) (map : ActionMap)
    → AtMostTwo map
    → e.status.fix_try ≤ 2
    → IsBounded (super_by_health health backup e map)
unfolding super_by_health
super_by_health-IsBounded healthy backup e map m b = quiet-IsBounded map e m b
super_by_health-IsBounded sick backup e map m b = super_fix-IsBounded backup e map m b
super_by_health-IsBounded unknown backup e map m b = quiet-IsBounded map e m b

xray_follow-IsBounded :
    (o : Outcome MonitorError ℕ) (e : SvcEntry) (map : ActionMap)
    → AtMostTwo map
    → ((n : ℕ) → o ≡ ok n → n ≤ 2)
    → IsBounded (xray_follow o e map)
unfolding xray_follow
xray_follow-IsBounded (err x) e map m b = failure-IsBounded map x m
xray_follow-IsBounded (ok n) e map m b =
    quiet-IsBounded _ (with_fix_try n e) (update_at-AtMostTwo (task e) _ map (λ a h. b n refl) m)
      (b n refl)

corrective-IsBounded :
    (kind : SvcKind) (backup : Outcome MonitorError Bool) (e : SvcEntry) (map : ActionMap)
    → AtMostTwo map
    → e.status.fix_try ≤ 2
    → IsBounded (corrective kind backup e map)
unfolding corrective
corrective-IsBounded ssh backup e map m b =
    quiet-IsBounded _ (with_fix_try 1 e) (update_at-AtMostTwo (task e) _ map (λ a h. omega arith) m)
      (omega arith)
corrective-IsBounded nginx backup e map m b = nginx_fix-IsBounded e map m b
corrective-IsBounded (xray name) backup e map m b = elim (Bool-cases (str_eq name super_name)) [
  | inl p ↦
      rw p (unfold super_xray_actions in super_by_health-IsBounded e.status.health backup e map m b)
  | inr p ↦ rw p (
      xray_follow-IsBounded (super_sibling_fixtry e.server map) e map m (λ n h.
        fix_try_of-le (e.server.name, super_xray) map {n = n} m (unfold super_sibling_fixtry in h)))
]

handle_err-IsBounded :
    (auto_fix : Bool) (threshold now : ℕ) (backup : Outcome MonitorError Bool) (e : SvcEntry)
    (map : ActionMap)
    → AtMostTwo map
    → e.status.fix_try ≤ 2
    → IsBounded (handle_err auto_fix threshold now backup e map)
unfolding handle_err
handle_err-IsBounded auto_fix threshold now backup e map m b =
    let e' = count_failure now e in
    let map' = update_at (task e) (λ a. record a { svc_health = sick }) map in
    let m' : AtMostTwo map' = update_at-AtMostTwo (task e) _ map (λ a h. h) m in
    let b' : e'.status.fix_try ≤ 2 = unfold count_failure in b in
    elim (Bool-cases (auto_fix && leb threshold e'.status.failed_count)) [
      | inl p ↦ rw p (corrective-IsBounded e'.kind backup e' map' m' b')
      | inr p ↦ rw p (quiet-IsBounded map' e' m' b')
    ]

reset-le : (e : SvcEntry) → e.status.fix_try ≤ 2 → (reset e).status.fix_try ≤ 2
unfolding reset
reset-le e b = ground arith

handle_ok-IsBounded :
    (backup : Outcome MonitorError Bool) (e : SvcEntry) (map : ActionMap)
    → AtMostTwo map
    → e.status.fix_try ≤ 2
    → IsBounded (handle_ok backup e map)
unfolding handle_ok
handle_ok-IsBounded backup e map m b = elim (Bool-cases (has_inbound e.kind e.server)) [
  | inl p ↦ rw p (elim (Bool-cases (svc_kind_eqb e.kind super_xray)) [
    | inl q ↦ rw q (
        unfold super_xray_actions in
        super_by_health-IsBounded (reset e).status.health backup (reset e) map m (reset-le e b))
    | inr q ↦ rw q (
        quiet-IsBounded _ (reset e) (update_at-AtMostTwo (task e) _ map (λ a h. omega arith) m)
          (reset-le e b))
  ])
  | inr p ↦ rw p (failure-IsBounded map _ m)
]

-- If neither the registry nor the entry of a service counts more than two fix attempts, the same
-- holds of the registry and of the entry that a call leaves, whatever the response.
pub handle_response-IsBounded :
    (auto_fix : Bool) (threshold now : ℕ) (backup : Outcome MonitorError Bool) (response : Response)
    (map : ActionMap)
    → AtMostTwo map
    → (entry_of response).status.fix_try ≤ 2
    → IsBounded (handle_response auto_fix threshold now backup response map)
unfolding handle_response
handle_response-IsBounded auto_fix threshold now backup (passed e) map m b =
    handle_ok-IsBounded backup e map m b
handle_response-IsBounded auto_fix threshold now backup (failed e) map m b =
    handle_err-IsBounded auto_fix threshold now backup e map m b
