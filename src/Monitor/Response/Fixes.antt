-- ===== src/Monitor/Response/Fixes.antt =====
-- The conditions of a fix on what `handle_response` of src/cloud/service.rs is given.
use xcplane.Common.{
  ℕ, ◌+◌, ◌≤◌, ◌≡◌, refl, Bool, true, false, some, [], ◌∷◌, Outcome, arith, Bool-cases, inl, inr,
  subst, if◌then◌else◌, leb, ◌&&◌, ap, sym, ◌∙◌, string_eq, pair_eq, ◌==◌, Eq,
}
use xcplane.Server.Kind.{ssh, super_xray, svc_kind_eq, svc_kind_eqb}
use xcplane.Monitor.{
  SvcHealth, healthy, sick, unknown, is_healthy, SvcEntry, DashAction, Key, ActionMap, task,
  action_at, update_at, sibling_health_check, sibling_kind, action_is_healthy, MonitorError,
}
use xcplane.Monitor.Response.{
  super_by_health, super_xray_actions, count_failure, handle_err, reset, has_inbound, handle_ok,
  Response, passed, failed, handle_response,
}
use xcplane.Monitor.Response.Guards.{fix_runs, runs_fix, MayFix, corrective-MayFix}

abbrev key_eq : Eq Key
key_eq = pair_eq

action_at-update_at_ne :
    (j k : Key) (f : DashAction → DashAction) (map : ActionMap)
    → (k == j) ≡ false
    → action_at j (update_at k f map) ≡ action_at j map
unfolding action_at update_at
action_at-update_at_ne j k f [] h = refl
action_at-update_at_ne j k f ((i, a) ∷ map) h = elim (Bool-cases (i == k)) [
  | inl p ↦
      let e : i ≡ k = (key_eq.eqb_iff i k).0 p in
      let q : (i == j) ≡ false = subst (λ x. (x == j) ≡ false) (sym e) h in rw p (rw q refl)
  | inr p ↦ rw p (ap (λ o. if i == j then some a else o) (action_at-update_at_ne j k f map h))
]

-- The mark that the registry gets at once.
abbrev mark_sick : DashAction → DashAction
mark_sick a = record a { svc_health = sick }

fix_runs-mark_sick :
    (k : Key) (map : ActionMap)
    → fix_runs (action_at k (update_at k mark_sick map)) ≡ fix_runs (action_at k map)
unfolding action_at update_at
fix_runs-mark_sick k [] = refl
fix_runs-mark_sick k ((i, a) ∷ map) = elim (Bool-cases (i == k)) [
  | inl p ↦ rw p (rw p refl)
  | inr p ↦ rw p (rw p (fix_runs-mark_sick k map))
]

-- The health of SSH is not touched by the mark on another service.
sibling_health_check-mark_sick :
    (e : SvcEntry) (map : ActionMap)
    → svc_kind_eqb e.kind ssh ≡ false
    → sibling_health_check e.server (update_at (task e) mark_sick map) ssh
      ≡ sibling_health_check e.server map ssh
unfolding sibling_health_check sibling_kind task
sibling_health_check-mark_sick e map h = ap action_is_healthy (
    action_at-update_at_ne (e.server.name, ssh) (e.server.name, e.kind) mark_sick map
      (ground (arith, h)))

handle_err-MayFix :
    (auto_fix : Bool) (threshold now : ℕ) (backup : Outcome MonitorError Bool) (e : SvcEntry)
    (map : ActionMap)
    → runs_fix (handle_err auto_fix threshold now backup e map) ≡ true
    → (auto_fix ≡ true) × (threshold ≤ e.status.failed_count + 1) × MayFix e map
unfolding handle_err
handle_err-MayFix auto_fix threshold now backup e map h =
    let e' = count_failure now e in
    let map' = update_at (task e) mark_sick map in
    elim (Bool-cases (auto_fix && leb threshold e'.status.failed_count)) [
      | inl p ↦
          let (may, other) = corrective-MayFix e'.kind backup e' map' (rw p at h) in
          (
            ground (arith, p),
            unfold count_failure in ground (arith, p),
            record {
              attempts = unfold count_failure in may.attempts;
              ssh_healthy =
                  sym (sibling_health_check-mark_sick e map (unfold count_failure in other))
                  ∙ (unfold count_failure in may.ssh_healthy);
              idle =
                  sym (fix_runs-mark_sick (task e) map) ∙ (unfold count_failure task in may.idle);
            },
          )
      | inr p ↦ ground (arith, rw p at h)
    ]

is_healthy-reset : (e : SvcEntry) → is_healthy (reset e).status.health ≡ true
unfolding reset
is_healthy-reset e = ground arith

super_by_health-healthy :
    (health : SvcHealth) (backup : Outcome MonitorError Bool) (e : SvcEntry) (map : ActionMap)
    → is_healthy health ≡ true
    → runs_fix (super_by_health health backup e map) ≡ false
unfolding super_by_health
super_by_health-healthy healthy backup e map h = refl
super_by_health-healthy sick backup e map h = ground arith
super_by_health-healthy unknown backup e map h = ground arith

handle_ok-none :
    (backup : Outcome MonitorError Bool) (e : SvcEntry) (map : ActionMap)
    → runs_fix (handle_ok backup e map) ≡ false
unfolding handle_ok
handle_ok-none backup e map = elim (Bool-cases (has_inbound e.kind e.server)) [
  | inl p ↦ rw p (elim (Bool-cases (svc_kind_eqb e.kind super_xray)) [
    | inl q ↦ rw q (
        unfold super_xray_actions in
        super_by_health-healthy (reset e).status.health backup (reset e) map (is_healthy-reset e))
    | inr q ↦ rw q refl
  ])
  | inr p ↦ rw p refl
]

-- A call runs a fix only for a failed check, where fixes are on, the threshold of failures is
-- reached, fewer than two fixes have been completed, SSH on the server is healthy and no other fix
-- of the service runs.
pub handle_response-MayFix :
    (auto_fix : Bool) (threshold now : ℕ) (backup : Outcome MonitorError Bool) (response : Response)
    (map : ActionMap)
    → runs_fix (handle_response auto_fix threshold now backup response map) ≡ true
    → (e : SvcEntry) × (response ≡ failed e)
      × (auto_fix ≡ true)
      × (threshold ≤ e.status.failed_count + 1)
      × MayFix e map
unfolding handle_response
handle_response-MayFix auto_fix threshold now backup (passed e) map h =
    ground (arith, handle_ok-none backup e map, h)
handle_response-MayFix auto_fix threshold now backup (failed e) map h =
    let (on, reached, may) = handle_err-MayFix auto_fix threshold now backup e map h in
    (e, refl, on, reached, may)
